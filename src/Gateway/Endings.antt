-- ===== src/Gateway/Endings.antt =====
-- How to reason about a handler step by step, with what each step before returned. No step of a
-- handler that is reasoned about so finds two rows where it asks for one.
use mesh_ml.Prelude.{
  ◌⊎◌, ◌∷◌, ◌++◌, [], ◌≤◌, ◌≡◌, refl, Bool, true, false, Option, none, some, List, subst, inl, inr,
  Bool-cases,
}
use mesh_ml.Gateway.Tables.{
  Response, ok, raised, Refusal, bad_request, unauthorized, forbidden, not_found, unprocessable,
  multiple_found, integrity_error, attribute_error, ◌>>=◌, ◌>>◌, raise_if, or_raise, select_one,
  add_row, any_row,
}
use mesh_ml.Gateway.Counting.{tally, select_one_single}

abbrev pub is_multiple : Refusal → Bool
is_multiple multiple_found = true
is_multiple bad_request = false
is_multiple unauthorized = false
is_multiple forbidden = false
is_multiple not_found = false
is_multiple unprocessable = false
is_multiple integrity_error = false
is_multiple attribute_error = false

-- What is returned meets `P`, and what is raised is not `multiple_found`.
pub data Ensures {A : Type 0} (P : A → Type 0) : Response A → Type 0 where
  returns : {a : A} → P a → Ensures P (ok a)
  raises : {e : Refusal} → is_multiple e ≡ false → Ensures P (raised e)

pub Ensures-ok :
    {A : Type 0} {P : A → Type 0} {m : Response A} {a : A} → Ensures P m → m ≡ ok a → P a
Ensures-ok {P = P} (returns p) e = subst P (cc) p
Ensures-ok (raises _) e = absurd (cc)

pub Ensures-raised :
    {A : Type 0} {P : A → Type 0} {m : Response A} {e : Refusal}
    → Ensures P m
    → m ≡ raised e
    → is_multiple e ≡ false
Ensures-raised (returns p) h = absurd (cc)
Ensures-raised (raises other) h = subst (λ r. is_multiple r ≡ false) (cc) other

pub Response-cases :
    {A : Type 0} (m : Response A) → ((a : A) × (m ≡ ok a)) ⊎ ((e : Refusal) × (m ≡ raised e))
Response-cases (ok a) = inl (a, refl)
Response-cases (raised e) = inr (e, refl)

pub chain_step :
    {A B : Type 0} {Q : A → Type 0} {P : B → Type 0} {m : Response A} (f : A → Response B)
    → Ensures Q m
    → ((a : A) → m ≡ ok a → Q a → Ensures P (f a))
    → Ensures P (m >>= f)
chain_step f (returns {a} q) h = h a refl q
chain_step f (raises other) h = raises other

module _ {A B : Type 0} {P : B → Type 0} where
  pub select_step :
      (p : A → Bool) (rows : List A) (f : Option A → Response B)
      → tally p rows ≤ 1
      → ((o : Option A) → select_one p rows ≡ ok o → Ensures P (f o))
      → Ensures P (select_one p rows >>= f)
  select_step p rows f one h = elim (Response-cases (select_one p rows)) [
    | inl (o, e) ↦ rw e (h o e)
    | inr (r, e) ↦ absurd (select_one_single p rows {e = r} one e)
  ]

  pub add_step :
      (clash : A → Bool) (row : A) (rows : List A) (f : List A → Response B)
      → ((new : List A) → add_row clash row rows ≡ ok new → Ensures P (f new))
      → Ensures P (add_row clash row rows >>= f)
  unfolding add_row
  add_step clash row rows f h = elim (Bool-cases (any_row clash rows)) [
    | inl taken ↦
        let e : add_row clash row rows ≡ raised integrity_error = rw taken refl in
        rw e (raises refl)
    | inr free ↦
        let e : add_row clash row rows ≡ ok (rows ++ row ∷ []) = rw free refl in
        rw e (h (rows ++ row ∷ []) e)
  ]

  pub found_step :
      (o : Option A) (e : Refusal) (f : A → Response B)
      → is_multiple e ≡ false
      → ((a : A) → o ≡ some a → Ensures P (f a))
      → Ensures P (or_raise o e >>= f)
  found_step none e f other h = raises other
  found_step (some a) e f other h = h a refl

pub guard_step :
    {B : Type 0} {P : B → Type 0} (b : Bool) (e : Refusal) (m : Response B)
    → is_multiple e ≡ false
    → (b ≡ false → Ensures P m)
    → Ensures P (raise_if b e >> m)
guard_step true e m other h = raises other
guard_step false e m other h = h refl

pub of_add_row :
    {A : Type 0} {P : List A → Type 0} (clash : A → Bool) (row : A) (rows : List A)
    → ((new : List A) → add_row clash row rows ≡ ok new → P new)
    → Ensures P (add_row clash row rows)
unfolding add_row
of_add_row clash row rows h = elim (Bool-cases (any_row clash rows)) [
  | inl taken ↦ rw taken (raises refl)
  | inr free ↦
      let e : add_row clash row rows ≡ ok (rows ++ row ∷ []) = rw free refl in
      rw free (returns (h (rows ++ row ∷ []) e))
]
