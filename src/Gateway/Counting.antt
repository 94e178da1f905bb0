-- ===== src/Gateway/Counting.antt =====
-- How many rows of a table a key selects, under each write of the gateway's handlers.
use mesh_ml.Prelude.{
  ℕ, ◌+◌, ◌≤◌, ◌≡◌, refl, Bool, true, false, ◌&&◌, ◌||◌, none, some, List, [], ◌∷◌, ◌++◌,
  if◌then◌else◌, filter_by, length, arith, Bool-cases, inl, inr, ◌≢◌, String, subst,
}
use mesh_ml.Gateway.Tables.{
  ok, raised, one_or_none, select_one, any_row, add_row, update_rows, delete_rows, Refusal,
}

module _ {A : Type 0} where
  unfoldable pub tally : (A → Bool) → List A → ℕ
  tally p [] = 0
  tally p (x ∷ xs) = if p x then tally p xs + 1 else tally p xs

  -- The tally is the length of what a query returns.
  length-filter_by : (p : A → Bool) (xs : List A) → length (filter_by p xs) ≡ tally p xs
  unfolding tally
  length-filter_by p [] = refl
  length-filter_by p (x ∷ xs) = ground (arith, length-filter_by p xs)

  one_of_length : (xs : List A) {e : Refusal} → length xs ≤ 1 → one_or_none xs ≢ raised e
  unfolding one_or_none
  one_of_length [] h e = cc
  one_of_length (x ∷ []) h e = cc
  one_of_length (x ∷ y ∷ rest) h e = absurd (omega arith)

  -- A key that selects at most one row never ends a request.
  pub select_one_single :
      (p : A → Bool) (xs : List A) {e : Refusal} → tally p xs ≤ 1 → select_one p xs ≢ raised e
  unfolding select_one
  select_one_single p xs h = one_of_length (filter_by p xs) (omega (arith, length-filter_by p xs))

  none_of_length : (xs : List A) → one_or_none xs ≡ ok none → length xs ≡ 0
  unfolding one_or_none
  none_of_length [] h = refl
  none_of_length (x ∷ []) h = absurd (cc)
  none_of_length (x ∷ y ∷ rest) h = absurd (cc)

  pub select_one-none : (p : A → Bool) (xs : List A) → select_one p xs ≡ ok none → tally p xs ≡ 0
  unfolding select_one
  select_one-none p xs h = omega (arith, length-filter_by p xs, none_of_length (filter_by p xs) h)

  pub tally-append :
      (p : A → Bool) (xs : List A) (x : A)
      → tally p (xs ++ x ∷ []) ≡ (if p x then tally p xs + 1 else tally p xs)
  unfolding tally
  tally-append p [] x = refl
  tally-append p (y ∷ ys) x = ground (arith, tally-append p ys x)

  pub any_row-tally : (p : A → Bool) (xs : List A) → any_row p xs ≡ false → tally p xs ≡ 0
  unfolding tally
  any_row-tally p [] h = refl
  any_row-tally p (x ∷ xs) h = ground (arith, any_row-tally p xs)

  pub tally-delete_rows : (p q : A → Bool) (xs : List A) → tally p (delete_rows q xs) ≤ tally p xs
  unfolding tally delete_rows
  tally-delete_rows p q [] = omega arith
  tally-delete_rows p q (x ∷ xs) = ground (arith, tally-delete_rows p q xs)

  -- A write that leaves the key alone.
  pub tally-update_rows :
      (p q : A → Bool) (f : A → A) (xs : List A)
      → ((x : A) → p (f x) ≡ p x)
      → tally p (update_rows q f xs) ≡ tally p xs
  unfolding tally update_rows
  tally-update_rows p q f [] same = refl
  tally-update_rows p q f (x ∷ xs) same = ground (arith, same x, tally-update_rows p q f xs same)

  -- A write that can give the key to a row: at most one more for each row that is written.
  pub tally-update_rows_le :
      (p q r : A → Bool) (f : A → A) (xs : List A)
      → ((x : A) → q x ≡ true → p (f x) ≡ true → p x ≡ false → r x ≡ true)
      → tally p (update_rows q f xs) ≤ tally p xs + tally r xs
  unfolding tally update_rows
  tally-update_rows_le p q r f [] covers = omega arith
  tally-update_rows_le p q r f (x ∷ xs) covers =
      ground (arith, covers x, tally-update_rows_le p q r f xs covers)

  pub tally-false : (xs : List A) → tally (λ x. false) xs ≡ 0
  unfolding tally
  tally-false [] = refl
  tally-false (x ∷ xs) = tally-false xs

  pub tally_mono :
      (p q : A → Bool) (xs : List A) → ((x : A) → p x ≡ true → q x ≡ true) → tally p xs ≤ tally q xs
  unfolding tally
  tally_mono p q [] h = omega arith
  tally_mono p q (x ∷ xs) h = ground (arith, h x, tally_mono p q xs h)

  pub tally_none :
      (p q : A → Bool) (xs : List A)
      → tally q xs ≡ 0
      → ((x : A) → p x ≡ true → q x ≡ true)
      → tally p xs ≡ 0
  tally_none p q xs none_there h = omega (arith, none_there, tally_mono p q xs h)

  -- Two keys that no row has both of.
  pub tally_disjoint :
      (p q r : A → Bool) (xs : List A)
      → ((x : A) → p x ≡ true → r x ≡ true)
      → ((x : A) → q x ≡ true → r x ≡ true)
      → ((x : A) → p x ≡ true → q x ≡ true → ⊥)
      → tally p xs + tally q xs ≤ tally r xs
  unfolding tally
  tally_disjoint p q r [] hp hq no_both = omega arith
  tally_disjoint p q r (x ∷ xs) hp hq no_both =
      ground (arith, hp x, hq x, no_both x, tally_disjoint p q r xs hp hq no_both)

  -- A delete of other rows.
  pub tally-delete_rows_ne :
      (p q : A → Bool) (xs : List A)
      → ((x : A) → p x ≡ true → q x ≡ false)
      → tally p (delete_rows q xs) ≡ tally p xs
  unfolding tally delete_rows
  tally-delete_rows_ne p q [] other = refl
  tally-delete_rows_ne p q (x ∷ xs) other =
      ground (arith, other x, tally-delete_rows_ne p q xs other)

  pub tally-delete_rows_self : (q : A → Bool) (xs : List A) → tally q (delete_rows q xs) ≡ 0
  unfolding tally delete_rows
  tally-delete_rows_self q [] = refl
  tally-delete_rows_self q (x ∷ xs) = ground (arith, tally-delete_rows_self q xs)

  head_of_filter :
      (p q : A → Bool) (xs : List A) {x : A} {rest : List A}
      → filter_by p xs ≡ x ∷ rest
      → (p x ≡ true) × (q x ≡ true → 1 ≤ tally q xs)
  unfolding tally
  head_of_filter p q [] h = absurd (cc)
  head_of_filter p q (y ∷ ys) {x = x} {rest = rest} h = elim (Bool-cases (p y)) [
    | inl here ↦ let e : y ≡ x = ground (arith) in (ground arith, λ qx. ground arith)
    | inr there ↦
        let (px, found) = head_of_filter p q ys {x = x} {rest = rest} (ground arith) in
        (px, λ qx. ground (arith, found qx))
  ]

  single_of_one : (xs : List A) {x : A} → one_or_none xs ≡ ok (some x) → xs ≡ x ∷ []
  unfolding one_or_none
  single_of_one [] h = absurd (cc)
  single_of_one (x ∷ []) h = cc
  single_of_one (x ∷ y ∷ rest) h = absurd (cc)

  -- The row that a query returns has the key, and counts for each key that it has.
  pub select_one-some :
      (p q : A → Bool) (xs : List A) {x : A}
      → select_one p xs ≡ ok (some x)
      → (p x ≡ true) × (q x ≡ true → 1 ≤ tally q xs)
  unfolding select_one
  select_one-some p q xs {x = x} h =
      head_of_filter p q xs {x = x} {rest = []} (single_of_one (filter_by p xs) h)

  pub add_row-ok :
      (clash : A → Bool) (row : A) (rows : List A) {new : List A}
      → add_row clash row rows ≡ ok new
      → (tally clash rows ≡ 0) × (new ≡ rows ++ row ∷ [])
  unfolding add_row
  add_row-ok clash row rows h = elim (Bool-cases (any_row clash rows)) [
    | inl taken ↦ absurd (ground arith)
    | inr free ↦ (any_row-tally clash rows free, ground arith)
  ]

  -- Writes and deletes that meet no row of the key.
  pub tally-update_rows_off :
      (p q : A → Bool) (f : A → A) (xs : List A)
      → tally (λ x. q x && (p x || p (f x))) xs ≡ 0
      → tally p (update_rows q f xs) ≡ tally p xs
  unfolding tally update_rows
  tally-update_rows_off p q f [] none_both = refl
  tally-update_rows_off p q f (x ∷ xs) none_both = ground (arith, tally-update_rows_off p q f xs)

  pub tally-delete_rows_off :
      (p q : A → Bool) (xs : List A)
      → tally (λ x. q x && p x) xs ≡ 0
      → tally p (delete_rows q xs) ≡ tally p xs
  unfolding tally delete_rows
  tally-delete_rows_off p q [] none_both = refl
  tally-delete_rows_off p q (x ∷ xs) none_both = ground (arith, tally-delete_rows_off p q xs)

  pub any_row_none : (p : A → Bool) (xs : List A) → tally p xs ≡ 0 → any_row p xs ≡ false
  unfolding tally
  any_row_none p [] h = refl
  any_row_none p (x ∷ xs) h = ground (arith, any_row_none p xs)

  -- A row joins those that a key selects: it is the first.
  pub append_unique :
      (p : A → Bool) (x : A) (xs : List A)
      → tally p xs ≤ 1
      → (p x ≡ true → tally p xs ≡ 0)
      → tally p (xs ++ x ∷ []) ≤ 1
  append_unique p x xs one first = ground (arith, tally-append p xs x)

  -- Each key selects at most one row.
  abbrev pub Unique : (String → A → Bool) → List A → Type 0
  Unique key rows = (k : String) → tally (key k) rows ≤ 1

  module _ (key : String → A → Bool) (rows : List A) (inv : Unique key rows) where
    pub Unique-append :
        (k : String) (row : A)
        → ((j : String) → key j row ≡ true → k ≡ j)
        → tally (key k) rows ≡ 0
        → Unique key (rows ++ row ∷ [])
    Unique-append k row only free = λ j.
        append_unique (key j) row rows (inv j)
          (λ same. subst (λ i. tally (key i) rows ≡ 0) (only j same) free)

    pub Unique-delete_rows : (p : A → Bool) → Unique key (delete_rows p rows)
    Unique-delete_rows p = λ j. omega (arith, tally-delete_rows (key j) p rows, inv j)

    pub Unique-update_rows :
        (p : A → Bool) (f : A → A)
        → ((j : String) (x : A) → key j (f x) ≡ key j x)
        → Unique key (update_rows p f rows)
    Unique-update_rows p f same =
        λ j. omega (arith, tally-update_rows (key j) p f rows (same j), inv j)
