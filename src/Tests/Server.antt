-- ===== src/Tests/Server.antt =====
-- A Redis server with association lists for its values: the assumptions of `Redis` can be met.
use mesh_ml.Prelude.{
  ℕ, ◌≤◌, ◌≡◌, refl, String, true, false, Option, none, some, List, [], ◌∷◌, elem, ◌=ˢ◌, eq_iff,
  leb, if◌then◌else◌, arith, Option-cases, inl, inr, is_some,
}
use mesh_ml.Prelude.Dict.{Dict, lookup, insert, erase, keys, lookup-insert, lookup-erase}
use mesh_ml.Redis.{Redis}

pub drop_text : String → List String → List String
drop_text k [] = []
drop_text k (x ∷ xs) = let rest = drop_text k xs in if x =ˢ k then rest else x ∷ rest

pub elem-drop_text :
    (k j : String) (xs : List String)
    → elem j (drop_text k xs) ≡ (if k =ˢ j then false else elem j xs)
unfolding drop_text
elem-drop_text k j [] = ground arith
elem-drop_text k j (x ∷ xs) =
    ground (arith, eq_iff x k, eq_iff k j, eq_iff x j, elem-drop_text k j xs)

-- The score of a member, 0 for any other text.
rank : Dict ℕ → String → ℕ
rank z k = elim (lookup k z) [ none ↦ 0 | some t ↦ t ]

pub lowest : Dict ℕ → List String → Option String
lowest z [] = none
lowest z (k ∷ ks) = elim (lowest z ks) [
  | none ↦ some k
  | some j ↦ if leb (rank z k) (rank z j) then some k else some j
]

lowest-none : (z : Dict ℕ) (ks : List String) (j : String) → lowest z ks ≡ none → elem j ks ≡ false
unfolding lowest
lowest-none z [] j h = refl
lowest-none z (k ∷ ks) j h = absurd (ground arith)

lowest-some :
    (z : Dict ℕ) (ks : List String) {b : String}
    → lowest z ks ≡ some b
    → (elem b ks ≡ true) × ((j : String) → elem j ks ≡ true → rank z b ≤ rank z j)
unfolding lowest
lowest-some z [] h = absurd (ground arith)
lowest-some z (k ∷ ks) {b} h = elim (Option-cases (lowest z ks)) [
  | inl e ↦ (ground (arith, eq_iff k b), λ j m. ground (arith, lowest-none z ks j e, eq_iff k j))
  | inr (c, e) ↦
      let (m, low) = lowest-some z ks e in
      (ground (arith, eq_iff k b), λ j n. ground (arith, eq_iff k j, low j))
]

elem-keys : (z : Dict ℕ) (k : String) → elem k (keys z) ≡ is_some (lookup k z)
unfolding lookup
elem-keys [] k = refl
elem-keys ((j, t) ∷ z) k = ground (arith, elem-keys z k)

lookup-rank : (z : Dict ℕ) (k : String) → is_some (lookup k z) ≡ true → lookup k z ≡ some (rank z k)
unfolding rank
lookup-rank z k h = ground arith

rank_of :
    (z : Dict ℕ) (k : String) {t : ℕ}
    → lookup k z ≡ some t
    → (is_some (lookup k z) ≡ true) × (rank z k ≡ t)
unfolding rank
rank_of z k h = ground arith

pub first_none : (z : Dict ℕ) (j : String) → lowest z (keys z) ≡ none → lookup j z ≡ none
first_none z j h = ground (arith, lowest-none z (keys z) j h, elem-keys z j)

pub first_some :
    (z : Dict ℕ) {k : String}
    → lowest z (keys z) ≡ some k
    → (t : ℕ) × (lookup k z ≡ some t) × ((j : String) (u : ℕ) → lookup j z ≡ some u → t ≤ u)
first_some z {k} h =
    let (here, low) = lowest-some z (keys z) h in
    (
      rank z k,
      lookup-rank z k (ground (arith, elem-keys z k)),
      λ j u e.
          let (there, same) = rank_of z j e in omega (arith, low j (ground (arith, elem-keys z j))),
    )

abbrev pub server : (V : Type 0) → Redis V
server V = record {
  Strings = Dict V;
  get = lookup;
  set = insert;
  get-set = lookup-insert;
  Set = List String;
  member = elem;
  sadd = ◌∷◌;
  srem = drop_text;
  member-sadd = λ k j s. refl;
  member-srem = elem-drop_text;
  smembers = λ s. s;
  elem-smembers = λ j s. refl;
  ZSet = Dict ℕ;
  score = lookup;
  zadd = insert;
  zrem = erase;
  score-zadd = lookup-insert;
  score-zrem = lookup-erase;
  zfirst = λ z. lowest z (keys z);
  zfirst_none = first_none;
  zfirst_some = first_some;
}

-- What a test has to see through.
unfoldable pub model : Unit {0}
unfolding lookup insert erase drop_text rank lowest
model = tt
