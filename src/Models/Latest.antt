-- ===== src/Models/Latest.antt =====
-- What the queries of the versions answer.
use mesh_ml.Prelude.{
  ℕ, ◌≡◌, ◌≤◌, refl, subst, Bool, true, false, Option, none, some, List, [], ◌∷◌, ◌≢◌,
  if◌then◌else◌, arith, All, All-map, All-place, All-sorted, All-unsorted, place, sorted, ◌&&◌,
  filter_by, Bool-cases, inl, inr,
}
use mathlib.Core.List.{Mem, mem-cons_self, mem-cons_of_mem}
use mesh_ml.Models.Table.{Model, Models, model_of, model_of-id}
use mesh_ml.Models.Queries.{
  created_after, is_ready_child, first_row, get_latest_version, get_version_history, root_id,
}

abbrev NotAfter : Model → Model → Type 0
NotAfter m n = n.created_at ≤ m.created_at

-- The first row of the list is a newest one.
abbrev StartsWithNewest : List Model → Type 0
StartsWithNewest [] = Unit
StartsWithNewest (m ∷ ms) = All (NotAfter m) ms

place-StartsWithNewest :
    (x : Model) (xs : List Model)
    → StartsWithNewest xs
    → StartsWithNewest (place created_after x xs)
unfolding place
place-StartsWithNewest x [] newest = tt
place-StartsWithNewest x (y ∷ ys) newest = elim (Bool-cases (created_after y x)) [
  | inl later ↦ rw later (All-place created_after (NotAfter y) x ys (ground (arith)) newest)
  | inr here ↦
      let le : y.created_at ≤ x.created_at = ground (arith) in
      rw here (le, All-map (NotAfter y) (NotAfter x) ys (λ z h. omega (arith, h, le)) newest)
]

sorted-StartsWithNewest : (ms : List Model) → StartsWithNewest (sorted created_after ms)
unfolding sorted
sorted-StartsWithNewest [] = tt
sorted-StartsWithNewest (m ∷ ms) = place-StartsWithNewest m _ (sorted-StartsWithNewest ms)

module _ (p : Model → Bool) where
  -- What is true of every row is true of those that a query selects, which meet its condition.
  filter_by-All :
      (P : Model → Type 0) (ms : List Model)
      → All P ms
      → All (λ n. P n × (p n ≡ true)) (filter_by p ms)
  filter_by-All P [] all = tt
  filter_by-All P (m ∷ ms) (pm, all) = elim (Bool-cases (p m)) [
    | inl meets ↦ rw meets ((pm, meets), filter_by-All P ms all)
    | inr fails ↦ rw fails (filter_by-All P ms all)
  ]

  All-filter_by :
      (P Q : Model → Type 0) (ms : List Model)
      → ((n : Model) → p n ≡ true → P n → Q n)
      → ((n : Model) → p n ≡ false → Q n)
      → All P (filter_by p ms)
      → All Q ms
  All-filter_by P Q [] chosen other all = tt
  All-filter_by P Q (m ∷ ms) chosen other all = elim (Bool-cases (p m)) [
    | inl meets ↦
        let (pm, rest) =
          subst (λ b. All P (if b then m ∷ filter_by p ms else filter_by p ms)) meets all in
        (chosen m meets pm, All-filter_by P Q ms chosen other rest)
    | inr fails ↦
        let rest =
          subst (λ b. All P (if b then m ∷ filter_by p ms else filter_by p ms)) fails all in
        (other m fails, All-filter_by P Q ms chosen other rest)
  ]

All-Mem : (ms : List Model) → All (λ n. Mem n ms) ms
All-Mem [] = tt
All-Mem (m ∷ ms) =
    (mem-cons_self, All-map (λ n. Mem n ms) _ ms (λ n h. mem-cons_of_mem m h) (All-Mem ms))

-- The answer is a ready version of the parent in the table than which none is newer, or there is none.
abbrev pub IsLatest : ℕ → Models → Option Model → Type 0
IsLatest parent ms none = All (λ n. is_ready_child parent n ≡ false) ms
IsLatest parent ms (some m) =
    Mem m ms
    × (is_ready_child parent m ≡ true)
    × All (λ n. is_ready_child parent n && created_after n m ≡ false) ms

first-IsLatest :
    (parent : ℕ) (ms ys : Models)
    → All (λ n. Mem n ms × (is_ready_child parent n ≡ true)) ys
    → ((P : Model → Type 0) → All P ys → All P (filter_by (is_ready_child parent) ms))
    → StartsWithNewest ys
    → IsLatest parent ms (first_row ys)
first-IsLatest parent ms [] members back newest =
    All-filter_by (is_ready_child parent) (λ n. ⊥) _ ms (λ n meets h. absurd h) (λ n fails. fails)
      (back (λ n. ⊥) tt)
first-IsLatest parent ms (m ∷ ys) ((here, usable), members) back newest = (
  here,
  usable,
  All-filter_by (is_ready_child parent) (NotAfter m) _ ms (λ n meets h. ground arith)
      (λ n fails. ground arith) (back (NotAfter m) ((omega arith), newest)),
)

-- The latest version of a model is a ready version of it in the table, and no ready version of it was
-- created later; there is no latest version only when the model has no ready version.
pub get_latest_version-IsLatest :
    (parent : ℕ) (ms : Models) → IsLatest parent ms (get_latest_version parent ms)
unfolding get_latest_version
get_latest_version-IsLatest parent ms =
    let rows = filter_by (is_ready_child parent) ms in
    first-IsLatest parent ms (sorted created_after rows)
      (All-sorted created_after _ rows
        (filter_by-All (is_ready_child parent) (λ n. Mem n ms) ms (All-Mem ms)))
      (λ P all. All-unsorted created_after P rows all) (sorted-StartsWithNewest rows)

-- The history of a version of an original model is the history of that model.
pub get_version_history-parent :
    (id p : ℕ) (m parent : Model) (ms : Models)
    → model_of id ms ≡ some m
    → m.parent_model_id ≡ some p
    → p ≢ 0
    → model_of p ms ≡ some parent
    → parent.parent_model_id ≡ none
    → get_version_history id ms ≡ get_version_history p ms
unfolding get_version_history
get_version_history-parent id p m parent ms found child positive found' original =
    let same : parent.id ≡ p = model_of-id p ms parent found' in
    let root : root_id m ≡ p = ground arith in
    let root' : root_id parent ≡ p = ground arith in
    rw (found, get_version_history, found', root, root') refl
