-- ===== src/Sharder/Chunks.antt =====
-- The slices of `chunk`.
use mathlib.Core.List.{flatten, append-nil}
use mesh_ml.Prelude.{
  ℕ, zero, suc, ◌+◌, ◌-◌, ◌*◌, ◌/◌, ◌%◌, ◌<◌, ◌≡◌, ap, ◌∙◌, List, map, arith, ◌==◌, true, false,
  length, take, drop, range_from, get_elem?, some, take-append-drop, take_of_length-le, drop-drop,
  length-take, length-drop, get_elem?-map, get_elem?-range_from, length-map, length-range_from,
}
use mesh_ml.Sharder.Shards.{chunk, chunks}
use native.Mathlib.Nat.{zero-add, div-add-mod}

module _ (num : ℕ) (items : List ℕ) where
  abbrev per_shard : ℕ
  per_shard = length items / num

  chunk_last : (i : ℕ) → i + 1 ≡ num → chunk num items i ≡ drop (i * per_shard) items
  unfolding chunk
  chunk_last i h =
      let last : (i == num - 1) ≡ true = ground arith in
      rw last
        (take_of_length-le _ _ (omega (arith, length-drop {0} (i * (length items / num)) items)))

  chunk_inner :
      (i : ℕ) → i + 1 < num → chunk num items i ≡ take per_shard (drop (i * per_shard) items)
  unfolding chunk
  chunk_inner i h =
      let inner : (i == num - 1) ≡ false = ground arith in
      rw inner (ap (λ k. take k (drop (i * per_shard) items)) (omega arith))

  flatten-chunks_from :
      (r i : ℕ)
      → i + suc r ≡ num
      → flatten (map (chunk num items) (range_from i (suc r))) ≡ drop (i * per_shard) items
  unfolding flatten
  flatten-chunks_from zero i h = append-nil _ ∙ chunk_last i (omega arith)
  flatten-chunks_from (suc r) i h =
      let next : i * per_shard + per_shard ≡ suc i * per_shard = grind arith in
      rw
        (
          chunk_inner i (omega arith),
          flatten-chunks_from r (suc i) (omega arith),
          ← next,
          ← drop-drop (i * per_shard) per_shard items,
        )
        (take-append-drop per_shard (drop (i * per_shard) items))

-- The pieces, put one after another, are the list: nothing is lost, repeated or moved.
pub flatten-chunks : (num : ℕ) (items : List ℕ) → 0 < num → flatten (chunks num items) ≡ items
unfolding chunks
flatten-chunks zero items h = elim h [ ]
flatten-chunks (suc n) items h =
    let start : 0 * (length items / suc n) ≡ 0 = omega arith in
    flatten-chunks_from (suc n) items n 0 (omega arith) ∙ ap (λ k. drop k items) start

-- How many samples a piece has.
pub length-chunk_inner :
    (num : ℕ) (items : List ℕ) (i : ℕ)
    → i + 1 < num
    → length (chunk num items i) ≡ length items / num
length-chunk_inner num items i h =
    rw (chunk_inner num items i h)
      (length-take _ _ ∙ grind (arith, length-drop {0} (i * (length items / num)) items))

pub length-chunk_last :
    (num : ℕ) (items : List ℕ) (i : ℕ)
    → i + 1 ≡ num
    → length (chunk num items i) ≡ length items / num + length items % num
length-chunk_last num items i h =
    let q = length items / num in
    let all : num * q ≡ i * q + q = rw (← h) (omega arith) in
    rw (chunk_last num items i h)
      (length-drop (i * q) items ∙ omega (arith, div-add-mod (length items) num))

pub get_elem?-chunks :
    (num : ℕ) (items : List ℕ) (i : ℕ)
    → i < num
    → get_elem? (chunks num items) i ≡ some (chunk num items i)
unfolding chunks
get_elem?-chunks num items i h =
    get_elem?-map (chunk num items) (range_from 0 num) i
      (get_elem?-range_from 0 num i h ∙ ap some (zero-add i))

pub length-chunks : (num : ℕ) (items : List ℕ) → length (chunks num items) ≡ num
unfolding chunks
length-chunks num items = length-map _ _ ∙ length-range_from 0 num
