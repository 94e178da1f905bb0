-- ===== src/Batches/Filing.antt =====
-- The files of the batches: each record lies under the path of its batch, and a clean-up takes the
-- old ones.
use mesh_ml.Prelude.{
  ℕ, ◌≡◌, refl, sym, ap, subst, String, true, false, none, some, List, [], ◌∷◌, ◌=ˢ◌, eq_iff, arith,
  All, All-map, filter_by, All-unsorted, Bool-cases, inl, inr, ◌≢◌,
}
use mesh_ml.Prelude.Dict.{Dict, lookup, insert, erase, values, lookup-erase, lookup-insert}
use mesh_ml.Batches.Files.{
  StoredBatch, LocalBatchStorage, filed, earlier_batch, is_of_shard, paths_for_batch, save_batch,
  delete_batch, list_batches, load_batch, loaded, metadata_not_found,
}
use mesh_ml.Batches.Manager.{is_old, delete_old, cleanup_old_batches}

pub lookup-insert_self :
    {V : Type 0} (k : String) (v : V) (d : Dict V) → lookup k (insert k v d) ≡ some v
lookup-insert_self k v d = ground (arith, lookup-insert k k v d, eq_iff k k)

lookup-erase_self : {V : Type 0} (k : String) (d : Dict V) → lookup k (erase k d) ≡ none
lookup-erase_self k d = ground (arith, lookup-erase k k d, eq_iff k k)

module _ (P : String × StoredBatch → Type 0) where
  All-insert :
      (k : String) (m : StoredBatch) (d : Dict StoredBatch)
      → P (k, m)
      → All P d
      → All P (insert k m d)
  unfolding insert
  All-insert k m [] p all = (p, tt)
  All-insert k m ((j, w) ∷ d) p (here, all) = elim (Bool-cases (j =ˢ k)) [
    | inl same ↦ rw same (subst (λ i. P (i, m)) (sym ((eq_iff j k).0 same)) p, all)
    | inr other ↦ rw other (here, All-insert k m d p all)
  ]

  All-erase : (k : String) (d : Dict StoredBatch) → All P d → All P (erase k d)
  unfolding erase
  All-erase k [] all = tt
  All-erase k ((j, w) ∷ d) (here, all) = elim (Bool-cases (j =ˢ k)) [
    | inl same ↦ rw same (All-erase k d all)
    | inr other ↦ rw other (here, All-erase k d all)
  ]

-- Each record lies under the path of its batch.
abbrev pub IsFiled : Dict StoredBatch → Type 0
IsFiled d = All (λ e. (paths_for_batch e.1.batch_id).1 ≡ e.0) d

module _ {Sample : Type 0} where
  pub save_batch-IsFiled :
      (measure : List Sample → ℕ) (digest : List Sample → String) (samples : List Sample)
      (m : StoredBatch) (files : LocalBatchStorage Sample)
      → IsFiled files.batch_metadata
      → IsFiled (save_batch measure digest samples m files).batch_metadata
  unfolding save_batch
  save_batch-IsFiled measure digest samples m files inv =
      All-insert _ _ _ files.batch_metadata refl inv

  -- A batch that is saved is loaded with the samples that were saved and with the record that
  -- `save_batch` completes; once it is deleted, its record is not found.
  pub load_batch-save_batch :
      (measure : List Sample → ℕ) (digest : List Sample → String) (samples : List Sample)
      (m : StoredBatch) (files : LocalBatchStorage Sample)
      → (load_batch m.batch_id (save_batch measure digest samples m files)
          ≡ loaded samples (filed measure digest samples m))
        × (load_batch m.batch_id
              (delete_batch m.batch_id (save_batch measure digest samples m files)).0
            ≡ metadata_not_found)
  unfolding load_batch save_batch delete_batch
  load_batch-save_batch measure digest samples m files =
      let (place, path) = paths_for_batch m.batch_id in
      let stored = filed measure digest samples m in
      (
        rw (lookup-insert_self path stored files.batch_metadata, load_batch)
            (rw (lookup-insert_self place samples files.batches) refl),
        rw (lookup-erase_self path (insert path stored files.batch_metadata), load_batch) refl,
      )

  pub delete_batch-IsFiled :
      (id : String) (files : LocalBatchStorage Sample)
      → IsFiled files.batch_metadata
      → IsFiled (delete_batch id files).0.batch_metadata
  unfolding delete_batch
  delete_batch-IsFiled id files inv = All-erase _ _ files.batch_metadata inv

-- The path of a batch that is deleted is free.
freed :
    {Sample : Type 0} (m : StoredBatch) (files : LocalBatchStorage Sample)
    → lookup (paths_for_batch m.batch_id).1 (delete_batch m.batch_id files).0.batch_metadata ≡ none
unfolding delete_batch
freed m files =
    let path = (paths_for_batch m.batch_id).1 in
    ground (arith, eq_iff path path, lookup-erase path path files.batch_metadata)

filter_by_all : (ms : List StoredBatch) → filter_by (is_of_shard none) ms ≡ ms
filter_by_all [] = refl
filter_by_all (m ∷ rest) = ap (◌∷◌ m) (filter_by_all rest)

module _ {A : Type 0} where
  All-zip : (P Q : A → Type 0) (xs : List A) → All P xs → All Q xs → All (λ x. P x × Q x) xs
  All-zip P Q [] p q = tt
  All-zip P Q (x ∷ xs) (p, ps) (q, qs) = ((p, q), All-zip P Q xs ps qs)

All-values :
    (P : StoredBatch → Type 0) (d : Dict StoredBatch) → All P (values d) → All (λ e. P e.1) d
All-values P [] all = tt
All-values P (e ∷ d) (p, ps) = (p, All-values P d ps)

-- The key of each entry is found.
All-lookup : (d : Dict StoredBatch) → All (λ e. lookup e.0 d ≢ none) d
unfolding lookup
All-lookup [] = tt
All-lookup ((j, m) ∷ d) =
    (ground (arith, eq_iff j j), All-map _ _ d (λ e found. ground arith) (All-lookup d))

module _ {Sample : Type 0} (now age : ℕ) where
  -- What is true of every record is true of those that are left.
  delete_old-All :
      (P : String × StoredBatch → Type 0) (ms : List StoredBatch) (files : LocalBatchStorage Sample)
      → All P files.batch_metadata
      → All P (delete_old now age ms files).0.batch_metadata
  unfolding delete_old delete_batch
  delete_old-All P [] files all = all
  delete_old-All P (m ∷ rest) files all = elim (Bool-cases (is_old now age m)) [
    | inl old ↦ rw old (delete_old-All P rest _ (All-erase P _ files.batch_metadata all))
    | inr young ↦ rw young (delete_old-All P rest files all)
  ]

  -- A path that is free stays free.
  delete_old-lookup :
      (p : String) (ms : List StoredBatch) (files : LocalBatchStorage Sample)
      → lookup p files.batch_metadata ≡ none
      → lookup p (delete_old now age ms files).0.batch_metadata ≡ none
  unfolding delete_old delete_batch
  delete_old-lookup p [] files free = free
  delete_old-lookup p (m ∷ rest) files free = elim (Bool-cases (is_old now age m)) [
    | inl old ↦
        let path = (paths_for_batch m.batch_id).1 in
        rw old
          (delete_old-lookup p rest _ (ground (arith, lookup-erase path p files.batch_metadata)))
    | inr young ↦ rw young (delete_old-lookup p rest files free)
  ]

  -- A batch that is old has no record at its path.
  abbrev IsGone : LocalBatchStorage Sample → StoredBatch → Type 0
  IsGone files m =
      is_old now age m ≡ true → lookup (paths_for_batch m.batch_id).1 files.batch_metadata ≡ none

  delete_old_first :
      (m : StoredBatch) (rest : List StoredBatch) (files : LocalBatchStorage Sample)
      → is_old now age m ≡ true
      → (delete_old now age (m ∷ rest) files).0
        ≡ (delete_old now age rest (delete_batch m.batch_id files).0).0
  unfolding delete_old
  delete_old_first m rest files old = rw old refl

  keep_first :
      (m : StoredBatch) (rest : List StoredBatch) (files : LocalBatchStorage Sample)
      → is_old now age m ≡ false
      → (delete_old now age (m ∷ rest) files).0 ≡ (delete_old now age rest files).0
  unfolding delete_old
  keep_first m rest files young = rw young refl

  -- The old batches that were listed are gone.
  delete_old-IsGone :
      (ms : List StoredBatch) (files : LocalBatchStorage Sample)
      → All (IsGone (delete_old now age ms files).0) ms
  delete_old-IsGone [] files = tt
  delete_old-IsGone (m ∷ rest) files = elim (Bool-cases (is_old now age m)) [
    | inl old ↦
        let left = (delete_batch m.batch_id files).0 in
        subst (λ d. All (IsGone d) (m ∷ rest)) (sym (delete_old_first m rest files old))
          (
            λ h. delete_old-lookup (paths_for_batch m.batch_id).1 rest left (freed m files),
            delete_old-IsGone rest left,
          )
    | inr young ↦
        subst (λ d. All (IsGone d) (m ∷ rest)) (sym (keep_first m rest files young))
          (λ h. absurd (cc), delete_old-IsGone rest files)
  ]

  still_young :
      (final : LocalBatchStorage Sample) (e : String × StoredBatch)
      → lookup e.0 final.batch_metadata ≢ none
      → (paths_for_batch e.1.batch_id).1 ≡ e.0
      → IsGone final e.1
      → is_old now age e.1 ≡ false
  still_young final e found path gone = elim (Bool-cases (is_old now age e.1)) [
    | inl old ↦ absurd (found (subst (λ p. lookup p final.batch_metadata ≡ none) path (gone old)))
    | inr young ↦ young
  ]

  listed-All :
      (P : StoredBatch → Type 0) (files : LocalBatchStorage Sample)
      → All P (list_batches none files)
      → All P (values files.batch_metadata)
  unfolding list_batches
  listed-All P files all = subst (All P) (filter_by_all (values files.batch_metadata)) (
      All-unsorted earlier_batch P (filter_by (is_of_shard none) (values files.batch_metadata)) all)

  -- Where each record lies under the path of its batch, a clean-up leaves no record of a batch that is
  -- older than the age that it was given, and each record still lies under its path.
  pub cleanup_old_batches-IsYoung :
      (files : LocalBatchStorage Sample)
      → IsFiled files.batch_metadata
      → IsFiled (cleanup_old_batches now age files).0.batch_metadata
        × All (λ e. is_old now age e.1 ≡ false) (cleanup_old_batches now age files).0.batch_metadata
  unfolding cleanup_old_batches
  cleanup_old_batches-IsYoung files inv =
      let ms = list_batches none files in
      let final = (delete_old now age ms files).0 in
      let gone = listed-All (IsGone final) files (delete_old-IsGone ms files) in
      let filed_and_gone = delete_old-All _ ms files (
        All-zip (λ e. (paths_for_batch e.1.batch_id).1 ≡ e.0) (λ e. IsGone final e.1)
          files.batch_metadata inv (All-values (IsGone final) files.batch_metadata gone)) in
      (
        delete_old-All _ ms files inv,
        All-map _ (λ e. is_old now age e.1 ≡ false) final.batch_metadata
            (λ e h. still_young final e h.0 h.1.0 h.1.1)
            (All-zip _ _ final.batch_metadata (All-lookup final.batch_metadata) filed_and_gone),
      )
