-- ===== src/Batches/Paths.antt =====
-- The paths of the batches' files, which keep two batches of one scope apart.
use Prim.Native.String.{◌++◌ as append}
use mesh_ml.Prelude.{◌≡◌, refl, String, false, ◌=ˢ◌, Option, none, some, List, ℕ}
use mesh_ml.Prelude.Dict.{Dict}
use mesh_ml.Batches.Ids.{split_batch_scope}
use mesh_ml.Batches.Files.{StoredBatch, LocalBatchStorage, paths_for_batch}

abbrev folder : Option String → String
folder none = ""
folder (some scope) = append scope "/"

paths-folder :
    (id : String)
    → (paths_for_batch id).0 ≡ append (folder (split_batch_scope id).0) (append id ".pkl")
unfolding paths_for_batch
paths-folder id = refl

module _ {Sample : Type 0} (measure : List Sample → ℕ) (digest : List Sample → String)
    (samples others : List Sample) (m n : StoredBatch) (files : LocalBatchStorage Sample) where
  abbrev IsApart : Type 0
  IsApart =
      (((paths_for_batch n.batch_id).0 =ˢ (paths_for_batch m.batch_id).0) ≡ false)
      × (((paths_for_batch n.batch_id).1 =ˢ (paths_for_batch m.batch_id).1) ≡ false)
