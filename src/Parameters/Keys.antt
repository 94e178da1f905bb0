-- ===== src/Parameters/Keys.antt =====
-- The keys under which the checkpoints of a model are saved.
use text.Mathlib.TextLemmas.{append_cancel_left, append-eq-nil_iff}
use mesh_ml.Prelude.{
  ◌≡◌, refl, String, Bool, true, false, none, some, inl, inr, List, [], ◌∷◌, ◌++◌, if◌then◌else◌,
  ◌=ˢ◌, eq_iff, arith, Bool-cases,
}
use mesh_ml.Parameters.Records.{Checkpoint}
use mesh_ml.Parameters.Checkpoints.{
  is_protected, find_checkpoint, saved_key, pop_checkpoint, checkpoint_key,
}
use mesh_ml.Parameters.Retention.{times, others}

-- Each checkpoint is saved under its own key.
pub data IsKeyed (m : String) : List Checkpoint → Type 0 where
  no_checkpoint : IsKeyed m []
  one_checkpoint :
      (c : Checkpoint) (cs : List Checkpoint)
      → c.redis_key ≡ some (checkpoint_key m c.checkpoint_id)
      → IsKeyed m cs
      → IsKeyed m (c ∷ cs)

pub key_apart :
    (m i j : String) → (j =ˢ i) ≡ false → (checkpoint_key m j =ˢ checkpoint_key m i) ≡ false
key_apart m i j other = elim (Bool-cases (checkpoint_key m j =ˢ checkpoint_key m i)) [
  | inl same ↦
      let whole = (eq_iff (checkpoint_key m j) (checkpoint_key m i)).0 same in
      let e =
        append_cancel_left ":" j i
          (append_cancel_left m _ _ (append_cancel_left "checkpoint:" _ _ whole)) in
      absurd (ground (arith, eq_iff j i))
  | inr apart ↦ apart
]

key_named : (m i : String) → (checkpoint_key m i =ˢ "") ≡ false
key_named m i = elim (Bool-cases (checkpoint_key m i =ˢ "")) [
  | inl empty ↦
      let (nil, _) = append-eq-nil_iff.0 ((eq_iff (checkpoint_key m i) "").0 empty) in
      absurd (ground (arith, (eq_iff "checkpoint:" "").1 nil))
  | inr named ↦ named
]

pub when_on {ℓ} :
    {A : Type ℓ} {x z : A} (on : Bool) (y : A) → on ≡ true → x ≡ z → (if on then x else y) ≡ z
when_on true y e h = h
when_on false y e h = absurd (ground arith)

pub pop-IsKeyed :
    (m j : String) (cs : List Checkpoint) → IsKeyed m cs → IsKeyed m (pop_checkpoint j cs)
unfolding pop_checkpoint
pop-IsKeyed m j [] k = k
pop-IsKeyed m j (c ∷ cs) (one_checkpoint _ _ key k) = elim (Bool-cases (c.checkpoint_id =ˢ j)) [
  | inl hit ↦ rw (hit, pop_checkpoint) k
  | inr miss ↦
      rw (miss, pop_checkpoint) (one_checkpoint c (pop_checkpoint j cs) key (pop-IsKeyed m j cs k))
]

pub find-pop :
    (i j : String) (cs : List Checkpoint)
    → (j =ˢ i) ≡ false
    → find_checkpoint i (pop_checkpoint j cs) ≡ find_checkpoint i cs
unfolding find_checkpoint pop_checkpoint
find-pop i j [] other = refl
find-pop i j (c ∷ cs) other =
    ground
      (arith, eq_iff c.checkpoint_id j, eq_iff c.checkpoint_id i, eq_iff j i, find-pop i j cs other)

saved_key-eq :
    (m j : String) (d : Checkpoint)
    → d.redis_key ≡ some (checkpoint_key m j)
    → saved_key d ≡ some (checkpoint_key m j)
unfolding saved_key
saved_key-eq m j d e = ground (arith, key_named m j)

pub found-key :
    (m j : String) (cs : List Checkpoint) (d : Checkpoint)
    → IsKeyed m cs
    → find_checkpoint j cs ≡ some d
    → saved_key d ≡ some (checkpoint_key m j)
unfolding find_checkpoint
found-key m j [] d k e = absurd (ground arith)
found-key m j (c ∷ cs) d (one_checkpoint _ _ key k) e = elim (Bool-cases (c.checkpoint_id =ˢ j)) [
  | inl hit ↦
      let key' : d.redis_key ≡ some (checkpoint_key m j) =
        ground (arith, eq_iff c.checkpoint_id j) in
      saved_key-eq m j d key'
  | inr miss ↦ found-key m j cs d k (ground arith)
]

pub append-IsKeyed :
    (m : String) (cs : List Checkpoint) (c : Checkpoint)
    → IsKeyed m cs
    → c.redis_key ≡ some (checkpoint_key m c.checkpoint_id)
    → IsKeyed m (cs ++ c ∷ [])
append-IsKeyed m [] c k key = one_checkpoint c [] key no_checkpoint
append-IsKeyed m (d ∷ cs) c (one_checkpoint _ _ k' k) key =
    one_checkpoint d (cs ++ c ∷ []) k' (append-IsKeyed m cs c k key)

pub find-append :
    (cs : List Checkpoint) (c : Checkpoint)
    → times c.checkpoint_id cs ≡ 0
    → find_checkpoint c.checkpoint_id (cs ++ c ∷ []) ≡ some c
unfolding find_checkpoint
find-append [] c h = ground (arith, eq_iff c.checkpoint_id c.checkpoint_id)
find-append (d ∷ cs) c h = ground (arith, eq_iff d.checkpoint_id c.checkpoint_id, find-append cs c)

pub others-append :
    (x : String) (cs : List Checkpoint) (c : Checkpoint)
    → is_protected c ≡ true
    → times x cs ≡ 0
    → times x (others (cs ++ c ∷ [])) ≡ 0
others-append x [] c e h = rw e refl
others-append x (d ∷ cs) c e h = ground (arith, others-append x cs c e)

pub times-absent :
    (x : String) (cs : List Checkpoint) → find_checkpoint x cs ≡ none → times x cs ≡ 0
unfolding find_checkpoint
times-absent x [] h = refl
times-absent x (c ∷ cs) h = ground (arith, eq_iff c.checkpoint_id x, times-absent x cs)
