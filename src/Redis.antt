-- ===== src/Redis.antt =====
-- The Redis server, which the services only call: what they use of its commands, and what its
-- documentation promises of them. Strings are held decoded; a score is a time.
use mesh_ml.Prelude.{
  ℕ, ◌≤◌, ◌≡◌, String, Bool, true, false, Option, none, some, List, elem, ◌=ˢ◌, if◌then◌else◌,
}

pub record Redis (V : Type 0) : Type 1 where
  -- GET, SET
  pub Strings : Type 0
  pub get : String → Strings → Option V
  pub set : String → V → Strings → Strings
  pub get-set :
      (k j : String) (v : V) (s : Strings)
      → get j (set k v s) ≡ (if k =ˢ j then some v else get j s)
  -- SADD, SREM, SISMEMBER
  pub Set : Type 0
  pub member : String → Set → Bool
  pub sadd : String → Set → Set
  pub srem : String → Set → Set
  pub member-sadd :
      (k j : String) (s : Set) → member j (sadd k s) ≡ (if k =ˢ j then true else member j s)
  pub member-srem :
      (k j : String) (s : Set) → member j (srem k s) ≡ (if k =ˢ j then false else member j s)
  -- SMEMBERS
  pub smembers : Set → List String
  pub elem-smembers : (j : String) (s : Set) → elem j (smembers s) ≡ member j s
  -- ZADD, ZREM, ZSCORE
  pub ZSet : Type 0
  pub score : String → ZSet → Option ℕ
  pub zadd : String → ℕ → ZSet → ZSet
  pub zrem : String → ZSet → ZSet
  pub score-zadd :
      (k j : String) (t : ℕ) (z : ZSet)
      → score j (zadd k t z) ≡ (if k =ˢ j then some t else score j z)
  pub score-zrem :
      (k j : String) (z : ZSet) → score j (zrem k z) ≡ (if k =ˢ j then none else score j z)
  -- ZRANGE key 0 0: a member with the lowest score.
  pub zfirst : ZSet → Option String
  pub zfirst_none : (z : ZSet) (j : String) → zfirst z ≡ none → score j z ≡ none
  pub zfirst_some :
      (z : ZSet) {k : String}
      → zfirst z ≡ some k
      → (t : ℕ) × (score k z ≡ some t) × ((j : String) (u : ℕ) → score j z ≡ some u → t ≤ u)
