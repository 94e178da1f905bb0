-- ===== src/Batches/Ids.antt =====
-- The ids of batches, and the scope in front of them.
use Prim.Native.Char.{code}
use Prim.Native.String.{◌++◌ as append}
use mesh_ml.Prelude.{
  ℕ, zero, suc, ◌/◌, ◌%◌, String, Bool, ◌&&◌, ◌||◌, Option, none, some, leb, ltb, ◌==◌, ◌=ˢ◌,
  if◌then◌else◌,
}

-- `str(n)`, on fuel: a number has no more digits than it is large.
abbrev pub digit : ℕ → String
digit n =
    if n == 0
    then "0"
    else if n == 1
    then "1"
    else if n == 2
    then "2"
    else if n == 3
    then "3"
    else if n == 4
    then "4"
    else if n == 5
    then "5"
    else if n == 6
    then "6"
    else if n == 7
    then "7"
    else if n == 8
    then "8"
    else "9"

unfoldable pub str_fuel : ℕ → ℕ → String
str_fuel zero n = ""
str_fuel (suc f) n =
    let rest = str_fuel f (n / 10) in if ltb n 10 then digit n else append rest (digit (n % 10))

abbrev pub str : ℕ → String
str n = str_fuel (suc n) n

-- `.replace("/", "-").replace("\\", "-")`
unfoldable pub without_slashes : String → String
without_slashes String.[] = ""
without_slashes (String.◌∷◌ c s) =
    append (if code c == 47 || code c == 92 then "-" else String.◌∷◌ c String.[])
      (without_slashes s)

-- The characters that `str.strip` takes off.
abbrev pub is_space : ℕ → Bool
is_space c =
    leb 9 c && leb c 13
    || leb 28 c && leb c 32
    || c == 133
    || c == 160
    || c == 5760
    || leb 8192 c && leb c 8202
    || c == 8232
    || c == 8233
    || c == 8239
    || c == 8287
    || c == 12288

unfoldable pub lstrip : String → String
lstrip String.[] = ""
lstrip (String.◌∷◌ c s) = let rest = lstrip s in if is_space (code c) then rest else String.◌∷◌ c s

unfoldable pub rstrip : String → String
rstrip String.[] = ""
rstrip (String.◌∷◌ c s) =
    let rest = rstrip s in if is_space (code c) && rest =ˢ "" then "" else String.◌∷◌ c rest

unfoldable pub sanitize_batch_scope : Option String → Option String
unfolding without_slashes lstrip rstrip
sanitize_batch_scope none = none
sanitize_batch_scope (some scope) =
    let clean = rstrip (lstrip (without_slashes scope)) in
    if scope =ˢ "" then none else if clean =ˢ "" then none else some clean

unfoldable pub scoped_batch_id : Option String → String → String
scoped_batch_id scope base_batch_id = elim (sanitize_batch_scope scope) [
  | none ↦ base_batch_id
  | some normalized ↦ append normalized (append "__" base_batch_id)
]

-- `batch_id.split("__", 1)`, if the separator is there
unfoldable pub split_separator : String → Option (String × String)
split_separator String.[] = none
split_separator (String.◌∷◌ c String.[]) = none
split_separator (String.◌∷◌ c (String.◌∷◌ d s)) =
    let later = split_separator (String.◌∷◌ d s) in
    if code c == 95 && code d == 95
    then some ("", s)
    else elim later [ none ↦ none | some (scope, base) ↦ some (String.◌∷◌ c scope, base) ]

unfoldable pub split_batch_scope : String → Option String × String
unfolding split_separator
split_batch_scope batch_id = elim (split_separator batch_id) [
  | none ↦ (none, batch_id)
  | some (scope, base) ↦ (if scope =ˢ "" then none else some scope, base)
]
