-- ===== src/Metadata/Json.antt =====
-- `serde_json::Value` as the code matches on it, and `get_value_by_path` of
-- crates/surgedb-core/src/filter.rs. The object is an association list in the order in which the
-- map iterates. Printing, equality and numbers are serde_json's: fields of `Serde`.
use Prim.Native.Char.{Char, code}
use zapybase.Prelude.{String, Bool, Option, none, some, List, [], ◌∷◌, eqb, if◌then◌else◌}
use zapybase.Prelude.Eq.{◌==◌, string_eq}
use zapybase.Float.{Float}

mutual
  pub data Value (N : Type 0) : Type 0 where
    null : Value N
    bool : Bool → Value N
    number : N → Value N
    string : String → Value N
    array : Items N → Value N
    object : Fields N → Value N

  pub data Items (N : Type 0) : Type 0 where
    nil : Items N
    cons : Value N → Items N → Items N

  pub data Fields (N : Type 0) : Type 0 where
    end : Fields N
    field : String → Value N → Fields N → Fields N

-- What the code takes from serde_json, and the `f64` that `as_f64` returns.
pub record Serde : Type 1 where
  pub Number : Type 0
  pub float : Float
  pub to_string : Value Number → String
  pub value_eq : Value Number → Value Number → Bool
  pub as_f64 : Value Number → Option (float.Num)

-- `map.get(key)`
unfoldable pub find_field : {N : Type 0} → String → Fields N → Option (Value N)
find_field k end = none
find_field k (field j v fs) = if j == k then some v else find_field k fs

prepend : Char → List String → List String
prepend c [] = String.◌∷◌ c "" ∷ []
prepend c (part ∷ parts) = String.◌∷◌ c part ∷ parts

-- `path.split('.')`
unfoldable pub split_dots : String → List String
unfolding prepend
split_dots String.[] = "" ∷ []
split_dots (String.◌∷◌ c s) =
    let rest = split_dots s in if eqb (code c) b'.' then "" ∷ rest else prepend c rest

unfoldable pub walk_path : {N : Type 0} → Value N → List String → Option (Value N)
unfolding find_field
walk_path current [] = some current
walk_path (object fs) (part ∷ parts) = elim (find_field part fs) [
  | none ↦ none
  | some next ↦ walk_path next parts
]
walk_path current (part ∷ parts) = none

unfoldable pub get_value_by_path : {N : Type 0} → Value N → String → Option (Value N)
unfolding walk_path split_dots
get_value_by_path metadata path =
    if path == "" then some metadata else walk_path metadata (split_dots path)
