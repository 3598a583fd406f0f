-- ===== src/Metadata/BitmapIndex/Pairs.antt =====
-- The independent description of the index: the pairs (path, printed value) of a metadata value,
-- and what it means that the index holds an id under a pair.
use zapybase.Prelude.{ℕ, String, Bool, false, none, some, List, [], ◌∷◌, ◌++◌, if◌then◌else◌}
use zapybase.Prelude.Eq.{◌==◌, string_eq}
use zapybase.Collections.HashMap
use zapybase.Metadata.Json.{
  Value, null, bool, number, string, array, object, Items, nil, cons, Fields, end, field,
}
use zapybase.Metadata.Roaring.{Roaring}
use zapybase.Metadata.BitmapIndex.{BitmapIndex, key_below}

module _ {N : Type 0} (to_string : Value N → String) where
  abbrev pub primitive_pairs : String → Value N → List (String × String)
  primitive_pairs prefix v = if prefix == "" then [] else (prefix, to_string v) ∷ []

  unfoldable mutual
    -- A value below no field has no pair; an array gives its elements the array's own path.
    pub pairs : String → Value N → List (String × String)
    pairs prefix (object map) = field_pairs prefix map
    pairs prefix (array arr) = item_pairs prefix arr
    pairs prefix null = primitive_pairs prefix null
    pairs prefix (bool x) = primitive_pairs prefix (bool x)
    pairs prefix (number x) = primitive_pairs prefix (number x)
    pairs prefix (string x) = primitive_pairs prefix (string x)

    pub item_pairs : String → Items N → List (String × String)
    item_pairs prefix nil = []
    item_pairs prefix (cons v arr) = pairs prefix v ++ item_pairs prefix arr

    pub field_pairs : String → Fields N → List (String × String)
    field_pairs prefix end = []
    field_pairs prefix (field k v map) = pairs (key_below prefix k) v ++ field_pairs prefix map

module _ (r : Roaring) {N : Type 0} {to_string : Value N → String} where
  -- `id` is in the bitmap of `value` under `path`.
  unfoldable pub holds : BitmapIndex r to_string → String → String → ℕ → Bool
  holds b path value id = elim (HashMap.get b.index path) [
    | none ↦ false
    | some values ↦ elim (HashMap.get values value) [
      | none ↦ false
      | some bitmap ↦ r.contains bitmap id
    ]
  ]
