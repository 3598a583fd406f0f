-- ===== src/Metadata/BitmapIndex.antt =====
-- crates/surgedb-core/src/bitmap_index.rs: the inverted index field -> value -> set of ids. A
-- bitmap behind an `Arc` is copied before it is written when it is shared, so it is a value here.
pub mod Pairs
pub mod Update
pub mod Query
use Prim.Native.String.{◌++◌ as append}
use zapybase.Prelude.{
  ℕ, String, Bool, true, false, Option, none, some, List, [], ◌∷◌, if◌then◌else◌,
}
use zapybase.Prelude.Eq.{◌==◌, string_eq}
use zapybase.Collections.HashMap
use zapybase.Collections.HashMap.{HashMap}
use zapybase.Metadata.Json.{
  Value, null, bool, number, string, array, object, Items, nil, cons, Fields, end, field,
}
use zapybase.Metadata.Roaring.{Roaring}
use zapybase.Metadata.Filter.{
  Filter, exact, one_of, all_of, any_of, not_of, range, geo_radius, Filters, none_left, next,
}

abbrev pub get_or {ℓ} : {A : Type ℓ} → Option A → A → A
get_or none d = d
get_or (some a) d = a

-- the key of field `k` below `prefix`
abbrev pub key_below : String → String → String
key_below prefix k = if prefix == "" then k else append prefix (append "." k)

module _ (r : Roaring) {N : Type 0} (to_string : Value N → String) where
  open r use {Bitmap}

  abbrev pub Values : Type 0
  Values = HashMap String Bitmap

  pub record BitmapIndex : Type 0 where
    pub index : HashMap String Values

  unfoldable pub new : BitmapIndex
  new = record { index = HashMap.new }

  -- the last case of `index_recursive`
  unfoldable pub index_primitive : ℕ → Value N → String → BitmapIndex → BitmapIndex
  index_primitive id value prefix b =
      if prefix == ""
      then b
      else (let val_str = to_string value in
          let values = get_or (HashMap.get b.index prefix) HashMap.new in
          let bitmap = get_or (HashMap.get values val_str) r.new in
          record {
            index =
                HashMap.insert b.index prefix (HashMap.insert values val_str (r.insert bitmap id));
          })

  -- the last case of `remove_recursive`
  unfoldable pub remove_primitive : ℕ → Value N → String → BitmapIndex → BitmapIndex
  remove_primitive id value prefix b =
      if prefix == "" then b else elim (HashMap.get b.index prefix) [
        | none ↦ b
        | some values ↦ elim (HashMap.get values (to_string value)) [
          | none ↦ b
          | some bitmap ↦ record {
            index =
                HashMap.insert b.index prefix
                  (HashMap.insert values (to_string value) (r.remove bitmap id));
          }
        ]
      ]

  unfoldable mutual
    pub index_recursive : ℕ → Value N → String → BitmapIndex → BitmapIndex
    index_recursive id (object map) prefix b = index_fields id map prefix b
    index_recursive id (array arr) prefix b = index_items id arr prefix b
    index_recursive id null prefix b = index_primitive id null prefix b
    index_recursive id (bool x) prefix b = index_primitive id (bool x) prefix b
    index_recursive id (number x) prefix b = index_primitive id (number x) prefix b
    index_recursive id (string x) prefix b = index_primitive id (string x) prefix b

    pub index_items : ℕ → Items N → String → BitmapIndex → BitmapIndex
    index_items id nil prefix b = b
    index_items id (cons v arr) prefix b = index_items id arr prefix (index_recursive id v prefix b)

    pub index_fields : ℕ → Fields N → String → BitmapIndex → BitmapIndex
    index_fields id end prefix b = b
    index_fields id (field k v map) prefix b =
        index_fields id map prefix (index_recursive id v (key_below prefix k) b)

  unfoldable mutual
    pub remove_recursive : ℕ → Value N → String → BitmapIndex → BitmapIndex
    remove_recursive id (object map) prefix b = remove_fields id map prefix b
    remove_recursive id (array arr) prefix b = remove_items id arr prefix b
    remove_recursive id null prefix b = remove_primitive id null prefix b
    remove_recursive id (bool x) prefix b = remove_primitive id (bool x) prefix b
    remove_recursive id (number x) prefix b = remove_primitive id (number x) prefix b
    remove_recursive id (string x) prefix b = remove_primitive id (string x) prefix b

    pub remove_items : ℕ → Items N → String → BitmapIndex → BitmapIndex
    remove_items id nil prefix b = b
    remove_items id (cons v arr) prefix b =
        remove_items id arr prefix (remove_recursive id v prefix b)

    pub remove_fields : ℕ → Fields N → String → BitmapIndex → BitmapIndex
    remove_fields id end prefix b = b
    remove_fields id (field k v map) prefix b =
        remove_fields id map prefix (remove_recursive id v (key_below prefix k) b)

  unfoldable pub index : ℕ → Value N → BitmapIndex → BitmapIndex
  index internal_id metadata b = index_recursive internal_id metadata "" b

  unfoldable pub remove : ℕ → Value N → BitmapIndex → BitmapIndex
  remove internal_id metadata b = remove_recursive internal_id metadata "" b

module _ (r : Roaring) {N : Type 0} (to_string : Value N → String) where
  open r use {Bitmap, union, inter}

  unfoldable pub union_values : Values r to_string → List (Value N) → Bitmap → Bitmap
  union_values field_values [] result = result
  union_values field_values (val ∷ values) result =
      union_values field_values values (elim (HashMap.get field_values (to_string val)) [
        | none ↦ result
        | some bitmap ↦ union result bitmap
      ])

  abbrev pub narrow : Option Bitmap → Bitmap → Bitmap
  narrow none bitmap = bitmap
  narrow (some result) bitmap = inter result bitmap

module _ (r : Roaring) {N F : Type 0} (to_string : Value N → String) where
  open r use {Bitmap, union, is_empty}

  unfoldable mutual
    unfolding union_values

    pub filter : BitmapIndex r to_string → Filter N F → Option Bitmap
    filter b (exact key value) = elim (HashMap.get b.index key) [
      | none ↦ some r.new
      | some values ↦ HashMap.get values (to_string value)
    ]
    filter b (one_of key values) = elim (HashMap.get b.index key) [
      | none ↦ some r.new
      | some field_values ↦ some (union_values r to_string field_values values r.new)
    ]
    filter b (all_of filters) = filter_all b filters none
    filter b (any_of filters) = some (filter_any b filters r.new)
    filter b (not_of f) = none
    filter b (range path gt gte lt lte) = none
    filter b (geo_radius path center radius) = none

    pub filter_all : BitmapIndex r to_string → Filters N F → Option Bitmap → Option Bitmap
    filter_all b none_left result = result
    filter_all b (next f filters) result = elim (filter b f) [
      | none ↦ filter_all b filters result
      | some bitmap ↦
          let narrowed = narrow r to_string result bitmap in
          let rest = filter_all b filters (some narrowed) in
          if is_empty narrowed then some r.new else rest
    ]

    pub filter_any : BitmapIndex r to_string → Filters N F → Bitmap → Bitmap
    filter_any b none_left result = result
    filter_any b (next f filters) result =
        filter_any b filters
          (elim (filter b f) [ none ↦ result | some bitmap ↦ union result bitmap ])
