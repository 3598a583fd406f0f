-- ===== src/Metadata/BitmapIndex/Update.antt =====
-- Indexing and removing one document: exactly its pairs appear and disappear, for its id alone.
use zapybase.Prelude.{ℕ, String, ◌≡◌, Bool, false, not, ◌&&◌, ◌||◌, List, arith, eqb}
use zapybase.Prelude.Eq.{string_eq, pair_eq, contains, contains-append}
use zapybase.Collections.HashMap
use zapybase.Collections.HashMap.{map_laws}
use zapybase.Metadata.Json.{
  Value, null, bool, number, string, array, object, Items, nil, cons, Fields, end, field,
}
use zapybase.Metadata.Roaring.{Roaring}
use zapybase.Metadata.BitmapIndex.{
  BitmapIndex, Values, get_or, key_below, index_primitive, remove_primitive, index_recursive,
  index_items, index_fields, remove_recursive, remove_items, remove_fields, index, remove, new,
}
use zapybase.Metadata.BitmapIndex.Pairs.{primitive_pairs, pairs, item_pairs, field_pairs, holds}

module _ (r : Roaring) {N : Type 0} (to_string : Value N → String) where
  abbrev Index : Type 0
  Index = BitmapIndex r to_string

  -- the id and the pair that are asked for are among those of the document
  abbrev among : ℕ → List (String × String) → String → String → ℕ → Bool
  among id ps path value j = eqb id j && contains ps (path, value)

  holds-index_primitive :
      (id : ℕ) (v : Value N) (prefix : String) (b : Index) (path value : String) (j : ℕ)
      → holds r (index_primitive r to_string id v prefix b) path value j
        ≡ (among id (primitive_pairs to_string prefix v) path value j || holds r b path value j)
  unfolding index_primitive holds contains
  holds-index_primitive id v prefix b path value j =
      let values = get_or (HashMap.get b.index prefix) HashMap.new in
      let val_str = to_string v in
      let bitmap = get_or (HashMap.get values val_str) r.new in
      ground (
        arith,
        string_eq.beq_iff prefix path,
        string_eq.beq_iff val_str value,
        HashMap.get-insert b.index prefix (HashMap.insert values val_str (r.insert bitmap id)) path,
        HashMap.get-insert values val_str (r.insert bitmap id) value,
        HashMap.get-new {V = r.Bitmap} val_str,
        HashMap.get-new {V = r.Bitmap} value,
        r.contains-insert bitmap id j,
        r.contains-new j,
      )

  holds-remove_primitive :
      (id : ℕ) (v : Value N) (prefix : String) (b : Index) (path value : String) (j : ℕ)
      → holds r (remove_primitive r to_string id v prefix b) path value j ≡ (
          not (among id (primitive_pairs to_string prefix v) path value j)
          && holds r b path value j)
  unfolding remove_primitive holds contains
  holds-remove_primitive id v prefix b path value j =
      let values = get_or (HashMap.get b.index prefix) HashMap.new in
      let val_str = to_string v in
      let bitmap = get_or (HashMap.get values val_str) r.new in
      ground (
        arith,
        string_eq.beq_iff prefix path,
        string_eq.beq_iff val_str value,
        HashMap.get-insert b.index prefix (HashMap.insert values val_str (r.remove bitmap id)) path,
        HashMap.get-insert values val_str (r.remove bitmap id) value,
        r.contains-remove bitmap id j,
      )

  mutual
    unfolding index_recursive pairs contains

    holds-index_recursive :
        (id : ℕ) (v : Value N) (prefix : String) (b : Index) (path value : String) (j : ℕ)
        → holds r (index_recursive r to_string id v prefix b) path value j
          ≡ (among id (pairs to_string prefix v) path value j || holds r b path value j)
    holds-index_recursive id (object map) prefix b path value j =
        holds-index_fields id map prefix b path value j
    holds-index_recursive id (array arr) prefix b path value j =
        holds-index_items id arr prefix b path value j
    holds-index_recursive id null prefix b path value j =
        holds-index_primitive id null prefix b path value j
    holds-index_recursive id (bool x) prefix b path value j =
        holds-index_primitive id (bool x) prefix b path value j
    holds-index_recursive id (number x) prefix b path value j =
        holds-index_primitive id (number x) prefix b path value j
    holds-index_recursive id (string x) prefix b path value j =
        holds-index_primitive id (string x) prefix b path value j

    holds-index_items :
        (id : ℕ) (arr : Items N) (prefix : String) (b : Index) (path value : String) (j : ℕ)
        → holds r (index_items r to_string id arr prefix b) path value j
          ≡ (among id (item_pairs to_string prefix arr) path value j || holds r b path value j)
    holds-index_items id nil prefix b path value j = ground arith
    holds-index_items id (cons v arr) prefix b path value j = ground (
      arith,
      holds-index_items id arr prefix (index_recursive r to_string id v prefix b) path value j,
      holds-index_recursive id v prefix b path value j,
      contains-append (pairs to_string prefix v) (item_pairs to_string prefix arr) (path, value),
    )

    holds-index_fields :
        (id : ℕ) (map : Fields N) (prefix : String) (b : Index) (path value : String) (j : ℕ)
        → holds r (index_fields r to_string id map prefix b) path value j
          ≡ (among id (field_pairs to_string prefix map) path value j || holds r b path value j)
    holds-index_fields id end prefix b path value j = ground arith
    holds-index_fields id (field k v map) prefix b path value j = ground (
      arith,
      holds-index_fields id map prefix (index_recursive r to_string id v (key_below prefix k) b)
          path value j,
      holds-index_recursive id v (key_below prefix k) b path value j,
      contains-append (pairs to_string (key_below prefix k) v) (field_pairs to_string prefix map)
          (path, value),
    )

  mutual
    unfolding remove_recursive pairs contains

    holds-remove_recursive :
        (id : ℕ) (v : Value N) (prefix : String) (b : Index) (path value : String) (j : ℕ)
        → holds r (remove_recursive r to_string id v prefix b) path value j
          ≡ (not (among id (pairs to_string prefix v) path value j) && holds r b path value j)
    holds-remove_recursive id (object map) prefix b path value j =
        holds-remove_fields id map prefix b path value j
    holds-remove_recursive id (array arr) prefix b path value j =
        holds-remove_items id arr prefix b path value j
    holds-remove_recursive id null prefix b path value j =
        holds-remove_primitive id null prefix b path value j
    holds-remove_recursive id (bool x) prefix b path value j =
        holds-remove_primitive id (bool x) prefix b path value j
    holds-remove_recursive id (number x) prefix b path value j =
        holds-remove_primitive id (number x) prefix b path value j
    holds-remove_recursive id (string x) prefix b path value j =
        holds-remove_primitive id (string x) prefix b path value j

    holds-remove_items :
        (id : ℕ) (arr : Items N) (prefix : String) (b : Index) (path value : String) (j : ℕ)
        → holds r (remove_items r to_string id arr prefix b) path value j ≡ (
            not (among id (item_pairs to_string prefix arr) path value j) && holds r b path value j)
    holds-remove_items id nil prefix b path value j = ground arith
    holds-remove_items id (cons v arr) prefix b path value j = ground (
      arith,
      holds-remove_items id arr prefix (remove_recursive r to_string id v prefix b) path value j,
      holds-remove_recursive id v prefix b path value j,
      contains-append (pairs to_string prefix v) (item_pairs to_string prefix arr) (path, value),
    )

    holds-remove_fields :
        (id : ℕ) (map : Fields N) (prefix : String) (b : Index) (path value : String) (j : ℕ)
        → holds r (remove_fields r to_string id map prefix b) path value j ≡ (
            not (among id (field_pairs to_string prefix map) path value j)
            && holds r b path value j)
    holds-remove_fields id end prefix b path value j = ground arith
    holds-remove_fields id (field k v map) prefix b path value j = ground (
      arith,
      holds-remove_fields id map prefix (remove_recursive r to_string id v (key_below prefix k) b)
          path value j,
      holds-remove_recursive id v (key_below prefix k) b path value j,
      contains-append (pairs to_string (key_below prefix k) v) (field_pairs to_string prefix map)
          (path, value),
    )

  -- After `index`, a bitmap holds an id where it did before, and the indexed id also under each
  -- pair of its metadata.
  pub holds-index :
      (id : ℕ) (metadata : Value N) (b : Index) (path value : String) (j : ℕ)
      → holds r (index r to_string id metadata b) path value j ≡ (
          (eqb id j && contains (pairs to_string "" metadata) (path, value))
          || holds r b path value j)
  unfolding index
  holds-index id metadata b path value j = holds-index_recursive id metadata "" b path value j

  -- After `remove`, a bitmap holds an id where it did before, but for the removed id under the
  -- pairs of its metadata.
  pub holds-remove :
      (id : ℕ) (metadata : Value N) (b : Index) (path value : String) (j : ℕ)
      → holds r (remove r to_string id metadata b) path value j ≡ (
          not (eqb id j && contains (pairs to_string "" metadata) (path, value))
          && holds r b path value j)
  unfolding remove
  holds-remove id metadata b path value j = holds-remove_recursive id metadata "" b path value j

  pub holds-new : (path value : String) (j : ℕ) → holds r (new r to_string) path value j ≡ false
  unfolding holds new
  holds-new path value j = ground (arith, HashMap.get-new {V = Values r to_string} path)
