-- ===== src/Examples/Metadata.antt =====
-- Runs of filter.rs and bitmap_index.rs, and the theorems on the index at two documents.
use zapybase.Prelude.{
  ℕ, ◌≡◌, refl, String, true, false, not, ◌&&◌, ◌||◌, none, some, List, [], ◌∷◌, eqb,
}
use zapybase.Prelude.Eq.{string_eq, pair_eq, contains}
use zapybase.Collections.HashMap
use zapybase.Collections.HashMap.{HashMap}
use zapybase.Metadata.Json.{Value, string, array, object, field, end, cons, nil}
use zapybase.Metadata.Roaring.{list_bitmap, mem}
use zapybase.Metadata.Filter.{Filter, exact, all_of, any_of, not_of, none_left, next, matches}
use zapybase.Metadata.BitmapIndex.{
  BitmapIndex, new, index, remove, index_recursive, index_primitive, filter,
}
use zapybase.Metadata.BitmapIndex.Pairs.{pairs, holds}
use zapybase.Metadata.BitmapIndex.Update.{holds-index, holds-remove}
use zapybase.Metadata.BitmapIndex.Query.{is_answered, index_matches, filter_exact, filter_all_skips}
use zapybase.Examples.{serde, print, same_value}

abbrev Index : Type 0
Index = BitmapIndex list_bitmap print

-- { "publisher": { "name": "surge" }, "tags": ["a", "b"] }
abbrev book : Value ℕ
book = object (
    field "publisher" (object (field "name" (string "surge") end))
      (field "tags" (array (cons (string "a") (cons (string "b") nil))) end))

pairs-book : pairs print "" book ≡ ("publisher.name", "surge") ∷ ("tags", "a") ∷ ("tags", "b") ∷ []
unfolding pairs print
pairs-book = refl

nested_path : matches serde (exact "publisher.name" (string "surge")) book ≡ true
unfolding matches same_value
nested_path = refl

abbrev one : Index
one = index list_bitmap print 1 book (new list_bitmap print)

holds-index_example : holds list_bitmap (index list_bitmap print 2 book one) "tags" "b" 2 ≡ (
    (eqb 2 2 && contains (pairs print "" book) ("tags", "b")) || holds list_bitmap one "tags" "b" 2)
holds-index_example = holds-index list_bitmap print 2 book one "tags" "b" 2

holds-remove_example : holds list_bitmap (remove list_bitmap print 1 book one) "tags" "b" 1 ≡ (
    not (eqb 1 1 && contains (pairs print "" book) ("tags", "b"))
    && holds list_bitmap one "tags" "b" 1)
holds-remove_example = holds-remove list_bitmap print 1 book one "tags" "b" 1

abbrev tag_a : Filter ℕ ℕ
tag_a = exact "tags" (string "a")

abbrev both : Filter ℕ ℕ
both = all_of (
    next tag_a (next (any_of (next (exact "publisher.name" (string "surge")) none_left)) none_left))

both-is_answered : is_answered list_bitmap print one both ≡ true
unfolding is_answered index index_recursive index_primitive new HashMap.get HashMap.insert print
both-is_answered = refl

filter_exact_example :
    (bitmap : List ℕ) × (filter list_bitmap print one both ≡ some bitmap)
    × ((id : ℕ) → mem bitmap id ≡ index_matches list_bitmap print one both id)
filter_exact_example = filter_exact list_bitmap print one both both-is_answered

abbrev tags : HashMap String (List ℕ)
tags = record { entries = ("a", 1 ∷ []) ∷ ("b", 1 ∷ []) ∷ [] }

tags_listed : HashMap.get one.index "tags" ≡ some tags
unfolding index index_recursive index_primitive new HashMap.get HashMap.insert print
tags_listed = refl

tags_without : HashMap.get tags (print (string "z")) ≡ none
unfolding HashMap.get print
tags_without = refl

filter_all_skips_example :
    (let without = filter list_bitmap print one (all_of (next tag_a (next tag_a none_left))) in
      (filter list_bitmap print one
          (all_of (next tag_a (next (not_of tag_a) (next tag_a none_left))))
        ≡ without)
      × (filter list_bitmap print one
            (all_of (next tag_a (next (exact "tags" (string "z")) (next tag_a none_left))))
          ≡ without))
filter_all_skips_example =
    filter_all_skips list_bitmap print one (next tag_a none_left) (next tag_a none_left) tag_a
      "tags" (string "z") tags tags_listed tags_without

-- the scan and the index disagree on an array: the index has its elements, the scan compares all
array_scan : matches serde tag_a book ≡ false
unfolding matches same_value
array_scan = refl
