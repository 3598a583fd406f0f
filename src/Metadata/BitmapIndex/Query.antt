-- ===== src/Metadata/BitmapIndex/Query.antt =====
-- What `filter` answers from the bitmaps, against the pairs that the index holds.
use zapybase.Prelude.{
  ℕ, String, ◌≡◌, refl, Bool, true, false, ◌&&◌, ◌||◌, Option, none, some, List, [], ◌∷◌, inl, inr,
  arith, ap, if◌then◌else◌, Bool-cases, Option-cases,
}
use zapybase.Prelude.Eq.{string_eq}
use zapybase.Collections.HashMap
use zapybase.Collections.HashMap.{is_some}
use zapybase.Metadata.Json.{Value}
use zapybase.Metadata.Roaring.{Roaring}
use zapybase.Metadata.Filter.{
  Filter, exact, one_of, all_of, any_of, not_of, range, geo_radius, Filters, none_left, next,
}
use zapybase.Metadata.BitmapIndex.{
  BitmapIndex, Values, union_values, narrow, filter, filter_all, filter_any,
}
use zapybase.Metadata.BitmapIndex.Pairs.{holds}

module _ (r : Roaring) {N : Type 0} (to_string : Value N → String)
    (b : BitmapIndex r to_string) where
  -- some value of the list is held under the key
  pub any_holds : String → List (Value N) → ℕ → Bool
  any_holds key [] id = false
  any_holds key (v ∷ values) id = holds r b key (to_string v) id || any_holds key values id

  contains-union_values :
      (key : String) (fv : Values r to_string) (values : List (Value N)) (result : r.Bitmap)
      (id : ℕ)
      → HashMap.get b.index key ≡ some fv
      → r.contains (union_values r to_string fv values result) id
        ≡ (r.contains result id || any_holds key values id)
  unfolding union_values any_holds holds
  contains-union_values key fv [] result id h = ground arith
  contains-union_values key fv (v ∷ values) result id h =
      elim (Option-cases (HashMap.get fv (to_string v))) [
        | inl e ↦ ground (arith, contains-union_values key fv values result id)
        | inr (m, e) ↦ ground (
          arith,
          contains-union_values key fv values (r.union result m) id,
          r.contains-union result m id,
        )
      ]

  any_holds_absent :
      (key : String) (values : List (Value N)) (id : ℕ)
      → HashMap.get b.index key ≡ none
      → any_holds key values id ≡ false
  unfolding any_holds holds
  any_holds_absent key [] id h = refl
  any_holds_absent key (v ∷ values) id h = ground (arith, any_holds_absent key values id)

  -- The answer is a bitmap with the members that `p` says.
  abbrev pub Answers : Option (r.Bitmap) → (ℕ → Bool) → Type 0
  Answers answer p =
      (bitmap : r.Bitmap) × (answer ≡ some bitmap) × ((id : ℕ) → r.contains bitmap id ≡ p id)

module _ (r : Roaring) {N F : Type 0} (to_string : Value N → String)
    (b : BitmapIndex r to_string) where
  -- The meaning of a filter over the held pairs; the kinds that the index cannot answer are false.
  unfoldable mutual
    unfolding any_holds

    pub index_matches : Filter N F → ℕ → Bool
    index_matches (exact key value) id = holds r b key (to_string value) id
    index_matches (one_of key values) id = any_holds r to_string b key values id
    index_matches (all_of filters) id = index_matches_all filters id
    index_matches (any_of filters) id = index_matches_any filters id
    index_matches (not_of f) id = false
    index_matches (range path gt gte lt lte) id = false
    index_matches (geo_radius path center radius) id = false

    pub index_matches_all : Filters N F → ℕ → Bool
    index_matches_all none_left id = true
    index_matches_all (next f filters) id = index_matches f id && index_matches_all filters id

    pub index_matches_any : Filters N F → ℕ → Bool
    index_matches_any none_left id = false
    index_matches_any (next f filters) id = index_matches f id || index_matches_any filters id

  abbrev pub is_nonempty : Filters N F → Bool
  is_nonempty none_left = false
  is_nonempty (next f filters) = true

  -- Every part of the filter is of a kind that the index answers, no conjunction is empty, and
  -- each value that a part asks for is listed under its field, or the field is not indexed.
  unfoldable mutual
    pub is_answered : Filter N F → Bool
    is_answered (exact key value) = elim (HashMap.get b.index key) [
      | none ↦ true
      | some values ↦ is_some (HashMap.get values (to_string value))
    ]
    is_answered (one_of key values) = true
    is_answered (all_of filters) = is_nonempty filters && are_answered filters
    is_answered (any_of filters) = are_answered filters
    is_answered (not_of f) = false
    is_answered (range path gt gte lt lte) = false
    is_answered (geo_radius path center radius) = false

    pub are_answered : Filters N F → Bool
    are_answered none_left = true
    are_answered (next f filters) = is_answered f && are_answered filters

  mutual
    unfolding filter index_matches is_answered holds

    filter-Answers :
        (f : Filter N F)
        → is_answered f ≡ true
        → Answers r to_string b (filter r to_string b f) (index_matches f)
    filter-Answers (exact key value) h = elim (Option-cases (HashMap.get b.index key)) [
      | inl e ↦ (r.new, ground arith, λ id. ground (arith, r.contains-new id))
      | inr (values, e) ↦ elim (Option-cases (HashMap.get values (to_string value))) [
        | inl e' ↦ absurd (ground arith)
        | inr (bitmap, e') ↦ (bitmap, ground arith, λ id. ground arith)
      ]
    ]
    filter-Answers (one_of key values) h = elim (Option-cases (HashMap.get b.index key)) [
      | inl e ↦ (
        r.new,
        ground arith,
        λ id. ground (arith, r.contains-new id, any_holds_absent r to_string b key values id e),
      )
      | inr (fv, e) ↦ (
        union_values r to_string fv values r.new,
        ground arith,
        λ id. ground (
          arith,
          r.contains-new id,
          contains-union_values r to_string b key fv values r.new id e,
        ),
      )
    ]
    filter-Answers (all_of none_left) h = cc
    filter-Answers (all_of (next f filters)) h =
        let (bitmap, answer, members) = filter-Answers f (ground arith) in
        elim (Bool-cases (r.is_empty bitmap)) [
          | inl e ↦ (
            r.new,
            ground arith,
            λ id. ground (arith, members id, r.contains-new id, r.empty-contains bitmap id),
          )
          | inr e ↦
              let (rest, answer', members') = filter_all-Answers filters bitmap (ground arith) in
              (rest, ground arith, λ id. ground (arith, members id, members' id))
        ]
    filter-Answers (any_of filters) h = (
      filter_any r to_string b filters r.new,
      refl,
      λ id. ground (arith, r.contains-new id, filter_any-Answers filters r.new id h),
    )
    filter-Answers (not_of f) h = cc
    filter-Answers (range path gt gte lt lte) h = cc
    filter-Answers (geo_radius path center radius) h = cc

    filter_any-Answers :
        (filters : Filters N F) (result : r.Bitmap) (id : ℕ)
        → are_answered filters ≡ true
        → r.contains (filter_any r to_string b filters result) id
          ≡ (r.contains result id || index_matches_any filters id)
    filter_any-Answers none_left result id h = ground arith
    filter_any-Answers (next f filters) result id h =
        let (bitmap, answer, members) = filter-Answers f (ground arith) in
        ground (
          arith,
          members id,
          r.contains-union result bitmap id,
          filter_any-Answers filters (r.union result bitmap) id,
        )

    filter_all-Answers :
        (filters : Filters N F) (result : r.Bitmap)
        → are_answered filters ≡ true
        → Answers r to_string b
            (filter_all r to_string b filters (some result))
            (λ id. r.contains result id && index_matches_all filters id)
    filter_all-Answers none_left result h = (result, refl, λ id. ground arith)
    filter_all-Answers (next f filters) result h =
        let (bitmap, answer, members) = filter-Answers f (ground arith) in
        let both = r.inter result bitmap in
        elim (Bool-cases (r.is_empty both)) [
          | inl e ↦ (
            r.new,
            ground arith,
            λ id. ground (
              arith,
              members id,
              r.contains-new id,
              r.contains-inter result bitmap id,
              r.empty-contains both id,
            ),
          )
          | inr e ↦
              let (rest, answer', members') = filter_all-Answers filters both (ground arith) in
              (
                rest,
                ground arith,
                λ id. ground (arith, members id, members' id, r.contains-inter result bitmap id),
              )
        ]

  -- A filter whose every part is answered gets a bitmap, and its members are exactly the ids that
  -- the filter selects from the pairs that the index holds.
  pub filter_exact :
      (f : Filter N F)
      → is_answered f ≡ true
      → (bitmap : r.Bitmap) × (filter r to_string b f ≡ some bitmap)
        × ((id : ℕ) → r.contains bitmap id ≡ index_matches f id)
  filter_exact f h = filter-Answers f h

  abbrev pub join : Filters N F → Filters N F → Filters N F
  join none_left filters = filters
  join (next f before) filters = next f (join before filters)

  filter_all_passes :
      (before after : Filters N F) (g : Filter N F) (result : Option r.Bitmap)
      → filter r to_string b g ≡ none
      → filter_all r to_string b (join before (next g after)) result
        ≡ filter_all r to_string b (join before after) result
  unfolding filter_all
  filter_all_passes none_left after g result h = rw (h, filter_all) refl
  filter_all_passes (next f before) after g result h =
      elim (Option-cases (filter r to_string b f)) [
        | inl absent ↦ rw (absent, filter_all) (filter_all_passes before after g result h)
        | inr (bitmap, present) ↦
            let narrowed = narrow r to_string result bitmap in
            rw (present, filter_all)
              (ap (λ rest. if r.is_empty narrowed then some r.new else rest)
                (filter_all_passes before after g (some narrowed) h))
      ]

  -- A conjunct at any place of a conjunction, before and after any others, is passed over where it
  -- is a negation, or asks for a value that an indexed field does not list: the conjunction gets the
  -- answer that it would get without the conjunct.
  pub filter_all_skips :
      (before after : Filters N F) (g : Filter N F) (key : String) (v : Value N)
      (values : Values r to_string)
      → HashMap.get b.index key ≡ some values
      → HashMap.get values (to_string v) ≡ none
      → let without = filter r to_string b (all_of (join before after)) in
        (filter r to_string b (all_of (join before (next (not_of g) after))) ≡ without)
        × (filter r to_string b (all_of (join before (next (exact key v) after))) ≡ without)
  unfolding filter
  filter_all_skips before after g key v values h k = (
    filter_all_passes before after (not_of g) none refl,
    filter_all_passes before after (exact key v) none (ground arith),
  )
