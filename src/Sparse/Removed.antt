-- ===== src/Sparse/Removed.antt =====
-- Indexing a document and removing it, in crates/surgedb-core/src/sparse/index.rs: what becomes of
-- the posting list of each token.
use mathlib.Core.List.{append_assoc, append-nil}
use zapybase.Prelude.{
  ℕ, ◌≡◌, refl, sym, ◌∙◌, ap, subst, inl, inr, Bool, true, false, none, some, List, [], ◌∷◌, ◌++◌,
  length, All, arith, if◌then◌else◌, Bool-cases, Option-cases,
}
use zapybase.Prelude.Eq.{nat_eq, ◌==◌}
use zapybase.Collections.HashMap
use zapybase.Collections.HashMap.{HashMap}
use zapybase.Float.{Float}
use zapybase.Storage.{InternalId}
use zapybase.Sparse.{
  SparseVector, InvertedIndex, or_empty, insert_pairs, insert, position, remove_from,
  remove_indices, remove,
}
use zapybase.Sparse.Erased.{remove_from_nil, remove_from_absent, removed_first}

module _ (f32 : Float) where
  -- the posting list of a token, empty where there is none
  abbrev pub posting_list : InvertedIndex f32 → ℕ → List (InternalId × f32.Num)
  posting_list index token = or_empty f32 (HashMap.get index.postings token)

  -- what indexing adds to the posting list of a token
  abbrev pub posted : InternalId → ℕ → List ℕ → List f32.Num → List (InternalId × f32.Num)
  posted id token [] values = []
  posted id token (idx ∷ indices) [] = []
  posted id token (idx ∷ indices) (val ∷ values) =
      let rest = posted id token indices values in if idx == token then (id, val) ∷ rest else rest

  posting_list-set :
      (index : InvertedIndex f32) (idx token : ℕ) (list : List (InternalId × f32.Num))
      → posting_list (record { postings = HashMap.insert index.postings idx list }) token
        ≡ (if idx == token then list else posting_list index token)
  posting_list-set index idx token list =
      ap (or_empty f32) (HashMap.get-insert index.postings idx list token)
      ∙ elim (Bool-cases (idx == token)) [ inl same ↦ rw same refl | inr other ↦ rw other refl ]

  posting_list-insert_pairs :
      (id : InternalId) (token : ℕ) (indices : List ℕ) (values : List f32.Num)
      (index : InvertedIndex f32)
      → posting_list (insert_pairs f32 id indices values index) token
        ≡ posting_list index token ++ posted id token indices values
  unfolding insert_pairs
  posting_list-insert_pairs id token [] values index = sym (append-nil (posting_list index token))
  posting_list-insert_pairs id token (idx ∷ indices) [] index =
      sym (append-nil (posting_list index token))
  posting_list-insert_pairs id token (idx ∷ indices) (val ∷ values) index =
      let list = posting_list index idx ++ (id, val) ∷ [] in
      let rest = posted id token indices values in
      posting_list-insert_pairs id token indices values
        (record { postings = HashMap.insert index.postings idx list })
      ∙ ap (λ t. t ++ rest) (posting_list-set index idx token list)
      ∙ elim (Bool-cases (idx == token)) [
        | inl same ↦ rw same (
            append_assoc (posting_list index idx) ((id, val) ∷ []) rest
            ∙ ap (λ i. posting_list index i ++ (id, val) ∷ rest)
                ((nat_eq.beq_iff idx token).0 same))
        | inr other ↦ rw other refl
      ]

  -- what the loop of `remove` makes of the posting list of a token
  abbrev pub removed :
      InternalId → ℕ → List ℕ → List (InternalId × f32.Num) → List (InternalId × f32.Num)
  removed id token [] list = list
  removed id token (idx ∷ indices) list =
      removed id token indices (if idx == token then remove_from f32 id list else list)

  posting_list-remove_indices :
      (id : InternalId) (token : ℕ) (indices : List ℕ) (index : InvertedIndex f32)
      → posting_list (remove_indices f32 id indices index) token
        ≡ removed id token indices (posting_list index token)
  unfolding remove_indices
  posting_list-remove_indices id token [] index = refl
  posting_list-remove_indices id token (idx ∷ indices) index =
      elim (Option-cases (HashMap.get index.postings idx)) [
        | inl none_at ↦
            rw (remove_indices, none_at)
              (posting_list-remove_indices id token indices index
                ∙ ap (removed id token indices) (elim (Bool-cases (idx == token)) [
                  | inl same ↦ rw same (
                      rw
                        (ap (or_empty f32) (
                          subst (λ i. HashMap.get index.postings i ≡ none)
                            ((nat_eq.beq_iff idx token).0 same) none_at))
                        (sym (remove_from_nil f32 id)))
                  | inr other ↦ rw other refl
                ]))
        | inr (list, at) ↦
            rw (remove_indices, at)
              (posting_list-remove_indices id token indices (record {
                postings = HashMap.insert index.postings idx (remove_from f32 id list);
              })
                ∙ ap (removed id token indices) (
                    posting_list-set index idx token (remove_from f32 id list)
                    ∙ elim (Bool-cases (idx == token)) [
                      | inl same ↦ rw same (
                          ap (remove_from f32 id) (
                            sym (
                              ap (or_empty f32) (
                                subst (λ i. HashMap.get index.postings i ≡ some list)
                                  ((nat_eq.beq_iff idx token).0 same) at))))
                      | inr other ↦ rw other refl
                    ]))
      ]

  removed_absent :
      (id : InternalId) (token : ℕ) (indices : List ℕ) (xs : List (InternalId × f32.Num))
      → position f32 id xs ≡ none
      → removed id token indices xs ≡ xs
  removed_absent id token [] xs absent = refl
  removed_absent id token (idx ∷ indices) xs absent =
      let rest = removed_absent id token indices xs absent in
      elim (Bool-cases (idx == token)) [
        | inl same ↦
            rw same (ap (removed id token indices) (remove_from_absent f32 id xs absent) ∙ rest)
        | inr other ↦ rw other rest
      ]

  removed-posted :
      (id : InternalId) (token : ℕ) (indices : List ℕ) (values : List f32.Num)
      (xs ps : List (InternalId × f32.Num))
      → position f32 id xs ≡ none
      → All (λ e. e.0 ≡ id) ps
      → length ps ≡ length (posted id token indices values)
      → removed id token indices (xs ++ ps) ≡ xs
  removed-posted id token [] values xs [] absent ids len = append-nil xs
  removed-posted id token [] values xs (p ∷ ps) absent ids len = grind (arith, len)
  removed-posted id token (idx ∷ indices) [] xs (p ∷ ps) absent ids len = grind (arith, len)
  removed-posted id token (idx ∷ indices) [] xs [] absent ids len =
      ap (removed id token (idx ∷ indices)) (append-nil xs)
      ∙ removed_absent id token (idx ∷ indices) xs absent
  removed-posted id token (idx ∷ indices) (val ∷ values) xs ps absent ids len =
      let rest = posted id token indices values in
      let count = λ (b : Bool) (e : (idx == token) ≡ b).
        len ∙ ap (λ c. length (if c then (id, val) ∷ rest else rest)) e in
      elim (Bool-cases (idx == token)) [
        | inl same ↦
            let (fewer, removes, ids', len') =
              removed_first f32 id xs ps (length rest) absent ids (count true same) in
            rw same (
              ap (removed id token indices) removes
              ∙ removed-posted id token indices values xs fewer absent ids' len')
        | inr other ↦
            rw other (removed-posted id token indices values xs ps absent ids (count false other))
      ]

  posted-All :
      (id : InternalId) (token : ℕ) (indices : List ℕ) (values : List f32.Num)
      → All (λ e. e.0 ≡ id) (posted id token indices values)
  posted-All id token [] values = tt
  posted-All id token (idx ∷ indices) [] = tt
  posted-All id token (idx ∷ indices) (val ∷ values) =
      let rest = posted-All id token indices values in
      elim (Bool-cases (idx == token)) [
        | inl same ↦ rw same (refl, rest)
        | inr other ↦ rw other rest
      ]

  -- Indexing a document puts its values behind the posting lists of their tokens; and removing it
  -- again with its vector gives back, in the same order, the posting list of every token in whose
  -- list the id did not stand before.
  pub remove-insert :
      (id : InternalId) (vector : SparseVector f32) (index : InvertedIndex f32) (token : ℕ)
      → position f32 id (posting_list index token) ≡ none
      → (posting_list (insert f32 id vector index) token
          ≡ posting_list index token ++ posted id token vector.indices vector.values)
        × (posting_list (remove f32 id vector (insert f32 id vector index)) token
            ≡ posting_list index token)
  unfolding insert remove
  remove-insert id vector index token absent =
      let indices = vector.indices in
      let values = vector.values in
      let inserted = posting_list-insert_pairs id token indices values index in
      (
        inserted,
        posting_list-remove_indices id token indices (insert_pairs f32 id indices values index)
            ∙ ap (removed id token indices) inserted
            ∙ removed-posted id token indices values (posting_list index token)
                (posted id token indices values) absent (posted-All id token indices values) refl,
      )
