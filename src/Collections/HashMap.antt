-- ===== src/Collections/HashMap.antt =====
-- `std::collections::HashMap`: an association list whose keys differ. The iteration order of the
-- real table is unspecified; nothing that is proved depends on the order of the entries here.
use zapybase.Prelude.{
  ℕ, ◌+◌, ◌≡◌, refl, Bool, true, false, Option, none, some, List, [], ◌∷◌, arith, length,
  if◌then◌else◌,
}
use zapybase.Prelude.Eq.{Eq, ◌==◌, beq_refl}

-- 1 for a key that is present, and 0 for one that is not.
abbrev pub present {κ} : {V : Type κ} → Option V → ℕ
present none = 0
present (some v) = 1

module _ {ℓ κ} {K : Type ℓ} {V : Type κ} ⦃e : Eq K⦄ where
  unfoldable pub lookup : K → List (K × V) → Option V
  lookup k [] = none
  lookup k ((j, v) ∷ m) = if j == k then some v else lookup k m

  -- The value of a present key is replaced, and a new key goes to the end.
  pub insert_entry : K → V → List (K × V) → List (K × V)
  insert_entry k v [] = (k, v) ∷ []
  insert_entry k v ((j, w) ∷ m) = if j == k then (k, v) ∷ m else (j, w) ∷ insert_entry k v m

  pub remove_entry : K → List (K × V) → List (K × V)
  remove_entry k [] = []
  remove_entry k ((j, w) ∷ m) =
      let rest = remove_entry k m in if j == k then rest else (j, w) ∷ rest

  abbrev pub KeysDiffer : List (K × V) → Type κ
  KeysDiffer [] = Unit
  KeysDiffer ((j, w) ∷ m) = (lookup j m ≡ none) × KeysDiffer m

  lookup-insert_entry :
      (k j : K) (v : V) (m : List (K × V))
      → lookup j (insert_entry k v m) ≡ (if k == j then some v else lookup j m)
  unfolding lookup insert_entry
  lookup-insert_entry k j v [] = refl
  lookup-insert_entry k j v ((i, w) ∷ m) =
      ground (arith, e.beq_iff k j, e.beq_iff i k, e.beq_iff i j, lookup-insert_entry k j v m)

  lookup-remove_entry :
      (k j : K) (m : List (K × V))
      → lookup j (remove_entry k m) ≡ (if k == j then none else lookup j m)
  unfolding lookup remove_entry
  lookup-remove_entry k j [] = ground arith
  lookup-remove_entry k j ((i, w) ∷ m) =
      ground (arith, e.beq_iff k j, e.beq_iff i k, e.beq_iff i j, lookup-remove_entry k j m)

  insert_entry-KeysDiffer :
      (k : K) (v : V) (m : List (K × V)) → KeysDiffer m → KeysDiffer (insert_entry k v m)
  unfolding lookup insert_entry
  insert_entry-KeysDiffer k v [] d = (refl, tt)
  insert_entry-KeysDiffer k v ((i, w) ∷ m) d = ground (
    arith,
    e.beq_iff i k,
    e.beq_iff k i,
    lookup-insert_entry k i v m,
    insert_entry-KeysDiffer k v m,
  )

  remove_entry-KeysDiffer :
      (k : K) (m : List (K × V)) → KeysDiffer m → KeysDiffer (remove_entry k m)
  unfolding lookup remove_entry
  remove_entry-KeysDiffer k [] d = tt
  remove_entry-KeysDiffer k ((i, w) ∷ m) d =
      ground (arith, lookup-remove_entry k i m, remove_entry-KeysDiffer k m)

  length-insert_entry :
      (k : K) (v : V) (m : List (K × V))
      → length (insert_entry k v m) + present (lookup k m) ≡ length m + 1
  unfolding lookup insert_entry
  length-insert_entry k v [] = refl
  length-insert_entry k v ((i, w) ∷ m) = ground (arith, length-insert_entry k v m)

  remove_entry_absent : (k : K) (m : List (K × V)) → lookup k m ≡ none → remove_entry k m ≡ m
  unfolding lookup remove_entry
  remove_entry_absent k [] h = refl
  remove_entry_absent k ((i, w) ∷ m) h = ground (arith, remove_entry_absent k m)

  length-remove_entry :
      (k : K) (m : List (K × V))
      → KeysDiffer m
      → length (remove_entry k m) + present (lookup k m) ≡ length m
  unfolding lookup remove_entry
  length-remove_entry k [] d = refl
  length-remove_entry k ((i, w) ∷ m) d =
      ground (arith, e.beq_iff i k, remove_entry_absent k m, length-remove_entry k m)

pub record HashMap {ℓ κ} (K : Type ℓ) (V : Type κ) : Type (ℓ ⊔ κ) where
  pub entries : List (K × V)

abbrev pub new {ℓ κ} : {K : Type ℓ} {V : Type κ} → HashMap K V
new = record { entries = [] }

abbrev pub len {ℓ κ} : {K : Type ℓ} {V : Type κ} → HashMap K V → ℕ
len m = length m.entries

abbrev pub is_some {κ} : {V : Type κ} → Option V → Bool
is_some none = false
is_some (some v) = true

module _ {ℓ κ} {K : Type ℓ} {V : Type κ} ⦃e : Eq K⦄ where
  unfoldable pub get : HashMap K V → K → Option V
  unfolding lookup
  get m k = lookup k m.entries

  unfoldable pub contains_key : HashMap K V → K → Bool
  unfolding get
  contains_key m k = is_some (get m k)

  unfoldable pub insert : HashMap K V → K → V → HashMap K V
  unfolding insert_entry
  insert m k v = record { entries = insert_entry k v m.entries }

  unfoldable pub remove : HashMap K V → K → HashMap K V
  unfolding remove_entry
  remove m k = record { entries = remove_entry k m.entries }

  -- No key has two entries.
  unfoldable pub IsUnique : HashMap K V → Type κ
  IsUnique m = KeysDiffer m.entries

  pub get-insert :
      (m : HashMap K V) (k : K) (v : V) (j : K)
      → get (insert m k v) j ≡ (if k == j then some v else get m j)
  unfolding get insert
  get-insert m k v j = lookup-insert_entry k j v m.entries

  pub get-remove :
      (m : HashMap K V) (k j : K) → get (remove m k) j ≡ (if k == j then none else get m j)
  unfolding get remove
  get-remove m k j = lookup-remove_entry k j m.entries

  pub get-insert_self : (m : HashMap K V) (k : K) (v : V) → get (insert m k v) k ≡ some v
  get-insert_self m k v = rw (get-insert, beq_refl k)

  pub contains_key_lem : (m : HashMap K V) (k : K) → contains_key m k ≡ is_some (get m k)
  unfolding contains_key
  contains_key_lem m k = refl

  pub insert-IsUnique : (m : HashMap K V) (k : K) (v : V) → IsUnique m → IsUnique (insert m k v)
  unfolding IsUnique insert
  insert-IsUnique m k v d = insert_entry-KeysDiffer k v m.entries d

  pub remove-IsUnique : (m : HashMap K V) (k : K) → IsUnique m → IsUnique (remove m k)
  unfolding IsUnique remove
  remove-IsUnique m k d = remove_entry-KeysDiffer k m.entries d

  pub len-insert :
      (m : HashMap K V) (k : K) (v : V) → len (insert m k v) + present (get m k) ≡ len m + 1
  unfolding get insert
  len-insert m k v = length-insert_entry k v m.entries

  pub len-remove :
      (m : HashMap K V) (k : K) → IsUnique m → len (remove m k) + present (get m k) ≡ len m
  unfolding get remove IsUnique
  len-remove m k d = length-remove_entry k m.entries d

pub get-new {ℓ κ} : {K : Type ℓ} {V : Type κ} ⦃e : Eq K⦄ (k : K) → get (new {V = V}) k ≡ none
unfolding get lookup
get-new k = refl

pub new-IsUnique {ℓ κ} : (K : Type ℓ) (V : Type κ) ⦃e : Eq K⦄ → IsUnique (new {K = K} {V = V})
unfolding IsUnique
new-IsUnique K V = tt

pub ruleset map_laws = (get-new, get-insert, get-remove, contains_key_lem)
