-- ===== src/Prelude/Slices.antt =====
-- Slices of a list: what `v[start..end]` reads, and how it meets `extend`.
use zapybase.Prelude.Lists.{length, get_elem?, take, drop, length-take, length-drop}
use zapybase.Prelude.Tests.{eqb, if◌then◌else◌}
use mathlib.Core.Option.{some}
use Prim.Native.Nat.{◌<◌, ℕ, zero, suc, ◌+◌, ◌≤◌}
use mathlib.Core.Path.{◌≡◌, refl, ap, ◌∙◌}
use mathlib.Core.List.{List, [], ◌∷◌, ◌++◌}
use native.Mathlib.Omega.{arith}
use native.Mathlib.Nat.{zero-add, suc-add}

module _ {ℓ} {A : Type ℓ} where
  -- `xs[start..start + n]`
  abbrev pub slice : List A → ℕ → ℕ → List A
  slice xs start n = take n (drop start xs)

  pub take-append : (xs ys : List A) (n : ℕ) → n ≤ length xs → take n (xs ++ ys) ≡ take n xs
  take-append xs ys zero h = refl
  take-append [] ys (suc n) h = absurd (omega arith)
  take-append (x ∷ xs) ys (suc n) h = ap (λ t. x ∷ t) (take-append xs ys n (omega arith))

  pub drop-append : (xs ys : List A) (n : ℕ) → n ≤ length xs → drop n (xs ++ ys) ≡ drop n xs ++ ys
  drop-append xs ys zero h = refl
  drop-append [] ys (suc n) h = absurd (omega arith)
  drop-append (x ∷ xs) ys (suc n) h = drop-append xs ys n (omega arith)

  pub drop-append_self : (xs ys : List A) (n : ℕ) → n ≡ length xs → drop n (xs ++ ys) ≡ ys
  drop-append_self [] ys zero h = refl
  drop-append_self [] ys (suc n) h = absurd (omega arith)
  drop-append_self (x ∷ xs) ys zero h = absurd (omega arith)
  drop-append_self (x ∷ xs) ys (suc n) h = drop-append_self xs ys n (omega arith)

  pub take-append_self : (xs ys : List A) (n : ℕ) → n ≡ length xs → take n (xs ++ ys) ≡ xs
  take-append_self [] ys zero h = refl
  take-append_self [] ys (suc n) h = absurd (omega arith)
  take-append_self (x ∷ xs) ys zero h = absurd (omega arith)
  take-append_self (x ∷ xs) ys (suc n) h = ap (λ t. x ∷ t) (take-append_self xs ys n (omega arith))

  pub take_all : (xs : List A) (n : ℕ) → length xs ≤ n → take n xs ≡ xs
  take_all [] zero h = refl
  take_all [] (suc n) h = refl
  take_all (x ∷ xs) zero h = absurd (omega arith)
  take_all (x ∷ xs) (suc n) h = ap (λ t. x ∷ t) (take_all xs n (omega arith))

  -- A slice that ends inside the list does not see what is appended.
  pub slice-append :
      (xs ys : List A) (start n : ℕ)
      → start + n ≤ length xs
      → slice (xs ++ ys) start n ≡ slice xs start n
  slice-append xs ys start n h =
      ap (take n) (drop-append xs ys start (omega arith))
      ∙ take-append (drop start xs) ys n (omega (arith, length-drop start xs))

  -- The slice at the old end is what was appended.
  pub slice-append_new :
      (xs ys : List A) (start n : ℕ)
      → start ≡ length xs
      → n ≡ length ys
      → slice (xs ++ ys) start n ≡ ys
  slice-append_new xs ys start n h k =
      ap (take n) (drop-append_self xs ys start h) ∙ take_all ys n (omega arith)

  pub length-slice :
      (xs : List A) (start n : ℕ) → start + n ≤ length xs → length (slice xs start n) ≡ n
  length-slice xs start n h = omega (arith, length-take n (drop start xs), length-drop start xs)

  pub get_elem?-append_one :
      (xs : List A) (x : A) (i : ℕ)
      → get_elem? (xs ++ x ∷ []) i ≡ (if eqb i (length xs) then some x else get_elem? xs i)
  get_elem?-append_one [] x zero = ground arith
  get_elem?-append_one [] x (suc i) = ground arith
  get_elem?-append_one (y ∷ xs) x zero = ground arith
  get_elem?-append_one (y ∷ xs) x (suc i) = ground (arith, get_elem?-append_one xs x i)

  pub lt_of_get_elem? : (xs : List A) (i : ℕ) {x : A} → get_elem? xs i ≡ some x → i < length xs
  lt_of_get_elem? [] i h = cc
  lt_of_get_elem? (y ∷ xs) zero h = omega arith
  lt_of_get_elem? (y ∷ xs) (suc i) h = omega (arith, lt_of_get_elem? xs i h)

  pub get_elem?_of_lt : (xs : List A) (i : ℕ) → i < length xs → (x : A) × (get_elem? xs i ≡ some x)
  get_elem?_of_lt [] i h = absurd (omega arith)
  get_elem?_of_lt (y ∷ xs) zero h = (y, refl)
  get_elem?_of_lt (y ∷ xs) (suc i) h = get_elem?_of_lt xs i (omega arith)

  pub take-append_past :
      (xs ys : List A) (n : ℕ) → take (length xs + n) (xs ++ ys) ≡ xs ++ take n ys
  take-append_past [] ys n = rw (zero-add n)
  take-append_past (x ∷ xs) ys n =
      rw (suc-add (length xs) n) (ap (λ t. x ∷ t) (take-append_past xs ys n))
