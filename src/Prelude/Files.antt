-- ===== src/Prelude/Files.antt =====
-- A file as a list of bytes, with the writes at an offset.
use zapybase.Prelude.Lists.{
  length, take, drop, replicate, length-append, length-take, length-drop, length-replicate,
}
use zapybase.Prelude.Slices.{slice, slice-append, take-append_self}
use Prim.Native.Nat.{ℕ, zero, suc, ◌+◌, ◌-◌, ◌≤◌, max}
use mathlib.Core.Path.{◌≡◌, refl, ap, ◌∙◌}
use mathlib.Core.List.{List, [], ◌∷◌, ◌++◌}
use native.Mathlib.Omega.{arith}

-- the file up to an offset, with zeros behind its end
abbrev pub padded : ℕ → List ℕ → List ℕ
padded offset file = take offset (file ++ replicate (offset - length file) 0)

-- `seek(SeekFrom::Start(offset))` and `write_all(bytes)`
unfoldable pub write_at : ℕ → List ℕ → List ℕ → List ℕ
write_at offset bytes file = padded offset file ++ (bytes ++ drop (offset + length bytes) file)

module _ {ℓ} {A : Type ℓ} where
  pub drop-drop : (m k n : ℕ) (xs : List A) → n ≡ m + k → drop k (drop m xs) ≡ drop n xs
  drop-drop zero k n xs e = ap (λ i. drop i xs) (omega arith)
  drop-drop (suc m) k zero xs e = absurd (omega arith)
  drop-drop (suc m) zero (suc n) [] e = refl
  drop-drop (suc m) (suc k) (suc n) [] e = refl
  drop-drop (suc m) k (suc n) (x ∷ xs) e = drop-drop m k n xs (omega arith)

  drop-append_past : (xs ys : List A) (n k : ℕ) → n ≡ length xs + k → drop n (xs ++ ys) ≡ drop k ys
  drop-append_past [] ys n k e = ap (λ n. drop n ys) (omega arith)
  drop-append_past (x ∷ xs) ys zero k e = absurd (omega arith)
  drop-append_past (x ∷ xs) ys (suc n) k e = drop-append_past xs ys n k (omega arith)

  take-take : (n k : ℕ) (xs : List A) → n ≤ k → take n (take k xs) ≡ take n xs
  take-take zero k xs h = refl
  take-take (suc n) zero xs h = absurd (omega arith)
  take-take (suc n) (suc k) [] h = refl
  take-take (suc n) (suc k) (x ∷ xs) h = ap (λ t. x ∷ t) (take-take n k xs (omega arith))

  slice-take :
      (xs : List A) (k start n : ℕ) → start + n ≤ k → slice (take k xs) start n ≡ slice xs start n
  slice-take xs k zero n h = take-take n k xs (omega arith)
  slice-take [] k (suc start) zero h = refl
  slice-take [] zero (suc start) (suc n) h = absurd (omega arith)
  slice-take [] (suc k) (suc start) (suc n) h = refl
  slice-take (x ∷ xs) zero (suc start) n h = absurd (omega arith)
  slice-take (x ∷ xs) (suc k) (suc start) n h = slice-take xs k start n (omega arith)

length-padded : (offset : ℕ) (file : List ℕ) → length (padded offset file) ≡ offset
length-padded offset file =
    let zeros : List ℕ = replicate (offset - length file) 0 in
    let count = length-replicate {A = ℕ} (offset - length file) 0 in
    omega (arith, length-take offset (file ++ zeros), length-append file zeros, count)

-- What is read where something was written is what was written.
pub slice-write_at :
    (offset n : ℕ) (bytes file : List ℕ)
    → n ≡ length bytes
    → slice (write_at offset bytes file) offset n ≡ bytes
unfolding write_at
slice-write_at offset n bytes file e =
    let rest = drop (offset + length bytes) file in
    let len = length-padded offset file in
    ap (take n)
      (drop-append_past (padded offset file) (bytes ++ rest) offset 0 (omega (arith, len)))
    ∙ take-append_self bytes rest n e

-- Everywhere else the file is as it was: before the write, where the file reached that far,
pub slice-write_at_before :
    (offset start n : ℕ) (bytes file : List ℕ)
    → start + n ≤ offset
    → start + n ≤ length file
    → slice (write_at offset bytes file) start n ≡ slice file start n
unfolding write_at
slice-write_at_before offset start n bytes file h k =
    let zeros : List ℕ = replicate (offset - length file) 0 in
    let len = length-padded offset file in
    slice-append (padded offset file) (bytes ++ drop (offset + length bytes) file) start n
      (omega (arith, len, h))
    ∙ slice-take (file ++ zeros) offset start n h
    ∙ slice-append file zeros start n k

-- and behind it.
pub slice-write_at_after :
    (offset start n : ℕ) (bytes file : List ℕ)
    → offset + length bytes ≤ start
    → slice (write_at offset bytes file) start n ≡ slice file start n
unfolding write_at
slice-write_at_after offset start n bytes file h =
    let len = length-padded offset file in
    let rest = drop (offset + length bytes) file in
    let past = start - offset - length bytes in
    ap (take n) (
      drop-append_past (padded offset file) (bytes ++ rest) start (length bytes + past)
        (omega (arith, len, h))
      ∙ drop-append_past bytes rest (length bytes + past) past (omega arith)
      ∙ drop-drop (offset + length bytes) past start file (omega (arith, h)))

pub length-write_at :
    (offset : ℕ) (bytes file : List ℕ)
    → length (write_at offset bytes file) ≡ max (offset + length bytes) (length file)
unfolding write_at
length-write_at offset bytes file =
    let rest = drop (offset + length bytes) file in
    let dropped = length-drop (offset + length bytes) file in
    omega (
      arith,
      length-padded offset file,
      length-append (padded offset file) (bytes ++ rest),
      length-append bytes rest,
      dropped,
    )
