-- ===== src/Metadata/Roaring.antt =====
-- `roaring::RoaringBitmap`, a set of `u32`: the operations that the code calls, with what the
-- crate documents of them. `list_bitmap` is a set that meets the interface.
use zapybase.Prelude.{
  ℕ, ◌≡◌, refl, Bool, true, false, not, ◌&&◌, ◌||◌, List, [], ◌∷◌, ◌++◌, arith, eqb, if◌then◌else◌,
}

pub record Roaring : Type 1 where
  pub Bitmap : Type 0
  pub new : Bitmap
  pub insert : Bitmap → ℕ → Bitmap
  pub remove : Bitmap → ℕ → Bitmap
  pub contains : Bitmap → ℕ → Bool
  pub union : Bitmap → Bitmap → Bitmap
  pub inter : Bitmap → Bitmap → Bitmap
  pub is_empty : Bitmap → Bool
  pub contains-new : (x : ℕ) → contains new x ≡ false
  pub contains-insert : (b : Bitmap) (x y : ℕ) → contains (insert b x) y ≡ (eqb x y || contains b y)
  pub contains-remove :
      (b : Bitmap) (x y : ℕ) → contains (remove b x) y ≡ (not (eqb x y) && contains b y)
  pub contains-union :
      (a b : Bitmap) (x : ℕ) → contains (union a b) x ≡ (contains a x || contains b x)
  pub contains-inter :
      (a b : Bitmap) (x : ℕ) → contains (inter a b) x ≡ (contains a x && contains b x)
  pub empty-contains : (b : Bitmap) (x : ℕ) → is_empty b ≡ true → contains b x ≡ false

unfoldable pub mem : List ℕ → ℕ → Bool
mem [] x = false
mem (y ∷ ys) x = eqb y x || mem ys x

unfoldable pub without : List ℕ → ℕ → List ℕ
without [] x = []
without (y ∷ ys) x = let rest = without ys x in if eqb y x then rest else y ∷ rest

unfoldable pub common : List ℕ → List ℕ → List ℕ
unfolding mem
common [] zs = []
common (y ∷ ys) zs = let rest = common ys zs in if mem zs y then y ∷ rest else rest

unfoldable pub is_nil : List ℕ → Bool
is_nil [] = true
is_nil (y ∷ ys) = false

pub mem-without : (b : List ℕ) (x y : ℕ) → mem (without b x) y ≡ (not (eqb x y) && mem b y)
unfolding mem without
mem-without [] x y = ground arith
mem-without (z ∷ b) x y = ground (arith, mem-without b x y)

pub mem-append : (a b : List ℕ) (x : ℕ) → mem (a ++ b) x ≡ (mem a x || mem b x)
unfolding mem
mem-append [] b x = refl
mem-append (z ∷ a) b x = ground (arith, mem-append a b x)

mem_eq : (b : List ℕ) (x y : ℕ) → x ≡ y → mem b x ≡ mem b y
mem_eq b x y h = cc

pub mem-common : (a b : List ℕ) (x : ℕ) → mem (common a b) x ≡ (mem a x && mem b x)
unfolding common
mem-common [] b x = refl
mem-common (z ∷ a) b x = ground (arith, mem-common a b x, mem_eq b z x)

pub is_nil-mem : (b : List ℕ) (x : ℕ) → is_nil b ≡ true → mem b x ≡ false
unfolding mem is_nil
is_nil-mem [] x h = refl
is_nil-mem (z ∷ b) x h = cc

pub mem-insert : (b : List ℕ) (x y : ℕ) → mem (x ∷ b) y ≡ (eqb x y || mem b y)
unfolding mem
mem-insert b x y = refl

pub mem-nil : (x : ℕ) → mem [] x ≡ false
unfolding mem
mem-nil x = refl

abbrev pub list_bitmap : Roaring
list_bitmap = record {
  Bitmap = List ℕ;
  new = [];
  insert = λ b x. x ∷ b;
  remove = without;
  contains = mem;
  union = λ a b. a ++ b;
  inter = common;
  is_empty = is_nil;
  contains-new = mem-nil;
  contains-insert = mem-insert;
  contains-remove = mem-without;
  contains-union = mem-append;
  contains-inter = mem-common;
  empty-contains = is_nil-mem;
}
