-- ===== src/Downloaders/Numbers.antt =====
-- The numbers of Python that `CloudDriveConfig` of src/tuntu/downloaders/clouddrive.py compares.
use tuntu.Prelude.{
  ℕ, ◌≡◌, refl, Bool, true, false, not, ◌&&◌, ◌||◌, List, [], ◌∷◌, All, ltb, ◌==◌, nat_eq, arith,
  Bool-cases, inl, inr, if◌then◌else◌,
}

-- An `int`: n, or -(n + 1).
pub data ℤ : Type 0 where
  pos : ℕ → ℤ
  negsuc : ℕ → ℤ

abbrev pub int_lt : ℤ → ℤ → Bool
int_lt (pos m) (pos n) = ltb m n
int_lt (pos m) (negsuc n) = false
int_lt (negsuc m) (pos n) = true
int_lt (negsuc m) (negsuc n) = ltb n m

abbrev pub int_eq : ℤ → ℤ → Bool
int_eq (pos m) (pos n) = m == n
int_eq (pos m) (negsuc n) = false
int_eq (negsuc m) (pos n) = false
int_eq (negsuc m) (negsuc n) = m == n

-- A `float`: NaN, an infinity, or the whole number below it with the fraction that is left, counted in
-- units of 2^-1074, of which every finite float is a multiple. An `int` has no fraction.
pub data Number : Type 0 where
  nan negative_infinity infinity : Number
  finite : ℤ → ℕ → Number

abbrev pub whole : ℤ → Number
whole n = finite n 0

-- `x < y`
unfoldable pub number_lt : Number → Number → Bool
number_lt nan y = false
number_lt negative_infinity nan = false
number_lt negative_infinity negative_infinity = false
number_lt negative_infinity infinity = true
number_lt negative_infinity (finite b y) = true
number_lt infinity y = false
number_lt (finite a x) nan = false
number_lt (finite a x) negative_infinity = false
number_lt (finite a x) infinity = true
number_lt (finite a x) (finite b y) = int_lt a b || (int_eq a b && ltb x y)

abbrev pub is_nan : Number → Bool
is_nan nan = true
is_nan negative_infinity = false
is_nan infinity = false
is_nan (finite a x) = false

-- `x <= y`
unfoldable pub number_le : Number → Number → Bool
unfolding number_lt
number_le x y = not (is_nan x || is_nan y) && not (number_lt y x)

-- `min(m, *xs)`: a later argument is taken only if it is less than what is held.
unfoldable pub minimum : Number → List Number → Number
unfolding number_lt
minimum m [] = m
minimum m (x ∷ xs) = minimum (if number_lt x m then x else m) xs

zero_lt-lt :
    (x m : Number)
    → number_lt (whole (pos 0)) x ≡ true
    → number_lt x m ≡ true
    → number_lt (whole (pos 0)) m ≡ true
unfolding number_lt
zero_lt-lt nan m h k = absurd (ground (arith, h))
zero_lt-lt negative_infinity m h k = absurd (ground (arith, h))
zero_lt-lt infinity m h k = absurd (ground (arith, k))
zero_lt-lt (finite a x) nan h k = absurd (ground (arith, k))
zero_lt-lt (finite a x) negative_infinity h k = absurd (ground (arith, k))
zero_lt-lt (finite a x) infinity h k = refl
zero_lt-lt (finite (pos a) x) (finite (pos b) y) h k = ground (arith, h, k)
zero_lt-lt (finite (pos a) x) (finite (negsuc b) y) h k = absurd (ground (arith, k))
zero_lt-lt (finite (negsuc a) x) (finite b y) h k = absurd (ground (arith, h))

-- What is not less than a number above 0 is above 0 too, or is NaN.
above_zero :
    (x m : Number)
    → number_lt (whole (pos 0)) m ≡ true
    → number_lt x m ≡ false
    → number_le x (whole (pos 0)) ≡ false
unfolding number_le number_lt
above_zero nan m h k = refl
above_zero infinity m h k = refl
above_zero negative_infinity nan h k = absurd (ground (arith, h))
above_zero negative_infinity negative_infinity h k = absurd (ground (arith, h))
above_zero negative_infinity infinity h k = absurd (ground (arith, k))
above_zero negative_infinity (finite b y) h k = absurd (ground (arith, k))
above_zero (finite a x) nan h k = absurd (ground (arith, h))
above_zero (finite a x) negative_infinity h k = absurd (ground (arith, h))
above_zero (finite a x) infinity h k = absurd (ground (arith, k))
above_zero (finite (pos a) x) (finite (pos b) y) h k = ground (arith, h, k)
above_zero (finite (pos a) x) (finite (negsuc b) y) h k = absurd (ground (arith, h))
above_zero (finite (negsuc a) x) (finite (pos b) y) h k = absurd (ground (arith, k))
above_zero (finite (negsuc a) x) (finite (negsuc b) y) h k = absurd (ground (arith, h))

zero_lt-le : (x : Number) → number_lt (whole (pos 0)) x ≡ true → number_le x (whole (pos 0)) ≡ false
unfolding number_le
zero_lt-le x h = ground (arith, h)

le-zero_lt :
    (x : Number)
    → is_nan x ≡ false
    → number_le x (whole (pos 0)) ≡ false
    → number_lt (whole (pos 0)) x ≡ true
unfolding number_le
le-zero_lt x h k = ground (arith, h, k)

lt-not_nan : (x m : Number) → number_lt x m ≡ true → is_nan x ≡ false
unfolding number_lt
lt-not_nan nan m h = absurd (ground (arith, h))
lt-not_nan negative_infinity m h = refl
lt-not_nan infinity m h = refl
lt-not_nan (finite a x) m h = refl

-- If the first argument is not NaN and the minimum is not at most 0, then the first one is above 0, and
-- no other one is at most 0.
pub minimum-positive :
    (m : Number) (xs : List Number)
    → is_nan m ≡ false
    → number_le (minimum m xs) (whole (pos 0)) ≡ false
    → (number_lt (whole (pos 0)) m ≡ true)
      × All (λ (x : Number). number_le x (whole (pos 0)) ≡ false) xs
unfolding minimum
minimum-positive m [] n h = (le-zero_lt m n h, tt)
minimum-positive m (x ∷ xs) n h = elim (Bool-cases (number_lt x m)) [
  | inl less ↦
      let (here, rest) = minimum-positive x xs (lt-not_nan x m less) (rw less at h) in
      (zero_lt-lt x m here less, (zero_lt-le x here, rest))
  | inr kept ↦
      let (here, rest) = minimum-positive m xs n (rw kept at h) in
      (here, (above_zero x m here kept, rest))
]

-- Of an `int`, that it is not at most 0 means that it is above 0.
pub whole-positive : (n : ℤ) → number_le (whole n) (whole (pos 0)) ≡ false → int_lt (pos 0) n ≡ true
unfolding number_le number_lt
whole-positive (pos n) h = ground (arith, h)
whole-positive (negsuc n) h = absurd (ground (arith, h))
