-- ===== src/Prelude/Bits.antt =====
-- Facts about the bit operations: the law of the lowest digit, and from it shifts and masks of any
-- width; and checking a small range by evaluation.
use Prim.Native.Nat.{
  ℕ, zero, suc, ◌+◌, ◌-◌, ◌*◌, ◌/◌, ◌%◌, ◌^◌, ◌≤◌, ◌<◌, min, max, bit_and, bit_or, digits,
  bit_and-bitwise, bit_or-bitwise,
}
use mathlib.Core.Path.{◌≡◌, refl, sym, ap, ◌∙◌}
use mathlib.Core.Bool.{Bool, true, ◌&&◌}
use native.Mathlib.Nat.{pow-suc, one-le-pow, div-add-mod, div-div-eq-div-mul}
use native.Mathlib.Omega.{arith}

unfoldable pub all_below : ℕ → (ℕ → Bool) → Bool
all_below zero p = true
all_below (suc n) p = p n && all_below n p

pub all_below_sound :
    (bound : ℕ) (test : ℕ → Bool) (k : ℕ) → all_below bound test ≡ true → k < bound → test k ≡ true
unfolding all_below
all_below_sound zero test k passed below = absurd (omega arith)
all_below_sound (suc bound) test k passed below =
    let earlier = all_below_sound bound test k in ground (arith, earlier)

-- Bit `k` of a word.
abbrev pub bit : ℕ → ℕ → ℕ
bit m k = m / 2 ^ k % 2

module _ (z : ℕ → ℕ) (f : ℕ → ℕ → ℕ) where
  -- Any fuel from the first operand on gives the same digits.
  digits_enough : (n m a b : ℕ) → a ≤ n → a ≤ m → digits z f n a b ≡ digits z f m a b
  digits_enough zero zero a b p q = refl
  digits_enough zero (suc m) zero b p q = refl
  digits_enough zero (suc m) (suc a) b p q = absurd (omega arith)
  digits_enough (suc n) zero zero b p q = refl
  digits_enough (suc n) zero (suc a) b p q = absurd (omega arith)
  digits_enough (suc n) (suc m) zero b p q = refl
  digits_enough (suc n) (suc m) (suc a) b p q =
      omega (arith, digits_enough n m (suc a / 2) (b / 2) (omega arith) (omega arith))

or_zero_left : (b : ℕ) → bit_or 0 b ≡ b
or_zero_left b = bit_or-bitwise 0 b

and_zero_left : (b : ℕ) → bit_and 0 b ≡ 0
and_zero_left b = bit_and-bitwise 0 b

pub bit_or_step : (a b : ℕ) → bit_or a b ≡ bit_or (a / 2) (b / 2) * 2 + max (a % 2) (b % 2)
bit_or_step zero b = omega (arith, or_zero_left b, or_zero_left (b / 2))
bit_or_step (suc a) b = omega (
  arith,
  bit_or-bitwise (suc a) b,
  bit_or-bitwise (suc a / 2) (b / 2),
  digits_enough (λ y. y) max a (suc a / 2) (suc a / 2) (b / 2) (omega arith) (omega arith),
)

pub bit_and_step : (m n : ℕ) → bit_and m n ≡ bit_and (m / 2) (n / 2) * 2 + min (m % 2) (n % 2)
bit_and_step zero n =
    let none_left = and_zero_left (n / 2) in omega (arith, none_left, and_zero_left n)
bit_and_step (suc m) n =
    let more_fuel =
      digits_enough (λ y. 0) min m (suc m / 2) (suc m / 2) (n / 2) (omega arith) (omega arith) in
    omega (arith, more_fuel, bit_and-bitwise (suc m / 2) (n / 2), bit_and-bitwise (suc m) n)

double_shift : (q k : ℕ) → q * 2 ^ suc k ≡ 2 * (q * 2 ^ k)
double_shift q k = omega (arith, ap (λ (t : ℕ). q * t) (pow-suc 2 k))

halve_pow : (a k : ℕ) → a / 2 ^ suc k ≡ a / 2 / 2 ^ k
halve_pow a k =
    ap (λ (t : ℕ). a / t) (omega (arith, pow-suc 2 k)) ∙ sym (div-div-eq-div-mul a 2 (2 ^ k))

-- `a | (q << k)` is a sum where `a` fits `k` bits.
pub bit_or_shift : (k a q : ℕ) → a < 2 ^ k → bit_or a (q * 2 ^ k) ≡ a + q * 2 ^ k
bit_or_shift zero a q h =
    let z : a ≡ 0 = omega arith in
    omega (arith, ap (λ (t : ℕ). bit_or t (q * 1)) z, or_zero_left (q * 1))
bit_or_shift (suc k) a q h = omega (
  arith,
  bit_or_step a (q * 2 ^ suc k),
  double_shift q k,
  ap (λ (t : ℕ). bit_or (a / 2) t) half,
  bit_or_shift k (a / 2) q (omega (arith, pow-suc 2 k)),
)
  where
    half : q * 2 ^ suc k / 2 ≡ q * 2 ^ k
    half = omega (arith, double_shift q k)

-- The same with the low bits behind, for a word.
pub bit_or_low : (k a q : ℕ) → a < 2 ^ k → q < 2 ^ 32 → bit_or (q * 2 ^ k) a ≡ q * 2 ^ k + a
bit_or_low zero a q h b =
    let z : a ≡ 0 = omega (arith, h) in
    let u : q * 1 ≡ q = omega arith in
    omega (
      arith,
      ap (λ (t : ℕ). bit_or (q * 1) t) z,
      ap (λ (t : ℕ). bit_or t 0) u,
      bit_or_shift 32 q 0 b,
    )
bit_or_low (suc k) a q h b =
    let half : q * 2 ^ suc k / 2 ≡ q * 2 ^ k = omega (arith, double_shift q k) in
    omega (
      arith,
      double_shift q k,
      bit_or_step (q * 2 ^ suc k) a,
      ap (λ (t : ℕ). bit_or t (a / 2)) half,
      bit_or_low k (a / 2) q (omega (arith, h, pow-suc 2 k)) b,
    )

-- A mask in the upper bits masks the upper bits.
pub bit_and_shift : (k a q : ℕ) → bit_and a (q * 2 ^ k) ≡ bit_and (a / 2 ^ k) q * 2 ^ k
bit_and_shift zero a q =
    omega (arith, ap (λ (t : ℕ). bit_and a t) one, ap (λ (t : ℕ). bit_and t q) whole)
  where
    one : q * 1 ≡ q
    one = omega arith

    whole : a / 1 ≡ a
    whole = omega arith
bit_and_shift (suc k) a q = omega (
  arith,
  bit_and_step a (q * 2 ^ suc k),
  double_shift q k,
  ap (λ (t : ℕ). bit_and (a / 2) t) half,
  bit_and_shift k (a / 2) q,
  ap (λ (t : ℕ). bit_and t q * 2 ^ suc k) (halve_pow a k),
  double_shift (bit_and (a / 2 / 2 ^ k) q) k,
)
  where
    half : q * 2 ^ suc k / 2 ≡ q * 2 ^ k
    half = omega (arith, double_shift q k)

bit_and_zero : (n a : ℕ) → a ≤ n → bit_and a 0 ≡ 0
bit_and_zero zero a h =
    let z : a ≡ 0 = omega arith in omega (arith, ap (λ (t : ℕ). bit_and t 0) z, and_zero_left 0)
bit_and_zero (suc n) a h = omega (arith, bit_and_step a 0, bit_and_zero n (a / 2) (omega arith))

-- A mask of `k` ones is the remainder by `2 ^ k`.
pub bit_and_ones : (k a : ℕ) → bit_and a (2 ^ k - 1) ≡ a % 2 ^ k
bit_and_ones zero a = omega (arith, bit_and_zero a a)
bit_and_ones (suc k) a = omega (
  arith,
  bit_and_step a (2 ^ suc k - 1),
  ap (λ (t : ℕ). bit_and (a / 2) t) ones,
  bit_and_ones k (a / 2),
  pow-suc 2 k,
  one-le-pow k 2,
  double_mod,
)
  where
    ones : (2 ^ suc k - 1) / 2 ≡ 2 ^ k - 1
    ones = omega (arith, pow-suc 2 k, one-le-pow k 2)

    double_mod : a % 2 ^ suc k ≡ 2 * (a / 2 % 2 ^ k) + a % 2
    double_mod = omega (
      arith,
      div-add-mod a (2 ^ suc k),
      div-add-mod (a / 2) (2 ^ k),
      ap (λ (t : ℕ). 2 ^ suc k * t) (halve_pow a k),
      ap (λ (t : ℕ). t * (a / 2 / 2 ^ k)) (pow-suc 2 k),
    )

-- Each bit of a conjunction and of a disjunction.
pub bit-bit_and : (k a b : ℕ) → bit (bit_and a b) k ≡ min (bit a k) (bit b k)
bit-bit_and zero a b = omega (arith, bit_and_step a b)
bit-bit_and (suc k) a b = omega (
  arith,
  halve_pow a k,
  halve_pow b k,
  halve_pow (bit_and a b) k,
  bit-bit_and k (a / 2) (b / 2),
  ap (λ (t : ℕ). t / 2 ^ k) half,
)
  where
    half : bit_and a b / 2 ≡ bit_and (a / 2) (b / 2)
    half = omega (arith, bit_and_step a b)

pub bit-bit_or : (k a b : ℕ) → bit (bit_or a b) k ≡ max (bit a k) (bit b k)
bit-bit_or zero a b = omega (arith, bit_or_step a b)
bit-bit_or (suc k) a b = omega (
  arith,
  halve_pow a k,
  halve_pow b k,
  halve_pow (bit_or a b) k,
  bit-bit_or k (a / 2) (b / 2),
  ap (λ (t : ℕ). t / 2 ^ k) half,
)
  where
    half : bit_or a b / 2 ≡ bit_or (a / 2) (b / 2)
    half = omega (arith, bit_or_step a b)
