-- ===== src/Base/Bits.antt =====
-- Bounds and digits of the bit operations at variables.
use Prim.Native.Nat.{
  ℕ, zero, suc, ◌+◌, ◌*◌, ◌/◌, ◌%◌, ◌≤◌, ◌<◌, min, bit_and, bit_xor, digits, differ,
  bit_and-bitwise, bit_xor-bitwise,
}
use mathlib.Core.Path.{◌≡◌, refl, sym, subst, ap}
use native.Mathlib.Nat.{mul_assoc}
use native.Mathlib.Omega.{arith}

abbrev pub two_to : ℕ → ℕ
two_to zero = 1
two_to (suc k) = 2 * two_to k

differ-lt : (x y : ℕ) → x < 2 → y < 2 → differ x y < 2
differ-lt zero y a b = b
differ-lt (suc x) zero a b = a
differ-lt (suc x) (suc y) a b = differ-lt x y (omega arith) (omega arith)

xor_digits-lt :
    (k n a b : ℕ) → a < two_to k → b < two_to k → digits (λ z. z) differ n a b < two_to k
xor_digits-lt k zero a b ha hb = hb
xor_digits-lt k (suc n) zero b ha hb = hb
xor_digits-lt zero (suc n) (suc a) b ha hb = absurd (omega arith)
xor_digits-lt (suc k) (suc n) (suc a) b ha hb =
    let rest = xor_digits-lt k n (suc a / 2) (b / 2) (omega arith) (omega arith) in
    let low = differ-lt (suc a % 2) (b % 2) (omega arith) (omega arith) in omega arith

pub bit_xor-lt : (k a b : ℕ) → a < two_to k → b < two_to k → bit_xor a b < two_to k
bit_xor-lt k a b ha hb =
    subst (λ x. x < two_to k) (sym (bit_xor-bitwise a b)) (xor_digits-lt k a a b ha hb)

and_digits-le : (n a b : ℕ) → (digits (λ z. 0) min n a b ≤ a) × (digits (λ z. 0) min n a b ≤ b)
and_digits-le zero a b = (omega arith, omega arith)
and_digits-le (suc n) zero b = (omega arith, omega arith)
and_digits-le (suc n) (suc a) b =
    let rest = and_digits-le n (suc a / 2) (b / 2) in (omega (arith, rest.0), omega (arith, rest.1))

pub bit_and-le : (a b : ℕ) → bit_and a b ≤ a
bit_and-le a b = omega (arith, bit_and-bitwise a b, (and_digits-le a a b).0)

bit_and-le_right : (a b : ℕ) → bit_and a b ≤ b
bit_and-le_right a b = omega (arith, bit_and-bitwise a b, (and_digits-le a a b).1)

none_digits : (fuel right : ℕ) → digits (λ z. 0) min fuel 0 right ≡ 0
none_digits zero right = refl
none_digits (suc fuel) right = refl

-- Fuel beyond the number itself changes nothing.
and_digits-spare :
    (left right fuel given : ℕ)
    → left ≤ fuel
    → fuel ≤ given
    → digits (λ z. 0) min given left right ≡ digits (λ z. 0) min fuel left right
and_digits-spare zero right fuel given enough more =
    omega (arith, none_digits given right, none_digits fuel right)
and_digits-spare (suc left) right zero given enough more = absurd (omega arith)
and_digits-spare (suc left) right (suc fuel) zero enough more = absurd (omega arith)
and_digits-spare (suc left) right (suc fuel) (suc given) enough more =
    let lower =
      and_digits-spare (suc left / 2) (right / 2) fuel given (omega arith) (omega arith) in
    omega arith

-- The lowest digit.
pub bit_and_digit : (a b : ℕ) → bit_and a b ≡ bit_and (a / 2) (b / 2) * 2 + min (a % 2) (b % 2)
bit_and_digit zero b = let none = bit_and-le 0 b in let half = bit_and-le 0 (b / 2) in omega arith
bit_and_digit (suc a) b =
    let half : ℕ = suc a / 2 in
    let spared = and_digits-spare half (b / 2) half a (omega arith) (omega arith) in
    let whole = bit_and-bitwise (suc a) b in let lower = bit_and-bitwise half (b / 2) in omega arith

pub bit_and-zero : (a : ℕ) → bit_and a 0 ≡ 0
bit_and-zero a = let bound = bit_and-le_right a 0 in omega arith

bit_and_zero : (b : ℕ) → bit_and 0 b ≡ 0
bit_and_zero b = omega (arith, bit_and-le 0 b)

-- The high and the low digits apart.
pub bit_and_split :
    (k q r m l : ℕ)
    → r < two_to k
    → l < two_to k
    → bit_and (two_to k * q + r) (two_to k * m + l) ≡ two_to k * bit_and q m + bit_and r l
bit_and_split zero q r m l hr hl =
    let same : bit_and (1 * q + r) (1 * m + l) ≡ bit_and q m = λ i.
      bit_and ((let e : 1 * q + r ≡ q = omega arith in e) i)
        ((let e : 1 * m + l ≡ m = omega arith in e) i) in
    omega (arith, same, bit_and-le r l)
bit_and_split (suc k) q r m l hr hl =
    let a : ℕ = two_to (suc k) * q + r in
    let b : ℕ = two_to (suc k) * m + l in
    let qs = mul_assoc 2 (two_to k) q in
    let ms = mul_assoc 2 (two_to k) m in
    let half_a : a / 2 ≡ two_to k * q + r / 2 = omega (arith, qs) in
    let half_b : b / 2 ≡ two_to k * m + l / 2 = omega (arith, ms) in
    let halves : bit_and (a / 2) (b / 2) ≡ bit_and (two_to k * q + r / 2) (two_to k * m + l / 2) =
      λ i. bit_and (half_a i) (half_b i) in
    omega (
      arith,
      bit_and_digit a b,
      halves,
      bit_and_split k q (r / 2) m (l / 2) (omega arith) (omega arith),
      bit_and_digit r l,
      mul_assoc 2 (two_to k) (bit_and q m),
      qs,
      ms,
    )

abbrev pub ones : ℕ → ℕ
ones zero = 0
ones (suc k) = 2 * ones k + 1

pub bit_and-ones : (k a : ℕ) → a < two_to k → bit_and a (ones k) ≡ a
bit_and-ones zero a h = omega (arith, bit_and-le a 0)
bit_and-ones (suc k) a h =
    let half : bit_and (a / 2) ((2 * ones k + 1) / 2) ≡ bit_and (a / 2) (ones k) =
      ap (bit_and (a / 2)) (omega arith) in
    omega (arith, bit_and_digit a (2 * ones k + 1), half, bit_and-ones k (a / 2) (omega arith))
