-- ===== src/Pairing/Token.antt =====
-- `ConstantTimeTokenEqual` of components/note4_companion/note4_pairing_bootstrap.cc is equality.
use zectrix_note4_platform.Pairing.{constant_time_token_equal, difference}
use Prim.Native.Nat.{bit_or, bit_xor, digits, differ, bit_or-bitwise, bit_xor-bitwise}
use mathlib.Core.Logic.{◌↔◌}
use zectrix_note4_platform.Base.{
  List, [], arith, length, max, refl, suc, sym, true, zero, ℕ, ◌%◌, ◌/◌, ◌<◌, ◌∙◌, ◌∷◌, ◌≡◌, ◌≤◌,
}

digit-zero : (x y : ℕ) → x < 2 → y < 2 → differ x y ≡ 0 → x ≡ y
digit-zero zero y a b h = ground arith
digit-zero (suc x) zero a b h = ground arith
digit-zero (suc x) (suc y) a b h = omega arith

xor-digits_zero : (n a b : ℕ) → a ≤ n → digits (λ z. z) differ n a b ≡ 0 → a ≡ b
xor-digits_zero zero a b le h = ground arith
xor-digits_zero (suc n) zero b le h = ground arith
xor-digits_zero (suc n) (suc a) b le h =
    let half = xor-digits_zero n (suc a / 2) (b / 2) (omega arith) (omega arith) in
    let low = digit-zero (suc a % 2) (b % 2) (omega arith) (omega arith) (omega arith) in
    omega arith

bit_xor-zero : (a b : ℕ) → bit_xor a b ≡ 0 → a ≡ b
bit_xor-zero a b h = xor-digits_zero a a b (omega arith) (sym (bit_xor-bitwise a b) ∙ h)

or-digits_zero : (n a b : ℕ) → a ≤ n → digits (λ z. z) max n a b ≡ 0 → (a ≡ 0) × (b ≡ 0)
or-digits_zero zero a b le h = ground arith
or-digits_zero (suc n) zero b le h = ground arith
or-digits_zero (suc n) (suc a) b le h =
    let (half, other) = or-digits_zero n (suc a / 2) (b / 2) (omega arith) (omega arith) in
    let low : max (suc a % 2) (b % 2) ≡ 0 = omega arith in absurd (omega arith)

bit_or-zero : (a b : ℕ) → bit_or a b ≡ 0 → (a ≡ 0) × (b ≡ 0)
bit_or-zero a b h = or-digits_zero a a b (omega arith) (sym (bit_or-bitwise a b) ∙ h)

xor-digits_same : (n a : ℕ) → a ≤ n → digits (λ z. z) differ n a a ≡ 0
xor-digits_same zero a le = ground arith
xor-digits_same (suc n) zero le = refl
xor-digits_same (suc n) (suc a) le =
    let rest = xor-digits_same n (suc a / 2) (omega arith) in
    let low = differ_same (suc a % 2) in omega arith
  where
    differ_same : (x : ℕ) → differ x x ≡ 0
    differ_same zero = refl
    differ_same (suc x) = differ_same x

bit_xor-same : (a : ℕ) → bit_xor a a ≡ 0
bit_xor-same a = bit_xor-bitwise a a ∙ xor-digits_same a a (omega arith)

difference-zero :
    (d : ℕ) (xs ys : List ℕ) → length xs ≡ length ys → difference d xs ys ≡ 0 → (d ≡ 0) × (xs ≡ ys)
unfolding difference
difference-zero d [] [] same h = (h, refl)
difference-zero d [] (y ∷ ys) same h = absurd (omega arith)
difference-zero d (x ∷ xs) [] same h = absurd (omega arith)
difference-zero d (x ∷ xs) (y ∷ ys) same h =
    let (seen, rest) = difference-zero (bit_or d (bit_xor x y)) xs ys (omega arith) h in
    let (before, now) = bit_or-zero d (bit_xor x y) seen in
    let head = bit_xor-zero x y now in (before, cc)

difference-same : (xs : List ℕ) → difference 0 xs xs ≡ 0
unfolding difference
difference-same [] = refl
difference-same (x ∷ xs) = rw (bit_xor-same x) (difference-same xs)

-- For two tokens of the same length the comparison in constant time says `true` exactly when
-- they are equal.
pub constant_time_token_equal_iff :
    (first second : List ℕ)
    → length first ≡ length second
    → (constant_time_token_equal first second ≡ true) ↔ (first ≡ second)
constant_time_token_equal_iff first second same = (forth, back)
  where
    forth : constant_time_token_equal first second ≡ true → first ≡ second
    forth h = (difference-zero 0 first second same (ground arith)).1

    back : first ≡ second → constant_time_token_equal first second ≡ true
    back e = rw (sym e) (ground (arith, difference-same first))
