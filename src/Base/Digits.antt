-- ===== src/Base/Digits.antt =====
-- Binary digits of a machine word: `|` on variables, digit by digit.
use Prim.Native.Nat.{ℕ, zero, suc, ◌+◌, ◌*◌, ◌/◌, ◌%◌, ◌≤◌, max, bit_or, digits, bit_or-bitwise}
use mathlib.Core.Path.{◌≡◌, refl, ◌∙◌}
use mathlib.Core.Bool.{Bool}
use native.Mathlib.Omega.{arith}
use szczupak_os.Base.Tests.{◌==◌}

-- Whether the digit of weight `w`, a power of two, is set: `x & w`.
abbrev pub has_bit : ℕ → ℕ → Bool
has_bit w x = x / w % 2 == 1

-- The recursion that the native operation stands for.
abbrev or_digits : ℕ → ℕ → ℕ → ℕ
or_digits n a b = digits (λ b. b) max n a b

or_digits_fuel : (n m a b : ℕ) → a ≤ n → a ≤ m → or_digits n a b ≡ or_digits m a b
or_digits_fuel zero zero a b p q = refl
or_digits_fuel zero (suc m) zero b p q = refl
or_digits_fuel zero (suc m) (suc a) b p q = absurd (omega arith)
or_digits_fuel (suc n) zero zero b p q = refl
or_digits_fuel (suc n) zero (suc a) b p q = absurd (omega arith)
or_digits_fuel (suc n) (suc m) zero b p q = refl
or_digits_fuel (suc n) (suc m) (suc a) b p q =
    omega (arith, or_digits_fuel n m (suc a / 2) (b / 2) (omega arith) (omega arith))

pub zero-bit_or : (b : ℕ) → bit_or 0 b ≡ b
zero-bit_or b = bit_or-bitwise 0 b

pub bit_or_step : (a b : ℕ) → bit_or a b ≡ bit_or (a / 2) (b / 2) * 2 + max (a % 2) (b % 2)
bit_or_step zero b = omega (arith, zero-bit_or b, zero-bit_or (b / 2))
bit_or_step (suc a) b = omega (
  arith,
  bit_or-bitwise (suc a) b,
  bit_or-bitwise (suc a / 2) (b / 2),
  or_digits_fuel a (suc a / 2) (suc a / 2) (b / 2) (omega arith) (omega arith),
)

bit_or-zero_fuel : (n a : ℕ) → a ≤ n → bit_or a 0 ≡ a
bit_or-zero_fuel n zero h = refl
bit_or-zero_fuel zero (suc a) h = absurd (omega arith)
bit_or-zero_fuel (suc n) (suc a) h =
    omega (arith, bit_or_step (suc a) 0, bit_or-zero_fuel n (suc a / 2) (omega arith))

pub bit_or-zero : (a : ℕ) → bit_or a 0 ≡ a
bit_or-zero a = bit_or-zero_fuel a a (omega arith)

pub bit_or_half : (a b : ℕ) → bit_or a b / 2 ≡ bit_or (a / 2) (b / 2)
bit_or_half a b = omega (arith, bit_or_step a b)

bit_or_eighth : (a b : ℕ) → bit_or a b / 8 ≡ bit_or (a / 8) (b / 8)
bit_or_eighth a b =
    let two : a / 2 / 2 ≡ a / 4 = omega arith in
    let two' : b / 2 / 2 ≡ b / 4 = omega arith in
    let three : a / 4 / 2 ≡ a / 8 = omega arith in
    let three' : b / 4 / 2 ≡ b / 8 = omega arith in
    let step1 = bit_or_half a b in
    let step2 : bit_or (a / 2) (b / 2) / 2 ≡ bit_or (a / 4) (b / 4) =
      bit_or_half (a / 2) (b / 2) ∙ rw (two, two') refl in
    let step3 : bit_or (a / 4) (b / 4) / 2 ≡ bit_or (a / 8) (b / 8) =
      bit_or_half (a / 4) (b / 4) ∙ rw (three, three') refl in
    omega (arith, step1, step2, step3)

-- The digits above a page offset are combined on their own.
pub bit_or_frame : (a b : ℕ) → bit_or a b / 4096 ≡ bit_or (a / 4096) (b / 4096)
bit_or_frame a b =
    let e1 : a / 8 / 8 ≡ a / 64 = omega arith in
    let e1' : b / 8 / 8 ≡ b / 64 = omega arith in
    let e2 : a / 64 / 8 ≡ a / 512 = omega arith in
    let e2' : b / 64 / 8 ≡ b / 512 = omega arith in
    let e3 : a / 512 / 8 ≡ a / 4096 = omega arith in
    let e3' : b / 512 / 8 ≡ b / 4096 = omega arith in
    let step1 = bit_or_eighth a b in
    let step2 : bit_or (a / 8) (b / 8) / 8 ≡ bit_or (a / 64) (b / 64) =
      bit_or_eighth (a / 8) (b / 8) ∙ rw (e1, e1') refl in
    let step3 : bit_or (a / 64) (b / 64) / 8 ≡ bit_or (a / 512) (b / 512) =
      bit_or_eighth (a / 64) (b / 64) ∙ rw (e2, e2') refl in
    let step4 : bit_or (a / 512) (b / 512) / 8 ≡ bit_or (a / 4096) (b / 4096) =
      bit_or_eighth (a / 512) (b / 512) ∙ rw (e3, e3') refl in
    omega (arith, step1, step2, step3, step4)

-- The lowest digit.
pub bit_or_odd : (a b : ℕ) → bit_or a b % 2 ≡ max (a % 2) (b % 2)
bit_or_odd a b = omega (arith, bit_or_step a b)

-- The digit of weight 128.
pub bit_or_128 : (a b : ℕ) → bit_or a b / 128 ≡ bit_or (a / 128) (b / 128)
bit_or_128 a b =
    let e1 : a / 8 / 8 ≡ a / 64 = omega arith in
    let e1' : b / 8 / 8 ≡ b / 64 = omega arith in
    let e2 : a / 64 / 2 ≡ a / 128 = omega arith in
    let e2' : b / 64 / 2 ≡ b / 128 = omega arith in
    let step1 = bit_or_eighth a b in
    let step2 : bit_or (a / 8) (b / 8) / 8 ≡ bit_or (a / 64) (b / 64) =
      bit_or_eighth (a / 8) (b / 8) ∙ rw (e1, e1') refl in
    let step3 : bit_or (a / 64) (b / 64) / 2 ≡ bit_or (a / 128) (b / 128) =
      bit_or_half (a / 64) (b / 64) ∙ rw (e2, e2') refl in
    omega (arith, step1, step2, step3)
