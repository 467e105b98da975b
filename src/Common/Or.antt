-- ===== src/Common/Or.antt =====
-- The or of two numbers without a common digit is their sum.
use Prim.Native.Nat.{
  ℕ, zero, suc, ◌+◌, ◌*◌, ◌/◌, ◌%◌, ◌≤◌, ◌<◌, bit_or, digits, max, bit_or-bitwise,
}
use mathlib.Core.Path.{◌≡◌, ◌∙◌}
use native.Mathlib.Omega.{arith}

-- a number with `k` digits 0 behind it
abbrev pub shift_left : ℕ → ℕ → ℕ
shift_left zero b = b
shift_left (suc k) b = shift_left k b * 2

abbrev or_digits : ℕ → ℕ → ℕ → ℕ
or_digits n a b = digits (λ b. b) max n a b

max_zero : (x y : ℕ) → y ≡ 0 → max x y ≡ x
max_zero x y e = omega (arith, e)

or_digits-sum :
    (n k a b : ℕ) → a ≤ n → a < shift_left k 1 → or_digits n a (shift_left k b) ≡ a + shift_left k b
or_digits-sum zero k zero b h lim = omega arith
or_digits-sum zero k (suc a) b h lim = absurd (omega arith)
or_digits-sum (suc n) k zero b h lim = omega arith
or_digits-sum (suc n) zero (suc a) b h lim = absurd (omega arith)
or_digits-sum (suc n) (suc k) (suc a) b h lim =
    let rest = or_digits-sum n k (suc a / 2) b (omega arith) (omega arith) in
    let half : shift_left k b * 2 / 2 ≡ shift_left k b = omega arith in
    let last : shift_left k b * 2 % 2 ≡ 0 = omega arith in
    let digit = max_zero (suc a % 2) (shift_left k b * 2 % 2) last in
    rw half (omega (arith, rest, digit))

pub bit_or-sum : (k a b : ℕ) → a < shift_left k 1 → bit_or a (shift_left k b) ≡ a + shift_left k b
bit_or-sum k a b lim =
    let e : bit_or a (shift_left k b) ≡ or_digits a a (shift_left k b) =
      bit_or-bitwise a (shift_left k b) in
    e ∙ or_digits-sum a k a b (omega arith) lim
