-- ===== src/Common/Bits.antt =====
-- The exclusive or of two numbers is zero exactly if they are equal.
use Prim.Native.Nat.{ℕ, zero, suc, ◌/◌, ◌%◌, ◌≤◌, bit_xor, digits, differ, bit_xor-bitwise}
use mathlib.Core.Path.{◌≡◌, sym}
use mathlib.Core.Logic.{◌↔◌}
use native.Mathlib.Omega.{arith}
use ufp.Common.Tests.{◌==◌}

differ-zero : (x y : ℕ) → (differ x y ≡ 0) ↔ (x ≡ y)
differ-zero zero y = (λ e. sym e, λ e. sym e)
differ-zero (suc x) zero = (λ e. e, λ e. e)
differ-zero (suc x) (suc y) =
    (λ e. omega (arith, (differ-zero x y).0 e), λ e. (differ-zero x y).1 (omega arith))

abbrev xor_digits : ℕ → ℕ → ℕ → ℕ
xor_digits n a b = digits (λ b. b) differ n a b

xor_digits-zero : (n a b : ℕ) → a ≤ n → (xor_digits n a b ≡ 0) ↔ (a ≡ b)
xor_digits-zero zero zero b h = (λ e. sym e, λ e. sym e)
xor_digits-zero zero (suc a) b h = absurd (omega arith)
xor_digits-zero (suc n) zero b h = (λ e. sym e, λ e. sym e)
xor_digits-zero (suc n) (suc a) b h =
    let high = xor_digits-zero n (suc a / 2) (b / 2) (omega arith) in
    let low = differ-zero (suc a % 2) (b % 2) in
    (
      λ e. omega (arith, high.0 (omega arith), low.0 (omega arith)),
      λ e. omega (arith, high.1 (omega arith), low.1 (omega arith)),
    )

pub bit_xor-zero : (a b : ℕ) → (bit_xor a b == 0) ≡ (a == b)
bit_xor-zero a b =
    let h = xor_digits-zero a a b (omega arith) in
    let e : bit_xor a b ≡ xor_digits a a b = bit_xor-bitwise a b in ground (arith, h.0, h.1, e)
