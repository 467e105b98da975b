-- ===== src/Lpm/Cover.antt =====
-- The cover of a prefix, one stride of the table at a time.
use native.Mathlib.Nat.{add-zero}
use ufp.Common.{ℕ, suc, ◌+◌, ◌-◌, ◌^◌, ◌≡◌, refl, true, false, ◌&&◌, ltb, ◌==◌}
use ufp.Lpm.{lpm_index, clear_low}
use ufp.Lpm.Spec.{in_range, covers_below}

pub covers_below_deeper :
    (fuel : ℕ) (prefix : ℕ → ℕ) (l : ℕ) (dst : ℕ → ℕ) (offset : ℕ)
    → ltb (offset + 8) l ≡ true
    → covers_below (suc fuel) prefix l dst offset
      ≡ (lpm_index dst offset 8 == lpm_index prefix offset 8)
        && covers_below fuel prefix l dst (offset + 8)
unfolding covers_below
covers_below_deeper fuel prefix l dst offset more = rw more refl

pub covers_below_last :
    (fuel : ℕ) (prefix : ℕ → ℕ) (l : ℕ) (dst : ℕ → ℕ) (offset : ℕ)
    → ltb (offset + 8) l ≡ false
    → covers_below (suc fuel) prefix l dst offset ≡ (
        let range = 2 ^ (8 - (l - offset)) in
        in_range (clear_low (lpm_index prefix offset 8) range + 0) range (lpm_index dst offset 8))
unfolding covers_below
covers_below_last fuel prefix l dst offset last = rw (last, add-zero) refl
