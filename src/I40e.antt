-- ===== src/I40e.antt =====
-- dev/i40e: the driver. The hardware is a state that reads and writes of its registers, and waiting,
-- change; what it does is a parameter.
pub mod Mapped
pub mod Desc
pub mod Irq
pub mod Vectors
pub mod Queues
pub mod Switch
pub mod Start
pub mod Answer
pub mod Aq
pub mod Commands
pub mod Pf
pub mod Reset
pub mod VsiSetup
pub mod Hmc
pub mod Contexts
pub mod Device
mod Tests
use ufp.Common.{ℕ, suc, ◌+◌, ◌-◌, ◌*◌, ◌/◌, ◌%◌, ◌^◌, Bool, true, false, not, ◌==◌, if◌then◌else◌}

-- `UFP_READ32`, `UFP_WRITE32` and `usleep` in microseconds
pub record Registers (R : Type 0) : Type 0 where
  pub read32 : ℕ → R → ℕ × R
  pub write32 : (reg value : ℕ) → R → R
  pub usleep : ℕ → R → R

-- `x & BIT(shift)` as a condition, and `(x >> shift) & 1`
abbrev pub test_bit : ℕ → ℕ → Bool
test_bit x shift = x / 2 ^ shift % 2 == 1

-- `x | BIT(shift)`
abbrev pub set_bit : ℕ → ℕ → ℕ
set_bit x shift = if test_bit x shift then x else x + 2 ^ shift

-- `x & ~BIT(shift)`
abbrev pub clear_bit : ℕ → ℕ → ℕ
clear_bit x shift = if test_bit x shift then x - 2 ^ shift else x

-- the field of a word that its mask and its shift name
abbrev pub field : (x shift width : ℕ) → ℕ
field x shift width = x / 2 ^ shift % 2 ^ width
