-- ===== src/I40e/Irq.antt =====
-- dev/i40e/i40e_io.c: the interrupts of the queues of an interface. An interrupt has a number from
-- `irq_idx` on, and the registers of interrupt `n` are those with index `n - 1`.
use Prim.Native.Nat.{bit_or, bit_and}
use ufp.Common.{ℕ, zero, suc, ◌+◌, ◌-◌, ◌*◌, ◌/◌, ◌%◌, ◌^◌, ◌==◌, if◌then◌else◌}
use ufp.I40e.{Registers}

abbrev pub pfint_itrn : ℕ → ℕ → ℕ
pfint_itrn i index = 196608 + (i * 2048 + index * 4)

abbrev pub pfint_dyn_ctln : ℕ → ℕ
pfint_dyn_ctln index = 215040 + index * 4

abbrev pub pfint_raten : ℕ → ℕ
pfint_raten index = 219136 + index * 4

abbrev pub pfint_lnklstn : ℕ → ℕ
pfint_lnklstn index = 217088 + index * 4

abbrev pub qint_rqctl : ℕ → ℕ
qint_rqctl queue = 237568 + queue * 4

abbrev pub qint_tqctl : ℕ → ℕ
qint_tqctl queue = 245760 + queue * 4

abbrev pub glgen_stat : ℕ
glgen_stat = 745772

-- `x & ~mask`
abbrev pub mask_off : ℕ → ℕ → ℕ
mask_off x mask = x - bit_and x mask

-- `INTRL_USEC_TO_REG`
abbrev pub rate_reg : ℕ → ℕ
rate_reg usec = if usec == 0 then 0 else bit_or (usec / 2 ^ 2) 64

-- the first number of the interrupts of an interface, in `uint16_t`
abbrev pub first_irq : ℕ → ℕ
first_irq base_qp = (base_qp * 2 + 1) % 2 ^ 16

-- `INTENA`, `CLEARPBA` and no change of the throttling
abbrev pub start_val : ℕ
start_val = 1 + 2 + 3 * 2 ^ 3

-- A loop over `n` queues from the queue `base_qp + i` on and the interrupt `irq_idx` on.
unfoldable pub each_irq :
    {R : Type 0} (one : (queue irq_idx : ℕ) → R → R) (n i base_qp irq_idx : ℕ) → R → R
each_irq one zero i base_qp irq_idx s = s
each_irq one (suc n) i base_qp irq_idx s =
    each_irq one n (suc i) base_qp ((irq_idx + 1) % 2 ^ 16) (one ((base_qp + i) % 2 ^ 16) irq_idx s)

module _ {R : Type 0} (hw : Registers R) where
  open hw use {read32, write32}

  -- The last part of `i40e_vsi_configure_irq_rx` and of `_tx`: `type` is 0 or 1, and `ctl` the
  -- control register of the queue.
  unfoldable pub configure_irq : (type : ℕ) (ctl : ℕ → ℕ) (irq_rate : ℕ) (queue irq_idx : ℕ) → R → R
  configure_irq type ctl irq_rate queue irq_idx s =
      let s₁ = write32 (pfint_itrn 0 (irq_idx - 1)) 12 s in
      let s₂ = write32 (pfint_raten (irq_idx - 1)) (rate_reg irq_rate) s₁ in
      let s₃ = write32 (pfint_lnklstn (irq_idx - 1)) (bit_or queue (type * 2 ^ 11)) s₂ in
      write32 (ctl queue) (bit_or (bit_or (2 ^ 30) irq_idx) (2047 * 2 ^ 16)) s₃

  abbrev pub i40e_vsi_configure_irq_rx : (irq_rate queue irq_idx : ℕ) → R → R
  i40e_vsi_configure_irq_rx irq_rate queue irq_idx s =
      configure_irq 0 qint_rqctl irq_rate queue irq_idx s

  abbrev pub i40e_vsi_configure_irq_tx : (irq_rate queue irq_idx : ℕ) → R → R
  i40e_vsi_configure_irq_tx irq_rate queue irq_idx s =
      configure_irq 1 qint_tqctl irq_rate queue irq_idx s

  -- `i40e_vsi_shutdown_irq_rx` and `_tx`: the interrupt's list of queues is ended, and the queue's
  -- control register loses its interrupt.
  unfoldable pub shutdown_irq : (ctl : ℕ → ℕ) (queue irq_idx : ℕ) → R → R
  shutdown_irq ctl queue irq_idx s =
      let (list, s₁) = read32 (pfint_lnklstn (irq_idx - 1)) s in
      let s₂ = write32 (pfint_lnklstn (irq_idx - 1)) (bit_or list 2047) s₁ in
      let (val, s₃) = read32 (ctl queue) s₂ in
      let off = mask_off val (255 + 7 * 2 ^ 13 + 2 ^ 30 + 2 ^ 31) in
      write32 (ctl queue) (bit_or off (3 * 2 ^ 11 + 2047 * 2 ^ 16)) s₃

  abbrev pub i40e_vsi_shutdown_irq_rx : (queue irq_idx : ℕ) → R → R
  i40e_vsi_shutdown_irq_rx queue irq_idx s = shutdown_irq qint_rqctl queue irq_idx s

  abbrev pub i40e_vsi_shutdown_irq_tx : (queue irq_idx : ℕ) → R → R
  i40e_vsi_shutdown_irq_tx queue irq_idx s = shutdown_irq qint_tqctl queue irq_idx s

  abbrev pub i40e_flush : R → R
  i40e_flush s = (read32 glgen_stat s).1

  unfoldable pub i40e_vsi_configure_irq : (base_qp num_qps irq_rate : ℕ) → R → R
  i40e_vsi_configure_irq base_qp num_qps irq_rate s =
      let irq_idx = first_irq base_qp in
      let s₁ = each_irq (i40e_vsi_configure_irq_rx irq_rate) num_qps 0 base_qp irq_idx s in
      let irq_idx' = (irq_idx + num_qps) % 2 ^ 16 in
      i40e_flush (each_irq (i40e_vsi_configure_irq_tx irq_rate) num_qps 0 base_qp irq_idx' s₁)

  unfoldable pub i40e_vsi_shutdown_irq : (base_qp num_qps : ℕ) → R → R
  i40e_vsi_shutdown_irq base_qp num_qps s =
      let irq_idx = first_irq base_qp in
      let s₁ = each_irq i40e_vsi_shutdown_irq_rx num_qps 0 base_qp irq_idx s in
      let irq_idx' = (irq_idx + num_qps) % 2 ^ 16 in
      i40e_flush (each_irq i40e_vsi_shutdown_irq_tx num_qps 0 base_qp irq_idx' s₁)

  unfoldable pub i40e_vsi_start_irq : (base_qp num_qps : ℕ) → R → R
  i40e_vsi_start_irq base_qp num_qps s = i40e_flush (
      each_irq (λ queue irq_idx s. write32 (pfint_dyn_ctln (irq_idx - 1)) start_val s) (num_qps * 2)
        0 base_qp (first_irq base_qp) s)

  unfoldable pub i40e_vsi_stop_irq : (base_qp num_qps : ℕ) → R → R
  i40e_vsi_stop_irq base_qp num_qps s = i40e_flush (
      each_irq (λ queue irq_idx s. write32 (pfint_dyn_ctln (irq_idx - 1)) 0 s) (num_qps * 2) 0
        base_qp (first_irq base_qp) s)

  -- without `CLEARPBA`, so that no interrupt is lost
  unfoldable pub i40e_update_enable_itr : ℕ → R → R
  i40e_update_enable_itr entry_idx s = write32 (pfint_dyn_ctln (entry_idx - 1)) (1 + 3 * 2 ^ 3) s
