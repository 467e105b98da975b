-- ===== src/I40e/Vectors.antt =====
-- dev/i40e/i40e_io.c: which interrupts of an interface are enabled and disabled, for hardware whose
-- control registers of interrupts keep what is written to them.
use ufp.Common.{
  ℕ, zero, suc, ◌+◌, ◌-◌, ◌*◌, ◌%◌, ◌^◌, ◌≡◌, ◌<◌, ◌∙◌, arith, ltb, leb, ◌&&◌, Bool, if◌then◌else◌,
  ◌==◌,
}
use ufp.I40e.{Registers}
use ufp.I40e.Irq.{
  pfint_dyn_ctln, glgen_stat, first_irq, each_irq, start_val, i40e_vsi_start_irq, i40e_vsi_stop_irq,
}

module _ {R : Type 0} (hw : Registers R) where
  -- `control n s` is what the control register of index `n` holds
  pub record IsControlled (control : ℕ → R → ℕ) : Type 0 where
    pub written :
        (index value n : ℕ) (s : R)
        → control n (hw.write32 (pfint_dyn_ctln index) value s)
          ≡ (if n == index then value else control n s)
    pub kept : (n : ℕ) (s : R) → control n (hw.read32 glgen_stat s).1 ≡ control n s

  -- a write of one value to the registers of indices `first` to `first + n`
  all_written :
      (control : ℕ → R → ℕ) (value n i base_qp irq_idx index : ℕ) (s : R)
      → IsControlled control
      → 0 < irq_idx
      → irq_idx + n < 2 ^ 16
      → control index (
          each_irq
            (λ queue irq_idx s. hw.write32 (pfint_dyn_ctln (irq_idx - 1)) value s)
            n
            i
            base_qp
            irq_idx
            s)
        ≡ (if leb irq_idx (index + 1) && ltb (index + 1) (irq_idx + n)
            then value
            else control index s)
  unfolding each_irq
  all_written control value zero i base_qp irq_idx index s laws h₁ h₂ = ground arith
  all_written control value (suc n) i base_qp irq_idx index s laws h₁ h₂ =
      let next : (irq_idx + 1) % 2 ^ 16 ≡ irq_idx + 1 = omega arith in
      let rest =
        all_written control value n (suc i) base_qp (irq_idx + 1) index
          (hw.write32 (pfint_dyn_ctln (irq_idx - 1)) value s) laws (omega arith) (omega arith) in
      let here = laws.written (irq_idx - 1) value index s in
      rw next (rest ∙ (rw here (ground arith)))

  -- whether an index is that of an interrupt of the interface
  abbrev pub is_own : (base_qp num_qps index : ℕ) → Bool
  is_own base_qp num_qps index = leb (base_qp * 2) index && ltb index (base_qp * 2 + num_qps * 2)

  -- Starting the interrupts of an interface enables those of its queues, two for each, and stopping
  -- them disables the same, and no other interrupt is changed. The numbers of the interrupts are below
  -- 2 ^ 16, and the hardware keeps what is written to the control registers.
  pub i40e_vsi_start_irq-is_own :
      (control : ℕ → R → ℕ) (base_qp num_qps index : ℕ) (s : R)
      → IsControlled control
      → base_qp * 2 + 1 + num_qps * 2 < 2 ^ 16
      → (control index (i40e_vsi_start_irq hw base_qp num_qps s)
          ≡ (if is_own base_qp num_qps index then start_val else control index s))
        × (control index (i40e_vsi_stop_irq hw base_qp num_qps s)
            ≡ (if is_own base_qp num_qps index then 0 else control index s))
  unfolding i40e_vsi_start_irq i40e_vsi_stop_irq
  i40e_vsi_start_irq-is_own control base_qp num_qps index s laws h =
      let first : first_irq base_qp ≡ base_qp * 2 + 1 = omega arith in
      let started =
        all_written control start_val (num_qps * 2) 0 base_qp (base_qp * 2 + 1) index s laws
          (omega arith) (omega arith) in
      let stopped =
        all_written control 0 (num_qps * 2) 0 base_qp (base_qp * 2 + 1) index s laws (omega arith)
          (omega arith) in
      (
        laws.kept index _ ∙ rw first (started ∙ ground arith),
        laws.kept index _ ∙ rw first (stopped ∙ ground arith),
      )
