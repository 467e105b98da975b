-- ===== src/I40e/Reset/Kept.antt =====
-- dev/i40e/i40e_main.c: what the functions that only use registers leave alone.
use ufp.Common.{
  ℕ, zero, suc, ◌*◌, ◌^◌, if◌then◌else◌, Bool, true, false, Bool-cases, inl, inr, ◌==◌, ◌≡◌, refl,
  ◌∙◌, List,
}
use ufp.I40e.{Registers, field, test_bit}
use ufp.I40e.Irq.{pfint_dyn_ctln, pfint_lnklstn}
use ufp.I40e.Queues.{pflan_qalloc}
use ufp.I40e.Pf.{word, hlut_words, pfqf_hlut}
use ufp.I40e.Reset.{
  glpci_cnf2, less_2, between, pf_vt_pfalloc, stop_queue, warn_queue, vpint_lnklst0, vpint_lnklstn,
  for_each, await, and_then, timeout_rounds, steady, firmware_ready, reset_over, request_reset,
  glgen_rstctl, glgen_rstat, glnvm_uld, pfgen_ctrl, i40e_reset_hw, i40e_clear_hw, i40e_set_pf_id,
  i40e_set_rsslut_reg,
}

-- `measure` is anything that can be said of the state.
module _ {S C : Type 0} (measure : S → C) (hw : Registers S) where
  pub for_each-kept :
      (n i : ℕ) (one : ℕ → S → S) (s : S)
      → ((i : ℕ) (s : S) → measure (one i s) ≡ measure s)
      → measure (for_each hw n i one s) ≡ measure s
  unfolding for_each
  for_each-kept zero i one s kept = refl
  for_each-kept (suc n) i one s kept = for_each-kept n (suc i) one (one i s) kept ∙ kept i s

  module _
      (same_write : (reg value : ℕ) (s : S) → measure (hw.write32 reg value s) ≡ measure s) where
    pub set_rsslut_reg-kept :
        (lut : List ℕ) (size : ℕ) (s : S)
        → measure (i40e_set_rsslut_reg hw lut size s).1 ≡ measure s
    unfolding i40e_set_rsslut_reg
    set_rsslut_reg-kept lut size s = elim (Bool-cases (size == hlut_words * 4)) [
      | inl e ↦ rw e (
          for_each-kept hlut_words 0 (λ i. hw.write32 (pfqf_hlut i) (word lut i)) s
            (λ i s. same_write _ _ s))
      | inr e ↦ rw e refl
    ]

    module _ (same_read : (reg : ℕ) (s : S) → measure (hw.read32 reg s).1 ≡ measure s)
        (same_usleep : (usec : ℕ) (s : S) → measure (hw.usleep usec s) ≡ measure s) where
      await-kept :
          (n usec reg : ℕ) (wanted : ℕ → Bool) (s : S)
          → measure (await hw n usec reg wanted s).1 ≡ measure s
      unfolding await
      await-kept zero usec reg wanted s = refl
      await-kept (suc n) usec reg wanted s =
          let slept = hw.usleep usec s in
          let seen : measure (hw.read32 reg slept).1 ≡ measure s =
            same_read reg slept ∙ same_usleep usec s in
          elim (Bool-cases (wanted (hw.read32 reg slept).0)) [
            | inl e ↦ rw e seen
            | inr e ↦ rw e (await-kept n usec reg wanted (hw.read32 reg slept).1 ∙ seen)
          ]

      and_then-kept :
          (r : Bool × S) (f : S → Bool × S)
          → ((s : S) → measure (f s).1 ≡ measure s)
          → measure (and_then hw r f).1 ≡ measure r.1
      and_then-kept (true, s) f kept = kept s
      and_then-kept (false, s) f kept = refl

      pub i40e_reset_hw-kept : (s : S) → measure (i40e_reset_hw hw s).1 ≡ measure s
      unfolding i40e_reset_hw
      i40e_reset_hw-kept s =
          let (rstctl, s₁) = hw.read32 glgen_rstctl s in
          let timeout = timeout_rounds (field rstctl 0 6 * 20) in
          let last =
            λ (s₃ : S). await hw 200 1000 pfgen_ctrl (reset_over hw) (request_reset hw s₃) in
          let ready = λ (s₂ : S). await hw 200 10000 glnvm_uld (firmware_ready hw) s₂ in
          let last_kept : (s₃ : S) → measure (last s₃).1 ≡ measure s₃ = λ s₃.
            await-kept 200 1000 pfgen_ctrl (reset_over hw) (request_reset hw s₃)
            ∙ same_write _ _ _
            ∙ same_read _ s₃ in
          let ready_kept : (s₂ : S) → measure (and_then hw (ready s₂) last).1 ≡ measure s₂ = λ s₂.
            and_then-kept (ready s₂) last last_kept
            ∙ await-kept 200 10000 glnvm_uld (firmware_ready hw) s₂ in
          and_then-kept (await hw timeout 100000 glgen_rstat (steady hw) s₁)
            (λ s₂. and_then hw (ready s₂) last) ready_kept
          ∙ await-kept timeout 100000 glgen_rstat (steady hw) s₁
          ∙ same_read glgen_rstctl s

      pub i40e_set_pf_id-kept : (s : S) → measure (i40e_set_pf_id hw s).1 ≡ measure s
      unfolding i40e_set_pf_id
      i40e_set_pf_id-kept s = same_read _ _ ∙ same_read _ s

      pub i40e_clear_hw-kept : (s : S) → measure (i40e_clear_hw hw s) ≡ measure s
      unfolding i40e_clear_hw
      i40e_clear_hw-kept s =
          let (cnf2, s₁) = hw.read32 glpci_cnf2 s in
          let ints = less_2 (field cnf2 2 11) in
          let vf_ints = less_2 (field cnf2 13 11) in
          let (qalloc, s₂) = hw.read32 pflan_qalloc s₁ in
          let base = field qalloc 0 11 in
          let queues = if test_bit qalloc 31 then between base (field qalloc 16 11) else 0 in
          let (vfalloc, s₃) = hw.read32 pf_vt_pfalloc s₂ in
          let vfs =
            if test_bit vfalloc 31 then between (field vfalloc 0 8) (field vfalloc 8 8) else 0 in
          same_usleep 50 _
          ∙ for_each-kept queues 0 (stop_queue hw) _
              (λ i s. same_write _ _ _ ∙ same_write _ _ _ ∙ same_write _ _ _ ∙ same_write _ _ s)
          ∙ same_usleep 400 _
          ∙ for_each-kept queues 0 (warn_queue hw base) _ (λ i s. same_write _ _ _ ∙ same_read _ s)
          ∙ for_each-kept vf_ints 0 (λ i. hw.write32 (vpint_lnklstn i) 0x7FF) _
              (λ i s. same_write _ _ s)
          ∙ for_each-kept vfs 0 (λ i. hw.write32 (vpint_lnklst0 i) 0x7FF) _
              (λ i s. same_write _ _ s)
          ∙ for_each-kept ints 0 (λ i. hw.write32 (pfint_lnklstn i) 0x7FF) _
              (λ i s. same_write _ _ s)
          ∙ same_write _ _ _
          ∙ for_each-kept ints 0 (λ i. hw.write32 (pfint_dyn_ctln i) (3 * 2 ^ 3)) _
              (λ i s. same_write _ _ s)
          ∙ same_write _ _ _
          ∙ same_read _ _
          ∙ same_read _ _
          ∙ same_read _ s
