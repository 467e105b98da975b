-- ===== src/I40e/Reset.antt =====
-- dev/i40e/i40e_main.c: the reset of the device and the interrupt that is not a queue's.
pub mod Kept
use Prim.Native.Nat.{bit_or}
use ufp.Common.{
  ℕ, zero, suc, ◌+◌, ◌-◌, ◌*◌, ◌/◌, ◌%◌, ◌^◌, ◌==◌, ltb, Bool, true, false, not, ◌&&◌,
  if◌then◌else◌, List,
}
use ufp.I40e.{Registers, test_bit, field}
use ufp.I40e.Irq.{
  mask_off, i40e_flush, start_val, pfint_dyn_ctln, pfint_lnklstn, qint_rqctl, qint_tqctl,
}
use ufp.I40e.Queues.{qrx_ena, qtx_ena, gllan_txpre_qdis, pflan_qalloc}
use ufp.I40e.Pf.{word, hlut_words, pfqf_hlut}

abbrev pub glgen_rstctl : ℕ
glgen_rstctl = 0x000B8180

abbrev pub glgen_rstat : ℕ
glgen_rstat = 0x000B8188

abbrev pub glnvm_uld : ℕ
glnvm_uld = 0x000B6008

abbrev pub pfgen_ctrl : ℕ
pfgen_ctrl = 0x00092400

abbrev pub glpci_cnf2 : ℕ
glpci_cnf2 = 0x000BE494

abbrev pub pf_vt_pfalloc : ℕ
pf_vt_pfalloc = 0x001C0500

abbrev pub pfint_icr0_ena : ℕ
pfint_icr0_ena = 0x00038800

abbrev pub pfint_icr0 : ℕ
pfint_icr0 = 0x00038780

abbrev pub pfint_lnklst0 : ℕ
pfint_lnklst0 = 0x00038500

abbrev pub pfint_stat_ctl0 : ℕ
pfint_stat_ctl0 = 0x00038400

abbrev pub pfint_itr0 : ℕ → ℕ
pfint_itr0 i = 0x00038000 + i * 128

abbrev pub pfint_dyn_ctl0 : ℕ
pfint_dyn_ctl0 = 0x00038480

abbrev pub vpint_lnklst0 : ℕ → ℕ
vpint_lnklst0 i = 0x0002A800 + i * 4

abbrev pub vpint_lnklstn : ℕ → ℕ
vpint_lnklstn i = 0x00025000 + i * 4

abbrev pub glpci_capsup : ℕ
glpci_capsup = 0x000BE4A8

abbrev pub pf_func_rid : ℕ
pf_func_rid = 0x0009C000

abbrev pub pf_reset_wait_count : ℕ
pf_reset_wait_count = 200

-- the causes of the interrupt: 16, 19 to 22, 26, 29 and 30
abbrev pub icr0_causes : ℕ
icr0_causes = 2 ^ 16 + 2 ^ 19 + 2 ^ 20 + 2 ^ 21 + 2 ^ 22 + 2 ^ 26 + 2 ^ 29 + 2 ^ 30

-- the rounds of `do … while(--timeout)`, where a `timeout` of 0 wraps
abbrev pub timeout_rounds : (timeout : ℕ) → ℕ
timeout_rounds timeout = if timeout == 0 then 2 ^ 32 else timeout

-- the number between two fields, as `uint32_t`
abbrev pub between : (first last : ℕ) → ℕ
between first last = (last + 2 ^ 32 - first + 1) % 2 ^ 32

-- `num - 2`, as `uint32_t`: the bound of a loop
abbrev pub less_2 : ℕ → ℕ
less_2 num = (num + 2 ^ 32 - 2) % 2 ^ 32

module _ {R : Type 0} (hw : Registers R) where
  open hw use {read32, write32, usleep}

  -- The rounds that are left: a sleep and a look at the register.
  unfoldable pub await : (n usec reg : ℕ) (wanted : ℕ → Bool) → R → Bool × R
  await zero usec reg wanted s = (false, s)
  await (suc n) usec reg wanted s =
      let (val, s') = read32 reg (usleep usec s) in
      let again = await n usec reg wanted s' in if wanted val then (true, s') else again

  abbrev pub and_then : Bool × R → (R → Bool × R) → Bool × R
  and_then (true, s) f = f s
  and_then (false, s) f = (false, s)

  abbrev pub steady : ℕ → Bool
  steady reg = field reg 0 2 == 0

  abbrev pub firmware_ready : ℕ → Bool
  firmware_ready reg = test_bit reg 3 && test_bit reg 4

  abbrev pub reset_over : ℕ → Bool
  reset_over reg = not (test_bit reg 0)

  abbrev pub request_reset : R → R
  request_reset s = let (reg, s') = read32 pfgen_ctrl s in write32 pfgen_ctrl (bit_or reg 1) s'

  unfoldable pub i40e_reset_hw : R → Bool × R
  unfolding await
  i40e_reset_hw s =
      let (rstctl, s₁) = read32 glgen_rstctl s in
      and_then (await (timeout_rounds (field rstctl 0 6 * 20)) 100000 glgen_rstat steady s₁) (λ s₂.
        and_then (await pf_reset_wait_count 10000 glnvm_uld firmware_ready s₂)
          (λ s₃. await pf_reset_wait_count 1000 pfgen_ctrl reset_over (request_reset s₃)))

  -- `for(i = 0; i < n; i++)`, with the rounds that are left
  unfoldable pub for_each : (n i : ℕ) (one : ℕ → R → R) → R → R
  for_each zero i one s = s
  for_each (suc n) i one s = for_each n (suc i) one (one i s)

  abbrev pub warn_queue : (base_queue i : ℕ) → R → R
  warn_queue base_queue i s =
      let queue = (base_queue + i) % 2 ^ 32 in
      let block = if ltb queue 128 then 0 else queue / 128 in
      let (val, s') = read32 (gllan_txpre_qdis block) s in
      write32 (gllan_txpre_qdis block) (bit_or (bit_or (mask_off val 0x7FF) (queue % 128)) (2 ^ 30))
        s'

  abbrev pub stop_queue : ℕ → R → R
  stop_queue i s =
      write32 (qrx_ena i) 0
        (write32 (qint_rqctl i) 0 (write32 (qtx_ena i) 0 (write32 (qint_tqctl i) 0 s)))

  unfoldable pub i40e_clear_hw : R → R
  unfolding for_each
  i40e_clear_hw s =
      let (cnf2, s₁) = read32 glpci_cnf2 s in
      let num_pf_int = field cnf2 2 11 in
      let num_vf_int = field cnf2 13 11 in
      let (qalloc, s₂) = read32 pflan_qalloc s₁ in
      let base_queue = field qalloc 0 11 in
      let num_queues = if test_bit qalloc 31 then between base_queue (field qalloc 16 11) else 0 in
      let (vfalloc, s₃) = read32 pf_vt_pfalloc s₂ in
      let num_vfs =
        if test_bit vfalloc 31 then between (field vfalloc 0 8) (field vfalloc 8 8) else 0 in
      let s₄ = write32 pfint_icr0_ena 0 s₃ in
      let s₅ = for_each (less_2 num_pf_int) 0 (λ i. write32 (pfint_dyn_ctln i) (3 * 2 ^ 3)) s₄ in
      let s₆ = write32 pfint_lnklst0 0x7FF s₅ in
      let s₇ = for_each (less_2 num_pf_int) 0 (λ i. write32 (pfint_lnklstn i) 0x7FF) s₆ in
      let s₈ = for_each num_vfs 0 (λ i. write32 (vpint_lnklst0 i) 0x7FF) s₇ in
      let s₉ = for_each (less_2 num_vf_int) 0 (λ i. write32 (vpint_lnklstn i) 0x7FF) s₈ in
      let warned = usleep 400 (for_each num_queues 0 (warn_queue base_queue) s₉) in
      usleep 50 (for_each num_queues 0 stop_queue warned)

  unfoldable pub i40e_setup_misc_irq : R → R
  i40e_setup_misc_irq s =
      let cleared = (read32 pfint_icr0 (write32 pfint_icr0_ena 0 s)).1 in
      let enabled = write32 pfint_stat_ctl0 0 (write32 pfint_icr0_ena icr0_causes cleared) in
      i40e_flush hw (write32 (pfint_itr0 0) 0x003E (write32 pfint_lnklst0 0x7FF enabled))

  unfoldable pub i40e_shutdown_misc_irq : R → R
  i40e_shutdown_misc_irq s = i40e_flush hw (write32 pfint_icr0_ena 0 s)

  unfoldable pub i40e_start_misc_irq : R → R
  i40e_start_misc_irq s = i40e_flush hw (write32 pfint_dyn_ctl0 start_val s)

  unfoldable pub i40e_stop_misc_irq : R → R
  i40e_stop_misc_irq s = i40e_flush hw (write32 pfint_dyn_ctl0 (3 * 2 ^ 3) s)

  -- the number of the function, in 8 bits, or 3 where routing IDs are not alternative ones
  unfoldable pub i40e_set_pf_id : R → ℕ × R
  i40e_set_pf_id s =
      let (pci_cap, s₁) = read32 glpci_capsup s in
      let (func_rid, s₂) = read32 pf_func_rid s₁ in
      (if test_bit pci_cap 4 then func_rid % 2 ^ 8 else func_rid % 2 ^ 3, s₂)

  unfoldable pub i40e_set_rsslut_reg : (lut : List ℕ) (lut_size : ℕ) → R → Bool × R
  unfolding for_each
  i40e_set_rsslut_reg lut lut_size s =
      if lut_size == hlut_words * 4
      then (true, for_each hlut_words 0 (λ i. write32 (pfqf_hlut i) (word lut i)) s)
      else (false, s)
