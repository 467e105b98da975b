-- ===== src/I40e/Device.antt =====
-- dev/i40e/i40e_main.c and i40e_ops.c: how a device is opened and closed, and how its interfaces are
-- brought up and down, from the parts that the other modules describe.
pub mod Implementation
pub mod Kept
pub mod Balance
mod Tests
use ufp.Common.{ℕ, Bool, true, false, if◌then◌else◌, Option, none, some, List, [], ◌∷◌}
use ufp.I40e.{Registers}
use ufp.I40e.Commands.{Commands, Run, pure, gets, modify, attempt, ◌>>=◌, ◌>>◌, on_failure}
use ufp.I40e.Pf.{PfIface, i40e_configure_pf, i40e_setup_pf_switch, i40e_clear_swconf}
use ufp.I40e.Reset.{
  and_then, i40e_set_pf_id, i40e_clear_hw, i40e_reset_hw, i40e_setup_misc_irq, i40e_start_misc_irq,
  i40e_stop_misc_irq, i40e_shutdown_misc_irq,
}
use ufp.I40e.VsiSetup.{i40e_vsi_update, i40e_vsi_get, i40e_vsi_rss_config, i40e_vsi_promisc_mode}
use ufp.I40e.Irq.{
  i40e_vsi_configure_irq, i40e_vsi_shutdown_irq, i40e_vsi_start_irq, i40e_vsi_stop_irq,
}
use ufp.I40e.Queues.{i40e_vsi_start_rx, i40e_vsi_start_tx, i40e_vsi_stop_rx, i40e_vsi_stop_tx}
use ufp.I40e.Hmc.{Hmc}
use ufp.I40e.Contexts.{IfaceConfig, i40e_vsi_configure_rx, i40e_vsi_configure_tx}

-- What opening and closing a device uses of its admin queues and of the memory of its contexts.
-- `none` of `aq_destroy`: it did not return.
pub record Parts (S : Type 0) : Type 0 where
  pub aq_init : S → Bool × S
  pub aq_destroy : S → Option S
  pub hmc_init : (pf_id : ℕ) → S → Option Hmc × S
  pub hmc_destroy : Hmc → S → S
  pub malloc : S → Option S
  pub pf_lan_mac : S → List ℕ

-- what an open device keeps in `struct i40e_dev` and in its interface
pub record Opened : Type 0 where
  pub pf_id : ℕ
  pub iface : PfIface
  pub hmc : Hmc

module _ {S : Type 0} where
  -- a function that gives a value with the state
  abbrev pub reading : {A : Type 0} → A × S → Option (Option A × S)
  reading (a, s) = some (some a, s)

  abbrev pub taken : {A : Type 0} → Option A × S → Option (Option A × S)
  taken (r, s) = some (r, s)

  -- an action behind an `err_` label that may not return
  abbrev pub failed : {A : Type 0} → Option S → Option (Option A × S)
  failed none = none
  failed (some s) = some (none, s)

  abbrev pub undone :
      {A : Type 0} → (undo : S → Option S) → Option (Option A × S) → Option (Option A × S)
  undone undo none = none
  undone undo (some (none, s)) = failed (undo s)
  undone undo (some (some a, s)) = some (some a, s)

module _ {S : Type 0} (commands : Commands S) (hw : Registers S) (parts : Parts S) where
  open parts use {aq_init, aq_destroy, hmc_init, hmc_destroy, malloc, pf_lan_mac}

  -- from `i40e_configure_pf` on, where a failure destroys the queues
  abbrev pub set_up : (fuel pf_id : ℕ) (garbage : List ℕ) → Run S Opened
  set_up fuel pf_id garbage = do
    i40e_configure_pf commands
    iface ← i40e_setup_pf_switch commands malloc pf_lan_mac fuel pf_id garbage
    hmc ← (λ s. taken (hmc_init pf_id s))
    pure (record { pf_id = pf_id; iface = iface; hmc = hmc })

  unfoldable pub i40e_open : (fuel : ℕ) (garbage : List ℕ) → Run S Opened
  i40e_open fuel garbage = do
    pf_id ← (λ s. reading (i40e_set_pf_id hw s))
    modify (i40e_clear_hw hw)
    attempt (i40e_reset_hw hw)
    attempt aq_init
    (λ s. undone aq_destroy (set_up fuel pf_id garbage s))

  unfoldable pub i40e_close : Hmc → S → Option S
  i40e_close hmc s = aq_destroy (i40e_clear_swconf commands (hmc_destroy hmc s))

-- the registers for the tail that the rings of an interface keep
pub record Tails (S : Type 0) : Type 0 where
  pub rx : S → ℕ → ℕ
  pub set_rx : (ℕ → ℕ) → S → S
  pub tx : S → ℕ → ℕ
  pub set_tx : (ℕ → ℕ) → S → S

module _ {S : Type 0} (commands : Commands S) (hw : Registers S) (bytes : S → ℕ → ℕ)
    (set_bytes : (ℕ → ℕ) → S → S) (tails : Tails S) where
  abbrev pub set_rx_tails : Bool × (ℕ → ℕ) × S → Bool × S
  set_rx_tails (ok, t, s) = (ok, tails.set_rx t s)

  abbrev pub set_tx_tails : Bool × (ℕ → ℕ) × S → Bool × S
  set_tx_tails (ok, t, s) = (ok, tails.set_tx t s)

  abbrev pub configure_rx : Hmc → IfaceConfig → S → Bool × S
  configure_rx hmc iface s =
      set_rx_tails (i40e_vsi_configure_rx hw bytes set_bytes hmc iface (tails.rx s) s)

  abbrev pub configure_tx : (pf_id handle : ℕ) → Hmc → IfaceConfig → S → Bool × S
  configure_tx pf_id handle hmc iface s =
      set_tx_tails (i40e_vsi_configure_tx hw bytes set_bytes pf_id handle hmc iface (tails.tx s) s)

  -- `handle` reads the first handle that `i40e_vsi_get` has got.
  unfoldable pub i40e_up :
      (pf_id : ℕ) → Hmc → (handle : S → ℕ) (garbage : List ℕ) → IfaceConfig → Run S (Unit {0})
  i40e_up pf_id hmc handle garbage iface =
      let vsi = iface.vsi in
      let n = iface.num_qps in
      do
        i40e_vsi_update commands hw vsi n garbage
        i40e_vsi_get commands hw vsi
        i40e_vsi_rss_config commands hw vsi n
        i40e_vsi_promisc_mode commands hw vsi iface.promisc
        attempt (configure_rx hmc iface)
        qs_handle ← gets handle
        attempt (configure_tx pf_id qs_handle hmc iface)
        modify (i40e_vsi_configure_irq hw vsi.base_qp n iface.irq_rate)
        on_failure
            (attempt (i40e_vsi_start_rx hw vsi.base_qp n)
              >> on_failure (attempt (i40e_vsi_start_tx hw vsi.base_qp n))
                  (λ s. (i40e_vsi_stop_rx hw vsi.base_qp n s).1))
            (i40e_vsi_shutdown_irq hw vsi.base_qp n)
        modify (i40e_vsi_start_irq hw vsi.base_qp n)

  unfoldable pub i40e_down : IfaceConfig → S → Bool × S
  i40e_down iface s =
      let base_qp = iface.vsi.base_qp in
      let n = iface.num_qps in
      and_then hw (i40e_vsi_stop_tx hw base_qp n (i40e_vsi_stop_irq hw base_qp n s)) (λ s₁.
        and_then hw (i40e_vsi_stop_rx hw base_qp n s₁)
          (λ s₂. (true, i40e_vsi_shutdown_irq hw base_qp n s₂)))

  -- the loop of `i40e_ops_up`
  unfoldable pub up_all :
      (pf_id : ℕ)
      → Hmc
      → (handle : IfaceConfig → S → ℕ) (garbage : List ℕ) → List IfaceConfig
      → Run S (Unit {0})
  unfolding i40e_up
  up_all pf_id hmc handle garbage [] = pure tt
  up_all pf_id hmc handle garbage (iface ∷ rest) =
      i40e_up pf_id hmc (handle iface) garbage iface >> up_all pf_id hmc handle garbage rest

  abbrev pub without_misc_irq : S → S
  without_misc_irq s = i40e_shutdown_misc_irq hw (i40e_stop_misc_irq hw s)

  unfoldable pub i40e_ops_up :
      (pf_id : ℕ)
      → Hmc
      → (handle : IfaceConfig → S → ℕ) (garbage : List ℕ) → List IfaceConfig
      → Run S (Unit {0})
  unfolding up_all
  i40e_ops_up pf_id hmc handle garbage ifaces = do
    modify (i40e_setup_misc_irq hw)
    modify (i40e_start_misc_irq hw)
    on_failure (up_all pf_id hmc handle garbage ifaces) without_misc_irq

  -- the loop of `i40e_ops_down`, which ends at the first interface that fails
  unfoldable pub down_all : List IfaceConfig → S → S
  unfolding i40e_down
  down_all [] s = s
  down_all (iface ∷ rest) s =
      let (ok, s') = i40e_down iface s in let next = down_all rest s' in if ok then next else s'

  unfoldable pub i40e_ops_down : List IfaceConfig → S → S
  unfolding down_all
  i40e_ops_down ifaces s = without_misc_irq (down_all ifaces s)
