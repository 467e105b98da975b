-- ===== src/I40e/Device/Balance.antt =====
-- dev/i40e/i40e_main.c: a device that is opened and closed again leaves memory mapped as it was.
use mathlib.Core.Option.{some-injective}
use mathlib.Core.Path.{subst}
use ufp.Common.{
  ℕ, suc, ◌+◌, ◌≤◌, ◌⊎◌, ◌-◌, Bool, true, false, ◌≡◌, refl, inl, inr, ap, ◌∙◌, arith, Option, none,
  some, Option-cases, List,
}
use ufp.I40e.{Registers}
use ufp.Dev.Dma.{System}
use ufp.I40e.Aq.{AqRing, Shared}
use ufp.I40e.Aq.Requests.{i40e_aqc_req_queue_shutdown}
use ufp.I40e.Aq.Sessions.{Nic, Blocks, i40e_aq_session_create}
use ufp.I40e.Aq.Setup.{aq_len, shutdown_both, with_shutdown, waited, i40e_aq_destroy}
use ufp.I40e.Aq.Returned.{IsSteady}
use ufp.I40e.Aq.Heads.{pf_atqh, InitFrom, i40e_aq_init-head}
use ufp.I40e.Aq.Areas.{IsCounted, QueuesFrom, i40e_aq_init-areas, shutdown_both-areas}
use ufp.I40e.Hmc.{SdEntry, Hmc, i40e_hmc_destroy}
use ufp.I40e.Hmc.Segments.{HmcFrom, of_hmc, i40e_hmc_init-areas, i40e_hmc_shutdown-areas}
use ufp.I40e.Commands.{Commands, Run, pure, bind, check}
use ufp.I40e.Commands.Sessions.{EndsWith, CreatedFrom, IsTracked}
use ufp.I40e.Pf.{PfIface, i40e_configure_pf, i40e_setup_pf_switch, i40e_clear_swconf}
use ufp.I40e.Pf.Balance.{IsReached, i40e_configure_pf-IsBalanced, i40e_setup_pf_switch-IsBalanced}
use ufp.I40e.Reset.{i40e_set_pf_id, i40e_clear_hw, i40e_reset_hw}
use ufp.I40e.Reset.Kept.{i40e_reset_hw-kept, i40e_set_pf_id-kept, i40e_clear_hw-kept}
use ufp.I40e.Device.{Parts, Opened, taken, failed, undone, set_up, i40e_open, i40e_close}
use ufp.I40e.Device.Implementation.{nic_hw, commands, parts, on_machine}
use ufp.I40e.Device.Kept.{Usage, usage, in_ring, IsQuiet, nic_commands-usage}

both_taken : (now a q w : ℕ) → now ≡ a + q → w ≡ q → now - w ≡ a
both_taken now a q w e e' = omega arith

sum_moved : (now before a b q : ℕ) → before ≡ a + q → now + a ≡ before + b → now ≡ b + q
sum_moved now before a b q e e' = omega arith

module _ {R : Type 0} (system : System R) (page_size : ℕ) (hw : Registers R) (mem : Shared R)
    (heap : Blocks R) (store64 : (addr value : ℕ) → R → R) (rounds garbage : ℕ) (blank : AqRing)
    (sd_garbage : ℕ → SdEntry) (area : ℕ × ℕ) (areas : R → ℕ)
    (laws : IsCounted system page_size hw mem area areas) (quiet : IsQuiet hw mem heap areas)
    (same_store64 : (addr value : ℕ) (s : R) → areas (store64 addr value s) ≡ areas s)
    (steady : IsSteady hw system.malloc pf_atqh aq_len) (enough : aq_len ≤ rounds) (asks : ℕ) where
  abbrev fuel : ℕ
  fuel = suc rounds

  abbrev the_usage : Nic R → Usage
  the_usage = usage system page_size hw mem area areas

  abbrev of_the_ring : AqRing → ℕ
  of_the_ring = in_ring system page_size hw mem area areas

  abbrev of_the_hmc : Hmc → ℕ
  of_the_hmc = of_hmc system page_size hw mem area areas laws store64 same_store64

  abbrev the_commands : Commands (Nic R)
  the_commands = commands system page_size hw mem heap store64 fuel garbage blank sd_garbage

  abbrev the_hw : Registers (Nic R)
  the_hw = nic_hw system page_size hw mem heap store64 fuel garbage blank sd_garbage

  abbrev the_parts : Parts (Nic R)
  the_parts = parts system page_size hw mem heap store64 fuel garbage blank sd_garbage

  -- The firmware gave the driver an offset to go on from `asks` times in a row.
  abbrev pub Endless : Type 0
  Endless = (offset : ℕ) × (nic : Nic R) × IsReached the_commands asks offset nic

  -- the length and the register of the send queue that is set up
  IsSetUp : Usage → Type 0
  IsSetUp u = (u.1 ≡ aq_len) × (u.3 ≡ pf_atqh)

  tracked :
      (never : Usage → Type 0)
      → ((u : Usage) → ¬ IsSetUp u → never u)
      → IsTracked the_usage never the_commands
  unfolding IsSetUp
  tracked never stuck =
      nic_commands-usage system page_size hw mem heap area areas laws quiet pf_atqh aq_len
        (omega arith) steady rounds garbage enough never stuck

  -- a wait comes to its end where the send queue is set up
  abbrev NeverWaits : Usage → Type 0
  NeverWaits u = ¬ IsSetUp u

  waits : IsTracked the_usage NeverWaits the_commands
  waits = tracked NeverWaits (λ u h. h)

  -- and the rest of the set-up does, too, or the firmware does not
  abbrev NeverOpens : Usage → Type 0
  NeverOpens u = Endless ⊎ (¬ IsSetUp u)

  opens : IsTracked the_usage NeverOpens the_commands
  opens = tracked NeverOpens (λ u h. inr h)

  -- the code returns, and the area is mapped `a` times
  abbrev pub ClosedTo : (a : ℕ) → Option (Nic R) → Type 0
  ClosedTo a none = ⊥
  ClosedTo a (some nic) = areas nic.machine ≡ a

  -- the area is mapped `a` times beside the `q` times that it is in the queues
  abbrev open_usage : (q a : ℕ) → Usage
  open_usage q a = (a + q, aq_len, aq_len, pf_atqh, q)

  open_usage-IsSetUp : (q a : ℕ) → IsSetUp (open_usage q a)
  unfolding IsSetUp
  open_usage-IsSetUp q a = (refl, refl)

  both_shut :
      (q a : ℕ) (nic : Nic R)
      → the_usage nic ≡ open_usage q a
      → areas (shutdown_both system page_size hw mem nic).machine ≡ a
  both_shut q a nic e =
      shutdown_both-areas system page_size hw mem area areas laws nic
      ∙ both_taken _ a q _ (ap (λ (u : Usage). u.0) e) (ap (λ (u : Usage). u.4) e)

  waited-ClosedTo :
      (q a p : ℕ) (created : Nic R) (r : Option (Bool × Nic R))
      → CreatedFrom the_usage NeverWaits the_commands (open_usage q a) (some p, created)
      → EndsWith the_usage NeverWaits (the_usage created) r
      → ClosedTo a (waited system page_size hw mem heap p r)
  waited-ClosedTo q a p created none (stuck, undo) e = stuck e (open_usage-IsSetUp q a)
  waited-ClosedTo q a p created (some (answered, nic)) (stuck, undo) e =
      both_shut q a (the_commands.session_delete p nic) (undo nic e)

  with_shutdown-ClosedTo :
      (q a : ℕ) (r : Option ℕ × Nic R)
      → CreatedFrom the_usage NeverWaits the_commands (open_usage q a) r
      → ClosedTo a (with_shutdown system page_size hw mem heap fuel r)
  with_shutdown-ClosedTo q a (none, nic) e = both_shut q a nic e
  with_shutdown-ClosedTo q a (some p, nic) undo = waited-ClosedTo q a p nic _ undo (
      subst
        (λ u.
          EndsWith the_usage NeverWaits u
            (the_commands.wait_cmd p (the_commands.submit i40e_aqc_req_queue_shutdown p nic)))
        (waits.tracks_submit i40e_aqc_req_queue_shutdown p nic) (waits.tracks_wait p _))

  aq_destroy-ClosedTo :
      (q a : ℕ) (nic : Nic R)
      → the_usage nic ≡ open_usage q a
      → ClosedTo a (i40e_aq_destroy system page_size hw mem heap fuel garbage nic)
  unfolding i40e_aq_destroy
  aq_destroy-ClosedTo q a nic e =
      with_shutdown-ClosedTo q a (i40e_aq_session_create heap garbage nic) (
        subst
          (λ u.
            CreatedFrom the_usage NeverWaits the_commands u
              (i40e_aq_session_create heap garbage nic))
          e (waits.tracks_create nic))

  -- what setting up behind the queues leaves, where the area was mapped `a` times before the queues
  abbrev SetUpFrom : (q a : ℕ) → Option (Option Opened × Nic R) → Type 0
  SetUpFrom q a none = Endless
  SetUpFrom q a (some (none, nic)) = the_usage nic ≡ open_usage q a
  SetUpFrom q a (some (some opened, nic)) = the_usage nic ≡ open_usage q (a + of_the_hmc opened.hmc)

  bind-SetUpFrom :
      {A : Type 0} (q a : ℕ) (r : Option (Option A × Nic R)) (f : A → Run (Nic R) Opened)
      → EndsWith the_usage NeverOpens (open_usage q a) r
      → ((x : A) (nic : Nic R) → the_usage nic ≡ open_usage q a → SetUpFrom q a (f x nic))
      → SetUpFrom q a (bind r f)
  bind-SetUpFrom q a none f (inl endless) later = endless
  bind-SetUpFrom q a none f (inr stuck) later = absurd (stuck (open_usage-IsSetUp q a))
  bind-SetUpFrom q a (some (none, nic)) f e later = e
  bind-SetUpFrom q a (some (some x, nic)) f e later = later x nic e

  moved :
      (nic : Nic R) (s : R) (q a b : ℕ)
      → the_usage nic ≡ open_usage q a
      → areas s + a ≡ areas nic.machine + b
      → the_usage (record nic { machine = s }) ≡ open_usage q b
  moved nic s q a b e more =
      let now : areas s ≡ b + q = sum_moved _ _ a b q (ap (λ (u : Usage). u.0) e) more in
      ap {B = Usage}
        (λ n. (
          n,
          nic.tx_ring.num_desc,
          nic.rx_ring.num_desc,
          nic.tx_ring.head,
          of_the_ring nic.tx_ring + of_the_ring nic.rx_ring,
        ))
        now
      ∙ ap {B = Usage} (λ (u : Usage). (b + q, u.1, u.2, u.3, u.4)) e

  hmc_init-SetUpFrom :
      (q a pf_id : ℕ) (iface : PfIface) (nic : Nic R) (r : Option Hmc × R)
      → the_usage nic ≡ open_usage q a
      → HmcFrom system page_size hw mem area areas laws store64 same_store64 (areas nic.machine) r
      → SetUpFrom q a (
          bind
            (taken
              (on_machine system page_size hw mem heap store64 fuel garbage blank sd_garbage nic r))
            (λ hmc. pure (record { pf_id = pf_id; iface = iface; hmc = hmc })))
  hmc_init-SetUpFrom q a pf_id iface nic (none, s) e h = moved nic s q a a e (omega arith)
  hmc_init-SetUpFrom q a pf_id iface nic (some hmc, s) e h = moved nic s q a _ e (omega arith)

  malloc-usage :
      (nic nic' : Nic R) → the_parts.malloc nic ≡ some nic' → the_usage nic' ≡ the_usage nic
  malloc-usage nic nic' e = elim (Option-cases (system.malloc nic.machine)) [
    | inl full ↦ absurd (cc (rw full at e))
    | inr (s, granted) ↦
        let same : ◌≡◌ {A = Option (Nic R)} (some (record nic { machine = s })) (some nic') =
          rw granted at e in
        subst (λ nic'. the_usage nic' ≡ the_usage nic) (some-injective _ _ same)
          (ap {B = Usage}
            (λ n. (
              n,
              nic.tx_ring.num_desc,
              nic.rx_ring.num_desc,
              nic.tx_ring.head,
              of_the_ring nic.tx_ring + of_the_ring nic.rx_ring,
            ))
            (laws.same_malloc nic.machine s granted))
  ]

  set_up-SetUpFrom :
      (q a pf_id : ℕ) (mac_garbage : List ℕ) (nic : Nic R)
      → the_usage nic ≡ open_usage q a
      → SetUpFrom q a (set_up the_commands the_hw the_parts asks pf_id mac_garbage nic)
  set_up-SetUpFrom q a pf_id mac_garbage nic e =
      bind-SetUpFrom q a (i40e_configure_pf the_commands nic) _
        (subst (λ u. EndsWith the_usage NeverOpens u (i40e_configure_pf the_commands nic)) e
          ((i40e_configure_pf-IsBalanced the_usage NeverOpens the_commands opens).balanced nic))
        (λ _ nic₁ e₁.
          let switch =
            i40e_setup_pf_switch the_commands the_parts.malloc the_parts.pf_lan_mac asks pf_id
              mac_garbage in
          bind-SetUpFrom q a (switch nic₁) _
            (subst (λ u. EndsWith the_usage NeverOpens u (switch nic₁)) e₁
              ((i40e_setup_pf_switch-IsBalanced the_usage NeverOpens the_commands opens asks
                  (λ offset s reached l. inl (offset, s, reached)) the_parts.malloc
                  the_parts.pf_lan_mac malloc-usage pf_id mac_garbage).balanced
                nic₁))
            (λ iface nic₂ e₂. hmc_init-SetUpFrom q a pf_id iface nic₂ _ e₂ (
              i40e_hmc_init-areas system page_size hw mem area areas laws store64 same_store64 pf_id
                sd_garbage nic₂.machine)))

  closed :
      (q a : ℕ) (hmc : Hmc) (nic : Nic R)
      → the_usage nic ≡ open_usage q (a + of_the_hmc hmc)
      → ClosedTo a (i40e_close the_commands the_hw the_parts hmc nic)
  unfolding i40e_close i40e_hmc_destroy i40e_clear_swconf
  closed q a hmc nic e =
      let s = i40e_hmc_destroy hw system page_size store64 hmc nic.machine in
      let nic' = record nic { machine = s } in
      let unmapped : areas s ≡ areas nic.machine - of_the_hmc hmc =
        laws.same_free _
        ∙ i40e_hmc_shutdown-areas system page_size hw mem area areas laws store64 same_store64 hmc
            nic.machine in
      let all = ap (λ (u : Usage). u.0) e in
      aq_destroy-ClosedTo q a (the_commands.clear_elems nic')
        (waits.tracks_clear nic' ∙ moved nic s q (a + of_the_hmc hmc) a e (omega arith))

  -- What opening a device leaves, where the area was mapped `a` times before: when it fails, as
  -- often; when not, as often once the device is closed again, which returns. Where it does not return, the
  -- firmware did not end its list.
  abbrev pub OpenedFrom : (a : ℕ) → Option (Option Opened × Nic R) → Type 0
  OpenedFrom a none = Endless
  OpenedFrom a (some (none, nic)) = areas nic.machine ≡ a
  OpenedFrom a (some (some opened, nic)) =
      ClosedTo a (i40e_close the_commands the_hw the_parts opened.hmc nic)

  failed-OpenedFrom : (a : ℕ) (r : Option (Nic R)) → ClosedTo a r → OpenedFrom a (failed r)
  failed-OpenedFrom a none e = absurd e
  failed-OpenedFrom a (some nic) e = e

  undone-OpenedFrom :
      (q a : ℕ) (r : Option (Option Opened × Nic R))
      → SetUpFrom q a r
      → OpenedFrom a (undone the_parts.aq_destroy r)
  undone-OpenedFrom q a none e = e
  undone-OpenedFrom q a (some (none, nic)) e =
      failed-OpenedFrom a (the_parts.aq_destroy nic) (aq_destroy-ClosedTo q a nic e)
  undone-OpenedFrom q a (some (some opened, nic)) e = closed q a opened.hmc nic e

  queues-OpenedFrom :
      (a : ℕ) (r : Bool × Nic R) (next : Run (Nic R) Opened)
      → QueuesFrom system page_size hw mem area areas a r
      → InitFrom system page_size hw mem pf_atqh r
      → ((q : ℕ) (nic : Nic R) → the_usage nic ≡ open_usage q a → OpenedFrom a (next nic))
      → OpenedFrom a (bind (check r.0 r.1) (λ _. next))
  queues-OpenedFrom a (false, nic) next e h later = e
  queues-OpenedFrom a (true, nic) next (mapped, _, _, tx, rx, _) h later =
      later (of_the_ring nic.tx_ring + of_the_ring nic.rx_ring) nic (cc (mapped, tx, rx, h))

  reset-OpenedFrom :
      (a : ℕ) (r : Bool × Nic R) (next : Run (Nic R) Opened)
      → areas r.1.machine ≡ a
      → ((nic : Nic R) → areas nic.machine ≡ a → OpenedFrom a (next nic))
      → OpenedFrom a (bind (check r.0 r.1) (λ _. next))
  reset-OpenedFrom a (false, nic) next e later = e
  reset-OpenedFrom a (true, nic) next e later = later nic e

  -- Opening a device and closing it again, for each area of memory by its address and size, where
  -- `mmap` and `munmap` alone change how often it is mapped, and the device shows a head of the send
  -- queue that lies in the queue and stays while the queue is cleaned: whichever step of opening
  -- fails, the area is mapped as often as before. When none does, closing the device returns, and it
  -- is, too. Opening returns, or there is a run of `asks` requests for the elements of the switch
  -- with an offset to go on from in every answer.
  pub i40e_open-i40e_close :
      (mac_garbage : List ℕ) (nic : Nic R)
      → OpenedFrom
          (areas nic.machine)
          (i40e_open the_commands the_hw the_parts asks mac_garbage nic)
  unfolding i40e_open
  i40e_open-i40e_close mac_garbage nic =
      let measure = λ (nic : Nic R). areas nic.machine in
      let same_write = λ (reg value : ℕ) (nic : Nic R). laws.same_write reg value nic.machine in
      let same_read = λ (reg : ℕ) (nic : Nic R). laws.same_read reg nic.machine in
      let same_usleep = λ (n : ℕ) (nic : Nic R). quiet.same_usleep n nic.machine in
      let (pf_id, nic₁) = i40e_set_pf_id the_hw nic in
      let nic₂ = i40e_clear_hw the_hw nic₁ in
      let a = areas nic.machine in
      reset-OpenedFrom a (i40e_reset_hw the_hw nic₂) _
        (i40e_reset_hw-kept measure the_hw same_write same_read same_usleep nic₂
          ∙ i40e_clear_hw-kept measure the_hw same_write same_read same_usleep nic₁
          ∙ i40e_set_pf_id-kept measure the_hw same_write same_read same_usleep nic)
        (λ nic₃ e₃.
          queues-OpenedFrom a (the_parts.aq_init nic₃) _
            (subst (λ b. QueuesFrom system page_size hw mem area areas b (the_parts.aq_init nic₃))
              e₃ (i40e_aq_init-areas system page_size hw mem area areas laws blank nic₃))
            (i40e_aq_init-head system page_size hw mem blank nic₃)
            (λ q nic₄ e₄. undone-OpenedFrom q a _ (set_up-SetUpFrom q a pf_id mac_garbage nic₄ e₄)))
