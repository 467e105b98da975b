-- ===== src/I40e/Device/Kept.antt =====
-- dev/i40e: sending a command leaves the areas of memory that are mapped, and the lengths of the two
-- admin queues.
use mathlib.Core.Path.{subst}
use ufp.Common.{
  ◌≤◌, ◌<◌, ◌^◌, ℕ, zero, suc, ◌+◌, true, Bool-cases, ◌==◌, not, ◌≡◌, inl, inr, refl, ap, ◌∙◌,
  Option, none, some, Option-cases, List, [], ◌∷◌,
}
use ufp.I40e.{Registers}
use ufp.Dev.Dma.{System}
use ufp.I40e.Aq.{Params, Shared, AqRing, i40e_aq_asq_assign, i40e_aq_desc_unused, is_copied}
use ufp.I40e.Aq.Requests.{Request}
use ufp.I40e.Aq.Sessions.{
  Nic, Blocks, Elem, i40e_aq_session_create, i40e_aq_session_delete, submit, no_answer,
}
use ufp.I40e.Aq.Clean.{i40e_aqc_wait_cmd, wait, i40e_aq_asq_clean, clean_one, cmd_timeout}
use ufp.I40e.Aq.Effects.{IsStill, retval_in}
use ufp.I40e.Aq.Answers.{asq_process-IsProcessed}
use ufp.I40e.Aq.Cleaned.{session_of-has}
use ufp.I40e.Aq.Areas.{IsCounted, of_ring}
use ufp.I40e.Aq.Returned.{IsSteady, clean-returned}
use ufp.I40e.Commands.{Commands}
use ufp.I40e.Commands.Sessions.{EndsWith, IsTracked, CreatedFrom}
use ufp.I40e.Commands.Implementation.{free_elems, nic_commands}

-- How often an area is mapped, the lengths of the send queue and of the receive queue, the send
-- queue's register for the head, and how often the area is in the two queues.
abbrev pub Usage : Type 0
Usage = ℕ × ℕ × ℕ × ℕ × ℕ

module _ {R : Type 0} (hw : Registers R) (mem : Shared R) (heap : Blocks R) (areas : R → ℕ) where
  -- Waiting, copying and the sessions' memory map and unmap nothing.
  pub record IsQuiet : Type 0 where
    pub same_usleep : (n : ℕ) (s : R) → areas (hw.usleep n s) ≡ areas s
    pub same_memcpy :
        (addr : ℕ) (bytes : List ℕ) (size : ℕ) (s : R)
        → areas (mem.memcpy addr bytes size s) ≡ areas s
    pub same_create : (p : ℕ) (s s' : R) → heap.malloc s ≡ some (p, s') → areas s' ≡ areas s
    pub same_delete : (p : ℕ) (s : R) → areas (heap.free p s) ≡ areas s

module _ {R : Type 0} (system : System R) (page_size : ℕ) (hw : Registers R) (mem : Shared R)
    (area : ℕ × ℕ) (areas : R → ℕ) where
  abbrev pub in_ring : AqRing → ℕ
  in_ring ring = of_ring system page_size hw mem area areas ring

  abbrev pub usage : Nic R → Usage
  usage nic = (
    areas nic.machine,
    nic.tx_ring.num_desc,
    nic.rx_ring.num_desc,
    nic.tx_ring.head,
    in_ring nic.tx_ring + in_ring nic.rx_ring,
  )

module _ {R : Type 0} (system : System R) (page_size : ℕ) (hw : Registers R) (mem : Shared R)
    (heap : Blocks R) (area : ℕ × ℕ) (areas : R → ℕ)
    (laws : IsCounted system page_size hw mem area areas) (quiet : IsQuiet hw mem heap areas)
    (reg size : ℕ) (fits : size < 2 ^ 16) (steady : IsSteady hw system.malloc reg size)
    (rounds garbage : ℕ) (enough : size ≤ rounds) (never : Usage → Type 0)
    (stuck : (u : Usage) → ¬ ((u.1 ≡ size) × (u.3 ≡ reg)) → never u) where
  abbrev of_the_ring : AqRing → ℕ
  of_the_ring = in_ring system page_size hw mem area areas

  abbrev the_usage : Nic R → Usage
  the_usage = usage system page_size hw mem area areas

  -- one round more than the ring has slots
  abbrev fuel : ℕ
  fuel = suc rounds

  same_usage :
      (nic nic' : Nic R)
      → areas nic'.machine ≡ areas nic.machine
      → nic'.tx_ring.num_desc ≡ nic.tx_ring.num_desc
      → nic'.rx_ring.num_desc ≡ nic.rx_ring.num_desc
      → nic'.tx_ring.head ≡ nic.tx_ring.head
      → of_the_ring nic'.tx_ring ≡ of_the_ring nic.tx_ring
      → of_the_ring nic'.rx_ring ≡ of_the_ring nic.rx_ring
      → the_usage nic' ≡ the_usage nic
  same_usage nic nic' e e' e'' e₃ e₄ e₅ = cc

  areas-IsStill : (a : ℕ) → IsStill hw system.malloc (λ s. areas s ≡ a)
  areas-IsStill a = record {
    keeps_write = λ s e. laws.same_write _ _ s ∙ e;
    keeps_malloc = λ s s' granted e. laws.same_malloc s s' granted ∙ e;
  }

  asq_assign-usage :
      (opcode flags : ℕ) (cmd : Params) (bytes : Option (List ℕ)) (data_size cookie : ℕ)
      (ring : AqRing) (s : R)
      → (areas (i40e_aq_asq_assign hw mem opcode flags cmd bytes data_size cookie ring s).1
          ≡ areas s)
        × ((i40e_aq_asq_assign hw mem opcode flags cmd bytes data_size cookie ring s).0.num_desc
            ≡ ring.num_desc)
        × ((i40e_aq_asq_assign hw mem opcode flags cmd bytes data_size cookie ring s).0.head
            ≡ ring.head)
        × (of_the_ring (i40e_aq_asq_assign hw mem opcode flags cmd bytes data_size cookie ring s).0
            ≡ of_the_ring ring)
  unfolding i40e_aq_asq_assign
  asq_assign-usage opcode flags cmd none data_size cookie ring s =
      elim (Bool-cases (i40e_aq_desc_unused ring ring.num_desc == 0)) [
        | inl full ↦ rw full (refl, refl, refl, refl)
        | inr room ↦ rw room (laws.same_write _ _ _ ∙ laws.same_store _ _ _ s, refl, refl, refl)
      ]
  asq_assign-usage opcode flags cmd (some bytes) data_size cookie ring s =
      elim (Bool-cases (i40e_aq_desc_unused ring ring.num_desc == 0)) [
        | inl full ↦ rw full (refl, refl, refl, refl)
        | inr room ↦ elim (Bool-cases (is_copied flags true data_size)) [
          | inl copied ↦
              rw (room, copied)
                (
                  laws.same_write _ _ _ ∙ laws.same_store _ _ _ _ ∙ quiet.same_memcpy _ _ _ s,
                  refl,
                  refl,
                  refl,
                )
          | inr not_copied ↦
              rw (room, not_copied)
                (laws.same_write _ _ _ ∙ laws.same_store _ _ _ s, refl, refl, refl)
        ]
      ]

  submit-usage :
      (request : Request) (p : ℕ) (nic : Nic R)
      → the_usage (submit hw mem request p nic) ≡ the_usage nic
  unfolding submit
  submit-usage request p nic =
      let (e, e', e'', e₃) =
        asq_assign-usage request.opcode request.flags request.cmd request.bytes request.data_size p
          nic.tx_ring nic.machine in
      same_usage nic (submit hw mem request p nic) e e' refl e'' e₃ refl

  clean_one-usage : (nic : Nic R) → the_usage (clean_one hw mem system.malloc nic) ≡ the_usage nic
  unfolding clean_one
  clean_one-usage nic =
      let r =
        asq_process-IsProcessed hw mem system.malloc (λ s. areas s ≡ areas nic.machine)
          (areas-IsStill (areas nic.machine)) _ _ _ nic (λ p. session_of-has _ p nic.session) in
      same_usage nic (clean_one hw mem system.malloc nic) (r.keeps_still refl)
        (ap (λ (r : AqRing). r.num_desc) r.same_ring)
        (ap (λ (r : AqRing). r.num_desc) r.same_rx_ring) (ap (λ (r : AqRing). r.head) r.same_ring)
        (ap of_the_ring r.same_ring) (ap of_the_ring r.same_rx_ring)

  abbrev UsageFrom : Usage → Option (Nic R) → Type 0
  UsageFrom u none = Unit {0}
  UsageFrom u (some nic) = the_usage nic ≡ u

  clean-UsageFrom :
      (n : ℕ) (nic : Nic R)
      → UsageFrom (the_usage nic) (i40e_aq_asq_clean hw mem system.malloc n nic)
  unfolding i40e_aq_asq_clean
  clean-UsageFrom zero nic = tt
  clean-UsageFrom (suc n) nic =
      let nic' = record nic { machine = (hw.read32 nic.tx_ring.head nic.machine).1 } in
      let seen : the_usage nic' ≡ the_usage nic =
        same_usage nic nic' (laws.same_read _ nic.machine) refl refl refl refl refl in
      elim (Bool-cases (nic.tx_ring.next_to_clean == (hw.read32 nic.tx_ring.head nic.machine).0)) [
        | inl done ↦ rw done seen
        | inr more ↦ rw more (
            subst
              (λ u.
                UsageFrom u
                  (i40e_aq_asq_clean hw mem system.malloc n (clean_one hw mem system.malloc nic')))
              (clean_one-usage nic' ∙ seen)
              (clean-UsageFrom n (clean_one hw mem system.malloc nic')))
      ]

  wait-usage :
      (timeout p : ℕ) (nic : Nic R)
      → EndsWith the_usage never (the_usage nic) (wait hw mem system.malloc fuel timeout p nic)
  unfolding wait
  wait-usage zero p nic = refl
  wait-usage (suc timeout) p nic =
      let slept = record nic { machine = hw.usleep 1000 nic.machine } in
      let kept =
        subst (λ u. UsageFrom u (i40e_aq_asq_clean hw mem system.malloc fuel slept))
          (same_usage nic slept (quiet.same_usleep 1000 nic.machine) refl refl refl refl refl)
          (clean-UsageFrom fuel slept) in
      elim (Option-cases (i40e_aq_asq_clean hw mem system.malloc fuel slept)) [
        | inl out ↦
            rw (out, wait)
              (stuck (the_usage nic) (λ std.
                let (nic', returned) =
                  clean-returned hw mem system.malloc reg size steady fits rounds slept enough
                    (record { of_size = std.0; of_reg = std.1 }) in
                cc (out, returned)))
        | inr (nic', e) ↦
            let same : the_usage nic' ≡ the_usage nic = subst (UsageFrom (the_usage nic)) e kept in
            elim (Bool-cases (not (retval_in p nic'.session == no_answer))) [
              | inl answered ↦ rw (e, wait) (rw answered same)
              | inr open_yet ↦
                  rw (e, wait)
                    (rw open_yet (
                      subst
                        (λ u.
                          EndsWith the_usage never u
                            (wait hw mem system.malloc fuel timeout p nic'))
                        same (wait-usage timeout p nic')))
            ]
      ]

  free_elems-areas :
      (elems : List Elem) (s : R)
      → areas (free_elems hw mem system.malloc system.free heap fuel garbage elems s) ≡ areas s
  unfolding free_elems
  free_elems-areas [] s = refl
  free_elems-areas (elem ∷ rest) s = free_elems-areas rest (system.free s) ∙ laws.same_free s

  abbrev commands : Commands (Nic R)
  commands = nic_commands hw mem system.malloc system.free heap fuel garbage

  session_create-usage :
      (nic : Nic R)
      → CreatedFrom the_usage never commands
          (the_usage nic)
          (i40e_aq_session_create heap garbage nic)
  unfolding i40e_aq_session_create i40e_aq_session_delete
  session_create-usage nic = elim (Option-cases (heap.malloc nic.machine)) [
    | inl e ↦ rw (e, i40e_aq_session_create) refl
    | inr ((p, s), e) ↦
        let same : the_usage (record nic { machine = s }) ≡ the_usage nic =
          same_usage nic (record nic { machine = s }) (quiet.same_create p nic.machine s e) refl
            refl refl refl refl in
        rw (e, i40e_aq_session_create)
          (
            subst never same,
            λ t kept.
                same_usage t (i40e_aq_session_delete heap p t) (quiet.same_delete p t.machine) refl
                  refl refl refl refl
                ∙ kept
                ∙ same,
          )
  ]

  -- The commands on the admin queues leave the areas that are mapped and the queues' lengths.
  pub nic_commands-usage : IsTracked the_usage never commands
  unfolding i40e_aqc_wait_cmd
  nic_commands-usage = record {
    tracks_create = session_create-usage;
    tracks_submit = submit-usage;
    tracks_wait = λ p nic. wait-usage cmd_timeout p nic;
    tracks_offset = λ p offset nic. refl;
    tracks_clear = λ nic.
        same_usage nic (commands.clear_elems nic) (free_elems-areas nic.elem nic.machine) refl refl
          refl refl refl;
  }
