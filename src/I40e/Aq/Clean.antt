-- ===== src/I40e/Aq/Clean.antt =====
-- dev/i40e/i40e_aq.c and i40e_aqc.c: the loops over the descriptors that the firmware is done with,
-- and the wait for an answer. The loops run until the index is at the head that the device shows,
-- which the device can move on at each read, so they take fuel.
use ufp.Common.{
  ℕ, zero, suc, ◌+◌, ◌*◌, ◌%◌, ◌^◌, ◌==◌, not, Bool, true, false, if◌then◌else◌, Option, none, some,
  List,
}
use ufp.I40e.{Registers, test_bit}
use ufp.I40e.Aq.{AqDesc, Shared, next_index, flag_err_shift}
use ufp.I40e.Aq.Sessions.{Session, Nic, find_session, no_answer}
use ufp.I40e.Aq.Responses.{i40e_aq_asq_process}

-- `I40E_ASQ_CMD_TIMEOUT`
abbrev pub cmd_timeout : ℕ
cmd_timeout = 250

abbrev pub cookie : AqDesc → ℕ
cookie desc = desc.cookie_low + desc.cookie_high * 2 ^ 32

-- the session whose address the cookie is, if it is still in the list
unfoldable pub session_of : (cookie : ℕ) → List (ℕ × Session) → Option ℕ
session_of p sessions =
    if p == 0 then none else elim (find_session p sessions) [ none ↦ none | some session ↦ some p ]

-- no event is handled
unfoldable pub i40e_aq_arq_process : {R : Type 0} → AqDesc → Nic R → Nic R
i40e_aq_arq_process desc nic = if test_bit desc.flags flag_err_shift then nic else nic

module _ {R : Type 0} (hw : Registers R) (mem : Shared R) (malloc : R → Option R) where
  open hw use {read32, usleep}
  open mem use {load_desc}

  -- one round of the loop of `i40e_aq_asq_clean`
  unfoldable pub clean_one : Nic R → Nic R
  unfolding session_of
  clean_one nic =
      let ring = nic.tx_ring in
      let i = ring.next_to_clean in
      let desc = load_desc ring.desc.addr_virt i nic.machine in
      let nic' =
        i40e_aq_asq_process hw mem malloc desc (ring.bufs i).addr_virt
          (session_of (cookie desc) nic.session) nic in
      record nic' { tx_ring = record nic'.tx_ring { next_to_clean = next_index nic'.tx_ring i } }

  abbrev pub asq_head : Nic R → ℕ
  asq_head nic = (read32 nic.tx_ring.head nic.machine).0

  abbrev pub after_head : Nic R → Nic R
  after_head nic = record nic { machine = (read32 nic.tx_ring.head nic.machine).1 }

  -- `none`: the fuel ran out
  unfoldable pub i40e_aq_asq_clean : (fuel : ℕ) → Nic R → Option (Nic R)
  i40e_aq_asq_clean zero nic = none
  i40e_aq_asq_clean (suc fuel) nic =
      let rest = i40e_aq_asq_clean fuel (clean_one (after_head nic)) in
      if nic.tx_ring.next_to_clean == asq_head nic then some (after_head nic) else rest

  -- The low 10 bits of the register of the receive queue's head are its index.
  unfoldable pub i40e_aq_arq_clean : (fuel : ℕ) → Nic R → Option (Nic R)
  unfolding i40e_aq_arq_process
  i40e_aq_arq_clean zero nic = none
  i40e_aq_arq_clean (suc fuel) nic =
      let ring = nic.rx_ring in
      let i = ring.next_to_clean in
      let nic₁ = record nic { machine = (read32 ring.head nic.machine).1 } in
      let desc = load_desc ring.desc.addr_virt i nic₁.machine in
      let nic₂ = i40e_aq_arq_process desc nic₁ in
      let rest =
        i40e_aq_arq_clean fuel
          (record nic₂ { rx_ring = record ring { next_to_clean = next_index ring i } }) in
      if i == (read32 ring.head nic.machine).0 % 2 ^ 10 then some nic₁ else rest

  -- `session->retval`, where the session is in the list
  abbrev pub retval_of : ℕ → List (ℕ × Session) → ℕ
  retval_of p sessions = elim (find_session p sessions) [
    | none ↦ no_answer
    | some session ↦ session.retval
  ]

  abbrev pub is_answered : ℕ → Nic R → Bool
  is_answered p nic = not (retval_of p nic.session == no_answer)

  abbrev pub slept : Nic R → Nic R
  slept nic = record nic { machine = usleep 1000 nic.machine }

  -- The loop of `i40e_aqc_wait_cmd` with the tries that are left: false where none saw an answer.
  unfoldable pub wait : (fuel timeout session : ℕ) → Nic R → Option (Bool × Nic R)
  wait fuel zero session nic = some (false, nic)
  wait fuel (suc timeout) session nic = elim (i40e_aq_asq_clean fuel (slept nic)) [
    | none ↦ none
    | some nic' ↦
        let rest = wait fuel timeout session nic' in
        if is_answered session nic' then some (true, nic') else rest
  ]

  unfoldable pub i40e_aqc_wait_cmd : (fuel session : ℕ) → Nic R → Option (Bool × Nic R)
  i40e_aqc_wait_cmd fuel session nic = wait fuel cmd_timeout session nic
