-- ===== src/I40e/Aq/Answers.antt =====
-- dev/i40e/i40e_aqc.c: what each answer changes, for a device that stays still.
use mathlib.Core.Path.{subst}
use ufp.Common.{
  ℕ, zero, suc, ◌+◌, ◌%◌, ◌^◌, if◌then◌else◌, Bool, true, false, Bool-cases, ◌≡◌, inl, inr, refl,
  Option, none, some, Option-cases, List, ◌∷◌, ◌++◌, [], ap, ◌∙◌, ◌⊎◌, ◌≢◌, ◌==◌, ==_iff, sym,
}
use ufp.I40e.{Registers, test_bit}
use ufp.I40e.Aq.{Params, AqDesc, Shared}
use ufp.I40e.Aq.Requests.{Vsi}
use ufp.I40e.Aq.Sessions.{
  Elem, Nic, change, set_retval, set_read_val, set_seid_offset, failed_answer,
}
use ufp.I40e.Aq.Responses.{
  tell, dispatch, i40e_aq_asq_process, add_elems, load_elem, port_addr_valid_shift, take_elems,
  take_handles, i40e_aqc_resp_firmware_version, i40e_aqc_resp_macaddr_read,
  i40e_aqc_resp_clear_pxemode, i40e_aqc_resp_get_swconf, i40e_aqc_resp_rxctl_read,
  i40e_aqc_resp_get_vsi,
}
use ufp.I40e.Aq.Effects.{
  IsStill, IsAnswer, has, ids, ids-change, retval_in, silent-IsAnswer, value-IsAnswer,
  failed_session, has-change, retval-change_set, retval-change_ne,
}

module _ {R : Type 0} (hw : Registers R) (mem : Shared R) (malloc : R → Option R)
    (still : R → Type 0) (laws : IsStill hw malloc still) where
  add_elems-still :
      (n addr : ℕ) (elems : List Elem) (s : R)
      → still s
      → still (add_elems hw mem malloc n addr elems s).2
  unfolding add_elems
  add_elems-still zero addr elems s e = e
  add_elems-still (suc n) addr elems s e = elim (Option-cases (malloc s)) [
    | inl full ↦ rw (full, add_elems) e
    | inr (s', granted) ↦
        rw (granted, add_elems)
          (add_elems-still n (addr + 16) (elems ++ load_elem hw mem malloc addr s' ∷ []) s'
            (laws.keeps_malloc s s' granted e))
  ]

  module _ (session : Option ℕ) (nic : Nic R)
      (listed : (p : ℕ) → session ≡ some p → has p nic.session ≡ true) where
    macaddr_read-IsAnswer :
        (cmd : Params) (buf : ℕ)
        → IsAnswer still session nic (i40e_aqc_resp_macaddr_read hw mem malloc cmd buf session nic)
    unfolding i40e_aqc_resp_macaddr_read
    macaddr_read-IsAnswer cmd buf =
        elim (Bool-cases (test_bit (cmd.param0 % 2 ^ 16) port_addr_valid_shift)) [
          | inl valid ↦ rw valid (silent-IsAnswer still session nic _ refl refl refl (λ e. e))
          | inr invalid ↦
              rw invalid (failed_session still session nic nic listed refl refl refl (λ e. e))
        ]

    clear_pxemode-IsAnswer :
        IsAnswer still session nic (i40e_aqc_resp_clear_pxemode hw mem malloc nic)
    unfolding i40e_aqc_resp_clear_pxemode
    clear_pxemode-IsAnswer =
        silent-IsAnswer still session nic _ refl refl refl (laws.keeps_write nic.machine)

    take_elems-IsAnswer :
        (cmd : Params) (r : Bool × List Elem × R)
        → (still nic.machine → still r.2)
        → IsAnswer still session nic (take_elems hw mem malloc cmd session nic r)
    take_elems-IsAnswer cmd (true, elems, s) keeps =
        value-IsAnswer still session (set_seid_offset (cmd.param0 % 2 ^ 16)) nic
          (record nic { elem = elems; machine = s }) (λ σ. refl)
          (silent-IsAnswer still session nic (record nic { elem = elems; machine = s }) refl refl
            refl keeps)
    take_elems-IsAnswer cmd (false, elems, s) keeps =
        failed_session still session nic (record nic { elem = elems; machine = s }) listed refl refl
          refl keeps

    get_swconf-IsAnswer :
        (cmd : Params) (buf : ℕ)
        → IsAnswer still session nic (i40e_aqc_resp_get_swconf hw mem malloc cmd buf session nic)
    unfolding i40e_aqc_resp_get_swconf
    get_swconf-IsAnswer cmd buf =
        take_elems-IsAnswer cmd _ (add_elems-still _ (buf + 16) nic.elem nic.machine)

    rxctl_read-IsAnswer :
        (cmd : Params) → IsAnswer still session nic (i40e_aqc_resp_rxctl_read cmd session nic)
    unfolding i40e_aqc_resp_rxctl_read
    rxctl_read-IsAnswer cmd =
        value-IsAnswer still session (set_read_val cmd.param3) nic nic (λ σ. refl)
          (silent-IsAnswer still session nic nic refl refl refl (λ e. e))

    take_handles-IsAnswer :
        (r : Option (List Vsi))
        → IsAnswer still session nic (take_handles hw mem malloc session nic r)
    take_handles-IsAnswer none = failed_session still session nic nic listed refl refl refl (λ e. e)
    take_handles-IsAnswer (some vsis) =
        silent-IsAnswer still session nic (record nic { iface = vsis }) refl refl refl (λ e. e)

    get_vsi-IsAnswer :
        (cmd : Params) (buf : ℕ)
        → IsAnswer still session nic (i40e_aqc_resp_get_vsi hw mem malloc cmd buf session nic)
    unfolding i40e_aqc_resp_get_vsi
    get_vsi-IsAnswer cmd buf = take_handles-IsAnswer _

    firmware_version-IsAnswer :
        (cmd : Params) → IsAnswer still session nic (i40e_aqc_resp_firmware_version cmd nic)
    unfolding i40e_aqc_resp_firmware_version
    firmware_version-IsAnswer cmd = silent-IsAnswer still session nic _ refl refl refl (λ e. e)

    or_else-IsAnswer :
        (b : Bool) (nic₁ nic₂ : Nic R)
        → IsAnswer still session nic nic₁
        → IsAnswer still session nic nic₂
        → IsAnswer still session nic (if b then nic₁ else nic₂)
    or_else-IsAnswer true nic₁ nic₂ a a' = a
    or_else-IsAnswer false nic₁ nic₂ a a' = a'

    pub dispatch-IsAnswer :
        (desc : AqDesc) (buf : ℕ)
        → IsAnswer still session nic (dispatch hw mem malloc desc buf session nic)
    unfolding dispatch
    dispatch-IsAnswer desc buf = or_else-IsAnswer _ _ _ (firmware_version-IsAnswer desc.params) (
        or_else-IsAnswer _ _ _ (macaddr_read-IsAnswer desc.params buf) (
          or_else-IsAnswer _ _ _ clear_pxemode-IsAnswer (
            or_else-IsAnswer _ _ _ (get_swconf-IsAnswer desc.params buf) (
              or_else-IsAnswer _ _ _ (rxctl_read-IsAnswer desc.params) (
                or_else-IsAnswer _ _ _ (get_vsi-IsAnswer desc.params buf)
                  (silent-IsAnswer still session nic nic refl refl refl (λ e. e)))))))

-- What `i40e_aq_asq_process` does with a descriptor for a session that is in the list, or for none:
-- the session gets the descriptor's `retval`, or fails where that is 0.
pub record IsProcessed {R : Type 0} (still : R → Type 0) (desc : AqDesc) (session : Option ℕ)
    (nic nic' : Nic R) : Type 0 where
  pub same_ring : nic'.tx_ring ≡ nic.tx_ring
  pub same_rx_ring : nic'.rx_ring ≡ nic.rx_ring
  pub same_sessions : (p : ℕ) → has p nic'.session ≡ has p nic.session
  pub same_ids : ids nic'.session ≡ ids nic.session
  pub keeps_still : still nic.machine → still nic'.machine
  pub same_retval : (p : ℕ) → session ≢ some p → retval_in p nic'.session ≡ retval_in p nic.session
  pub own_retval :
      (p : ℕ)
      → session ≡ some p
      → (retval_in p nic'.session ≡ desc.retval)
        ⊎ ((desc.retval ≡ 0) × (retval_in p nic'.session ≡ failed_answer))

module _ {R : Type 0} (hw : Registers R) (mem : Shared R) (malloc : R → Option R)
    (still : R → Type 0) (laws : IsStill hw malloc still) where
  tell_retval-has :
      (session : Option ℕ) (v p : ℕ) (nic : Nic R)
      → has p (tell session (set_retval v) nic).session ≡ has p nic.session
  unfolding tell
  tell_retval-has none v p nic = refl
  tell_retval-has (some q) v p nic = has-change p q (set_retval v) nic.session

  tell_retval-ids :
      (session : Option ℕ) (v : ℕ) (nic : Nic R)
      → ids (tell session (set_retval v) nic).session ≡ ids nic.session
  unfolding tell
  tell_retval-ids none v nic = refl
  tell_retval-ids (some q) v nic = ids-change q (set_retval v) nic.session

  tell_retval-own :
      (session : Option ℕ) (v p : ℕ) (nic : Nic R)
      → session ≡ some p
      → has p nic.session ≡ true
      → retval_in p (tell session (set_retval v) nic).session ≡ v
  unfolding tell
  tell_retval-own none v p nic own h = absurd (cc own)
  tell_retval-own (some q) v p nic own h =
      subst (λ r. retval_in p (change r (set_retval v) nic.session) ≡ v) (cc)
        (retval-change_set p v nic.session h)

  tell_retval-ne :
      (session : Option ℕ) (v p : ℕ) (nic : Nic R)
      → session ≢ some p
      → retval_in p (tell session (set_retval v) nic).session ≡ retval_in p nic.session
  unfolding tell
  tell_retval-ne none v p nic ne = refl
  tell_retval-ne (some q) v p nic ne =
      retval-change_ne p q (set_retval v) nic.session (λ same. ne (ap some same))

  tell_retval-ring :
      (session : Option ℕ) (v : ℕ) (nic : Nic R)
      → ((tell session (set_retval v) nic).tx_ring ≡ nic.tx_ring)
        × ((tell session (set_retval v) nic).rx_ring ≡ nic.rx_ring)
        × ((tell session (set_retval v) nic).machine ≡ nic.machine)
  unfolding tell
  tell_retval-ring none v nic = (refl, refl, refl)
  tell_retval-ring (some q) v nic = (refl, refl, refl)

  pub asq_process-IsProcessed :
      (desc : AqDesc) (buf : ℕ) (session : Option ℕ) (nic : Nic R)
      → ((p : ℕ) → session ≡ some p → has p nic.session ≡ true)
      → IsProcessed still desc session nic (i40e_aq_asq_process hw mem malloc desc buf session nic)
  unfolding i40e_aq_asq_process
  asq_process-IsProcessed desc buf session nic listed =
      let nic' = tell session (set_retval desc.retval) nic in
      let (ring', rx_ring', machine') = tell_retval-ring session desc.retval nic in
      elim (Bool-cases (desc.retval == 0)) [
        | inl good ↦
            let a =
              dispatch-IsAnswer hw mem malloc still laws session nic'
                (λ p own. tell_retval-has session desc.retval p nic ∙ listed p own) desc buf in
            rw good (record {
              same_ring = a.same_ring ∙ ring';
              same_rx_ring = a.same_rx_ring ∙ rx_ring';
              same_sessions = λ p. a.same_sessions p ∙ tell_retval-has session desc.retval p nic;
              same_ids = a.same_ids ∙ tell_retval-ids session desc.retval nic;
              keeps_still = λ e. a.keeps_still (subst still (sym machine') e);
              same_retval =
                  λ p ne. a.same_retval p ne ∙ tell_retval-ne session desc.retval p nic ne;
              own_retval = λ p own. elim (a.own_retval p own) [
                | inl e ↦ inl (e ∙ tell_retval-own session desc.retval p nic own (listed p own))
                | inr e ↦ inr ((==_iff desc.retval 0).0 good, e)
              ];
            })
        | inr bad ↦ rw bad (record {
          same_ring = ring';
          same_rx_ring = rx_ring';
          same_sessions = λ p. tell_retval-has session desc.retval p nic;
          same_ids = tell_retval-ids session desc.retval nic;
          keeps_still = λ e. subst still (sym machine') e;
          same_retval = λ p ne. tell_retval-ne session desc.retval p nic ne;
          own_retval = λ p own. inl (tell_retval-own session desc.retval p nic own (listed p own));
        })
      ]
