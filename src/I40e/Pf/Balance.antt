-- ===== src/I40e/Pf/Balance.antt =====
-- dev/i40e: setting up the function and the interfaces leaves no session behind.
use mathlib.Core.Path.{subst}
use ufp.Common.{
  ℕ, zero, suc, ◌+◌, ◌*◌, ◌%◌, ◌^◌, ◌≢◌, arith, if◌then◌else◌, Bool-cases, inl, inr, ◌==◌, ◌≡◌,
  refl, Option, none, some, List,
}
use ufp.I40e.{Registers}
use ufp.I40e.Aq.Requests.{Vsi}
use ufp.I40e.Aq.Sessions.{Elem}
use ufp.I40e.Commands.{
  Commands, Run, pure, bind, attempt, ◌>>◌, rc_ok, rc_ok_or_eperm, rc_ok_or_esrch, rc_ok_or_eexist,
}
use ufp.I40e.Commands.Sessions.{
  IsBalanced, IsTracked, bind-IsBalanced, pure-IsBalanced, gets-IsBalanced, modify-IsBalanced,
  check-IsBalanced, if-IsBalanced, attempt-IsBalanced, on_failure-IsBalanced,
  with_session-IsBalanced, ask-IsBalanced, command-IsBalanced, EndsWith,
}
use ufp.I40e.Pf.{
  i40e_rxctl_write, i40e_rxctl_read, i40e_firmware_version, i40e_driver_version, i40e_clear_pxemode,
  i40e_stop_lldp, i40e_macaddr_read, i40e_set_phyintmask, i40e_set_swconf, i40e_clear_swconf,
  get_swconf_from, get_swconf_loop, i40e_get_swconf, i40e_configure_pf, i40e_configure_filter,
  i40e_configure_rss, write_keys, i40e_set_rsskey_reg, i40e_setup_pf_switch, adopt_vsi, found,
  iface_allocated, pf_iface, first_vsi, hkey_words,
}
use ufp.I40e.Reset.{i40e_set_rsslut_reg}
use ufp.I40e.Reset.Kept.{set_rsslut_reg-kept}
use ufp.I40e.VsiSetup.{i40e_set_rsskey, i40e_set_rsslut, i40e_vsi_rss_config, rc_esrch}

-- The driver asked the firmware for the elements of the switch `n` times in a row, and the firmware
-- gave `offset` to go on from, not 0, each time.
pub data IsReached {S : Type 0} (commands : Commands S) : (n offset : ℕ) → S → Type 0 where
  asked : (s : S) → IsReached commands 0 0 s
  goes_on :
      (n offset offset' : ℕ) (s s' : S)
      → IsReached commands n offset s
      → get_swconf_from commands offset s ≡ some (some offset', s')
      → offset' ≢ 0
      → IsReached commands (suc n) offset' s'

module _ {S C : Type 0} (sessions : S → C) (never : C → Type 0) (commands : Commands S)
    (laws : IsTracked sessions never commands) where
  rxctl_write-IsBalanced :
      (reg_addr reg_val : ℕ)
      → IsBalanced sessions never (i40e_rxctl_write commands reg_addr reg_val)
  unfolding i40e_rxctl_write
  rxctl_write-IsBalanced reg_addr reg_val = command-IsBalanced sessions never commands laws rc_ok _

  rxctl_read-IsBalanced :
      (reg_addr : ℕ) → IsBalanced sessions never (i40e_rxctl_read commands reg_addr)
  unfolding i40e_rxctl_read
  rxctl_read-IsBalanced reg_addr = with_session-IsBalanced sessions never commands laws _ (λ p.
      bind-IsBalanced sessions never _ _ (ask-IsBalanced sessions never commands laws rc_ok _ p)
        (λ answer. gets-IsBalanced sessions never (commands.read_val p)))

  firmware_version-IsBalanced : IsBalanced sessions never (i40e_firmware_version commands)
  unfolding i40e_firmware_version
  firmware_version-IsBalanced = command-IsBalanced sessions never commands laws rc_ok _

  driver_version-IsBalanced : IsBalanced sessions never (i40e_driver_version commands)
  unfolding i40e_driver_version
  driver_version-IsBalanced = command-IsBalanced sessions never commands laws rc_ok _

  clear_pxemode-IsBalanced : IsBalanced sessions never (i40e_clear_pxemode commands)
  unfolding i40e_clear_pxemode
  clear_pxemode-IsBalanced = command-IsBalanced sessions never commands laws rc_ok_or_eexist _

  stop_lldp-IsBalanced : IsBalanced sessions never (i40e_stop_lldp commands)
  unfolding i40e_stop_lldp
  stop_lldp-IsBalanced = command-IsBalanced sessions never commands laws rc_ok_or_eperm _

  macaddr_read-IsBalanced : IsBalanced sessions never (i40e_macaddr_read commands)
  unfolding i40e_macaddr_read
  macaddr_read-IsBalanced = command-IsBalanced sessions never commands laws rc_ok _

  set_phyintmask-IsBalanced :
      (mask : ℕ) → IsBalanced sessions never (i40e_set_phyintmask commands mask)
  unfolding i40e_set_phyintmask
  set_phyintmask-IsBalanced mask = command-IsBalanced sessions never commands laws rc_ok _

  set_swconf-IsBalanced :
      (flags valid_flags : ℕ)
      → IsBalanced sessions never (i40e_set_swconf commands flags valid_flags)
  unfolding i40e_set_swconf
  set_swconf-IsBalanced flags valid_flags = command-IsBalanced sessions never commands laws rc_ok _

  both :
      {A : Type 0} (m : Run S (Unit {0})) (k : Run S A)
      → IsBalanced sessions never m
      → IsBalanced sessions never k
      → IsBalanced sessions never (m >> k)
  both m k a b = bind-IsBalanced sessions never m (λ _. k) a (λ _. b)

  -- Configuring the function of the device leaves the sessions as it found them, whether all of its
  -- commands succeed or one fails, where deleting a session undoes creating it and the other
  -- operations leave the sessions.
  pub i40e_configure_pf-IsBalanced : IsBalanced sessions never (i40e_configure_pf commands)
  unfolding i40e_configure_pf
  i40e_configure_pf-IsBalanced = both _ _ firmware_version-IsBalanced (
      both _ _ driver_version-IsBalanced (
        both _ _ clear_pxemode-IsBalanced (
          both _ _ stop_lldp-IsBalanced
            (both _ _ macaddr_read-IsBalanced (set_phyintmask-IsBalanced _)))))

  configure_filter-IsBalanced : IsBalanced sessions never (i40e_configure_filter commands)
  unfolding i40e_configure_filter
  configure_filter-IsBalanced =
      bind-IsBalanced sessions never _ _ (rxctl_read-IsBalanced _)
        (λ val. rxctl_write-IsBalanced _ _)

  configure_rss-IsBalanced : IsBalanced sessions never (i40e_configure_rss commands)
  unfolding i40e_configure_rss
  configure_rss-IsBalanced =
      bind-IsBalanced sessions never _ _ (rxctl_read-IsBalanced _) (λ hena_low.
        bind-IsBalanced sessions never _ _ (rxctl_read-IsBalanced _) (λ hena_high.
          both _ _ (rxctl_write-IsBalanced _ _) (
            both _ _ (rxctl_write-IsBalanced _ _) (
              bind-IsBalanced sessions never _ _ (rxctl_read-IsBalanced _)
                (λ reg_val. rxctl_write-IsBalanced _ _)))))

  get_swconf_from-IsBalanced :
      (seid_offset : ℕ) → IsBalanced sessions never (get_swconf_from commands seid_offset)
  unfolding get_swconf_from
  get_swconf_from-IsBalanced seid_offset =
      with_session-IsBalanced sessions never commands laws _ (λ p.
        both _ _
          (modify-IsBalanced sessions never (commands.set_seid_offset p seid_offset)
            (laws.tracks_offset p seid_offset))
          (bind-IsBalanced sessions never _ _
            (ask-IsBalanced sessions never commands laws rc_ok _ p)
            (λ answer.
              bind-IsBalanced sessions never _ _
                (gets-IsBalanced sessions never (commands.read_val p))
                (λ offset. pure-IsBalanced sessions never (offset % 2 ^ 16)))))

  clear_swconf-sessions : (s : S) → sessions (i40e_clear_swconf commands s) ≡ sessions s
  unfolding i40e_clear_swconf
  clear_swconf-sessions s = laws.tracks_clear s

  write_keys-IsBalanced :
      (n i : ℕ) (key : List ℕ) → IsBalanced sessions never (write_keys commands n i key)
  unfolding write_keys
  write_keys-IsBalanced zero i key = pure-IsBalanced sessions never tt
  write_keys-IsBalanced (suc n) i key =
      both _ _ (rxctl_write-IsBalanced _ _) (write_keys-IsBalanced n (suc i) key)

  set_rsskey_reg-IsBalanced :
      (key : List ℕ) (key_size : ℕ)
      → IsBalanced sessions never (i40e_set_rsskey_reg commands key key_size)
  unfolding i40e_set_rsskey_reg
  set_rsskey_reg-IsBalanced key key_size =
      both _ _ (check-IsBalanced sessions never (key_size == hkey_words * 4))
        (write_keys-IsBalanced hkey_words 0 key)

  module _ (fuel : ℕ)
      (gave_up : (offset : ℕ) (s : S) → IsReached commands fuel offset s → (l : C) → never l) where
    abbrev go_on : (n offset : ℕ) → Run S (Unit {0})
    go_on n offset =
        let rest = get_swconf_loop commands n offset in if offset == 0 then pure tt else rest

    gone_on-EndsWith :
        (n offset : ℕ) (l : C) (s : S) (r : Option (Option ℕ × S))
        → get_swconf_from commands offset s ≡ r
        → ((offset' : ℕ) (s' : S)
            → get_swconf_from commands offset s ≡ some (some offset', s')
            → offset' ≢ 0
            → EndsWith sessions never (sessions s') (get_swconf_loop commands n offset' s'))
        → EndsWith sessions never l r
        → EndsWith sessions never l (bind r (go_on n))
    gone_on-EndsWith n offset l s none e later h = h
    gone_on-EndsWith n offset l s (some (none, s')) e later h = h
    gone_on-EndsWith n offset l s (some (some offset', s')) e later h =
        elim (Bool-cases (offset' == 0)) [
          | inl last ↦ rw last h
          | inr more ↦ rw more (
              subst (λ k. EndsWith sessions never k (get_swconf_loop commands n offset' s')) h
                (later offset' s' e (λ zero. ground (arith, more, zero))))
        ]

    get_swconf_loop-EndsWith :
        (n k offset : ℕ) (s : S)
        → k + n ≡ fuel
        → IsReached commands k offset s
        → EndsWith sessions never (sessions s) (get_swconf_loop commands n offset s)
    unfolding get_swconf_loop
    get_swconf_loop-EndsWith zero k offset s e reached =
        let all : k ≡ fuel = omega arith in
        gave_up offset s (subst (λ n. IsReached commands n offset s) all reached) (sessions s)
    get_swconf_loop-EndsWith (suc n) k offset s e reached =
        gone_on-EndsWith n offset (sessions s) s (get_swconf_from commands offset s) refl
          (λ offset' s' given more.
            get_swconf_loop-EndsWith n (suc k) offset' s' (omega arith)
              (goes_on k offset offset' s s' reached given more))
          ((get_swconf_from-IsBalanced offset).balanced s)

    get_swconf-IsBalanced : IsBalanced sessions never (i40e_get_swconf commands fuel)
    unfolding i40e_get_swconf
    get_swconf-IsBalanced =
        both _ _
          (modify-IsBalanced sessions never (i40e_clear_swconf commands) clear_swconf-sessions)
          (on_failure-IsBalanced sessions never _ (i40e_clear_swconf commands)
            (record { balanced = λ s. get_swconf_loop-EndsWith fuel 0 0 s (omega arith) (asked s) })
            clear_swconf-sessions)

    module _ (malloc : S → Option S) (pf_lan_mac : S → List ℕ)
        (same_malloc : (s s' : S) → malloc s ≡ some s' → sessions s' ≡ sessions s) where
      found-IsBalanced :
          (r : Option Elem) → IsBalanced sessions never (found commands malloc pf_lan_mac r)
      found-IsBalanced none = record { balanced = λ s. refl }
      found-IsBalanced (some elem) = pure-IsBalanced sessions never elem

      iface_allocated-EndsWith :
          (s : S) (r : Option S)
          → malloc s ≡ r
          → EndsWith sessions never (sessions s) (iface_allocated commands malloc pf_lan_mac r s)
      iface_allocated-EndsWith s none e = refl
      iface_allocated-EndsWith s (some s') e = same_malloc s s' e

      adopt_vsi-IsBalanced :
          (garbage : List ℕ)
          → IsBalanced sessions never (adopt_vsi commands malloc pf_lan_mac garbage)
      adopt_vsi-IsBalanced garbage =
          bind-IsBalanced sessions never _ _
            (gets-IsBalanced sessions never (λ s. first_vsi (commands.elems s)))
            (λ first. bind-IsBalanced sessions never _ _ (found-IsBalanced first) (λ elem.
              both _ _ (record { balanced = λ s. iface_allocated-EndsWith s (malloc s) refl })
                (bind-IsBalanced sessions never _ _ (gets-IsBalanced sessions never pf_lan_mac)
                  (λ mac. pure-IsBalanced sessions never (pf_iface elem mac garbage)))))

      -- Setting up the switch of the function, with the search for its default VSI, leaves the
      -- sessions as it found them on every way out, where memory for the VSI leaves them too.
      pub i40e_setup_pf_switch-IsBalanced :
          (pf_id : ℕ) (garbage : List ℕ)
          → IsBalanced sessions never
              (i40e_setup_pf_switch commands malloc pf_lan_mac fuel pf_id garbage)
      unfolding i40e_setup_pf_switch
      i40e_setup_pf_switch-IsBalanced pf_id garbage =
          both _ _
            (if-IsBalanced sessions never (pf_id == 0) (i40e_set_swconf commands 0 1) (pure tt)
              (set_swconf-IsBalanced 0 1) (pure-IsBalanced sessions never tt))
            (both _ _ configure_filter-IsBalanced (
              both _ _ configure_rss-IsBalanced (
                both _ _ get_swconf-IsBalanced (
                  on_failure-IsBalanced sessions never _ (i40e_clear_swconf commands)
                    (adopt_vsi-IsBalanced garbage) clear_swconf-sessions))))

  module _ (hw : Registers S)
      (same_write : (reg value : ℕ) (s : S) → sessions (hw.write32 reg value s) ≡ sessions s) where
    set_rsskey-IsBalanced :
        (vsi : Vsi) (key : List ℕ) (key_size : ℕ)
        → IsBalanced sessions never (i40e_set_rsskey commands hw vsi key key_size)
    unfolding i40e_set_rsskey
    set_rsskey-IsBalanced vsi key key_size =
        with_session-IsBalanced sessions never commands laws _ (λ p.
          bind-IsBalanced sessions never _ _
            (ask-IsBalanced sessions never commands laws rc_ok_or_esrch _ p)
            (λ answer.
              if-IsBalanced sessions never (answer == rc_esrch)
                (i40e_set_rsskey_reg commands key key_size) (pure tt)
                (set_rsskey_reg-IsBalanced key key_size) (pure-IsBalanced sessions never tt)))

    set_rsslut-IsBalanced :
        (vsi : Vsi) (lut : List ℕ) (size : ℕ)
        → IsBalanced sessions never (i40e_set_rsslut commands hw vsi lut size)
    unfolding i40e_set_rsslut
    set_rsslut-IsBalanced vsi lut size =
        with_session-IsBalanced sessions never commands laws _ (λ p.
          bind-IsBalanced sessions never _ _
            (ask-IsBalanced sessions never commands laws rc_ok_or_esrch _ p)
            (λ answer.
              if-IsBalanced sessions never (answer == rc_esrch)
                (attempt (i40e_set_rsslut_reg hw lut size)) (pure tt)
                (attempt-IsBalanced sessions never (i40e_set_rsslut_reg hw lut size)
                  (set_rsslut_reg-kept sessions hw same_write lut size))
                (pure-IsBalanced sessions never tt)))

    -- Spreading the received packets over the queues of an interface leaves the sessions as it
    -- found them on every way out, also where the firmware does not know a command and the tables
    -- are written to registers, by more commands while the first one's session is open.
    pub i40e_vsi_rss_config-IsBalanced :
        (vsi : Vsi) (num_qps : ℕ)
        → IsBalanced sessions never (i40e_vsi_rss_config commands hw vsi num_qps)
    unfolding i40e_vsi_rss_config
    i40e_vsi_rss_config-IsBalanced vsi num_qps =
        both _ _ (set_rsskey-IsBalanced vsi _ _) (set_rsslut-IsBalanced vsi _ _)
