-- ===== src/I40e/Pf.antt =====
-- dev/i40e/i40e_main.c: the commands that set up the function of the device (PF), on the interface
-- of I40e/Commands.
pub mod Balance
mod Tests
use Prim.Native.Nat.{bit_or}
use ufp.Common.{
  ℕ, zero, suc, ◌+◌, ◌-◌, ◌*◌, ◌/◌, ◌%◌, ◌^◌, ◌==◌, ltb, Bool, true, false, not, ◌&&◌,
  if◌then◌else◌, Option, none, some, List, [], ◌∷◌, get_or,
}
use ufp.I40e.{Registers, test_bit, set_bit, field}
use ufp.I40e.Aq.{lower32, upper32}
use ufp.I40e.Aq.Requests
use ufp.I40e.Aq.Sessions.{Elem}
use ufp.I40e.Irq.{mask_off}
use ufp.I40e.Commands.{
  Commands, Run, pure, fail, gets, modify, check, attempt, ◌>>=◌, ◌>>◌, on_failure, with_session,
  ask, done, command, rc_ok, rc_ok_or_eperm, rc_ok_or_eexist,
}

abbrev pub pfqf_ctl_0 : ℕ
pfqf_ctl_0 = 0x001C0AC0

abbrev pub pfqf_hena : ℕ → ℕ
pfqf_hena i = 0x00245900 + i * 128

abbrev pub pfqf_hkey : ℕ → ℕ
pfqf_hkey i = 0x00244800 + i * 128

abbrev pub pfqf_hlut : ℕ → ℕ
pfqf_hlut i = 0x00240000 + i * 128

-- `PEHSIZE`, `PEDSIZE`, `PFFCHSIZE`, `PFFCDSIZE` and `HASHLUTSIZE`: the low 17 bits
abbrev pub size_fields : ℕ
size_fields = 0x1F + 0x1F * 2 ^ 5 + 0xF * 2 ^ 10 + 0x3 * 2 ^ 14 + 0x1 * 2 ^ 16

-- Each of the five fields is cleared and then gets 0, the smallest size; `FD_ENA`, `ETYPE_ENA` and
-- `MACVLAN_ENA` are set.
unfoldable pub filter_control : ℕ → ℕ
filter_control val =
    let cleared =
      mask_off
        (mask_off (mask_off (mask_off (mask_off val 0x1F) (0x1F * 2 ^ 5)) (0xF * 2 ^ 10))
          (0x3 * 2 ^ 14))
        (0x1 * 2 ^ 16) in
    bit_or (bit_or (bit_or cleared (2 ^ 17)) (2 ^ 18)) (2 ^ 19)

-- the packet types that are hashed
abbrev pub hena_types : List ℕ
hena_types = 31 ∷ 34 ∷ 33 ∷ 35 ∷ 36 ∷ 41 ∷ 43 ∷ 44 ∷ 45 ∷ 46 ∷ 63 ∷ []

unfoldable pub with_types : List ℕ → ℕ → ℕ
with_types [] hena = hena
with_types (shift ∷ rest) hena = with_types rest (bit_or hena (2 ^ shift))

-- `I40E_PFQF_CTL_0_HASHLUTSIZE_512`
abbrev pub hashlutsize_512 : ℕ
hashlutsize_512 = 0x00010000

abbrev pub hkey_words : ℕ
hkey_words = 13

abbrev pub hlut_words : ℕ
hlut_words = 128

-- `I40E_AQ_SW_ELEM_TYPE_VSI`
abbrev pub elem_type_vsi : ℕ
elem_type_vsi = 19

-- `I40E_AQ_SET_SWITCH_CFG_PROMISC`
abbrev pub switch_cfg_promisc : ℕ
switch_cfg_promisc = 1

-- all events but those of the link, of its media and of the module's qualification
abbrev pub phy_mask : ℕ
phy_mask = 2 ^ 16 - 1 - (0x0002 + 0x0004 + 0x0080)

-- the first element that is a VSI
unfoldable pub first_vsi : List Elem → Option Elem
first_vsi [] = none
first_vsi (elem ∷ rest) = if elem.element_type == elem_type_vsi then some elem else first_vsi rest

-- the bytes of a table as its little-endian words
abbrev pub word : List ℕ → ℕ → ℕ
word bytes i =
    get_or bytes (4 * i) 0
    + get_or bytes (4 * i + 1) 0 * 2 ^ 8
    + get_or bytes (4 * i + 2) 0 * 2 ^ 16
    + get_or bytes (4 * i + 3) 0 * 2 ^ 24

module _ {S : Type 0} (commands : Commands S) where
  open commands use {read_val, set_seid_offset, elems, clear_elems}

  unfoldable pub i40e_rxctl_write : (reg_addr reg_val : ℕ) → Run S (Unit {0})
  i40e_rxctl_write reg_addr reg_val =
      command commands rc_ok (Requests.i40e_aqc_req_rxctl_write reg_addr reg_val)

  -- the value is read from the session before it is deleted
  unfoldable pub i40e_rxctl_read : (reg_addr : ℕ) → Run S ℕ
  i40e_rxctl_read reg_addr = with_session commands (λ p.
      ask commands rc_ok (Requests.i40e_aqc_req_rxctl_read reg_addr) p
      >>= (λ answer. gets (read_val p)))

  unfoldable pub i40e_firmware_version : Run S (Unit {0})
  i40e_firmware_version = command commands rc_ok Requests.i40e_aqc_req_firmware_version

  unfoldable pub i40e_driver_version : Run S (Unit {0})
  i40e_driver_version = command commands rc_ok Requests.i40e_aqc_req_driver_version

  unfoldable pub i40e_clear_pxemode : Run S (Unit {0})
  i40e_clear_pxemode = command commands rc_ok_or_eexist Requests.i40e_aqc_req_clear_pxemode

  unfoldable pub i40e_stop_lldp : Run S (Unit {0})
  i40e_stop_lldp = command commands rc_ok_or_eperm Requests.i40e_aqc_req_stop_lldp

  unfoldable pub i40e_macaddr_read : Run S (Unit {0})
  i40e_macaddr_read = command commands rc_ok Requests.i40e_aqc_req_macaddr_read

  unfoldable pub i40e_set_phyintmask : (mask : ℕ) → Run S (Unit {0})
  i40e_set_phyintmask mask = command commands rc_ok (Requests.i40e_aqc_req_set_phyintmask mask)

  unfoldable pub i40e_set_swconf : (flags valid_flags : ℕ) → Run S (Unit {0})
  i40e_set_swconf flags valid_flags =
      command commands rc_ok (Requests.i40e_aqc_req_set_swconf flags valid_flags)

  unfoldable pub i40e_clear_swconf : S → S
  i40e_clear_swconf = clear_elems

  -- one round of the loop of `i40e_get_swconf`: the next offset
  unfoldable pub get_swconf_from : (seid_offset : ℕ) → Run S ℕ
  get_swconf_from seid_offset = with_session commands (λ p. do
    modify (set_seid_offset p seid_offset)
    ask commands rc_ok (Requests.i40e_aqc_req_get_swconf seid_offset) p
    offset ← gets (read_val p)
    pure (offset % 2 ^ 16))

  -- The loop goes on while the firmware gives an offset to go on from, so it takes fuel.
  unfoldable pub get_swconf_loop : (fuel seid_offset : ℕ) → Run S (Unit {0})
  get_swconf_loop zero seid_offset = λ s. none
  get_swconf_loop (suc fuel) seid_offset = get_swconf_from seid_offset >>= (λ offset.
      let rest = get_swconf_loop fuel offset in if offset == 0 then pure tt else rest)

  unfoldable pub i40e_get_swconf : (fuel : ℕ) → Run S (Unit {0})
  i40e_get_swconf fuel = do
    modify i40e_clear_swconf
    on_failure (get_swconf_loop fuel 0) i40e_clear_swconf

  unfoldable pub i40e_configure_pf : Run S (Unit {0})
  i40e_configure_pf = do
    i40e_firmware_version
    i40e_driver_version
    i40e_clear_pxemode
    i40e_stop_lldp
    i40e_macaddr_read
    i40e_set_phyintmask phy_mask

  unfoldable pub i40e_configure_filter : Run S (Unit {0})
  i40e_configure_filter = do
    val ← i40e_rxctl_read pfqf_ctl_0
    i40e_rxctl_write pfqf_ctl_0 (filter_control val)

  unfoldable pub i40e_configure_rss : Run S (Unit {0})
  i40e_configure_rss = do
    hena_low ← i40e_rxctl_read (pfqf_hena 0)
    hena_high ← i40e_rxctl_read (pfqf_hena 1)
    let hena = with_types hena_types (bit_or hena_low (hena_high * 2 ^ 32))
    i40e_rxctl_write (pfqf_hena 0) (lower32 hena)
    i40e_rxctl_write (pfqf_hena 1) (upper32 hena)
    reg_val ← i40e_rxctl_read pfqf_ctl_0
    i40e_rxctl_write pfqf_ctl_0 (bit_or reg_val hashlutsize_512)

  unfoldable pub write_keys : (n i : ℕ) (key : List ℕ) → Run S (Unit {0})
  write_keys zero i key = pure tt
  write_keys (suc n) i key = i40e_rxctl_write (pfqf_hkey i) (word key i) >> write_keys n (suc i) key

  unfoldable pub i40e_set_rsskey_reg : (key : List ℕ) (key_size : ℕ) → Run S (Unit {0})
  unfolding write_keys
  i40e_set_rsskey_reg key key_size = do
    check (key_size == hkey_words * 4)
    write_keys hkey_words 0 key

-- what `i40e_setup_pf_switch` sets of the first interface
pub record PfIface : Type 0 where
  pub vsi : Requests.Vsi
  pub mac_addr : List ℕ
  pub num_rx_desc : ℕ
  pub size_rx_desc : ℕ
  pub num_tx_desc : ℕ
  pub size_tx_desc : ℕ

abbrev pub max_num_descriptors : ℕ
max_num_descriptors = 4096

-- the interface of the default VSI; a descriptor has 16 bytes, and what the handles are is not set
unfoldable pub pf_iface : Elem → (mac garbage : List ℕ) → PfIface
pf_iface elem mac garbage = record {
  vsi = record {
    is_main = true;
    seid = elem.seid;
    id = elem.element_info;
    base_qp = 0;
    qs_handles = garbage;
  };
  mac_addr = mac;
  num_rx_desc = max_num_descriptors;
  size_rx_desc = max_num_descriptors * 16;
  num_tx_desc = max_num_descriptors;
  size_tx_desc = max_num_descriptors * 16;
}

module _ {S : Type 0} (commands : Commands S) (malloc : S → Option S)
    (pf_lan_mac : S → List ℕ) where
  open commands use {elems}

  abbrev pub iface_allocated : Option S → S → Option (Option (Unit {0}) × S)
  iface_allocated none s = some (none, s)
  iface_allocated (some s') s = some (some tt, s')

  abbrev pub found : Option Elem → Run S Elem
  found none = fail
  found (some elem) = pure elem

  -- from the search for the VSI on, where a failure clears the elements again
  abbrev pub adopt_vsi : (garbage : List ℕ) → Run S PfIface
  adopt_vsi garbage = do
    elem ← found (← gets (λ s. first_vsi (elems s)))
    (λ s. iface_allocated (malloc s) s)
    mac ← gets pf_lan_mac
    pure (pf_iface elem mac garbage)

  unfoldable pub i40e_setup_pf_switch : (fuel pf_id : ℕ) (garbage : List ℕ) → Run S PfIface
  unfolding adopt_vsi found iface_allocated
  i40e_setup_pf_switch fuel pf_id garbage = do
    (if pf_id == 0 then i40e_set_swconf commands 0 switch_cfg_promisc else pure tt)
    i40e_configure_filter commands
    i40e_configure_rss commands
    i40e_get_swconf commands fuel
    on_failure (adopt_vsi garbage) (i40e_clear_swconf commands)
