-- ===== src/I40e/Aq/Responses.antt =====
-- dev/i40e/i40e_aqc.c: the answers of the firmware, which the driver takes when it cleans the send
-- queue. The words of a command lie in its descriptor; a larger answer lies in the slot's buffer.
use ufp.Common.{
  ℕ, zero, suc, ◌+◌, ◌/◌, ◌*◌, ◌%◌, ◌^◌, ◌==◌, if◌then◌else◌, Bool, true, false, Option, none, some,
  List, [], ◌∷◌, ◌++◌,
}
use mathlib.Core.Option
use ufp.I40e.{Registers, test_bit}
use ufp.I40e.Aq.{Params, AqDesc, Shared}
use ufp.I40e.Aq.Requests.{
  Vsi, opc_firmware_version, opc_macaddr_read, opc_clear_pxemode, opc_get_swconf, opc_rxctl_read,
  opc_get_vsi,
}
use ufp.I40e.Aq.Sessions.{
  Session, Elem, Nic, change, set_retval, set_read_val, set_seid_offset, failed_answer,
}

abbrev pub gllan_rctl_0 : ℕ
gllan_rctl_0 = 0x0012A500

-- `I40E_AQC_PORT_ADDR_VALID`, 0x40
abbrev pub port_addr_valid_shift : ℕ
port_addr_valid_shift = 6

abbrev low16 : ℕ → ℕ
low16 x = x % 2 ^ 16

abbrev high16 : ℕ → ℕ
high16 x = x / 2 ^ 16 % 2 ^ 16

-- the write to a session that may be `NULL`
unfoldable pub tell : {R : Type 0} → Option ℕ → (Session → Session) → Nic R → Nic R
tell none f nic = nic
tell (some p) f nic = record nic { session = change p f nic.session }

unfoldable pub i40e_aqc_resp_firmware_version : {R : Type 0} → Params → Nic R → Nic R
i40e_aqc_resp_firmware_version cmd nic = record nic {
  version = record {
    fw_major = low16 cmd.param2;
    fw_minor = high16 cmd.param2;
    fw_build = cmd.param1;
    api_major = low16 cmd.param3;
    api_minor = high16 cmd.param3;
  };
}

unfoldable pub i40e_aqc_resp_rxctl_read : {R : Type 0} → Params → Option ℕ → Nic R → Nic R
i40e_aqc_resp_rxctl_read cmd session nic = tell session (set_read_val cmd.param3) nic

-- the first interface with the `seid` gets the handles
unfoldable pub set_handles : (seid : ℕ) → (handles : List ℕ) → List Vsi → Option (List Vsi)
set_handles seid handles [] = none
set_handles seid handles (vsi ∷ rest) =
    let later = Option.map (λ rest'. vsi ∷ rest') (set_handles seid handles rest) in
    if vsi.seid == seid then some (record vsi { qs_handles = handles } ∷ rest) else later

module _ {R : Type 0} (hw : Registers R) (mem : Shared R) (malloc : R → Option R) where
  open hw use {write32}
  open mem use {load_byte}

  abbrev load16 : ℕ → R → ℕ
  load16 addr s = load_byte addr s + load_byte (addr + 1) s * 2 ^ 8

  unfoldable pub load_bytes : (addr n : ℕ) → R → List ℕ
  load_bytes addr zero s = []
  load_bytes addr (suc n) s = load_byte addr s ∷ load_bytes (addr + 1) n s

  unfoldable pub load_words : (addr n : ℕ) → R → List ℕ
  load_words addr zero s = []
  load_words addr (suc n) s = load16 addr s ∷ load_words (addr + 2) n s

  unfoldable pub i40e_aqc_resp_macaddr_read :
      (cmd : Params) (buf : ℕ) (session : Option ℕ) → Nic R → Nic R
  unfolding load_bytes tell
  i40e_aqc_resp_macaddr_read cmd buf session nic =
      if test_bit (low16 cmd.param0) port_addr_valid_shift
      then record nic { pf_lan_mac = load_bytes buf 6 nic.machine }
      else tell session (set_retval failed_answer) nic

  unfoldable pub i40e_aqc_resp_clear_pxemode : Nic R → Nic R
  i40e_aqc_resp_clear_pxemode nic = record nic { machine = write32 gllan_rctl_0 1 nic.machine }

  -- `struct i40e_aq_buf_get_swconf_elem`, of 16 bytes
  unfoldable pub load_elem : (addr : ℕ) → R → Elem
  load_elem addr s = record {
    element_type = load_byte addr s;
    seid = load16 (addr + 2) s;
    seid_uplink = load16 (addr + 4) s;
    seid_downlink = load16 (addr + 6) s;
    element_info = load16 (addr + 14) s;
  }

  -- The loop of `i40e_aqc_resp_get_swconf`, which ends where the heap has no room. The number of
  -- elements is the firmware's, and is not compared with the size of the buffer.
  unfoldable pub add_elems : (n addr : ℕ) → List Elem → R → Bool × List Elem × R
  unfolding load_elem
  add_elems zero addr elems s = (true, elems, s)
  add_elems (suc n) addr elems s = elim (malloc s) [
    | none ↦ (false, elems, s)
    | some s' ↦ add_elems n (addr + 16) (elems ++ load_elem addr s' ∷ []) s'
  ]

  abbrev pub take_elems : (cmd : Params) → Option ℕ → Nic R → Bool × List Elem × R → Nic R
  take_elems cmd session nic (true, elems, s) =
      tell session (set_seid_offset (low16 cmd.param0)) (record nic { elem = elems; machine = s })
  take_elems cmd session nic (false, elems, s) =
      tell session (set_retval failed_answer) (record nic { elem = elems; machine = s })

  unfoldable pub i40e_aqc_resp_get_swconf :
      (cmd : Params) (buf : ℕ) (session : Option ℕ) → Nic R → Nic R
  unfolding add_elems tell take_elems
  i40e_aqc_resp_get_swconf cmd buf session nic =
      take_elems cmd session nic
        (add_elems (load16 buf nic.machine) (buf + 16) nic.elem nic.machine)

  abbrev pub take_handles : Option ℕ → Nic R → Option (List Vsi) → Nic R
  take_handles session nic none = tell session (set_retval failed_answer) nic
  take_handles session nic (some vsis) = record nic { iface = vsis }

  -- the handles lie behind the 96 bytes that the driver writes
  unfoldable pub i40e_aqc_resp_get_vsi :
      (cmd : Params) (buf : ℕ) (session : Option ℕ) → Nic R → Nic R
  unfolding set_handles load_words tell take_handles
  i40e_aqc_resp_get_vsi cmd buf session nic =
      take_handles session nic
        (set_handles (low16 cmd.param0) (load_words (buf + 96) 8 nic.machine) nic.iface)

  -- the `switch` of `i40e_aq_asq_process`
  unfoldable pub dispatch : AqDesc → (buf : ℕ) → Option ℕ → Nic R → Nic R
  dispatch desc buf session nic =
      if desc.opcode == opc_firmware_version
      then i40e_aqc_resp_firmware_version desc.params nic
      else if desc.opcode == opc_macaddr_read
      then i40e_aqc_resp_macaddr_read desc.params buf session nic
      else if desc.opcode == opc_clear_pxemode
      then i40e_aqc_resp_clear_pxemode nic
      else if desc.opcode == opc_get_swconf
      then i40e_aqc_resp_get_swconf desc.params buf session nic
      else if desc.opcode == opc_rxctl_read
      then i40e_aqc_resp_rxctl_read desc.params session nic
      else if desc.opcode == opc_get_vsi
      then i40e_aqc_resp_get_vsi desc.params buf session nic
      else nic

  unfoldable pub i40e_aq_asq_process : AqDesc → (buf : ℕ) → Option ℕ → Nic R → Nic R
  i40e_aq_asq_process desc buf session nic =
      let nic' = tell session (set_retval desc.retval) nic in
      if desc.retval == 0 then dispatch desc buf session nic' else nic'
