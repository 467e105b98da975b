-- ===== src/I40e/Aq/Requests.antt =====
-- dev/i40e/i40e_aqc.c and i40e_aqc.h: the commands that the driver sends. Each
-- `i40e_aqc_req_*` builds the words of its command and calls `i40e_aq_asq_assign` with them and
-- with the address of the session as the cookie; here it builds a `Request`, which `submit` of
-- I40e/Aq/Sessions passes on.
use ufp.Common.{ℕ, ◌+◌, ◌*◌, ◌%◌, ◌^◌, if◌then◌else◌, Bool, Option, none, some, List, [], ◌∷◌}
use ufp.I40e.Aq.{Params, flag_buf, flag_rd}

pub record Request : Type 0 where
  pub opcode : ℕ
  pub flags : ℕ
  pub cmd : Params
  pub bytes : Option (List ℕ)
  pub data_size : ℕ

-- `struct i40e_iface`, less the interrupts and the queues
pub record Vsi : Type 0 where
  pub is_main : Bool
  pub seid : ℕ
  pub id : ℕ
  pub base_qp : ℕ
  pub qs_handles : List ℕ

abbrev pub opc_firmware_version : ℕ
opc_firmware_version = 0x0001

abbrev pub opc_driver_version : ℕ
opc_driver_version = 0x0002

abbrev pub opc_queue_shutdown : ℕ
opc_queue_shutdown = 0x0003

abbrev pub opc_macaddr_read : ℕ
opc_macaddr_read = 0x0107

abbrev pub opc_clear_pxemode : ℕ
opc_clear_pxemode = 0x0110

abbrev pub opc_get_swconf : ℕ
opc_get_swconf = 0x0200

abbrev pub opc_set_swconf : ℕ
opc_set_swconf = 0x0205

abbrev pub opc_rxctl_read : ℕ
opc_rxctl_read = 0x0206

abbrev pub opc_rxctl_write : ℕ
opc_rxctl_write = 0x0207

abbrev pub opc_update_vsi : ℕ
opc_update_vsi = 0x0211

abbrev pub opc_get_vsi : ℕ
opc_get_vsi = 0x0212

abbrev pub opc_promisc_mode : ℕ
opc_promisc_mode = 0x0254

abbrev pub opc_set_phyintmask : ℕ
opc_set_phyintmask = 0x0613

abbrev pub opc_stop_lldp : ℕ
opc_stop_lldp = 0x0A05

abbrev pub opc_set_rsskey : ℕ
opc_set_rsskey = 0x0B02

abbrev pub opc_set_rsslut : ℕ
opc_set_rsslut = 0x0B03

-- `sizeof(struct i40e_aq_buf_vsi_data)`
abbrev pub vsi_data_size : ℕ
vsi_data_size = 128

abbrev words : ℕ → ℕ → ℕ → ℕ → Params
words a b c d = record { param0 = a; param1 = b; param2 = c; param3 = d }

-- a command with no buffer
abbrev direct : (opcode : ℕ) → Params → Request
direct opcode cmd = record { opcode = opcode; flags = 0; cmd = cmd; bytes = none; data_size = 0 }

-- a command whose buffer the firmware reads
abbrev indirect : (opcode : ℕ) → Params → List ℕ → ℕ → Request
indirect opcode cmd bytes data_size = record {
  opcode = opcode;
  flags = flag_buf + flag_rd;
  cmd = cmd;
  bytes = some bytes;
  data_size = data_size;
}

unfoldable pub i40e_aqc_req_firmware_version : Request
i40e_aqc_req_firmware_version = direct opc_firmware_version (words 0 0 0 0)

-- version 1.5.16.0, in the command and as the text "1.5.16.0"
unfoldable pub i40e_aqc_req_driver_version : Request
i40e_aqc_req_driver_version =
    indirect opc_driver_version (words (1 + 5 * 2 ^ 8 + 16 * 2 ^ 16) 0 0 0)
      (b'1' ∷ b'.' ∷ b'5' ∷ b'.' ∷ b'1' ∷ b'6' ∷ b'.' ∷ b'0' ∷ []) 8

unfoldable pub i40e_aqc_req_queue_shutdown : Request
i40e_aqc_req_queue_shutdown = direct opc_queue_shutdown (words 1 0 0 0)

unfoldable pub i40e_aqc_req_macaddr_read : Request
i40e_aqc_req_macaddr_read = record {
  opcode = opc_macaddr_read;
  flags = flag_buf;
  cmd = words 0 0 0 0;
  bytes = none;
  data_size = 0;
}

unfoldable pub i40e_aqc_req_clear_pxemode : Request
i40e_aqc_req_clear_pxemode = direct opc_clear_pxemode (words 2 0 0 0)

-- with the `seid_offset` of the session, or 0
unfoldable pub i40e_aqc_req_get_swconf : (seid_offset : ℕ) → Request
i40e_aqc_req_get_swconf seid_offset = record {
  opcode = opc_get_swconf;
  flags = flag_buf;
  cmd = words (seid_offset % 2 ^ 16) 0 0 0;
  bytes = none;
  data_size = 0;
}

unfoldable pub i40e_aqc_req_set_swconf : (flags valid_flags : ℕ) → Request
i40e_aqc_req_set_swconf flags valid_flags =
    direct opc_set_swconf (words (flags % 2 ^ 16 + valid_flags % 2 ^ 16 * 2 ^ 16) 0 0 0)

unfoldable pub i40e_aqc_req_rxctl_write : (reg_addr reg_val : ℕ) → Request
i40e_aqc_req_rxctl_write reg_addr reg_val =
    direct opc_rxctl_write (words 0 (reg_addr % 2 ^ 32) 0 (reg_val % 2 ^ 32))

unfoldable pub i40e_aqc_req_rxctl_read : (reg_addr : ℕ) → Request
i40e_aqc_req_rxctl_read reg_addr = direct opc_rxctl_read (words 0 (reg_addr % 2 ^ 32) 0 0)

unfoldable pub i40e_aqc_req_update_vsi : Vsi → List ℕ → Request
i40e_aqc_req_update_vsi vsi buf =
    indirect opc_update_vsi (words (vsi.seid % 2 ^ 16) 0 0 0) buf vsi_data_size

-- no data, but its size: the firmware wants that of `struct i40e_aq_buf_vsi_data`
unfoldable pub i40e_aqc_req_get_vsi : Vsi → Request
i40e_aqc_req_get_vsi vsi = record {
  opcode = opc_get_vsi;
  flags = flag_buf;
  cmd = words (vsi.seid % 2 ^ 16) 0 0 0;
  bytes = none;
  data_size = vsi_data_size;
}

-- unicast, multicast and broadcast are the flags that are valid
unfoldable pub i40e_aqc_req_promisc_mode : Vsi → (promisc_flags : ℕ) → Request
i40e_aqc_req_promisc_mode vsi promisc_flags =
    direct opc_promisc_mode
      (words (promisc_flags % 2 ^ 16 + (1 + 2 + 4) * 2 ^ 16) (vsi.seid % 2 ^ 16) 0 0)

unfoldable pub i40e_aqc_req_set_phyintmask : (mask : ℕ) → Request
i40e_aqc_req_set_phyintmask mask = direct opc_set_phyintmask (words 0 0 (mask % 2 ^ 16) 0)

unfoldable pub i40e_aqc_req_stop_lldp : Request
i40e_aqc_req_stop_lldp = direct opc_stop_lldp (words 1 0 0 0)

-- the VSI's number in 10 bits, and the bit that says that it is valid
abbrev pub vsi_id : Vsi → ℕ
vsi_id vsi = vsi.id % 2 ^ 10 + 2 ^ 15

unfoldable pub i40e_aqc_req_set_rsskey : Vsi → (key : List ℕ) (key_size : ℕ) → Request
i40e_aqc_req_set_rsskey vsi key key_size =
    indirect opc_set_rsskey (words (vsi_id vsi) 0 0 0) key key_size

-- the table of the function for the main VSI, and that of the VSI for others
unfoldable pub i40e_aqc_req_set_rsslut : Vsi → (lut : List ℕ) (lut_size : ℕ) → Request
i40e_aqc_req_set_rsslut vsi lut lut_size =
    indirect opc_set_rsslut (words (vsi_id vsi + (if vsi.is_main then 1 else 0) * 2 ^ 16) 0 0 0) lut
      lut_size
