-- ===== src/I40e/VsiSetup.antt =====
-- dev/i40e/i40e_io.c: the commands that set up an interface (VSI), on the interface of I40e/Commands.
pub mod Tables
use ufp.Common.{
  ℕ, zero, suc, ◌+◌, ◌-◌, ◌*◌, ◌/◌, ◌%◌, ◌^◌, ◌==◌, ltb, Bool, true, false, if◌then◌else◌, Option,
  none, some, List, [], ◌∷◌, set, length,
}
use ufp.I40e.{Registers}
use ufp.I40e.Aq.Requests.{
  Vsi, i40e_aqc_req_set_rsskey, i40e_aqc_req_set_rsslut, i40e_aqc_req_update_vsi,
  i40e_aqc_req_get_vsi, i40e_aqc_req_promisc_mode,
}
use ufp.I40e.Commands.{
  Commands, Run, pure, attempt, ◌>>=◌, ◌>>◌, with_session, ask, command, rc_ok, rc_ok_or_esrch,
}
use ufp.I40e.Pf.{i40e_set_rsskey_reg}
use ufp.I40e.Reset.{i40e_set_rsslut_reg}

-- `I40E_AQ_RC_ESRCH`
abbrev pub rc_esrch : ℕ
rc_esrch = 3

-- a write of two bytes into a struct
abbrev set16 : (offset value : ℕ) → List ℕ → List ℕ
set16 offset value bytes =
    set (set bytes offset (value % 2 ^ 8)) (offset + 1) (value / 2 ^ 8 % 2 ^ 8)

-- The loop that looks for the power of 2 that the number of queues fits in; 32 rounds are enough.
unfoldable pub power_from : (fuel pow n : ℕ) → ℕ
power_from zero pow n = pow
power_from (suc fuel) pow n =
    let rest = power_from fuel (suc pow) n in if ltb (2 ^ pow) n then rest else pow

unfoldable pub tc_map : (tc_qps_offset num_qps_tc : ℕ) → ℕ
unfolding power_from
tc_map tc_qps_offset num_qps_tc =
    ((if num_qps_tc == 0 then 0 else tc_qps_offset) + power_from 32 0 num_qps_tc * 2 ^ 9) % 2 ^ 16

-- The traffic classes from `i` on: all queues are in the first.
unfoldable pub set_tc_maps : (n i tc_qps_offset num_qps : ℕ) → List ℕ → List ℕ
unfolding tc_map
set_tc_maps zero i tc_qps_offset num_qps bytes = bytes
set_tc_maps (suc n) i tc_qps_offset num_qps bytes =
    let num_qps_tc = if i == 0 then num_qps else 0 in
    set_tc_maps n (suc i) ((tc_qps_offset + num_qps_tc) % 2 ^ 16) num_qps
      (set16 (62 + 2 * i) (tc_map tc_qps_offset num_qps_tc) bytes)

-- `struct i40e_aq_buf_vsi_data`, of which the function sets `valid_sections`, `port_vlan_flags`,
-- `mapping_flags`, the first `queue_mapping` and each `tc_mapping`; the rest is what the stack held.
unfoldable pub vsi_data : Vsi → (num_qps : ℕ) (garbage : List ℕ) → List ℕ
unfolding set_tc_maps
vsi_data vsi num_qps garbage =
    set_tc_maps 8 0 0 num_qps
      (set16 30 vsi.base_qp (set16 28 0 (set (set16 0 (0x04 + 0x40) garbage) 12 (0x03 + 0x18))))

-- the default seed, from DPDK
abbrev pub seed : List ℕ
seed =
    0x6b793944 ∷ 0x23504cb5 ∷ 0x5bea75b6 ∷ 0x309f4f12 ∷ 0x3dc0a2b8 ∷ 0x024ddcdf ∷ 0x339b8ca0
    ∷ 0x4c4af64a ∷ 0x34fac605 ∷ 0x55d85839 ∷ 0x3a58997d ∷ 0x2ec938e1 ∷ 0x66031581 ∷ []

-- words as their bytes, the lowest first
unfoldable pub bytes_of : List ℕ → List ℕ
bytes_of [] = []
bytes_of (w ∷ ws) =
    (w % 2 ^ 8) ∷ (w / 2 ^ 8 % 2 ^ 8) ∷ (w / 2 ^ 16 % 2 ^ 8) ∷ (w / 2 ^ 24 % 2 ^ 8) ∷ bytes_of ws

-- the entries from `i` on, `i % num_qps` each
unfoldable pub lut_from : (n i num_qps : ℕ) → List ℕ
lut_from zero i num_qps = []
lut_from (suc n) i num_qps = (i % num_qps % 2 ^ 8) ∷ lut_from n (suc i) num_qps

abbrev pub lut_size : ℕ
lut_size = 512

module _ {S : Type 0} (commands : Commands S) (hw : Registers S) where
  -- Where the firmware does not know the command, the key is written to registers, by commands of
  -- their own.
  unfoldable pub i40e_set_rsskey : Vsi → (key : List ℕ) (key_size : ℕ) → Run S (Unit {0})
  i40e_set_rsskey vsi key key_size = with_session commands (λ p. do
    answer ← ask commands rc_ok_or_esrch (i40e_aqc_req_set_rsskey vsi key key_size) p
    (if answer == rc_esrch then i40e_set_rsskey_reg commands key key_size else pure tt))

  unfoldable pub i40e_set_rsslut : Vsi → (lut : List ℕ) (lut_size : ℕ) → Run S (Unit {0})
  i40e_set_rsslut vsi lut lut_size = with_session commands (λ p. do
    answer ← ask commands rc_ok_or_esrch (i40e_aqc_req_set_rsslut vsi lut lut_size) p
    (if answer == rc_esrch then attempt (i40e_set_rsslut_reg hw lut lut_size) else pure tt))

  unfoldable pub i40e_vsi_update : Vsi → (num_qps : ℕ) (garbage : List ℕ) → Run S (Unit {0})
  i40e_vsi_update vsi num_qps garbage =
      command commands rc_ok (i40e_aqc_req_update_vsi vsi (vsi_data vsi num_qps garbage))

  unfoldable pub i40e_vsi_get : Vsi → Run S (Unit {0})
  i40e_vsi_get vsi = command commands rc_ok (i40e_aqc_req_get_vsi vsi)

  -- multicast and broadcast always, unicast where the interface is promiscuous
  unfoldable pub i40e_vsi_promisc_mode : Vsi → (promisc : Bool) → Run S (Unit {0})
  i40e_vsi_promisc_mode vsi promisc =
      command commands rc_ok (i40e_aqc_req_promisc_mode vsi (2 + 4 + (if promisc then 1 else 0)))

  -- `num_qps` is not 0, or the code divides by it
  unfoldable pub i40e_vsi_rss_config : Vsi → (num_qps : ℕ) → Run S (Unit {0})
  i40e_vsi_rss_config vsi num_qps = do
    i40e_set_rsskey vsi (bytes_of seed) (length seed * 4)
    i40e_set_rsslut vsi (lut_from lut_size 0 num_qps) lut_size
