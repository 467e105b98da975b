-- ===== src/I40e/Contexts.antt =====
-- dev/i40e/i40e_io.c: the contexts that the queues of an interface get.
use Prim.Native.Nat.{bit_or}
use ufp.Common.{
  ℕ, zero, suc, ◌+◌, ◌-◌, ◌*◌, ◌/◌, ◌%◌, ◌^◌, ltb, ◌==◌, not, ◌&&◌, Bool, true, false,
  if◌then◌else◌, update,
}
use ufp.I40e.{Registers}
use ufp.I40e.Aq.Requests.{Vsi}
use ufp.I40e.Irq.{i40e_flush}
use ufp.I40e.Hmc.{Hmc}
use ufp.I40e.Hmc.Context.{CtxRx, CtxTx, i40e_hmc_set_ctx_rx, i40e_hmc_set_ctx_tx}

-- what the functions read of `struct ufp_iface` and of its rings
pub record IfaceConfig : Type 0 where
  pub vsi : Vsi
  pub num_qps : ℕ
  pub num_rx_desc : ℕ
  pub num_tx_desc : ℕ
  pub buf_size : ℕ
  pub mtu_frame : ℕ
  pub irq_rate : ℕ
  pub promisc : Bool
  pub rx_addr_dma : ℕ → ℕ
  pub tx_addr_dma : ℕ → ℕ

abbrev pub qtx_ctl : ℕ → ℕ
qtx_ctl queue = 0x00104000 + queue * 4

abbrev pub qtx_tail : ℕ → ℕ
qtx_tail queue = 0x00108000 + queue * 4

abbrev pub qrx_tail : ℕ → ℕ
qrx_tail queue = 0x00128000 + queue * 4

abbrev pub qtx_ctl_pf_queue : ℕ
qtx_ctl_pf_queue = 2

abbrev pub min_rx_buffer : ℕ
min_rx_buffer = 1024

abbrev pub max_rx_buffer : ℕ
max_rx_buffer = 16 * 1024 - 128

abbrev pub max_chained_rx_buffers : ℕ
max_chained_rx_buffers = 5

abbrev pub max_mtu : ℕ
max_mtu = 9728

-- `handle` is the first handle that the firmware gave for the interface
unfoldable pub tx_context : (addr_dma num_tx_desc handle : ℕ) → CtxTx
tx_context addr_dma num_tx_desc handle = record {
  head = 0;
  new_context = 1;
  base = addr_dma / 128;
  fc_en = 0;
  timesync_en = 0;
  fd_en = 0;
  alt_vlan_en = 0;
  thead_wb = 0;
  cpuid = 0;
  head_wb_en = 0;
  qlen = num_tx_desc % 2 ^ 16;
  tphrdesc_en = 1;
  tphrpkt_en = 1;
  tphwdesc_en = 1;
  headwb_addr = 0;
  crc = 0;
  rdylist = handle;
  rdylist_act = 0;
}

unfoldable pub rx_context : (addr_dma num_rx_desc buf_size mtu_frame : ℕ) → CtxRx
rx_context addr_dma num_rx_desc buf_size mtu_frame = record {
  head = 0;
  cpuid = 0;
  base = addr_dma / 128;
  qlen = num_rx_desc % 2 ^ 16;
  dbuff = buf_size / 2 ^ 7 % 2 ^ 16;
  hbuff = 0;
  dtype = 0;
  dsize = 0;
  crcstrip = 1;
  fc_en = 0;
  l2tsel = 1;
  hsplit_0 = 0;
  hsplit_1 = 0;
  showiv = 0;
  rxmax = mtu_frame;
  tphrdesc_en = 1;
  tphwdesc_en = 1;
  tphdata_en = 1;
  tphhead_en = 0;
  lrxqthresh = 2;
  pref_en = 1;
}

-- the tests of the size of a buffer and of the longest frame
unfoldable pub is_buf_size : ℕ → Bool
is_buf_size buf_size =
    (buf_size % 2 ^ 7 == 0) && not (ltb buf_size min_rx_buffer) && not (ltb max_rx_buffer buf_size)

unfoldable pub is_mtu_size : (buf_size mtu_frame : ℕ) → Bool
is_mtu_size buf_size mtu_frame =
    let chained = max_chained_rx_buffers * buf_size in
    not (ltb (if ltb max_mtu chained then max_mtu else chained) mtu_frame)

-- The memory of the machine as a function from addresses to bytes.
module _ {S : Type 0} (hw : Registers S) (bytes : S → ℕ → ℕ) (set_bytes : (ℕ → ℕ) → S → S) where
  open hw use {write32}

  abbrev pub written_ctx : S → Bool × (ℕ → ℕ) → Bool × S
  written_ctx s (ok, m) = (ok, set_bytes m s)

  abbrev pub give_tx : (pf_id qp_idx i : ℕ) (tails : ℕ → ℕ) → Bool × S → Bool × (ℕ → ℕ) × S
  give_tx pf_id qp_idx i tails (false, s) = (false, tails, s)
  give_tx pf_id qp_idx i tails (true, s) =
      let ctl = bit_or qtx_ctl_pf_queue (pf_id % 2 ^ 4 * 2 ^ 2) in
      (true, update tails i (qtx_tail qp_idx), i40e_flush hw (write32 (qtx_ctl qp_idx) ctl s))

  -- The loop over the queues from `i` on, with the rounds that are left. `tails` are the registers
  -- that the rings keep for the tail.
  unfoldable pub configure_tx_from :
      (n i pf_id handle : ℕ) → Hmc → IfaceConfig → (tails : ℕ → ℕ) → S → Bool × (ℕ → ℕ) × S
  unfolding give_tx tx_context
  configure_tx_from zero i pf_id handle hmc iface tails s = (true, tails, s)
  configure_tx_from (suc n) i pf_id handle hmc iface tails s =
      let qp_idx = (iface.vsi.base_qp + i) % 2 ^ 16 in
      let ctx = tx_context (iface.tx_addr_dma i) iface.num_tx_desc handle in
      let (ok, tails', s') =
        give_tx pf_id qp_idx i tails
          (written_ctx s (i40e_hmc_set_ctx_tx hmc ctx qp_idx (bytes s))) in
      let next = configure_tx_from n (suc i) pf_id handle hmc iface tails' s' in
      if ok then next else (false, tails', s')

  unfoldable pub i40e_vsi_configure_tx :
      (pf_id handle : ℕ) → Hmc → IfaceConfig → (tails : ℕ → ℕ) → S → Bool × (ℕ → ℕ) × S
  unfolding configure_tx_from
  i40e_vsi_configure_tx pf_id handle hmc iface tails s =
      configure_tx_from iface.num_qps 0 pf_id handle hmc iface tails s

  abbrev pub give_rx : (qp_idx i : ℕ) (tails : ℕ → ℕ) → Bool × S → Bool × (ℕ → ℕ) × S
  give_rx qp_idx i tails (false, s) = (false, tails, s)
  give_rx qp_idx i tails (true, s) =
      (true, update tails i (qrx_tail qp_idx), write32 (qrx_tail qp_idx) 0 s)

  unfoldable pub configure_rx_from :
      (n i : ℕ) → Hmc → IfaceConfig → (tails : ℕ → ℕ) → S → Bool × (ℕ → ℕ) × S
  unfolding give_rx rx_context is_buf_size is_mtu_size
  configure_rx_from zero i hmc iface tails s = (true, tails, s)
  configure_rx_from (suc n) i hmc iface tails s =
      let qp_idx = (iface.vsi.base_qp + i) % 2 ^ 16 in
      let ctx = rx_context (iface.rx_addr_dma i) iface.num_rx_desc iface.buf_size iface.mtu_frame in
      let (ok, tails', s') =
        if is_buf_size iface.buf_size && is_mtu_size iface.buf_size iface.mtu_frame
        then give_rx qp_idx i tails (written_ctx s (i40e_hmc_set_ctx_rx hmc ctx qp_idx (bytes s)))
        else (false, tails, s) in
      let next = configure_rx_from n (suc i) hmc iface tails' s' in
      if ok then next else (false, tails', s')

  unfoldable pub i40e_vsi_configure_rx :
      Hmc → IfaceConfig → (tails : ℕ → ℕ) → S → Bool × (ℕ → ℕ) × S
  unfolding configure_rx_from
  i40e_vsi_configure_rx hmc iface tails s = configure_rx_from iface.num_qps 0 hmc iface tails s
