-- ===== src/I40e/Hmc.antt =====
-- dev/i40e/i40e_hmc.c: the memory of the host that the device keeps the contexts of queues in (HMC).
-- It is a table of segments (SD) with 512 pages each, in which a context has an address of its own
-- (FPM).
pub mod Context
pub mod Address
pub mod Kept
pub mod Pages
pub mod Segments
mod Tests
use Prim.Native.Nat.{bit_or}
use ufp.Common.{
  ℕ, zero, suc, ◌+◌, ◌-◌, ◌*◌, ◌/◌, ◌%◌, ◌^◌, ltb, Bool, true, false, if◌then◌else◌, Option, none,
  some, update,
}
use ufp.I40e.{Registers}
use ufp.I40e.Aq.{lower32, upper32}
use ufp.Dev.Dma.{System, DevBuf, align, ufp_dev_dma_alloc, ufp_dev_dma_free}

abbrev pub max_bp_count : ℕ
max_bp_count = 512

abbrev pub direct_bp_size : ℕ
direct_bp_size = 0x200000

abbrev pub paged_bp_size : ℕ
paged_bp_size = 4096

abbrev pub l2obj_base_alignment : ℕ
l2obj_base_alignment = 512

pub record HmcObj : Type 0 where
  pub base : ℕ
  pub count : ℕ
  pub size : ℕ

pub record SdEntry : Type 0 where
  pub pd_addrs : DevBuf
  pub pd : ℕ → DevBuf

pub record Hmc : Type 0 where
  pub obj_tx : HmcObj
  pub obj_rx : HmcObj
  pub sd_count : ℕ
  pub sd_entry : ℕ → SdEntry

abbrev pub glhmc_lanqmax : ℕ
glhmc_lanqmax = 0x000C2008

abbrev pub glhmc_lantxobjsz : ℕ
glhmc_lantxobjsz = 0x000C2004

abbrev pub glhmc_lanrxobjsz : ℕ
glhmc_lanrxobjsz = 0x000C200C

abbrev pub glhmc_lantxbase : ℕ → ℕ
glhmc_lantxbase i = 0x000C6200 + i * 4

abbrev pub glhmc_lantxcnt : ℕ → ℕ
glhmc_lantxcnt i = 0x000C6300 + i * 4

abbrev pub glhmc_lanrxbase : ℕ → ℕ
glhmc_lanrxbase i = 0x000C6400 + i * 4

abbrev pub glhmc_lanrxcnt : ℕ → ℕ
glhmc_lanrxcnt i = 0x000C6500 + i * 4

abbrev pub pfhmc_sdcmd : ℕ
pfhmc_sdcmd = 0x000C0000

abbrev pub pfhmc_sddatalow : ℕ
pfhmc_sddatalow = 0x000C0100

abbrev pub pfhmc_sddatahigh : ℕ
pfhmc_sddatahigh = 0x000C0200

abbrev pub pfhmc_pdinv : ℕ
pfhmc_pdinv = 0x000C0300

-- The sizes and the bases of the contexts, from what the device says of them. The number of
-- segments is that of one context of either kind.
unfoldable pub hmc_layout : (queue_max tx_shift rx_shift : ℕ) → (ℕ → SdEntry) → Hmc
hmc_layout queue_max tx_shift rx_shift garbage =
    let obj_size_tx = 2 ^ tx_shift % 2 ^ 64 in
    let obj_size_rx = 2 ^ rx_shift % 2 ^ 64 in
    record {
      obj_tx = record { base = 0; count = queue_max; size = obj_size_tx };
      obj_rx = record {
        base = align (queue_max * obj_size_tx % 2 ^ 64) l2obj_base_alignment % 2 ^ 64;
        count = queue_max;
        size = obj_size_rx;
      };
      sd_count =
          (obj_size_tx + obj_size_rx + direct_bp_size - 1) % 2 ^ 64 / direct_bp_size % 2 ^ 32;
      sd_entry = garbage;
    }

-- The page of a context and the offset in it, or `none` where there is no such segment.
unfoldable pub i40e_hmc_va : Hmc → HmcObj → (qp_idx : ℕ) → Option ℕ
i40e_hmc_va hmc obj qp_idx =
    let addr_fpm = (qp_idx * obj.size + obj.base) % 2 ^ 64 in
    let page_idx = addr_fpm / paged_bp_size % 2 ^ 32 in
    let sd_idx = page_idx / max_bp_count in
    let pd_idx = page_idx % max_bp_count in
    let offset = addr_fpm % paged_bp_size in
    if ltb sd_idx hmc.sd_count
    then some (((hmc.sd_entry sd_idx).pd pd_idx).addr_virt + offset)
    else none

module _ {R : Type 0} (hw : Registers R) where
  open hw use {read32, write32}

  -- for segments of the paged type, the only one that is used
  unfoldable pub i40e_set_pf_sd_entry : (pa sd_index : ℕ) → R → R
  i40e_set_pf_sd_entry pa sd_index s =
      let val2 = bit_or (bit_or (lower32 pa) (max_bp_count * 2 ^ 2)) 1 in
      let s₁ = write32 pfhmc_sddatalow val2 (write32 pfhmc_sddatahigh (upper32 pa) s) in
      write32 pfhmc_sdcmd (bit_or sd_index (2 ^ 31)) s₁

  unfoldable pub i40e_clear_pf_sd_entry : (sd_index : ℕ) → R → R
  i40e_clear_pf_sd_entry sd_index s =
      let s₁ = write32 pfhmc_sddatalow (max_bp_count * 2 ^ 2) (write32 pfhmc_sddatahigh 0 s) in
      write32 pfhmc_sdcmd (bit_or sd_index (2 ^ 31)) s₁

  module _ (system : System R) (page_size : ℕ) (store64 : (addr value : ℕ) → R → R) where
    open system use {malloc, free}

    -- The pages of a segment with the rounds that are left: whether all were allocated, and the
    -- number that were. An address is stored with its valid bit.
    unfoldable pub alloc_pds : (n i addr : ℕ) (pd : ℕ → DevBuf) → R → Bool × ℕ × (ℕ → DevBuf) × R
    alloc_pds zero i addr pd s = (true, i, pd, s)
    alloc_pds (suc n) i addr pd s =
        let (r, s') = ufp_dev_dma_alloc system page_size paged_bp_size s in
        elim r [
          | none ↦ (false, i, pd, s')
          | some buf ↦
              alloc_pds n (suc i) addr (update pd i buf)
                (store64 (addr + 8 * i) (bit_or buf.addr_dma 1) s')
        ]

    unfoldable pub free_pds : (n i : ℕ) (pd : ℕ → DevBuf) → R → R
    free_pds zero i pd s = s
    free_pds (suc n) i pd s = free_pds n (suc i) pd (ufp_dev_dma_free system page_size (pd i) s)

    abbrev pub with_pds :
        (pd_addrs : DevBuf) (sd_index : ℕ) → Bool × ℕ × (ℕ → DevBuf) × R → Option SdEntry × R
    with_pds pd_addrs sd_index (true, n, pd, s) = (
      some (record { pd_addrs = pd_addrs; pd = pd }),
      i40e_set_pf_sd_entry pd_addrs.addr_dma sd_index s,
    )
    with_pds pd_addrs sd_index (false, n, pd, s) =
        (none, ufp_dev_dma_free system page_size pd_addrs (free_pds n 0 pd s))

    abbrev pub with_pd_addrs :
        (garbage : ℕ → DevBuf) (sd_index : ℕ) → Option DevBuf × R → Option SdEntry × R
    with_pd_addrs garbage sd_index (none, s) = (none, s)
    with_pd_addrs garbage sd_index (some pd_addrs, s) =
        with_pds pd_addrs sd_index (alloc_pds max_bp_count 0 pd_addrs.addr_virt garbage s)

    unfoldable pub i40e_hmc_sd_allocate :
        (garbage : ℕ → DevBuf) (sd_index : ℕ) → R → Option SdEntry × R
    unfolding with_pd_addrs with_pds alloc_pds free_pds
    i40e_hmc_sd_allocate garbage sd_index s =
        with_pd_addrs garbage sd_index (ufp_dev_dma_alloc system page_size paged_bp_size s)

    -- the loop of `i40e_hmc_sd_release`
    unfoldable pub release_pds : (n i sd_index : ℕ) (pd : ℕ → DevBuf) → R → R
    release_pds zero i sd_index pd s = s
    release_pds (suc n) i sd_index pd s = release_pds n (suc i) sd_index pd (
        ufp_dev_dma_free system page_size (pd i)
          (write32 pfhmc_pdinv (bit_or sd_index (i * 2 ^ 16)) s))

    unfoldable pub i40e_hmc_sd_release : SdEntry → (sd_index : ℕ) → R → R
    unfolding release_pds
    i40e_hmc_sd_release sd sd_index s =
        ufp_dev_dma_free system page_size sd.pd_addrs
          (release_pds max_bp_count 0 sd_index sd.pd (i40e_clear_pf_sd_entry sd_index s))

    -- the loops over the segments, from the segment `i` on with the rounds that are left
    unfoldable pub release_sds : (n i : ℕ) (sd_entry : ℕ → SdEntry) → R → R
    release_sds zero i sd_entry s = s
    release_sds (suc n) i sd_entry s =
        release_sds n (suc i) sd_entry (i40e_hmc_sd_release (sd_entry i) i s)

    unfoldable pub alloc_sds : (n i : ℕ) (sd_entry : ℕ → SdEntry) → R → Bool × ℕ × (ℕ → SdEntry) × R
    alloc_sds zero i sd_entry s = (true, i, sd_entry, s)
    alloc_sds (suc n) i sd_entry s =
        let (r, s') = i40e_hmc_sd_allocate (sd_entry i).pd i s in
        elim r [
          | none ↦ (false, i, sd_entry, s')
          | some sd ↦ alloc_sds n (suc i) (update sd_entry i sd) s'
        ]

    abbrev pub program_segments : (pf_id : ℕ) → Hmc → R → R
    program_segments pf_id hmc s =
        let s₁ = write32 (glhmc_lantxbase pf_id) (hmc.obj_tx.base % 2 ^ 24 / 512) s in
        let s₂ = write32 (glhmc_lantxcnt pf_id) hmc.obj_tx.count s₁ in
        let s₃ = write32 (glhmc_lanrxbase pf_id) (hmc.obj_rx.base % 2 ^ 24 / 512) s₂ in
        write32 (glhmc_lanrxcnt pf_id) hmc.obj_rx.count s₃

    abbrev pub with_sds : (pf_id : ℕ) → Hmc → Bool × ℕ × (ℕ → SdEntry) × R → Option Hmc × R
    with_sds pf_id hmc (true, n, sd_entry, s) =
        (some (record hmc { sd_entry = sd_entry }), program_segments pf_id hmc s)
    with_sds pf_id hmc (false, n, sd_entry, s) = (none, release_sds n 0 sd_entry s)

    unfoldable pub i40e_hmc_configure : (pf_id : ℕ) → Hmc → R → Option Hmc × R
    unfolding with_sds alloc_sds release_sds
    i40e_hmc_configure pf_id hmc s = with_sds pf_id hmc (alloc_sds hmc.sd_count 0 hmc.sd_entry s)

    unfoldable pub i40e_hmc_shutdown : Hmc → R → R
    unfolding release_sds
    i40e_hmc_shutdown hmc s = release_sds hmc.sd_count 0 hmc.sd_entry s

    abbrev pub configured_or_freed : Option Hmc × R → Option Hmc × R
    configured_or_freed (none, s) = (none, free s)
    configured_or_freed (some hmc, s) = (some hmc, s)

    unfoldable pub i40e_hmc_init : (pf_id : ℕ) (garbage : ℕ → SdEntry) → R → Option Hmc × R
    unfolding configured_or_freed hmc_layout
    i40e_hmc_init pf_id garbage s =
        let (queue_max, s₁) = read32 glhmc_lanqmax s in
        let (tx_shift, s₂) = read32 glhmc_lantxobjsz s₁ in
        let (rx_shift, s₃) = read32 glhmc_lanrxobjsz s₂ in
        elim (malloc s₃) [
          | none ↦ (none, s₃)
          | some s₄ ↦
              configured_or_freed
                (i40e_hmc_configure pf_id (hmc_layout queue_max tx_shift rx_shift garbage) s₄)
        ]

    unfoldable pub i40e_hmc_destroy : Hmc → R → R
    unfolding i40e_hmc_shutdown
    i40e_hmc_destroy hmc s = free (i40e_hmc_shutdown hmc s)
