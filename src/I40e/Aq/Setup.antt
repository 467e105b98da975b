-- ===== src/I40e/Aq/Setup.antt =====
-- dev/i40e/i40e_aq.c: the two admin queues from their allocation to their release.
use Prim.Native.Nat.{bit_or}
use ufp.Common.{ℕ, zero, suc, ◌*◌, ◌^◌, ◌==◌, Bool, true, false, Option, none, some, [], update}
use ufp.I40e.{Registers}
use ufp.Dev.Dma.{System, DevBuf, align, ufp_dev_dma_alloc, ufp_dev_dma_free}
use ufp.I40e.Aq.{AqRing, Shared, lower32, upper32, max_aq_buf_size, i40e_aq_arq_assign}
use ufp.I40e.Aq.Requests.{i40e_aqc_req_queue_shutdown}
use ufp.I40e.Aq.Sessions.{Nic, Blocks, i40e_aq_session_create, i40e_aq_session_delete, submit}
use ufp.I40e.Aq.Clean.{i40e_aqc_wait_cmd}

abbrev pub aq_len : ℕ
aq_len = 128

-- `I40E_PF_ATQLEN_ATQENABLE_MASK`, and the same bit for the event queue
abbrev pub enable_mask : ℕ
enable_mask = 2 ^ 31

-- the registers of a queue, in the order of `AqRing`
abbrev pub with_registers : (head tail len bah bal : ℕ) → AqRing → AqRing
with_registers head tail len bah bal ring = record ring {
  head = head;
  tail = tail;
  len = len;
  bah = bah;
  bal = bal;
  num_desc = aq_len;
}

abbrev pub asq_registers : AqRing → AqRing
asq_registers = with_registers 0x00080300 0x00080400 0x00080200 0x00080100 0x00080000

abbrev pub arq_registers : AqRing → AqRing
arq_registers = with_registers 0x00080380 0x00080480 0x00080280 0x00080180 0x00080080

module _ {R : Type 0} (system : System R) (page_size : ℕ) where
  open system use {malloc, free}

  -- The loop over the buffers with the rounds that are left, from the slot `i` on: whether all were
  -- allocated, and the number that were.
  unfoldable pub alloc_bufs : (n i : ℕ) (bufs : ℕ → DevBuf) → R → Bool × ℕ × (ℕ → DevBuf) × R
  alloc_bufs zero i bufs s = (true, i, bufs, s)
  alloc_bufs (suc n) i bufs s =
      let (r, s') = ufp_dev_dma_alloc system page_size max_aq_buf_size s in
      elim r [
        | none ↦ (false, i, bufs, s')
        | some buf ↦ alloc_bufs n (suc i) (update bufs i buf) s'
      ]

  unfoldable pub free_bufs : (n i : ℕ) (bufs : ℕ → DevBuf) → R → R
  free_bufs zero i bufs s = s
  free_bufs (suc n) i bufs s =
      free_bufs n (suc i) bufs (ufp_dev_dma_free system page_size (bufs i) s)

  abbrev pub with_bufs : AqRing → DevBuf → Bool × ℕ × (ℕ → DevBuf) × R → Option AqRing × R
  with_bufs ring desc (true, n, bufs, s) = (some (record ring { desc = desc; bufs = bufs }), s)
  with_bufs ring desc (false, n, bufs, s) =
      (none, ufp_dev_dma_free system page_size desc (free_bufs n 0 bufs s))

  abbrev pub with_desc : AqRing → Option DevBuf × R → Option AqRing × R
  with_desc ring (none, s) = (none, s)
  with_desc ring (some desc, s) = elim (malloc s) [
    | none ↦ (none, ufp_dev_dma_free system page_size desc s)
    | some s' ↦ with_bufs ring desc (alloc_bufs ring.num_desc 0 ring.bufs s')
  ]

  -- a descriptor has 32 bytes; the array of the buffers stays allocated when a buffer is refused
  unfoldable pub i40e_aq_ring_alloc : AqRing → R → Option AqRing × R
  unfolding with_desc with_bufs alloc_bufs free_bufs
  i40e_aq_ring_alloc ring s =
      with_desc (record ring { next_to_use = 0; next_to_clean = 0 })
        (ufp_dev_dma_alloc system page_size (align (ring.num_desc * 32) 4096) s)

  unfoldable pub i40e_aq_ring_release : AqRing → R → R
  unfolding free_bufs
  i40e_aq_ring_release ring s =
      ufp_dev_dma_free system page_size ring.desc (free (free_bufs ring.num_desc 0 ring.bufs s))

  module _ (hw : Registers R) (mem : Shared R) where
    open hw use {read32, write32}

    -- `i40e_aq_asq_configure`, and `i40e_aq_arq_configure`: the device keeps the address, or it
    -- has not taken the queue
    unfoldable pub configure : AqRing → R → Bool × R
    configure ring s =
        let s₁ = write32 ring.tail 0 (write32 ring.head 0 s) in
        let s₂ = write32 ring.len (bit_or ring.num_desc enable_mask) s₁ in
        let s₃ = write32 ring.bal (lower32 ring.desc.addr_dma) s₂ in
        let s₄ = write32 ring.bah (upper32 ring.desc.addr_dma) s₃ in
        let (reg, s₅) = read32 ring.bal s₄ in (reg == lower32 ring.desc.addr_dma, s₅)

    abbrev pub configured : AqRing → Bool × R → Option AqRing × R
    configured ring (true, s) = (some ring, s)
    configured ring (false, s) = (none, free (i40e_aq_ring_release ring s))

    abbrev pub allocated : Option AqRing × R → Option AqRing × R
    allocated (none, s) = (none, free s)
    allocated (some ring, s) = configured ring (configure ring s)

    -- the common part of `i40e_aq_asq_init` and `i40e_aq_arq_init`
    unfoldable pub ring_init : AqRing → R → Option AqRing × R
    unfolding allocated configured
    ring_init ring s = elim (malloc s) [
      | none ↦ (none, s)
      | some s' ↦ allocated (i40e_aq_ring_alloc ring s')
    ]

    -- `blank` is what the struct holds when it is allocated.
    unfoldable pub i40e_aq_asq_init : (blank : AqRing) → R → Option AqRing × R
    unfolding ring_init
    i40e_aq_asq_init blank s = ring_init (asq_registers blank) s

    abbrev pub with_events : Option AqRing × R → Option AqRing × R
    with_events (none, s) = (none, s)
    with_events (some ring, s) =
        let (ring', s') = i40e_aq_arq_assign hw mem ring s in (some ring', s')

    unfoldable pub i40e_aq_arq_init : (blank : AqRing) → R → Option AqRing × R
    unfolding ring_init with_events
    i40e_aq_arq_init blank s = with_events (ring_init (arq_registers blank) s)

    -- `i40e_aq_asq_shutdown`, and `i40e_aq_arq_shutdown`
    unfoldable pub shutdown : AqRing → R → R
    shutdown ring s =
        let s₁ = write32 ring.len 0 (write32 ring.tail 0 (write32 ring.head 0 s)) in
        free (i40e_aq_ring_release ring (write32 ring.bah 0 (write32 ring.bal 0 s₁)))

    abbrev pub with_arq : (asq : AqRing) → Nic R → Option AqRing × R → Bool × Nic R
    with_arq asq nic (none, s) = (false, record nic { tx_ring = asq; machine = shutdown asq s })
    with_arq asq nic (some arq, s) =
        (true, record nic { tx_ring = asq; rx_ring = arq; session = []; machine = s })

    abbrev pub with_asq : (blank : AqRing) → Nic R → Option AqRing × R → Bool × Nic R
    with_asq blank nic (none, s) = (false, record nic { machine = s })
    with_asq blank nic (some asq, s) = with_arq asq nic (i40e_aq_arq_init blank s)

    unfoldable pub i40e_aq_init : (blank : AqRing) → Nic R → Bool × Nic R
    unfolding with_asq with_arq i40e_aq_asq_init i40e_aq_arq_init shutdown
    i40e_aq_init blank nic = with_asq blank nic (i40e_aq_asq_init blank nic.machine)

    abbrev pub shutdown_both : Nic R → Nic R
    shutdown_both nic = record nic {
      machine = shutdown nic.rx_ring (shutdown nic.tx_ring nic.machine);
    }

    module _ (heap : Blocks R) where
      abbrev pub waited : (p : ℕ) → Option (Bool × Nic R) → Option (Nic R)
      waited p none = none
      waited p (some (answered, nic)) = some (shutdown_both (i40e_aq_session_delete heap p nic))

      abbrev pub with_shutdown : (fuel : ℕ) → Option ℕ × Nic R → Option (Nic R)
      with_shutdown fuel (none, nic) = some (shutdown_both nic)
      with_shutdown fuel (some p, nic) =
          waited p (
            i40e_aqc_wait_cmd hw mem malloc fuel p
              (submit hw mem i40e_aqc_req_queue_shutdown p nic))

      -- The queues are shut down whatever the firmware answers.
      unfoldable pub i40e_aq_destroy : (fuel garbage : ℕ) → Nic R → Option (Nic R)
      unfolding with_shutdown waited shutdown_both
      i40e_aq_destroy fuel garbage nic =
          with_shutdown fuel (i40e_aq_session_create heap garbage nic)
