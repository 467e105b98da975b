-- ===== src/Io.antt =====
-- lib/lib_io.c: the descriptor rings and packet buffers of one port. `slot_index` of a ring and the
-- flags of the slots are functions from indices; an index of a slot is not negative.
pub mod Transfer
pub mod Queue
pub mod Slots
pub mod Receive
pub mod Transmit
pub mod Refill
mod Tests
use ufp.Common.{
  ℕ, zero, suc, ◌+◌, ◌-◌, ◌*◌, ◌%◌, ◌^◌, Bool, Option, none, some, ltb, ◌==◌, if◌then◌else◌, update,
}

-- `struct ufp_ring`, with the last value written to the tail register
pub record Ring : Type 0 where
  pub tail : ℕ
  pub next_to_use : ℕ
  pub next_to_clean : ℕ
  pub slot_index : ℕ → ℕ

-- `struct ufp_buf`
pub record Buf : Type 0 where
  pub addr_virt : ℕ
  pub addr_dma : ℕ
  pub slot_size : ℕ
  pub count : ℕ
  pub slots : ℕ → ℕ

-- the fields of `struct ufp_port` that the rings use
pub record Port : Type 0 where
  pub rx_ring : Ring
  pub tx_ring : Ring
  pub num_rx_desc : ℕ
  pub num_tx_desc : ℕ
  pub rx_budget : ℕ
  pub tx_budget : ℕ
  pub rx_slot_next : ℕ
  pub rx_slot_offset : ℕ
  pub tx_suspended : ℕ
  pub count_rx_alloc_failed : ℕ
  pub count_rx_clean_total : ℕ
  pub count_tx_xmit_failed : ℕ
  pub count_tx_clean_total : ℕ

-- `struct ufp_packet`
pub record Packet : Type 0 where
  pub slot_buf : ℕ
  pub slot_size : ℕ
  pub slot_index : ℕ
  pub flag : ℕ

-- The driver's callbacks on descriptors, `struct ufp_ops`. `D` is the memory of the descriptors and
-- the device, which changes it between two calls; a size and a flag are fetched, or nothing (< 0).
pub record RingOps (D : Type 0) : Type 0 where
  pub fill_rx_desc : (index addr_dma : ℕ) → D → D
  pub fetch_rx_desc : (index : ℕ) → D → Option (ℕ × ℕ) × D
  pub fill_tx_desc : (index addr_dma : ℕ) → Packet → D → D
  pub fetch_tx_desc : (index : ℕ) → D → Bool × D

-- In `uint16_t`: 2 ^ 16 is added where the source's `int` may be negative.
unfoldable pub ufp_desc_unused : Ring → ℕ → ℕ
ufp_desc_unused ring num_desc =
    if ltb ring.next_to_use ring.next_to_clean
    then (ring.next_to_clean - ring.next_to_use - 1) % 2 ^ 16
    else (2 ^ 16 + num_desc % 2 ^ 16 + ring.next_to_clean - ring.next_to_use - 1) % 2 ^ 16

unfoldable pub ufp_write_tail : Ring → ℕ → Ring
ufp_write_tail ring value = record ring { tail = value }

unfoldable pub ufp_slot_attach : Ring → ℕ → ℕ → Ring
ufp_slot_attach ring desc_index index = record ring {
  slot_index = update ring.slot_index desc_index index;
}

unfoldable pub ufp_slot_detach : Ring → ℕ → ℕ
ufp_slot_detach ring desc_index = ring.slot_index desc_index

unfoldable pub ufp_slot_release : Buf → ℕ → Buf
ufp_slot_release buf index = record buf { slots = update buf.slots index 0 }

-- `buf->slot_size * slot_index` is a product of 32 bits.
unfoldable pub ufp_slot_addr_dma : Buf → ℕ → ℕ
ufp_slot_addr_dma buf index = buf.addr_dma + (buf.slot_size * index) % 2 ^ 32

-- Here the parameter is a `uint16_t`.
unfoldable pub ufp_slot_addr_virt : Buf → ℕ → ℕ
ufp_slot_addr_virt buf index = buf.addr_virt + (buf.slot_size * (index % 2 ^ 16)) % 2 ^ 32

unfoldable pub ufp_slot_size : Buf → ℕ
ufp_slot_size buf = buf.slot_size

-- the index after `index` in a ring of `num_desc` descriptors
unfoldable pub advance : ℕ → ℕ → ℕ
advance num_desc index = let next = (index + 1) % 2 ^ 16 in if ltb next num_desc then next else 0

abbrev pub is_inflight : ℕ → Bool
is_inflight flags = flags % 2 == 1

-- `flags |= UFP_SLOT_INFLIGHT`
abbrev pub set_inflight : ℕ → ℕ
set_inflight flags = if is_inflight flags then flags else flags + 1

-- the search of `ufp_slot_assign` with `rounds` rounds left: the position of a free slot
unfoldable pub find_slot : (rounds : ℕ) → Buf → (offset slot_next : ℕ) → Option ℕ
find_slot zero buf offset slot_next = none
find_slot (suc rounds) buf offset slot_next =
    let next = if slot_next + 1 == buf.count then 0 else slot_next + 1 in
    let rest = find_slot rounds buf offset next in
    if is_inflight (buf.slots ((offset + slot_next) % 2 ^ 32)) then rest else some slot_next

unfoldable pub ufp_slot_assign : Buf → Port → Option (ℕ × Buf × Port)
ufp_slot_assign buf port = elim (find_slot buf.count buf port.rx_slot_offset port.rx_slot_next) [
  | none ↦ none
  | some slot_next ↦
      let index = (port.rx_slot_offset + slot_next) % 2 ^ 32 in
      some (
        index,
        record buf { slots = update buf.slots index (set_inflight (buf.slots index)) },
        record port { rx_slot_next = if slot_next + 1 == buf.count then 0 else slot_next + 1 },
      )
]

pub record IoState (D : Type 0) : Type 0 where
  pub port : Port
  pub buf : Buf
  pub dev : D

-- a descriptor is filled, its slot attached, and `next_to_use` moves on
unfoldable pub use_desc : Ring → ℕ → ℕ → Ring
use_desc ring num_desc index =
    let ring' = ufp_slot_attach ring ring.next_to_use index in
    record ring' { next_to_use = advance num_desc ring.next_to_use }

unfoldable pub clean_desc : Ring → ℕ → Ring
clean_desc ring num_desc = record ring { next_to_clean = advance num_desc ring.next_to_clean }

-- `unmask_queues` is the driver's callback on the vector of an interrupt.
unfoldable pub ufp_irq_unmask_queues :
    {D : Type 0} → (unmask_queues : (entry_idx : ℕ) → D → D) (entry_idx : ℕ) → IoState D → IoState D
ufp_irq_unmask_queues unmask_queues entry_idx s = record s {
  dev = unmask_queues (entry_idx % 2 ^ 16) s.dev;
}
