-- ===== src/Io/Transfer.antt =====
-- lib/lib_io.c: the functions that move packets between the rings of a port and its client.
use ufp.Common.{
  ℕ, zero, suc, ◌+◌, ◌%◌, ◌^◌, true, false, none, some, List, [], ◌∷◌, ◌==◌, if◌then◌else◌, length,
}
use ufp.Io.{
  Packet, RingOps, IoState, ufp_desc_unused, ufp_write_tail, ufp_slot_detach, ufp_slot_release,
  ufp_slot_addr_dma, ufp_slot_addr_virt, ufp_slot_assign, use_desc, clean_desc,
}

module _ {D : Type 0} (ops : RingOps D) where
  open ops use {fill_rx_desc, fetch_rx_desc, fill_tx_desc, fetch_tx_desc}

  -- the loop of `ufp_rx_assign` with `rounds` descriptors left, and the number it filled
  unfoldable pub fill_rx_ring : (rounds : ℕ) → IoState D → ℕ × IoState D
  fill_rx_ring zero s = (0, s)
  fill_rx_ring (suc rounds) s = elim (ufp_slot_assign s.buf s.port) [
    | none ↦ (
      0,
      record s {
        port = record s.port {
          count_rx_alloc_failed = (s.port.count_rx_alloc_failed + suc rounds) % 2 ^ 64;
        };
      },
    )
    | some (index, buf, port) ↦
        let ring = port.rx_ring in
        let (total, s') = fill_rx_ring rounds (record {
          port = record port { rx_ring = use_desc ring port.num_rx_desc index };
          buf = buf;
          dev = fill_rx_desc ring.next_to_use (ufp_slot_addr_dma buf index) s.dev;
        }) in
        (total + 1, s')
  ]

  abbrev pub write_rx_tail : ℕ → IoState D → IoState D
  write_rx_tail zero s = s
  write_rx_tail (suc total) s =
      let ring = s.port.rx_ring in
      record s { port = record s.port { rx_ring = ufp_write_tail ring ring.next_to_use } }

  unfoldable pub ufp_rx_assign : IoState D → IoState D
  ufp_rx_assign s =
      let (total, s') = fill_rx_ring (ufp_desc_unused s.port.rx_ring s.port.num_rx_desc) s in
      write_rx_tail total s'

  unfoldable pub ufp_tx_assign : Packet → IoState D → IoState D
  ufp_tx_assign packet s =
      let port = s.port in
      let ring = port.tx_ring in
      if ufp_desc_unused ring port.num_tx_desc == 0
      then record s {
        port = record port { count_tx_xmit_failed = (port.count_tx_xmit_failed + 1) % 2 ^ 64 };
        buf = ufp_slot_release s.buf packet.slot_index;
      }
      else record s {
        port = record port {
          tx_ring = use_desc ring port.num_tx_desc packet.slot_index;
          tx_suspended = (port.tx_suspended + 1) % 2 ^ 32;
        };
        dev =
            fill_tx_desc ring.next_to_use (ufp_slot_addr_dma s.buf packet.slot_index) packet s.dev;
      }

  unfoldable pub ufp_tx_xmit : IoState D → IoState D
  ufp_tx_xmit s =
      let ring = s.port.tx_ring in
      if s.port.tx_suspended == 0 then s else record s {
        port = record s.port { tx_ring = ufp_write_tail ring ring.next_to_use; tx_suspended = 0 };
      }

  -- the loop of `ufp_rx_clean` with `rounds` packets left in the budget
  unfoldable pub clean_rx_ring : (rounds : ℕ) → IoState D → List Packet × IoState D
  clean_rx_ring zero s = ([], s)
  clean_rx_ring (suc rounds) s =
      let ring = s.port.rx_ring in
      elim (ring.next_to_clean == ring.next_to_use) [
        | true ↦ ([], s)
        | false ↦
            let (fetched, dev) = fetch_rx_desc ring.next_to_clean s.dev in
            elim fetched [
              | none ↦ ([], record s { dev = dev })
              | some (size, flag) ↦
                  let index = ufp_slot_detach ring ring.next_to_clean in
                  let (packets, s') = clean_rx_ring rounds (record s {
                    port = record s.port { rx_ring = clean_desc ring s.port.num_rx_desc };
                    dev = dev;
                  }) in
                  (
                    record {
                      slot_buf = ufp_slot_addr_virt s.buf index;
                      slot_size = size;
                      slot_index = index;
                      flag = flag;
                    }
                        ∷ packets,
                    s',
                  )
            ]
      ]

  unfoldable pub ufp_rx_clean : IoState D → List Packet × IoState D
  ufp_rx_clean s =
      let (packets, s') = clean_rx_ring s.port.rx_budget s in
      (
        packets,
        record s' {
          port = record s'.port {
            count_rx_clean_total = (s'.port.count_rx_clean_total + length packets) % 2 ^ 64;
          };
        },
      )

  -- the loop of `ufp_tx_clean` with `rounds` packets left, and the number it released
  unfoldable pub clean_tx_ring : (rounds : ℕ) → IoState D → ℕ × IoState D
  clean_tx_ring zero s = (0, s)
  clean_tx_ring (suc rounds) s =
      let ring = s.port.tx_ring in
      elim (ring.next_to_clean == ring.next_to_use) [
        | true ↦ (0, s)
        | false ↦
            let (sent, dev) = fetch_tx_desc ring.next_to_clean s.dev in
            elim sent [
              | false ↦ (0, record s { dev = dev })
              | true ↦
                  let index = ufp_slot_detach ring ring.next_to_clean in
                  let (total, s') = clean_tx_ring rounds (record {
                    port = record s.port { tx_ring = clean_desc ring s.port.num_tx_desc };
                    buf = ufp_slot_release s.buf index;
                    dev = dev;
                  }) in
                  (total + 1, s')
            ]
      ]

  unfoldable pub ufp_tx_clean : IoState D → IoState D
  ufp_tx_clean s =
      let (total, s') = clean_tx_ring s.port.tx_budget s in
      record s' {
        port = record s'.port {
          count_tx_clean_total = (s'.port.count_tx_clean_total + total) % 2 ^ 64;
        };
      }
