-- ===== src/Io/Tests.antt =====
-- lib/lib_io.c: a port with rings of four descriptors and a buffer of three slots.
use ufp.Common.{
  ℕ, ◌+◌, ◌-◌, ◌%◌, ◌^◌, ◌<◌, ◌≤◌, ◌≡◌, ◌↔◌, ◌⊎◌, refl, true, none, some, List, [], ◌∷◌, ◌++◌, ◌==◌,
  if◌then◌else◌, arith, length, All, map,
}
use ufp.Io.{
  Ring, Buf, Port, Packet, RingOps, IoState, ufp_desc_unused, ufp_slot_assign, ufp_slot_release,
  is_inflight, ufp_slot_size, ufp_irq_unmask_queues,
}
use ufp.Io.Transfer.{ufp_rx_assign, ufp_rx_clean, ufp_tx_assign, ufp_tx_xmit, ufp_tx_clean}
use ufp.Io.Queue.{IsRing, occupied, rx_pending, tx_pending, ufp_desc_unused-occupied}
use ufp.Io.Slots.{IsAssigned, AllTaken, ufp_slot_assign-none, ufp_slot_assign-IsAssigned, taken}
use ufp.Io.Receive.{IsReceived, ufp_rx_clean-IsReceived}
use ufp.Io.Transmit.{released, ufp_tx_assign-queue, ufp_tx_assign-full, ufp_tx_clean-front}
use ufp.Io.Refill.{IsReady, AreFree, taken_all, ufp_rx_assign-back}

-- a device with a number of packets left to receive, which sends at once
abbrev ops : RingOps ℕ
ops = record {
  fill_rx_desc = λ index addr_dma dev. dev;
  fetch_rx_desc = λ index dev. if dev == 0 then (none, 0) else (some (60 + index, 2), dev - 1);
  fill_tx_desc = λ index addr_dma packet dev. dev;
  fetch_tx_desc = λ index dev. (true, dev);
}

-- a ring whose indices have come to its end
abbrev ring : Ring
ring = record { tail = 3; next_to_use = 3; next_to_clean = 3; slot_index = λ i. 0 }

abbrev buf : Buf
buf = record {
  addr_virt = 0x10000;
  addr_dma = 0x20000;
  slot_size = 2048;
  count = 3;
  slots = λ i. 0;
}

abbrev port : Port
port = record {
  rx_ring = ring;
  tx_ring = ring;
  num_rx_desc = 4;
  num_tx_desc = 4;
  rx_budget = 2;
  tx_budget = 2;
  rx_slot_next = 1;
  rx_slot_offset = 3;
  tx_suspended = 0;
  count_rx_alloc_failed = 0;
  count_rx_clean_total = 0;
  count_tx_xmit_failed = 0;
  count_tx_clean_total = 0;
}

abbrev start : IoState ℕ
start = record { port = port; buf = buf; dev = 5 }

abbrev packet : ℕ → Packet
packet i = record { slot_buf = 0; slot_size = 60; slot_index = i; flag = 2 }

abbrev filled : IoState ℕ
filled = ufp_rx_assign ops start

abbrev received : List Packet × IoState ℕ
received = ufp_rx_clean ops filled

abbrev queued : IoState ℕ
queued = ufp_tx_assign ops (packet 5) (ufp_tx_assign ops (packet 4) received.1)

abbrev full : IoState ℕ
full = ufp_tx_assign ops (packet 3) queued

program : Unit {0}
unfolding ufp_desc_unused ufp.Io.ufp_write_tail ufp.Io.ufp_slot_attach ufp.Io.ufp_slot_detach
    ufp_slot_release ufp.Io.ufp_slot_addr_dma ufp.Io.ufp_slot_addr_virt ufp.Io.advance
    ufp.Io.find_slot ufp_slot_assign ufp.Io.use_desc ufp.Io.clean_desc ufp.Io.Transfer.fill_rx_ring
    ufp_rx_assign ufp_tx_assign ufp_tx_xmit ufp.Io.Transfer.clean_rx_ring ufp_rx_clean
    ufp.Io.Transfer.clean_tx_ring ufp_tx_clean
program = tt

-- the three slots of the port go to the ring, then two packets arrive and are sent
queues :
    (rx_pending filled ≡ 4 ∷ 5 ∷ 3 ∷ [])
    × (map (λ p. p.slot_index) received.0 ≡ 4 ∷ 5 ∷ [])
    × (map (λ p. p.slot_size) received.0 ≡ 63 ∷ 60 ∷ [])
    × (map (λ p. p.slot_buf) received.0 ≡ 0x12000 ∷ 0x12800 ∷ [])
    × (rx_pending received.1 ≡ 3 ∷ [])
    × (tx_pending queued ≡ 4 ∷ 5 ∷ [])
    × (tx_pending (ufp_tx_clean ops full) ≡ 3 ∷ [])
    × ((ufp_tx_clean ops full).buf.slots 4 ≡ 0)
    × ((ufp_tx_xmit ops full).port.tx_ring.tail ≡ 2)
unfolding program
queues = (refl, refl, refl, refl, refl, refl, refl, refl, refl)

ring-IsRing : IsRing 4 ring
ring-IsRing = record {
  use_bound = omega arith;
  clean_bound = omega arith;
  size_bound = omega arith;
}

start-IsReady : IsReady start
start-IsReady = record { ring = ring-IsRing; next_bound = omega arith; slots_bound = omega arith }

ufp_desc_unused-occupied_test : ufp_desc_unused ring 4 + occupied 4 ring + 1 ≡ 4
ufp_desc_unused-occupied_test = ufp_desc_unused-occupied 4 ring ring-IsRing

ufp_slot_assign-none_test : (ufp_slot_assign buf port ≡ none) ↔ AllTaken buf port
ufp_slot_assign-none_test = ufp_slot_assign-none buf port (omega arith)

assigned : ufp_slot_assign buf port ≡ some (taken buf port 1)
unfolding program
assigned = refl

ufp_slot_assign-IsAssigned_test : IsAssigned buf port (taken buf port 1)
ufp_slot_assign-IsAssigned_test =
    ufp_slot_assign-IsAssigned buf port (taken buf port 1) assigned (omega arith) (omega arith)

ufp_rx_assign-back_example :
    (new : List ℕ) × (rx_pending filled ≡ rx_pending start ++ new)
    × IsReady filled
    × AreFree new buf.slots
    × All (λ i. (3 ≤ i) × (i < 3 + 3)) new
    × (filled.buf ≡ record buf { slots = taken_all new buf.slots })
    × ((length (rx_pending start ++ new) + 1 ≡ 4) ⊎ AllTaken filled.buf filled.port)
ufp_rx_assign-back_example = ufp_rx_assign-back ops start start-IsReady

ufp_rx_clean-IsReceived_example :
    IsReceived filled.port.rx_budget filled received
    × (received.1.port.count_rx_clean_total
        ≡ (filled.port.count_rx_clean_total + length received.0) % 2 ^ 64)
ufp_rx_clean-IsReceived_example =
    ufp_rx_clean-IsReceived ops filled (ufp_rx_assign-back ops start start-IsReady).2.ring

abbrev sending : IoState ℕ
sending = record start { port = record port { tx_ring = record ring { next_to_use = 1 } } }

sending-IsRing : IsRing 4 sending.port.tx_ring
sending-IsRing = record {
  use_bound = omega arith;
  clean_bound = omega arith;
  size_bound = omega arith;
}

ufp_tx_assign-queue_example :
    (tx_pending (ufp_tx_assign ops (packet 5) sending) ≡ tx_pending sending ++ (5 ∷ []))
    × IsRing 4 (ufp_tx_assign ops (packet 5) sending).port.tx_ring
    × ((ufp_tx_assign ops (packet 5) sending).buf ≡ buf)
    × ((ufp_tx_assign ops (packet 5) sending).port.tx_suspended ≡ (0 + 1) % 2 ^ 32)
ufp_tx_assign-queue_example =
    ufp_tx_assign-queue ops (packet 5) sending sending-IsRing (omega arith)

abbrev crowded : IoState ℕ
crowded = record start { port = record port { tx_ring = record ring { next_to_use = 2 } } }

crowded-IsRing : IsRing 4 crowded.port.tx_ring
crowded-IsRing = record {
  use_bound = omega arith;
  clean_bound = omega arith;
  size_bound = omega arith;
}

ufp_tx_assign-full_test :
    (tx_pending (ufp_tx_assign ops (packet 5) crowded) ≡ tx_pending crowded)
    × ((ufp_tx_assign ops (packet 5) crowded).buf ≡ ufp_slot_release buf 5)
    × ((ufp_tx_assign ops (packet 5) crowded).port.count_tx_xmit_failed ≡ (0 + 1) % 2 ^ 64)
ufp_tx_assign-full_test = ufp_tx_assign-full ops (packet 5) crowded crowded-IsRing (omega arith)

ufp_tx_clean-front_example :
    (sent : List ℕ) × (tx_pending crowded ≡ sent ++ tx_pending (ufp_tx_clean ops crowded))
    × IsRing 4 (ufp_tx_clean ops crowded).port.tx_ring
    × (length sent ≤ 2)
    × ((ufp_tx_clean ops crowded).buf ≡ record buf { slots = released sent buf.slots })
    × ((ufp_tx_clean ops crowded).port.count_tx_clean_total
        ≡ (crowded.port.count_tx_clean_total + length sent) % 2 ^ 64)
ufp_tx_clean-front_example = ufp_tx_clean-front ops crowded crowded-IsRing

-- the driver gets the vector, and the port and the buffer stay
unmask_test :
    (s : IoState ℕ)
    → ufp_irq_unmask_queues (λ entry_idx dev. dev + entry_idx) 65538 s
      ≡ record s { dev = s.dev + 2 }
unfolding ufp_irq_unmask_queues
unmask_test s = refl

slot_size_test : ufp_slot_size buf ≡ 2048
unfolding ufp_slot_size
slot_size_test = refl
