-- ===== src/Forward/Drop.antt =====
-- src/forward.c: every packet reaches the label `packet_drop`, those queued for transmission too.
use ufp.Common.{
  ℕ, ◌+◌, ◌%◌, ◌<◌, ◌≡◌, ◌∙◌, ap, false, Option, none, some, List, [], ◌∷◌, ◌++◌, ◌==◌, update,
  update_self, arith, Bool-cases, inl, inr, All,
}
use ufp.Pool.{Pool}
use ufp.Io.{Packet, RingOps, IoState, ufp_slot_release, ufp_desc_unused}
use ufp.Io.Transfer.{ufp_tx_assign}
use ufp.Io.Queue.{IsRing, occupied, pending}
use ufp.Io.Transmit.{ufp_tx_assign-queue}
use ufp.Forward.{Thread, forward_frame}
use ufp.Forward.Process.{
  PlaneState, tx_assign_on, packet_drop, assign_result, forward_packet, forward_process,
}

module _ {D : Type 0} (ops : RingOps D) where
  -- a free slot stays free
  tx_assign-free :
      (packet : Packet) (s : IoState D) (i : ℕ)
      → s.buf.slots i ≡ 0
      → (ufp_tx_assign ops packet s).buf.slots i ≡ 0
  unfolding ufp_tx_assign ufp_slot_release
  tx_assign-free packet s i h =
      elim (Bool-cases (ufp_desc_unused s.port.tx_ring s.port.num_tx_desc == 0)) [
        | inl e ↦ rw (e, ufp_tx_assign) (ground (arith, h))
        | inr e ↦ rw (e, ufp_tx_assign) h
      ]

module _ {D W : Type 0} (ops : RingOps D) where
  assign_result-free :
      (packet : Packet) (ret : Option ℕ) (s : PlaneState D W) (i : ℕ)
      → s.buf.slots i ≡ 0
      → (assign_result ops packet ret s).buf.slots i ≡ 0
  unfolding assign_result tx_assign_on
  assign_result-free packet none s i h = h
  assign_result-free packet (some p) s i h =
      tx_assign-free ops packet (record { port = s.ports p; buf = s.buf; dev = s.devs p }) i h

  packet_drop-free :
      (packet : Packet) (s : PlaneState D W) (i : ℕ)
      → s.buf.slots i ≡ 0
      → (packet_drop ops packet s).buf.slots i ≡ 0
  unfolding packet_drop ufp_slot_release
  packet_drop-free packet s i h = ground (arith, h)

  packet_drop_self :
      (packet : Packet) (s : PlaneState D W)
      → (packet_drop ops packet s).buf.slots packet.slot_index ≡ 0
  unfolding packet_drop ufp_slot_release
  packet_drop_self packet s = ground arith

  module _ {S : Type 0} {mem : Pool S} (thread : Thread mem W) (port_index : ℕ) where
    forward_packet-free :
        (packet : Packet) (s : PlaneState D W) (i : ℕ)
        → s.buf.slots i ≡ 0
        → (forward_packet ops thread port_index packet s).buf.slots i ≡ 0
    unfolding forward_packet
    forward_packet-free packet s i h = elim (Bool-cases (packet.flag % 2 == 1)) [
      | inl e ↦ rw (e, forward_packet) (packet_drop-free packet s i h)
      | inr e ↦
          let (ret, frame, tun) =
            forward_frame thread port_index (s.frames packet.slot_buf) s.tun in
          let s' : PlaneState D W = record s {
            frames = update s.frames packet.slot_buf frame;
            tun = tun;
          } in
          rw (e, forward_packet)
            (packet_drop-free packet (assign_result ops packet ret s') i
              (assign_result-free packet ret s' i h))
    ]

    forward_packet_self :
        (packet : Packet) (s : PlaneState D W)
        → (forward_packet ops thread port_index packet s).buf.slots packet.slot_index ≡ 0
    unfolding forward_packet
    forward_packet_self packet s = elim (Bool-cases (packet.flag % 2 == 1)) [
      | inl e ↦ rw (e, forward_packet) (packet_drop_self packet s)
      | inr e ↦
          let (ret, frame, tun) =
            forward_frame thread port_index (s.frames packet.slot_buf) s.tun in
          let s' : PlaneState D W = record s {
            frames = update s.frames packet.slot_buf frame;
            tun = tun;
          } in
          rw (e, forward_packet) (packet_drop_self packet (assign_result ops packet ret s'))
    ]

    forward_process-free :
        (packets : List Packet) (s : PlaneState D W) (i : ℕ)
        → s.buf.slots i ≡ 0
        → (forward_process ops thread port_index packets s).buf.slots i ≡ 0
    unfolding forward_process
    forward_process-free [] s i h = h
    forward_process-free (p ∷ ps) s i h =
        forward_process-free ps (forward_packet ops thread port_index p s) i
          (forward_packet-free p s i h)

    -- After `forward_process` the slot of every packet is free, whatever became of the packet.
    pub forward_process-released :
        (packets : List Packet) (s : PlaneState D W)
        → All
            (λ p. (forward_process ops thread port_index packets s).buf.slots p.slot_index ≡ 0)
            packets
    unfolding forward_process
    forward_process-released [] s = tt
    forward_process-released (p ∷ ps) s =
        let s' = forward_packet ops thread port_index p s in
        (
          forward_process-free ps s' p.slot_index (forward_packet_self p s),
          forward_process-released ps s',
        )

    forward_packet-port :
        (packet : Packet) (s : PlaneState D W) (p : ℕ)
        → (packet.flag % 2 == 1) ≡ false
        → (forward_frame thread port_index (s.frames packet.slot_buf) s.tun).0 ≡ some p
        → (forward_packet ops thread port_index packet s).ports p
          ≡ (ufp_tx_assign ops packet
              (record { port = s.ports p; buf = s.buf; dev = s.devs p })).port
    unfolding forward_packet packet_drop assign_result tx_assign_on
    forward_packet-port packet s p no_error to_port =
        rw (no_error, to_port, forward_packet)
          (update_self s.ports p
            (ufp_tx_assign ops packet
              (record { port = s.ports p; buf = s.buf; dev = s.devs p })).port)

    -- A packet that is forwarded to a port with room in its transmit ring is queued there, and its
    -- slot is free at the same time.
    pub forward_packet-queued :
        (packet : Packet) (s : PlaneState D W) (p : ℕ)
        → (packet.flag % 2 == 1) ≡ false
        → (forward_frame thread port_index (s.frames packet.slot_buf) s.tun).0 ≡ some p
        → IsRing (s.ports p).num_tx_desc (s.ports p).tx_ring
        → occupied (s.ports p).num_tx_desc (s.ports p).tx_ring + 1 < (s.ports p).num_tx_desc
        → let after = forward_packet ops thread port_index packet s in
          (pending (after.ports p).num_tx_desc (after.ports p).tx_ring
            ≡ pending (s.ports p).num_tx_desc (s.ports p).tx_ring ++ (packet.slot_index ∷ []))
          × (after.buf.slots packet.slot_index ≡ 0)
    forward_packet-queued packet s p no_error to_port ring room =
        let io : IoState D = record { port = s.ports p; buf = s.buf; dev = s.devs p } in
        (
          ap (λ q. pending q.num_tx_desc q.tx_ring)
                (forward_packet-port packet s p no_error to_port)
              ∙ (ufp_tx_assign-queue ops packet io ring room).0,
          forward_packet_self packet s,
        )
