-- ===== src/Forward/Process.antt =====
-- src/forward.c: the loop over the received packets, on the memory and the ports of a thread.
use ufp.Common.{ℕ, ◌%◌, Option, none, some, List, [], ◌∷◌, ltb, ◌==◌, if◌then◌else◌, update}
use ufp.Pool.{Pool}
use ufp.Io.{Buf, Port, Packet, RingOps, ufp_slot_release, ufp_slot_assign, ufp_slot_addr_virt}
use ufp.Io.Transfer.{ufp_tx_assign}
use ufp.Forward.{Frame, Thread, forward_frame}

-- the ports and their devices by number, the buffer, the packets by the address of their slot, and
-- the state behind the TUN devices
pub record PlaneState (D W : Type 0) : Type 0 where
  pub ports : ℕ → Port
  pub devs : ℕ → D
  pub buf : Buf
  pub frames : ℕ → Frame
  pub tun : W

abbrev pub ufp_packet_eof : ℕ
ufp_packet_eof = 2

module _ {D W : Type 0} (ops : RingOps D) where
  -- `ufp_tx_assign` on one of the ports
  unfoldable pub tx_assign_on : ℕ → Packet → PlaneState D W → PlaneState D W
  tx_assign_on p packet s =
      let r = ufp_tx_assign ops packet (record { port = s.ports p; buf = s.buf; dev = s.devs p }) in
      record s { ports = update s.ports p r.port; devs = update s.devs p r.dev; buf = r.buf }

  -- the label `packet_drop`, which a queued packet reaches as well
  unfoldable pub packet_drop : Packet → PlaneState D W → PlaneState D W
  packet_drop packet s = record s { buf = ufp_slot_release s.buf packet.slot_index }

  unfoldable pub assign_result : Packet → Option ℕ → PlaneState D W → PlaneState D W
  assign_result packet none s = s
  assign_result packet (some p) s = tx_assign_on p packet s

  module _ {S : Type 0} {mem : Pool S} (thread : Thread mem W) (port_index : ℕ) where
    -- one round of the loop
    unfoldable pub forward_packet : Packet → PlaneState D W → PlaneState D W
    forward_packet packet s =
        if packet.flag % 2 == 1
        then packet_drop packet s
        else let (ret, frame, tun) =
            forward_frame thread port_index (s.frames packet.slot_buf) s.tun in
          packet_drop packet (
            assign_result packet ret
              (record s { frames = update s.frames packet.slot_buf frame; tun = tun }))

    unfoldable pub forward_process : List Packet → PlaneState D W → PlaneState D W
    forward_process [] s = s
    forward_process (packet ∷ packets) s = forward_process packets (forward_packet packet s)

  -- a packet of `read_size` bytes from the TUN device of the port
  unfoldable pub forward_process_tun : ℕ → Frame → ℕ → PlaneState D W → PlaneState D W
  forward_process_tun port_index read_buf read_size s =
      if ltb s.buf.slot_size read_size
      then s
      else elim (ufp_slot_assign s.buf (s.ports port_index)) [
        | none ↦ s
        | some (index, buf, port) ↦
            let slot_buf = ufp_slot_addr_virt buf index in
            tx_assign_on port_index
              (record {
                slot_buf = slot_buf;
                slot_size = read_size;
                slot_index = index;
                flag = ufp_packet_eof;
              })
              (record s {
                ports = update s.ports port_index port;
                buf = buf;
                frames = update s.frames slot_buf read_buf;
              })
      ]
