-- ===== src/Forward.antt =====
-- src/forward.c: what happens to each received packet.
pub mod Process
pub mod Ip
pub mod Drop
mod Tests
use ufp.Common.{
  ℕ, ◌+◌, ◌-◌, ◌*◌, ◌/◌, ◌%◌, ◌^◌, Bool, true, false, Option, none, some, leb, ◌==◌, if◌then◌else◌,
}
use ufp.Pool.{Pool}
use ufp.Lpm.{Node}
use ufp.Fib.{
  FibType, link, forward, local, PortIndex, port, other, FibEntry, fib_lookup, copy_words,
}
use ufp.Neigh.{NeighEntry, NeighTable, neigh_lookup, eth_alen}

-- the fields of an IPv4 header that are read or written; `daddr` is in host order
pub record IpHeader : Type 0 where
  pub ttl : ℕ
  pub check : ℕ
  pub daddr : ℕ → ℕ

pub record Ip6Header : Type 0 where
  pub hlim : ℕ
  pub dst : ℕ → ℕ

-- A packet in memory. `h_proto` is in host order, and says which of the two headers is there.
pub record Frame : Type 0 where
  pub h_dest : ℕ → ℕ
  pub h_source : ℕ → ℕ
  pub h_proto : ℕ
  pub ip : IpHeader
  pub ip6 : Ip6Header

-- `htonl` on a little-endian machine, for each word of an address
abbrev pub network_order : (ℕ → ℕ) → ℕ → ℕ
network_order address w =
    let a = address w in
    a / 2 ^ 24 % 256 + a / 2 ^ 16 % 256 * 2 ^ 8 + a / 2 ^ 8 % 256 * 2 ^ 16 + a % 256 * 2 ^ 24

-- `ttl--` and `ip6_hlim--` on one byte
abbrev pub decrement : ℕ → ℕ
decrement ttl = (ttl + 255) % 2 ^ 8

-- The checksum after `ttl--`: `htons(0x0100)` is 1 on a little-endian machine.
unfoldable pub update_check : ℕ → ℕ
update_check old =
    let check = old + 1 in if leb 0xFFFF check then (check + 1) % 2 ^ 16 else check % 2 ^ 16

-- `memcpy` of both MAC addresses
unfoldable pub set_macs : Frame → (dst_mac src_mac : ℕ → ℕ) → Frame
set_macs frame dst_mac src_mac = record frame {
  h_dest = copy_words eth_alen frame.h_dest dst_mac;
  h_source = copy_words eth_alen frame.h_source src_mac;
}

module _ {S : Type 0} (mem : Pool S) (W : Type 0) where
  -- The tables of a thread, and what it uses of the library and the system: the MAC address of a
  -- port, `write` to the TUN device of a port, and `IN6_IS_ADDR_LINKLOCAL`.
  pub record Thread : Type 0 where
    pub fib_inet : ℕ → Node FibEntry ℕ
    pub fib_inet6 : ℕ → Node FibEntry ℕ
    pub neigh_inet : ℕ → NeighTable mem
    pub neigh_inet6 : ℕ → NeighTable mem
    pub ufp_macaddr : ℕ → ℕ → ℕ
    pub write_tun : ℕ → Frame → W → W
    pub is_linklocal : (ℕ → ℕ) → Bool

module _ {S : Type 0} {mem : Pool S} where
  -- the neighbour that a route leads to; a local route goes the way of a missing neighbour
  unfoldable pub find_neigh : NeighTable mem → FibEntry → (ℕ → ℕ) → Option NeighEntry
  find_neigh neigh entry dst = elim entry.type [
    | local ↦ none
    | link ↦ neigh_lookup mem neigh (network_order dst)
    | forward ↦ neigh_lookup mem neigh (network_order entry.nexthop)
  ]

module _ {S : Type 0} {mem : Pool S} {W : Type 0} where
  unfoldable pub forward_arp_process : Thread mem W → ℕ → Frame → W → Option ℕ × Frame × W
  forward_arp_process thread port_index frame w = (none, frame, thread.write_tun port_index frame w)

  unfoldable pub forward_ip_process : Thread mem W → ℕ → Frame → W → Option ℕ × Frame × W
  forward_ip_process thread port_index frame w =
      let packet_local : Option ℕ × Frame × W =
        (none, frame, thread.write_tun port_index frame w) in
      let ip = frame.ip in
      elim (fib_lookup thread.fib_inet ip.daddr) [
        | none ↦ (none, frame, w)
        | some entry ↦ elim entry.port_index [
          | other ↦ packet_local
          | port p ↦ elim (find_neigh (thread.neigh_inet p) entry ip.daddr) [
            | none ↦ packet_local
            | some neigh ↦ if ip.ttl == 1 then packet_local else (
              some p,
              set_macs
                  (record frame {
                    ip = record ip { ttl = decrement ip.ttl; check = update_check ip.check };
                  })
                  neigh.dst_mac (thread.ufp_macaddr p),
              w,
            )
          ]
        ]
      ]

  unfoldable pub forward_ip6_process : Thread mem W → ℕ → Frame → W → Option ℕ × Frame × W
  forward_ip6_process thread port_index frame w =
      let packet_local : Option ℕ × Frame × W =
        (none, frame, thread.write_tun port_index frame w) in
      let ip6 = frame.ip6 in
      if thread.is_linklocal ip6.dst
      then packet_local
      else elim (fib_lookup thread.fib_inet6 ip6.dst) [
        | none ↦ (none, frame, w)
        | some entry ↦ elim entry.port_index [
          | other ↦ packet_local
          | port p ↦ elim (find_neigh (thread.neigh_inet6 p) entry ip6.dst) [
            | none ↦ packet_local
            | some neigh ↦ if ip6.hlim == 1 then packet_local else (
              some p,
              set_macs (record frame { ip6 = record ip6 { hlim = decrement ip6.hlim } })
                  neigh.dst_mac (thread.ufp_macaddr p),
              w,
            )
          ]
        ]
      ]

  -- the `switch` on the protocol
  unfoldable pub forward_frame : Thread mem W → ℕ → Frame → W → Option ℕ × Frame × W
  forward_frame thread port_index frame w =
      if frame.h_proto == 0x0806
      then forward_arp_process thread port_index frame w
      else if frame.h_proto == 0x0800
      then forward_ip_process thread port_index frame w
      else if frame.h_proto == 0x86DD
      then forward_ip6_process thread port_index frame w
      else (none, frame, w)
