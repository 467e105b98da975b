-- ===== src/Forward/Ip.antt =====
-- src/forward.c: the header of a packet that is forwarded.
use ufp.Common.{
  ℕ, ◌+◌, ◌-◌, ◌*◌, ◌%◌, ◌^◌, ◌<◌, ◌≤◌, ◌≡◌, ◌≢◌, ◌⊎◌, ◌∙◌, refl, ap, Option, none, some, ◌==◌,
  arith, inl, inr, All, head?, Bool-cases, Option-cases,
}
use ufp.Pool.{Pool}
use ufp.Lpm.Spec.{IsWellFormed, routes}
use ufp.Fib.{
  FibType, link, forward, local, PortIndex, port, other, FibEntry, fib_lookup, copy_words,
}
use ufp.Fib.Routes.{len_of, fib_lookup-longest}
use ufp.Neigh.{NeighEntry, NeighTable, neigh_lookup, eth_alen}
use ufp.Forward.{
  Frame, Thread, network_order, decrement, update_check, find_neigh, set_macs, forward_ip_process,
}

-- A header whose words add up to a multiple of 65535 (its checksum is right) has a right checksum
-- after a TTL that is not 0 is decremented: the word of the TTL becomes one less, the checksum is
-- updated, and the other words stay.
pub update_check-valid :
    (others ttl_word check : ℕ)
    → check < 2 ^ 16
    → 0 < ttl_word
    → (others + ttl_word + check) % 65535 ≡ 0
    → (others + (ttl_word - 1) + update_check check) % 65535 ≡ 0
unfolding update_check
update_check-valid others ttl_word check h positive valid = ground arith

forwarded_valid :
    (others protocol ttl check : ℕ)
    → check < 2 ^ 16
    → 0 < ttl
    → ttl < 2 ^ 8
    → (others + (ttl + 2 ^ 8 * protocol) + check) % 65535 ≡ 0
    → (others + (decrement ttl + 2 ^ 8 * protocol) + update_check check) % 65535 ≡ 0
forwarded_valid others protocol ttl check small alive byte valid =
    let one_less : decrement ttl + 2 ^ 8 * protocol ≡ ttl + 2 ^ 8 * protocol - 1 = omega arith in
    rw one_less (update_check-valid others (ttl + 2 ^ 8 * protocol) check small (omega arith) valid)

port-cases : (i : PortIndex) → (i ≡ other) ⊎ ((p : ℕ) × (i ≡ port p))
port-cases other = inl refl
port-cases (port p) = inr (p, refl)

type-cases : (t : FibType) → (t ≡ local) ⊎ (t ≡ link) ⊎ (t ≡ forward)
type-cases local = inl refl
type-cases link = inr (inl refl)
type-cases forward = inr (inr refl)

-- the address that is looked up in the neighbour table
abbrev pub hop_of : FibEntry → (ℕ → ℕ) → ℕ → ℕ
hop_of entry dst = elim entry.type [ link ↦ dst | forward ↦ entry.nexthop | local ↦ dst ]

module _ {S : Type 0} {mem : Pool S} where
  find_neigh-hop :
      (table : NeighTable mem) (entry : FibEntry) (dst : ℕ → ℕ) (neigh : NeighEntry)
      → find_neigh table entry dst ≡ some neigh
      → (entry.type ≢ local)
        × (neigh_lookup mem table (network_order (hop_of entry dst)) ≡ some neigh)
  unfolding find_neigh
  find_neigh-hop table entry dst neigh found = elim (type-cases entry.type) [
    | inl e ↦ absurd (ground (arith, e, found))
    | inr (inl e) ↦ (λ l. absurd (cc (e, l)), rw e (rw e at found))
    | inr (inr e) ↦ (λ l. absurd (cc (e, l)), rw e (rw e at found))
  ]

module _ {S : Type 0} {mem : Pool S} {W : Type 0} where
  -- What a packet that goes out of the port `p` has come from and become.
  pub record IsForwarded (thread : Thread mem W) (others protocol p : ℕ) (frame : Frame) (w : W)
      (r : Option ℕ × Frame × W) : Type 0 where
    pub entry : FibEntry
    pub first : head? (routes thread.fib_inet frame.ip.daddr) ≡ some entry
    pub longest : All (λ q. len_of q ≤ len_of entry) (routes thread.fib_inet frame.ip.daddr)
    pub out_port : entry.port_index ≡ port p
    pub not_local : entry.type ≢ local
    pub neigh : NeighEntry
    pub next_hop :
        neigh_lookup mem (thread.neigh_inet p) (network_order (hop_of entry frame.ip.daddr))
        ≡ some neigh
    pub macs :
        (i : ℕ)
        → i < eth_alen
        → (r.1.h_dest i ≡ neigh.dst_mac i) × (r.1.h_source i ≡ thread.ufp_macaddr p i)
    pub live : 1 < frame.ip.ttl
    pub ttl : r.1.ip.ttl + 1 ≡ frame.ip.ttl
    pub valid : (others + (r.1.ip.ttl + 2 ^ 8 * protocol) + r.1.ip.check) % 65535 ≡ 0
    pub same_daddr : r.1.ip.daddr ≡ frame.ip.daddr
    pub same_world : r.2 ≡ w

  -- Whenever a packet goes out of a port: the first route of the table to its destination, with no
  -- longer one, is to this port and not a local one, and the neighbour table of the port has the
  -- next hop. The packet goes from the port's MAC address to the neighbour's, its TTL was above 1 and
  -- is one less, its header, whose checksum was right, has a right checksum, and nothing is written
  -- to a TUN device. The table is well formed and the TTL, a byte, is not 0; `others` is the sum of
  -- the words of the header besides the checksum and the one with the TTL and the protocol.
  pub forward_ip_process-IsForwarded :
      (thread : Thread mem W) (others protocol port_index p : ℕ) (frame : Frame) (w : W)
      → IsWellFormed len_of thread.fib_inet
      → 0 < frame.ip.ttl
      → frame.ip.ttl < 2 ^ 8
      → frame.ip.check < 2 ^ 16
      → (others + (frame.ip.ttl + 2 ^ 8 * protocol) + frame.ip.check) % 65535 ≡ 0
      → (forward_ip_process thread port_index frame w).0 ≡ some p
      → IsForwarded thread others protocol p frame w (forward_ip_process thread port_index frame w)
  unfolding forward_ip_process set_macs copy_words
  forward_ip_process-IsForwarded thread others protocol port_index p frame w wf alive byte small
        valid out =
      elim (Option-cases (fib_lookup thread.fib_inet frame.ip.daddr)) [
        | inl no_route ↦ absurd (ground (arith, no_route, out))
        | inr (entry, route) ↦ elim (port-cases entry.port_index) [
          | inl tun ↦ absurd (ground (arith, route, tun, out))
          | inr (q, to_port) ↦
              elim (Option-cases (find_neigh (thread.neigh_inet q) entry frame.ip.daddr)) [
                | inl none_there ↦ absurd (ground (arith, route, to_port, none_there, out))
                | inr (neigh, found) ↦ elim (Bool-cases (frame.ip.ttl == 1)) [
                  | inl last ↦ absurd (ground (arith, route, to_port, found, last, out))
                  | inr more ↦
                      let same : q ≡ p = ground (arith, route, to_port, found, more, out) in
                      let (first, longest) =
                        fib_lookup-longest thread.fib_inet frame.ip.daddr entry wf route in
                      let (not_local, next_hop) =
                        find_neigh-hop (thread.neigh_inet q) entry frame.ip.daddr neigh found in
                      let live : 1 < frame.ip.ttl = ground arith in
                      rw (route, to_port, found, more, forward_ip_process)
                        (record {
                          entry = entry;
                          first = first;
                          longest = longest;
                          out_port = to_port ∙ ap port same;
                          not_local = not_local;
                          neigh = neigh;
                          next_hop = rw (← same) next_hop;
                          macs = λ i h. (ground arith, ground (arith, same));
                          live = live;
                          ttl = omega arith;
                          valid =
                              forwarded_valid others protocol frame.ip.ttl frame.ip.check small
                                alive byte valid;
                          same_daddr = refl;
                          same_world = refl;
                        })
                ]
              ]
        ]
      ]

  -- A packet that is not forwarded is not changed: it is dropped if it has no route, and otherwise
  -- it goes to the TUN device of the port that it came from.
  pub forward_ip_process-local :
      (thread : Thread mem W) (port_index : ℕ) (frame : Frame) (w : W)
      → (forward_ip_process thread port_index frame w).0 ≡ none
      → ((forward_ip_process thread port_index frame w).1 ≡ frame)
        × ((forward_ip_process thread port_index frame w).2
            ≡ (elim (fib_lookup thread.fib_inet frame.ip.daddr) [
              | none ↦ w
              | some _ ↦ thread.write_tun port_index frame w
            ]))
  unfolding forward_ip_process
  forward_ip_process-local thread port_index frame w e = ground (arith, e)
