-- ===== src/Netlink/Neighbours.antt =====
-- src/netlink.c: messages on neighbours of a port, for IPv4.
use ufp.Common.{
  ℕ, zero, suc, ◌+◌, ◌<◌, ◌≤◌, ◌≡◌, ◌≢◌, ◌∙◌, refl, sym, ap, true, none, some, List, ◌==◌,
  if◌then◌else◌, update, update_self, arith, Option-cases, Bool-cases, inl, inr,
}
use mathlib.Core.Path.{subst}
use ufp.Pool.{Pool}
use ufp.Hash.{HeadArray}
use ufp.Fib.{af_inet}
use ufp.Neigh.{NeighEntry, neigh_entry_bytes, neigh_add, neigh_lookup, eth_alen}
use ufp.Neigh.Table.{same_address, table, IsReady}
use ufp.Neigh.Map.{neigh_add-map, neigh_add-present}
use ufp.Forward.{network_order}
use ufp.Netlink.{
  NeighAttr, neigh_attrs, no_neigh, find_port, TableState, change_neigh, netlink_neigh,
}

-- The port that is found is the first one whose TUN device has the index.
pub find_port-first :
    (tun_index : ℕ → ℕ) (rounds i ifindex p : ℕ)
    → find_port tun_index rounds i ifindex ≡ some p
    → (i ≤ p)
      × (p < i + rounds)
      × (tun_index p ≡ ifindex)
      × ((j : ℕ) → i ≤ j → j < p → tun_index j ≢ ifindex)
unfolding find_port
find_port-first tun_index zero i ifindex p e = absurd (ground (arith, e))
find_port-first tun_index (suc rounds) i ifindex p e = elim (Bool-cases (tun_index i == ifindex)) [
  | inl here ↦
      let same : i ≡ p = ground (arith, e, here) in
      (
        omega arith,
        omega arith,
        subst (λ x. tun_index x ≡ ifindex) same (ground arith),
        λ j low high. absurd (omega arith),
      )
  | inr not_here ↦
      let (low, high, index, first) =
        find_port-first tun_index rounds (i + 1) ifindex p (rw not_here at e) in
      (
        omega arith,
        omega arith,
        index,
        λ j from below. elim (Bool-cases (j == i)) [
          | inl same ↦ let at_i : j ≡ i = ground arith in rw at_i (ground arith)
          | inr other ↦ first j (ground arith) below
        ],
      )
]

module _ {S : Type 0} (mem : Pool S) (old : ℕ → ℕ) (tun_index : ℕ → ℕ) (num_ports : ℕ) where
  netlink_neigh_new :
      (ifindex : ℕ) (attrs : List NeighAttr) (s : TableState mem) (i : ℕ)
      → find_port tun_index num_ports 0 ifindex ≡ some i
      → (netlink_neigh mem old tun_index num_ports true af_inet ifindex attrs s).neigh_inet i ≡ (
          let info = neigh_attrs attrs no_neigh in
          (neigh_add mem old old
            (s.neigh_inet i)
            af_inet
            (network_order info.dst_addr)
            info.dst_mac
            s.fib_state.pool).1)
  unfolding netlink_neigh change_neigh
  netlink_neigh_new ifindex attrs s i found =
      let info = neigh_attrs attrs no_neigh in
      rw (found, netlink_neigh)
        (update_self s.neigh_inet i
          (neigh_add mem old old (s.neigh_inet i) af_inet (network_order info.dst_addr) info.dst_mac
            s.fib_state.pool).1)

  -- A new IPv4 neighbour of a port, with memory for it, is found from then on with the first six
  -- bytes of the MAC address of the message, and every other neighbour of the port as before.
  pub netlink_neigh-add :
      (ifindex : ℕ) (attrs : List NeighAttr) (s : TableState mem) (i block addr : ℕ)
      (head : HeadArray (ℕ → ℕ) NeighEntry) (pool : S)
      → find_port tun_index num_ports 0 ifindex ≡ some i
      → s.neigh_inet i ≡ table mem af_inet block head
      → IsReady mem af_inet head
      → Pool.mem_alloc mem neigh_entry_bytes s.fib_state.pool ≡ some (addr, pool)
      → neigh_lookup mem
          (table mem af_inet block head)
          (network_order (neigh_attrs attrs no_neigh).dst_addr)
        ≡ none
      → (e : NeighEntry) × ((b : ℕ)
          → b < eth_alen
          → e.dst_mac b ≡ (neigh_attrs attrs no_neigh).dst_mac b)
        × ((q : ℕ → ℕ)
            → neigh_lookup mem
                ((netlink_neigh mem old tun_index num_ports true af_inet ifindex attrs s).neigh_inet
                  i)
                q
              ≡ (if same_address af_inet q (network_order (neigh_attrs attrs no_neigh).dst_addr)
                  then some e
                  else neigh_lookup mem (table mem af_inet block head) q))
  netlink_neigh-add ifindex attrs s i block addr head pool found is_table ready alloc absent =
      let info = neigh_attrs attrs no_neigh in
      let key = network_order info.dst_addr in
      let (head', e, run, ready', mac, look) =
        neigh_add-map mem old old af_inet block head key info.dst_mac s.fib_state.pool pool addr
          alloc refl ready absent in
      let after =
        netlink_neigh_new ifindex attrs s i found
        ∙ ap (λ t. (neigh_add mem old old t af_inet key info.dst_mac s.fib_state.pool).1) is_table
        ∙ ap (λ r. r.1) run in
      (e, mac, λ q. ap (λ t. neigh_lookup mem t q) after ∙ look q)

  same_but : {A : Type 0} (f : ℕ → A) (i : ℕ) (v : A) → v ≡ f i → (j : ℕ) → update f i v j ≡ f j
  same_but f i v e j = ground (arith, e)

  neigh_add-stale :
      (block : ℕ) (head : HeadArray (ℕ → ℕ) NeighEntry) (key mac : ℕ → ℕ) (pool : S)
      (e : NeighEntry)
      → neigh_lookup mem (table mem af_inet block head) key ≡ some e
      → (neigh_add mem old old (table mem af_inet block head) af_inet key mac pool).1
        ≡ table mem af_inet block head
  unfolding neigh_add
  neigh_add-stale block head key mac pool e present =
      elim (Option-cases (Pool.mem_alloc mem neigh_entry_bytes pool)) [
        | inl full ↦ rw (full, neigh_add) refl
        | inr ((addr, pool'), alloc) ↦
            ap (λ r. r.1)
              (neigh_add-present mem old old af_inet block head key mac pool pool' addr e alloc refl
                present)
      ]

  -- A message on a new IPv4 neighbour of a port whose address is in the port's table already changes
  -- no table of neighbours of any port, with memory for an entry or without: the old MAC address
  -- stays.
  pub netlink_neigh-stale :
      (ifindex : ℕ) (attrs : List NeighAttr) (s : TableState mem) (i block : ℕ)
      (head : HeadArray (ℕ → ℕ) NeighEntry) (e : NeighEntry)
      → find_port tun_index num_ports 0 ifindex ≡ some i
      → s.neigh_inet i ≡ table mem af_inet block head
      → neigh_lookup mem
          (table mem af_inet block head)
          (network_order (neigh_attrs attrs no_neigh).dst_addr)
        ≡ some e
      → ((j : ℕ)
          → (netlink_neigh mem old tun_index num_ports true af_inet ifindex attrs s).neigh_inet j
            ≡ s.neigh_inet j)
        × ((netlink_neigh mem old tun_index num_ports true af_inet ifindex attrs s).neigh_inet6
            ≡ s.neigh_inet6)
  unfolding netlink_neigh change_neigh
  netlink_neigh-stale ifindex attrs s i block head e found is_table present =
      let info = neigh_attrs attrs no_neigh in
      let key = network_order info.dst_addr in
      let pool = s.fib_state.pool in
      let kept : (neigh_add mem old old (s.neigh_inet i) af_inet key info.dst_mac pool).1
          ≡ s.neigh_inet i =
        ap (λ t. (neigh_add mem old old t af_inet key info.dst_mac pool).1) is_table
        ∙ neigh_add-stale block head key info.dst_mac pool e present
        ∙ sym is_table in
      rw (found, netlink_neigh)
        (
          same_but s.neigh_inet i
              (neigh_add mem old old (s.neigh_inet i) af_inet key info.dst_mac pool).1 kept,
          refl,
        )
