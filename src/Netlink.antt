-- ===== src/Netlink.antt =====
-- src/netlink.c: messages of the kernel on routes and neighbours, and their effect on the tables of
-- a thread. The kernel's macros that walk a message are not modelled: a message is a list of its
-- attributes. An address attribute is a number of 32-bit words, in host order.
pub mod Neighbours
mod Tests
use ufp.Common.{
  ℕ, zero, suc, ◌+◌, ◌-◌, ◌^◌, Bool, true, false, Option, none, some, List, [], ◌∷◌, ◌==◌,
  if◌then◌else◌, update,
}
use ufp.Pool.{Pool}
use ufp.Lpm.{Node}
use ufp.Fib.{
  FibType, link, forward, local, PortIndex, port, other, FibEntry, FibState, af_inet, af_inet6,
  copy_words, fib_route_update, fib_route_delete,
}
use ufp.Neigh.{NeighTable, neigh_add, neigh_delete}
use ufp.Forward.{network_order}

pub data RouteAttr : Type 0 where
  rta_dst rta_gateway : (words : ℕ) → (payload : ℕ → ℕ) → RouteAttr
  rta_oif : (ifindex : ℕ) → RouteAttr
  rta_other : RouteAttr

pub data NeighAttr : Type 0 where
  nda_dst : (words : ℕ) → (payload : ℕ → ℕ) → NeighAttr
  nda_lladdr : (bytes : ℕ) → (payload : ℕ → ℕ) → NeighAttr
  nda_other : NeighAttr

-- A message on a route or a neighbour makes it (`RTM_NEW…`) if `is_new`, or deletes it.
pub data Message : Type 0 where
  route_message : (is_new : Bool) → (family dst_len rtm_table : ℕ) → List RouteAttr → Message
  neigh_message : (is_new : Bool) → (family ifindex : ℕ) → List NeighAttr → Message
  unknown_message : Message

-- what the loop over the attributes of a route collects; no `ifindex` is -1
pub record RouteInfo : Type 0 where
  pub prefix : ℕ → ℕ
  pub nexthop : ℕ → ℕ
  pub ifindex : Option ℕ
  pub type : FibType

pub record NeighInfo : Type 0 where
  pub dst_addr : ℕ → ℕ
  pub dst_mac : ℕ → ℕ

abbrev pub rt_table_local : ℕ
rt_table_local = 255

unfoldable pub route_attr : RouteAttr → RouteInfo → RouteInfo
route_attr (rta_dst words payload) info = record info {
  prefix = copy_words words info.prefix payload;
}
route_attr (rta_gateway words payload) info = record info {
  nexthop = copy_words words info.nexthop payload;
  type = forward;
}
route_attr (rta_oif ifindex) info = record info { ifindex = some ifindex }
route_attr rta_other info = info

unfoldable pub route_attrs : List RouteAttr → RouteInfo → RouteInfo
route_attrs [] info = info
route_attrs (a ∷ rest) info = route_attrs rest (route_attr a info)

unfoldable pub neigh_attr : NeighAttr → NeighInfo → NeighInfo
neigh_attr (nda_dst words payload) info = record info {
  dst_addr = copy_words words info.dst_addr payload;
}
neigh_attr (nda_lladdr bytes payload) info = record info {
  dst_mac = copy_words bytes info.dst_mac payload;
}
neigh_attr nda_other info = info

unfoldable pub neigh_attrs : List NeighAttr → NeighInfo → NeighInfo
neigh_attrs [] info = info
neigh_attrs (a ∷ rest) info = neigh_attrs rest (neigh_attr a info)

abbrev no_route : RouteInfo
no_route = record { prefix = λ _. 0; nexthop = λ _. 0; ifindex = none; type = link }

abbrev pub no_neigh : NeighInfo
no_neigh = record { dst_addr = λ _. 0; dst_mac = λ _. 0 }

-- the loop over `rounds` ports from port `i`; `tun_index` is `ufp_tun_index`
unfoldable pub find_port : (tun_index : ℕ → ℕ) → (rounds i ifindex : ℕ) → Option ℕ
find_port tun_index zero i ifindex = none
find_port tun_index (suc rounds) i ifindex =
    let rest = find_port tun_index rounds (i + 1) ifindex in
    if tun_index i == ifindex then some i else rest

-- `port_index` of a route
abbrev pub route_port : (tun_index : ℕ → ℕ) → (num_ports : ℕ) → Option ℕ → PortIndex
route_port tun_index num_ports none = other
route_port tun_index num_ports (some ifindex) = elim (find_port tun_index num_ports 0 ifindex) [
  | none ↦ other
  | some i ↦ port i
]

-- the `int` as an unsigned number
abbrev pub route_id : Option ℕ → ℕ
route_id none = 2 ^ 32 - 1
route_id (some ifindex) = ifindex

module _ {S : Type 0} (mem : Pool S) where
  -- the tables of a thread, and the counters of routes with the pool
  pub record TableState : Type 0 where
    pub fib_inet : ℕ → Node FibEntry ℕ
    pub fib_inet6 : ℕ → Node FibEntry ℕ
    pub neigh_inet : ℕ → NeighTable mem
    pub neigh_inet6 : ℕ → NeighTable mem
    pub fib_state : FibState S

  -- `old` is what a new block holds.
  module _ (old : ℕ → ℕ) (tun_index : ℕ → ℕ) (num_ports : ℕ) where
    -- one of the two calls on a routing table
    unfoldable pub change_route :
        Bool
        → (family dst_len : ℕ) → RouteInfo
        → (ℕ → Node FibEntry ℕ)
        → FibState S
        → (ℕ → Node FibEntry ℕ) × FibState S
    change_route true family dst_len info fib s =
        let (_, fib', s') =
          fib_route_update mem old fib family info.type info.prefix dst_len info.nexthop
            (route_port tun_index num_ports info.ifindex) (route_id info.ifindex) s in
        (fib', s')
    change_route false family dst_len info fib s =
        let (_, fib', s') =
          fib_route_delete mem fib info.prefix dst_len (route_id info.ifindex) s in
        (fib', s')

    unfoldable pub netlink_route :
        Bool → (family dst_len rtm_table : ℕ) → List RouteAttr → TableState → TableState
    netlink_route is_new family dst_len rtm_table attrs s =
        let found = route_attrs attrs no_route in
        let info : RouteInfo =
          if rtm_table == rt_table_local then record found { type = local } else found in
        if family == af_inet
        then (let (fib, f) = change_route is_new family dst_len info s.fib_inet s.fib_state in
            record s { fib_inet = fib; fib_state = f })
        else if family == af_inet6
        then (let (fib, f) = change_route is_new family dst_len info s.fib_inet6 s.fib_state in
            record s { fib_inet6 = fib; fib_state = f })
        else s

    -- one of the two calls on a neighbour table, whose keys are in network order
    unfoldable pub change_neigh : Bool → ℕ → NeighInfo → NeighTable mem → S → NeighTable mem × S
    change_neigh true family info neigh pool =
        let (_, neigh', pool') =
          neigh_add mem old old neigh family (network_order info.dst_addr) info.dst_mac pool in
        (neigh', pool')
    change_neigh false family info neigh pool =
        let (_, neigh', pool') = neigh_delete mem neigh (network_order info.dst_addr) pool in
        (neigh', pool')

    unfoldable pub netlink_neigh :
        Bool → (family ifindex : ℕ) → List NeighAttr → TableState → TableState
    netlink_neigh is_new family ifindex attrs s = elim (find_port tun_index num_ports 0 ifindex) [
      | none ↦ s
      | some i ↦
          let info = neigh_attrs attrs no_neigh in
          if family == af_inet
          then (let (neigh, pool) =
                change_neigh is_new family info (s.neigh_inet i) s.fib_state.pool in
              record s {
                neigh_inet = update s.neigh_inet i neigh;
                fib_state = record s.fib_state { pool = pool };
              })
          else if family == af_inet6
          then (let (neigh, pool) =
                change_neigh is_new family info (s.neigh_inet6 i) s.fib_state.pool in
              record s {
                neigh_inet6 = update s.neigh_inet6 i neigh;
                fib_state = record s.fib_state { pool = pool };
              })
          else s
    ]

    unfoldable pub netlink_message : Message → TableState → TableState
    netlink_message (route_message is_new family dst_len rtm_table attrs) s =
        netlink_route is_new family dst_len rtm_table attrs s
    netlink_message (neigh_message is_new family ifindex attrs) s =
        netlink_neigh is_new family ifindex attrs s
    netlink_message unknown_message s = s

    unfoldable pub netlink_process : List Message → TableState → TableState
    netlink_process [] s = s
    netlink_process (m ∷ ms) s = netlink_process ms (netlink_message m s)
