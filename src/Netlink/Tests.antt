-- ===== src/Netlink/Tests.antt =====
-- A message about the IPv4 neighbour 10.0.0.1 of the second of three ports.
use ufp.Common.{ℕ, ◌+◌, ◌<◌, ◌≤◌, ◌≡◌, ◌≢◌, refl, true, some, List, [], ◌∷◌, ◌==◌, if◌then◌else◌}
use ufp.Pool.{Pool}
use ufp.Hash.{HeadArray, hash_init}
use ufp.Hash.Map.{hash_init-IsValid}
use ufp.Lpm.{lpm_init}
use ufp.Fib.{af_inet}
use ufp.Neigh.{NeighEntry, neigh_lookup, eth_alen, ops_v4}
use ufp.Neigh.Keys.{laws_v4}
use ufp.Neigh.Table.{same_address, table, IsReady, empty-lookup}
use ufp.Neigh.Map.{neigh_add-map}
use ufp.Forward.{network_order}
use ufp.Netlink.{
  NeighAttr, nda_dst, nda_lladdr, neigh_attrs, neigh_attr, no_neigh, find_port, TableState,
  netlink_neigh,
}
use ufp.Netlink.Neighbours.{find_port-first, netlink_neigh-add, netlink_neigh-stale}

-- a pool that hands out addresses in order
abbrev counter : Pool ℕ
counter = record { mem_alloc = λ size next. some (next, next + 1); mem_free = λ a next. next }

abbrev zeros : ℕ → ℕ
zeros _ = 0

abbrev tun_index : ℕ → ℕ
tun_index i = 10 + i

abbrev host : ℕ → ℕ
host w = if w == 0 then 0x0a000001 else 0

abbrev attrs : ℕ → List NeighAttr
attrs mac = nda_dst 1 host ∷ nda_lladdr 6 (λ b. mac + b) ∷ []

abbrev empty : HeadArray (ℕ → ℕ) NeighEntry
empty = hash_init (ℕ → ℕ) NeighEntry

abbrev tables : HeadArray (ℕ → ℕ) NeighEntry → TableState counter
tables head = record {
  fib_inet = lpm_init;
  fib_inet6 = lpm_init;
  neigh_inet = λ _. table counter af_inet 0 head;
  neigh_inet6 = λ _. table counter 10 0 empty;
  fib_state = record { refcount = zeros; pool = 1 };
}

found : find_port tun_index 3 0 11 ≡ some 1
unfolding find_port
found = refl

find_port-first_test :
    (0 ≤ 1) × (1 < 0 + 3) × (tun_index 1 ≡ 11) × ((j : ℕ) → 0 ≤ j → j < 1 → tun_index j ≢ 11)
find_port-first_test = find_port-first tun_index 3 0 11 1 found

empty-IsReady : IsReady counter af_inet empty
empty-IsReady = (hash_init-IsValid (ops_v4 counter) (laws_v4 counter)).0

abbrev key : ℕ → ℕ → ℕ
key mac = network_order (neigh_attrs (attrs mac) no_neigh).dst_addr

netlink_neigh-add_example :
    (e : NeighEntry) × ((b : ℕ)
      → b < eth_alen
      → e.dst_mac b ≡ (neigh_attrs (attrs 5) no_neigh).dst_mac b)
    × ((q : ℕ → ℕ)
        → neigh_lookup counter
            ((netlink_neigh counter zeros tun_index 3 true af_inet 11
                (attrs 5)
                (tables empty)).neigh_inet
              1)
            q
          ≡ (if same_address af_inet q (network_order (neigh_attrs (attrs 5) no_neigh).dst_addr)
              then some e
              else neigh_lookup counter (table counter af_inet 0 empty) q))
netlink_neigh-add_example =
    netlink_neigh-add counter zeros tun_index 3 11 (attrs 5) (tables empty) 1 0 1 empty 2 found refl
      empty-IsReady refl
      (empty-lookup counter af_inet 0 (network_order (neigh_attrs (attrs 5) no_neigh).dst_addr))

-- the table after a first message
abbrev one : HeadArray (ℕ → ℕ) NeighEntry
one =
    (neigh_add-map counter zeros zeros af_inet 0 empty (key 5) (λ b. 5 + b) 1 2 1 refl refl
      empty-IsReady (empty-lookup counter af_inet 0 (key 5))).0

abbrev entry : NeighEntry
entry =
    (neigh_add-map counter zeros zeros af_inet 0 empty (key 5) (λ b. 5 + b) 1 2 1 refl refl
      empty-IsReady (empty-lookup counter af_inet 0 (key 5))).1

one_present : neigh_lookup counter (table counter af_inet 0 one) (key 6) ≡ some entry
unfolding neigh_attrs neigh_attr ufp.Fib.copy_words
one_present =
    (neigh_add-map counter zeros zeros af_inet 0 empty (key 5) (λ b. 5 + b) 1 2 1 refl refl
        empty-IsReady (empty-lookup counter af_inet 0 (key 5))).5
      (key 6)

netlink_neigh-stale_example :
    let s' = netlink_neigh counter zeros tun_index 3 true af_inet 11 (attrs 6) (tables one) in
    ((j : ℕ) → s'.neigh_inet j ≡ (tables one).neigh_inet j)
    × (s'.neigh_inet6 ≡ (tables one).neigh_inet6)
netlink_neigh-stale_example =
    netlink_neigh-stale counter zeros tun_index 3 11 (attrs 6) (tables one) 1 0 one entry found refl
      one_present
