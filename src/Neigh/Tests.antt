-- ===== src/Neigh/Tests.antt =====
-- An IPv4 neighbour table with two neighbours.
use ufp.Common.{ℕ, ◌+◌, ◌*◌, ◌<◌, ◌≡◌, refl, true, false, none, some, ◌&&◌, ◌==◌, if◌then◌else◌}
use ufp.Pool.{Pool}
use ufp.Hash.{hash_bit, hash_size, HeadArray, hash_init}
use ufp.Hash.Map.{hash_init-IsValid}
use ufp.Neigh.Keys.{laws_v4, compare_v6, generate_v6-bound}
use ufp.Neigh.{
  neigh_key_compare_v6, neigh_key_generate_v6, double_word, ops_v4, NeighEntry, neigh_alloc,
  neigh_add, neigh_delete, neigh_lookup, eth_alen,
}
use ufp.Neigh.Table.{empty-lookup, same_address, table, IsReady}
use ufp.Neigh.Map.{neigh_alloc-map, neigh_add-map, neigh_add-present, neigh_delete-map}

-- a pool that hands out addresses in order
abbrev counter : Pool ℕ
counter = record { mem_alloc = λ size next. some (next, next + 1); mem_free = λ a next. next }

abbrev Head : Type 0
Head = HeadArray (ℕ → ℕ) NeighEntry

abbrev zeros : ℕ → ℕ
zeros _ = 0

-- 10.0.0.n, as its bytes are loaded on a little-endian machine
abbrev host : ℕ → ℕ → ℕ
host n w = if w == 0 then n * 0x1000000 + 10 else 0

abbrev mac : ℕ → ℕ → ℕ
mac n i = n + i

neigh_alloc-map_test :
    (head : Head) × (neigh_alloc counter 2 0 ≡ (some (table counter 2 0 head), 1))
    × IsReady counter 2 head
    × ((q : ℕ → ℕ) → neigh_lookup counter (table counter 2 0 head) q ≡ none)
neigh_alloc-map_test = neigh_alloc-map counter 2 0 1 0 refl refl

abbrev empty : Head
empty = hash_init (ℕ → ℕ) NeighEntry

empty-IsReady : IsReady counter 2 empty
empty-IsReady = (hash_init-IsValid (ops_v4 counter) (laws_v4 counter)).0

empty_absent : (q : ℕ → ℕ) → neigh_lookup counter (table counter 2 0 empty) q ≡ none
empty_absent = empty-lookup counter 2 0

neigh_add-map_example :
    (head' : Head) × (e : NeighEntry) × (neigh_add counter zeros zeros
        (table counter 2 0 empty)
        2
        (host 1)
        (mac 3)
        1
      ≡ (true, table counter 2 0 head', 2))
    × IsReady counter 2 head'
    × ((i : ℕ) → i < eth_alen → e.dst_mac i ≡ mac 3 i)
    × ((q : ℕ → ℕ)
        → neigh_lookup counter (table counter 2 0 head') q ≡ (
            if same_address 2 q (host 1)
            then some e
            else neigh_lookup counter (table counter 2 0 empty) q))
neigh_add-map_example =
    neigh_add-map counter zeros zeros 2 0 empty (host 1) (mac 3) 1 2 1 refl refl empty-IsReady
      (empty_absent (host 1))

abbrev one : Head
one =
    (neigh_add-map counter zeros zeros 2 0 empty (host 1) (mac 3) 1 2 1 refl refl empty-IsReady
      (empty_absent (host 1))).0

abbrev entry : NeighEntry
entry =
    (neigh_add-map counter zeros zeros 2 0 empty (host 1) (mac 3) 1 2 1 refl refl empty-IsReady
      (empty_absent (host 1))).1

one-IsReady : IsReady counter 2 one
one-IsReady =
    (neigh_add-map counter zeros zeros 2 0 empty (host 1) (mac 3) 1 2 1 refl refl empty-IsReady
      (empty_absent (host 1))).3

one_present : neigh_lookup counter (table counter 2 0 one) (host 1) ≡ some entry
one_present =
    (neigh_add-map counter zeros zeros 2 0 empty (host 1) (mac 3) 1 2 1 refl refl empty-IsReady
        (empty_absent (host 1))).5
      (host 1)

neigh_add-present_test :
    neigh_add counter zeros zeros (table counter 2 0 one) 2 (host 1) (mac 7) 2
    ≡ (false, table counter 2 0 one, 3)
neigh_add-present_test =
    neigh_add-present counter zeros zeros 2 0 one (host 1) (mac 7) 2 3 2 entry refl refl one_present

neigh_delete-map_example :
    (head' : Head) × (neigh_delete counter (table counter 2 0 one) (host 1) 3
      ≡ (true, table counter 2 0 head', 3))
    × IsReady counter 2 head'
    × ((q : ℕ → ℕ)
        → neigh_lookup counter (table counter 2 0 head') q ≡ (
            if same_address 2 q (host 1)
            then none
            else neigh_lookup counter (table counter 2 0 one) q))
neigh_delete-map_example = neigh_delete-map counter 2 0 one (host 1) 3 entry one-IsReady one_present

-- 2001:db8::n
abbrev host6 : ℕ → ℕ → ℕ
host6 n w = if w == 0 then 0xb80d0120 else if w == 3 then n * 0x1000000 else 0

compare_v6_test : (neigh_key_compare_v6 (host6 1) (host6 2) == 0) ≡ (
    (double_word (host6 1) 0 == double_word (host6 2) 0)
    && (double_word (host6 1) 1 == double_word (host6 2) 1))
compare_v6_test = compare_v6 (host6 1) (host6 2)

generate_v6-bound_test : neigh_key_generate_v6 (host6 1) hash_bit < hash_size
generate_v6-bound_test = generate_v6-bound (host6 1)
