-- ===== src/Forward/Tests.antt =====
-- A packet to 10.0.1.5 over port 3, whose prefix 10.0.1.0/24 is on a link.
use ufp.Common.{
  ℕ, ◌+◌, ◌-◌, ◌*◌, ◌%◌, ◌≡◌, refl, true, false, Option, none, some, [], ◌∷◌, ◌++◌, ◌==◌,
  if◌then◌else◌, arith, All,
}
use mathlib.Core.Option
use ufp.Pool.{Pool}
use ufp.Hash.{hash_init}
use ufp.Lpm.{Node, lpm_init}
use ufp.Fib.{link, port, FibEntry, FibState, fill_entry, fib_route_update, fib_lookup, af_inet}
use ufp.Neigh.{NeighEntry, NeighTable, fill_neigh, neigh_add, eth_alen, empty_table, ops_v4}
use ufp.Io.{Ring, Port, Packet, RingOps}
use ufp.Io.Queue.{IsRing, pending}
use ufp.Forward.{
  Frame, IpHeader, Ip6Header, Thread, update_check, network_order, find_neigh, forward_frame,
  forward_ip_process,
}
use ufp.Forward.Process.{PlaneState, forward_packet, forward_process}
use ufp.Lpm.Spec.{IsWellFormed}
use ufp.Lpm.Longest.{lpm_init-IsWellFormed}
use ufp.Fib.Routes.{len_of, fib_route_update-routes}
use ufp.Forward.Ip.{
  update_check-valid, IsForwarded, forward_ip_process-IsForwarded, forward_ip_process-local,
}
use ufp.Forward.Drop.{forward_process-released, forward_packet-queued}

-- a pool that hands out addresses in order
abbrev counter : Pool ℕ
counter = record { mem_alloc = λ size next. some (next, next + 1); mem_free = λ a next. next }

abbrev zeros : ℕ → ℕ
zeros _ = 0

-- 10.0.b.c as the first word of an address
abbrev ten : ℕ → ℕ → ℕ → ℕ
ten b c w = if w == 0 then 0x0a000000 + b * 256 + c else 0

abbrev routes : ℕ → Node FibEntry ℕ
routes =
    (fib_route_update counter zeros lpm_init af_inet link (ten 1 0) 24 zeros (port 3) 7
      (record { refcount = λ _. 0; pool = 1 })).1

abbrev added_state : FibState ℕ
added_state =
    (fib_route_update counter zeros lpm_init af_inet link (ten 1 0) 24 zeros (port 3) 7
      (record { refcount = λ _. 0; pool = 1 })).2

abbrev empty : NeighTable counter
empty = empty_table counter 0 (ops_v4 counter)

abbrev neighbours : NeighTable counter
neighbours =
    (neigh_add counter zeros zeros empty af_inet (network_order (ten 1 5)) (λ i. 64 + i) 9).1

abbrev entry : FibEntry
entry = fill_entry 1 zeros 1 link (ten 1 0) 24 zeros (port 3) 7

abbrev neigh : NeighEntry
neigh = fill_neigh counter 9 zeros zeros 1 (network_order (ten 1 5)) (λ i. 64 + i)

-- the number of packets to TUN devices is counted
abbrev thread : Thread counter ℕ
thread = record {
  fib_inet = routes;
  fib_inet6 = lpm_init;
  neigh_inet = λ _. neighbours;
  neigh_inet6 = λ _. empty;
  ufp_macaddr = λ p i. 16 * p + i;
  write_tun = λ p frame w. w + 1;
  is_linklocal = λ _. false;
}

abbrev frame_to : (ℕ → ℕ) → Frame
frame_to daddr = record {
  h_dest = zeros;
  h_source = zeros;
  h_proto = 0x0800;
  ip = record { ttl = 64; check = 0xFFFE; daddr = daddr };
  ip6 = record { hlim = 0; dst = zeros };
}

program : Unit {0}
unfolding fib_route_update fill_entry ufp.Fib.new_entry fib_lookup ufp.Fib.fib_entry_identify
    ufp.Fib.fib_entry_compare ufp.Fib.copy_words ufp.Fib.fib_entry_pull ufp.Fib.fib_entry_put
    ufp.Lpm.Update.lpm_add ufp.Lpm.Update.add_below ufp.Lpm.Update.open_table
    ufp.Lpm.Update.insert_range ufp.Lpm.Update.insert_one ufp.Lpm.Update.lpm_entry_insert
    ufp.Lpm.Update.scan ufp.Lpm.insert_at ufp.Lpm.lpm_index ufp.Lpm.lpm_lookup ufp.Lpm.lookup_below
    lpm_init ufp.Lpm.lpm_init_node Option.map hash_init ufp.Hash.hash_add ufp.Hash.hash_lookup
    ufp.Hash.find neigh_add ufp.Neigh.insert_neigh fill_neigh ufp.Neigh.neigh_lookup
    ufp.Neigh.neigh_key_generate_v4 ufp.Neigh.neigh_key_compare_v4 find_neigh ufp.Forward.set_macs
    update_check forward_ip_process forward_frame
program = tt

route_found : fib_lookup routes (ten 1 5) ≡ some entry
unfolding program
route_found = refl

over_port : entry.port_index ≡ port 3
unfolding program
over_port = refl

neigh_found : find_neigh neighbours entry (ten 1 5) ≡ some neigh
unfolding program
neigh_found = refl

update_check-valid_example : (1 + (64 - 1) + update_check 0xFFBE) % 65535 ≡ 0
update_check-valid_example =
    update_check-valid 1 64 0xFFBE (omega arith) (omega arith) (omega arith)

abbrev forwarded : Option ℕ × Frame × ℕ
forwarded = forward_ip_process thread 0 (frame_to (ten 1 5)) 0

routes_run :
    fib_route_update counter zeros lpm_init af_inet link
      (ten 1 0)
      24
      zeros
      (port 3)
      7
      (record { refcount = λ _. 0; pool = 1 })
    ≡ (true, routes, added_state)
unfolding program
routes_run = refl

routes-IsWellFormed : IsWellFormed len_of routes
routes-IsWellFormed =
    (fib_route_update-routes counter zeros lpm_init af_inet link (ten 1 0) 24 zeros (port 3) 7
      (record { refcount = λ _. 0; pool = 1 }) routes added_state routes_run (omega arith)
      (lpm_init-IsWellFormed ℕ len_of).0).3

goes_out : forwarded.0 ≡ some 3
unfolding program
goes_out = refl

-- a packet of TCP
forward_ip_process-IsForwarded_example :
    IsForwarded thread 63936 6 3 (frame_to (ten 1 5)) 0 forwarded
forward_ip_process-IsForwarded_example =
    forward_ip_process-IsForwarded thread 63936 6 0 3 (frame_to (ten 1 5)) 0 routes-IsWellFormed
      (omega arith) (omega arith) (omega arith) (omega arith) goes_out

-- 10.0.1.9 has no neighbour
abbrev kept_frame : Option ℕ × Frame × ℕ
kept_frame = forward_ip_process thread 0 (frame_to (ten 1 9)) 0

kept_here : kept_frame.0 ≡ none
unfolding program
kept_here = refl

forward_ip_process-local_test :
    (kept_frame.1 ≡ frame_to (ten 1 9))
    × (kept_frame.2 ≡ (elim (fib_lookup routes (ten 1 9)) [ none ↦ 0 | some _ ↦ 0 + 1 ]))
forward_ip_process-local_test = forward_ip_process-local thread 0 (frame_to (ten 1 9)) 0 kept_here

-- a device that does nothing
abbrev ops : RingOps ℕ
ops = record {
  fill_rx_desc = λ index addr_dma dev. dev;
  fetch_rx_desc = λ index dev. (none, dev);
  fill_tx_desc = λ index addr_dma packet dev. dev;
  fetch_tx_desc = λ index dev. (false, dev);
}

abbrev ring : Ring
ring = record { tail = 0; next_to_use = 2; next_to_clean = 0; slot_index = λ i. 7 + i }

abbrev a_port : Port
a_port = record {
  rx_ring = ring;
  tx_ring = ring;
  num_rx_desc = 4;
  num_tx_desc = 4;
  rx_budget = 2;
  tx_budget = 2;
  rx_slot_next = 0;
  rx_slot_offset = 0;
  tx_suspended = 0;
  count_rx_alloc_failed = 0;
  count_rx_clean_total = 0;
  count_tx_xmit_failed = 0;
  count_tx_clean_total = 0;
}

abbrev start : PlaneState ℕ ℕ
start = record {
  ports = λ _. a_port;
  devs = λ _. 0;
  buf = record { addr_virt = 0; addr_dma = 0; slot_size = 2048; count = 16; slots = λ _. 1 };
  frames = λ _. frame_to (ten 1 5);
  tun = 0;
}

abbrev packet : ℕ → Packet
packet i = record { slot_buf = 2048 * i; slot_size = 60; slot_index = i; flag = 2 }

ring-IsRing : IsRing 4 ring
ring-IsRing = record {
  use_bound = omega arith;
  clean_bound = omega arith;
  size_bound = omega arith;
}

to_port_3 : (forward_frame thread 0 (frame_to (ten 1 5)) 0).0 ≡ some 3
unfolding program
to_port_3 = refl

forward_process-released_example :
    All
      (λ p.
        (forward_process ops thread 0 (packet 3 ∷ packet 4 ∷ []) start).buf.slots p.slot_index ≡ 0)
      (packet 3 ∷ packet 4 ∷ [])
forward_process-released_example =
    forward_process-released ops thread 0 (packet 3 ∷ packet 4 ∷ []) start

forward_packet-queued_example :
    let after = forward_packet ops thread 0 (packet 3) start in
    (pending (after.ports 3).num_tx_desc (after.ports 3).tx_ring ≡ pending 4 ring ++ (3 ∷ []))
    × (after.buf.slots 3 ≡ 0)
forward_packet-queued_example =
    forward_packet-queued ops thread 0 (packet 3) start 3 refl to_port_3 ring-IsRing (omega arith)
