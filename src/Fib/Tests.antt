-- ===== src/Fib/Tests.antt =====
-- Routes of a small table, and the theorems of Fib/Routes.antt at it.
use ufp.Common.{
  ℕ, zero, suc, ◌+◌, ◌*◌, Bool, ◌≡◌, ◌≢◌, ◌<◌, ◌≤◌, ltb, ◌↔◌, refl, true, false, ◌==◌,
  if◌then◌else◌, Option, none, some, [], All, head?, false, arith,
}
use mathlib.Core.Option
use ufp.Pool.{Pool}
use ufp.Lpm.{Node, lpm_init, lpm_index, lpm_lookup}
use ufp.Lpm.Spec.{covers, routes, insert_by_len, IsWellFormed}
use ufp.Lpm.Change.{apply_if}
use ufp.Lpm.Erase.{erase_route}
use ufp.Lpm.Longest.{lpm_init-IsWellFormed}
use ufp.Lpm.Lookup.{lpm_lookup-routes}
use ufp.Fib.{
  FibType, link, forward, PortIndex, port, FibEntry, FibState, strides, af_inet, new_entry,
  fib_route_update, fib_route_delete, fib_lookup,
}
use ufp.Fib.{af_inet6, fib_callbacks}
use ufp.Lpm.Success.{IsNew}
use ufp.Fib.Success.{PoolHasRoom, fib_route_update-done}
use ufp.Fib.Routes.{
  len_of, id_of, fib_route_update-routes, fib_lookup-fib_route_update, fib_route_update_family,
  fib_route_delete-routes, fib_lookup-longest, fib_lookup-none,
}

-- a pool that hands out addresses in order
abbrev counter : Pool ℕ
counter = record { mem_alloc = λ size next. some (next, next + 1); mem_free = λ a next. next }

abbrev start : FibState ℕ
start = record { refcount = λ _. 0; pool = 1 }

-- 10.0.b.c as the first word of an address
abbrev ten : ℕ → ℕ → ℕ → ℕ
ten b c w = if w == 0 then 0x0a000000 + b * 256 + c else 0

abbrev Table : Type 0
Table = ℕ → Node FibEntry ℕ

-- 10.0.1.0/24 over 10.0.1.2
abbrev added : Bool × Table × FibState ℕ
added =
    fib_route_update counter (λ _. 0) lpm_init af_inet forward (ten 1 0) 24 (ten 1 2) (port 3) 7
      start

-- then 10.0.1.0/26
abbrev nested : Bool × Table × FibState ℕ
nested =
    fib_route_update counter (λ _. 0) added.1 af_inet link (ten 1 0) 26 (ten 0 0) (port 4) 7 added.2

abbrev removed : Bool × Table × FibState ℕ
removed = fib_route_delete counter nested.1 (ten 1 0) 26 7 nested.2

program : Unit {0}
unfolding fib_route_update new_entry fib_route_delete fib_lookup ufp.Fib.fib_entry_identify
    ufp.Fib.fib_entry_compare ufp.Fib.copy_words ufp.Fib.fib_entry_pull ufp.Fib.fib_entry_put
    ufp.Lpm.Update.lpm_add ufp.Lpm.Update.add_below ufp.Lpm.Update.open_table
    ufp.Lpm.Update.insert_range ufp.Lpm.Update.insert_one ufp.Lpm.Update.lpm_entry_insert
    ufp.Lpm.Update.scan ufp.Lpm.insert_at lpm_index lpm_lookup ufp.Lpm.lookup_below lpm_init
    ufp.Lpm.lpm_init_node ufp.Lpm.Delete.lpm_delete ufp.Lpm.Delete.delete_below
    ufp.Lpm.Update.delete_range ufp.Lpm.Update.lpm_entry_delete ufp.Lpm.Update.close_table
    ufp.Lpm.all_unused covers ufp.Lpm.Spec.covers_below routes ufp.Lpm.Spec.candidates insert_by_len
    erase_route Option.map
program = tt

port_of : Option FibEntry → Option PortIndex
port_of o = Option.map (λ e. e.port_index) o

-- the nested prefix wins inside it, and the outer one outside and after the deletion
lookups :
    (port_of (fib_lookup nested.1 (ten 1 5)) ≡ some (port 4))
    × (port_of (fib_lookup nested.1 (ten 1 200)) ≡ some (port 3))
    × (port_of (fib_lookup nested.1 (ten 2 5)) ≡ none)
    × (port_of (fib_lookup removed.1 (ten 1 5)) ≡ some (port 3))
unfolding program port_of
lookups = (refl, refl, refl, refl)

added_run :
    fib_route_update counter
      (λ _. 0)
      lpm_init
      af_inet
      forward
      (ten 1 0)
      24
      (ten 1 2)
      (port 3)
      7
      start
    ≡ (true, added.1, added.2)
unfolding program
added_run = refl

nested_run :
    fib_route_update counter (λ _. 0) added.1 af_inet link (ten 1 0) 26 (ten 0 0) (port 4) 7 added.2
    ≡ (true, nested.1, nested.2)
unfolding program
nested_run = refl

removed_run :
    fib_route_delete counter nested.1 (ten 1 0) 26 7 nested.2 ≡ (true, removed.1, removed.2)
unfolding program
removed_run = refl

init-IsWellFormed : IsWellFormed {Block = ℕ} len_of lpm_init
init-IsWellFormed = (lpm_init-IsWellFormed ℕ len_of).0

fib_route_update-routes_example :
    (addr : ℕ) × (e : FibEntry) × (new_entry addr
        (λ _. 0)
        af_inet
        forward
        (ten 1 0)
        24
        (ten 1 2)
        (port 3)
        7
      ≡ some e)
    × IsWellFormed len_of added.1
    × ((dst : ℕ → ℕ)
        → routes added.1 dst
          ≡ apply_if
              (covers strides (ten 1 0) 24 dst)
              (insert_by_len len_of e)
              (routes {Block = ℕ} lpm_init dst))
fib_route_update-routes_example =
    fib_route_update-routes counter (λ _. 0) lpm_init af_inet forward (ten 1 0) 24 (ten 1 2)
      (port 3) 7 start added.1 added.2 added_run (omega arith) init-IsWellFormed

added-IsWellFormed : IsWellFormed len_of added.1
added-IsWellFormed =
    (fib_route_update-routes counter (λ _. 0) lpm_init af_inet forward (ten 1 0) 24 (ten 1 2)
      (port 3) 7 start added.1 added.2 added_run (omega arith) init-IsWellFormed).3

nested-IsWellFormed : IsWellFormed len_of nested.1
nested-IsWellFormed =
    (fib_route_update-routes counter (λ _. 0) added.1 af_inet link (ten 1 0) 26 (ten 0 0) (port 4) 7
      added.2 nested.1 nested.2 nested_run (omega arith) added-IsWellFormed).3

nested_covers : covers strides (ten 1 0) 26 (ten 1 5) ≡ true
unfolding program
nested_covers = refl

nested_shorter : All (λ q. len_of q ≤ 26) (routes added.1 (ten 1 5))
unfolding program
nested_shorter = omega arith

fib_lookup-fib_route_update_example :
    (addr : ℕ) × (e : FibEntry) × (new_entry addr
        (λ _. 0)
        af_inet
        link
        (ten 1 0)
        26
        (ten 0 0)
        (port 4)
        7
      ≡ some e)
    × (fib_lookup nested.1 (ten 1 5) ≡ some e)
fib_lookup-fib_route_update_example =
    fib_lookup-fib_route_update counter (λ _. 0) added.1 af_inet link (ten 1 0) 26 (ten 0 0)
      (port 4) 7 added.2 nested.1 nested.2 (ten 1 5) nested_run (omega arith) added-IsWellFormed
      nested_covers nested_shorter

fib_route_update_family_test :
    let r =
      fib_route_update counter (λ _. 0) added.1 7 link (ten 1 0) 26 (ten 0 0) (port 4) 7 added.2 in
    (r.0 ≡ false) × (r.1 ≡ added.1) × (r.2.refcount ≡ added.2.refcount)
fib_route_update_family_test =
    fib_route_update_family counter (λ _. 0) added.1 7 link (ten 1 0) 26 (ten 0 0) (port 4) 7
      added.2 (omega arith) (omega arith)

fib_route_delete-routes_example :
    IsWellFormed len_of removed.1
    × ((dst : ℕ → ℕ)
        → routes removed.1 dst
          ≡ apply_if
              (covers strides (ten 1 0) 26 dst)
              (erase_route id_of len_of 7 26)
              (routes nested.1 dst))
fib_route_delete-routes_example =
    fib_route_delete-routes counter nested.1 (ten 1 0) 26 7 nested.2 removed.1 removed.2 removed_run
      (omega arith) nested-IsWellFormed

abbrev entry : FibEntry
entry =
    (fib_lookup-fib_route_update counter (λ _. 0) added.1 af_inet link (ten 1 0) 26 (ten 0 0)
      (port 4) 7 added.2 nested.1 nested.2 (ten 1 5) nested_run (omega arith) added-IsWellFormed
      nested_covers nested_shorter).1

entry_found : fib_lookup nested.1 (ten 1 5) ≡ some entry
entry_found =
    (fib_lookup-fib_route_update counter (λ _. 0) added.1 af_inet link (ten 1 0) 26 (ten 0 0)
      (port 4) 7 added.2 nested.1 nested.2 (ten 1 5) nested_run (omega arith) added-IsWellFormed
      nested_covers nested_shorter).3

fib_lookup-longest_example :
    (head? (routes nested.1 (ten 1 5)) ≡ some entry)
    × All (λ q. len_of q ≤ len_of entry) (routes nested.1 (ten 1 5))
fib_lookup-longest_example =
    fib_lookup-longest nested.1 (ten 1 5) entry nested-IsWellFormed entry_found

fib_lookup-none_test : (fib_lookup nested.1 (ten 2 5) ≡ none) ↔ (routes nested.1 (ten 2 5) ≡ [])
fib_lookup-none_test = fib_lookup-none nested.1 (ten 2 5)

lpm_lookup-routes_example :
    Option.map (λ e. e.ptr) (lpm_lookup nested.1 (ten 1 200)) ≡ head? (routes nested.1 (ten 1 200))
lpm_lookup-routes_example = lpm_lookup-routes nested.1 (ten 1 200)

-- 2001:db8::/48
abbrev six : ℕ → ℕ
six w = if w == 0 then 0x20010db8 else 0

init-IsNew : (i : ℕ) → IsNew {Block = ℕ} (fib_callbacks counter) 7 48 (lpm_init i)
unfolding lpm_init ufp.Lpm.lpm_init_node
init-IsNew i = tt

-- a pool that can serve so many requests of at most 4096 bytes
abbrev stock : Pool ℕ
stock = record {
  mem_alloc = λ size left.
      if ltb 4096 size then none else elim left [ zero ↦ none | suc n ↦ some (suc n, n) ];
  mem_free = λ a left. left;
}

stock_serves : (n left : ℕ) → n ≤ 4096 → 0 < left → Pool.mem_alloc stock n left ≢ none
stock_serves n zero small some_left e = absurd (omega arith)
stock_serves n (suc left) small some_left e = absurd (ground (arith, e))

stock_takes :
    (n left left' addr : ℕ)
    → n ≤ 4096
    → Pool.mem_alloc stock n left ≡ some (addr, left')
    → left ≤ suc left'
stock_takes n zero left' addr small e = omega arith
stock_takes n (suc left) left' addr small e = ground (arith, e)

stock-PoolHasRoom : PoolHasRoom stock (λ left. left)
stock-PoolHasRoom = record {
  serves = λ n left small some_left e. stock_serves n left small some_left e;
  takes = λ n left left' addr small e. stock_takes n left left' addr small e;
}

fib_route_update-done_example :
    (fib_route_update stock
      (λ _. 0)
      lpm_init
      af_inet6
      forward
      six
      48
      six
      (port 3)
      7
      (record { refcount = λ _. 0; pool = 300 })).0
    ≡ true
fib_route_update-done_example =
    fib_route_update-done stock (λ _. 0) lpm_init af_inet6 forward six 48 six (port 3) 7
      (record { refcount = λ _. 0; pool = 300 }) (λ left. left) stock-PoolHasRoom (omega arith) refl
      (omega arith) init-IsNew
