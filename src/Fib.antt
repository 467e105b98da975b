-- ===== src/Fib.antt =====
-- src/fib.c and src/fib.h: the forwarding information base, a longest-prefix-match table of routes
-- that are counted by their references.
mod Tests
pub mod Routes
pub mod Success
use ufp.Common.{
  ℕ, ◌+◌, ◌-◌, ◌%◌, ◌^◌, Bool, true, false, ◌&&◌, Option, none, some, ltb, ◌==◌, if◌then◌else◌,
  sub32, update,
}
use ufp.Pool.{Pool}
use ufp.Lpm.{Callbacks, Entry, Node, lpm_init, lpm_lookup}
use ufp.Lpm.Update.{lpm_add}
use ufp.Lpm.Delete.{lpm_delete, lpm_delete_all}
use mathlib.Core.Option

-- `enum fib_type`
pub data FibType : Type 0 where
  forward link local : FibType

-- `port_index` is an `int`; a negative one is a port of another interface.
pub data PortIndex : Type 0 where
  port : ℕ → PortIndex
  other : PortIndex

-- `struct fib_entry` at the address `addr`, less its counter: these fields are written once, before
-- the entry is in a table. Addresses are 32-bit words of network order, and `id` is converted to an
-- unsigned number as the comparison in `fib_entry_identify` does.
pub record FibEntry : Type 0 where
  pub addr : ℕ
  pub prefix : ℕ → ℕ
  pub prefix_len : ℕ
  pub nexthop : ℕ → ℕ
  pub port_index : PortIndex
  pub type : FibType
  pub id : ℕ

-- the counters `refcount` of the entries by their address, and the memory pool
pub record FibState (S : Type 0) : Type 0 where
  pub refcount : ℕ → ℕ
  pub pool : S

abbrev pub fib_entry_bytes : ℕ
fib_entry_bytes = 52

-- `sizeof(struct fib)`: 2 ^ 16 nodes and five callbacks
abbrev pub fib_bytes : ℕ
fib_bytes = 0x100028

abbrev pub af_inet : ℕ
af_inet = 2

abbrev pub af_inet6 : ℕ
af_inet6 = 10

-- The fuel of a table of 128-bit addresses: 14 strides of 8 bits below the first of 16.
abbrev pub strides : ℕ
strides = 14

unfoldable pub fib_entry_identify : FibEntry → ℕ → ℕ → ℕ
fib_entry_identify entry id prefix_len =
    if (entry.id == id) && (entry.prefix_len == prefix_len) then 0 else 1

unfoldable pub fib_entry_compare : FibEntry → ℕ → ℕ
fib_entry_compare entry prefix_len = if ltb prefix_len entry.prefix_len then 1 else 0

-- `memcpy` of `n` words over the content of a new block
unfoldable pub copy_words : ℕ → (ℕ → ℕ) → (ℕ → ℕ) → ℕ → ℕ
copy_words n old src w = if ltb w n then src w else old w

-- the fields that `fib_route_update` writes, with `words` words of each address
unfoldable pub fill_entry :
    ℕ → (ℕ → ℕ) → ℕ → FibType → (ℕ → ℕ) → ℕ → (ℕ → ℕ) → PortIndex → ℕ → FibEntry
fill_entry addr old words type prefix prefix_len nexthop port_index id = record {
  addr = addr;
  prefix = copy_words words old prefix;
  prefix_len = prefix_len;
  nexthop = copy_words words old nexthop;
  port_index = port_index;
  type = type;
  id = id;
}

-- the filled entry, or `none` for another family (`err_invalid_family`)
unfoldable pub new_entry :
    ℕ → (ℕ → ℕ) → ℕ → FibType → (ℕ → ℕ) → ℕ → (ℕ → ℕ) → PortIndex → ℕ → Option FibEntry
unfolding fill_entry
new_entry addr old family type prefix prefix_len nexthop port_index id =
    if family == af_inet
    then some (fill_entry addr old 1 type prefix prefix_len nexthop port_index id)
    else if family == af_inet6
    then some (fill_entry addr old 4 type prefix prefix_len nexthop port_index id)
    else none

module _ {S : Type 0} (mem : Pool S) where
  open mem use {mem_alloc, mem_free}

  unfoldable pub fib_entry_pull : FibEntry → FibState S → FibState S
  fib_entry_pull entry s = record s {
    refcount = update s.refcount entry.addr ((s.refcount entry.addr + 1) % 2 ^ 32);
  }

  -- an entry without references is freed
  unfoldable pub fib_entry_put : FibEntry → FibState S → FibState S
  fib_entry_put entry s =
      let count = sub32 (s.refcount entry.addr) 1 in
      record s {
        refcount = update s.refcount entry.addr count;
        pool = if count == 0 then mem_free entry.addr s.pool else s.pool;
      }

  abbrev pub with_pool : FibState S → Option (ℕ × S) → Option (ℕ × FibState S)
  with_pool s none = none
  with_pool s (some (a, pool)) = some (a, record s { pool = pool })

  -- the callbacks that `fib_alloc` installs, and the pool as the table uses it
  abbrev pub fib_callbacks : Callbacks FibEntry ℕ (FibState S)
  fib_callbacks = record {
    entry_identify = fib_entry_identify;
    entry_compare = fib_entry_compare;
    entry_pull = fib_entry_pull;
    entry_put = fib_entry_put;
    mem_alloc = λ size s. with_pool s (mem_alloc size s.pool);
    mem_free = λ a s. record s { pool = mem_free a s.pool };
  }

  abbrev pub Table : Type 0
  Table = ℕ → Node FibEntry ℕ

  -- the block of the table and its contents, or NULL
  unfoldable pub fib_alloc : FibState S → Option (ℕ × Table × FibState S)
  fib_alloc s = elim (with_pool s (mem_alloc fib_bytes s.pool)) [
    | none ↦ none
    | some (a, s₁) ↦ some (a, lpm_init, s₁)
  ]

  unfoldable pub fib_release : ℕ → Table → FibState S → FibState S
  fib_release a table s =
      let (_, s₁) = lpm_delete_all fib_callbacks table s in record s₁ { pool = mem_free a s₁.pool }

  -- the end of `fib_route_update`: the entry that is not in the table is freed
  abbrev pub end_update : ℕ → Bool × Table × FibState S → Bool × Table × FibState S
  end_update addr (true, table, s) = (true, table, s)
  end_update addr (false, table, s) = (false, table, record s { pool = mem_free addr s.pool })

  -- `old` is what the block that is allocated for the entry held.
  unfoldable pub fib_route_update :
      (ℕ → ℕ)
      → Table
      → ℕ
      → FibType
      → (ℕ → ℕ)
      → ℕ
      → (ℕ → ℕ)
      → PortIndex
      → ℕ
      → FibState S
      → Bool × Table × FibState S
  fib_route_update old table family type prefix prefix_len nexthop port_index id s =
      elim (with_pool s (mem_alloc fib_entry_bytes s.pool)) [
        | none ↦ (false, table, s)
        | some (addr, s₁) ↦
            elim (new_entry addr old family type prefix prefix_len nexthop port_index id) [
              | none ↦ (false, table, record s₁ { pool = mem_free addr s₁.pool })
              | some entry ↦
                  let s₂ = record s₁ { refcount = update s₁.refcount addr 0 } in
                  end_update addr
                    (lpm_add fib_callbacks strides table prefix prefix_len id entry s₂)
            ]
      ]

  unfoldable pub fib_route_delete : Table → (ℕ → ℕ) → ℕ → ℕ → FibState S → Bool × Table × FibState S
  fib_route_delete table prefix prefix_len id s =
      lpm_delete fib_callbacks table prefix prefix_len id s

unfoldable pub fib_lookup : (ℕ → Node FibEntry ℕ) → (ℕ → ℕ) → Option FibEntry
fib_lookup table destination = Option.map (λ e. e.ptr) (lpm_lookup table destination)
