-- ===== src/Neigh.antt =====
-- src/neigh.c and src/neigh.h: the neighbours of a port, a hash table of MAC addresses by address.
pub mod Keys
pub mod Table
pub mod Map
mod Tests
use Prim.Native.Nat.{bit_xor}
use ufp.Common.{
  ℕ, ◌+◌, ◌*◌, ◌/◌, ◌%◌, ◌^◌, Bool, true, false, Option, none, some, ◌==◌, if◌then◌else◌, sub32,
}
use ufp.Pool.{Pool}
use ufp.Hash.{
  HashOps, HashEntry, HeadArray, hash_init, hash_add, hash_delete, hash_delete_all, hash_lookup,
}
use ufp.Fib.{af_inet, af_inet6, copy_words}

-- `struct neigh_entry` at the address `addr`; its `hash` is the node that holds it.
pub record NeighEntry : Type 0 where
  pub addr : ℕ
  pub dst_mac : ℕ → ℕ
  pub dst_addr : ℕ → ℕ

abbrev pub eth_alen : ℕ
eth_alen = 6

abbrev pub neigh_entry_bytes : ℕ
neigh_entry_bytes = 48

-- `sizeof(struct neigh_table)`: 2 ^ 16 heads of chains and three callbacks
abbrev pub neigh_table_bytes : ℕ
neigh_table_bytes = 0x80018

-- `*(uint32_t *)key` is word 0; the product is cut to the 32 bits of `hash`.
unfoldable pub neigh_key_generate_v4 : (ℕ → ℕ) → ℕ → ℕ
neigh_key_generate_v4 key bit_len = (key 0 * 0x9e370001) % 2 ^ 32 / 2 ^ sub32 32 bit_len

-- `((uint64_t *)key)[i]` on a little-endian machine
abbrev pub double_word : (ℕ → ℕ) → ℕ → ℕ
double_word key i = key (2 * i) + 2 ^ 32 * key (2 * i + 1)

unfoldable pub neigh_key_generate_v6 : (ℕ → ℕ) → ℕ → ℕ
neigh_key_generate_v6 key bit_len =
    let hash = (double_word key 0 * double_word key 1) % 2 ^ 64 in
    (hash * 0x9e37fffffffc0001) % 2 ^ 64 / 2 ^ sub32 64 bit_len

unfoldable pub neigh_key_compare_v4 : (ℕ → ℕ) → (ℕ → ℕ) → ℕ
neigh_key_compare_v4 key_tgt key_ent = if bit_xor (key_tgt 0) (key_ent 0) == 0 then 0 else 1

unfoldable pub neigh_key_compare_v6 : (ℕ → ℕ) → (ℕ → ℕ) → ℕ
neigh_key_compare_v6 key_tgt key_ent =
    if bit_xor (double_word key_tgt 0) (double_word key_ent 0) == 0
    then if bit_xor (double_word key_tgt 1) (double_word key_ent 1) == 0 then 0 else 1
    else 1

module _ {S : Type 0} (mem : Pool S) where
  open mem use {mem_alloc, mem_free}

  abbrev pub Ops : Type 0
  Ops = HashOps (ℕ → ℕ) NeighEntry S

  unfoldable pub neigh_entry_delete : NeighEntry → S → S
  neigh_entry_delete entry s = mem_free entry.addr s

  abbrev pub ops_v4 : Ops
  ops_v4 = record {
    hash_entry_delete = neigh_entry_delete;
    hash_key_generate = neigh_key_generate_v4;
    hash_key_compare = neigh_key_compare_v4;
  }

  abbrev pub ops_v6 : Ops
  ops_v6 = record {
    hash_entry_delete = neigh_entry_delete;
    hash_key_generate = neigh_key_generate_v6;
    hash_key_compare = neigh_key_compare_v6;
  }

  -- `struct neigh_table` at the address `block`
  pub record NeighTable : Type 0 where
    pub block : ℕ
    pub ops : Ops
    pub head : HeadArray (ℕ → ℕ) NeighEntry

  abbrev pub empty_table : ℕ → Ops → NeighTable
  empty_table block ops = record { block = block; ops = ops; head = hash_init (ℕ → ℕ) NeighEntry }

  unfoldable pub neigh_alloc : ℕ → S → Option NeighTable × S
  neigh_alloc family s = elim (mem_alloc neigh_table_bytes s) [
    | none ↦ (none, s)
    | some (block, s') ↦
        if family == af_inet
        then (some (empty_table block ops_v4), s')
        else if family == af_inet6
        then (some (empty_table block ops_v6), s')
        else (none, mem_free block s')
  ]

  unfoldable pub neigh_release : NeighTable → S → S
  neigh_release neigh s = mem_free neigh.block (hash_delete_all neigh.ops neigh.head s).1

  -- the entry with `words` words of the address, over what the block held
  unfoldable pub fill_neigh : ℕ → (ℕ → ℕ) → (ℕ → ℕ) → ℕ → (ℕ → ℕ) → (ℕ → ℕ) → NeighEntry
  fill_neigh addr old_mac old_dst words dst_addr mac_addr = record {
    addr = addr;
    dst_mac = copy_words eth_alen old_mac mac_addr;
    dst_addr = copy_words words old_dst dst_addr;
  }

  -- `hash_add` of the filled entry under its own copy of the address; freed if the key is present
  unfoldable pub insert_neigh : NeighTable → NeighEntry → S → Bool × NeighTable × S
  insert_neigh neigh entry s =
      let (added, head) = hash_add neigh.ops neigh.head entry.dst_addr entry in
      (added, record neigh { head = head }, if added then s else mem_free entry.addr s)

  unfoldable pub neigh_add :
      (old_mac old_dst : ℕ → ℕ)
      → NeighTable
      → ℕ
      → (dst_addr mac_addr : ℕ → ℕ) → S
      → Bool × NeighTable × S
  neigh_add old_mac old_dst neigh family dst_addr mac_addr s =
      elim (mem_alloc neigh_entry_bytes s) [
        | none ↦ (false, neigh, s)
        | some (addr, s') ↦
            if family == af_inet
            then insert_neigh neigh (fill_neigh addr old_mac old_dst 1 dst_addr mac_addr) s'
            else if family == af_inet6
            then insert_neigh neigh (fill_neigh addr old_mac old_dst 4 dst_addr mac_addr) s'
            else (false, neigh, mem_free addr s')
      ]

  unfoldable pub neigh_delete : NeighTable → (ℕ → ℕ) → S → Bool × NeighTable × S
  neigh_delete neigh dst_addr s =
      let (found, head, s') = hash_delete neigh.ops neigh.head dst_addr s in
      (found, record neigh { head = head }, s')

  unfoldable pub neigh_lookup : NeighTable → (ℕ → ℕ) → Option NeighEntry
  neigh_lookup neigh dst_addr = elim (hash_lookup neigh.ops neigh.head dst_addr) [
    | none ↦ none
    | some entry ↦ some entry.container
  ]
