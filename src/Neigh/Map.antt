-- ===== src/Neigh/Map.antt =====
-- src/neigh.c: a neighbour table refines a finite map from the addresses of its family.
use ufp.Common.{
  ℕ, ◌<◌, ◌≡◌, refl, ap, ◌==◌, if◌then◌else◌, arith, Bool-cases, ◌∙◌, inl, inr, true, false, none,
  some,
}
use ufp.Pool.{Pool}
use ufp.Hash.{HashOps, HeadArray, hash_init, hash_add, hash_delete}
use ufp.Hash.Chain.{same}
use ufp.Hash.Map.{
  hash_lookup-congr, hash_init-IsValid, hash_add-map, hash_add-present, hash_delete-map,
}
use ufp.Fib.{af_inet, af_inet6}
use ufp.Neigh.{
  NeighEntry, neigh_table_bytes, neigh_entry_bytes, eth_alen, neigh_alloc, neigh_add, fill_neigh,
  neigh_delete, neigh_lookup,
}
use ufp.Neigh.Table.{
  same_address, is_family, ops_of, laws_of, table, IsReady, same-address, filled, filled-same,
  same-filled, neigh_add-insert, empty-lookup, lookup-none, lookup-some, lookup-if,
  insert_neigh-added, insert_neigh-present, filled-mac, delete-frees, run_delete,
}

module _ {S : Type 0} (mem : Pool S) where
  -- For AF_INET and AF_INET6, a table mem that is allocated is a map with no entry.
  pub neigh_alloc-map :
      (family : ℕ) (s s' : S) (block : ℕ)
      → Pool.mem_alloc mem neigh_table_bytes s ≡ some (block, s')
      → is_family family ≡ true
      → (head : HeadArray (ℕ → ℕ) NeighEntry) × (neigh_alloc mem family s
          ≡ (some (table mem family block head), s'))
        × IsReady mem family head
        × ((q : ℕ → ℕ) → neigh_lookup mem (table mem family block head) q ≡ none)
  unfolding neigh_alloc
  neigh_alloc-map family s s' block alloc known = (
    hash_init (ℕ → ℕ) NeighEntry,
    rw (alloc, neigh_alloc)
        (elim (Bool-cases (family == af_inet)) [
          | inl e ↦ rw e refl
          | inr e ↦ let six : (family == af_inet6) ≡ true = ground arith in rw (e, six) refl
        ]),
    (hash_init-IsValid (ops_of mem family) (laws_of mem family)).0,
    empty-lookup mem family block,
  )

  -- Where the pool has memory for an entry, an address of the family of a valid table that is not in
  -- the table is added: it is found from then on with the first six bytes of the MAC address, every
  -- other address is found as before, and the table stays valid.
  pub neigh_add-map :
      (old_mac old_dst : ℕ → ℕ) (family block : ℕ) (head : HeadArray (ℕ → ℕ) NeighEntry)
      (dst_addr mac_addr : ℕ → ℕ) (s s' : S) (addr : ℕ)
      → Pool.mem_alloc mem neigh_entry_bytes s ≡ some (addr, s')
      → is_family family ≡ true
      → IsReady mem family head
      → neigh_lookup mem (table mem family block head) dst_addr ≡ none
      → (head' : HeadArray (ℕ → ℕ) NeighEntry) × (e : NeighEntry) × (neigh_add mem old_mac old_dst
            (table mem family block head)
            family
            dst_addr
            mac_addr
            s
          ≡ (true, table mem family block head', s'))
        × IsReady mem family head'
        × ((i : ℕ) → i < eth_alen → e.dst_mac i ≡ mac_addr i)
        × ((q : ℕ → ℕ)
            → neigh_lookup mem (table mem family block head') q ≡ (
                if same_address family q dst_addr
                then some e
                else neigh_lookup mem (table mem family block head) q))
  neigh_add-map old_mac old_dst family block head dst_addr mac_addr s s' addr alloc known v absent =
      let ops = ops_of mem family in
      let laws = laws_of mem family in
      let e = filled mem family addr old_mac old_dst dst_addr mac_addr in
      let same_key = same-filled mem family addr old_mac old_dst dst_addr mac_addr in
      let not_there =
        hash_lookup-congr ops laws head e.dst_addr dst_addr same_key
        ∙ lookup-none mem family block head dst_addr absent in
      let added = hash_add-map ops laws head e.dst_addr e v not_there in
      (
        (hash_add ops head e.dst_addr e).1,
        e,
        neigh_add-insert mem old_mac old_dst (table mem family block head) family dst_addr mac_addr
              s s' addr alloc known
            ∙ insert_neigh-added mem (table mem family block head) e s' added.0,
        added.1,
        filled-mac mem family addr old_mac old_dst dst_addr mac_addr,
        λ q.
            lookup-if mem family block head (hash_add ops head e.dst_addr e).1 q
              (same ops laws q e.dst_addr) (same_address family q dst_addr)
              (some (record { key = e.dst_addr; container = e })) (added.2 q)
              (same-address mem family q e.dst_addr
                ∙ filled-same mem family addr old_mac old_dst dst_addr mac_addr q),
      )

  -- An address that is in the table mem is not added again: the call fails, no entry changes (the MAC
  -- address of the old entry neither), and the new block is freed.
  pub neigh_add-present :
      (old_mac old_dst : ℕ → ℕ) (family block : ℕ) (head : HeadArray (ℕ → ℕ) NeighEntry)
      (dst_addr mac_addr : ℕ → ℕ) (s s' : S) (addr : ℕ) (old : NeighEntry)
      → Pool.mem_alloc mem neigh_entry_bytes s ≡ some (addr, s')
      → is_family family ≡ true
      → neigh_lookup mem (table mem family block head) dst_addr ≡ some old
      → neigh_add mem old_mac old_dst (table mem family block head) family dst_addr mac_addr s
        ≡ (false, table mem family block head, Pool.mem_free mem addr s')
  unfolding fill_neigh
  neigh_add-present old_mac old_dst family block head dst_addr mac_addr s s' addr old alloc known
        present =
      let ops = ops_of mem family in
      let e = filled mem family addr old_mac old_dst dst_addr mac_addr in
      let (entry, there, same_entry) = lookup-some mem family block head dst_addr old present in
      let same_key = same-filled mem family addr old_mac old_dst dst_addr mac_addr in
      let there' =
        hash_lookup-congr ops (laws_of mem family) head e.dst_addr dst_addr same_key ∙ there in
      neigh_add-insert mem old_mac old_dst (table mem family block head) family dst_addr mac_addr s
        s' addr alloc known
      ∙ insert_neigh-present mem (table mem family block head) e s'
          (hash_add-present ops (laws_of mem family) head e.dst_addr e entry there')

  -- An address that is in the table mem is deleted: it is not found any more, every other address is
  -- found as before, the table mem stays valid, and the block of the entry is freed.
  pub neigh_delete-map :
      (family block : ℕ) (head : HeadArray (ℕ → ℕ) NeighEntry) (dst_addr : ℕ → ℕ) (s : S)
      (old : NeighEntry)
      → IsReady mem family head
      → neigh_lookup mem (table mem family block head) dst_addr ≡ some old
      → (head' : HeadArray (ℕ → ℕ) NeighEntry) × (neigh_delete mem
            (table mem family block head)
            dst_addr
            s
          ≡ (true, table mem family block head', Pool.mem_free mem old.addr s))
        × IsReady mem family head'
        × ((q : ℕ → ℕ)
            → neigh_lookup mem (table mem family block head') q ≡ (
                if same_address family q dst_addr
                then none
                else neigh_lookup mem (table mem family block head) q))
  neigh_delete-map family block head dst_addr s old v present =
      let (entry, there, same_entry) = lookup-some mem family block head dst_addr old present in
      let deleted =
        hash_delete-map (ops_of mem family) (laws_of mem family) head dst_addr s entry v there in
      (
        (hash_delete (ops_of mem family) head dst_addr s).1,
        run_delete mem (table mem family block head) dst_addr s (Pool.mem_free mem old.addr s)
            deleted.0
            (deleted.2
              ∙ ap (λ e. HashOps.hash_entry_delete (ops_of mem family) e s) same_entry
              ∙ delete-frees mem family old s),
        deleted.1,
        λ q.
            lookup-if mem family block head (hash_delete (ops_of mem family) head dst_addr s).1 q
              (same (ops_of mem family) (laws_of mem family) q dst_addr)
              (same_address family q dst_addr) none (deleted.3 q)
              (same-address mem family q dst_addr),
      )
