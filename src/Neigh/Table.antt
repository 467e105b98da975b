-- ===== src/Neigh/Table.antt =====
-- src/neigh.c: tables of a family, and the steps of their operations.
use ufp.Common.{
  ℕ, ◌<◌, ◌≡◌, refl, ◌&&◌, ◌||◌, ◌==◌, if◌then◌else◌, arith, Bool-cases, Option-cases, ==_refl, ◌∙◌,
  inl, inr, Bool, true, false, Option, none, some,
}
use ufp.Pool.{Pool}
use ufp.Hash.{HashOps, HashEntry, HeadArray, hash_init, hash_add, hash_delete, hash_lookup}
use ufp.Hash.Chain.{KeyLaws, same}
use ufp.Hash.Map.{IsValid, hash_init-IsValid}
use ufp.Fib.{af_inet, af_inet6, copy_words}
use ufp.Neigh.{
  NeighEntry, NeighTable, double_word, ops_v4, ops_v6, Ops, neigh_entry_bytes, eth_alen, neigh_add,
  insert_neigh, fill_neigh, neigh_delete, neigh_lookup, neigh_entry_delete,
}
use ufp.Neigh.Keys.{compare_v4, compare_v6, laws_v4, laws_v6}

-- two addresses of a family
abbrev pub same_address : ℕ → (ℕ → ℕ) → (ℕ → ℕ) → Bool
same_address family a b =
    if family == af_inet
    then a 0 == b 0
    else (double_word a 0 == double_word b 0) && (double_word a 1 == double_word b 1)

abbrev pub is_family : ℕ → Bool
is_family family = (family == af_inet) || (family == af_inet6)

module _ {S : Type 0} (mem : Pool S) where
  abbrev pub family_ops : Bool → Ops mem
  family_ops true = ops_v4 mem
  family_ops false = ops_v6 mem

  pub family_laws : (v4 : Bool) → KeyLaws (family_ops v4)
  family_laws true = laws_v4 mem
  family_laws false = laws_v6 mem

  abbrev pub ops_of : ℕ → Ops mem
  ops_of family = family_ops (family == af_inet)

  pub laws_of : (family : ℕ) → KeyLaws (ops_of family)
  laws_of family = family_laws (family == af_inet)

  -- a table as `neigh_alloc` makes it for a family, with the chains `head`
  abbrev pub table : ℕ → ℕ → HeadArray (ℕ → ℕ) NeighEntry → NeighTable mem
  table family block head = record { block = block; ops = ops_of family; head = head }

  abbrev pub IsReady : ℕ → HeadArray (ℕ → ℕ) NeighEntry → Type 0
  IsReady family head = IsValid (ops_of family) (laws_of family) head

  pub same-address :
      (family : ℕ) (a b : ℕ → ℕ)
      → same (ops_of family) (laws_of family) a b ≡ same_address family a b
  same-address family a b = elim (Bool-cases (family == af_inet)) [
    | inl e ↦ rw e (compare_v4 a b)
    | inr e ↦ rw e (compare_v6 a b)
  ]

  abbrev pub words : ℕ → ℕ
  words family = if family == af_inet then 1 else 4

  -- the entry that `neigh_add` fills
  abbrev pub filled : ℕ → ℕ → (old_mac old_dst dst_addr mac_addr : ℕ → ℕ) → NeighEntry
  filled family addr old_mac old_dst dst_addr mac_addr =
      fill_neigh mem addr old_mac old_dst (words family) dst_addr mac_addr

  pub filled-same :
      (family addr : ℕ) (old_mac old_dst dst_addr mac_addr q : ℕ → ℕ)
      → same_address family q (filled family addr old_mac old_dst dst_addr mac_addr).dst_addr
        ≡ same_address family q dst_addr
  unfolding fill_neigh copy_words
  filled-same family addr old_mac old_dst dst_addr mac_addr q =
      elim (Bool-cases (family == af_inet)) [ inl e ↦ rw e refl | inr e ↦ rw e refl ]

  pub same-filled :
      (family addr : ℕ) (old_mac old_dst dst_addr mac_addr : ℕ → ℕ)
      → same
          (ops_of family)
          (laws_of family)
          (filled family addr old_mac old_dst dst_addr mac_addr).dst_addr
          dst_addr
        ≡ true
  unfolding fill_neigh copy_words
  same-filled family addr old_mac old_dst dst_addr mac_addr =
      elim (Bool-cases (family == af_inet)) [
        | inl e ↦ rw e (compare_v4 (copy_words 1 old_dst dst_addr) dst_addr ∙ ==_refl (dst_addr 0))
        | inr e ↦ rw e (compare_v6 (copy_words 4 old_dst dst_addr) dst_addr ∙ ground arith)
      ]

  pub neigh_add-insert :
      (old_mac old_dst : ℕ → ℕ) (neigh : NeighTable mem) (family : ℕ) (dst_addr mac_addr : ℕ → ℕ)
      (s s' : S) (addr : ℕ)
      → Pool.mem_alloc mem neigh_entry_bytes s ≡ some (addr, s')
      → is_family family ≡ true
      → neigh_add mem old_mac old_dst neigh family dst_addr mac_addr s
        ≡ insert_neigh mem neigh (filled family addr old_mac old_dst dst_addr mac_addr) s'
  unfolding neigh_add
  neigh_add-insert old_mac old_dst neigh family dst_addr mac_addr s s' addr alloc known =
      rw (alloc, neigh_add) (ground arith)

  pub empty-lookup :
      (family block : ℕ) (q : ℕ → ℕ)
      → neigh_lookup mem (table family block (hash_init (ℕ → ℕ) NeighEntry)) q ≡ none
  unfolding neigh_lookup
  empty-lookup family block q =
      rw ((hash_init-IsValid (ops_of family) (laws_of family)).1 q, neigh_lookup) refl

  pub lookup-none :
      (family block : ℕ) (head : HeadArray (ℕ → ℕ) NeighEntry) (q : ℕ → ℕ)
      → neigh_lookup mem (table family block head) q ≡ none
      → hash_lookup (ops_of family) head q ≡ none
  unfolding neigh_lookup
  lookup-none family block head q e = ground arith

  pub lookup-some :
      (family block : ℕ) (head : HeadArray (ℕ → ℕ) NeighEntry) (q : ℕ → ℕ) (old : NeighEntry)
      → neigh_lookup mem (table family block head) q ≡ some old
      → (entry : HashEntry (ℕ → ℕ) NeighEntry) × (hash_lookup (ops_of family) head q ≡ some entry)
        × (entry.container ≡ old)
  unfolding neigh_lookup
  lookup-some family block head q old e = elim (Option-cases (hash_lookup (ops_of family) head q)) [
    | inl n ↦ absurd (ground (arith, e, n))
    | inr (entry, h) ↦ (entry, h, ground (arith, e, h))
  ]

  abbrev pub container_of : Option (HashEntry (ℕ → ℕ) NeighEntry) → Option NeighEntry
  container_of none = none
  container_of (some entry) = some entry.container

  pub lookup-if :
      (family block : ℕ) (head head' : HeadArray (ℕ → ℕ) NeighEntry) (q : ℕ → ℕ) (b c : Bool)
      (o : Option (HashEntry (ℕ → ℕ) NeighEntry))
      → hash_lookup (ops_of family) head' q ≡ (if b then o else hash_lookup (ops_of family) head q)
      → b ≡ c
      → neigh_lookup mem (table family block head') q
        ≡ (if c then container_of o else neigh_lookup mem (table family block head) q)
  unfolding neigh_lookup
  lookup-if family block head head' q b c o h e = ground (arith, h)

  pub insert_neigh-added :
      (neigh : NeighTable mem) (e : NeighEntry) (s : S)
      → (hash_add neigh.ops neigh.head e.dst_addr e).0 ≡ true
      → insert_neigh mem neigh e s
        ≡ (true, record neigh { head = (hash_add neigh.ops neigh.head e.dst_addr e).1 }, s)
  unfolding insert_neigh
  insert_neigh-added neigh e s h = rw (h, insert_neigh) refl

  pub insert_neigh-present :
      (neigh : NeighTable mem) (e : NeighEntry) (s : S)
      → hash_add neigh.ops neigh.head e.dst_addr e ≡ (false, neigh.head)
      → insert_neigh mem neigh e s ≡ (false, neigh, Pool.mem_free mem e.addr s)
  unfolding insert_neigh
  insert_neigh-present neigh e s h = rw (h, insert_neigh) refl

  pub filled-mac :
      (family addr : ℕ) (old_mac old_dst dst_addr mac_addr : ℕ → ℕ) (i : ℕ)
      → i < eth_alen
      → (filled family addr old_mac old_dst dst_addr mac_addr).dst_mac i ≡ mac_addr i
  unfolding fill_neigh copy_words
  filled-mac family addr old_mac old_dst dst_addr mac_addr i h = ground arith

  pub delete-frees :
      (family : ℕ) (old : NeighEntry) (s : S)
      → HashOps.hash_entry_delete (ops_of family) old s ≡ Pool.mem_free mem old.addr s
  unfolding neigh_entry_delete
  delete-frees family old s = elim (Bool-cases (family == af_inet)) [
    | inl e ↦ rw e refl
    | inr e ↦ rw e refl
  ]

  pub run_delete :
      (neigh : NeighTable mem) (dst_addr : ℕ → ℕ) (s freed : S)
      → (hash_delete neigh.ops neigh.head dst_addr s).0 ≡ true
      → (hash_delete neigh.ops neigh.head dst_addr s).2 ≡ freed
      → neigh_delete mem neigh dst_addr s
        ≡ (true, record neigh { head = (hash_delete neigh.ops neigh.head dst_addr s).1 }, freed)
  unfolding neigh_delete
  run_delete neigh dst_addr s freed found after = rw (found, after, neigh_delete) refl
