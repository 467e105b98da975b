-- ===== src/Hash.antt =====
-- src/hash.c and src/hash.h: a table of 2 ^ 16 chains. A chain of `hlist` nodes is a list, the array
-- of heads a function from indices. An entry carries the structure that contains it (`hash_entry`
-- of the header is `container_of`).
pub mod Chain
pub mod Map
mod Tests
use ufp.Common.{
  ℕ, zero, suc, ◌^◌, Bool, true, false, Option, none, some, List, [], ◌∷◌, ◌==◌, if◌then◌else◌,
  update,
}

-- the callbacks of `struct hash_table`
pub record HashOps (K V S : Type 0) : Type 0 where
  pub hash_entry_delete : V → S → S
  pub hash_key_generate : K → ℕ → ℕ
  pub hash_key_compare : K → K → ℕ

-- `struct hash_entry`, and the structure around it
pub record HashEntry (K V : Type 0) : Type 0 where
  pub key : K
  pub container : V

abbrev pub hash_bit : ℕ
hash_bit = 16

abbrev pub hash_size : ℕ
hash_size = 2 ^ 16

abbrev pub HeadArray : Type 0 → Type 0 → Type 0
HeadArray K V = ℕ → List (HashEntry K V)

unfoldable pub hash_init : (K V : Type 0) → HeadArray K V
hash_init K V i = []

module _ {K V S : Type 0} (ops : HashOps K V S) where
  open ops use {hash_entry_delete, hash_key_generate, hash_key_compare}

  -- the walk for an entry with the key, which stops at the first
  unfoldable pub find : K → List (HashEntry K V) → Option (HashEntry K V)
  find key [] = none
  find key (entry ∷ list) =
      let rest = find key list in if hash_key_compare key entry.key == 0 then some entry else rest

  -- `hlist_del` of the entry that the walk stops at
  unfoldable pub unlink : K → List (HashEntry K V) → List (HashEntry K V)
  unlink key [] = []
  unlink key (entry ∷ list) =
      let rest = entry ∷ unlink key list in
      if hash_key_compare key entry.key == 0 then list else rest

  unfoldable pub hash_add : HeadArray K V → K → V → Bool × HeadArray K V
  hash_add head key container =
      let hash_key = hash_key_generate key hash_bit in
      elim (find key (head hash_key)) [
        | some _ ↦ (false, head)
        | none ↦ (
          true,
          update head hash_key (record { key = key; container = container } ∷ head hash_key),
        )
      ]

  unfoldable pub hash_delete : HeadArray K V → K → S → Bool × HeadArray K V × S
  hash_delete head key s =
      let hash_key = hash_key_generate key hash_bit in
      elim (find key (head hash_key)) [
        | none ↦ (false, head, s)
        | some target ↦ (
          true,
          update head hash_key (unlink key (head hash_key)),
          hash_entry_delete target.container s,
        )
      ]

  unfoldable pub delete_chain : List (HashEntry K V) → S → S
  delete_chain [] s = s
  delete_chain (entry ∷ list) s = delete_chain list (hash_entry_delete entry.container s)

  -- the loop over the first `n` chains
  unfoldable pub delete_chains : ℕ → HeadArray K V → S → HeadArray K V × S
  delete_chains zero head s = (head, s)
  delete_chains (suc i) head s =
      let (head', s') = delete_chains i head s in (update head' i [], delete_chain (head' i) s')

  unfoldable pub hash_delete_all : HeadArray K V → S → HeadArray K V × S
  hash_delete_all head s = delete_chains hash_size head s

  unfoldable pub hash_lookup : HeadArray K V → K → Option (HashEntry K V)
  hash_lookup head key = find key (head (hash_key_generate key hash_bit))
