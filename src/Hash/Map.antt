-- ===== src/Hash/Map.antt =====
-- src/hash.c: the table refines a finite map from classes of keys to entries.
use ufp.Common.{
  ℕ, zero, suc, ◌<◌, ◌≡◌, refl, true, false, none, some, List, [], ◌∷◌, ◌==◌, if◌then◌else◌, arith,
  Bool-cases, inl, inr, update,
}
use ufp.Hash.{
  HashOps, HashEntry, HeadArray, hash_bit, hash_size, hash_init, find, unlink, hash_add,
  hash_delete, delete_chains, hash_delete_all, hash_lookup,
}
use ufp.Hash.Chain.{KeyLaws, same, IsDistinct, find-congr, find-unlink, unlink-IsDistinct}

module _ {K V S : Type 0} (ops : HashOps K V S) (laws : KeyLaws ops) where
  -- each chain holds a key at most once
  abbrev pub IsValid : HeadArray K V → Type 0
  IsValid head = (i : ℕ) → IsDistinct ops laws (head i)

  abbrev home : K → ℕ
  home k = ops.hash_key_generate k hash_bit

  same-home : (q k : K) → same ops laws q k ≡ true → home q ≡ home k
  same-home q k e = laws.one_chain q k hash_bit e

  update-IsValid :
      (head : HeadArray K V) (i : ℕ) (chain : List (HashEntry K V))
      → IsValid head
      → IsDistinct ops laws chain
      → IsValid (update head i chain)
  update-IsValid head i chain v d j = elim (Bool-cases (j == i)) [
    | inl e ↦ rw e d
    | inr e ↦ rw e (v j)
  ]

  pub hash_lookup-congr :
      (head : HeadArray K V) (a b : K)
      → same ops laws a b ≡ true
      → hash_lookup ops head a ≡ hash_lookup ops head b
  unfolding hash_lookup
  hash_lookup-congr head a b e = rw (same-home a b e) (find-congr ops laws a b (head (home b)) e)

  -- A new table is valid, and no key is in it.
  pub hash_init-IsValid :
      IsValid (hash_init K V) × ((q : K) → hash_lookup ops (hash_init K V) q ≡ none)
  unfolding hash_init hash_lookup find
  hash_init-IsValid = (λ i. tt, λ q. refl)

  -- A key that is not in the table is added: it is found from then on, under each key that compares
  -- as equal, every other key is found as before, and the table stays valid.
  pub hash_add-map :
      (head : HeadArray K V) (key : K) (container : V)
      → IsValid head
      → hash_lookup ops head key ≡ none
      → ((hash_add ops head key container).0 ≡ true)
        × IsValid (hash_add ops head key container).1
        × ((q : K)
            → hash_lookup ops (hash_add ops head key container).1 q ≡ (
                if same ops laws q key
                then some (record { key = key; container = container })
                else hash_lookup ops head q))
  unfolding hash_add hash_lookup
  hash_add-map head key container v absent =
      let new : HashEntry K V = record { key = key; container = container } in
      let k = home key in
      rw (absent, hash_add)
        (
          refl,
          update-IsValid head k (new ∷ head k) v (absent, v k),
          λ q. elim (Bool-cases (home q == k)) [
            | inl e ↦
                let at_home : home q ≡ k = ground arith in rw e (unfold find in rw at_home refl)
            | inr e ↦ rw e (ground (arith, same-home q key))
          ],
        )

  -- A key that is in the table is not added again, and the table does not change.
  pub hash_add-present :
      (head : HeadArray K V) (key : K) (container : V) (old : HashEntry K V)
      → hash_lookup ops head key ≡ some old
      → hash_add ops head key container ≡ (false, head)
  unfolding hash_add hash_lookup
  hash_add-present head key container old present = rw (present, hash_add) refl

  -- A key that is in the table is deleted: it is not found any more, every other key is found as
  -- before, the table stays valid, and the callback gets the entry that was found.
  pub hash_delete-map :
      (head : HeadArray K V) (key : K) (s : S) (target : HashEntry K V)
      → IsValid head
      → hash_lookup ops head key ≡ some target
      → ((hash_delete ops head key s).0 ≡ true)
        × IsValid (hash_delete ops head key s).1
        × ((hash_delete ops head key s).2 ≡ ops.hash_entry_delete target.container s)
        × ((q : K)
            → hash_lookup ops (hash_delete ops head key s).1 q
              ≡ (if same ops laws q key then none else hash_lookup ops head q))
  unfolding hash_delete hash_lookup
  hash_delete-map head key s target v present =
      let k = home key in
      rw (present, hash_delete)
        (
          refl,
          update-IsValid head k (unlink ops key (head k)) v
              (unlink-IsDistinct ops laws key (head k) (v k)),
          refl,
          λ q. elim (Bool-cases (home q == k)) [
            | inl e ↦
                let at_home : home q ≡ k = ground arith in
                rw e (rw at_home (find-unlink ops laws q key (head k) (v k)))
            | inr e ↦ rw e (ground (arith, same-home q key))
          ],
        )

  -- A key that is not in the table is not deleted, and nothing changes.
  pub hash_delete-absent :
      (head : HeadArray K V) (key : K) (s : S)
      → hash_lookup ops head key ≡ none
      → hash_delete ops head key s ≡ (false, head, s)
  unfolding hash_delete hash_lookup
  hash_delete-absent head key s absent = rw (absent, hash_delete) refl

  delete_chains-empty :
      (n : ℕ) (head : HeadArray K V) (s : S) (i : ℕ) → i < n → (delete_chains ops n head s).0 i ≡ []
  unfolding delete_chains
  delete_chains-empty zero head s i h = absurd (omega arith)
  delete_chains-empty (suc n) head s i h = elim (Bool-cases (i == n)) [
    | inl e ↦ rw e refl
    | inr e ↦ rw e (delete_chains-empty n head s i (ground arith))
  ]

  -- After `hash_delete_all` no key is found whose hash is an index of the array.
  pub hash_delete_all-empty :
      (head : HeadArray K V) (s : S) (q : K)
      → ops.hash_key_generate q hash_bit < hash_size
      → hash_lookup ops (hash_delete_all ops head s).0 q ≡ none
  unfolding hash_delete_all hash_lookup find
  hash_delete_all-empty head s q h = rw (delete_chains-empty hash_size head s (home q) h) refl
