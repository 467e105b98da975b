-- ===== src/Hash/Tests.antt =====
-- A small table of src/hash.c, whose keys and entries are numbers.
use ufp.Common.{
  ℕ, ◌%◌, ◌^◌, ◌≡◌, refl, true, false, none, some, List, [], ◌∷◌, ◌==◌, if◌then◌else◌, arith, ap,
}
use ufp.Hash.{
  HashOps, HashEntry, HeadArray, hash_bit, hash_init, hash_add, hash_delete, hash_delete_all,
  hash_lookup, hash_size,
}
use ufp.Hash.Chain.{KeyLaws, same}
use ufp.Hash.Map.{
  IsValid, hash_init-IsValid, hash_add-map, hash_add-present, hash_delete-map,
  hash_delete_all-empty,
}

-- deleted entries are collected in a list
abbrev ops : HashOps ℕ ℕ (List ℕ)
ops = record {
  hash_entry_delete = λ v s. v ∷ s;
  hash_key_generate = λ k bits. k % 2 ^ bits;
  hash_key_compare = λ a b. if a == b then 0 else 1;
}

laws : KeyLaws ops
laws = record {
  same_refl = λ a. ground arith;
  same_symm = λ a b. ground arith;
  same_trans = λ a b c. ground arith;
  one_chain = λ a b bits e. let same_key : a ≡ b = ground arith in ap (λ k. k % 2 ^ bits) same_key;
}

abbrev Head : Type 0
Head = HeadArray ℕ ℕ

abbrev entry : ℕ → ℕ → HashEntry ℕ ℕ
entry key container = record { key = key; container = container }

-- 5 and 65541 are in one chain
abbrev one : Head
one = (hash_add ops (hash_init ℕ ℕ) 5 50).1

abbrev two : Head
two = (hash_add ops one 65541 60).1

program : Unit {0}
unfolding hash_init hash_add hash_delete hash_lookup ufp.Hash.find ufp.Hash.unlink
program = tt

lookups :
    (hash_lookup ops two 5 ≡ some (entry 5 50))
    × (hash_lookup ops two 65541 ≡ some (entry 65541 60))
    × (hash_lookup ops two 6 ≡ none)
    × (hash_lookup ops (hash_delete ops two 5 []).1 65541 ≡ some (entry 65541 60))
    × ((hash_delete ops two 5 []).2 ≡ 50 ∷ [])
unfolding program
lookups = (refl, refl, refl, refl, refl)

one_absent : hash_lookup ops one 65541 ≡ none
unfolding program
one_absent = refl

one-IsValid : IsValid ops laws one
one-IsValid =
    (hash_add-map ops laws (hash_init ℕ ℕ) 5 50 (hash_init-IsValid ops laws).0
      ((hash_init-IsValid ops laws).1 5)).1

hash_add-map_test :
    ((hash_add ops one 65541 60).0 ≡ true)
    × IsValid ops laws two
    × ((q : ℕ)
        → hash_lookup ops two q
          ≡ (if same ops laws q 65541 then some (entry 65541 60) else hash_lookup ops one q))
hash_add-map_test = hash_add-map ops laws one 65541 60 one-IsValid one_absent

two-IsValid : IsValid ops laws two
two-IsValid = (hash_add-map ops laws one 65541 60 one-IsValid one_absent).1

two_present : hash_lookup ops two 5 ≡ some (entry 5 50)
unfolding program
two_present = refl

hash_add-present_example : hash_add ops two 5 70 ≡ (false, two)
hash_add-present_example = hash_add-present ops laws two 5 70 (entry 5 50) two_present

hash_delete-map_test :
    ((hash_delete ops two 5 []).0 ≡ true)
    × IsValid ops laws (hash_delete ops two 5 []).1
    × ((hash_delete ops two 5 []).2 ≡ 50 ∷ [])
    × ((q : ℕ)
        → hash_lookup ops (hash_delete ops two 5 []).1 q
          ≡ (if same ops laws q 5 then none else hash_lookup ops two q))
hash_delete-map_test = hash_delete-map ops laws two 5 [] (entry 5 50) two-IsValid two_present

hash_delete_all-empty_test : hash_lookup ops (hash_delete_all ops two []).0 65541 ≡ none
hash_delete_all-empty_test = hash_delete_all-empty ops laws two [] 65541 (omega arith)
