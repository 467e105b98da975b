-- ===== src/Hash/Chain.antt =====
-- src/hash.c: one chain of entries, searched and changed through a key.
use ufp.Common.{
  ℕ, ◌≡◌, refl, Bool, true, none, List, [], ◌∷◌, ◌==◌, if◌then◌else◌, arith, Bool-cases, inl, inr,
}
use ufp.Hash.{HashOps, HashEntry, find, unlink}

-- What the table asks of its callbacks: keys that compare as equal (0) form classes, and a class has
-- one chain.
pub record KeyLaws {K V S : Type 0} (ops : HashOps K V S) : Type 0 where
  pub same_refl : (a : K) → (HashOps.hash_key_compare ops a a == 0) ≡ true
  pub same_symm :
      (a b : K) → (HashOps.hash_key_compare ops a b == 0) ≡ (HashOps.hash_key_compare ops b a == 0)
  pub same_trans :
      (a b c : K)
      → (HashOps.hash_key_compare ops a b == 0) ≡ true
      → (HashOps.hash_key_compare ops b c == 0) ≡ true
      → (HashOps.hash_key_compare ops a c == 0) ≡ true
  pub one_chain :
      (a b : K) (bits : ℕ)
      → (HashOps.hash_key_compare ops a b == 0) ≡ true
      → HashOps.hash_key_generate ops a bits ≡ HashOps.hash_key_generate ops b bits

module _ {K V S : Type 0} (ops : HashOps K V S) (laws : KeyLaws ops) where
  abbrev pub same : K → K → Bool
  same a b = ops.hash_key_compare a b == 0

  pub same-congr : (a b c : K) → same a b ≡ true → same a c ≡ same b c
  same-congr a b c e =
      ground (arith, laws.same_symm a b, laws.same_trans a b c, laws.same_trans b a c)

  pub same-congr_right : (a b c : K) → same b c ≡ true → same a b ≡ same a c
  same-congr_right a b c e =
      ground (arith, laws.same_symm a b, laws.same_symm a c, same-congr b c a e)

  -- no key stands twice
  abbrev pub IsDistinct : List (HashEntry K V) → Type 0
  IsDistinct [] = Unit
  IsDistinct (x ∷ xs) = (find ops x.key xs ≡ none) × IsDistinct xs

  pub find-congr :
      (a b : K) (xs : List (HashEntry K V)) → same a b ≡ true → find ops a xs ≡ find ops b xs
  unfolding find
  find-congr a b [] e = refl
  find-congr a b (x ∷ xs) e = ground (arith, same-congr a b x.key e, find-congr a b xs e)

  -- an unlinked key is not found again, and the others are found as before
  pub find-unlink :
      (q k : K) (xs : List (HashEntry K V))
      → IsDistinct xs
      → find ops q (unlink ops k xs) ≡ (if same q k then none else find ops q xs)
  unfolding find unlink
  find-unlink q k [] h = ground arith
  find-unlink q k (x ∷ xs) h = ground (
    arith,
    find-unlink q k xs,
    same-congr q k x.key,
    same-congr_right q k x.key,
    find-congr q x.key xs,
  )

  unlink-absent :
      (q k : K) (xs : List (HashEntry K V))
      → find ops q xs ≡ none
      → find ops q (unlink ops k xs) ≡ none
  unfolding find unlink
  unlink-absent q k [] h = refl
  unlink-absent q k (x ∷ xs) h = ground (arith, unlink-absent q k xs)

  pub unlink-IsDistinct :
      (k : K) (xs : List (HashEntry K V)) → IsDistinct xs → IsDistinct (unlink ops k xs)
  unfolding unlink
  unlink-IsDistinct k [] h = h
  unlink-IsDistinct k (x ∷ xs) h = elim (Bool-cases (same k x.key)) [
    | inl e ↦ rw e h.1
    | inr e ↦ rw e (unlink-absent x.key k xs h.0, unlink-IsDistinct k xs h.1)
  ]
