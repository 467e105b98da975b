-- ===== src/Lpm/Erase.antt =====
-- src/lpm.c, `lpm_entry_delete` and the deletion loop: the first entry with the identifier and the
-- prefix length goes, and the others keep their order.
use ufp.Common.{
  ℕ, zero, suc, ◌+◌, ◌≤◌, ◌<◌, ◌≡◌, refl, true, false, ◌&&◌, some, List, [], ◌∷◌, ◌++◌, ◌==◌,
  if◌then◌else◌, All, arith, Bool-cases, Option-cases, inl, inr, update,
}
use ufp.Lpm.{Callbacks, Entry, Node, head_of, with_head}
use ufp.Lpm.Update.{lpm_entry_delete, delete_range}
use ufp.Lpm.Spec.{Laws, ptrs, in_range, IsSorted, IsLengthChange}
use ufp.Lpm.Range.{
  Replaced, Changed, HeadSorted, Replaced-HeadSorted, update-HeadSorted, Changed-suc,
}

module _ {Ptr : Type 0} (ident len : Ptr → ℕ) (id l : ℕ) where
  unfoldable pub erase_route : List Ptr → List Ptr
  erase_route [] = []
  erase_route (x ∷ xs) =
      let rest = x ∷ erase_route xs in if (ident x == id) && (len x == l) then xs else rest

  All-erase_route {κ} : (P : Ptr → Type κ) (xs : List Ptr) → All P xs → All P (erase_route xs)
  unfolding erase_route
  All-erase_route P [] h = tt
  All-erase_route P (x ∷ xs) h = elim (Bool-cases ((ident x == id) && (len x == l))) [
    | inl e ↦ rw e h.1
    | inr e ↦ rw e (h.0, All-erase_route P xs h.1)
  ]

  erase_route-IsSorted : (xs : List Ptr) → IsSorted len xs → IsSorted len (erase_route xs)
  unfolding erase_route
  erase_route-IsSorted [] h = tt
  erase_route-IsSorted (x ∷ xs) h = elim (Bool-cases ((ident x == id) && (len x == l))) [
    | inl e ↦ rw e h.1
    | inr e ↦ rw e (All-erase_route (λ y. len y ≤ len x) xs h.0, erase_route-IsSorted xs h.1)
  ]

  erase_route-shorter : (xs : List Ptr) → All (λ y. len y < l) xs → erase_route xs ≡ xs
  unfolding erase_route
  erase_route-shorter [] h = refl
  erase_route-shorter (x ∷ xs) h = ground (arith, erase_route-shorter xs h.1)

  erase_route-append_shorter :
      (xs ys : List Ptr) → All (λ y. len y < l) ys → erase_route (xs ++ ys) ≡ erase_route xs ++ ys
  unfolding erase_route
  erase_route-append_shorter [] ys h = erase_route-shorter ys h
  erase_route-append_shorter (x ∷ xs) ys h = ground (arith, erase_route-append_shorter xs ys h)

  erase_route-append_longer :
      (xs ys : List Ptr) → All (λ y. l < len y) xs → erase_route (xs ++ ys) ≡ xs ++ erase_route ys
  unfolding erase_route
  erase_route-append_longer [] ys h = refl
  erase_route-append_longer (x ∷ xs) ys h = ground (arith, erase_route-append_longer xs ys h.1)

  pub erase_route-IsLengthChange : IsLengthChange len l erase_route
  erase_route-IsLengthChange = record {
    sorted = erase_route-IsSorted;
    bounded = λ lo hi xs low high. All-erase_route (λ y. (lo ≤ len y) × (len y ≤ hi)) xs;
    longer = erase_route-append_longer;
    shorter = erase_route-append_shorter;
  }

module _ {Ptr Block State : Type 0} (ops : Callbacks Ptr Block State) (laws : Laws ops) where
  open laws use {len, ident}

  lpm_entry_delete-ptrs :
      (h h' : List (Entry Ptr Block)) (id l : ℕ) (s s' : State)
      → lpm_entry_delete ops h id l s ≡ some (h', s')
      → ptrs h' ≡ erase_route ident len id l (ptrs h)
  unfolding lpm_entry_delete erase_route
  lpm_entry_delete-ptrs [] h' id l s s' run = cc
  lpm_entry_delete-ptrs (x ∷ xs) h' id l s s' run =
      elim (Option-cases (lpm_entry_delete ops xs id l s)) [
        | inl absent ↦ ground (arith, laws.identify x.ptr id l, absent)
        | inr ((xs', s₁), found) ↦
            ground
              (arith, laws.identify x.ptr id l, found, lpm_entry_delete-ptrs xs xs' id l s s₁ found)
      ]

  pub delete_range-Changed :
      (n id l index i : ℕ) (nodes : ℕ → Node Ptr Block) (s : State)
      → (delete_range ops n id l index i nodes s).0 ≡ true
      → ((j : ℕ) → HeadSorted len (nodes j))
      → (j : ℕ)
      → Changed len
          (in_range (index + i) n j)
          (erase_route ident len id l)
          (nodes j)
          ((delete_range ops n id l index i nodes s).1 j)
  unfolding delete_range
  delete_range-Changed zero id l index i nodes s run sorted j =
      let e : in_range (index + i) 0 j ≡ false = ground arith in rw e refl
  delete_range-Changed (suc n) id l index i nodes s run sorted j =
      let k = index + i in
      elim (Option-cases (lpm_entry_delete ops (head_of (nodes k)) id l s)) [
        | inl absent ↦ ground (arith, absent)
        | inr ((h, s₁), found) ↦
            let f = erase_route ident len id l in
            let new = with_head h (nodes k) in
            let nodes' = update nodes k new in
            let step : delete_range ops (suc n) id l index i nodes s
                ≡ delete_range ops n id l index (i + 1) nodes' s₁ =
              rw (found, delete_range) in
            let one : Replaced len f (nodes k) new =
              (h, refl, lpm_entry_delete-ptrs (head_of (nodes k)) h id l s s₁ found) in
            let new_sorted =
              Replaced-HeadSorted len f (erase_route-IsLengthChange ident len id l) (nodes k) new
                one (sorted k) in
            let sorted' = update-HeadSorted len nodes k new sorted new_sorted in
            let rest =
              delete_range-Changed n id l index (i + 1) nodes' s₁ (rw step at run) sorted' j in
            rw step (Changed-suc len nodes k new f (index + (i + 1)) n j _ (omega arith) one rest)
      ]
