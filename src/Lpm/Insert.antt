-- ===== src/Lpm/Insert.antt =====
-- src/lpm.c, `lpm_entry_insert`: the walk finds the place behind the longer prefixes.
use ufp.Common.{
  ℕ, zero, suc, ◌+◌, ◌≤◌, ◌<◌, ◌≡◌, refl, ap, Option, none, some, List, [], ◌∷◌, ◌++◌, ltb,
  if◌then◌else◌, All, arith, Bool-cases, inl, inr, Option-cases,
}
use ufp.Lpm.{Callbacks, Entry, insert_at, add_at}
use ufp.Lpm.Update.{scan, lpm_entry_insert}
use ufp.Lpm.Spec.{Laws, ptrs, insert_by_len, IsSorted, IsLengthChange}

module _ {Ptr : Type 0} (len : Ptr → ℕ) where
  -- how many entries at the front are longer than `l`
  abbrev lead : ℕ → List Ptr → ℕ
  lead l [] = 0
  lead l (x ∷ xs) = let rest = lead l xs in if ltb l (len x) then suc rest else 0

  lead-zero : (k l : ℕ) (xs : List Ptr) → All (λ y. len y ≤ k) xs → k ≤ l → lead l xs ≡ 0
  lead-zero k l [] h le = refl
  lead-zero k l (x ∷ xs) h le = ground arith

  pub All-insert_by_len {κ} :
      (P : Ptr → Type κ) (p : Ptr) (xs : List Ptr) → P p → All P xs → All P (insert_by_len len p xs)
  unfolding insert_by_len
  All-insert_by_len P p [] hp h = (hp, h)
  All-insert_by_len P p (x ∷ xs) hp h = elim (Bool-cases (ltb (len p) (len x))) [
    | inl e ↦ rw e (h.0, All-insert_by_len P p xs hp h.1)
    | inr e ↦ rw e (hp, h)
  ]

  All-le_trans :
      (a b : ℕ) (xs : List Ptr) → a ≤ b → All (λ y. len y ≤ a) xs → All (λ y. len y ≤ b) xs
  All-le_trans a b [] le h = h
  All-le_trans a b (x ∷ xs) le h = (omega (arith, h.0), All-le_trans a b xs le h.1)

  pub insert_by_len-IsSorted :
      (p : Ptr) (xs : List Ptr) → IsSorted len xs → IsSorted len (insert_by_len len p xs)
  unfolding insert_by_len
  insert_by_len-IsSorted p [] h = (tt, tt)
  insert_by_len-IsSorted p (x ∷ xs) h = elim (Bool-cases (ltb (len p) (len x))) [
    | inl e ↦ rw e (
      All-insert_by_len (λ y. len y ≤ len x) p xs (ground arith) h.0,
      insert_by_len-IsSorted p xs h.1,
    )
    | inr e ↦ rw e ((ground arith, All-le_trans (len x) (len p) xs (ground arith) h.0), h)
  ]

  -- behind routes that are all longer
  pub insert_by_len-append_longer :
      (p : Ptr) (xs ys : List Ptr)
      → All (λ y. len p < len y) xs
      → insert_by_len len p (xs ++ ys) ≡ xs ++ insert_by_len len p ys
  unfolding insert_by_len
  insert_by_len-append_longer p [] ys h = refl
  insert_by_len-append_longer p (x ∷ xs) ys h =
      ground (arith, insert_by_len-append_longer p xs ys h.1)

  All-lt_le : (a : ℕ) (xs : List Ptr) → All (λ y. len y < a) xs → All (λ y. len y ≤ a) xs
  All-lt_le a [] h = tt
  All-lt_le a (x ∷ xs) h = (omega (arith, h.0), All-lt_le a xs h.1)

  -- before routes none of which is longer
  pub insert_by_len-append_shorter :
      (p : Ptr) (xs ys : List Ptr)
      → All (λ y. len y ≤ len p) ys
      → insert_by_len len p (xs ++ ys) ≡ insert_by_len len p xs ++ ys
  unfolding insert_by_len
  insert_by_len-append_shorter p [] [] h = refl
  insert_by_len-append_shorter p [] (y ∷ ys) h = ground arith
  insert_by_len-append_shorter p (x ∷ xs) ys h =
      ground (arith, insert_by_len-append_shorter p xs ys h)

  pub insert_by_len-IsLengthChange : (p : Ptr) → IsLengthChange len (len p) (insert_by_len len p)
  insert_by_len-IsLengthChange p = record {
    sorted = insert_by_len-IsSorted p;
    bounded =
        λ lo hi xs low high. All-insert_by_len (λ y. (lo ≤ len y) × (len y ≤ hi)) p xs (low, high);
    longer = insert_by_len-append_longer p;
    shorter = λ xs ys h. insert_by_len-append_shorter p xs ys (All-lt_le (len p) ys h);
  }

  insert_at-lead :
      {Block : Type 0} (e : Entry Ptr Block) (xs : List (Entry Ptr Block))
      → ptrs (insert_at (lead (len e.ptr) (ptrs xs)) e xs) ≡ insert_by_len len e.ptr (ptrs xs)
  unfolding insert_by_len insert_at
  insert_at-lead e [] = refl
  insert_at-lead e (x ∷ xs) = elim (Bool-cases (ltb (len e.ptr) (len x.ptr))) [
    | inl h ↦ rw h (ap (λ t. x.ptr ∷ t) (insert_at-lead e xs))
    | inr h ↦ rw h refl
  ]

module _ {Ptr Block State : Type 0} (ops : Callbacks Ptr Block State) (laws : Laws ops) where
  open laws use {len}

  -- where the walk puts an entry, if the walk began at `pos` with `prior`
  abbrev position : ℕ → Option ℕ → ℕ → Option ℕ
  position pos prior zero = prior
  position pos prior (suc n) = some (pos + n)

  position-suc :
      (pos : ℕ) (prior : Option ℕ) (n : ℕ)
      → position (pos + 1) (some pos) n ≡ position pos prior (suc n)
  position-suc pos prior zero = ap some (omega arith)
  position-suc pos prior (suc n) = ap some (omega arith)

  scan-position :
      (id l : ℕ) (xs : List (Entry Ptr Block)) (pos : ℕ) (prior r : Option ℕ)
      → scan ops id l xs pos prior ≡ some r
      → IsSorted len (ptrs xs)
      → r ≡ position pos prior (lead len l (ptrs xs))
  unfolding scan
  scan-position id l [] pos prior r h sorted = cc
  scan-position id l (x ∷ xs) pos prior r h sorted = elim (Bool-cases (ltb l (len x.ptr))) [
    | inl e ↦ rw e (
        ground (
          arith,
          laws.compare x.ptr l,
          scan-position id l xs (pos + 1) (some pos) r,
          position-suc pos prior (lead len l (ptrs xs)),
        ))
    | inr e ↦ rw e (
        ground (
          arith,
          laws.compare x.ptr l,
          scan-position id l xs (pos + 1) prior r,
          lead-zero len (len x.ptr) l (ptrs xs),
        ))
  ]

  position-add_at :
      (n : ℕ) (e : Entry Ptr Block) (xs : List (Entry Ptr Block))
      → add_at (position 0 none n) e xs ≡ insert_at n e xs
  position-add_at zero e xs = refl
  position-add_at (suc n) e xs = ap (λ k. insert_at (suc k) e xs) (omega arith)

  -- An entry that `lpm_entry_insert` takes stands behind the longer ones.
  pub lpm_entry_insert-ptrs :
      (h h' : List (Entry Ptr Block)) (id l : ℕ) (e : Entry Ptr Block) (s s' : State)
      → lpm_entry_insert ops h id l e s ≡ some (h', s')
      → len e.ptr ≡ l
      → IsSorted len (ptrs h)
      → ptrs h' ≡ insert_by_len len e.ptr (ptrs h)
  unfolding lpm_entry_insert
  lpm_entry_insert-ptrs h h' id l e s s' run long sorted =
      elim (Option-cases (scan ops id l h 0 none)) [
        | inl none_found ↦ ground (arith, none_found)
        | inr (r, found) ↦
            let placed : h' ≡ add_at r e h = cc found in
            let at_lead : r ≡ position 0 none (lead len l (ptrs h)) =
              scan-position id l h 0 none r found sorted in
            rw (placed, at_lead, position-add_at, ← long) (insert_at-lead len e h)
      ]
