-- ===== src/Lpm/Spec.antt =====
-- What src/lpm.c promises, apart from its tables: for each destination, the routes that cover it in
-- the order in which they are preferred.
use ufp.Common.{
  ℕ, zero, suc, ◌+◌, ◌-◌, ◌^◌, ◌≤◌, ◌<◌, ◌≡◌, Bool, false, ◌&&◌, List, [], ◌∷◌, ◌++◌, map, ltb, leb,
  ◌==◌, if◌then◌else◌, All,
}
use ufp.Lpm.{Callbacks, Entry, Node, leaf, inner, lpm_index, clear_low}

-- What the callbacks mean: an entry has a prefix length and an identifier.
pub record Laws {Ptr Block State : Type 0} (ops : Callbacks Ptr Block State) : Type 0 where
  pub len : Ptr → ℕ
  pub ident : Ptr → ℕ
  pub identify :
      (p : Ptr) (id l : ℕ)
      → (Callbacks.entry_identify ops p id l == 0) ≡ (ident p == id) && (len p == l)
  pub compare : (p : Ptr) (l : ℕ) → (Callbacks.entry_compare ops p l == 0) ≡ leb (len p) l

-- a node covers the indices of a prefix that ends in its stride
abbrev pub in_range : ℕ → ℕ → ℕ → Bool
in_range base range index = leb base index && ltb index (base + range)

-- The destination takes the branches of the prefix: whole strides are equal, and the last one lies
-- in the range of the remaining bits.
unfoldable pub covers_below : ℕ → (ℕ → ℕ) → ℕ → (ℕ → ℕ) → ℕ → Bool
covers_below zero prefix prefix_len dst offset = false
covers_below (suc fuel) prefix prefix_len dst offset =
    let i = lpm_index prefix offset 8 in
    let j = lpm_index dst offset 8 in
    let rest = covers_below fuel prefix prefix_len dst (offset + 8) in
    let range = 2 ^ (8 - (prefix_len - offset)) in
    if ltb (offset + 8) prefix_len then (j == i) && rest else in_range (clear_low i range) range j

unfoldable pub covers : ℕ → (ℕ → ℕ) → ℕ → (ℕ → ℕ) → Bool
covers fuel prefix prefix_len dst =
    let i = lpm_index prefix 0 16 in
    let j = lpm_index dst 0 16 in
    let range = 2 ^ (16 - prefix_len) in
    if ltb 16 prefix_len
    then (j == i) && covers_below fuel prefix prefix_len dst 16
    else in_range (clear_low i range) range j

module _ {Ptr Block : Type 0} where
  abbrev pub ptrs : List (Entry Ptr Block) → List Ptr
  ptrs h = map (λ e. e.ptr) h

  -- the lists that a destination meets below a node, deepest first
  unfoldable pub candidates : (ℕ → ℕ) → Node Ptr Block → ℕ → List Ptr
  candidates dst (leaf h) offset = ptrs h
  candidates dst (inner h b nodes) offset =
      candidates dst (nodes (lpm_index dst offset 8)) (offset + 8) ++ ptrs h

  unfoldable pub routes : (ℕ → Node Ptr Block) → (ℕ → ℕ) → List Ptr
  routes table dst = candidates dst (table (lpm_index dst 0 16)) 16

module _ {Ptr : Type 0} (len : Ptr → ℕ) where
  -- insertion behind the longer prefixes and before those of the same length
  unfoldable pub insert_by_len : Ptr → List Ptr → List Ptr
  insert_by_len p [] = p ∷ []
  insert_by_len p (x ∷ xs) =
      let rest = insert_by_len p xs in if ltb (len p) (len x) then x ∷ rest else p ∷ x ∷ xs

  -- longest prefix first
  abbrev pub IsSorted : List Ptr → Type 0
  IsSorted [] = Unit
  IsSorted (x ∷ xs) = All (λ y. len y ≤ len x) xs × IsSorted xs

  abbrev pub AllLen : ℕ → ℕ → List Ptr → Type 0
  AllLen lo hi xs = All (λ y. (lo ≤ len y) × (len y ≤ hi)) xs

-- A change of a sorted list of routes that concerns the entries of length `l` only. Insertion and
-- deletion are such changes.
pub record IsLengthChange {Ptr : Type 0} (len : Ptr → ℕ) (l : ℕ) (f : List Ptr → List Ptr)
    : Type 0 where
  pub sorted : (xs : List Ptr) → IsSorted len xs → IsSorted len (f xs)
  pub bounded :
      (lo hi : ℕ) (xs : List Ptr) → lo ≤ l → l ≤ hi → AllLen len lo hi xs → AllLen len lo hi (f xs)
  pub longer : (xs ys : List Ptr) → All (λ y. l < len y) xs → f (xs ++ ys) ≡ xs ++ f ys
  pub shorter : (xs ys : List Ptr) → All (λ y. len y < l) ys → f (xs ++ ys) ≡ f xs ++ ys

-- A table is well formed: each list is sorted, and the list of a node at `offset` holds the lengths
-- from `lo` to `offset`, those that end in its stride.
module _ {Ptr Block : Type 0} (len : Ptr → ℕ) where
  abbrev pub IsWellFormedNode : ℕ → Node Ptr Block → ℕ → Type 0
  IsWellFormedNode lo (leaf h) offset = IsSorted len (ptrs h) × AllLen len lo offset (ptrs h)
  IsWellFormedNode lo (inner h b nodes) offset =
      (IsSorted len (ptrs h) × AllLen len lo offset (ptrs h))
      × ((i : ℕ) → IsWellFormedNode (offset + 1) (nodes i) (offset + 8))

  abbrev pub IsWellFormed : (ℕ → Node Ptr Block) → Type 0
  IsWellFormed table = (i : ℕ) → IsWellFormedNode 0 (table i) 16
