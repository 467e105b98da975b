-- ===== src/Mem/Tree.antt =====
-- lib/lib_mem.c: the trees that the pool builds, and the blocks that they hand out.
use ufp.Common.{
  ℕ, ◌+◌, ◌/◌, ◌≤◌, ◌<◌, ◌≡◌, refl, Bool, true, false, ◌||◌, List, [], ◌∷◌, ◌++◌, if◌then◌else◌,
  arith,
}
use ufp.Mem.{Mnode, null, node, is_allocated, size_of, ptr_of}

-- A free node has no children; a node in use has none, or two that share its memory, of which
-- one at least is in use.
pub data IsTree : Mnode → Type 0 where
  free_leaf : (s p : ℕ) → IsTree (node false s p null null)
  used_leaf : (s p : ℕ) → IsTree (node true s p null null)
  inner :
      {s p : ℕ} {l r : Mnode}
      → IsTree l
      → IsTree r
      → size_of l ≡ s / 2
      → ptr_of l ≡ p
      → size_of r ≡ s / 2
      → ptr_of r ≡ p + s / 2
      → (is_allocated l || is_allocated r) ≡ true
      → IsTree (node true s p l r)

pub record Block : Type 0 where
  pub ptr : ℕ
  pub size : ℕ

abbrev pub block : ℕ → ℕ → Block
block p s = record { ptr = p; size = s }

abbrev pub is_null : Mnode → Bool
is_null null = true
is_null (node a s p l r) = false

-- the blocks that clients hold, by address
unfoldable pub blocks : Mnode → List Block
blocks null = []
blocks (node false s p l r) = []
blocks (node true s p l r) =
    let below = blocks l ++ blocks r in if is_null l then block p s ∷ [] else below

-- Blocks between two addresses, each at or after the end of the one before: they do not overlap.
abbrev pub IsPacked : ℕ → ℕ → List Block → Type 0
IsPacked lo hi [] = lo ≤ hi
IsPacked lo hi (b ∷ bs) = (lo ≤ b.ptr) × IsPacked (b.ptr + b.size) hi bs

-- no free node has room for the size
unfoldable pub NoRoom : ℕ → Mnode → Type 0
NoRoom want null = Unit
NoRoom want (node false s p l r) = s < want
NoRoom want (node true s p l r) = NoRoom want l × NoRoom want r

pub IsTree-not_null : {t : Mnode} → IsTree t → is_null t ≡ false
IsTree-not_null (free_leaf s p) = refl
IsTree-not_null (used_leaf s p) = refl
IsTree-not_null (inner wl wr sl pl sr pr some_used) = refl

pub blocks-inner :
    {l : Mnode} (s p : ℕ) (r : Mnode) → IsTree l → blocks (node true s p l r) ≡ blocks l ++ blocks r
unfolding blocks
blocks-inner s p r wl = rw (IsTree-not_null wl) refl

pub blocks-free : {t : Mnode} → IsTree t → is_allocated t ≡ false → blocks t ≡ []
unfolding blocks
blocks-free (free_leaf s p) e = refl
blocks-free (used_leaf s p) e = absurd (cc)
blocks-free (inner wl wr sl pl sr pr some_used) e = absurd (cc)

pub NoRoom-small : {t : Mnode} (want : ℕ) → IsTree t → size_of t < want → NoRoom want t
unfolding NoRoom
NoRoom-small want (free_leaf s p) h = h
NoRoom-small want (used_leaf s p) h = (tt, tt)
NoRoom-small want (inner wl wr sl pl sr pr some_used) h =
    (NoRoom-small want wl (omega arith), NoRoom-small want wr (omega arith))

IsPacked-weaken :
    (lo mid hi : ℕ) (ys : List Block) → lo ≤ mid → IsPacked mid hi ys → IsPacked lo hi ys
IsPacked-weaken lo mid hi [] h hy = omega arith
IsPacked-weaken lo mid hi (y ∷ ys) h hy = (omega arith, hy.1)

IsPacked-grow :
    (lo hi hi' : ℕ) (ys : List Block) → hi ≤ hi' → IsPacked lo hi ys → IsPacked lo hi' ys
IsPacked-grow lo hi hi' [] h hy = omega arith
IsPacked-grow lo hi hi' (y ∷ ys) h hy = (hy.0, IsPacked-grow (y.ptr + y.size) hi hi' ys h hy.1)

IsPacked-append :
    (lo mid hi : ℕ) (xs ys : List Block)
    → IsPacked lo mid xs
    → IsPacked mid hi ys
    → IsPacked lo hi (xs ++ ys)
IsPacked-append lo mid hi [] ys hx hy = IsPacked-weaken lo mid hi ys hx hy
IsPacked-append lo mid hi (x ∷ xs) ys hx hy =
    (hx.0, IsPacked-append (x.ptr + x.size) mid hi xs ys hx.1 hy)

-- The blocks of a tree lie in its memory and do not overlap.
pub blocks-IsPacked : {t : Mnode} → IsTree t → IsPacked (ptr_of t) (ptr_of t + size_of t) (blocks t)
unfolding blocks
blocks-IsPacked (free_leaf s p) = omega arith
blocks-IsPacked (used_leaf s p) = (omega arith, omega arith)
blocks-IsPacked (inner {s} {p} {l} {r} wl wr sl pl sr pr some_used) =
    let left = blocks-IsPacked wl in
    let right = blocks-IsPacked wr in
    let mid = ptr_of l + size_of l in
    let right' =
      IsPacked-weaken mid (ptr_of r) (p + s) (blocks r) (omega arith)
        (IsPacked-grow (ptr_of r) (ptr_of r + size_of r) (p + s) (blocks r) (omega arith) right) in
    rw (IsTree-not_null wl) (
      IsPacked-weaken p (ptr_of l) (p + s) (blocks l ++ blocks r) (omega arith)
        (IsPacked-append (ptr_of l) mid (p + s) (blocks l) (blocks r) left right'))
