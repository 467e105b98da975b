-- ===== src/Lpm/Change.antt =====
-- src/lpm.c: what a change of one next table does to the routes below a node.
use ufp.Common.{
  ℕ, ◌+◌, ◌≤◌, ◌<◌, ◌≡◌, refl, sym, Bool, true, false, ◌&&◌, List, ◌++◌, ◌==◌, if◌then◌else◌, All,
  arith, Bool-cases, inl, inr, update,
}
use ufp.Lpm.{Node, inner, lpm_index, head_of}
use ufp.Lpm.Spec.{ptrs, in_range, candidates, IsLengthChange, IsWellFormedNode}
use ufp.Lpm.Range.{Changed}
use ufp.Lpm.Routes.{OwnList, All-mono, Replaced-IsWellFormedNode, Replaced-candidates}

-- the routes to a destination after a change, if the destination is covered
abbrev pub apply_if {ℓ} : {A : Type ℓ} → Bool → (A → A) → A → A
apply_if c f xs = if c then f xs else xs

module _ {Ptr : Type 0} (len : Ptr → ℕ) {l : ℕ} (f : List Ptr → List Ptr)
    (change : IsLengthChange len l f) where
  apply_if-append :
      (c : Bool) (xs ys : List Ptr)
      → All (λ y. len y < l) ys
      → apply_if c f xs ++ ys ≡ apply_if c f (xs ++ ys)
  apply_if-append true xs ys h = sym (change.shorter xs ys h)
  apply_if-append false xs ys h = refl

  module _ {Block : Type 0} (lo offset : ℕ) (low : lo ≤ l) (high : l ≤ offset) where
    pub Changed-IsWellFormedNode :
        (c : Bool) (old new : Node Ptr Block)
        → Changed len c f old new
        → IsWellFormedNode len lo old offset
        → IsWellFormedNode len lo new offset
    Changed-IsWellFormedNode true old new h w =
        Replaced-IsWellFormedNode len f change lo offset low high old new h w
    Changed-IsWellFormedNode false old new h w = rw h w

    pub Changed-candidates :
        (dst : ℕ → ℕ) (c : Bool) (old new : Node Ptr Block)
        → Changed len c f old new
        → IsWellFormedNode len lo old offset
        → candidates dst new offset ≡ apply_if c f (candidates dst old offset)
    Changed-candidates dst true old new h w =
        Replaced-candidates len f change lo offset low high dst old new h w
    Changed-candidates dst false old new h w = rw h refl

  -- a parent and the next table that `_lpm_add` or `_lpm_delete` works on
  pub record OpenedTable {Block : Type 0} (lo : ℕ) (parent : Node Ptr Block) (offset : ℕ)
      (nodes : ℕ → Node Ptr Block) : Type 0 where
    pub own : OwnList len lo parent offset
    pub below : (i : ℕ) → IsWellFormedNode len (offset + 1) (nodes i) (offset + 8)
    pub split :
        (dst : ℕ → ℕ)
        → candidates dst parent offset
          ≡ candidates dst (nodes (lpm_index dst offset 8)) (offset + 8) ++ ptrs (head_of parent)

  module _ {Block : Type 0} where
    -- The node is well formed, and the routes of the covered destinations have changed by `f`.
    abbrev pub Effect : ℕ → ((ℕ → ℕ) → Bool) → Node Ptr Block → Node Ptr Block → ℕ → Type 0
    Effect lo cover old new offset =
        IsWellFormedNode len lo new offset
        × ((dst : ℕ → ℕ)
            → candidates dst new offset ≡ apply_if (cover dst) f (candidates dst old offset))

    pub Effect-congr :
        (lo : ℕ) (c c' : (ℕ → ℕ) → Bool) (old new : Node Ptr Block) (offset : ℕ)
        → ((dst : ℕ → ℕ) → c' dst ≡ c dst)
        → Effect lo c old new offset
        → Effect lo c' old new offset
    Effect-congr lo c c' old new offset e a = (a.0, λ dst. rw (e dst) (a.1 dst))

    module _ (lo : ℕ) (parent : Node Ptr Block) (offset : ℕ) (b : Block)
        (nodes : ℕ → Node Ptr Block) (o : OpenedTable lo parent offset nodes)
        (deep : offset < l) where
      -- another next table under the same list
      table-Effect :
          (nodes' : ℕ → Node Ptr Block) (cover : (ℕ → ℕ) → Bool)
          → ((i : ℕ) → IsWellFormedNode len (offset + 1) (nodes' i) (offset + 8))
          → ((dst : ℕ → ℕ)
              → let i = lpm_index dst offset 8 in
                candidates dst (nodes' i) (offset + 8)
                ≡ apply_if (cover dst) f (candidates dst (nodes i) (offset + 8)))
          → Effect lo cover parent (inner (head_of parent) b nodes') offset
      unfolding candidates
      table-Effect nodes' cover below routes = (
        (o.own, below),
        λ dst.
            let i = lpm_index dst offset 8 in
            rw (routes dst, o.split dst)
              (apply_if-append (cover dst) (candidates dst (nodes i) (offset + 8))
                (ptrs (head_of parent))
                (All-mono (λ y k. omega arith) (ptrs (head_of parent)) o.own.1)),
      )

      -- the last stride of a prefix: the lists in the range change
      pub range-Effect :
          (base range : ℕ) (nodes' : ℕ → Node Ptr Block)
          → l ≤ offset + 8
          → ((j : ℕ) → Changed len (in_range base range j) f (nodes j) (nodes' j))
          → Effect lo
              (λ dst. in_range base range (lpm_index dst offset 8))
              parent
              (inner (head_of parent) b nodes')
              offset
      range-Effect base range nodes' short changed =
          table-Effect nodes' _
            (λ i.
              Changed-IsWellFormedNode (offset + 1) (offset + 8) (omega arith) short _ (nodes i)
                (nodes' i) (changed i) (o.below i))
            (λ dst.
              let i = lpm_index dst offset 8 in
              Changed-candidates (offset + 1) (offset + 8) (omega arith) short dst _ (nodes i)
                (nodes' i) (changed i) (o.below i))

      -- a stride that the prefix goes on below: only the node on its way changes
      pub child-Effect :
          (k : ℕ) (child : Node Ptr Block) (cover : (ℕ → ℕ) → Bool)
          → Effect (offset + 1) cover (nodes k) child (offset + 8)
          → Effect lo
              (λ dst. (lpm_index dst offset 8 == k) && cover dst)
              parent
              (inner (head_of parent) b (update nodes k child))
              offset
      child-Effect k child cover effect =
          table-Effect (update nodes k child) _
            (λ i. elim (Bool-cases (i == k)) [ inl e ↦ rw e effect.0 | inr e ↦ rw e (o.below i) ])
            (λ dst.
              let i = lpm_index dst offset 8 in
              elim (Bool-cases (i == k)) [
                | inl e ↦ let same : i ≡ k = ground arith in rw e (rw same (effect.1 dst))
                | inr e ↦ rw e refl
              ])
