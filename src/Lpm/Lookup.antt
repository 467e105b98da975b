-- ===== src/Lpm/Lookup.antt =====
-- src/lpm.c, `lpm_lookup`: it returns the first of the routes that cover the destination.
use mathlib.Core.Option
use ufp.Common.{
  ℕ, ◌+◌, ◌≡◌, refl, sym, if◌then◌else◌, false, Option, none, some, List, [], ◌∷◌, ◌++◌, head?,
}
use ufp.Lpm.{
  Entry, Node, leaf, inner, head_of, has_next, choose, last_resort, lpm_index, lookup_below,
  lpm_lookup,
}
use ufp.Lpm.Spec.{ptrs, candidates, routes}

module _ {Ptr Block : Type 0} where
  -- the routes below a node's own list
  abbrev below : (ℕ → ℕ) → Node Ptr Block → ℕ → List Ptr
  below dst (leaf h) offset = []
  below dst (inner h b nodes) offset = candidates dst (nodes (lpm_index dst offset 8)) (offset + 8)

  -- a list that a search returned leads the routes that it searched
  abbrev Leads : Option (List (Entry Ptr Block)) → List Ptr → Type 0
  Leads none ps = ps ≡ []
  Leads (some []) ps = ⊥
  Leads (some (x ∷ xs)) ps = head? ps ≡ some x.ptr

  choose-Leads :
      (node : Node Ptr Block) (deeper : Option (List (Entry Ptr Block))) (ps : List Ptr)
      → Leads deeper ps
      → (has_next node ≡ false → ps ≡ [])
      → Leads (choose node deeper) (ps ++ ptrs (head_of node))
  choose-Leads (leaf []) deeper ps h e = rw (e refl) refl
  choose-Leads (leaf (x ∷ xs)) deeper ps h e = rw (e refl) refl
  choose-Leads (inner [] b nodes) none ps h e = rw h refl
  choose-Leads (inner (x ∷ xs) b nodes) none ps h e = rw h refl
  choose-Leads (inner _ b nodes) (some []) ps h e = elim h [ ]
  choose-Leads (inner _ b nodes) (some (y ∷ ys)) [] h e = cc
  choose-Leads (inner _ b nodes) (some (y ∷ ys)) (p ∷ ps) h e = h

  -- the routes at a node are those below it, then its own
  candidates-below :
      (dst : ℕ → ℕ) (node : Node Ptr Block) (offset : ℕ)
      → candidates dst node offset ≡ below dst node offset ++ ptrs (head_of node)
  unfolding candidates
  candidates-below dst (leaf h) offset = refl
  candidates-below dst (inner h b nodes) offset = refl

  below-leaf :
      (dst : ℕ → ℕ) (node : Node Ptr Block) (offset : ℕ)
      → has_next node ≡ false
      → below dst node offset ≡ []
  below-leaf dst (leaf h) offset e = refl
  below-leaf dst (inner h b nodes) offset e = cc

  lookup_below-Leads :
      (dst : ℕ → ℕ) (node : Node Ptr Block) (offset : ℕ)
      → Leads (lookup_below dst node offset) (below dst node offset)
  unfolding lookup_below
  lookup_below-Leads dst (leaf h) offset = refl
  lookup_below-Leads dst (inner h b nodes) offset =
      let i = lpm_index dst offset 8 in
      rw (candidates-below dst (nodes i) (offset + 8)) (
        choose-Leads (nodes i) (lookup_below dst (nodes i) (offset + 8))
          (below dst (nodes i) (offset + 8)) (lookup_below-Leads dst (nodes i) (offset + 8))
          (below-leaf dst (nodes i) (offset + 8)))

  last_resort-head :
      (node : Node Ptr Block) (found : Option (List (Entry Ptr Block))) (ps : List Ptr)
      → Leads found ps
      → (has_next node ≡ false → ps ≡ [])
      → Option.map
          (λ e. e.ptr)
          (if has_next node then head? (last_resort node found) else head? (head_of node))
        ≡ head? (ps ++ ptrs (head_of node))
  unfolding Option.map
  last_resort-head (leaf []) found ps h e = rw (e refl) refl
  last_resort-head (leaf (x ∷ xs)) found ps h e = rw (e refl) refl
  last_resort-head (inner [] b nodes) none ps h e = rw h refl
  last_resort-head (inner (x ∷ xs) b nodes) none ps h e = rw h refl
  last_resort-head (inner _ b nodes) (some []) ps h e = elim h [ ]
  last_resort-head (inner _ b nodes) (some (y ∷ ys)) [] h e = cc
  last_resort-head (inner _ b nodes) (some (y ∷ ys)) (p ∷ ps) h e = sym h

  -- `lpm_lookup` returns the first of the routes to the destination: the first entry of the deepest
  -- nonempty list on its way, and NULL only if every list on the way is empty.
  pub lpm_lookup-routes :
      (table : ℕ → Node Ptr Block) (dst : ℕ → ℕ)
      → Option.map (λ e. e.ptr) (lpm_lookup table dst) ≡ head? (routes table dst)
  unfolding lpm_lookup routes
  lpm_lookup-routes table dst =
      let node = table (lpm_index dst 0 16) in
      rw (candidates-below dst node 16) (
        last_resort-head node (lookup_below dst node 16) (below dst node 16)
          (lookup_below-Leads dst node 16) (below-leaf dst node 16))
