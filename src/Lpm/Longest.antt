-- ===== src/Lpm/Longest.antt =====
-- src/lpm.c: in a well-formed table `lpm_lookup` finds the longest prefix.
use mathlib.Core.Option
use mathlib.Core.Path.{subst}
use native.Mathlib.Nat.{le_refl}
use ufp.Common.{ℕ, ◌≤◌, ◌≡◌, refl, ap, ◌∙◌, sym, some, List, [], ◌∷◌, head?, All}
use ufp.Lpm.{Entry, Node, lpm_index, lpm_init, lpm_init_node, lpm_lookup}
use ufp.Lpm.Spec.{candidates, routes, IsSorted, IsWellFormed}
use ufp.Lpm.Lookup.{lpm_lookup-routes}
use ufp.Lpm.Routes.{candidates-IsSorted}

module _ {Ptr : Type 0} (len : Ptr → ℕ) where
  pub head-longest :
      (ps : List Ptr) (p : Ptr) → head? ps ≡ some p → IsSorted len ps → All (λ q. len q ≤ len p) ps
  head-longest [] p e sorted = absurd (cc)
  head-longest (x ∷ xs) p e sorted =
      let same : x ≡ p = cc in
      subst (λ q. All (λ y. len y ≤ len q) (x ∷ xs)) same (le_refl (len x), sorted.0)

module _ {Ptr Block : Type 0} (len : Ptr → ℕ) where
  pub routes-IsSorted :
      (table : ℕ → Node Ptr Block) (dst : ℕ → ℕ)
      → IsWellFormed len table
      → IsSorted len (routes table dst)
  unfolding routes
  routes-IsSorted table dst w = candidates-IsSorted len dst 0 (table (lpm_index dst 0 16)) 16 (w _)

  -- In a well-formed table no route to the destination is longer than the one that `lpm_lookup`
  -- returns.
  pub lpm_lookup-longest :
      (table : ℕ → Node Ptr Block) (dst : ℕ → ℕ) (e : Entry Ptr Block)
      → IsWellFormed len table
      → lpm_lookup table dst ≡ some e
      → All (λ q. len q ≤ len e.ptr) (routes table dst)
  lpm_lookup-longest table dst e w found =
      head-longest len (routes table dst) e.ptr
        (sym (lpm_lookup-routes table dst)
          ∙ ap (λ o. Option.map (λ (x : Entry Ptr Block). x.ptr) o) found)
        (routes-IsSorted table dst w)

module _ {Ptr : Type 0} (Block : Type 0) (len : Ptr → ℕ) where
  -- `lpm_init` makes a well-formed table without routes.
  pub lpm_init-IsWellFormed :
      IsWellFormed {Block = Block} len lpm_init
      × ((dst : ℕ → ℕ) → routes {Ptr = Ptr} {Block = Block} lpm_init dst ≡ [])
  unfolding lpm_init lpm_init_node routes candidates
  lpm_init-IsWellFormed = (λ i. (tt, tt), λ dst. refl)
