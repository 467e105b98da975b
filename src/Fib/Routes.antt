-- ===== src/Fib/Routes.antt =====
-- src/fib.c: what updates and deletions do to the routes, and what a lookup finds.
use ufp.Common.{
  ℕ, ◌≤◌, ◌<◌, ◌^◌, ◌≡◌, ◌≢◌, ◌↔◌, refl, sym, ◌∙◌, ap, Bool, true, false, none, some, List, [], ◌∷◌,
  leb, ◌==◌, ◌&&◌, head?, All, arith, Option-cases, inl, inr, update,
}
use ufp.Pool.{Pool}
use ufp.Lpm.{Node}
use ufp.Lpm.Update.{lpm_add}
use ufp.Lpm.Spec.{Laws, covers, routes, insert_by_len, IsWellFormed}
use ufp.Lpm.Change.{apply_if}
use ufp.Lpm.Erase.{erase_route}
use ufp.Lpm.Lookup.{lpm_lookup-routes}
use ufp.Lpm.Longest.{head-longest, routes-IsSorted}
use ufp.Lpm.Add.{lpm_add-routes}
use ufp.Lpm.Remove.{lpm_delete-routes}
use ufp.Lpm.Delete.{lpm_delete}
use ufp.Fib.{
  af_inet, af_inet6, FibType, PortIndex, FibEntry, FibState, fib_entry_bytes, strides,
  fib_entry_identify, fib_entry_compare, fib_callbacks, with_pool, end_update, new_entry,
  fib_route_update, fib_route_delete, fib_lookup,
}

abbrev pub len_of : FibEntry → ℕ
len_of e = e.prefix_len

abbrev pub id_of : FibEntry → ℕ
id_of e = e.id

new_entry-prefix_len :
    (addr : ℕ) (old : ℕ → ℕ) (family : ℕ) (type : FibType) (prefix : ℕ → ℕ) (prefix_len : ℕ)
    (nexthop : ℕ → ℕ) (port_index : PortIndex) (id : ℕ) (e : FibEntry)
    → new_entry addr old family type prefix prefix_len nexthop port_index id ≡ some e
    → len_of e ≡ prefix_len
unfolding new_entry
new_entry-prefix_len addr old family type prefix prefix_len nexthop port_index id e made =
    ground arith

pub fib_entry_identify_lem :
    (e : FibEntry) (id l : ℕ)
    → (fib_entry_identify e id l == 0) ≡ (id_of e == id) && (len_of e == l)
unfolding fib_entry_identify
fib_entry_identify_lem e id l = ground arith

pub fib_entry_compare_lem : (e : FibEntry) (l : ℕ) → (fib_entry_compare e l == 0) ≡ leb (len_of e) l
unfolding fib_entry_compare
fib_entry_compare_lem e l = ground arith

insert_by_len-head :
    (e : FibEntry) (xs : List FibEntry)
    → All (λ q. len_of q ≤ len_of e) xs
    → head? (insert_by_len len_of e xs) ≡ some e
unfolding insert_by_len
insert_by_len-head e [] h = refl
insert_by_len-head e (x ∷ xs) h = ground arith

head?-none : (xs : List FibEntry) → head? xs ≡ none → xs ≡ []
head?-none [] e = refl
head?-none (x ∷ xs) e = cc

module _ {S : Type 0} (mem : Pool S) where
  -- the callbacks of src/fib.c compare identifiers and prefix lengths
  abbrev pub fib_laws : Laws (fib_callbacks mem)
  fib_laws = record {
    len = len_of;
    ident = id_of;
    identify = fib_entry_identify_lem;
    compare = fib_entry_compare_lem;
  }

  end_update_done :
      (addr : ℕ) (r : Bool × (ℕ → Node FibEntry ℕ) × FibState S)
      → (end_update mem addr r).0 ≡ true
      → (r.0 ≡ true) × ((end_update mem addr r).1 ≡ r.1)
  end_update_done addr (true, table, s) run = (refl, refl)
  end_update_done addr (false, table, s) run = absurd (cc)

  -- the parameters of `fib_route_update`
  module _ (old : ℕ → ℕ) (table : ℕ → Node FibEntry ℕ) (family : ℕ) (type : FibType)
      (prefix : ℕ → ℕ) (prefix_len : ℕ) (nexthop : ℕ → ℕ) (port_index : PortIndex) (id : ℕ)
      (s : FibState S) where
    -- A successful `fib_route_update` leaves the table well formed, and the new entry is a route to
    -- exactly the destinations that its prefix covers: behind the longer prefixes, before the others.
    pub fib_route_update-routes :
        (table' : ℕ → Node FibEntry ℕ) (s' : FibState S)
        → fib_route_update mem old table family type prefix prefix_len nexthop port_index id s
          ≡ (true, table', s')
        → prefix_len < 2 ^ 32
        → IsWellFormed len_of table
        → (addr : ℕ) × (e : FibEntry) × (new_entry addr old family type prefix prefix_len nexthop
              port_index id
            ≡ some e)
          × IsWellFormed len_of table'
          × ((dst : ℕ → ℕ)
              → routes table' dst
                ≡ apply_if
                    (covers strides prefix prefix_len dst)
                    (insert_by_len len_of e)
                    (routes table dst))
    fib_route_update-routes table' s' run word w =
        elim (Option-cases (with_pool mem s (mem.mem_alloc fib_entry_bytes s.pool))) [
          | inl no_memory ↦ absurd (unfold fib_route_update in ground (arith, no_memory))
          | inr ((addr, s₁), got) ↦
              elim (Option-cases
                (new_entry addr old family type prefix prefix_len nexthop port_index id)) [
                  | inl invalid ↦ absurd (unfold fib_route_update in ground (arith, got, invalid))
                  | inr (e, made) ↦
                      let s₂ : FibState S = record s₁ { refcount = update s₁.refcount addr 0 } in
                      let added =
                        lpm_add (fib_callbacks mem) strides table prefix prefix_len id e s₂ in
                      let step : end_update mem addr added ≡ (true, table', s') =
                        rw (← run)
                          (unfold fib_route_update in rw (got, fib_route_update) (rw made refl)) in
                      let (done, same) = end_update_done addr added (ap (λ r. r.0) step) in
                      let result : added.1 ≡ table' = sym same ∙ ap (λ r. r.1) step in
                      let long =
                        new_entry-prefix_len addr old family type prefix prefix_len nexthop
                          port_index id e made in
                      let (wf, reached) =
                        lpm_add-routes (fib_callbacks mem) fib_laws strides table prefix prefix_len
                          id e s₂ done long word w in
                      (addr, e, made, rw (← result) wf, rw (← result) reached)
                ]
        ]

    -- After a successful `fib_route_update` a lookup of a covered destination returns the new entry,
    -- unless a longer prefix covers it. So the latest of the routes of one length is used.
    pub fib_lookup-fib_route_update :
        (table' : ℕ → Node FibEntry ℕ) (s' : FibState S) (dst : ℕ → ℕ)
        → fib_route_update mem old table family type prefix prefix_len nexthop port_index id s
          ≡ (true, table', s')
        → prefix_len < 2 ^ 32
        → IsWellFormed len_of table
        → covers strides prefix prefix_len dst ≡ true
        → All (λ q. len_of q ≤ prefix_len) (routes table dst)
        → (addr : ℕ) × (e : FibEntry) × (new_entry addr old family type prefix prefix_len nexthop
              port_index id
            ≡ some e)
          × (fib_lookup table' dst ≡ some e)
    unfolding fib_lookup
    fib_lookup-fib_route_update table' s' dst run word w covered shorter =
        let (addr, e, made, _, reached) = fib_route_update-routes table' s' run word w in
        let long =
          new_entry-prefix_len addr old family type prefix prefix_len nexthop port_index id e
            made in
        (
          addr,
          e,
          made,
          rw (lpm_lookup-routes table' dst, reached dst, covered)
              (insert_by_len-head e (routes table dst) (simp long shorter)),
        )

    -- An update for another address family fails and leaves the table and the counters alone.
    pub fib_route_update_family :
        family ≢ af_inet
        → family ≢ af_inet6
        → let r =
            fib_route_update mem old table family type prefix prefix_len nexthop port_index id s in
          (r.0 ≡ false) × (r.1 ≡ table) × (r.2.refcount ≡ s.refcount)
    unfolding fib_route_update new_entry
    fib_route_update_family v4 v6 = elim (Option-cases (mem.mem_alloc fib_entry_bytes s.pool)) [
      | inl no_memory ↦ ground (arith, no_memory)
      | inr (a, got) ↦ ground (arith, got)
    ]

  -- A successful `fib_route_delete` leaves the table well formed, and takes the first route with the
  -- identifier and the prefix length from exactly the destinations that the prefix covers, where
  -- the prefix has at most 128 bits.
  pub fib_route_delete-routes :
      (table : ℕ → Node FibEntry ℕ) (prefix : ℕ → ℕ) (prefix_len id : ℕ) (s : FibState S)
      (table' : ℕ → Node FibEntry ℕ) (s' : FibState S)
      → fib_route_delete mem table prefix prefix_len id s ≡ (true, table', s')
      → prefix_len ≤ 128
      → IsWellFormed len_of table
      → IsWellFormed len_of table'
        × ((dst : ℕ → ℕ)
            → routes table' dst
              ≡ apply_if
                  (covers strides prefix prefix_len dst)
                  (erase_route id_of len_of id prefix_len)
                  (routes table dst))
  unfolding fib_route_delete
  fib_route_delete-routes table prefix prefix_len id s table' s' run short w =
      let result : (lpm_delete (fib_callbacks mem) table prefix prefix_len id s).1 ≡ table' =
        ap (λ r. r.1) run in
      rw (← result) (
        lpm_delete-routes (fib_callbacks mem) fib_laws id prefix_len strides table prefix s
          (ap (λ r. r.0) run) (omega arith) (omega arith) w)

-- The entry that `fib_lookup` returns has a prefix that is at least as long as that of every other
-- route to the destination, in a well-formed table.
pub fib_lookup-longest :
    (table : ℕ → Node FibEntry ℕ) (dst : ℕ → ℕ) (e : FibEntry)
    → IsWellFormed len_of table
    → fib_lookup table dst ≡ some e
    → (head? (routes table dst) ≡ some e) × All (λ q. len_of q ≤ len_of e) (routes table dst)
unfolding fib_lookup
fib_lookup-longest table dst e w found =
    let first = sym (lpm_lookup-routes table dst) ∙ found in
    (first, head-longest len_of (routes table dst) e first (routes-IsSorted len_of table dst w))

-- `fib_lookup` returns NULL exactly if no route covers the destination.
pub fib_lookup-none :
    (table : ℕ → Node FibEntry ℕ) (dst : ℕ → ℕ)
    → (fib_lookup table dst ≡ none) ↔ (routes table dst ≡ [])
unfolding fib_lookup
fib_lookup-none table dst =
    let first = lpm_lookup-routes table dst in
    (λ e. head?-none (routes table dst) (sym first ∙ e), λ e. first ∙ rw e refl)
