-- ===== src/Lpm/Remove.antt =====
-- src/lpm.c, `lpm_delete`: the route goes from the destinations that the prefix covers.
use native.Mathlib.Nat.{add-zero}
use ufp.Common.{
  ℕ, ◌∙◌, zero, suc, ◌+◌, ◌-◌, ◌*◌, ◌^◌, ◌≤◌, ◌<◌, ◌≡◌, refl, Bool, true, false, List, ltb, ◌==◌,
  sub32, arith, Bool-cases, inl, inr, update,
}
use ufp.Lpm.{Callbacks, Entry, Node, leaf, inner, lpm_index, clear_low}
use ufp.Lpm.Update.{delete_range}
use ufp.Lpm.Delete.{end_delete, delete_below, lpm_delete}
use ufp.Lpm.Spec.{
  Laws, covers_below, covers, candidates, routes, IsLengthChange, IsWellFormedNode, IsWellFormed,
}
use ufp.Lpm.Routes.{own_list}
use ufp.Lpm.Erase.{erase_route, erase_route-IsLengthChange, delete_range-Changed}
use ufp.Lpm.Cover.{covers_below_deeper, covers_below_last}
use ufp.Lpm.Close.{close_table-routes}
use ufp.Lpm.Change.{
  apply_if, Changed-IsWellFormedNode, Changed-candidates, OpenedTable, Effect, Effect-congr,
  range-Effect, child-Effect,
}

module _ {Ptr Block State : Type 0} (ops : Callbacks Ptr Block State) (laws : Laws ops) where
  open laws use {len, ident}

  module _ (id l : ℕ) where
    abbrev erasure : IsLengthChange len l (erase_route ident len id l)
    erasure = erase_route-IsLengthChange ident len id l

    -- the route goes below `parent`
    abbrev Deleted : ℕ → ((ℕ → ℕ) → Bool) → Node Ptr Block → Node Ptr Block → ℕ → Type 0
    Deleted lo = Effect len (erase_route ident len id l) erasure lo

    end_delete-Deleted :
        (lo : ℕ) (cover : (ℕ → ℕ) → Bool) (old : Node Ptr Block) (h : List (Entry Ptr Block))
        (b : Block) (done : Bool) (nodes : ℕ → Node Ptr Block) (s : State) (offset : ℕ)
        → (end_delete ops h b done nodes s).0 ≡ true
        → (done ≡ true → Deleted lo cover old (inner h b nodes) offset)
        → Deleted lo cover old (end_delete ops h b done nodes s).1 offset
    end_delete-Deleted lo cover old h b true nodes s offset run effect =
        let (w, same) = close_table-routes ops len h b nodes s lo offset (effect refl).0 in
        (w, λ dst. same dst ∙ (effect refl).1 dst)
    end_delete-Deleted lo cover old h b false nodes s offset run effect = absurd (cc)

    module _ (prefix : ℕ → ℕ) (h : List (Entry Ptr Block)) (b : Block) (nodes : ℕ → Node Ptr Block)
        (offset : ℕ) (s : State) (deep : offset < l) (word : l < 2 ^ 32) where
      delete_below_deeper :
          ltb (offset + 8) l ≡ true
          → delete_below ops prefix l id (inner h b nodes) offset s ≡ (
              let i = lpm_index prefix offset 8 in
              let r = delete_below ops prefix l id (nodes i) (offset + 8) s in
              end_delete ops h b r.0 (update nodes i r.1) r.2)
      unfolding delete_below
      delete_below_deeper more =
          let test : ltb 8 (sub32 l offset) ≡ true = ground arith in rw (test, delete_below) refl

      delete_below_last :
          ltb (offset + 8) l ≡ false
          → delete_below ops prefix l id (inner h b nodes) offset s ≡ (
              let range = 2 ^ (8 - (l - offset)) in
              let base = clear_low (lpm_index prefix offset 8) range in
              let r = delete_range ops range id l base 0 nodes s in end_delete ops h b r.0 r.1 r.2)
      unfolding delete_below
      delete_below_last last =
          let test : ltb 8 (sub32 l offset) ≡ false = ground arith in
          let same : sub32 l offset ≡ l - offset = omega arith in
          rw (test, delete_below) (rw same refl)

    delete_below-Deleted :
        (fuel : ℕ) (prefix : ℕ → ℕ) (lo : ℕ) (parent : Node Ptr Block) (offset : ℕ) (s : State)
        → (delete_below ops prefix l id parent offset s).0 ≡ true
        → offset < l
        → l < 2 ^ 32
        → l ≤ offset + 8 * fuel
        → IsWellFormedNode len lo parent offset
        → Deleted lo
            (λ dst. covers_below fuel prefix l dst offset)
            parent
            (delete_below ops prefix l id parent offset s).1
            offset
    delete_below-Deleted fuel prefix lo (leaf h) offset s run deep word enough w =
        absurd (unfold delete_below in cc)
    delete_below-Deleted zero prefix lo (inner h b nodes) offset s run deep word enough w =
        absurd (omega arith)
    delete_below-Deleted (suc fuel) prefix lo (inner h b nodes) offset s run deep word enough w =
        let f = erase_route ident len id l in
        let parent = inner h b nodes in
        let i = lpm_index prefix offset 8 in
        let o : OpenedTable len f erasure lo parent offset nodes = record {
          own = w.0;
          below = w.1;
          split = λ dst. unfold candidates in refl;
        } in
        elim (Bool-cases (ltb (offset + 8) l)) [
          | inl more ↦
              let step = delete_below_deeper prefix h b nodes offset s deep word more in
              let r = delete_below ops prefix l id (nodes i) (offset + 8) s in
              rw step (
                end_delete-Deleted lo _ parent h b r.0 (update nodes i r.1) r.2 offset
                  (rw step at run)
                  (λ done.
                    Effect-congr len f erasure lo _ _ parent _ offset
                      (λ dst. covers_below_deeper fuel prefix l dst offset more)
                      (child-Effect len f erasure lo parent offset b nodes o deep i r.1 _ (
                        delete_below-Deleted fuel prefix (offset + 1) (nodes i) (offset + 8) s done
                          (ground arith) word (omega arith) (w.1 i)))))
          | inr last ↦
              let step = delete_below_last prefix h b nodes offset s deep word last in
              let range = 2 ^ (8 - (l - offset)) in
              let base = clear_low i range in
              let r = delete_range ops range id l base 0 nodes s in
              rw step (
                end_delete-Deleted lo _ parent h b r.0 r.1 r.2 offset (rw step at run) (λ done.
                  Effect-congr len f erasure lo _ _ parent _ offset
                    (λ dst. covers_below_last fuel prefix l dst offset last)
                    (range-Effect len f erasure lo parent offset b nodes o deep (base + 0) range r.1
                      (ground arith)
                      (delete_range-Changed ops laws range id l base 0 nodes s done
                        (λ j. (own_list len (offset + 1) (nodes j) (offset + 8) (w.1 j)).0)))))
        ]

    lpm_delete_deeper :
        (table : ℕ → Node Ptr Block) (prefix : ℕ → ℕ) (s : State)
        → ltb 16 l ≡ true
        → lpm_delete ops table prefix l id s ≡ (
            let k = lpm_index prefix 0 16 in
            let r = delete_below ops prefix l id (table k) 16 s in (r.0, update table k r.1, r.2))
    unfolding lpm_delete
    lpm_delete_deeper table prefix s more = rw (more, lpm_delete) refl

    lpm_delete_last :
        (table : ℕ → Node Ptr Block) (prefix : ℕ → ℕ) (s : State)
        → ltb 16 l ≡ false
        → lpm_delete ops table prefix l id s ≡ (
            let range = 2 ^ (16 - l) in
            delete_range ops range id l (clear_low (lpm_index prefix 0 16) range) 0 table s)
    unfolding lpm_delete
    lpm_delete_last table prefix s last = rw (last, lpm_delete) refl

    -- A successful `lpm_delete` leaves the table well formed, and takes the first route with the
    -- identifier and the length from exactly the destinations that the prefix covers.
    pub lpm_delete-routes :
        (fuel : ℕ) (table : ℕ → Node Ptr Block) (prefix : ℕ → ℕ) (s : State)
        → (lpm_delete ops table prefix l id s).0 ≡ true
        → l < 2 ^ 32
        → l ≤ 16 + 8 * fuel
        → IsWellFormed len table
        → IsWellFormed len (lpm_delete ops table prefix l id s).1
          × ((dst : ℕ → ℕ)
              → routes (lpm_delete ops table prefix l id s).1 dst
                ≡ apply_if
                    (covers fuel prefix l dst)
                    (erase_route ident len id l)
                    (routes table dst))
    unfolding routes covers
    lpm_delete-routes fuel table prefix s run word enough w =
        let f = erase_route ident len id l in
        let k = lpm_index prefix 0 16 in
        elim (Bool-cases (ltb 16 l)) [
          | inl more ↦
              let step = lpm_delete_deeper table prefix s more in
              let deleted =
                delete_below-Deleted fuel prefix 0 (table k) 16 s (rw step at run) (ground arith)
                  word enough (w k) in
              rw step (
                λ i. elim (Bool-cases (i == k)) [ inl e ↦ rw e deleted.0 | inr e ↦ rw e (w i) ],
                λ dst.
                    let i = lpm_index dst 0 16 in
                    elim (Bool-cases (i == k)) [
                      | inl e ↦
                          let same : i ≡ k = ground arith in rw (e, more) (rw same (deleted.1 dst))
                      | inr e ↦ rw (e, more) refl
                    ],
              )
          | inr last ↦
              let step = lpm_delete_last table prefix s last in
              let range = 2 ^ (16 - l) in
              let base = clear_low k range in
              let changed =
                delete_range-Changed ops laws range id l base 0 table s (rw step at run)
                  (λ j. (own_list len 0 (table j) 16 (w j)).0) in
              rw step (
                λ i.
                    Changed-IsWellFormedNode len f erasure 0 16 (omega arith) (ground arith) _
                      (table i) _ (changed i) (w i),
                λ dst.
                    let i = lpm_index dst 0 16 in
                    rw last (
                      rw add-zero at (
                        Changed-candidates len f erasure 0 16 (omega arith) (ground arith) dst _
                          (table i) _ (changed i) (w i))),
              )
        ]
