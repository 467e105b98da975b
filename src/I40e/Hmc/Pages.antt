-- ===== src/I40e/Hmc/Pages.antt =====
-- dev/i40e/i40e_hmc.c: the areas of memory that the segments map.
use mathlib.Core.Path.{subst}
use Prim.Native.Nat.{bit_or}
use ufp.Common.{
  ℕ, zero, suc, ◌+◌, ◌-◌, ◌*◌, ◌^◌, Bool, true, false, ◌≡◌, ◌∙◌, arith, Option, none, some, update,
}
use ufp.I40e.{Registers}
use ufp.I40e.Mapped.{total, of_buf, total-push}
use ufp.Dev.Dma.{System, DevBuf, ufp_dev_dma_alloc, ufp_dev_dma_free}
use ufp.I40e.Aq.{Shared}
use ufp.I40e.Aq.Areas.{IsCounted, BufFrom, dma_alloc-areas, dma_free-areas}
use ufp.I40e.Hmc.{
  SdEntry, paged_bp_size, max_bp_count, pfhmc_pdinv, alloc_pds, free_pds, with_pds, with_pd_addrs,
  i40e_hmc_sd_allocate, release_pds, i40e_hmc_sd_release, i40e_set_pf_sd_entry,
  i40e_clear_pf_sd_entry,
}

module _ {R : Type 0} (system : System R) (page_size : ℕ) (hw : Registers R) (mem : Shared R)
    (area : ℕ × ℕ) (areas : R → ℕ) (laws : IsCounted system page_size hw mem area areas)
    (store64 : (addr value : ℕ) → R → R)
    (same_store64 : (addr value : ℕ) (s : R) → areas (store64 addr value s) ≡ areas s) where
  abbrev weight : DevBuf → ℕ
  weight buf = of_buf page_size area buf

  -- how often the area is among the pages of a segment and that of their addresses
  abbrev pub of_segment : SdEntry → ℕ
  of_segment sd = weight sd.pd_addrs + total weight max_bp_count 0 sd.pd

  abbrev pub SdFrom : (a : ℕ) → Option SdEntry × R → Type 0
  SdFrom a (none, s) = areas s ≡ a
  SdFrom a (some sd, s) = areas s ≡ a + of_segment sd

  abbrev PdsFrom : (a n : ℕ) → Bool × ℕ × (ℕ → DevBuf) × R → Type 0
  PdsFrom a n (true, i, pd, s) = areas s ≡ a + total weight n 0 pd
  PdsFrom a n (false, i, pd, s) = areas s ≡ a + total weight i 0 pd

  free-areas :
      (buf : DevBuf) (s : R)
      → areas (ufp_dev_dma_free system page_size buf s) ≡ areas s - weight buf
  free-areas = dma_free-areas system page_size hw mem area areas laws

  free_pds-areas :
      (n i : ℕ) (pd : ℕ → DevBuf) (s : R)
      → areas (free_pds hw system page_size store64 n i pd s) ≡ areas s - total weight n i pd
  unfolding free_pds total
  free_pds-areas zero i pd s = omega arith
  free_pds-areas (suc n) i pd s = omega (
    arith,
    free-areas (pd i) s,
    free_pds-areas n (suc i) pd (ufp_dev_dma_free system page_size (pd i) s),
  )

  alloc_pd-areas :
      (n i addr a upto : ℕ) (pd : ℕ → DevBuf) (r : Option DevBuf × R)
      → BufFrom system page_size hw mem area areas (a + total weight i 0 pd) r
      → ((buf : DevBuf) (s : R)
          → areas s ≡ a + total weight (suc i) 0 (update pd i buf)
          → PdsFrom a upto (
              alloc_pds hw system page_size store64 n
                (suc i)
                addr
                (update pd i buf)
                (store64 (addr + 8 * i) (bit_or buf.addr_dma 1) s)))
      → PdsFrom a upto (elim r.0 [
        | none ↦ (false, i, pd, r.1)
        | some buf ↦
            alloc_pds hw system page_size store64 n
              (suc i)
              addr
              (update pd i buf)
              (store64 (addr + 8 * i) (bit_or buf.addr_dma 1) r.1)
      ])
  alloc_pd-areas n i addr a upto pd (none, s) e later = e
  alloc_pd-areas n i addr a upto pd (some buf, s) e later =
      later buf s (omega (arith, total-push weight i pd buf))

  alloc_pds-areas :
      (n i addr a : ℕ) (pd : ℕ → DevBuf) (s : R)
      → areas s ≡ a + total weight i 0 pd
      → PdsFrom a (n + i) (alloc_pds hw system page_size store64 n i addr pd s)
  unfolding alloc_pds
  alloc_pds-areas zero i addr a pd s e = let same : 0 + i ≡ i = omega arith in rw same e
  alloc_pds-areas (suc n) i addr a pd s e =
      alloc_pd-areas n i addr a (suc n + i) pd (ufp_dev_dma_alloc system page_size paged_bp_size s)
        (subst
          (λ b.
            BufFrom system page_size hw mem area areas b
              (ufp_dev_dma_alloc system page_size paged_bp_size s))
          e (dma_alloc-areas system page_size hw mem area areas laws paged_bp_size s))
        (λ buf s' e'.
          let same : n + suc i ≡ suc n + i = omega arith in
          let s'' = store64 (addr + 8 * i) (bit_or buf.addr_dma 1) s' in
          subst
            (λ t.
              PdsFrom a t
                (alloc_pds hw system page_size store64 n (suc i) addr (update pd i buf) s''))
            same
            (alloc_pds-areas n (suc i) addr a (update pd i buf) s'' (same_store64 _ _ s' ∙ e')))

  with_pds-areas :
      (pd_addrs : DevBuf) (sd_index a : ℕ) (r : Bool × ℕ × (ℕ → DevBuf) × R)
      → PdsFrom (a + weight pd_addrs) max_bp_count r
      → SdFrom a (with_pds hw system page_size store64 pd_addrs sd_index r)
  unfolding i40e_set_pf_sd_entry
  with_pds-areas pd_addrs sd_index a (true, n, pd, s) e =
      laws.same_write _ _ _ ∙ laws.same_write _ _ _ ∙ laws.same_write _ _ _ ∙ e ∙ omega arith
  with_pds-areas pd_addrs sd_index a (false, n, pd, s) e = omega (
    arith,
    free-areas pd_addrs (free_pds hw system page_size store64 n 0 pd s),
    free_pds-areas n 0 pd s,
  )

  with_pd_addrs-areas :
      (garbage : ℕ → DevBuf) (sd_index a : ℕ) (r : Option DevBuf × R)
      → BufFrom system page_size hw mem area areas a r
      → SdFrom a (with_pd_addrs hw system page_size store64 garbage sd_index r)
  with_pd_addrs-areas garbage sd_index a (none, s) e = e
  with_pd_addrs-areas garbage sd_index a (some pd_addrs, s) e =
      with_pds-areas pd_addrs sd_index a _ (
        alloc_pds-areas max_bp_count 0 pd_addrs.addr_virt (a + weight pd_addrs) garbage s
          (unfold total in omega arith))

  pub sd_allocate-areas :
      (garbage : ℕ → DevBuf) (sd_index : ℕ) (s : R)
      → SdFrom (areas s) (i40e_hmc_sd_allocate hw system page_size store64 garbage sd_index s)
  unfolding i40e_hmc_sd_allocate
  sd_allocate-areas garbage sd_index s =
      with_pd_addrs-areas garbage sd_index (areas s) _
        (dma_alloc-areas system page_size hw mem area areas laws paged_bp_size s)

  release_pds-areas :
      (n i sd_index : ℕ) (pd : ℕ → DevBuf) (s : R)
      → areas (release_pds hw system page_size store64 n i sd_index pd s)
        ≡ areas s - total weight n i pd
  unfolding release_pds total
  release_pds-areas zero i sd_index pd s = omega arith
  release_pds-areas (suc n) i sd_index pd s =
      let s' = hw.write32 pfhmc_pdinv (bit_or sd_index (i * 2 ^ 16)) s in
      omega (
        arith,
        laws.same_write pfhmc_pdinv (bit_or sd_index (i * 2 ^ 16)) s,
        free-areas (pd i) s',
        release_pds-areas n (suc i) sd_index pd (ufp_dev_dma_free system page_size (pd i) s'),
      )

  pub sd_release-areas :
      (sd : SdEntry) (sd_index : ℕ) (s : R)
      → areas (i40e_hmc_sd_release hw system page_size store64 sd sd_index s)
        ≡ areas s - of_segment sd
  unfolding i40e_hmc_sd_release i40e_clear_pf_sd_entry
  sd_release-areas sd sd_index s =
      let kept : areas (i40e_clear_pf_sd_entry hw sd_index s) ≡ areas s =
        laws.same_write _ _ _ ∙ laws.same_write _ _ _ ∙ laws.same_write _ _ _ in
      let s' = i40e_clear_pf_sd_entry hw sd_index s in
      omega (
        arith,
        kept,
        release_pds-areas max_bp_count 0 sd_index sd.pd s',
        free-areas sd.pd_addrs
            (release_pds hw system page_size store64 max_bp_count 0 sd_index sd.pd s'),
      )
