-- ===== src/I40e/Hmc/Segments.antt =====
-- dev/i40e/i40e_hmc.c: the areas of memory that all the segments map.
use mathlib.Core.Path.{subst}
use ufp.Common.{
  ℕ, zero, suc, ◌+◌, ◌-◌, Bool, true, false, ◌≡◌, inl, inr, ◌∙◌, arith, Option, none, some,
  Option-cases, update,
}
use ufp.I40e.{Registers}
use ufp.I40e.Mapped.{total, total-push}
use ufp.Dev.Dma.{System}
use ufp.I40e.Aq.{Shared}
use ufp.I40e.Aq.Areas.{IsCounted}
use ufp.I40e.Hmc.{
  Hmc, SdEntry, glhmc_lanqmax, glhmc_lantxobjsz, glhmc_lanrxobjsz, hmc_layout, i40e_hmc_sd_allocate,
  i40e_hmc_sd_release, release_sds, alloc_sds, with_sds, i40e_hmc_configure, i40e_hmc_shutdown,
  configured_or_freed, i40e_hmc_init,
}
use ufp.I40e.Hmc.Pages.{of_segment, SdFrom, sd_allocate-areas, sd_release-areas}

less_both : (x : ℕ) {y z : ℕ} (v w : ℕ) → y ≡ x - v → z ≡ y - w → z ≡ x - (v + w)
less_both x v w e e' = omega arith

module _ {R : Type 0} (system : System R) (page_size : ℕ) (hw : Registers R) (mem : Shared R)
    (area : ℕ × ℕ) (areas : R → ℕ) (laws : IsCounted system page_size hw mem area areas)
    (store64 : (addr value : ℕ) → R → R)
    (same_store64 : (addr value : ℕ) (s : R) → areas (store64 addr value s) ≡ areas s) where
  abbrev weight : SdEntry → ℕ
  weight sd = of_segment system page_size hw mem area areas laws store64 same_store64 sd

  -- how often the area is among the pages of all the segments
  abbrev pub of_hmc : Hmc → ℕ
  of_hmc hmc = total weight hmc.sd_count 0 hmc.sd_entry

  abbrev SdsFrom : (a n : ℕ) → Bool × ℕ × (ℕ → SdEntry) × R → Type 0
  SdsFrom a n (true, i, sd_entry, s) = areas s ≡ a + total weight n 0 sd_entry
  SdsFrom a n (false, i, sd_entry, s) = areas s ≡ a + total weight i 0 sd_entry

  -- what an allocation of the segments leaves, where the area was mapped `a` times before it
  abbrev pub HmcFrom : (a : ℕ) → Option Hmc × R → Type 0
  HmcFrom a (none, s) = areas s ≡ a
  HmcFrom a (some hmc, s) = areas s ≡ a + of_hmc hmc

  release_sds-areas :
      (n i : ℕ) (sd_entry : ℕ → SdEntry) (s : R)
      → areas (release_sds hw system page_size store64 n i sd_entry s)
        ≡ areas s - total weight n i sd_entry
  unfolding release_sds total
  release_sds-areas zero i sd_entry s = omega arith
  release_sds-areas (suc n) i sd_entry s =
      less_both (areas s) (weight (sd_entry i)) (total weight n (suc i) sd_entry)
        (sd_release-areas system page_size hw mem area areas laws store64 same_store64 (sd_entry i)
          i s)
        (release_sds-areas n (suc i) sd_entry
          (i40e_hmc_sd_release hw system page_size store64 (sd_entry i) i s))

  alloc_sd-areas :
      (n i a upto : ℕ) (sd_entry : ℕ → SdEntry) (r : Option SdEntry × R)
      → SdFrom system page_size hw mem area areas laws store64 same_store64
          (a + total weight i 0 sd_entry)
          r
      → ((sd : SdEntry) (s : R)
          → areas s ≡ a + total weight (suc i) 0 (update sd_entry i sd)
          → SdsFrom a upto
              (alloc_sds hw system page_size store64 n (suc i) (update sd_entry i sd) s))
      → SdsFrom a upto (elim r.0 [
        | none ↦ (false, i, sd_entry, r.1)
        | some sd ↦ alloc_sds hw system page_size store64 n (suc i) (update sd_entry i sd) r.1
      ])
  alloc_sd-areas n i a upto sd_entry (none, s) e later = e
  alloc_sd-areas n i a upto sd_entry (some sd, s) e later =
      later sd s (omega (arith, total-push weight i sd_entry sd))

  alloc_sds-areas :
      (n i a : ℕ) (sd_entry : ℕ → SdEntry) (s : R)
      → areas s ≡ a + total weight i 0 sd_entry
      → SdsFrom a (n + i) (alloc_sds hw system page_size store64 n i sd_entry s)
  unfolding alloc_sds
  alloc_sds-areas zero i a sd_entry s e = let same : 0 + i ≡ i = omega arith in rw same e
  alloc_sds-areas (suc n) i a sd_entry s e =
      let r = i40e_hmc_sd_allocate hw system page_size store64 (sd_entry i).pd i s in
      alloc_sd-areas n i a (suc n + i) sd_entry r
        (subst (λ b. SdFrom system page_size hw mem area areas laws store64 same_store64 b r) e
          (sd_allocate-areas system page_size hw mem area areas laws store64 same_store64
            (sd_entry i).pd i s))
        (λ sd s' e'.
          let same : n + suc i ≡ suc n + i = omega arith in
          subst
            (λ t.
              SdsFrom a t
                (alloc_sds hw system page_size store64 n (suc i) (update sd_entry i sd) s'))
            same (alloc_sds-areas n (suc i) a (update sd_entry i sd) s' e'))

  with_sds-areas :
      (pf_id a : ℕ) (hmc : Hmc) (r : Bool × ℕ × (ℕ → SdEntry) × R)
      → SdsFrom a hmc.sd_count r
      → HmcFrom a (with_sds hw system page_size store64 pf_id hmc r)
  with_sds-areas pf_id a hmc (true, n, sd_entry, s) e =
      laws.same_write _ _ _
      ∙ laws.same_write _ _ _
      ∙ laws.same_write _ _ _
      ∙ laws.same_write _ _ _
      ∙ e
  with_sds-areas pf_id a hmc (false, n, sd_entry, s) e =
      omega (arith, release_sds-areas n 0 sd_entry s)

  configure-areas :
      (pf_id : ℕ) (hmc : Hmc) (s : R)
      → HmcFrom (areas s) (i40e_hmc_configure hw system page_size store64 pf_id hmc s)
  unfolding i40e_hmc_configure
  configure-areas pf_id hmc s =
      let all =
        alloc_sds-areas hmc.sd_count 0 (areas s) hmc.sd_entry s (unfold total in omega arith) in
      let same : hmc.sd_count + 0 ≡ hmc.sd_count = omega arith in
      with_sds-areas pf_id (areas s) hmc _ (
        subst
          (λ t.
            SdsFrom (areas s) t
              (alloc_sds hw system page_size store64 hmc.sd_count 0 hmc.sd_entry s))
          same all)

  configured_or_freed-areas :
      (a : ℕ) (r : Option Hmc × R)
      → HmcFrom a r
      → HmcFrom a (configured_or_freed hw system page_size store64 r)
  configured_or_freed-areas a (none, s) e = laws.same_free s ∙ e
  configured_or_freed-areas a (some hmc, s) e = e

  -- Setting up the memory of the contexts, where `mmap` and `munmap` alone change how often an area
  -- is mapped: when it fails, the area is mapped as often as before, and when not, as often more as
  -- it is among the pages of the segments.
  pub i40e_hmc_init-areas :
      (pf_id : ℕ) (garbage : ℕ → SdEntry) (s : R)
      → HmcFrom (areas s) (i40e_hmc_init hw system page_size store64 pf_id garbage s)
  unfolding i40e_hmc_init
  i40e_hmc_init-areas pf_id garbage s =
      let (queue_max, s₁) = hw.read32 glhmc_lanqmax s in
      let (tx_shift, s₂) = hw.read32 glhmc_lantxobjsz s₁ in
      let (rx_shift, s₃) = hw.read32 glhmc_lanrxobjsz s₂ in
      let kept : areas s₃ ≡ areas s =
        laws.same_read _ s₂ ∙ laws.same_read _ s₁ ∙ laws.same_read _ s in
      elim (Option-cases (system.malloc s₃)) [
        | inl full ↦ rw (full, i40e_hmc_init) kept
        | inr (s₄, granted) ↦
            rw (granted, i40e_hmc_init)
              (configured_or_freed-areas (areas s) _ (
                subst
                  (λ a. HmcFrom a (
                    i40e_hmc_configure hw system page_size store64 pf_id
                      (hmc_layout queue_max tx_shift rx_shift garbage) s₄))
                  (laws.same_malloc s₃ s₄ granted ∙ kept)
                  (configure-areas pf_id (hmc_layout queue_max tx_shift rx_shift garbage) s₄)))
      ]

  -- Shutting it down unmaps what setting it up mapped.
  pub i40e_hmc_shutdown-areas :
      (hmc : Hmc) (s : R)
      → areas (i40e_hmc_shutdown hw system page_size store64 hmc s) ≡ areas s - of_hmc hmc
  unfolding i40e_hmc_shutdown
  i40e_hmc_shutdown-areas hmc s = release_sds-areas hmc.sd_count 0 hmc.sd_entry s
