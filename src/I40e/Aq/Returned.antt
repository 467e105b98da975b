-- ===== src/I40e/Aq/Returned.antt =====
-- dev/i40e/i40e_aq.c and i40e_aqc.c: cleaning the send queue and waiting for an answer come to an
-- end where the device shows a head in the ring that it does not move while the driver cleans.
use mathlib.Core.Path.{subst}
use ufp.Common.{
  ℕ, zero, suc, ◌+◌, ◌-◌, ◌^◌, ◌<◌, ◌≤◌, ◌==◌, ==_iff, true, Bool-cases, ◌≡◌, ◌⊎◌, inl, inr, refl,
  sym, ap, ◌∙◌, arith, Option, some,
}
use native.Mathlib.Decide.{dec_lt}
use ufp.I40e.{Registers}
use ufp.I40e.Aq.{AqRing, Shared, next_index}
use ufp.I40e.Aq.Sessions.{Nic}
use ufp.I40e.Aq.Responses.{gllan_rctl_0}
use ufp.I40e.Aq.Clean.{i40e_aq_asq_clean, clean_one}
use ufp.I40e.Aq.Effects.{IsStill}
use ufp.I40e.Aq.Answers.{asq_process-IsProcessed}
use ufp.I40e.Aq.Indices.{slot, next_index-slot}
use ufp.I40e.Aq.Cleaned.{session_of-has}

module _ {R : Type 0} (hw : Registers R) (malloc : R → Option R) (reg size : ℕ) where
  abbrev pub shown : R → ℕ
  shown s = (hw.read32 reg s).0

  -- The register `reg` shows an index of a ring with `size` slots, and reading it, the write that
  -- cleaning does, and `malloc` do not change that index.
  pub record IsSteady : Type 0 where
    pub in_ring : (s : R) → shown s < size
    pub steady_read : (s : R) → shown (hw.read32 reg s).1 ≡ shown s
    pub steady_write : (s : R) → shown (hw.write32 gllan_rctl_0 1 s) ≡ shown s
    pub steady_malloc : (s s' : R) → malloc s ≡ some s' → shown s' ≡ shown s

-- the slots from `i` on to `h`, around a ring with `size` slots
IsDistance : (size i h d : ℕ) → Type 0
IsDistance size i h d = (i + d ≡ h) ⊎ (i + d ≡ h + size)

distance_to : (size i h : ℕ) → i < size → h < size → (d : ℕ) × (d < size) × IsDistance size i h d
unfolding IsDistance
distance_to size i h here there = elim (dec_lt h i) [
  | yes behind ↦ (h + size - i, omega arith, inr (omega arith))
  | no ahead ↦ (h - i, omega arith, inl (omega arith))
]

-- a step to the next slot, while the head stays
next_index-IsDistance :
    (ring : AqRing) (size i i' h h' d : ℕ)
    → size < 2 ^ 16
    → ring.num_desc ≡ size
    → i < size
    → h < size
    → i' ≡ next_index ring i
    → h' ≡ h
    → IsDistance size i h (suc d)
    → (i' < size) × IsDistance size i' h' d
unfolding IsDistance
next_index-IsDistance ring size i i' h h' d small of_size here there moved stays e =
    let next : i' ≡ slot ring.num_desc i 1 =
      moved ∙ next_index-slot ring i (omega arith) (omega arith) in
    (
      ground (arith, next),
      elim e [ inl direct ↦ ground (arith, next) | inr around ↦ ground (arith, next) ],
    )

module _ {R : Type 0} (hw : Registers R) (mem : Shared R) (malloc : R → Option R) (reg size : ℕ)
    (laws : IsSteady hw malloc reg size) (fits : size < 2 ^ 16) where
  -- a send queue of the register and of the size
  pub record IsOf (nic : Nic R) : Type 0 where
    pub of_size : nic.tx_ring.num_desc ≡ size
    pub of_reg : nic.tx_ring.head ≡ reg

  shown-IsStill : (h : ℕ) → IsStill hw malloc (λ s. shown hw malloc reg size s ≡ h)
  shown-IsStill h = record {
    keeps_write = λ s e. laws.steady_write s ∙ e;
    keeps_malloc = λ s s' granted e. laws.steady_malloc s s' granted ∙ e;
  }

  cleaned_ring :
      (nic : Nic R)
      → ((clean_one hw mem malloc nic).tx_ring
          ≡ record nic.tx_ring { next_to_clean = next_index nic.tx_ring nic.tx_ring.next_to_clean })
        × (shown hw malloc reg size (clean_one hw mem malloc nic).machine
            ≡ shown hw malloc reg size nic.machine)
  unfolding clean_one
  cleaned_ring nic =
      let r =
        asq_process-IsProcessed hw mem malloc
          (λ s. shown hw malloc reg size s ≡ shown hw malloc reg size nic.machine) (shown-IsStill _)
          _ _ _ nic (λ p. session_of-has _ p nic.session) in
      (
        ap
            (λ (ring : AqRing). record ring {
              next_to_clean = next_index ring nic.tx_ring.next_to_clean;
            })
            r.same_ring,
        r.keeps_still refl,
      )

  -- the state of the driver with `d` slots to clean
  record IsAhead (d : ℕ) (nic : Nic R) : Type 0 where
    of_ring : IsOf nic
    inside : nic.tx_ring.next_to_clean < size
    distance : IsDistance size nic.tx_ring.next_to_clean (shown hw malloc reg size nic.machine) d

  abbrev seen : Nic R → Nic R
  seen nic = record nic { machine = (hw.read32 nic.tx_ring.head nic.machine).1 }

  seen-shown :
      (nic : Nic R)
      → IsOf nic
      → ((hw.read32 nic.tx_ring.head nic.machine).0 ≡ shown hw malloc reg size nic.machine)
        × (shown hw malloc reg size (seen nic).machine ≡ shown hw malloc reg size nic.machine)
  seen-shown nic o = (
    ap (λ (r : ℕ). (hw.read32 r nic.machine).0) o.of_reg,
    subst
        (λ r.
          shown hw malloc reg size (hw.read32 r nic.machine).1
          ≡ shown hw malloc reg size nic.machine)
        (sym o.of_reg) (laws.steady_read nic.machine),
  )

  clean_one-IsAhead :
      (d : ℕ) (nic : Nic R) → IsAhead (suc d) nic → IsAhead d (clean_one hw mem malloc (seen nic))
  clean_one-IsAhead d nic h =
      let ring = nic.tx_ring in
      let i = ring.next_to_clean in
      let (same_ring, same_head) = cleaned_ring (seen nic) in
      let same = same_head ∙ (seen-shown nic h.of_ring).1 in
      let (inside, distance) =
        next_index-IsDistance ring size i _ (shown hw malloc reg size nic.machine) _ d fits
          h.of_ring.of_size h.inside (laws.in_ring nic.machine)
          (ap (λ (r : AqRing). r.next_to_clean) same_ring) same h.distance in
      record {
        of_ring = record {
          of_size = ap (λ (r : AqRing). r.num_desc) same_ring ∙ h.of_ring.of_size;
          of_reg = ap (λ (r : AqRing). r.head) same_ring ∙ h.of_ring.of_reg;
        };
        inside = inside;
        distance = distance;
      }

  done_at :
      (n : ℕ) (nic : Nic R)
      → (nic.tx_ring.next_to_clean == (hw.read32 nic.tx_ring.head nic.machine).0) ≡ true
      → (nic' : Nic R) × (i40e_aq_asq_clean hw mem malloc (suc n) nic ≡ some nic')
  unfolding i40e_aq_asq_clean
  done_at n nic e = (seen nic, rw e refl)

  clean-returns :
      (n d : ℕ) (nic : Nic R)
      → d < n
      → IsAhead d nic
      → (nic' : Nic R) × (i40e_aq_asq_clean hw mem malloc n nic ≡ some nic')
  unfolding i40e_aq_asq_clean IsDistance
  clean-returns zero d nic lt h = absurd (omega arith)
  clean-returns (suc n) zero nic lt h =
      let (e, _) = seen-shown nic h.of_ring in
      let at : nic.tx_ring.next_to_clean ≡ (hw.read32 nic.tx_ring.head nic.machine).0 =
        elim h.distance [
          | inl direct ↦ omega (arith, e)
          | inr around ↦ absurd (omega (arith, h.inside, laws.in_ring nic.machine))
        ] in
      done_at n nic ((==_iff _ _).1 at)
  clean-returns (suc n) (suc d) nic lt h =
      elim (Bool-cases (nic.tx_ring.next_to_clean == (hw.read32 nic.tx_ring.head nic.machine).0)) [
        | inl done ↦ done_at n nic done
        | inr more ↦
            let (nic', e) =
              clean-returns n d (clean_one hw mem malloc (seen nic)) (omega arith)
                (clean_one-IsAhead d nic h) in
            (nic', rw more e)
      ]

  -- Cleaning returns from any slot, with one round more than the ring has slots.
  pub clean-returned :
      (n : ℕ) (nic : Nic R)
      → size ≤ n
      → IsOf nic
      → (nic' : Nic R) × (i40e_aq_asq_clean hw mem malloc (suc n) nic ≡ some nic')
  unfolding i40e_aq_asq_clean next_index IsDistance
  clean-returned n nic enough o =
      elim (Bool-cases (nic.tx_ring.next_to_clean == (hw.read32 nic.tx_ring.head nic.machine).0)) [
        | inl done ↦ done_at n nic done
        | inr more ↦
            let ring = nic.tx_ring in
            let (same_ring, same_head) = cleaned_ring (seen nic) in
            let next : ℕ = (clean_one hw mem malloc (seen nic)).tx_ring.next_to_clean in
            let h : ℕ = shown hw malloc reg size (clean_one hw mem malloc (seen nic)).machine in
            let there : h < size = laws.in_ring _ in
            let moved : next ≡ next_index ring ring.next_to_clean =
              ap (λ (r : AqRing). r.next_to_clean) same_ring in
            let inside : next < size = ground (arith, moved, o.of_size) in
            let (d, near, distance) : (d : ℕ) × (d < size) × IsDistance size next h d =
              distance_to size next h inside there in
            let (nic', e) =
              clean-returns n d (clean_one hw mem malloc (seen nic)) (omega arith) (record {
                of_ring = record {
                  of_size = ap (λ (r : AqRing). r.num_desc) same_ring ∙ o.of_size;
                  of_reg = ap (λ (r : AqRing). r.head) same_ring ∙ o.of_reg;
                };
                inside = inside;
                distance = distance;
              }) in
            (nic', rw more e)
      ]
