-- ===== src/I40e/Aq/Delivered.antt =====
-- dev/i40e/i40e_aq.c: the send queue is cleaned up to the head, and each answer gets to its session.
use mathlib.Core.Path.{subst}
use ufp.Common.{
  ℕ, zero, suc, ◌^◌, ◌<◌, ◌==◌, ==_iff, true, Bool-cases, ◌≡◌, ◌≢◌, ◌⊎◌, inl, inr, refl, sym, ap,
  ◌∙◌, arith, Option, some,
}
use ufp.I40e.{Registers}
use ufp.I40e.Aq.{AqDesc, AqRing, Shared}
use ufp.I40e.Aq.Sessions.{Nic, failed_answer}
use ufp.I40e.Aq.Clean.{cookie, clean_one, after_head, i40e_aq_asq_clean}
use ufp.I40e.Aq.Indices.{slot}
use ufp.I40e.Aq.Effects.{has, retval_in}
use ufp.I40e.Aq.Cleaned.{
  IsShown, IsAt, cleaned, after_head-IsAt, head-eq, clean_one-IsAt, clean_one-has,
  clean_one-retval_ne, clean_one-retval,
}

slot-lt : (n i k : ℕ) → i < n → k < n → slot n i k < n
slot-lt n i k h h' = ground arith

slot-suc : (n i k : ℕ) → i < n → suc k < n → slot n (slot n i 1) k ≡ slot n i (suc k)
slot-suc n i k h h' = ground arith

slot-ne : (n i k : ℕ) → i < n → suc k < n → i ≢ slot n i (suc k)
slot-ne n i k h h' e = ground arith

slot-zero : (n i : ℕ) → i < n → slot n i 0 ≡ i
slot-zero n i h = ground arith

-- the descriptor `j` slots on from `i` is the only one of `k` whose cookie is `p`
pub record IsOnly (n i k j p : ℕ) (descs : ℕ → AqDesc) : Type 0 where
  pub among : j < k
  pub own : cookie (descs (slot n i j)) ≡ p
  pub others : (l : ℕ) → l < k → l ≢ j → cookie (descs (slot n i l)) ≢ p

module _ {R : Type 0} (hw : Registers R) (mem : Shared R) (malloc : R → Option R) (ring : AqRing)
    (head : ℕ) (descs : ℕ → AqDesc) (shown : R → Type 0)
    (laws : IsShown hw mem malloc ring head descs shown) (small : ring.num_desc < 2 ^ 16) where
  abbrev next : Nic R → Nic R
  next nic = clean_one hw mem malloc (after_head hw mem malloc nic)

  next-IsAt :
      (i : ℕ) (nic : Nic R)
      → IsAt hw mem malloc ring head descs shown i nic
      → i < ring.num_desc
      → IsAt hw mem malloc ring head descs shown (slot ring.num_desc i 1) (next nic)
  next-IsAt i nic at_i h =
      clean_one-IsAt hw mem malloc ring head descs shown laws i (after_head hw mem malloc nic)
        (after_head-IsAt hw mem malloc ring head descs shown laws i nic at_i) small h

  cleaned-IsAt :
      (k i : ℕ) (nic : Nic R)
      → IsAt hw mem malloc ring head descs shown i nic
      → i < ring.num_desc
      → k < ring.num_desc
      → IsAt hw mem malloc ring head descs shown
          (slot ring.num_desc i k)
          (cleaned hw mem malloc ring head descs k nic)
  unfolding cleaned
  cleaned-IsAt zero i nic at_i h h' =
      subst (λ j. IsAt hw mem malloc ring head descs shown j (after_head hw mem malloc nic))
        (sym (slot-zero ring.num_desc i h))
        (after_head-IsAt hw mem malloc ring head descs shown laws i nic at_i)
  cleaned-IsAt (suc k) i nic at_i h h' =
      subst
        (λ j.
          IsAt hw mem malloc ring head descs shown j
            (cleaned hw mem malloc ring head descs k (next nic)))
        (slot-suc ring.num_desc i k h h')
        (cleaned-IsAt k (slot ring.num_desc i 1) (next nic) (next-IsAt i nic at_i h)
          (slot-lt ring.num_desc i 1 h (omega arith)) (omega arith))

  asq_clean-cleaned :
      (k i fuel : ℕ) (nic : Nic R)
      → IsAt hw mem malloc ring head descs shown i nic
      → i < ring.num_desc
      → k < ring.num_desc
      → k < fuel
      → head ≡ slot ring.num_desc i k
      → i40e_aq_asq_clean hw mem malloc fuel nic
        ≡ some (cleaned hw mem malloc ring head descs k nic)
  unfolding i40e_aq_asq_clean cleaned
  asq_clean-cleaned k i zero nic at_i h h' h'' e = absurd (omega arith)
  asq_clean-cleaned zero i (suc fuel) nic at_i h h' h'' e =
      let shown_head = head-eq hw mem malloc ring head descs shown laws i nic at_i in
      let here : nic.tx_ring.next_to_clean ≡ i = ap (λ (r : AqRing). r.next_to_clean) at_i.here in
      let done : (nic.tx_ring.next_to_clean == (hw.read32 nic.tx_ring.head nic.machine).0) ≡ true =
        (==_iff _ _).1 (here ∙ sym (shown_head ∙ e ∙ slot-zero ring.num_desc i h)) in
      rw done
  asq_clean-cleaned (suc k) i (suc fuel) nic at_i h h' h'' e =
      let shown_head = head-eq hw mem malloc ring head descs shown laws i nic at_i in
      let here : nic.tx_ring.next_to_clean ≡ i = ap (λ (r : AqRing). r.next_to_clean) at_i.here in
      let rest =
        asq_clean-cleaned k (slot ring.num_desc i 1) fuel (next nic) (next-IsAt i nic at_i h)
          (slot-lt ring.num_desc i 1 h (omega arith)) (omega arith) (omega arith)
          (e ∙ sym (slot-suc ring.num_desc i k h h')) in
      elim (Bool-cases (nic.tx_ring.next_to_clean == (hw.read32 nic.tx_ring.head nic.machine).0)) [
        | inl done ↦
            absurd
              (slot-ne ring.num_desc i k h h' (sym here ∙ (==_iff _ _).0 done ∙ shown_head ∙ e))
        | inr more ↦ rw more rest
      ]

  cleaned-has :
      (k i p : ℕ) (nic : Nic R)
      → IsAt hw mem malloc ring head descs shown i nic
      → i < ring.num_desc
      → k < ring.num_desc
      → has p (cleaned hw mem malloc ring head descs k nic).session ≡ has p nic.session
  unfolding cleaned
  cleaned-has zero i p nic at_i h h' = refl
  cleaned-has (suc k) i p nic at_i h h' =
      cleaned-has k (slot ring.num_desc i 1) p (next nic) (next-IsAt i nic at_i h)
        (slot-lt ring.num_desc i 1 h (omega arith)) (omega arith)
      ∙ clean_one-has hw mem malloc ring head descs shown laws i (after_head hw mem malloc nic)
          (after_head-IsAt hw mem malloc ring head descs shown laws i nic at_i) p

  cleaned-retval_ne :
      (k i p : ℕ) (nic : Nic R)
      → IsAt hw mem malloc ring head descs shown i nic
      → i < ring.num_desc
      → k < ring.num_desc
      → ((l : ℕ) → l < k → cookie (descs (slot ring.num_desc i l)) ≢ p)
      → retval_in p (cleaned hw mem malloc ring head descs k nic).session ≡ retval_in p nic.session
  unfolding cleaned
  cleaned-retval_ne zero i p nic at_i h h' none_own = refl
  cleaned-retval_ne (suc k) i p nic at_i h h' none_own =
      cleaned-retval_ne k (slot ring.num_desc i 1) p (next nic) (next-IsAt i nic at_i h)
        (slot-lt ring.num_desc i 1 h (omega arith)) (omega arith)
        (λ l lt.
          subst (λ q. cookie (descs q) ≢ p) (sym (slot-suc ring.num_desc i l h (omega arith)))
            (none_own (suc l) (omega arith)))
      ∙ clean_one-retval_ne hw mem malloc ring head descs shown laws i
          (after_head hw mem malloc nic)
          (after_head-IsAt hw mem malloc ring head descs shown laws i nic at_i) p
          (subst (λ q. cookie (descs q) ≢ p) (slot-zero ring.num_desc i h)
            (none_own 0 (omega arith)))

  cleaned-retval :
      (k i j p : ℕ) (nic : Nic R)
      → IsAt hw mem malloc ring head descs shown i nic
      → i < ring.num_desc
      → k < ring.num_desc
      → p ≢ 0
      → has p nic.session ≡ true
      → IsOnly ring.num_desc i k j p descs
      → (retval_in p (cleaned hw mem malloc ring head descs k nic).session
          ≡ (descs (slot ring.num_desc i j)).retval)
        ⊎ (((descs (slot ring.num_desc i j)).retval ≡ 0)
            × (retval_in p (cleaned hw mem malloc ring head descs k nic).session ≡ failed_answer))
  unfolding cleaned
  cleaned-retval zero i j p nic at_i h h' nz listed only = absurd (omega (arith, only.among))
  cleaned-retval (suc k) i zero p nic at_i h h' nz listed only =
      let first = slot-zero ring.num_desc i h in
      let unchanged =
        cleaned-retval_ne k (slot ring.num_desc i 1) p (next nic) (next-IsAt i nic at_i h)
          (slot-lt ring.num_desc i 1 h (omega arith)) (omega arith)
          (λ l lt.
            subst (λ q. cookie (descs q) ≢ p) (sym (slot-suc ring.num_desc i l h (omega arith)))
              (only.others (suc l) (omega arith) (λ e. absurd (omega arith)))) in
      subst
        (λ v.
          (v ≡ (descs (slot ring.num_desc i 0)).retval)
          ⊎ (((descs (slot ring.num_desc i 0)).retval ≡ 0) × (v ≡ failed_answer)))
        (sym unchanged)
        (subst
          (λ q.
            (retval_in p (next nic).session ≡ (descs q).retval)
            ⊎ (((descs q).retval ≡ 0) × (retval_in p (next nic).session ≡ failed_answer)))
          (sym first)
          (clean_one-retval hw mem malloc ring head descs shown laws i
            (after_head hw mem malloc nic)
            (after_head-IsAt hw mem malloc ring head descs shown laws i nic at_i) p nz listed
            (subst (λ q. cookie (descs q) ≡ p) first only.own)))
  cleaned-retval (suc k) i (suc j) p nic at_i h h' nz listed only =
      let i' = slot ring.num_desc i 1 in
      let there = only.among in
      let e = slot-suc ring.num_desc i j h (omega arith) in
      let listed' =
        clean_one-has hw mem malloc ring head descs shown laws i (after_head hw mem malloc nic)
          (after_head-IsAt hw mem malloc ring head descs shown laws i nic at_i) p
        ∙ listed in
      let only' : IsOnly ring.num_desc i' k j p descs = record {
        among = omega arith;
        own = subst (λ q. cookie (descs q) ≡ p) (sym e) only.own;
        others = λ l lt ne.
            subst (λ q. cookie (descs q) ≢ p) (sym (slot-suc ring.num_desc i l h (omega arith)))
              (only.others (suc l) (omega arith) (λ same. ne (omega arith)));
      } in
      subst
        (λ q.
          (retval_in p (cleaned hw mem malloc ring head descs k (next nic)).session
            ≡ (descs q).retval)
          ⊎ (((descs q).retval ≡ 0)
              × (retval_in p (cleaned hw mem malloc ring head descs k (next nic)).session
                  ≡ failed_answer)))
        e
        (cleaned-retval k i' j p (next nic) (next-IsAt i nic at_i h)
          (slot-lt ring.num_desc i 1 h (omega arith)) (omega arith) nz listed' only')

  -- Where the driver is at a slot of a ring of less than 2 ^ 16, and the device goes on to show the
  -- same descriptors and the same head, fewer slots on than the ring has, while the send queue is
  -- cleaned: cleaning it with fuel for one round of the ring returns, with the index at the head and
  -- every session still in its list.
  pub i40e_aq_asq_clean-reaches :
      (k i : ℕ) (nic : Nic R)
      → IsAt hw mem malloc ring head descs shown i nic
      → i < ring.num_desc
      → k < ring.num_desc
      → head ≡ slot ring.num_desc i k
      → (nic' : Nic R) × (i40e_aq_asq_clean hw mem malloc ring.num_desc nic ≡ some nic')
        × IsAt hw mem malloc ring head descs shown head nic'
        × ((p : ℕ) → has p nic'.session ≡ has p nic.session)
  i40e_aq_asq_clean-reaches k i nic at_i h h' e = (
    cleaned hw mem malloc ring head descs k nic,
    asq_clean-cleaned k i ring.num_desc nic at_i h h' h' e,
    subst
        (λ j.
          IsAt hw mem malloc ring head descs shown j (cleaned hw mem malloc ring head descs k nic))
        (sym e) (cleaned-IsAt k i nic at_i h h'),
    λ p. cleaned-has k i p nic at_i h h',
  )

  -- Of the `k` commands that the device is done with, the only one whose cookie is a session: when
  -- the send queue is cleaned, that session gets the command's `retval`, or fails where that is 0.
  pub i40e_aq_asq_clean-delivers :
      (k i j p : ℕ) (nic : Nic R)
      → IsAt hw mem malloc ring head descs shown i nic
      → i < ring.num_desc
      → k < ring.num_desc
      → head ≡ slot ring.num_desc i k
      → p ≢ 0
      → has p nic.session ≡ true
      → IsOnly ring.num_desc i k j p descs
      → (nic' : Nic R) × (i40e_aq_asq_clean hw mem malloc ring.num_desc nic ≡ some nic')
        × ((retval_in p nic'.session ≡ (descs (slot ring.num_desc i j)).retval)
            ⊎ (((descs (slot ring.num_desc i j)).retval ≡ 0)
                × (retval_in p nic'.session ≡ failed_answer)))
  i40e_aq_asq_clean-delivers k i j p nic at_i h h' e nz listed only = (
    cleaned hw mem malloc ring head descs k nic,
    asq_clean-cleaned k i ring.num_desc nic at_i h h' h' e,
    cleaned-retval k i j p nic at_i h h' nz listed only,
  )
