-- ===== src/I40e/Aq/Cleaned.antt =====
-- dev/i40e/i40e_aq.c: cleaning the send queue when the head that the device shows is `k` slots on,
-- and the device stays still while it is cleaned.
use mathlib.Core.Path.{subst}
use ufp.Common.{
  ℕ, zero, suc, ◌^◌, ◌<◌, ◌==◌, true, Bool-cases, ◌≡◌, ◌≢◌, ◌⊎◌, inl, inr, sym, ap, ◌∙◌, arith,
  Option, some, Option-cases, List,
}
use ufp.I40e.{Registers}
use ufp.I40e.Aq.{AqDesc, AqRing, Shared, next_index}
use ufp.I40e.Aq.Sessions.{Session, Nic, find_session, failed_answer}
use ufp.I40e.Aq.Responses.{i40e_aq_asq_process}
use ufp.I40e.Aq.Clean.{cookie, session_of, clean_one, after_head, asq_head}
use ufp.I40e.Aq.Indices.{slot, next_index-slot}
use ufp.I40e.Aq.Effects.{IsStill, has, retval_in}
use ufp.I40e.Aq.Answers.{IsProcessed, asq_process-IsProcessed}

pub session_of-has : (c p : ℕ) (l : List (ℕ × Session)) → session_of c l ≡ some p → has p l ≡ true
unfolding session_of
session_of-has c p l e = elim (Bool-cases (c == 0)) [
  | inl z ↦ absurd (cc (rw (z, session_of) at e))
  | inr nz ↦ elim (Option-cases (find_session c l)) [
    | inl missing ↦ ground (arith, nz, missing, e)
    | inr (σ, found) ↦ ground (arith, nz, found, e)
  ]
]

session_of-eq : (p : ℕ) (l : List (ℕ × Session)) → p ≢ 0 → has p l ≡ true → session_of p l ≡ some p
unfolding session_of
session_of-eq p l ne h = ground arith

session_of-ne : (c p : ℕ) (l : List (ℕ × Session)) → c ≢ p → session_of c l ≢ some p
unfolding session_of
session_of-ne c p l ne e = ground arith

module _ {R : Type 0} (hw : Registers R) (mem : Shared R) (malloc : R → Option R) (ring : AqRing)
    (head : ℕ) (descs : ℕ → AqDesc) where
  -- The device shows the head and the descriptors of the send queue, and goes on to do so when the
  -- head is read and when cleaning writes a register or takes memory.
  pub record IsShown (shown : R → Type 0) : Type 0 where
    pub still : IsStill hw malloc shown
    pub keeps_read : (s : R) → shown s → shown (hw.read32 ring.head s).1
    pub shows_head : (s : R) → shown s → (hw.read32 ring.head s).0 ≡ head
    pub shows_desc : (i : ℕ) (s : R) → shown s → mem.load_desc ring.desc.addr_virt i s ≡ descs i

  -- the driver is at the slot `i` of the ring
  pub record IsAt (shown : R → Type 0) (i : ℕ) (nic : Nic R) : Type 0 where
    pub here : nic.tx_ring ≡ record ring { next_to_clean = i }
    pub shows : shown nic.machine

  -- the state after `k` rounds and the last look at the head
  unfoldable pub cleaned : ℕ → Nic R → Nic R
  cleaned zero nic = after_head hw mem malloc nic
  cleaned (suc k) nic = cleaned k (clean_one hw mem malloc (after_head hw mem malloc nic))

  abbrev desc_at : Nic R → AqDesc
  desc_at nic = mem.load_desc nic.tx_ring.desc.addr_virt nic.tx_ring.next_to_clean nic.machine

  abbrev processed : Nic R → Nic R
  processed nic =
      i40e_aq_asq_process hw mem malloc (desc_at nic)
        (nic.tx_ring.bufs nic.tx_ring.next_to_clean).addr_virt
        (session_of (cookie (desc_at nic)) nic.session) nic

  module _ (shown : R → Type 0) (laws : IsShown shown) where
    processed_lem :
        (nic : Nic R)
        → IsProcessed shown
            (desc_at nic)
            (session_of (cookie (desc_at nic)) nic.session)
            nic
            (processed nic)
    processed_lem nic =
        asq_process-IsProcessed hw mem malloc shown laws.still (desc_at nic) _ _ nic
          (λ p. session_of-has (cookie (desc_at nic)) p nic.session)

    module _ (i : ℕ) (nic : Nic R) (at_i : IsAt shown i nic) where
      pub after_head-IsAt : IsAt shown i (after_head hw mem malloc nic)
      after_head-IsAt = record {
        here = at_i.here;
        shows =
            subst (λ (r : AqRing). shown (hw.read32 r.head nic.machine).1) (sym at_i.here)
              (laws.keeps_read nic.machine at_i.shows);
      }

      pub head-eq : asq_head hw mem malloc nic ≡ head
      head-eq =
          subst (λ (r : AqRing). (hw.read32 r.head nic.machine).0 ≡ head) (sym at_i.here)
            (laws.shows_head nic.machine at_i.shows)

      desc_at-eq : desc_at nic ≡ descs i
      desc_at-eq =
          subst
            (λ (r : AqRing). mem.load_desc r.desc.addr_virt r.next_to_clean nic.machine ≡ descs i)
            (sym at_i.here) (laws.shows_desc i nic.machine at_i.shows)

      pub clean_one-IsAt :
          ring.num_desc < 2 ^ 16
          → i < ring.num_desc
          → IsAt shown (slot ring.num_desc i 1) (clean_one hw mem malloc nic)
      unfolding clean_one
      clean_one-IsAt small h =
          let r = processed_lem nic in
          let same : (processed nic).tx_ring ≡ record ring { next_to_clean = i } =
            r.same_ring ∙ at_i.here in
          record {
            here =
                subst
                  (λ (r : AqRing).
                    record r { next_to_clean = next_index r nic.tx_ring.next_to_clean }
                    ≡ record ring { next_to_clean = slot ring.num_desc i 1 })
                  (sym same)
                  (subst
                    (λ (r : AqRing).
                      record ring {
                        next_to_clean =
                            next_index (record ring { next_to_clean = i }) r.next_to_clean;
                      }
                      ≡ record ring { next_to_clean = slot ring.num_desc i 1 })
                    (sym at_i.here)
                    (ap (λ (j : ℕ). record ring { next_to_clean = j })
                      (next_index-slot (record ring { next_to_clean = i }) i small h)));
            shows = r.keeps_still at_i.shows;
          }

      pub clean_one-has : (p : ℕ) → has p (clean_one hw mem malloc nic).session ≡ has p nic.session
      unfolding clean_one
      clean_one-has p = (processed_lem nic).same_sessions p

      pub clean_one-retval_ne :
          (p : ℕ)
          → cookie (descs i) ≢ p
          → retval_in p (clean_one hw mem malloc nic).session ≡ retval_in p nic.session
      unfolding clean_one
      clean_one-retval_ne p ne = (processed_lem nic).same_retval p (
          session_of-ne (cookie (desc_at nic)) p nic.session
            (subst (λ d. cookie d ≢ p) (sym desc_at-eq) ne))

      -- the answer that a session gets from the descriptor `desc`
      pub clean_one-retval :
          (p : ℕ)
          → p ≢ 0
          → has p nic.session ≡ true
          → cookie (descs i) ≡ p
          → (retval_in p (clean_one hw mem malloc nic).session ≡ (descs i).retval)
            ⊎ (((descs i).retval ≡ 0)
                × (retval_in p (clean_one hw mem malloc nic).session ≡ failed_answer))
      unfolding clean_one
      clean_one-retval p nz listed own =
          subst
            (λ (d : AqDesc).
              (retval_in p (processed nic).session ≡ d.retval)
              ⊎ ((d.retval ≡ 0) × (retval_in p (processed nic).session ≡ failed_answer)))
            desc_at-eq
            ((processed_lem nic).own_retval p (
              subst (λ c. session_of c nic.session ≡ some p)
                (sym (ap (λ d. cookie d) desc_at-eq ∙ own))
                (session_of-eq p nic.session nz listed)))
