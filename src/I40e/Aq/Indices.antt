-- ===== src/I40e/Aq/Indices.antt =====
-- dev/i40e/i40e_aq.c: the indices of an admin queue.
use ufp.Common.{
  ℕ, zero, suc, ◌+◌, ◌-◌, ◌%◌, ◌^◌, ◌<◌, ltb, ◌==◌, ==_iff, if◌then◌else◌, Bool-cases, ◌≡◌, ◌≢◌,
  ◌⊎◌, inl, inr, refl, arith, Option, List,
}
use ufp.I40e.{Registers}
use ufp.I40e.Aq.{
  Params, AqRing, Shared, i40e_aq_desc_unused, next_index, i40e_aq_asq_assign, assign_events,
  i40e_aq_arq_assign, event_desc,
}

-- both indices lie in the ring, and the size of the ring fits in `uint16_t`
pub record IsRing (ring : AqRing) : Type 0 where
  pub small : ring.num_desc < 2 ^ 16
  pub used : ring.next_to_use < ring.num_desc
  pub cleaned : ring.next_to_clean < ring.num_desc

-- `k` slots on from the slot `i`, round a ring of `n` slots
abbrev pub slot : (n i k : ℕ) → ℕ
slot n i k = if ltb (i + k) n then i + k else i + k - n

pub next_index-slot :
    (ring : AqRing) (i : ℕ)
    → ring.num_desc < 2 ^ 16
    → i < ring.num_desc
    → next_index ring i ≡ slot ring.num_desc i 1
unfolding next_index
next_index-slot ring i small h =
    let e : (i + 1) % 2 ^ 16 ≡ i + 1 = omega arith in rw e (ground arith)

pub desc_unused_lem :
    (ring : AqRing)
    → IsRing ring
    → i40e_aq_desc_unused ring ring.num_desc ≡ (
        if ltb ring.next_to_use ring.next_to_clean
        then ring.next_to_clean - ring.next_to_use - 1
        else ring.num_desc - ring.next_to_use + ring.next_to_clean - 1)
unfolding i40e_aq_desc_unused
desc_unused_lem ring v = ground arith

-- The ring after a slot is used. It still has its indices in range, and one slot fewer is unused.
used_slot :
    (ring : AqRing)
    → IsRing ring
    → i40e_aq_desc_unused ring ring.num_desc ≢ 0
    → IsRing (record ring { next_to_use = next_index ring ring.next_to_use })
      × (suc (
            i40e_aq_desc_unused
              (record ring { next_to_use = next_index ring ring.next_to_use })
              ring.num_desc)
          ≡ i40e_aq_desc_unused ring ring.num_desc)
used_slot ring v room =
    let ring' = record ring { next_to_use = next_index ring ring.next_to_use } in
    let e = next_index-slot ring ring.next_to_use v.small v.used in
    let v' : IsRing ring' = record {
      small = v.small;
      used = ground (arith, e);
      cleaned = v.cleaned;
    } in
    (v', ground (arith, e, desc_unused_lem ring v, desc_unused_lem ring' v'))

module _ {R : Type 0} (hw : Registers R) (mem : Shared R) where
  -- Sending a command keeps both indices in the ring. Either no slot is unused, and then ring and
  -- machine stay as they are, or one slot fewer is unused after it.
  pub i40e_aq_asq_assign-unused :
      (opcode flags : ℕ) (cmd : Params) (bytes : Option (List ℕ)) (data_size cookie : ℕ)
      (ring : AqRing) (s : R)
      → IsRing ring
      → IsRing (i40e_aq_asq_assign hw mem opcode flags cmd bytes data_size cookie ring s).0
        × (((i40e_aq_desc_unused ring ring.num_desc ≡ 0)
              × (i40e_aq_asq_assign hw mem opcode flags cmd bytes data_size cookie ring s
                  ≡ (ring, s)))
            ⊎ (suc (
                  i40e_aq_desc_unused
                    (i40e_aq_asq_assign hw mem opcode flags cmd bytes data_size cookie ring s).0
                    ring.num_desc)
                ≡ i40e_aq_desc_unused ring ring.num_desc))
  unfolding i40e_aq_asq_assign
  i40e_aq_asq_assign-unused opcode flags cmd bytes data_size cookie ring s v =
      elim (Bool-cases (i40e_aq_desc_unused ring ring.num_desc == 0)) [
        | inl full ↦ rw full (v, inl ((==_iff _ 0).0 full, refl))
        | inr room ↦
            let (v', fewer) = used_slot ring v (λ e. cc (rw room at ((==_iff _ 0).1 e))) in
            rw room (v', inr fewer)
      ]

  assign_events-unused :
      (n : ℕ) (ring : AqRing) (s : R)
      → IsRing ring
      → i40e_aq_desc_unused ring ring.num_desc ≡ n
      → IsRing (assign_events hw mem n ring s).0
        × (i40e_aq_desc_unused (assign_events hw mem n ring s).0 ring.num_desc ≡ 0)
  unfolding assign_events
  assign_events-unused zero ring s v e = (v, e)
  assign_events-unused (suc n) ring s v e =
      let i = ring.next_to_use in
      let (v', fewer) = used_slot ring v (omega arith) in
      assign_events-unused n (record ring { next_to_use = next_index ring i })
        (mem.store_desc ring.desc.addr_virt i
          (event_desc (ring.bufs i) (mem.load_desc ring.desc.addr_virt i s)) s)
        v' (omega arith)

  -- Giving the firmware the slots of the event queue keeps both indices in the ring, and leaves no
  -- slot unused.
  pub i40e_aq_arq_assign-full :
      (ring : AqRing) (s : R)
      → IsRing ring
      → IsRing (i40e_aq_arq_assign hw mem ring s).0
        × (i40e_aq_desc_unused (i40e_aq_arq_assign hw mem ring s).0 ring.num_desc ≡ 0)
  unfolding i40e_aq_arq_assign
  i40e_aq_arq_assign-full ring s v =
      elim (Bool-cases (i40e_aq_desc_unused ring ring.num_desc == 0)) [
        | inl full ↦ rw full (v, (==_iff _ 0).0 full)
        | inr room ↦
            rw room (assign_events-unused (i40e_aq_desc_unused ring ring.num_desc) ring s v refl)
      ]
