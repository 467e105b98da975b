-- ===== src/Io/Slots.antt =====
-- lib/lib_io.c: `ufp_slot_assign` finds a free slot among those of its port, if there is one.
use ufp.Common.{
  ℕ, zero, suc, ◌+◌, ◌-◌, ◌%◌, ◌^◌, ◌<◌, ◌≤◌, ◌≡◌, ◌↔◌, ◌⊎◌, refl, true, false, none, some, leb,
  ◌==◌, if◌then◌else◌, update, arith, Bool-cases, Option-cases, inl, inr,
}
use mathlib.Core.Path.{subst}
use ufp.Io.{Buf, Port, is_inflight, set_inflight, find_slot, ufp_slot_assign}

-- the slot that the search finds is one of the port's, and free
find_slot-free :
    (rounds : ℕ) (buf : Buf) (offset next k : ℕ)
    → find_slot rounds buf offset next ≡ some k
    → next < buf.count
    → (k < buf.count) × (is_inflight (buf.slots ((offset + k) % 2 ^ 32)) ≡ false)
unfolding find_slot
find_slot-free zero buf offset next k e h = absurd (ground (arith, e))
find_slot-free (suc rounds) buf offset next k e h =
    let next' = if next + 1 == buf.count then 0 else next + 1 in
    ground (arith, find_slot-free rounds buf offset next' k)

-- how many rounds the search takes from `next` to `k`
abbrev distance : ℕ → ℕ → ℕ → ℕ
distance count next k = if leb next k then k - next else count + k - next

find_slot-step :
    (rounds : ℕ) (buf : Buf) (offset next : ℕ)
    → find_slot (suc rounds) buf offset next ≡ none
    → (is_inflight (buf.slots ((offset + next) % 2 ^ 32)) ≡ true)
      × (find_slot rounds buf offset (if next + 1 == buf.count then 0 else next + 1) ≡ none)
unfolding find_slot
find_slot-step rounds buf offset next e = ground (arith, e)

find_slot-none :
    (rounds : ℕ) (buf : Buf) (offset next k : ℕ)
    → find_slot rounds buf offset next ≡ none
    → next < buf.count
    → k < buf.count
    → distance buf.count next k < rounds
    → is_inflight (buf.slots ((offset + k) % 2 ^ 32)) ≡ true
find_slot-none zero buf offset next k e h hk d = absurd (omega arith)
find_slot-none (suc rounds) buf offset next k e h hk d =
    let (busy, rest) = find_slot-step rounds buf offset next e in
    let next' = if next + 1 == buf.count then 0 else next + 1 in
    elim (Bool-cases (next == k)) [
      | inl same ↦
          let at_k : next ≡ k = ground arith in
          subst (λ x. is_inflight (buf.slots ((offset + x) % 2 ^ 32)) ≡ true) at_k busy
      | inr other ↦ find_slot-none rounds buf offset next' k rest (ground arith) hk (ground arith)
    ]

-- every slot of the port is taken
abbrev pub AllTaken : Buf → Port → Type 0
AllTaken buf port =
    (k : ℕ) → k < buf.count → is_inflight (buf.slots ((port.rx_slot_offset + k) % 2 ^ 32)) ≡ true

-- A search that starts at a slot of the port gives none exactly if every slot of the port is taken.
pub ufp_slot_assign-none :
    (buf : Buf) (port : Port)
    → port.rx_slot_next < buf.count
    → (ufp_slot_assign buf port ≡ none) ↔ AllTaken buf port
unfolding ufp_slot_assign
ufp_slot_assign-none buf port h =
    let found = find_slot buf.count buf port.rx_slot_offset port.rx_slot_next in
    (
      λ e k hk.
          find_slot-none buf.count buf port.rx_slot_offset port.rx_slot_next k (ground (arith, e)) h
            hk (ground arith),
      λ all. elim (Option-cases found) [
        | inl n ↦ rw (n, ufp_slot_assign) refl
        | inr (k, f) ↦
            let (bound, free) =
              find_slot-free buf.count buf port.rx_slot_offset port.rx_slot_next k f h in
            absurd (ground (arith, all k bound, free))
      ],
    )

-- the result when the search finds the slot number `k` of the port
abbrev pub taken : Buf → Port → ℕ → ℕ × Buf × Port
taken buf port k =
    let index = (port.rx_slot_offset + k) % 2 ^ 32 in
    (
      index,
      record buf { slots = update buf.slots index (set_inflight (buf.slots index)) },
      record port { rx_slot_next = if k + 1 == buf.count then 0 else k + 1 },
    )

-- what a client learns of an assigned slot and the new buffer and port
pub record IsAssigned (buf : Buf) (port : Port) (r : ℕ × Buf × Port) : Type 0 where
  pub lower : port.rx_slot_offset ≤ r.0
  pub upper : r.0 < port.rx_slot_offset + buf.count
  pub was_free : is_inflight (buf.slots r.0) ≡ false
  pub now_taken : is_inflight (r.1.slots r.0) ≡ true
  pub new_buf : r.1 ≡ record buf { slots = update buf.slots r.0 (set_inflight (buf.slots r.0)) }
  pub new_port : r.2 ≡ record port { rx_slot_next = r.2.rx_slot_next }
  pub next_bound : r.2.rx_slot_next < buf.count

taken-IsAssigned :
    (buf : Buf) (port : Port) (k : ℕ)
    → k < buf.count
    → is_inflight (buf.slots ((port.rx_slot_offset + k) % 2 ^ 32)) ≡ false
    → port.rx_slot_offset + buf.count ≤ 2 ^ 32
    → IsAssigned buf port (taken buf port k)
taken-IsAssigned buf port k bound free h = record {
  lower = omega arith;
  upper = omega arith;
  was_free = free;
  now_taken = ground arith;
  new_buf = refl;
  new_port = refl;
  next_bound = ground arith;
}

-- A slot that is assigned is one of the port's, was free and is taken afterwards; the other slots
-- and the port's other fields keep their values, and the next search starts at a slot of the port.
pub ufp_slot_assign-IsAssigned :
    (buf : Buf) (port : Port) (r : ℕ × Buf × Port)
    → ufp_slot_assign buf port ≡ some r
    → port.rx_slot_next < buf.count
    → port.rx_slot_offset + buf.count ≤ 2 ^ 32
    → IsAssigned buf port r
unfolding ufp_slot_assign
ufp_slot_assign-IsAssigned buf port r e h hb =
    elim (Option-cases (find_slot buf.count buf port.rx_slot_offset port.rx_slot_next)) [
      | inl n ↦ absurd (ground (arith, e, n))
      | inr (k, f) ↦
          let (bound, free) =
            find_slot-free buf.count buf port.rx_slot_offset port.rx_slot_next k f h in
          let same : taken buf port k ≡ r = ground (arith, e, f) in
          subst (IsAssigned buf port) same (taken-IsAssigned buf port k bound free hb)
    ]

-- the two results of `ufp_slot_assign`
pub ufp_slot_assign-cases :
    (buf : Buf) (port : Port)
    → port.rx_slot_next < buf.count
    → ((ufp_slot_assign buf port ≡ none) × AllTaken buf port)
      ⊎ ((k : ℕ) × (ufp_slot_assign buf port ≡ some (taken buf port k))
          × (k < buf.count)
          × (is_inflight (buf.slots ((port.rx_slot_offset + k) % 2 ^ 32)) ≡ false))
unfolding ufp_slot_assign
ufp_slot_assign-cases buf port h =
    elim (Option-cases (find_slot buf.count buf port.rx_slot_offset port.rx_slot_next)) [
      | inl n ↦
          let none_left : ufp_slot_assign buf port ≡ none = rw (n, ufp_slot_assign) refl in
          inl (none_left, (ufp_slot_assign-none buf port h).0 none_left)
      | inr (k, f) ↦
          let (bound, free) =
            find_slot-free buf.count buf port.rx_slot_offset port.rx_slot_next k f h in
          inr (k, rw (f, ufp_slot_assign) refl, bound, free)
    ]
