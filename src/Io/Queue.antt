-- ===== src/Io/Queue.antt =====
-- lib/lib_io.c: a descriptor ring as a queue of slots.
use ufp.Common.{
  ℕ, zero, suc, ◌+◌, ◌-◌, ◌^◌, ◌<◌, ◌≡◌, refl, sym, ap, false, List, [], ◌∷◌, ◌++◌, ltb, leb, ◌==◌,
  if◌then◌else◌, update, arith, length,
}
use ufp.Io.{
  IoState, Ring, ufp_desc_unused, ufp_slot_attach, ufp_slot_detach, use_desc, clean_desc, advance,
}

-- the descriptors in use, from `next_to_clean` up to `next_to_use`
abbrev pub occupied : ℕ → Ring → ℕ
occupied n ring =
    if leb ring.next_to_clean ring.next_to_use
    then ring.next_to_use - ring.next_to_clean
    else n + ring.next_to_use - ring.next_to_clean

-- `count` slots from the descriptor `i` on, around the end of the ring
abbrev pub slots_from : ℕ → ℕ → (ℕ → ℕ) → ℕ → List ℕ
slots_from n zero slot i = []
slots_from n (suc count) slot i = slot i ∷ slots_from n count slot (advance n i)

abbrev pub pending : ℕ → Ring → List ℕ
pending n ring = slots_from n (occupied n ring) ring.slot_index ring.next_to_clean

abbrev pub rx_pending : {D : Type 0} → IoState D → List ℕ
rx_pending s = pending s.port.num_rx_desc s.port.rx_ring

abbrev pub tx_pending : {D : Type 0} → IoState D → List ℕ
tx_pending s = pending s.port.num_tx_desc s.port.tx_ring

pub length-slots_from :
    (n count : ℕ) (slot : ℕ → ℕ) (i : ℕ) → length (slots_from n count slot i) ≡ count
length-slots_from n zero slot i = refl
length-slots_from n (suc count) slot i = omega (arith, length-slots_from n count slot (advance n i))

-- both indices are in the ring, whose size an index of 16 bits can count
pub record IsRing (n : ℕ) (ring : Ring) : Type 0 where
  pub use_bound : ring.next_to_use < n
  pub clean_bound : ring.next_to_clean < n
  pub size_bound : n < 2 ^ 16

advance-bound : (n i : ℕ) → i < n → advance n i < n
unfolding advance
advance-bound n i h = ground arith

-- In a ring, the unused descriptors are those that are not occupied, less one.
pub ufp_desc_unused-occupied :
    (n : ℕ) (ring : Ring) → IsRing n ring → ufp_desc_unused ring n + occupied n ring + 1 ≡ n
unfolding ufp_desc_unused
ufp_desc_unused-occupied n ring h = ground (arith, h.use_bound, h.clean_bound, h.size_bound)

pub use_desc-IsRing : (n index : ℕ) (ring : Ring) → IsRing n ring → IsRing n (use_desc ring n index)
unfolding use_desc ufp_slot_attach
use_desc-IsRing n index ring h = record {
  use_bound = advance-bound n ring.next_to_use h.use_bound;
  clean_bound = h.clean_bound;
  size_bound = h.size_bound;
}

pub clean_desc-IsRing : (n : ℕ) (ring : Ring) → IsRing n ring → IsRing n (clean_desc ring n)
unfolding clean_desc
clean_desc-IsRing n ring h = record {
  use_bound = h.use_bound;
  clean_bound = advance-bound n ring.next_to_clean h.clean_bound;
  size_bound = h.size_bound;
}

-- the index that is `count` descriptors after `i`
abbrev ahead : ℕ → ℕ → ℕ → ℕ
ahead n i count = if ltb (i + count) n then i + count else i + count - n

advance-ahead :
    (n i count : ℕ)
    → i < n
    → n < 2 ^ 16
    → suc count < n
    → ahead n (advance n i) count ≡ ahead n i (suc count)
unfolding advance
advance-ahead n i count h hn hc = ground arith

-- one more slot at the end
slots_from-snoc :
    (n count : ℕ) (slot : ℕ → ℕ) (i v : ℕ)
    → i < n
    → n < 2 ^ 16
    → suc count < n
    → slots_from n (suc count) (update slot (ahead n i count) v) i
      ≡ slots_from n count slot i ++ (v ∷ [])
slots_from-snoc n zero slot i v h hn hc = ap (λ x. x ∷ []) (ground arith)
slots_from-snoc n (suc count) slot i v h hn hc =
    let rest =
      slots_from-snoc n count slot (advance n i) v (advance-bound n i h) hn (omega arith) in
    let kept : update slot (ahead n i (suc count)) v i ≡ slot i = ground arith in
    rw (kept, sym (advance-ahead n i count h hn (omega arith)), rest) refl

slots_from-snoc_at :
    (n count : ℕ) (slot : ℕ → ℕ) (i j v : ℕ)
    → i < n
    → n < 2 ^ 16
    → suc count < n
    → j ≡ ahead n i count
    → slots_from n (suc count) (update slot j v) i ≡ slots_from n count slot i ++ (v ∷ [])
slots_from-snoc_at n count slot i j v h hn hc e = rw e (slots_from-snoc n count slot i v h hn hc)

pub use_desc-occupied :
    (n index : ℕ) (ring : Ring)
    → IsRing n ring
    → occupied n ring + 1 < n
    → occupied n (use_desc ring n index) ≡ suc (occupied n ring)
unfolding use_desc ufp_slot_attach advance
use_desc-occupied n index ring h room = ground (arith, h.use_bound, h.clean_bound, h.size_bound)

use_desc-ahead :
    (n : ℕ) (ring : Ring)
    → IsRing n ring
    → ring.next_to_use ≡ ahead n ring.next_to_clean (occupied n ring)
use_desc-ahead n ring h = ground (arith, h.use_bound, h.clean_bound, h.size_bound)

-- A descriptor that is used puts its slot at the end of the queue, if the ring has room.
pub use_desc-pending :
    (n index : ℕ) (ring : Ring)
    → IsRing n ring
    → occupied n ring + 1 < n
    → pending n (use_desc ring n index) ≡ pending n ring ++ (index ∷ [])
unfolding use_desc ufp_slot_attach
use_desc-pending n index ring h room = rw (use_desc-occupied n index ring h room) (
    slots_from-snoc_at n (occupied n ring) ring.slot_index ring.next_to_clean ring.next_to_use index
      h.clean_bound h.size_bound (omega arith) (use_desc-ahead n ring h))

clean_desc-occupied :
    (n : ℕ) (ring : Ring)
    → IsRing n ring
    → (ring.next_to_clean == ring.next_to_use) ≡ false
    → occupied n ring ≡ suc (occupied n (clean_desc ring n))
unfolding clean_desc advance
clean_desc-occupied n ring h some_used = ground (arith, h.use_bound, h.clean_bound, h.size_bound)

-- A descriptor that is cleaned takes its slot from the front of the queue.
pub clean_desc-pending :
    (n : ℕ) (ring : Ring)
    → IsRing n ring
    → (ring.next_to_clean == ring.next_to_use) ≡ false
    → pending n ring ≡ ufp_slot_detach ring ring.next_to_clean ∷ pending n (clean_desc ring n)
unfolding clean_desc ufp_slot_detach
clean_desc-pending n ring h some_used = rw (clean_desc-occupied n ring h some_used) refl
