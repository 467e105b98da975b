-- ===== src/I40e/Aq/Waited.antt =====
-- dev/i40e/i40e_aqc.c: waiting for the answer of a command. The device moves the head of the queue
-- while the driver sleeps.
use mathlib.Core.Path.{subst}
use ufp.Common.{
  ℕ, zero, suc, ◌-◌, ◌^◌, ◌<◌, ◌==◌, ==_iff, not, true, false, Bool-cases, ◌≡◌, ◌≢◌, ◌⊎◌, inl, inr,
  refl, sym, ap, ◌∙◌, arith, Option, some,
}
use ufp.I40e.{Registers}
use ufp.I40e.Aq.{AqDesc, AqRing, Shared}
use ufp.I40e.Aq.Sessions.{Nic, no_answer, failed_answer}
use ufp.I40e.Aq.Clean.{i40e_aq_asq_clean, i40e_aqc_wait_cmd, wait, slept, after_head, cmd_timeout}
use ufp.I40e.Aq.Indices.{slot}
use ufp.I40e.Aq.Effects.{has, retval_in}
use ufp.I40e.Aq.Cleaned.{IsShown}
use ufp.I40e.Aq.Delivered.{IsOnly, i40e_aq_asq_clean-delivers}

module _ {R : Type 0} (hw : Registers R) (mem : Shared R) (malloc : R → Option R) (ring : AqRing)
    (i : ℕ) where
  -- the head that the device shows after a sleep of a millisecond
  abbrev head_after : R → ℕ
  head_after s = (hw.read32 ring.head (hw.usleep 1000 s)).0

  abbrev after_try : R → R
  after_try s = (hw.read32 ring.head (hw.usleep 1000 s)).1

  -- the device shows the slot `i` as the head for `tries` sleeps
  abbrev pub IsIdle : (tries : ℕ) → R → Type 0
  IsIdle zero s = Unit {0}
  IsIdle (suc tries) s = (head_after s ≡ i) × IsIdle tries (after_try s)

  -- it does so for `tries` sleeps, and after one sleep more it is done with commands
  abbrev pub IsDoneAfter : (done : R → Type 0) (tries : ℕ) → R → Type 0
  IsDoneAfter done zero s = done (hw.usleep 1000 s)
  IsDoneAfter done (suc tries) s = (head_after s ≡ i) × IsDoneAfter done tries (after_try s)

  -- The driver waits at the slot `i`, and the command of the session has no answer yet.
  pub record IsWaiting (p : ℕ) (nic : Nic R) : Type 0 where
    pub here : nic.tx_ring ≡ record ring { next_to_clean = i }
    pub not_null : p ≢ 0
    pub listed : has p nic.session ≡ true
    pub unanswered : retval_in p nic.session ≡ no_answer

  abbrev tried : Nic R → Nic R
  tried nic = after_head hw mem malloc (slept hw mem malloc nic)

  idle_try :
      (fuel : ℕ) (nic : Nic R)
      → nic.tx_ring ≡ record ring { next_to_clean = i }
      → head_after nic.machine ≡ i
      → i40e_aq_asq_clean hw mem malloc (suc fuel) (slept hw mem malloc nic) ≡ some (tried nic)
  unfolding i40e_aq_asq_clean
  idle_try fuel nic here idle =
      let same : (nic.tx_ring.next_to_clean
            == (hw.read32 nic.tx_ring.head (hw.usleep 1000 nic.machine)).0)
          ≡ true =
        subst
          (λ (r : AqRing).
            (r.next_to_clean == (hw.read32 r.head (hw.usleep 1000 nic.machine)).0) ≡ true)
          (sym here) ((==_iff _ _).1 (sym idle)) in
      rw same

  tried-machine :
      (nic : Nic R)
      → nic.tx_ring ≡ record ring { next_to_clean = i }
      → (tried nic).machine ≡ after_try nic.machine
  tried-machine nic here =
      ap (λ (r : AqRing). (hw.read32 r.head (hw.usleep 1000 nic.machine)).1) here

  wait_idle :
      (fuel timeout p : ℕ) (nic : Nic R)
      → IsWaiting p nic
      → head_after nic.machine ≡ i
      → wait hw mem malloc (suc fuel) (suc timeout) p nic
        ≡ wait hw mem malloc (suc fuel) timeout p (tried nic)
  unfolding wait
  wait_idle fuel timeout p nic w idle =
      let quiet : not (retval_in p nic.session == no_answer) ≡ false =
        ap not ((==_iff _ _).1 w.unanswered) in
      rw (idle_try fuel nic w.here idle, wait) (rw quiet)

  tried-IsWaiting : (p : ℕ) (nic : Nic R) → IsWaiting p nic → IsWaiting p (tried nic)
  tried-IsWaiting p nic w = record {
    here = w.here;
    not_null = w.not_null;
    listed = w.listed;
    unanswered = w.unanswered;
  }

  wait_unanswered :
      (fuel timeout p : ℕ) (nic : Nic R)
      → IsWaiting p nic
      → IsIdle timeout nic.machine
      → (nic' : Nic R) × (wait hw mem malloc (suc fuel) timeout p nic ≡ some (false, nic'))
        × (nic'.session ≡ nic.session)
  unfolding wait
  wait_unanswered fuel zero p nic w idle = (nic, refl, refl)
  wait_unanswered fuel (suc timeout) p nic w (idle, later) =
      let (nic', e, same) =
        wait_unanswered fuel timeout p (tried nic) (tried-IsWaiting p nic w)
          (subst (IsIdle timeout) (sym (tried-machine nic w.here)) later) in
      (nic', wait_idle fuel timeout p nic w idle ∙ e, same)

  -- A device that does not move the head in 250 milliseconds: the wait returns -1, and the sessions
  -- are as they were.
  pub i40e_aqc_wait_cmd-timeout :
      (fuel p : ℕ) (nic : Nic R)
      → 0 < fuel
      → IsWaiting p nic
      → IsIdle cmd_timeout nic.machine
      → (nic' : Nic R) × (i40e_aqc_wait_cmd hw mem malloc fuel p nic ≡ some (false, nic'))
        × (nic'.session ≡ nic.session)
  unfolding i40e_aqc_wait_cmd
  i40e_aqc_wait_cmd-timeout zero p nic h w idle = absurd (omega arith)
  i40e_aqc_wait_cmd-timeout (suc fuel) p nic h w idle =
      wait_unanswered fuel cmd_timeout p nic w idle

  module _ (head : ℕ) (descs : ℕ → AqDesc) (done : R → Type 0)
      (laws : IsShown hw mem malloc ring head descs done) (k j p : ℕ)
      (small : ring.num_desc < 2 ^ 16) (in_ring : i < ring.num_desc) (in_turn : k < ring.num_desc)
      (moved : head ≡ slot ring.num_desc i k) (only : IsOnly ring.num_desc i k j p descs)
      (is_code : (descs (slot ring.num_desc i j)).retval ≢ no_answer) where
    -- the answer: the `retval` of the command, or a failure where that is 0
    abbrev pub IsAnsweredBy : ℕ → Type 0
    IsAnsweredBy v =
        (v ≡ (descs (slot ring.num_desc i j)).retval)
        ⊎ (((descs (slot ring.num_desc i j)).retval ≡ 0) × (v ≡ failed_answer))

    answered-ne : (v : ℕ) → IsAnsweredBy v → (v == no_answer) ≡ false
    answered-ne v (inl e) = elim (Bool-cases (v == no_answer)) [
      | inl same ↦ absurd (is_code (sym e ∙ (==_iff _ _).0 same))
      | inr ne ↦ ne
    ]
    answered-ne v (inr (z, e)) = rw e

    wait_last :
        (timeout : ℕ) (nic : Nic R)
        → IsWaiting p nic
        → done (hw.usleep 1000 nic.machine)
        → (nic' : Nic R) × (wait hw mem malloc ring.num_desc (suc timeout) p nic
            ≡ some (true, nic'))
          × IsAnsweredBy (retval_in p nic'.session)
    unfolding wait
    wait_last timeout nic w shows =
        let (nic', e, answer) =
          i40e_aq_asq_clean-delivers hw mem malloc ring head descs done laws small k i j p
            (slept hw mem malloc nic) (record { here = w.here; shows = shows }) in_ring in_turn
            moved w.not_null w.listed only in
        let answered : not (retval_in p nic'.session == no_answer) ≡ true =
          ap not (answered-ne (retval_in p nic'.session) answer) in
        (nic', rw (e, wait) (rw answered), answer)

    wait_idle-ring :
        (timeout : ℕ) (nic : Nic R)
        → IsWaiting p nic
        → head_after nic.machine ≡ i
        → wait hw mem malloc ring.num_desc (suc timeout) p nic
          ≡ wait hw mem malloc ring.num_desc timeout p (tried nic)
    wait_idle-ring timeout nic w idle =
        let e : ring.num_desc ≡ suc (ring.num_desc - 1) = omega arith in
        subst
          (λ f.
            wait hw mem malloc f (suc timeout) p nic ≡ wait hw mem malloc f timeout p (tried nic))
          (sym e) (wait_idle (ring.num_desc - 1) timeout p nic w idle)

    wait_answered :
        (tries timeout : ℕ) (nic : Nic R)
        → tries < timeout
        → IsWaiting p nic
        → IsDoneAfter done tries nic.machine
        → (nic' : Nic R) × (wait hw mem malloc ring.num_desc timeout p nic ≡ some (true, nic'))
          × IsAnsweredBy (retval_in p nic'.session)
    wait_answered tries zero nic h w shows = absurd (omega arith)
    wait_answered zero (suc timeout) nic h w shows = wait_last timeout nic w shows
    wait_answered (suc tries) (suc timeout) nic h w (idle, later) =
        let (nic', e, answer) =
          wait_answered tries timeout (tried nic) (omega arith) (tried-IsWaiting p nic w)
            (subst (IsDoneAfter done tries) (sym (tried-machine nic w.here)) later) in
        (nic', wait_idle-ring timeout nic w idle ∙ e, answer)

    -- The driver waits at a slot of a ring of less than 2 ^ 16 for a session of its list that has no
    -- answer. The device shows the head at this slot until it is done with the session's command,
    -- before 250 milliseconds are over. From then on it shows a head fewer slots on than the ring
    -- has, and the same head and descriptors while the queue is cleaned. Among the commands that it is
    -- done with then, this is the only one of the session, and its `retval` is not 0xffff, which the
    -- driver takes for no answer: the wait returns 0, and the session has the `retval` of the command,
    -- or fails where that is 0.
    pub i40e_aqc_wait_cmd-answered :
        (tries : ℕ) (nic : Nic R)
        → tries < cmd_timeout
        → IsWaiting p nic
        → IsDoneAfter done tries nic.machine
        → (nic' : Nic R) × (i40e_aqc_wait_cmd hw mem malloc ring.num_desc p nic ≡ some (true, nic'))
          × IsAnsweredBy (retval_in p nic'.session)
    unfolding i40e_aqc_wait_cmd
    i40e_aqc_wait_cmd-answered tries nic h w shows = wait_answered tries cmd_timeout nic h w shows
