-- ===== src/I40e/Switch.antt =====
-- dev/i40e/i40e_io.c: what the functions that switch queues on and off achieve.
use ufp.Common.{ℕ, zero, suc, ◌≡◌, inl, inr, sym, ◌∙◌, Bool, true, Bool-cases}
use ufp.I40e.{Registers}
use ufp.I40e.Queues.{queue_wait_retry_limit, poll, switch}

module _ {R : Type 0} (hw : Registers R) where
  open hw use {read32, write32, usleep}

  -- The hardware's part, while no queue is asked for the opposite: whether a queue is in the state that
  -- is wanted, which its register shows, and which neither reads nor waiting nor a request for the
  -- same state of any queue ends.
  pub record IsFollowed (reg_of : ℕ → ℕ) (reached : ℕ → Bool) (request : ℕ → ℕ)
      (is_in : ℕ → R → Bool) : Type 0 where
    pub shows :
        (queue : ℕ) (s : R)
        → reached (read32 (reg_of queue) s).0 ≡ is_in queue (read32 (reg_of queue) s).1
    pub keeps_read :
        (reg queue : ℕ) (s : R) → is_in queue s ≡ true → is_in queue (read32 reg s).1 ≡ true
    pub keeps_usleep :
        (usec queue : ℕ) (s : R) → is_in queue s ≡ true → is_in queue (usleep usec s) ≡ true
    pub keeps_request :
        (other value queue : ℕ) (s : R)
        → is_in queue s ≡ true
        → is_in queue (write32 (reg_of other) (request value) s) ≡ true

  module _ (reg_of : ℕ → ℕ) (reached : ℕ → Bool) (request : ℕ → ℕ) (is_in : ℕ → R → Bool)
      (laws : IsFollowed reg_of reached request is_in) where
    pub poll-keeps :
        (retries usec reg : ℕ) (wanted : ℕ → Bool) (val queue : ℕ) (s : R)
        → is_in queue s ≡ true
        → is_in queue (poll hw retries usec reg wanted val s).2 ≡ true
    unfolding poll
    poll-keeps zero usec reg wanted val queue s e = e
    poll-keeps (suc retries) usec reg wanted val queue s e =
        let kept = laws.keeps_read reg queue s e in
        let s' = (read32 reg s).1 in
        elim (Bool-cases (wanted (read32 reg s).0)) [
          | inl stop ↦ rw stop kept
          | inr more ↦ rw more (
              poll-keeps retries usec reg wanted (read32 reg s).0 queue (usleep usec s')
                (laws.keeps_usleep usec queue s' kept))
        ]

    -- A loop that stops before the limit has just read that the queue is in the state.
    poll-reached :
        (retries usec queue val : ℕ) (s : R)
        → (poll hw retries usec (reg_of queue) reached val s).0 ≡ true
        → is_in queue (poll hw retries usec (reg_of queue) reached val s).2 ≡ true
    unfolding poll
    poll-reached zero usec queue val s e = absurd (cc)
    poll-reached (suc retries) usec queue val s e =
        elim (Bool-cases (reached (read32 (reg_of queue) s).0)) [
          | inl stop ↦ rw stop (sym (laws.shows queue s) ∙ stop)
          | inr more ↦ rw more (
              poll-reached retries usec queue (read32 (reg_of queue) s).0
                (usleep usec (read32 (reg_of queue) s).1) (rw more at e))
        ]

    poll-shows :
        (retries usec queue val : ℕ) (wanted : ℕ → Bool) (s : R)
        → (reached val ≡ true → is_in queue s ≡ true)
        → reached (poll hw retries usec (reg_of queue) wanted val s).1 ≡ true
        → is_in queue (poll hw retries usec (reg_of queue) wanted val s).2 ≡ true
    unfolding poll
    poll-shows zero usec queue val wanted s before e = before e
    poll-shows (suc retries) usec queue val wanted s before e =
        let (val', s') = read32 (reg_of queue) s in
        elim (Bool-cases (wanted val')) [
          | inl stop ↦ rw stop (sym (laws.shows queue s) ∙ (rw stop at e))
          | inr more ↦ rw more (
              poll-shows retries usec queue val' wanted (usleep usec s')
                (λ now. laws.keeps_usleep usec queue s' (sym (laws.shows queue s) ∙ now))
                (rw more at e))
        ]

    -- After one round at least, what the last value says is true of the queue.
    pub poll_some-shows :
        (retries usec queue val : ℕ) (wanted : ℕ → Bool) (s : R)
        → reached (poll hw (suc retries) usec (reg_of queue) wanted val s).1 ≡ true
        → is_in queue (poll hw (suc retries) usec (reg_of queue) wanted val s).2 ≡ true
    unfolding poll
    poll_some-shows retries usec queue val wanted s e =
        let (val', s') = read32 (reg_of queue) s in
        elim (Bool-cases (wanted val')) [
          | inl stop ↦ rw stop (sym (laws.shows queue s) ∙ (rw stop at e))
          | inr more ↦ rw more (
              poll-shows retries usec queue val' wanted (usleep usec s')
                (λ now. laws.keeps_usleep usec queue s' (sym (laws.shows queue s) ∙ now))
                (rw more at e))
        ]

    -- one queue, behind the first loop
    pub switch-reached :
        (queue : ℕ) (prepare : R → R) (t : Bool × ℕ × R)
        → (reached t.1 ≡ true → is_in queue t.2 ≡ true)
        → (switch hw (reg_of queue) reached request prepare t).0 ≡ true
        → is_in queue (switch hw (reg_of queue) reached request prepare t).1 ≡ true
    unfolding switch
    switch-reached queue prepare (in_time, val, s) shown ok = elim (Bool-cases (reached val)) [
      | inl already ↦ rw already (shown already)
      | inr ask ↦ rw ask (
          poll-reached queue_wait_retry_limit 10 queue val
            (write32 (reg_of queue) (request val) (prepare s)) (rw ask at ok))
    ]

    pub switch-keeps :
        (other queue : ℕ) (prepare : R → R) (t : Bool × ℕ × R)
        → ((s : R) → is_in queue s ≡ true → is_in queue (prepare s) ≡ true)
        → is_in queue t.2 ≡ true
        → is_in queue (switch hw (reg_of other) reached request prepare t).1 ≡ true
    unfolding switch
    switch-keeps other queue prepare (in_time, val, s) prepared e =
        elim (Bool-cases (reached val)) [
          | inl already ↦ rw already e
          | inr ask ↦ rw ask (
              poll-keeps queue_wait_retry_limit 10 (reg_of other) reached val queue
                (write32 (reg_of other) (request val) (prepare s))
                (laws.keeps_request other val queue (prepare s) (prepared s e)))
        ]
