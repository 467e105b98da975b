-- ===== src/I40e/Answer.antt =====
-- dev/i40e/i40e_io.c: the functions that switch queues on and off with hardware that answers in time.
use ufp.Common.{ℕ, zero, suc, ◌+◌, ◌%◌, ◌^◌, ◌≡◌, inl, inr, refl, ◌∙◌, Bool, true, Bool-cases}
use ufp.I40e.{Registers, set_bit, clear_bit}
use ufp.I40e.Queues.{
  qrx_ena, qtx_ena, qena_req_shift, is_enabled, is_disabled, poll, each_queue, switch,
  i40e_vsi_start_rx, i40e_vsi_stop_rx, i40e_vsi_start_tx, i40e_vsi_stop_tx,
}
use ufp.I40e.Switch.{IsFollowed}

module _ {R : Type 0} (hw : Registers R) where
  -- a number of rounds of the loop that waits for the change
  abbrev pub rounds : (n reg : ℕ) → R → R
  rounds zero reg s = s
  rounds (suc n) reg s = rounds n reg (hw.usleep 10 (hw.read32 reg s).1)

  -- After a request the queue is in the state within the rounds that the code waits for.
  abbrev pub IsAnswered : (ℕ → ℕ) → (ℕ → ℕ) → (ℕ → R → Bool) → Type 0
  IsAnswered reg_of request is_in =
      (queue value : ℕ) (s : R)
      → is_in queue (rounds 9 (reg_of queue) (hw.write32 (reg_of queue) (request value) s)) ≡ true

  module _ (reg_of : ℕ → ℕ) (reached : ℕ → Bool) (request : ℕ → ℕ) (is_in : ℕ → R → Bool)
      (laws : IsFollowed hw reg_of reached request is_in) where
    poll-in_time :
        (n queue val : ℕ) (s : R)
        → is_in queue (rounds n (reg_of queue) s) ≡ true
        → (poll hw (suc n) 10 (reg_of queue) reached val s).0 ≡ true
    unfolding poll
    poll-in_time zero queue val s e =
        rw (laws.shows queue s ∙ laws.keeps_read (reg_of queue) queue s e) refl
    poll-in_time (suc n) queue val s e =
        let (val', s') = hw.read32 (reg_of queue) s in
        elim (Bool-cases (reached val')) [
          | inl stop ↦ rw stop refl
          | inr more ↦ rw more (poll-in_time n queue val' (hw.usleep 10 s') e)
        ]

    switch-in_time :
        (queue : ℕ) (prepare : R → R) (t : Bool × ℕ × R)
        → IsAnswered reg_of request is_in
        → (switch hw (reg_of queue) reached request prepare t).0 ≡ true
    unfolding switch
    switch-in_time queue prepare (in_time, val, s) answers = elim (Bool-cases (reached val)) [
      | inl already ↦ rw already refl
      | inr ask ↦ rw ask (
          poll-in_time 9 queue val (hw.write32 (reg_of queue) (request val) (prepare s))
            (answers queue val (prepare s)))
    ]

  each_queue-true :
      (one : ℕ → R → Bool × R) (n i base_qp : ℕ) (s : R)
      → ((queue : ℕ) (s : R) → (one queue s).0 ≡ true)
      → (each_queue one n i base_qp s).0 ≡ true
  unfolding each_queue
  each_queue-true one zero i base_qp s good = refl
  each_queue-true one (suc n) i base_qp s good =
      let q = (base_qp + i) % 2 ^ 16 in
      rw (good q s) (each_queue-true one n (suc i) base_qp (one q s).1 good)

  -- Starting the queues of an interface returns 0, for receive and for transmit queues and any number
  -- of them, where the hardware shows the state of a queue in its register, leaves a queue on while it
  -- is only read, waited for, or asked to be on, and has followed a request before the tenth read.
  pub i40e_vsi_start-in_time :
      (base_qp num_qps : ℕ) (s : R) (rx_on tx_on : ℕ → R → Bool)
      → IsFollowed hw qrx_ena is_enabled (λ v. set_bit v qena_req_shift) rx_on
      → IsAnswered qrx_ena (λ v. set_bit v qena_req_shift) rx_on
      → IsFollowed hw qtx_ena is_enabled (λ v. set_bit v qena_req_shift) tx_on
      → IsAnswered qtx_ena (λ v. set_bit v qena_req_shift) tx_on
      → ((i40e_vsi_start_rx hw base_qp num_qps s).0 ≡ true)
        × ((i40e_vsi_start_tx hw base_qp num_qps s).0 ≡ true)
  unfolding i40e_vsi_start_rx i40e_vsi_start_tx
  i40e_vsi_start-in_time base_qp num_qps s rx_on tx_on rx rx_answers tx tx_answers = (
    each_queue-true _ num_qps 0 base_qp s (λ q s.
        switch-in_time qrx_ena is_enabled (λ v. set_bit v qena_req_shift) rx_on rx q _ _
          rx_answers),
    each_queue-true _ num_qps 0 base_qp s (λ q s.
        switch-in_time qtx_ena is_enabled (λ v. set_bit v qena_req_shift) tx_on tx q _ _
          tx_answers),
  )

  -- the same for stopping them
  i40e_vsi_stop-in_time :
      (base_qp num_qps : ℕ) (s : R) (rx_off tx_off : ℕ → R → Bool)
      → IsFollowed hw qrx_ena is_disabled (λ v. clear_bit v qena_req_shift) rx_off
      → IsAnswered qrx_ena (λ v. clear_bit v qena_req_shift) rx_off
      → IsFollowed hw qtx_ena is_disabled (λ v. clear_bit v qena_req_shift) tx_off
      → IsAnswered qtx_ena (λ v. clear_bit v qena_req_shift) tx_off
      → ((i40e_vsi_stop_rx hw base_qp num_qps s).0 ≡ true)
        × ((i40e_vsi_stop_tx hw base_qp num_qps s).0 ≡ true)
  unfolding i40e_vsi_stop_rx i40e_vsi_stop_tx
  i40e_vsi_stop-in_time base_qp num_qps s rx_off tx_off rx rx_answers tx tx_answers = (
    each_queue-true _ num_qps 0 base_qp s (λ q s.
        switch-in_time qrx_ena is_disabled (λ v. clear_bit v qena_req_shift) rx_off rx q _ _
          rx_answers),
    each_queue-true _ num_qps 0 base_qp s (λ q s.
        switch-in_time qtx_ena is_disabled (λ v. clear_bit v qena_req_shift) tx_off tx q _ _
          tx_answers),
  )
