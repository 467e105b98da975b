-- ===== src/I40e/Start.antt =====
-- dev/i40e/i40e_io.c: the loops over the queues of an interface.
use ufp.Common.{ℕ, zero, suc, ◌+◌, ◌/◌, ◌%◌, ◌^◌, ◌<◌, ◌≡◌, inl, inr, Bool, true, arith, Bool-cases}
use ufp.I40e.{Registers, set_bit, clear_bit, field}
use ufp.I40e.Queues.{
  qrx_ena, qtx_ena, qtx_head, gllan_txpre_qdis, pflan_qalloc, pre_tx_queue, i40e_vsi_start_tx,
  i40e_vsi_stop_tx, qena_req_shift, settled, is_enabled, is_disabled, poll, each_queue, switch,
  i40e_vsi_start_rx, i40e_vsi_stop_rx,
}
use ufp.I40e.Switch.{IsFollowed, poll-keeps, poll_some-shows, switch-reached, switch-keeps}

module _ {R : Type 0} (is_in : ℕ → R → Bool) where
  -- A loop over queues whose body, when it succeeds, leaves its queue in the state, and leaves all
  -- others in it: all queues are in the state if the loop succeeds.
  each_queue-keeps :
      (one : ℕ → R → Bool × R) (n i base_qp queue : ℕ) (s : R)
      → ((other : ℕ) (s : R) → is_in queue s ≡ true → is_in queue (one other s).1 ≡ true)
      → is_in queue s ≡ true
      → is_in queue (each_queue one n i base_qp s).1 ≡ true
  unfolding each_queue
  each_queue-keeps one zero i base_qp queue s kept e = e
  each_queue-keeps one (suc n) i base_qp queue s kept e =
      let q = (base_qp + i) % 2 ^ 16 in
      let e' = kept q s e in
      elim (Bool-cases (one q s).0) [
        | inl ok ↦ rw ok (each_queue-keeps one n (suc i) base_qp queue (one q s).1 kept e')
        | inr failed ↦ rw failed e'
      ]

  each_queue-reached :
      (one : ℕ → R → Bool × R) (n i j base_qp : ℕ) (s : R)
      → ((queue other : ℕ) (s : R) → is_in queue s ≡ true → is_in queue (one other s).1 ≡ true)
      → ((queue : ℕ) (s : R) → (one queue s).0 ≡ true → is_in queue (one queue s).1 ≡ true)
      → j < n
      → (each_queue one n i base_qp s).0 ≡ true
      → is_in ((base_qp + (i + j)) % 2 ^ 16) (each_queue one n i base_qp s).1 ≡ true
  unfolding each_queue
  each_queue-reached one zero i j base_qp s kept gets h ok = absurd (omega arith)
  each_queue-reached one (suc n) i zero base_qp s kept gets h ok =
      let q = (base_qp + i) % 2 ^ 16 in
      let same : i + 0 ≡ i = omega arith in
      elim (Bool-cases (one q s).0) [
        | inl good ↦
            rw (good, same)
              (each_queue-keeps one n (suc i) base_qp q (one q s).1 (kept q) (gets q s good))
        | inr failed ↦ absurd (cc (rw failed at ok))
      ]
  each_queue-reached one (suc n) i (suc j) base_qp s kept gets h ok =
      let q = (base_qp + i) % 2 ^ 16 in
      let same : i + suc j ≡ suc i + j = omega arith in
      elim (Bool-cases (one q s).0) [
        | inl good ↦
            rw (good, same)
              (each_queue-reached one n (suc i) j base_qp (one q s).1 kept gets (omega arith)
                (rw good at ok))
        | inr failed ↦ absurd (cc (rw failed at ok))
      ]

-- the body of the loop of all four functions: `before` the first loop, and `prepare` for the request
abbrev one_queue :
    {R : Type 0} (hw : Registers R) (reg_of : ℕ → ℕ) (reached : ℕ → Bool) (request : ℕ → ℕ)
    (before prepare : ℕ → R → R) (queue : ℕ)
    → R
    → Bool × R
one_queue hw reg_of reached request before prepare queue s =
    switch hw (reg_of queue) reached request (prepare queue)
      (poll hw 50 1000 (reg_of queue) settled 0 (before queue s))

module _ {R : Type 0} (hw : Registers R) (reg_of : ℕ → ℕ) (reached : ℕ → Bool) (request : ℕ → ℕ)
    (before prepare : ℕ → R → R) (is_in : ℕ → R → Bool)
    (laws : IsFollowed hw reg_of reached request is_in) where
  all_queues-reached :
      (base_qp num_qps i : ℕ) (s : R)
      → ((other queue : ℕ) (s : R) → is_in queue s ≡ true → is_in queue (before other s) ≡ true)
      → ((other queue : ℕ) (s : R) → is_in queue s ≡ true → is_in queue (prepare other s) ≡ true)
      → i < num_qps
      → (each_queue (one_queue hw reg_of reached request before prepare) num_qps 0 base_qp s).0
        ≡ true
      → is_in
          ((base_qp + i) % 2 ^ 16)
          (each_queue (one_queue hw reg_of reached request before prepare) num_qps 0 base_qp s).1
        ≡ true
  all_queues-reached base_qp num_qps i s kept_before kept_prepare h ok =
      let first : 0 + i ≡ i = omega arith in
      rw first at (
        each_queue-reached is_in (one_queue hw reg_of reached request before prepare) num_qps 0 i
          base_qp s
          (λ queue other s e.
            switch-keeps hw reg_of reached request is_in laws other queue (prepare other)
              (poll hw 50 1000 (reg_of other) settled 0 (before other s)) (kept_prepare other queue)
              (poll-keeps hw reg_of reached request is_in laws 50 1000 (reg_of other) settled 0
                queue (before other s) (kept_before other queue s e)))
          (λ queue s ok.
            switch-reached hw reg_of reached request is_in laws queue (prepare queue)
              (poll hw 50 1000 (reg_of queue) settled 0 (before queue s))
              (λ e.
                poll_some-shows hw reg_of reached request is_in laws 49 1000 queue 0 settled
                  (before queue s) e)
              ok)
          h ok)

module _ {R : Type 0} (hw : Registers R) (is_in : ℕ → R → Bool) where
  -- Starting the receive queues: where the hardware shows the state of a queue in its register and
  -- leaves a queue that is on so while it is only read, waited for, or asked to be on, every queue
  -- of the interface is on when the function returns 0.
  pub i40e_vsi_start_rx-enabled :
      (base_qp num_qps i : ℕ) (s : R)
      → IsFollowed hw qrx_ena is_enabled (λ v. set_bit v qena_req_shift) is_in
      → i < num_qps
      → (i40e_vsi_start_rx hw base_qp num_qps s).0 ≡ true
      → is_in ((base_qp + i) % 2 ^ 16) (i40e_vsi_start_rx hw base_qp num_qps s).1 ≡ true
  unfolding i40e_vsi_start_rx
  i40e_vsi_start_rx-enabled base_qp num_qps i s laws h ok =
      all_queues-reached hw qrx_ena is_enabled (λ v. set_bit v qena_req_shift) (λ q s. s) (λ q s. s)
        is_in laws base_qp num_qps i s (λ other queue s e. e) (λ other queue s e. e) h ok

  -- Stopping the receive queues: the same for queues that are off.
  pub i40e_vsi_stop_rx-disabled :
      (base_qp num_qps i : ℕ) (s : R)
      → IsFollowed hw qrx_ena is_disabled (λ v. clear_bit v qena_req_shift) is_in
      → i < num_qps
      → (i40e_vsi_stop_rx hw base_qp num_qps s).0 ≡ true
      → is_in ((base_qp + i) % 2 ^ 16) (i40e_vsi_stop_rx hw base_qp num_qps s).1 ≡ true
  unfolding i40e_vsi_stop_rx
  i40e_vsi_stop_rx-disabled base_qp num_qps i s laws h ok =
      all_queues-reached hw qrx_ena is_disabled (λ v. clear_bit v qena_req_shift) (λ q s. s)
        (λ q s. s) is_in laws base_qp num_qps i s (λ other queue s e. e) (λ other queue s e. e) h ok

  -- the registers that the transmit unit is warned with, and the heads of queues, keep a queue as it is
  pub record IsWarned : Type 0 where
    pub keeps_warning :
        (block value queue : ℕ) (s : R)
        → is_in queue s ≡ true
        → is_in queue (hw.write32 (gllan_txpre_qdis block) value s) ≡ true
    pub keeps_head :
        (other value queue : ℕ) (s : R)
        → is_in queue s ≡ true
        → is_in queue (hw.write32 (qtx_head other) value s) ≡ true

  pre_tx_queue-keeps :
      (reg_of : ℕ → ℕ) (reached : ℕ → Bool) (request : ℕ → ℕ) (shift other queue : ℕ) (s : R)
      → IsFollowed hw reg_of reached request is_in
      → IsWarned
      → is_in queue s ≡ true
      → is_in queue (pre_tx_queue hw shift other s) ≡ true
  unfolding pre_tx_queue
  pre_tx_queue-keeps reg_of reached request shift other queue s laws warned e =
      let (alloc, s₁) = hw.read32 pflan_qalloc s in
      let block = (field alloc 0 11 + other) % 2 ^ 32 / 128 in
      let (val, s₂) = hw.read32 (gllan_txpre_qdis block) s₁ in
      warned.keeps_warning block _ queue s₂
        (laws.keeps_read (gllan_txpre_qdis block) queue s₁ (laws.keeps_read pflan_qalloc queue s e))

  -- Starting the transmit queues, where also the warning to the transmit unit and the reset of a
  -- head leave a queue that is on so.
  pub i40e_vsi_start_tx-enabled :
      (base_qp num_qps i : ℕ) (s : R)
      → IsFollowed hw qtx_ena is_enabled (λ v. set_bit v qena_req_shift) is_in
      → IsWarned
      → i < num_qps
      → (i40e_vsi_start_tx hw base_qp num_qps s).0 ≡ true
      → is_in ((base_qp + i) % 2 ^ 16) (i40e_vsi_start_tx hw base_qp num_qps s).1 ≡ true
  unfolding i40e_vsi_start_tx
  i40e_vsi_start_tx-enabled base_qp num_qps i s laws warned h ok =
      all_queues-reached hw qtx_ena is_enabled (λ v. set_bit v qena_req_shift) (pre_tx_queue hw 31)
        (λ q s. hw.write32 (qtx_head q) 0 s) is_in laws base_qp num_qps i s
        (λ other queue s e.
          pre_tx_queue-keeps qtx_ena is_enabled (λ v. set_bit v qena_req_shift) 31 other queue s
            laws warned e)
        (λ other queue s e. warned.keeps_head other 0 queue s e) h ok

  -- Stopping the transmit queues: the same for queues that are off.
  pub i40e_vsi_stop_tx-disabled :
      (base_qp num_qps i : ℕ) (s : R)
      → IsFollowed hw qtx_ena is_disabled (λ v. clear_bit v qena_req_shift) is_in
      → IsWarned
      → i < num_qps
      → (i40e_vsi_stop_tx hw base_qp num_qps s).0 ≡ true
      → is_in ((base_qp + i) % 2 ^ 16) (i40e_vsi_stop_tx hw base_qp num_qps s).1 ≡ true
  unfolding i40e_vsi_stop_tx
  i40e_vsi_stop_tx-disabled base_qp num_qps i s laws warned h ok =
      all_queues-reached hw qtx_ena is_disabled (λ v. clear_bit v qena_req_shift)
        (λ q s. hw.usleep 10 (pre_tx_queue hw 30 q s)) (λ q s. s) is_in laws base_qp num_qps i s
        (λ other queue s e. laws.keeps_usleep 10 queue (pre_tx_queue hw 30 other s) (
          pre_tx_queue-keeps qtx_ena is_disabled (λ v. clear_bit v qena_req_shift) 30 other queue s
            laws warned e))
        (λ other queue s e. e) h ok
