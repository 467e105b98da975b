-- ===== src/I40e/Queues.antt =====
-- dev/i40e/i40e_io.c: how the receive and transmit queues of an interface are switched on and off. A
-- queue is requested by one bit of a register, and the hardware tells by another that it has followed.
use ufp.Common.{ℕ, zero, suc, ◌+◌, ◌*◌, ◌/◌, ◌%◌, ◌^◌, Bool, true, false, not, if◌then◌else◌}
use ufp.I40e.{Registers, test_bit, set_bit, clear_bit, field}

abbrev pub qrx_ena : ℕ → ℕ
qrx_ena queue = 1179648 + queue * 4

abbrev pub qtx_ena : ℕ → ℕ
qtx_ena queue = 1048576 + queue * 4

abbrev pub qtx_head : ℕ → ℕ
qtx_head queue = 933888 + queue * 4

abbrev pub gllan_txpre_qdis : ℕ → ℕ
gllan_txpre_qdis block = 943360 + block * 4

abbrev pub pflan_qalloc : ℕ
pflan_qalloc = 1836032

-- the bits of `qrx_ena` and `qtx_ena`
abbrev pub qena_req_shift : ℕ
qena_req_shift = 0

abbrev pub qena_stat_shift : ℕ
qena_stat_shift = 2

abbrev pub queue_wait_retry_limit : ℕ
queue_wait_retry_limit = 10

-- the queue does as it was last asked
abbrev pub settled : ℕ → Bool
settled reg =
    let req = test_bit reg qena_req_shift in
    let stat = test_bit reg qena_stat_shift in if req then stat else not stat

abbrev pub is_enabled : ℕ → Bool
is_enabled reg = test_bit reg qena_stat_shift

abbrev pub is_disabled : ℕ → Bool
is_disabled reg = not (test_bit reg qena_stat_shift)

module _ {R : Type 0} where
  -- The loop over the queues `base_qp + i`, which stops at the first that fails. `one` is its body.
  unfoldable pub each_queue : (one : ℕ → R → Bool × R) (n i base_qp : ℕ) → R → Bool × R
  each_queue one zero i base_qp s = (true, s)
  each_queue one (suc n) i base_qp s =
      let (ok, s') = one ((base_qp + i) % 2 ^ 16) s in
      let next = each_queue one n (suc i) base_qp s' in if ok then next else (false, s')

module _ {R : Type 0} (hw : Registers R) where
  open hw use {read32, write32, usleep}

  -- A loop that reads a register until its value is as wanted, for `retries` rounds with a wait after
  -- each: whether it stopped before the limit, the last value, and `reg_val` if there is no round.
  unfoldable pub poll : (retries usec reg : ℕ) (wanted : ℕ → Bool) (reg_val : ℕ) → R → Bool × ℕ × R
  poll zero usec reg wanted reg_val s = (false, reg_val, s)
  poll (suc retries) usec reg wanted reg_val s =
      let (val, s') = read32 reg s in
      let again = poll retries usec reg wanted val (usleep usec s') in
      if wanted val then (true, val, s') else again

  -- The part of the body behind the first loop: nothing is done if the queue is in the requested
  -- state already. `request` is the value that is written and `prepare` what comes before the write.
  unfoldable pub switch :
      (reg : ℕ) (reached : ℕ → Bool) (request : ℕ → ℕ) (prepare : R → R) → Bool × ℕ × R → Bool × R
  switch reg reached request prepare (in_time, val, s) =
      let (ok, last, s') =
        poll queue_wait_retry_limit 10 reg reached val (write32 reg (request val) (prepare s)) in
      if reached val then (true, s) else (ok, s')

  abbrev pub start_rx_queue : ℕ → R → Bool × R
  start_rx_queue queue s =
      switch (qrx_ena queue) is_enabled (λ v. set_bit v qena_req_shift) (λ s. s)
        (poll 50 1000 (qrx_ena queue) settled 0 s)

  unfoldable pub i40e_vsi_start_rx : (base_qp num_qps : ℕ) → R → Bool × R
  i40e_vsi_start_rx base_qp num_qps s = each_queue start_rx_queue num_qps 0 base_qp s

  abbrev pub stop_rx_queue : ℕ → R → Bool × R
  stop_rx_queue queue s =
      switch (qrx_ena queue) is_disabled (λ v. clear_bit v qena_req_shift) (λ s. s)
        (poll 50 1000 (qrx_ena queue) settled 0 s)

  unfoldable pub i40e_vsi_stop_rx : (base_qp num_qps : ℕ) → R → Bool × R
  i40e_vsi_stop_rx base_qp num_qps s = each_queue stop_rx_queue num_qps 0 base_qp s

  -- The warning to the transmit unit. `shift` is the bit that `i40e_pre_tx_queue_enable` or
  -- `i40e_pre_tx_queue_disable` sets; the field of the queue's number is the lowest 11 bits.
  unfoldable pub pre_tx_queue : (shift queue : ℕ) → R → R
  pre_tx_queue shift queue s =
      let (alloc, s₁) = read32 pflan_qalloc s in
      let abs_queue_idx = (field alloc 0 11 + queue) % 2 ^ 32 in
      let reg = gllan_txpre_qdis (abs_queue_idx / 128) in
      let (val, s₂) = read32 reg s₁ in
      write32 reg (set_bit (val / 2 ^ 11 * 2 ^ 11 + abs_queue_idx % 128) shift) s₂

  abbrev pub i40e_pre_tx_queue_enable : ℕ → R → R
  i40e_pre_tx_queue_enable queue s = pre_tx_queue 31 queue s

  abbrev pub i40e_pre_tx_queue_disable : ℕ → R → R
  i40e_pre_tx_queue_disable queue s = pre_tx_queue 30 queue s

  abbrev pub start_tx_queue : ℕ → R → Bool × R
  start_tx_queue queue s =
      switch (qtx_ena queue) is_enabled (λ v. set_bit v qena_req_shift)
        (λ s. write32 (qtx_head queue) 0 s)
        (poll 50 1000 (qtx_ena queue) settled 0 (i40e_pre_tx_queue_enable queue s))

  unfoldable pub i40e_vsi_start_tx : (base_qp num_qps : ℕ) → R → Bool × R
  i40e_vsi_start_tx base_qp num_qps s = each_queue start_tx_queue num_qps 0 base_qp s

  abbrev pub stop_tx_queue : ℕ → R → Bool × R
  stop_tx_queue queue s =
      switch (qtx_ena queue) is_disabled (λ v. clear_bit v qena_req_shift) (λ s. s)
        (poll 50 1000 (qtx_ena queue) settled 0 (usleep 10 (i40e_pre_tx_queue_disable queue s)))

  unfoldable pub i40e_vsi_stop_tx : (base_qp num_qps : ℕ) → R → Bool × R
  i40e_vsi_stop_tx base_qp num_qps s = each_queue stop_tx_queue num_qps 0 base_qp s
