-- ===== src/I40e/Aq/Tests.antt =====
-- The theorems on the admin queues at the devices of I40e/Aq/Toy.
use mathlib.Core.Path.{subst}
use mathlib.Core.Option
use mathlib.Core.Option.{some-injective}
use ufp.Common.{ℕ, zero, suc, true, false, ◌≡◌, ◌⊎◌, refl, ap, arith, none, some}
use ufp.I40e.{Registers}
use ufp.I40e.Aq.{
  Params, AqDesc, AqRing, Shared, i40e_aq_desc_unused, i40e_aq_asq_assign, i40e_aq_arq_assign,
  flag_buf,
}
use ufp.I40e.Aq.Requests.{i40e_aqc_req_queue_shutdown}
use ufp.I40e.Aq.Sessions.{Session, Nic, Blocks, find_session, no_answer, failed_answer, submit}
use ufp.I40e.Aq.Clean.{i40e_aq_asq_clean, i40e_aqc_wait_cmd, cmd_timeout}
use ufp.I40e.Aq.Indices.{IsRing, i40e_aq_asq_assign-unused, i40e_aq_arq_assign-full}
use ufp.I40e.Aq.Effects.{has, retval_in}
use ufp.I40e.Aq.Cleaned.{IsShown, IsAt}
use ufp.I40e.Aq.Delivered.{IsOnly, i40e_aq_asq_clean-reaches, i40e_aq_asq_clean-delivers}
use ufp.I40e.Aq.Waited.{IsIdle, IsWaiting, i40e_aqc_wait_cmd-timeout, i40e_aqc_wait_cmd-answered}
use ufp.I40e.Aq.Setup.{i40e_aq_init}
use ufp.I40e.Aq.Areas.{QueuesFrom, i40e_aq_init-areas}
use ufp.I40e.Aq.Toy.{
  Toy, head_reg, hw, dead, mem, malloc, system, ring, ring-IsRing, no_params, descs, toy, nic,
  toy-IsCounted,
}

done_nic : Nic Toy
done_nic = record nic { machine = hw.usleep 1000 toy }

-- the head is at 1, and the descriptors are those above
IsDone : Toy → Type 0
IsDone s = (s.regs head_reg ≡ 1) × (s.descs ≡ descs)

IsDone-IsShown : IsShown hw mem malloc ring 1 descs IsDone
unfolding IsDone
IsDone-IsShown = record {
  still = record {
    keeps_write = λ s h. h;
    keeps_malloc = λ s s' e h. subst IsDone (some-injective s s' e) h;
  };
  keeps_read = λ s h. h;
  shows_head = λ s h. h.0;
  shows_desc = λ i s h. ap (λ (f : ℕ → AqDesc). f i) h.1;
}

IsOnly-7 : IsOnly 128 0 1 0 7 descs
IsOnly-7 = record { among = omega arith; own = refl; others = λ l lt ne. absurd (ne (omega arith)) }

IsWaiting-hw : IsWaiting hw mem malloc ring 0 7 nic
unfolding find_session
IsWaiting-hw = record { here = refl; not_null = omega arith; listed = refl; unanswered = refl }

IsWaiting-dead : IsWaiting dead mem malloc ring 0 7 nic
unfolding find_session
IsWaiting-dead = record { here = refl; not_null = omega arith; listed = refl; unanswered = refl }

IsDone-toy : IsDone (hw.usleep 1000 toy)
unfolding IsDone
IsDone-toy = (refl, refl)

done_nic-IsAt : IsAt hw mem malloc ring 1 descs IsDone 0 done_nic
unfolding done_nic
done_nic-IsAt = record { here = refl; shows = IsDone-toy }

dead-IsIdle : (tries : ℕ) → IsIdle dead mem malloc ring 0 tries toy
dead-IsIdle zero = tt
dead-IsIdle (suc tries) = (refl, dead-IsIdle tries)

i40e_aq_asq_assign-unused_example :
    IsRing (i40e_aq_asq_assign hw mem 3 0 no_params none 0 7 ring toy).0
    × (((i40e_aq_desc_unused ring 128 ≡ 0)
          × (i40e_aq_asq_assign hw mem 3 0 no_params none 0 7 ring toy ≡ (ring, toy)))
        ⊎ (suc (
              i40e_aq_desc_unused (i40e_aq_asq_assign hw mem 3 0 no_params none 0 7 ring toy).0 128)
            ≡ i40e_aq_desc_unused ring 128))
i40e_aq_asq_assign-unused_example =
    i40e_aq_asq_assign-unused hw mem 3 0 no_params none 0 7 ring toy ring-IsRing

i40e_aq_arq_assign-full_test :
    IsRing (i40e_aq_arq_assign hw mem ring toy).0
    × (i40e_aq_desc_unused (i40e_aq_arq_assign hw mem ring toy).0 128 ≡ 0)
i40e_aq_arq_assign-full_test = i40e_aq_arq_assign-full hw mem ring toy ring-IsRing

i40e_aq_asq_clean-reaches_example :
    (nic' : Nic Toy) × (i40e_aq_asq_clean hw mem malloc 128 done_nic ≡ some nic')
    × IsAt hw mem malloc ring 1 descs IsDone 1 nic'
    × ((p : ℕ) → has p nic'.session ≡ has p done_nic.session)
i40e_aq_asq_clean-reaches_example =
    i40e_aq_asq_clean-reaches hw mem malloc ring 1 descs IsDone IsDone-IsShown (omega arith) 1 0
      done_nic done_nic-IsAt (omega arith) (omega arith) refl

has_7 : has 7 done_nic.session ≡ true
unfolding done_nic find_session
has_7 = refl

i40e_aq_asq_clean-delivers_test :
    (nic' : Nic Toy) × (i40e_aq_asq_clean hw mem malloc 128 done_nic ≡ some nic')
    × ((retval_in 7 nic'.session ≡ 5)
        ⊎ ((◌≡◌ {A = ℕ} 5 0) × (retval_in 7 nic'.session ≡ failed_answer)))
i40e_aq_asq_clean-delivers_test =
    i40e_aq_asq_clean-delivers hw mem malloc ring 1 descs IsDone IsDone-IsShown (omega arith) 1 0 0
      7 done_nic done_nic-IsAt (omega arith) (omega arith) refl (omega arith) has_7 IsOnly-7

i40e_aqc_wait_cmd-answered_example :
    (nic' : Nic Toy) × (i40e_aqc_wait_cmd hw mem malloc 128 7 nic ≡ some (true, nic'))
    × ((retval_in 7 nic'.session ≡ 5)
        ⊎ ((◌≡◌ {A = ℕ} 5 0) × (retval_in 7 nic'.session ≡ failed_answer)))
i40e_aqc_wait_cmd-answered_example =
    i40e_aqc_wait_cmd-answered hw mem malloc ring 0 1 descs IsDone IsDone-IsShown 1 0 7
      (omega arith) (omega arith) (omega arith) refl IsOnly-7 (omega arith) 0 nic (omega arith)
      IsWaiting-hw IsDone-toy

i40e_aqc_wait_cmd-timeout_example :
    (nic' : Nic Toy) × (i40e_aqc_wait_cmd dead mem malloc 128 7 nic ≡ some (false, nic'))
    × (nic'.session ≡ nic.session)
i40e_aqc_wait_cmd-timeout_example =
    i40e_aqc_wait_cmd-timeout dead mem malloc ring 0 128 7 nic (omega arith) IsWaiting-dead
      (dead-IsIdle cmd_timeout)

i40e_aq_init-areas_example :
    let area : ℕ × ℕ = (4096, 4096) in
    QueuesFrom system 4096 hw mem area
      (λ s. s.mapped area)
      0
      (i40e_aq_init system 4096 hw mem ring nic)
i40e_aq_init-areas_example =
    let area : ℕ × ℕ = (4096, 4096) in
    i40e_aq_init-areas system 4096 hw mem area (λ s. s.mapped area) (toy-IsCounted area) ring nic

-- the session that is to shut the queue down gets the firmware's answer
shutdown_answered :
    Option.map
      (λ r. retval_in 7 r.1.session)
      (i40e_aqc_wait_cmd hw mem malloc 128 7 (
        submit hw mem i40e_aqc_req_queue_shutdown 7
          (record nic { tx_ring = record ring { next_to_use = 0 } })))
    ≡ some 5
unfolding submit i40e_aq_asq_assign i40e_aqc_req_queue_shutdown i40e_aqc_wait_cmd
    ufp.I40e.Aq.Clean.wait i40e_aq_asq_clean i40e_aq_desc_unused ufp.I40e.Aq.next_index
    ufp.I40e.Aq.Clean.clean_one ufp.I40e.Aq.Responses.i40e_aq_asq_process ufp.I40e.Aq.command_desc
    ufp.I40e.Aq.Responses.tell find_session ufp.I40e.Aq.Sessions.change
shutdown_answered = refl
