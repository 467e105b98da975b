-- ===== src/I40e/Commands/Implementation.antt =====
-- dev/i40e: the interface of I40e/Commands, filled by the admin queues, and the sessions there.
use mathlib.Core.Path.{subst, fun_ext}
use ufp.Common.{
  ℕ, zero, suc, ◌+◌, ◌<◌, Bool, Bool-cases, if◌then◌else◌, ◌==◌, ==_refl, ==_iff, not, ◌≡◌, inl,
  inr, refl, sym, ap, ◌∙◌, arith, Option, none, some, Option-cases, List, [], ◌∷◌, ◌++◌,
}
use ufp.I40e.{Registers}
use ufp.I40e.Aq.{Shared}
use ufp.I40e.Aq.Sessions.{
  Session, Nic, Blocks, find_session, change, remove_session, Elem, set_seid_offset, no_answer,
  i40e_aq_session_create, i40e_aq_session_delete, submit,
}
use ufp.I40e.Aq.Clean.{i40e_aqc_wait_cmd, wait, i40e_aq_asq_clean, clean_one, cmd_timeout}
use ufp.I40e.Aq.Effects.{ids, ids-change, retval_in}
use ufp.I40e.Aq.Cleaned.{session_of-has}
use ufp.I40e.Aq.Answers.{asq_process-IsProcessed}
use ufp.I40e.Commands.{Commands}
use ufp.I40e.Commands.Sessions.{EndsWith, IsTracked, CreatedFrom}

abbrev pub value_in : ℕ → List (ℕ × Session) → ℕ
value_in p sessions = elim (find_session p sessions) [ none ↦ 0 | some session ↦ session.value ]

module _ {R : Type 0} (hw : Registers R) (mem : Shared R) (malloc : R → Option R) (free : R → R)
    (heap : Blocks R) (fuel garbage : ℕ) where
  unfoldable pub free_elems : List Elem → R → R
  free_elems [] s = s
  free_elems (elem ∷ rest) s = free_elems rest (free s)

  abbrev pub nic_commands : Commands (Nic R)
  nic_commands = record {
    session_create = i40e_aq_session_create heap garbage;
    session_delete = i40e_aq_session_delete heap;
    submit = submit hw mem;
    wait_cmd = i40e_aqc_wait_cmd hw mem malloc fuel;
    retval = λ p nic. retval_in p nic.session;
    read_val = λ p nic. value_in p nic.session;
    set_seid_offset =
        λ p offset nic. record nic { session = change p (set_seid_offset offset) nic.session };
    elems = λ nic. nic.elem;
    clear_elems = λ nic. record nic { elem = []; machine = free_elems nic.elem nic.machine };
  }

  -- how often an address is in the list of the sessions
  abbrev pub count : ℕ → List ℕ → ℕ
  count q [] = 0
  count q (p ∷ rest) = (if p == q then 1 else 0) + count q rest

  abbrev pub sessions : Nic R → ℕ → ℕ
  sessions nic q = count q (ids nic.session)

  abbrev pub Never : (ℕ → ℕ) → Type 0
  Never l = Unit {0}

  count-append :
      (q p : ℕ) (session : Session) (l : List (ℕ × Session))
      → count q (ids (l ++ (p, session) ∷ [])) ≡ count q (ids l) + (if p == q then 1 else 0)
  count-append q p session [] = omega arith
  count-append q p session ((r, σ) ∷ rest) = omega (arith, count-append q p session rest)

  -- an address that is in the list is in it once less
  count-remove_session :
      (q p : ℕ) (l : List (ℕ × Session))
      → 0 < count p (ids l)
      → count q (ids (remove_session p l)) + (if p == q then 1 else 0) ≡ count q (ids l)
  unfolding remove_session
  count-remove_session q p [] h = absurd (omega arith)
  count-remove_session q p ((r, σ) ∷ rest) h = elim (Bool-cases (r == p)) [
    | inl e ↦ let same : r ≡ p = (==_iff r p).0 e in rw e (ground (arith, same))
    | inr e ↦ rw e (
        let h' : 0 < count p (ids rest) = ground (arith, e) in
        ground (arith, count-remove_session q p rest h'))
  ]

  deleted-sessions :
      (p : ℕ) (session : Session) (l : List (ℕ × Session)) (t : Nic R)
      → sessions t ≡ (λ q. count q (ids (l ++ (p, session) ∷ [])))
      → sessions (i40e_aq_session_delete heap p t) ≡ (λ q. count q (ids l))
  unfolding i40e_aq_session_delete
  deleted-sessions p session l t e =
      let at_q : (q : ℕ) → count q (ids t.session) ≡ count q (ids l) + (if p == q then 1 else 0) =
        λ q. ap (λ (f : ℕ → ℕ). f q) e ∙ count-append q p session l in
      let there : 0 < count p (ids t.session) = ground (arith, at_q p, ==_refl p) in
      fun_ext (λ q. omega (arith, at_q q, count-remove_session q p t.session there))

  created-CreatedFrom :
      (nic : Nic R)
      → CreatedFrom sessions Never nic_commands
          (sessions nic)
          (i40e_aq_session_create heap garbage nic)
  unfolding i40e_aq_session_create i40e_aq_session_delete
  created-CreatedFrom nic = elim (Option-cases (heap.malloc nic.machine)) [
    | inl e ↦ rw (e, i40e_aq_session_create) refl
    | inr ((p, s), e) ↦
        let session : Session = record { retval = no_answer; value = garbage } in
        let nic' : Nic R = record nic { session = nic.session ++ (p, session) ∷ []; machine = s } in
        let e₁ : i40e_aq_session_create heap garbage nic ≡ (some p, nic') =
          rw (e, i40e_aq_session_create) in
        subst (CreatedFrom sessions Never nic_commands (sessions nic)) (sym e₁)
          (λ _. tt, λ t same. deleted-sessions p session nic.session t same)
  ]

  clean_one-ids : (nic : Nic R) → ids (clean_one hw mem malloc nic).session ≡ ids nic.session
  unfolding clean_one
  clean_one-ids nic =
      let l = nic.session in
      (asq_process-IsProcessed hw mem malloc (λ s. Unit {0})
        (record { keeps_write = λ s h. tt; keeps_malloc = λ s s' e h. tt }) _ _ _ nic
        (λ p. session_of-has _ p nic.session)).same_ids

  abbrev IdsFrom : List ℕ → Option (Nic R) → Type 0
  IdsFrom l none = Unit {0}
  IdsFrom l (some nic) = ids nic.session ≡ l

  clean-IdsFrom :
      (n : ℕ) (nic : Nic R) → IdsFrom (ids nic.session) (i40e_aq_asq_clean hw mem malloc n nic)
  unfolding i40e_aq_asq_clean
  clean-IdsFrom zero nic = tt
  clean-IdsFrom (suc n) nic =
      let nic' = record nic { machine = (hw.read32 nic.tx_ring.head nic.machine).1 } in
      elim (Bool-cases (nic.tx_ring.next_to_clean == (hw.read32 nic.tx_ring.head nic.machine).0)) [
        | inl done ↦ rw done refl
        | inr more ↦ rw more (
            subst
              (λ l. IdsFrom l (i40e_aq_asq_clean hw mem malloc n (clean_one hw mem malloc nic')))
              (clean_one-ids nic') (clean-IdsFrom n (clean_one hw mem malloc nic')))
      ]

  abbrev WaitedFrom : List ℕ → Option (Bool × Nic R) → Type 0
  WaitedFrom l none = Unit {0}
  WaitedFrom l (some (ok, nic)) = ids nic.session ≡ l

  wait-WaitedFrom :
      (timeout p : ℕ) (nic : Nic R)
      → WaitedFrom (ids nic.session) (wait hw mem malloc fuel timeout p nic)
  unfolding wait
  wait-WaitedFrom zero p nic = refl
  wait-WaitedFrom (suc timeout) p nic =
      let slept = record nic { machine = hw.usleep 1000 nic.machine } in
      let kept = clean-IdsFrom fuel slept in
      elim (Option-cases (i40e_aq_asq_clean hw mem malloc fuel slept)) [
        | inl out ↦ rw (out, wait) tt
        | inr (nic', e) ↦
            let same : ids nic'.session ≡ ids nic.session =
              subst (IdsFrom (ids nic.session)) e kept in
            elim (Bool-cases (not (retval_in p nic'.session == no_answer))) [
              | inl answered ↦ rw (e, wait) (rw answered same)
              | inr open_yet ↦
                  rw (e, wait)
                    (rw open_yet (
                      subst (λ l. WaitedFrom l (wait hw mem malloc fuel timeout p nic')) same
                        (wait-WaitedFrom timeout p nic')))
            ]
      ]

  wait_cmd-EndsWith :
      (p : ℕ) (nic : Nic R) (r : Option (Bool × Nic R))
      → WaitedFrom (ids nic.session) r
      → EndsWith sessions Never (sessions nic) r
  wait_cmd-EndsWith p nic none e = tt
  wait_cmd-EndsWith p nic (some (ok, nic')) e = ap {B = ℕ → ℕ} (λ (l : List ℕ) q. count q l) e

  -- The admin queues, with the sessions counted by their addresses: deleting a session undoes
  -- creating it, and sending a command, waiting, and clearing the elements leave the sessions.
  pub nic_commands-IsTracked : IsTracked sessions Never nic_commands
  unfolding i40e_aqc_wait_cmd submit
  nic_commands-IsTracked = record {
    tracks_create = created-CreatedFrom;
    tracks_submit = λ request p nic. refl;
    tracks_wait = λ p nic. wait_cmd-EndsWith p nic _ (wait-WaitedFrom cmd_timeout p nic);
    tracks_offset = λ p offset nic.
        ap {B = ℕ → ℕ} (λ (l : List ℕ) q. count q l)
          (ids-change p (set_seid_offset offset) nic.session);
    tracks_clear = λ nic. refl;
  }
