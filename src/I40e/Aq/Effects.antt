-- ===== src/I40e/Aq/Effects.antt =====
-- dev/i40e/i40e_aqc.c: what taking one answer changes. A device is still while its head and its
-- descriptors do not change under what the driver does when it cleans the queue.
use mathlib.Core.Option
use mathlib.Core.Path.{subst}
use ufp.Common.{
  ℕ, ◌==◌, ==_refl, if◌then◌else◌, Bool, true, false, Bool-cases, ◌≡◌, ◌≢◌, ◌⊎◌, inl, inr, refl,
  sym, ap, ◌∙◌, arith, Option, none, some, Option-cases, List, [], ◌∷◌,
}
use ufp.I40e.{Registers}
use ufp.I40e.Aq.Sessions.{Session, Nic, find_session, change, set_retval, no_answer, failed_answer}
use ufp.I40e.Aq.Responses.{tell, gllan_rctl_0}

abbrev pub has : ℕ → List (ℕ × Session) → Bool
has p sessions = elim (find_session p sessions) [ none ↦ false | some session ↦ true ]

abbrev pub retval_in : ℕ → List (ℕ × Session) → ℕ
retval_in p sessions = elim (find_session p sessions) [
  | none ↦ no_answer
  | some session ↦ session.retval
]

-- the addresses of the sessions
abbrev pub ids : List (ℕ × Session) → List ℕ
ids [] = []
ids ((p, session) ∷ rest) = p ∷ ids rest

pub ids-change :
    (q : ℕ) (f : Session → Session) (l : List (ℕ × Session)) → ids (change q f l) ≡ ids l
unfolding change
ids-change q f [] = refl
ids-change q f ((p, session) ∷ rest) = elim (Bool-cases (p == q)) [
  | inl e ↦ rw e
  | inr e ↦ rw e (ap (λ (l : List ℕ). p ∷ l) (ids-change q f rest))
]

find_session-change :
    (p q : ℕ) (f : Session → Session) (l : List (ℕ × Session))
    → find_session p (change q f l)
      ≡ (if q == p then Option.map f (find_session p l) else find_session p l)
unfolding find_session change
find_session-change p q f [] = ground arith
find_session-change p q f ((r, session) ∷ rest) = ground (arith, find_session-change p q f rest)

pub has-change :
    (p q : ℕ) (f : Session → Session) (l : List (ℕ × Session)) → has p (change q f l) ≡ has p l
has-change p q f l = ground (arith, find_session-change p q f l)

-- no field of a session but its `retval`
abbrev pub KeepsRetval : (f : Session → Session) → Type 0
KeepsRetval f = (session : Session) → (f session).retval ≡ session.retval

retval-change :
    (p q : ℕ) (f : Session → Session) (l : List (ℕ × Session))
    → KeepsRetval f
    → retval_in p (change q f l) ≡ retval_in p l
retval-change p q f l kept = elim (Option-cases (find_session p l)) [
  | inl e ↦ ground (arith, find_session-change p q f l, e)
  | inr (session, e) ↦ ground (arith, find_session-change p q f l, e, kept session)
]

pub retval-change_set :
    (p v : ℕ) (l : List (ℕ × Session))
    → has p l ≡ true
    → retval_in p (change p (set_retval v) l) ≡ v
retval-change_set p v l h = elim (Option-cases (find_session p l)) [
  | inl e ↦ ground (arith, e)
  | inr (session, e) ↦ ground (arith, find_session-change p p (set_retval v) l, e, ==_refl p)
]

pub retval-change_ne :
    (p q : ℕ) (f : Session → Session) (l : List (ℕ × Session))
    → q ≢ p
    → retval_in p (change q f l) ≡ retval_in p l
retval-change_ne p q f l ne = ground (arith, find_session-change p q f l)

module _ {R : Type 0} (hw : Registers R) (malloc : R → Option R) where
  -- Cleaning the queue does not change what `still` says of the device.
  pub record IsStill (still : R → Type 0) : Type 0 where
    pub keeps_write : (s : R) → still s → still (hw.write32 gllan_rctl_0 1 s)
    pub keeps_malloc : (s s' : R) → malloc s ≡ some s' → still s → still s'

-- What an answer changes: the queues stay, the sessions stay but for their contents, and the
-- `retval` of the session that it is for is the one given, or stays, and that of others stays.
pub record IsAnswer {R : Type 0} (still : R → Type 0) (session : Option ℕ) (nic nic' : Nic R)
    : Type 0 where
  pub same_ring : nic'.tx_ring ≡ nic.tx_ring
  pub same_rx_ring : nic'.rx_ring ≡ nic.rx_ring
  pub same_sessions : (p : ℕ) → has p nic'.session ≡ has p nic.session
  pub same_ids : ids nic'.session ≡ ids nic.session
  pub keeps_still : still nic.machine → still nic'.machine
  pub same_retval : (p : ℕ) → session ≢ some p → retval_in p nic'.session ≡ retval_in p nic.session
  pub own_retval :
      (p : ℕ)
      → session ≡ some p
      → (retval_in p nic'.session ≡ retval_in p nic.session)
        ⊎ (retval_in p nic'.session ≡ failed_answer)

module _ {R : Type 0} (still : R → Type 0) (session : Option ℕ) (nic : Nic R) where
  -- an answer that writes no session
  pub silent-IsAnswer :
      (nic' : Nic R)
      → nic'.tx_ring ≡ nic.tx_ring
      → nic'.rx_ring ≡ nic.rx_ring
      → nic'.session ≡ nic.session
      → (still nic.machine → still nic'.machine)
      → IsAnswer still session nic nic'
  silent-IsAnswer nic' e rx e' keeps = record {
    same_ring = e;
    same_rx_ring = rx;
    same_sessions = λ p. ap (has p) e';
    same_ids = ap ids e';
    keeps_still = keeps;
    same_retval = λ p ne. ap (retval_in p) e';
    own_retval = λ p own. inl (ap (retval_in p) e');
  }

-- an answer that then writes another field of its session
pub value-IsAnswer :
    {R : Type 0} (still : R → Type 0) (session : Option ℕ) (f : Session → Session)
    (nic nic' : Nic R)
    → KeepsRetval f
    → IsAnswer still session nic nic'
    → IsAnswer still session nic (tell session f nic')
unfolding tell
value-IsAnswer still none f nic nic' kept a = a
value-IsAnswer still (some q) f nic nic' kept a = record {
  same_ring = a.same_ring;
  same_rx_ring = a.same_rx_ring;
  same_sessions = λ p. has-change p q f nic'.session ∙ a.same_sessions p;
  same_ids = ids-change q f nic'.session ∙ a.same_ids;
  keeps_still = a.keeps_still;
  same_retval = λ p ne. retval-change p q f nic'.session kept ∙ a.same_retval p ne;
  own_retval = λ p own.
      subst (λ v. (v ≡ retval_in p nic.session) ⊎ (v ≡ failed_answer))
        (sym (retval-change p q f nic'.session kept)) (a.own_retval p own);
}

-- an answer that then fails its session
pub failed_session :
    {R : Type 0} (still : R → Type 0) (session : Option ℕ) (nic nic' : Nic R)
    → ((p : ℕ) → session ≡ some p → has p nic.session ≡ true)
    → nic'.tx_ring ≡ nic.tx_ring
    → nic'.rx_ring ≡ nic.rx_ring
    → nic'.session ≡ nic.session
    → (still nic.machine → still nic'.machine)
    → IsAnswer still session nic (tell session (set_retval failed_answer) nic')
unfolding tell
failed_session still none nic nic' listed e rx e' keeps =
    silent-IsAnswer still none nic nic' e rx e' keeps
failed_session still (some q) nic nic' listed e rx e' keeps = record {
  same_ring = e;
  same_rx_ring = rx;
  same_sessions = λ p. has-change p q (set_retval failed_answer) nic'.session ∙ ap (has p) e';
  same_ids = ids-change q (set_retval failed_answer) nic'.session ∙ ap ids e';
  keeps_still = keeps;
  same_retval = λ p ne.
      retval-change_ne p q (set_retval failed_answer) nic'.session (λ same. ne (ap some same))
      ∙ ap (retval_in p) e';
  own_retval = λ p own. inr (
      subst (λ r. retval_in p (change r (set_retval failed_answer) nic'.session) ≡ failed_answer)
        (cc) (retval-change_set p failed_answer nic'.session (ap (has p) e' ∙ listed p own)));
}
