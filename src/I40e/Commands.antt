-- ===== src/I40e/Commands.antt =====
-- dev/i40e: what the set-up of the device uses of the admin queues, as an interface, and the shape
-- that each command has: a session is opened, the command is sent and waited for, and the session is
-- deleted on every way out.
pub mod Sessions
pub mod Implementation
use ufp.Common.{ℕ, Bool, true, false, ◌==◌, if◌then◌else◌, Option, none, some, List}
use mathlib.Core.Bool.{◌||◌}
use ufp.I40e.Aq.Requests.{Request}
use ufp.I40e.Aq.Sessions.{Elem}

-- `none`: the wait did not return.
pub record Commands (S : Type 0) : Type 0 where
  pub session_create : S → Option ℕ × S
  pub session_delete : ℕ → S → S
  pub submit : Request → ℕ → S → S
  pub wait_cmd : ℕ → S → Option (Bool × S)
  pub retval : ℕ → S → ℕ
  pub read_val : ℕ → S → ℕ
  pub set_seid_offset : ℕ → ℕ → S → S
  pub elems : S → List Elem
  pub clear_elems : S → S

-- An action that may fail (inner `none`, the code's -1) and that may not return (outer `none`). The
-- state comes back after a failure too.
abbrev pub Run : Type 0 → Type 0 → Type 0
Run S A = S → Option (Option A × S)

module _ {S : Type 0} where
  abbrev pub pure : {A : Type 0} → A → Run S A
  pure a s = some (some a, s)

  abbrev pub fail : {A : Type 0} → Run S A
  fail s = some (none, s)

  abbrev pub gets : {A : Type 0} → (S → A) → Run S A
  gets f s = some (some (f s), s)

  abbrev pub modify : (S → S) → Run S (Unit {0})
  modify f s = some (some tt, f s)

  -- a step that tells whether it succeeded
  abbrev pub check : Bool → Run S (Unit {0})
  check true s = some (some tt, s)
  check false s = some (none, s)

  abbrev pub attempt : (S → Bool × S) → Run S (Unit {0})
  attempt f s = let (ok, s') = f s in check ok s'

  abbrev pub bind : {A B : Type 0} → Option (Option A × S) → (A → Run S B) → Option (Option B × S)
  bind none f = none
  bind (some (none, s)) f = some (none, s)
  bind (some (some a, s)) f = f a s

infixl 5 ◌>>=◌ ◌>>◌
abbrev pub ◌>>=◌ : {S A B : Type 0} → Run S A → (A → Run S B) → Run S B
◌>>=◌ m f s = bind (m s) f

abbrev pub ◌>>◌ : {S A B : Type 0} → Run S A → Run S B → Run S B
m >> k = m >>= λ _. k

module _ {S : Type 0} where
  -- what a function does behind an `err_` label before it returns -1
  abbrev pub cleaned_up : {A : Type 0} → (S → S) → Option (Option A × S) → Option (Option A × S)
  cleaned_up undo none = none
  cleaned_up undo (some (none, s)) = some (none, undo s)
  cleaned_up undo (some (some a, s)) = some (some a, s)

  abbrev pub on_failure : {A : Type 0} → Run S A → (S → S) → Run S A
  on_failure m undo s = cleaned_up undo (m s)

module _ {S : Type 0} (commands : Commands S) where
  open commands use {session_create, session_delete, submit, wait_cmd, retval}

  abbrev pub deleted : {A : Type 0} → ℕ → Option (Option A × S) → Option (Option A × S)
  deleted p none = none
  deleted p (some (r, s)) = some (r, session_delete p s)

  abbrev pub created : {A : Type 0} → (ℕ → Run S A) → Option ℕ × S → Option (Option A × S)
  created body (none, s) = some (none, s)
  created body (some p, s) = deleted p (body p s)

  -- from `i40e_aq_session_create` to `i40e_aq_session_delete`
  abbrev pub with_session : {A : Type 0} → (ℕ → Run S A) → Run S A
  with_session body s = created body (session_create s)

  abbrev pub waited : Option (Bool × S) → Option (Option (Unit {0}) × S)
  waited none = none
  waited (some (ok, s)) = check ok s

  -- The command is sent and waited for, and the firmware's answer must be one of those that are
  -- taken. The result is that answer.
  abbrev pub ask : (taken : ℕ → Bool) → Request → ℕ → Run S ℕ
  ask taken request p = do
    modify (submit request p)
    (λ s. waited (wait_cmd p s))
    answer ← gets (retval p)
    check (taken answer)
    pure answer

  abbrev pub done : ℕ → Run S (Unit {0})
  done answer = pure tt

  -- the functions that send one command
  abbrev pub command : (taken : ℕ → Bool) → Request → Run S (Unit {0})
  command taken request = with_session (λ p. ask taken request p >>= done)

-- `I40E_AQ_RC_OK`
abbrev pub rc_ok : ℕ → Bool
rc_ok answer = answer == 0

-- OK or `I40E_AQ_RC_EPERM`, `I40E_AQ_RC_ESRCH`, `I40E_AQ_RC_EEXIST`
abbrev pub rc_ok_or_eperm : ℕ → Bool
rc_ok_or_eperm answer = (answer == 0) || (answer == 1)

abbrev pub rc_ok_or_esrch : ℕ → Bool
rc_ok_or_esrch answer = (answer == 0) || (answer == 3)

abbrev pub rc_ok_or_eexist : ℕ → Bool
rc_ok_or_eexist answer = (answer == 0) || (answer == 13)
