-- ===== src/I40e/Commands/Sessions.antt =====
-- dev/i40e: every function that sends commands deletes the sessions that it creates.
use mathlib.Core.Path.{subst}
use ufp.Common.{ℕ, Bool, true, false, if◌then◌else◌, ◌≡◌, refl, ◌∙◌, Option, none, some}
use ufp.I40e.Aq.Requests.{Request}
use ufp.I40e.Commands.{
  Commands, Run, pure, gets, modify, check, attempt, bind, ◌>>=◌, cleaned_up, on_failure, deleted,
  created, with_session, waited, ask, command,
}

-- `sessions` tells which sessions there are, and `never` what an action that does not return shows of
-- those before it.
module _ {S C : Type 0} (sessions : S → C) (never : C → Type 0) where
  -- what an action leaves where `l` are the sessions before it
  abbrev pub EndsWith : {A : Type 0} → (l : C) → Option (A × S) → Type 0
  EndsWith l none = never l
  EndsWith l (some (r, s)) = sessions s ≡ l

  -- An action that returns, with success or not, leaves the sessions that it found.
  pub record IsBalanced {A : Type 0} (m : Run S A) : Type 0 where
    pub balanced : (s : S) → EndsWith (sessions s) (m s)

  pub keeps-IsBalanced :
      {A : Type 0} (r : S → Option A) (f : S → S)
      → ((s : S) → sessions (f s) ≡ sessions s)
      → IsBalanced (λ s. some (r s, f s))
  keeps-IsBalanced r f kept = record { balanced = kept }

  bind-EndsWith :
      {A B : Type 0} (l : C) (r : Option (Option A × S)) (f : A → Run S B)
      → EndsWith l r
      → ((a : A) → IsBalanced (f a))
      → EndsWith l (bind r f)
  bind-EndsWith l none f e later = e
  bind-EndsWith l (some (none, s)) f e later = e
  bind-EndsWith l (some (some a, s)) f e later =
      subst (λ k. EndsWith k (f a s)) e ((later a).balanced s)

  pub bind-IsBalanced :
      {A B : Type 0} (m : Run S A) (f : A → Run S B)
      → IsBalanced m
      → ((a : A) → IsBalanced (f a))
      → IsBalanced (m >>= f)
  bind-IsBalanced m f b later = record {
    balanced = λ s. bind-EndsWith (sessions s) (m s) f (b.balanced s) later;
  }

  pub pure-IsBalanced : {A : Type 0} (a : A) → IsBalanced (pure a)
  pure-IsBalanced a = record { balanced = λ s. refl }

  pub gets-IsBalanced : {A : Type 0} (f : S → A) → IsBalanced (gets f)
  gets-IsBalanced f = record { balanced = λ s. refl }

  pub modify-IsBalanced :
      (f : S → S) → ((s : S) → sessions (f s) ≡ sessions s) → IsBalanced (modify f)
  modify-IsBalanced f kept = record { balanced = kept }

  check-EndsWith : (b : Bool) (s : S) → EndsWith (sessions s) (check b s)
  check-EndsWith true s = refl
  check-EndsWith false s = refl

  pub check-IsBalanced : (b : Bool) → IsBalanced (check b)
  check-IsBalanced b = record { balanced = check-EndsWith b }

  pub if-IsBalanced :
      {A : Type 0} (b : Bool) (m k : Run S A)
      → IsBalanced m
      → IsBalanced k
      → IsBalanced (if b then m else k)
  if-IsBalanced true m k a a' = a
  if-IsBalanced false m k a a' = a'

  pub attempt-IsBalanced :
      (f : S → Bool × S) → ((s : S) → sessions (f s).1 ≡ sessions s) → IsBalanced (attempt f)
  attempt-IsBalanced f kept = record {
    balanced = λ s.
        subst (λ l. EndsWith l (check (f s).0 (f s).1)) (kept s) (check-EndsWith (f s).0 (f s).1);
  }

  cleaned_up-EndsWith :
      {A : Type 0} (undo : S → S) (l : C) (r : Option (Option A × S))
      → ((s : S) → sessions (undo s) ≡ sessions s)
      → EndsWith l r
      → EndsWith l (cleaned_up undo r)
  cleaned_up-EndsWith undo l none kept e = e
  cleaned_up-EndsWith undo l (some (none, s)) kept e = kept s ∙ e
  cleaned_up-EndsWith undo l (some (some a, s)) kept e = e

  pub on_failure-IsBalanced :
      {A : Type 0} (m : Run S A) (undo : S → S)
      → IsBalanced m
      → ((s : S) → sessions (undo s) ≡ sessions s)
      → IsBalanced (on_failure m undo)
  on_failure-IsBalanced m undo b kept = record {
    balanced = λ s. cleaned_up-EndsWith undo (sessions s) (m s) kept (b.balanced s);
  }

  module _ (commands : Commands S) where
    -- a session that was created, where `l` were the sessions before
    abbrev pub CreatedFrom : (l : C) → Option ℕ × S → Type 0
    CreatedFrom l (none, s) = sessions s ≡ l
    CreatedFrom l (some p, s) =
        (never (sessions s) → never l)
        × ((t : S) → sessions t ≡ sessions s → sessions (commands.session_delete p t) ≡ l)

    -- Deleting a session undoes creating it, and no other operation creates or deletes any.
    pub record IsTracked : Type 0 where
      pub tracks_create : (s : S) → CreatedFrom (sessions s) (commands.session_create s)
      pub tracks_submit :
          (request : Request) (p : ℕ) (s : S) → sessions (commands.submit request p s) ≡ sessions s
      pub tracks_wait : (p : ℕ) (s : S) → EndsWith (sessions s) (commands.wait_cmd p s)
      pub tracks_offset :
          (p offset : ℕ) (s : S) → sessions (commands.set_seid_offset p offset s) ≡ sessions s
      pub tracks_clear : (s : S) → sessions (commands.clear_elems s) ≡ sessions s

    module _ (laws : IsTracked) where
      deleted-EndsWith :
          {A : Type 0} (l : C) (p : ℕ) (s : S) (r : Option (Option A × S))
          → CreatedFrom l (some p, s)
          → EndsWith (sessions s) r
          → EndsWith l (deleted commands p r)
      deleted-EndsWith l p s none (stuck, undo) e = stuck e
      deleted-EndsWith l p s (some (r, t)) (stuck, undo) e = undo t e

      created-EndsWith :
          {A : Type 0} (l : C) (body : ℕ → Run S A) (r : Option ℕ × S)
          → CreatedFrom l r
          → ((p : ℕ) → IsBalanced (body p))
          → EndsWith l (created commands body r)
      created-EndsWith l body (none, s) e b = e
      created-EndsWith l body (some p, s) undo b =
          deleted-EndsWith l p s (body p s) undo ((b p).balanced s)

      pub with_session-IsBalanced :
          {A : Type 0} (body : ℕ → Run S A)
          → ((p : ℕ) → IsBalanced (body p))
          → IsBalanced (with_session commands body)
      with_session-IsBalanced body b = record {
        balanced = λ s.
            created-EndsWith (sessions s) body (commands.session_create s) (laws.tracks_create s) b;
      }

      waited-EndsWith :
          (l : C) (r : Option (Bool × S)) → EndsWith l r → EndsWith l (waited commands r)
      waited-EndsWith l none e = e
      waited-EndsWith l (some (ok, s)) e =
          subst (λ k. EndsWith k (check ok s)) e (check-EndsWith ok s)

      pub ask-IsBalanced :
          (taken : ℕ → Bool) (request : Request) (p : ℕ) → IsBalanced (ask commands taken request p)
      ask-IsBalanced taken request p =
          bind-IsBalanced _ _
            (modify-IsBalanced (commands.submit request p) (laws.tracks_submit request p))
            (λ _.
              bind-IsBalanced _ _
                (record {
                  balanced = λ s.
                      waited-EndsWith (sessions s) (commands.wait_cmd p s) (laws.tracks_wait p s);
                })
                (λ _. bind-IsBalanced _ _ (gets-IsBalanced (commands.retval p)) (λ answer.
                  bind-IsBalanced _ _ (check-IsBalanced (taken answer))
                    (λ _. pure-IsBalanced answer))))

      pub command-IsBalanced :
          (taken : ℕ → Bool) (request : Request) → IsBalanced (command commands taken request)
      command-IsBalanced taken request =
          with_session-IsBalanced _
            (λ p. bind-IsBalanced _ _ (ask-IsBalanced taken request p) (λ _. pure-IsBalanced tt))
