-- ===== src/Process/Balance.antt =====
-- src/main.c: what the process gets it gives back, whichever step of its start fails.
use ufp.Common.{
  ℕ, zero, suc, ◌+◌, Bool, true, false, ◌≡◌, refl, arith, Option, none, some, List, [], ◌∷◌,
}
use ufp.Args.{max_ifs, max_args, Numbers}
use ufp.Args.Options.{Ufpd, Opt, put, each, each_back, ufpd_parse_args, free_argbuf}
use ufp.Process.{
  UfpdThread, Ret, Calls, is_negative, killed_if, released_if, ufpd_device_init,
  ufpd_device_destroy, ufpd_thread_kill, ufpd_thread_create, ufpd_set_signal, with_up, with_device,
  with_buf, with_plane, with_tid, add_then, wait_signal, kill_threads, with_signals, run_threads,
  destroy_devices, run_devices, destroy_mpools, run_mpools, with_array, run_arrays, run_parsed,
  run_named, free_names, defaults, main, ufpd_set_mempolicy,
}
use ufp.Process.Ledger.{
  Thing, block, pool, opened, running, buffers, plane, count, Booked, opening, book_if, book_up,
  booked,
}

-- `pthread_setaffinity_np` returns 0 or the number of an error, which is positive.
abbrev pub IsPosix : {S : Type 0} → Calls S → Type 0
IsPosix {S = S} calls =
    (tid core : ℕ) (s : S) → is_negative (calls.pthread_setaffinity_np tid core s).0 ≡ false

unfoldable sum : {A : Type 0} (w : A → ℕ) → List A → ℕ
sum w [] = 0
sum w (h ∷ hs) = w h + sum w hs

module _ {S : Type 0} (q : Thing) where
  -- the thing was got `a` times more than it was given back
  abbrev Owed : (a : ℕ) → Booked S → Type 0
  Owed a b = b.got q ≡ b.gone q + a

  -- what a step leaves that gets something or fails
  abbrev AddsTo : {A : Type 0} → (w : A → ℕ) (a : ℕ) → Option A × Booked S → Type 0
  AddsTo w a (none, b) = Owed a b
  AddsTo w a (some x, b) = Owed (a + w x) b

  abbrev EachFrom : {A : Type 0} → (w : A → ℕ) (a : ℕ) → Bool × List A × Booked S → Type 0
  EachFrom w a (ok, hs, b) = Owed (a + sum w hs) b

  each_put-EachFrom :
      {A : Type 0} (w : A → ℕ) (a : ℕ) (h : A) (r : Bool × List A × Booked S)
      → EachFrom w (a + w h) r
      → EachFrom w a (put h r)
  unfolding sum
  each_put-EachFrom w a h (ok, hs, b) e = omega arith

  each_one-EachFrom :
      {A : Type 0} (one : ℕ → Booked S → Option A × Booked S) (w : A → ℕ) (n i a : ℕ)
      (r : Option A × Booked S)
      → AddsTo w a r
      → ((a : ℕ) (b : Booked S) → Owed a b → EachFrom w a (each one n (suc i) b))
      → EachFrom w a (elim r.0 as (λ x. Bool × List A × Booked S) [
        | none ↦ (false, [], r.1)
        | some h ↦ put h (each one n (suc i) r.1)
      ])
  unfolding sum
  each_one-EachFrom one w n i a (none, b) e later = omega arith
  each_one-EachFrom one w n i a (some h, b) e later =
      each_put-EachFrom w a h (each one n (suc i) b) (later (a + w h) b e)

  each-EachFrom :
      {A : Type 0} (one : ℕ → Booked S → Option A × Booked S) (w : A → ℕ) (n i a : ℕ) (b : Booked S)
      → ((i a : ℕ) (b : Booked S) → Owed a b → AddsTo w a (one i b))
      → Owed a b
      → EachFrom w a (each one n i b)
  unfolding each sum
  each-EachFrom one w zero i a b adds e = omega arith
  each-EachFrom one w (suc n) i a b adds e =
      each_one-EachFrom one w n i a (one i b) (adds i a b e)
        (λ a' b' e'. each-EachFrom one w n (suc i) a' b' adds e')

  each_back-Owed :
      {A : Type 0} (one : A → Booked S → Booked S) (w : A → ℕ) (hs : List A) (a : ℕ) (b : Booked S)
      → ((h : A) (a : ℕ) (b : Booked S) → Owed (a + w h) b → Owed a (one h b))
      → Owed (a + sum w hs) b
      → Owed a (each_back one hs b)
  unfolding each_back sum
  each_back-Owed one w [] a b takes e = omega arith
  each_back-Owed one w (h ∷ hs) a b takes e =
      each_back-Owed one w hs a (one h b) takes (takes h (a + sum w hs) b (omega arith))

  book_if-AddsTo :
      (thing : ℕ → Thing) (a : ℕ) (r : Option ℕ × Booked S)
      → Owed a r.1
      → AddsTo (λ h. count q (thing h)) a (book_if thing r)
  book_if-AddsTo thing a (none, b) e = e
  book_if-AddsTo thing a (some h, b) e = omega arith

  module _ (calls : Calls S) (posix : IsPosix calls) where
    abbrev c : Calls (Booked S)
    c = booked calls

    abbrev of_block : ℕ → ℕ
    of_block h = count q (block h)

    abbrev of_device : ℕ → ℕ
    of_device h = count q (opened h) + count q (running h)

    abbrev of_thread : UfpdThread → ℕ
    of_thread thread = count q (buffers thread.buf) + count q (plane thread.plane)

    malloc-AddsTo : (a : ℕ) (b : Booked S) → Owed a b → AddsTo of_block a (c.malloc b)
    malloc-AddsTo a b e = book_if-AddsTo block a _ e

    free-Owed : (h a : ℕ) (b : Booked S) → Owed (a + of_block h) b → Owed a (c.free h b)
    free-Owed h a b e = omega arith

    destroy_device-Owed :
        (h a : ℕ) (b : Booked S) → Owed (a + of_device h) b → Owed a (ufpd_device_destroy c h b)
    unfolding ufpd_device_destroy
    destroy_device-Owed h a b e = omega arith

    with_up-AddsTo :
        (dev a : ℕ) (r : Bool × Booked S)
        → Owed (a + count q (opened dev)) r.1
        → AddsTo of_device a (with_up c dev (book_up dev r))
    with_up-AddsTo dev a (true, b) e = omega arith
    with_up-AddsTo dev a (false, b) e = omega arith

    with_device-AddsTo :
        (ufpd : Ufpd) (mpools : List ℕ) (a : ℕ) (r : Option ℕ × Booked S)
        → AddsTo (λ h. count q (opened h)) a r
        → AddsTo of_device a (with_device c ufpd mpools r)
    with_device-AddsTo ufpd mpools a (none, b) e = e
    with_device-AddsTo ufpd mpools a (some dev, b) e = with_up-AddsTo dev a _ e

    device_init-AddsTo :
        (ufpd : Ufpd) (mpools : List ℕ) (i a : ℕ) (b : Booked S)
        → Owed a b
        → AddsTo of_device a (ufpd_device_init c ufpd mpools i b)
    unfolding ufpd_device_init
    device_init-AddsTo ufpd mpools i a b e =
        with_device-AddsTo ufpd mpools a _ (book_if-AddsTo opened a _ e)

    thread_kill-Owed :
        (thread : UfpdThread) (a : ℕ) (b : Booked S)
        → Owed (a + of_thread thread) b
        → Owed a (ufpd_thread_kill c thread b)
    unfolding ufpd_thread_kill
    thread_kill-Owed thread a b e = omega arith

    killed_if-AddsTo :
        (negative : Bool) (thread : UfpdThread) (a : ℕ) (b : Booked S)
        → negative ≡ false
        → Owed (a + of_thread thread) b
        → AddsTo of_thread a (killed_if c negative thread b)
    killed_if-AddsTo true thread a b fine e = absurd (cc fine)
    killed_if-AddsTo false thread a b fine e = e

    released_if-AddsTo :
        (negative : Bool) (thread : UfpdThread) (core_id a : ℕ) (b : Booked S)
        → Owed (a + of_thread thread) b
        → AddsTo of_thread a (released_if c negative thread core_id b)
    released_if-AddsTo true thread core_id a b e = omega arith
    released_if-AddsTo false thread core_id a b e =
        killed_if-AddsTo (is_negative (calls.pthread_setaffinity_np thread.tid core_id b.state).0)
          thread a _ (posix thread.tid core_id b.state) e

    with_tid-AddsTo :
        (core_id buf p a : ℕ) (r : ℕ × ℕ × Booked S)
        → Owed (a + (count q (buffers buf) + count q (plane p))) r.2
        → AddsTo of_thread a (with_tid c core_id buf p r)
    with_tid-AddsTo core_id buf p a (err, tid, b) e =
        released_if-AddsTo (is_negative err) (record { tid = tid; buf = buf; plane = p }) core_id a
          b e

    with_plane-AddsTo :
        (thread_id core_id buf a : ℕ) (r : Option ℕ × Booked S)
        → AddsTo (λ h. count q (plane h)) (a + count q (buffers buf)) r
        → AddsTo of_thread a (with_plane c thread_id core_id buf r)
    with_plane-AddsTo thread_id core_id buf a (none, b) e = omega arith
    with_plane-AddsTo thread_id core_id buf a (some p, b) e =
        with_tid-AddsTo core_id buf p a (c.pthread_create thread_id b) (omega arith)

    with_buf-AddsTo :
        (ufpd : Ufpd) (devs : List ℕ) (thread_id a : ℕ) (r : Option ℕ × Booked S)
        → AddsTo (λ h. count q (buffers h)) a r
        → AddsTo of_thread a (with_buf c ufpd devs thread_id r)
    with_buf-AddsTo ufpd devs thread_id a (none, b) e = e
    with_buf-AddsTo ufpd devs thread_id a (some buf, b) e =
        with_plane-AddsTo thread_id (ufpd.cores thread_id) buf a _ (book_if-AddsTo plane _ _ e)

    thread_create-AddsTo :
        (ufpd : Ufpd) (devs mpools : List ℕ) (i a : ℕ) (b : Booked S)
        → Owed a b
        → AddsTo of_thread a (ufpd_thread_create c ufpd devs mpools i b)
    unfolding ufpd_thread_create
    thread_create-AddsTo ufpd devs mpools i a b e =
        with_buf-AddsTo ufpd devs i a _ (book_if-AddsTo buffers a _ e)

    add_then-Owed :
        (a : ℕ) (r : Bool × Booked S) (f : Booked S → Bool × Booked S)
        → ((b : Booked S) → Owed a b → Owed a (f b).1)
        → Owed a r.1
        → Owed a (add_then c r f).1
    add_then-Owed a (true, b) f kept e = kept b e
    add_then-Owed a (false, b) f kept e = e

    set_signal-Owed : (a : ℕ) (b : Booked S) → Owed a b → Owed a (ufpd_set_signal c b).1
    unfolding ufpd_set_signal
    set_signal-Owed a b e =
        let f₃ : Booked S → Bool × Booked S = λ b. add_then c (c.sigaddset 15 b) c.mask_signals in
        let f₂ : Booked S → Bool × Booked S = λ b. add_then c (c.sigaddset 2 b) f₃ in
        let f₁ : Booked S → Bool × Booked S = λ b. add_then c (c.sigaddset 1 b) f₂ in
        add_then-Owed a (c.sigaddset 10 b) f₁
          (λ b₁. add_then-Owed a (c.sigaddset 1 b₁) f₂ (λ b₂.
            add_then-Owed a (c.sigaddset 2 b₂) f₃
              (λ b₃. add_then-Owed a (c.sigaddset 15 b₃) c.mask_signals (λ b₄ e₄. e₄))))
          e

    wait_signal-Owed : (a : ℕ) (ok : Bool) (b : Booked S) → Owed a b → Owed a (wait_signal c ok b).1
    wait_signal-Owed a true b e = e
    wait_signal-Owed a false b e = e

    kill_threads-Owed :
        (a : ℕ) (r : Bool × List UfpdThread × Booked S)
        → EachFrom of_thread a r
        → Owed a (kill_threads c r).1
    kill_threads-Owed a (ok, threads, b) e =
        each_back-Owed (ufpd_thread_kill c) of_thread threads a (wait_signal c ok b).1
          thread_kill-Owed (wait_signal-Owed _ ok b e)

    with_signals-Owed :
        (ufpd : Ufpd) (devs mpools : List ℕ) (a : ℕ) (r : Bool × Booked S)
        → Owed a r.1
        → Owed a (with_signals c ufpd devs mpools r).1
    with_signals-Owed ufpd devs mpools a (false, b) e = e
    with_signals-Owed ufpd devs mpools a (true, b) e =
        kill_threads-Owed a (each (ufpd_thread_create c ufpd devs mpools) ufpd.num_threads 0 b) (
          each-EachFrom (ufpd_thread_create c ufpd devs mpools) of_thread ufpd.num_threads 0 a b
            (thread_create-AddsTo ufpd devs mpools) e)

    run_threads-Owed :
        (ufpd : Ufpd) (devs mpools : List ℕ) (ok : Bool) (a : ℕ) (b : Booked S)
        → Owed a b
        → Owed a (run_threads c ufpd devs mpools ok b).1
    run_threads-Owed ufpd devs mpools false a b e = e
    run_threads-Owed ufpd devs mpools true a b e =
        with_signals-Owed ufpd devs mpools a (ufpd_set_signal c b) (set_signal-Owed a b e)

    destroy_devices-Owed :
        (ufpd : Ufpd) (mpools : List ℕ) (a : ℕ) (r : Bool × List ℕ × Booked S)
        → EachFrom of_device a r
        → Owed a (destroy_devices c ufpd mpools r).1
    destroy_devices-Owed ufpd mpools a (ok, devs, b) e =
        each_back-Owed (ufpd_device_destroy c) of_device devs a
          (run_threads c ufpd devs mpools ok b).1 destroy_device-Owed
          (run_threads-Owed ufpd devs mpools ok _ b e)

    run_devices-Owed :
        (ufpd : Ufpd) (mpools : List ℕ) (ok : Bool) (a : ℕ) (b : Booked S)
        → Owed a b
        → Owed a (run_devices c ufpd mpools ok b).1
    run_devices-Owed ufpd mpools false a b e = e
    run_devices-Owed ufpd mpools true a b e =
        destroy_devices-Owed ufpd mpools a
          (each (ufpd_device_init c ufpd mpools) ufpd.num_devices 0 b)
          (each-EachFrom (ufpd_device_init c ufpd mpools) of_device ufpd.num_devices 0 a b
            (device_init-AddsTo ufpd mpools) e)

    destroy_mpools-Owed :
        (ufpd : Ufpd) (a : ℕ) (r : Bool × List ℕ × Booked S)
        → EachFrom (λ h. count q (pool h)) a r
        → Owed a (destroy_mpools c ufpd r).1
    destroy_mpools-Owed ufpd a (ok, mpools, b) e =
        each_back-Owed c.ufp_mpool_destroy (λ h. count q (pool h)) mpools a
          (run_devices c ufpd mpools ok b).1 (λ h a b e. omega arith)
          (run_devices-Owed ufpd mpools ok _ b e)

    run_mpools-Owed :
        (ufpd : Ufpd) (a : ℕ) (b : Booked S) → Owed a b → Owed a (run_mpools c ufpd b).1
    unfolding run_mpools
    run_mpools-Owed ufpd a b e =
        destroy_mpools-Owed ufpd a (each (λ i. c.ufp_mpool_init) ufpd.num_threads 0 b) (
          each-EachFrom (λ i. c.ufp_mpool_init) (λ h. count q (pool h)) ufpd.num_threads 0 a b
            (λ i a b e. book_if-AddsTo pool a _ e) e)

    with_array-Owed :
        (next : Booked S → Ret × Booked S) (a : ℕ) (r : Option ℕ × Booked S)
        → ((a : ℕ) (b : Booked S) → Owed a b → Owed a (next b).1)
        → AddsTo of_block a r
        → Owed a (with_array c next r).1
    with_array-Owed next a (none, b) kept e = e
    with_array-Owed next a (some array, b) kept e =
        free-Owed array a (next b).1 (kept (a + of_block array) b e)

    run_arrays-Owed :
        (ufpd : Ufpd) (a : ℕ) (r : Bool × Booked S) → Owed a r.1 → Owed a (run_arrays c ufpd r).1
    run_arrays-Owed ufpd a (false, b) e = e
    run_arrays-Owed ufpd a (true, b) e =
        with_array-Owed _ a (c.malloc b)
          (λ a₁ b₁ e₁.
            with_array-Owed _ a₁ (c.malloc b₁)
              (λ a₂ b₂ e₂.
                with_array-Owed (run_mpools c ufpd) a₂ (c.malloc b₂) (run_mpools-Owed ufpd)
                  (malloc-AddsTo a₂ b₂ e₂))
              (malloc-AddsTo a₁ b₁ e₁))
          (malloc-AddsTo a b e)

    run_parsed-Owed : (a : ℕ) (r : Option Ufpd × Booked S) → Owed a r.1 → Owed a (run_parsed c r).1
    run_parsed-Owed a (none, b) e = e
    run_parsed-Owed a (some ufpd, b) e =
        run_arrays-Owed ufpd a (ufpd_set_mempolicy c ufpd.numa_node (c.openlog b)) e

    module _ (numbers : Numbers) (opts : List Opt) where
      free_argbuf-Owed :
          (ufpd : Ufpd) (a : ℕ) (r : Bool × List ℕ × Booked S)
          → EachFrom of_block a r
          → Owed a (free_argbuf numbers c.malloc c.free opts ufpd r).1
      free_argbuf-Owed ufpd a (ok, argbuf, b) e =
          each_back-Owed c.free of_block argbuf a b free-Owed e

      parse_args-Owed :
          (ufpd : Ufpd) (a : ℕ) (b : Booked S)
          → Owed a b
          → Owed a (ufpd_parse_args numbers c.malloc c.free opts ufpd b).1
      unfolding ufpd_parse_args
      parse_args-Owed ufpd a b e =
          free_argbuf-Owed ufpd a (each (λ i. c.malloc) max_args 0 b)
            (each-EachFrom (λ i. c.malloc) of_block max_args 0 a b (λ i. malloc-AddsTo) e)

      run_named-Owed :
          (ufpd : Ufpd) (ok : Bool) (a : ℕ) (b : Booked S)
          → Owed a b
          → Owed a (run_named c numbers opts ufpd ok b).1
      run_named-Owed ufpd false a b e = e
      run_named-Owed ufpd true a b e =
          run_parsed-Owed a (ufpd_parse_args numbers c.malloc c.free opts ufpd b)
            (parse_args-Owed ufpd a b e)

      free_names-Owed :
          (ufpd : Ufpd) (a : ℕ) (r : Bool × List ℕ × Booked S)
          → EachFrom of_block a r
          → Owed a (free_names c numbers opts ufpd r).1
      free_names-Owed ufpd a (ok, names, b) e =
          each_back-Owed c.free of_block names a (run_named c numbers opts ufpd ok b).1 free-Owed
            (run_named-Owed ufpd ok _ b e)

      main-Owed :
          (cores : ℕ → ℕ) (a : ℕ) (b : Booked S) → Owed a b → Owed a (main c numbers opts cores b).1
      unfolding main
      main-Owed cores a b e =
          free_names-Owed (defaults c cores) a (each (λ i. c.malloc) max_ifs 0 b)
            (each-EachFrom (λ i. c.malloc) of_block max_ifs 0 a b (λ i. malloc-AddsTo) e)

-- Whichever options the process is given, whichever of its calls fail, and when none does and a
-- signal ends it: each block of memory, pool, open device, device that is up, and each thread's
-- buffers and plane, by its handle, is given back as often as the process got it. Setting a
-- thread's affinity never gives a negative number.
pub main-returns_all :
    {S : Type 0} (calls : Calls S) (posix : IsPosix calls) (numbers : Numbers) (opts : List Opt)
    (cores : ℕ → ℕ) (s : S) (q : Thing)
    → let b = (main (booked calls) numbers opts cores (opening s)).1 in b.got q ≡ b.gone q
main-returns_all calls posix numbers opts cores s q =
    omega (arith, main-Owed q calls posix numbers opts cores 0 (opening s) refl)
