-- ===== src/Process.antt =====
-- src/main.c: the start and the end of the process, with all that it takes and gives back. What it
-- calls is an interface: the system and the library in lib.
pub mod Ledger
pub mod Balance
mod Tests
use ufp.Args.{max_ifs, Numbers}
use ufp.Args.Options.{Ufpd, Opt, each, each_back, ufpd_parse_args}
use ufp.Common.{
  ℕ, zero, suc, ◌+◌, ◌*◌, ◌^◌, ◌%◌, leb, Bool, true, false, Option, none, some, List, [], ◌∷◌,
}

-- what a thread keeps of what it is given
pub record UfpdThread : Type 0 where
  pub tid : ℕ
  pub buf : ℕ
  pub plane : ℕ

-- `ret` of `main`: not set, -1 or 0
pub data Ret : Type 0 where
  unset failed done : Ret

abbrev pub rx_budget : ℕ
rx_budget = 1024

abbrev pub tx_budget : ℕ
tx_budget = 4096

-- The functions that `main` calls. A handle is a number, and so is an `int` of the system, by its 32
-- bits. `sigaddset` adds to the set of signals to wait for, `mask_signals` is `pthread_sigmask`,
-- `ufp_open` finds the name at its index, and `sigwait` comes back when it has got a signal.
pub record Calls (S : Type 0) : Type 0 where
  pub malloc : S → Option ℕ × S
  pub free : ℕ → S → S
  pub openlog : S → S
  pub closelog : S → S
  pub set_mempolicy : (mask : ℕ) → S → Bool × S
  pub ufp_mpool_init : S → Option ℕ × S
  pub ufp_mpool_destroy : ℕ → S → S
  pub ufp_open : (dev_idx : ℕ) → S → Option ℕ × S
  pub ufp_close : ℕ → S → S
  pub ufp_up :
      (dev : ℕ) (mpools : List ℕ) (num_threads buf_size mtu_frame promisc rx_budget tx_budget : ℕ)
      → S
      → Bool × S
  pub ufp_down : ℕ → S → S
  pub sigaddset : (signal : ℕ) → S → Bool × S
  pub mask_signals : S → Bool × S
  pub sigwait : S → S
  pub ufp_alloc_buf : (devs : List ℕ) (buf_size buf_count mpool : ℕ) → S → Option ℕ × S
  pub ufp_release_buf : ℕ → S → S
  pub ufp_plane_alloc : (devs : List ℕ) (buf thread_id core_id : ℕ) → S → Option ℕ × S
  pub ufp_plane_release : ℕ → S → S
  pub pthread_create : (thread_id : ℕ) → S → ℕ × ℕ × S
  pub pthread_setaffinity_np : (tid core_id : ℕ) → S → ℕ × S
  pub pthread_kill : ℕ → S → S
  pub pthread_join : ℕ → S → S

-- `err < 0` of an `int`
abbrev pub is_negative : ℕ → Bool
is_negative err = leb (2 ^ 31) err

-- the entry `i` of an array that a loop has filled
abbrev pub get_handle : List ℕ → ℕ → ℕ
get_handle [] i = 0
get_handle (h ∷ hs) zero = h
get_handle (h ∷ hs) (suc i) = get_handle hs i

module _ {S : Type 0} (calls : Calls S) where
  open calls use {
    malloc, free, openlog, closelog, set_mempolicy, ufp_mpool_init, ufp_mpool_destroy, ufp_open,
    ufp_close, ufp_up, ufp_down, sigaddset, mask_signals, sigwait, ufp_alloc_buf, ufp_release_buf,
    ufp_plane_alloc, ufp_plane_release, pthread_create, pthread_setaffinity_np, pthread_kill,
    pthread_join,
  }

  abbrev pub with_up : (dev : ℕ) → Bool × S → Option ℕ × S
  with_up dev (true, s) = (some dev, s)
  with_up dev (false, s) = (none, ufp_close dev s)

  abbrev pub with_device : Ufpd → (mpools : List ℕ) → Option ℕ × S → Option ℕ × S
  with_device ufpd mpools (none, s) = (none, s)
  with_device ufpd mpools (some dev, s) = with_up dev (
      ufp_up dev mpools ufpd.num_threads ufpd.buf_size ufpd.mtu_frame ufpd.promisc rx_budget
        tx_budget s)

  unfoldable pub ufpd_device_init : Ufpd → (mpools : List ℕ) (dev_idx : ℕ) → S → Option ℕ × S
  unfolding with_device with_up
  ufpd_device_init ufpd mpools dev_idx s = with_device ufpd mpools (ufp_open dev_idx s)

  unfoldable pub ufpd_device_destroy : (dev : ℕ) → S → S
  ufpd_device_destroy dev s = ufp_close dev (ufp_down dev s)

  unfoldable pub ufpd_thread_kill : UfpdThread → S → S
  ufpd_thread_kill thread s =
      ufp_release_buf thread.buf
        (ufp_plane_release thread.plane (pthread_join thread.tid (pthread_kill thread.tid s)))

  abbrev pub release_both : UfpdThread → S → S
  release_both thread s = ufp_release_buf thread.buf (ufp_plane_release thread.plane s)

  -- From `pthread_setaffinity_np` on. Behind `err_set_affinity` the thread is killed, which releases
  -- its plane and its buffers, and then both are released.
  abbrev pub killed_if : (negative : Bool) → UfpdThread → S → Option UfpdThread × S
  killed_if true thread s = (none, release_both thread (ufpd_thread_kill thread s))
  killed_if false thread s = (some thread, s)

  abbrev pub with_affinity : UfpdThread → ℕ × S → Option UfpdThread × S
  with_affinity thread (err, s) = killed_if (is_negative err) thread s

  abbrev pub released_if :
      (negative : Bool) → UfpdThread → (core_id : ℕ) → S → Option UfpdThread × S
  released_if true thread core_id s = (none, release_both thread s)
  released_if false thread core_id s =
      with_affinity thread (pthread_setaffinity_np thread.tid core_id s)

  abbrev pub with_tid : (core_id buf plane : ℕ) → ℕ × ℕ × S → Option UfpdThread × S
  with_tid core_id buf plane (err, tid, s) =
      released_if (is_negative err) (record { tid = tid; buf = buf; plane = plane }) core_id s

  abbrev pub with_plane : (thread_id core_id buf : ℕ) → Option ℕ × S → Option UfpdThread × S
  with_plane thread_id core_id buf (none, s) = (none, ufp_release_buf buf s)
  with_plane thread_id core_id buf (some plane, s) =
      with_tid core_id buf plane (pthread_create thread_id s)

  abbrev pub with_buf :
      Ufpd → (devs : List ℕ) (thread_id : ℕ) → Option ℕ × S → Option UfpdThread × S
  with_buf ufpd devs thread_id (none, s) = (none, s)
  with_buf ufpd devs thread_id (some buf, s) =
      with_plane thread_id (ufpd.cores thread_id) buf
        (ufp_plane_alloc devs buf thread_id (ufpd.cores thread_id) s)

  unfoldable pub ufpd_thread_create :
      Ufpd → (devs mpools : List ℕ) (thread_id : ℕ) → S → Option UfpdThread × S
  unfolding with_buf with_plane with_tid with_affinity
  ufpd_thread_create ufpd devs mpools thread_id s =
      with_buf ufpd devs thread_id
        (ufp_alloc_buf devs ufpd.buf_size ufpd.buf_count (get_handle mpools thread_id) s)

  abbrev pub add_then : Bool × S → (S → Bool × S) → Bool × S
  add_then (true, s) f = f s
  add_then (false, s) f = (false, s)

  -- `SIGUSR1`, `SIGHUP`, `SIGINT` and `SIGTERM`
  unfoldable pub ufpd_set_signal : S → Bool × S
  ufpd_set_signal s = add_then (sigaddset 10 s) (λ s₁.
      add_then (sigaddset 1 s₁)
        (λ s₂. add_then (sigaddset 2 s₂) (λ s₃. add_then (sigaddset 15 s₃) mask_signals)))

  -- The parts of `main`, the innermost first. Each takes what it needs, goes on with the part above,
  -- and gives back behind its label what it has got.
  abbrev pub wait_signal : Bool → S → Ret × S
  wait_signal true s = (done, sigwait s)
  wait_signal false s = (failed, s)

  abbrev pub kill_threads : Bool × List UfpdThread × S → Ret × S
  kill_threads (ok, threads, s) =
      let (ret, s') = wait_signal ok s in (ret, each_back ufpd_thread_kill threads s')

  abbrev pub with_signals : Ufpd → (devs mpools : List ℕ) → Bool × S → Ret × S
  with_signals ufpd devs mpools (false, s) = (failed, s)
  with_signals ufpd devs mpools (true, s) =
      kill_threads (each (ufpd_thread_create ufpd devs mpools) ufpd.num_threads 0 s)

  abbrev pub run_threads : Ufpd → (devs mpools : List ℕ) → Bool → S → Ret × S
  run_threads ufpd devs mpools false s = (failed, s)
  run_threads ufpd devs mpools true s = with_signals ufpd devs mpools (ufpd_set_signal s)

  abbrev pub destroy_devices : Ufpd → (mpools : List ℕ) → Bool × List ℕ × S → Ret × S
  destroy_devices ufpd mpools (ok, devs, s) =
      let (ret, s') = run_threads ufpd devs mpools ok s in
      (ret, each_back ufpd_device_destroy devs s')

  abbrev pub run_devices : Ufpd → (mpools : List ℕ) → Bool → S → Ret × S
  run_devices ufpd mpools false s = (failed, s)
  run_devices ufpd mpools true s =
      destroy_devices ufpd mpools (each (ufpd_device_init ufpd mpools) ufpd.num_devices 0 s)

  abbrev pub destroy_mpools : Ufpd → Bool × List ℕ × S → Ret × S
  destroy_mpools ufpd (ok, mpools, s) =
      let (ret, s') = run_devices ufpd mpools ok s in (ret, each_back ufp_mpool_destroy mpools s')

  unfoldable pub run_mpools : Ufpd → S → Ret × S
  unfolding destroy_mpools run_devices destroy_devices run_threads with_signals kill_threads
      wait_signal
  run_mpools ufpd s = destroy_mpools ufpd (each (λ i. ufp_mpool_init) ufpd.num_threads 0 s)

  -- `malloc` of an array that is freed behind the next label
  abbrev pub with_array : (next : S → Ret × S) → Option ℕ × S → Ret × S
  with_array next (none, s) = (failed, s)
  with_array next (some array, s) = let (ret, s') = next s in (ret, free array s')

  abbrev pub run_arrays : Ufpd → Bool × S → Ret × S
  run_arrays ufpd (false, s) = (failed, s)
  run_arrays ufpd (true, s) =
      with_array (λ s₁. with_array (λ s₂. with_array (run_mpools ufpd) (malloc s₂)) (malloc s₁))
        (malloc s)

  -- the node in a mask of 64 bits, for `MPOL_BIND`
  abbrev pub ufpd_set_mempolicy : (node : ℕ) → S → Bool × S
  ufpd_set_mempolicy node s = set_mempolicy (2 ^ node % 2 ^ 64) s

  abbrev pub run_parsed : Option Ufpd × S → Ret × S
  run_parsed (none, s) = (failed, s)
  run_parsed (some ufpd, s) =
      let (ret, s') = run_arrays ufpd (ufpd_set_mempolicy ufpd.numa_node (openlog s)) in
      (ret, closelog s')

  abbrev pub defaults : (cores : ℕ → ℕ) → Ufpd
  defaults cores = record {
    num_threads = 0;
    cores = cores;
    num_devices = 0;
    promisc = 0;
    mtu_frame = 1518;
    buf_size = 2048;
    buf_count = 8192;
    numa_node = 0;
  }

  module _ (numbers : Numbers) (opts : List Opt) where
    abbrev pub run_named : Ufpd → Bool → S → Ret × S
    run_named ufpd false s = (unset, s)
    run_named ufpd true s = run_parsed (ufpd_parse_args numbers malloc free opts ufpd s)

    abbrev pub free_names : Ufpd → Bool × List ℕ × S → Ret × S
    free_names ufpd (ok, names, s) =
        let (ret, s') = run_named ufpd ok s in (ret, each_back free names s')

    -- `opts` is what `getopt` finds in the arguments; `cores` is what the array holds before it is
    -- set.
    unfoldable pub main : (cores : ℕ → ℕ) → S → Ret × S
    unfolding free_names run_named run_parsed run_arrays with_array
    main cores s = free_names (defaults cores) (each (λ i. malloc) max_ifs 0 s)
