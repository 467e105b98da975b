-- ===== src/Process/Tests.antt =====
-- The process of src/main.c on a system that counts what it has handed out.
use ufp.Common.{
  ℕ, suc, ◌+◌, ◌-◌, ◌≡◌, refl, ◌==◌, Bool, true, false, Option, none, some, List, [], ◌∷◌,
}
use ufp.Args.{
  Numbers, ufpd_parse_range, parse_range_from, end_range, add_range, ufpd_parse_list,
  parse_list_from, ufpd_convert_list, read_cores, read_devices,
}
use ufp.Args.Options.{Opt, cores_opt, devices_opt, each, each_back, read_options, ufpd_parse_args}
use ufp.Process.{
  Calls, failed, done, main, run_mpools, ufpd_device_init, ufpd_device_destroy, ufpd_thread_create,
  ufpd_thread_kill, ufpd_set_signal,
}
use ufp.Process.Ledger.{opened, opening, booked}
use ufp.Process.Balance.{IsPosix, main-returns_all}

abbrev get : ℕ → Option ℕ × ℕ
get s = (some s, suc s)

abbrev put_back : ℕ → ℕ → ℕ
put_back h s = s - 1

abbrev get_unless : Bool → ℕ → Option ℕ × ℕ
get_unless true s = (none, s)
get_unless false s = get s

-- numbers of one digit
abbrev digit : Numbers
digit = record {
  scan = λ s. elim s [ [] ↦ none | c ∷ rest ↦ some (c - 48) ];
  print = λ n. (48 + n) ∷ [];
}

-- the threads "0-1" on the devices "a,b"
abbrev opts : List Opt
opts = cores_opt (48 ∷ 45 ∷ 49 ∷ []) ∷ devices_opt (97 ∷ 44 ∷ 98 ∷ []) ∷ []

-- there is no plane where `full` things are held
abbrev toy_calls : (full : ℕ) → Calls ℕ
toy_calls full = record {
  malloc = get;
  free = put_back;
  openlog = λ s. s;
  closelog = λ s. s;
  set_mempolicy = λ mask s. (true, s);
  ufp_mpool_init = get;
  ufp_mpool_destroy = put_back;
  ufp_open = λ i. get;
  ufp_close = put_back;
  ufp_up = λ dev mpools n b m p r t s. (true, suc s);
  ufp_down = put_back;
  sigaddset = λ signal s. (true, s);
  mask_signals = λ s. (true, s);
  sigwait = λ s. s;
  ufp_alloc_buf = λ devs size count mpool. get;
  ufp_release_buf = put_back;
  ufp_plane_alloc = λ devs buf id core s. get_unless (s == full) s;
  ufp_plane_release = put_back;
  pthread_create = λ id s. (0, id, s);
  pthread_setaffinity_np = λ tid core s. (0, s);
  pthread_kill = λ tid s. s;
  pthread_join = λ tid s. s;
}

toy_calls-IsPosix : (full : ℕ) → IsPosix (toy_calls full)
toy_calls-IsPosix full tid core s = refl

-- 64 names, 3 arrays, 2 pools, 2 open devices that are up, the first thread's buffers and plane, and
-- the second one's buffers
last_plane_test : main (toy_calls 76) digit opts (λ i. i) 0 ≡ (failed, 0)
unfolding main each each_back run_mpools ufpd_device_init ufpd_device_destroy ufpd_thread_create
    ufpd_thread_kill ufpd_set_signal ufpd_parse_args read_options read_cores read_devices
    ufpd_parse_range parse_range_from end_range add_range ufpd_parse_list parse_list_from
    ufpd_convert_list
last_plane_test = refl

signal_test : main (toy_calls 100) digit opts (λ i. i) 0 ≡ (done, 0)
unfolding main each each_back run_mpools ufpd_device_init ufpd_device_destroy ufpd_thread_create
    ufpd_thread_kill ufpd_set_signal ufpd_parse_args read_options read_cores read_devices
    ufpd_parse_range parse_range_from end_range add_range ufpd_parse_list parse_list_from
    ufpd_convert_list
signal_test = refl

-- the plane of the second thread is refused
main-returns_all_example :
    let b = (main (booked (toy_calls 76)) digit opts (λ i. i) (opening 0)).1 in
    b.got (opened 69) ≡ b.gone (opened 69)
main-returns_all_example =
    main-returns_all (toy_calls 76) (toy_calls-IsPosix 76) digit opts (λ i. i) 0 (opened 69)

-- without a device, all that has been taken is the names
no_device_test : main (toy_calls 100) digit (cores_opt (48 ∷ []) ∷ []) (λ i. i) 0 ≡ (failed, 0)
unfolding main each each_back ufpd_parse_args read_options read_cores ufpd_parse_range
    parse_range_from end_range add_range ufpd_parse_list parse_list_from ufpd_convert_list
no_device_test = refl
