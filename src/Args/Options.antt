-- ===== src/Args/Options.antt =====
-- src/main.c: `ufpd_parse_args`, on the options that `getopt` finds.
use ufp.Common.{
  ℕ, zero, suc, Bool, true, false, Option, none, some, List, [], ◌∷◌, ◌==◌, if◌then◌else◌, update,
}
use ufp.Args.{Numbers, read_cores, read_devices, max_args}

-- `struct ufpd` without the arrays of handles and what the names are
pub record Ufpd : Type 0 where
  pub num_threads : ℕ
  pub cores : ℕ → ℕ
  pub num_devices : ℕ
  pub promisc : ℕ
  pub mtu_frame : ℕ
  pub buf_size : ℕ
  pub buf_count : ℕ
  pub numa_node : ℕ

-- What `getopt` returns, with `optarg`: the letters c, p, n, m, b, a and h, or any other. -1 ends the
-- list of them.
pub data Opt : Type 0 where
  cores_opt devices_opt node_opt mtu_opt buf_opt : (optarg : List ℕ) → Opt
  promisc_opt help_opt other_opt : Opt

module _ {S : Type 0} where
  abbrev pub put : {A : Type 0} → A → Bool × List A × S → Bool × List A × S
  put h (ok, hs, s) = (ok, h ∷ hs, s)

  -- A loop that fills an array from the index `i` on, until an entry fails: whether none did, and
  -- what it has got.
  unfoldable pub each : {A : Type 0} (one : ℕ → S → Option A × S) (n i : ℕ) → S → Bool × List A × S
  each one zero i s = (true, [], s)
  each one (suc n) i s =
      let (r, s') = one i s in
      elim r [ none ↦ (false, [], s') | some h ↦ put h (each one n (suc i) s') ]

  -- a loop that gives them back
  unfoldable pub each_back : {A : Type 0} (one : A → S → S) → List A → S → S
  each_back one [] s = s
  each_back one (h ∷ hs) s = each_back one hs (one h s)

abbrev pub write_from : (i : ℕ) → List ℕ → (ℕ → ℕ) → ℕ → ℕ
write_from i [] array = array
write_from i (x ∷ xs) array = write_from (suc i) xs (update array i x)

module _ (numbers : Numbers) where
  open numbers use {scan}

  abbrev pub read_option : Opt → Ufpd → Option Ufpd
  read_option (cores_opt optarg) ufpd = elim (read_cores numbers optarg) [
    | none ↦ none
    | some (num_threads, cores) ↦
        some (record ufpd { num_threads = num_threads; cores = write_from 0 cores ufpd.cores })
  ]
  read_option (devices_opt optarg) ufpd =
      some (record ufpd { num_devices = (read_devices optarg).0 })
  read_option (node_opt optarg) ufpd = elim (scan optarg) [
    | none ↦ none
    | some n ↦ some (record ufpd { numa_node = n })
  ]
  read_option (mtu_opt optarg) ufpd = elim (scan optarg) [
    | none ↦ none
    | some n ↦ some (record ufpd { mtu_frame = n })
  ]
  read_option (buf_opt optarg) ufpd = elim (scan optarg) [
    | none ↦ none
    | some n ↦ some (record ufpd { buf_count = n })
  ]
  read_option promisc_opt ufpd = some (record ufpd { promisc = 1 })
  read_option help_opt ufpd = none
  read_option other_opt ufpd = none

  -- the loop, and the two tests behind it
  unfoldable pub read_options : List Opt → Ufpd → Option Ufpd
  read_options [] ufpd =
      if ufpd.num_devices == 0 then none else if ufpd.num_threads == 0 then none else some ufpd
  read_options (opt ∷ opts) ufpd = elim (read_option opt ufpd) [
    | none ↦ none
    | some ufpd' ↦ read_options opts ufpd'
  ]

  module _ {S : Type 0} (malloc : S → Option ℕ × S) (free : ℕ → S → S) where
    abbrev pub free_argbuf : List Opt → Ufpd → Bool × List ℕ × S → Option Ufpd × S
    free_argbuf opts ufpd (ok, argbuf, s) =
        (if ok then read_options opts ufpd else none, each_back free argbuf s)

    unfoldable pub ufpd_parse_args : List Opt → Ufpd → S → Option Ufpd × S
    unfolding free_argbuf
    ufpd_parse_args opts ufpd s = free_argbuf opts ufpd (each (λ i. malloc) max_args 0 s)
