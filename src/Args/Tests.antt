-- ===== src/Args/Tests.antt =====
-- src/main.c at concrete options.
use ufp.Common.{
  ℕ, zero, suc, ◌+◌, ◌-◌, ◌≡◌, ◌≤◌, refl, Option, none, some, List, [], ◌∷◌, ◌++◌, ltb,
  if◌then◌else◌, length, All,
}
use ufp.Args.{
  max_arglen, Numbers, parse_list_from, ufpd_parse_list, add_range, end_range, parse_range_from,
  ufpd_parse_range, ufpd_convert_list, read_cores, read_devices,
}
use ufp.Args.Split.{join, IsEntry, join-ufpd_parse_list, length-ufpd_convert_list}

-- numbers of one digit
abbrev digit : Numbers
digit = record {
  scan = λ s. elim s [ [] ↦ none | c ∷ rest ↦ if ltb 47 c then some (c - 48) else none ];
  print = λ n. (48 + n) ∷ [];
}

-- "1,23"
abbrev option : List ℕ
option = 49 ∷ 44 ∷ 50 ∷ 51 ∷ []

abbrev option_entries : List (List ℕ)
option_entries = (49 ∷ []) ∷ (50 ∷ 51 ∷ []) ∷ []

option_run : ufpd_parse_list option max_arglen 2 ≡ some option_entries
unfolding ufpd_parse_list parse_list_from
option_run = refl

join-ufpd_parse_list_example :
    (join option_entries ≡ option) × All IsEntry option_entries × (length option_entries ≤ 2)
join-ufpd_parse_list_example = join-ufpd_parse_list option 2 option_entries option_run

too_many_test : ufpd_parse_list option max_arglen 1 ≡ none
unfolding ufpd_parse_list parse_list_from
too_many_test = refl

-- "2-4,6" is "2,3,4,6", and in 5 bytes it is cut to "2,3,"
range_test :
    let str : List ℕ = 50 ∷ 45 ∷ 52 ∷ 44 ∷ 54 ∷ [] in
    (ufpd_parse_range digit str max_arglen ≡ some (50 ∷ 44 ∷ 51 ∷ 44 ∷ 52 ∷ 44 ∷ 54 ∷ []))
    × (ufpd_parse_range digit str 5 ≡ some (50 ∷ 44 ∷ 51 ∷ 44 ∷ []))
unfolding ufpd_parse_range parse_range_from end_range add_range
range_test = (refl, refl)

abbrev first_only : List ℕ
first_only = 1 ∷ []

converted_run : ufpd_convert_list digit option_entries 1 ≡ some first_only
unfolding ufpd_convert_list
converted_run = refl

length-ufpd_convert_list_test : length first_only ≡ 1
length-ufpd_convert_list_test =
    length-ufpd_convert_list digit option_entries 1 first_only converted_run

abbrev threads_and_cores : Option (ℕ × List ℕ) → Option (ℕ × ℕ)
threads_and_cores none = none
threads_and_cores (some (num_threads, cores)) = some (num_threads, length cores)

abbrev commas : ℕ → List ℕ
commas zero = []
commas (suc n) = 44 ∷ commas n

-- "0-3,0-3,0-3,0-3,0-3" asks for 20 threads and sets 16 cores
threads_test :
    let four : List ℕ = 48 ∷ 45 ∷ 51 ∷ [] in
    let str = four ++ (44 ∷ four) ++ (44 ∷ four) ++ (44 ∷ four) ++ (44 ∷ four) in
    threads_and_cores (read_cores digit str) ≡ some (20, 16)
unfolding read_cores ufpd_parse_range parse_range_from end_range add_range ufpd_parse_list
    parse_list_from ufpd_convert_list
threads_test = refl

-- 65 names of no bytes, with commas between them, are taken for 4294967295 devices
devices_test : (read_devices (commas 64)).0 ≡ 4294967295
unfolding read_devices ufpd_parse_list parse_list_from
devices_test = refl
