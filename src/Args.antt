-- ===== src/Args.antt =====
-- src/main.c: how the options `-c` and `-p` are read. A string is the list of its bytes, without the
-- 0 at its end; `sscanf` of a number and `snprintf` of one are parameters.
pub mod Options
pub mod Split
mod Tests
use ufp.Common.{
  ℕ, zero, suc, ◌+◌, ◌-◌, ◌%◌, ◌^◌, Bool, true, false, not, ◌&&◌, ◌||◌, Option, none, some, List,
  [], ◌∷◌, ◌++◌, ltb, leb, ◌==◌, if◌then◌else◌, length,
}

abbrev pub max_arglen : ℕ
max_arglen = 1024

abbrev pub max_args : ℕ
max_args = 128

abbrev pub max_cores : ℕ
max_cores = 16

abbrev pub max_ifs : ℕ
max_ifs = 64

abbrev pub comma : ℕ
comma = 44

abbrev pub minus : ℕ
minus = 45

-- `strncpy` and `snprintf` of at most so many bytes
abbrev pub take : ℕ → List ℕ → List ℕ
take zero s = []
take (suc n) [] = []
take (suc n) (c ∷ s) = c ∷ take n s

-- The loop of `ufpd_parse_list` from a byte on, with `buf` read since the last comma and room for
-- `left` more entries: the entries from here on, or `none` for the return value -1.
unfoldable pub parse_list_from : (max_len left : ℕ) (buf str : List ℕ) → Option (List (List ℕ))
parse_list_from max_len zero buf [] = none
parse_list_from max_len (suc left) buf [] = some (take max_len buf ∷ [])
parse_list_from max_len zero buf (c ∷ str) =
    let next = parse_list_from max_len zero (buf ++ (c ∷ [])) str in
    if c == comma then none else if length buf == max_arglen - 1 then none else next
parse_list_from max_len (suc left) buf (c ∷ str) =
    let next = parse_list_from max_len (suc left) (buf ++ (c ∷ [])) str in
    let rest = parse_list_from max_len left [] str in
    if c == comma
    then elim rest [ none ↦ none | some entries ↦ some (take max_len buf ∷ entries) ]
    else if length buf == max_arglen - 1
    then none
    else next

unfoldable pub ufpd_parse_list : (str : List ℕ) (max_len max_count : ℕ) → Option (List (List ℕ))
ufpd_parse_list str max_len max_count = parse_list_from max_len max_count [] str

-- `sscanf` with "%u" and `snprintf` with "%d"
pub record Numbers : Type 0 where
  pub scan : List ℕ → Option ℕ
  pub print : ℕ → List ℕ

module _ (numbers : Numbers) where
  open numbers use {scan, print}

  -- one call of `snprintf` behind the result
  abbrev pub add_number : (max_len : ℕ) (result : List ℕ) (num : ℕ) → List ℕ
  add_number max_len [] num = take (max_len - 1) (print num)
  add_number max_len (c ∷ result) num =
      (c ∷ result) ++ take (max_len - length (c ∷ result) - 1) (comma ∷ print num)

  -- `count` numbers from `num` on
  unfoldable pub add_range : (max_len : ℕ) (result : List ℕ) (num count : ℕ) → List ℕ
  add_range max_len result num zero = result
  add_range max_len result num (suc count) =
      add_range max_len (add_number max_len result num) (num + 1) count

  -- the case of a comma or of the end; `low` is the number before a minus, if there was one
  unfoldable pub end_range : (max_len : ℕ) (low : Option ℕ) (buf result : List ℕ) → Option (List ℕ)
  end_range max_len low buf result = elim (scan buf) [
    | none ↦ none
    | some high ↦ elim low [
      | none ↦ some (add_range max_len result high 1)
      | some num ↦ some (add_range max_len result num (high + 1 - num))
    ]
  ]

  -- the loop of `ufpd_parse_range`, for numbers whose successor is an `unsigned int`
  unfoldable pub parse_range_from :
      (max_len : ℕ) (low : Option ℕ) (buf result str : List ℕ) → Option (List ℕ)
  parse_range_from max_len low buf result [] = end_range max_len low buf result
  parse_range_from max_len low buf result (c ∷ str) =
      let longer = parse_range_from max_len low (buf ++ (c ∷ [])) result str in
      if c == comma
      then elim (end_range max_len low buf result) [
        | none ↦ none
        | some result' ↦ parse_range_from max_len none [] result' str
      ]
      else if c == minus
      then elim (scan buf) [
        | none ↦ none
        | some num ↦ parse_range_from max_len (some num) [] result str
      ]
      else if length buf == max_arglen - 1
      then none
      else longer

  unfoldable pub ufpd_parse_range : (str : List ℕ) (max_len : ℕ) → Option (List ℕ)
  ufpd_parse_range str max_len = parse_range_from max_len none [] [] str

  unfoldable pub ufpd_convert_list : (entries : List (List ℕ)) (max_count : ℕ) → Option (List ℕ)
  ufpd_convert_list [] max_count = some []
  ufpd_convert_list (s ∷ entries) zero = some []
  ufpd_convert_list (s ∷ entries) (suc max_count) = elim (scan s) [
    | none ↦ none
    | some num ↦ elim (ufpd_convert_list entries max_count) [
      | none ↦ none
      | some nums ↦ some (num ∷ nums)
    ]
  ]

  -- The option `-c`: the number of threads and the cores. The number is an `unsigned int`, so -1 is
  -- 2 ^ 32 - 1 and never less than 0; `ufpd_convert_list` takes it as an `int`.
  unfoldable pub read_cores : List ℕ → Option (ℕ × List ℕ)
  read_cores optarg = elim (ufpd_parse_range optarg max_arglen) [
    | none ↦ none
    | some str ↦ elim (ufpd_parse_list str max_arglen max_args) [
      | none ↦ some (2 ^ 32 - 1, [])
      | some entries ↦ elim (ufpd_convert_list entries max_cores) [
        | none ↦ none
        | some cores ↦ some (length entries, cores)
      ]
    ]
  ]

-- The option `-p`: the number of devices and their names. The names that are copied before a failure
-- are left out.
unfoldable pub read_devices : List ℕ → ℕ × List (List ℕ)
read_devices optarg = elim (ufpd_parse_list optarg max_arglen max_ifs) [
  | none ↦ (2 ^ 32 - 1, [])
  | some names ↦ (length names, names)
]
