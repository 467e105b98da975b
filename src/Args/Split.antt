-- ===== src/Args/Split.antt =====
-- src/main.c: lists of entries with commas.
use mathlib.Core.List.{append_assoc, append-nil}
use ufp.Common.{
  ℕ, zero, suc, ◌-◌, ◌≤◌, ◌<◌, ◌≡◌, ◌≢◌, inl, inr, refl, sym, ap, ◌∙◌, false, some, List, [], ◌∷◌,
  ◌++◌, leb, ◌==◌, if◌then◌else◌, length, length-append, All, arith, Bool-cases, Option-cases,
}
use ufp.Args.{max_arglen, comma, take, parse_list_from, ufpd_parse_list, Numbers, ufpd_convert_list}

-- the string that the entries were read from
abbrev pub join : List (List ℕ) → List ℕ
join [] = []
join (s ∷ []) = s
join (s ∷ (t ∷ entries)) = s ++ (comma ∷ join (t ∷ entries))

-- an entry is a string that fits into its buffer and has no comma
abbrev pub IsEntry : List ℕ → Type 0
IsEntry s = (length s < max_arglen) × All (λ c. c ≢ comma) s

take_all : (n : ℕ) (s : List ℕ) → length s ≤ n → take n s ≡ s
take_all zero [] h = refl
take_all zero (c ∷ s) h = absurd (omega arith)
take_all (suc n) [] h = refl
take_all (suc n) (c ∷ s) h = ap (λ t. c ∷ t) (take_all n s (omega arith))

-- what the loop returns, from a byte on
record IsSplit (left : ℕ) (text : List ℕ) (entries : List (List ℕ)) : Type 0 where
  first : List ℕ
  others : List (List ℕ)
  some_entry : entries ≡ first ∷ others
  joined : join (first ∷ others) ≡ text
  bounded : All IsEntry (first ∷ others)
  counted : length (first ∷ others) ≤ left

module _ (left : ℕ) (buf : List ℕ) where
  -- the case of a comma
  IsSplit-more :
      (text : List ℕ) (entries : List (List ℕ))
      → IsEntry buf
      → IsSplit left text entries
      → IsSplit (suc left) (buf ++ (comma ∷ text)) (buf ∷ entries)
  IsSplit-more text entries fine w = record {
    first = buf;
    others = w.first ∷ w.others;
    some_entry = ap (λ es. buf ∷ es) w.some_entry;
    joined = ap (λ s. buf ++ (comma ∷ s)) w.joined;
    bounded = (fine, w.bounded);
    counted = omega (arith, w.counted);
  }

All-snoc :
    (s : List ℕ) (c : ℕ) → All (λ d. d ≢ comma) s → c ≢ comma → All (λ d. d ≢ comma) (s ++ (c ∷ []))
All-snoc [] c h hc = (hc, tt)
All-snoc (d ∷ s) c h hc = (h.0, All-snoc s c h.1 hc)

IsEntry-snoc :
    (buf : List ℕ) (c : ℕ)
    → IsEntry buf
    → (c == comma) ≡ false
    → (length buf == max_arglen - 1) ≡ false
    → IsEntry (buf ++ (c ∷ []))
IsEntry-snoc buf c fine other room =
    let longer = length-append buf (c ∷ []) in
    (ground (arith, longer, room, fine.0), All-snoc buf c fine.1 (ground (arith, other)))

-- the step from a text behind a longer buffer
IsSplit-assoc :
    (left : ℕ) (buf : List ℕ) (c : ℕ) (str : List ℕ) (entries : List (List ℕ))
    → IsSplit left ((buf ++ (c ∷ [])) ++ str) entries
    → IsSplit left (buf ++ (c ∷ str)) entries
IsSplit-assoc left buf c str entries w = rw (append_assoc buf (c ∷ []) str) at w

parse_list_from-IsSplit :
    (left : ℕ) (buf str : List ℕ) (entries : List (List ℕ))
    → IsEntry buf
    → parse_list_from max_arglen left buf str ≡ some entries
    → IsSplit left (buf ++ str) entries
unfolding parse_list_from
parse_list_from-IsSplit zero buf [] entries fine e = absurd (cc)
parse_list_from-IsSplit (suc left) buf [] entries fine e = record {
  first = buf;
  others = [];
  some_entry =
      let whole = take_all max_arglen buf (omega (arith, fine.0)) in
      let same : entries ≡ take max_arglen buf ∷ [] = ground (arith, e) in
      same ∙ ap (λ s. s ∷ []) whole;
  joined = sym (append-nil buf);
  bounded = (fine, tt);
  counted = omega arith;
}
parse_list_from-IsSplit zero buf (c ∷ str) entries fine e = elim (Bool-cases (c == comma)) [
  | inl here ↦ absurd (cc (rw here at e))
  | inr other ↦ elim (Bool-cases (length buf == max_arglen - 1)) [
    | inl full ↦ absurd (cc (rw (other, full) at e))
    | inr room ↦ IsSplit-assoc zero buf c str entries (
        parse_list_from-IsSplit zero (buf ++ (c ∷ [])) str entries
          (IsEntry-snoc buf c fine other room) (rw (other, room) at e))
  ]
]
parse_list_from-IsSplit (suc left) buf (c ∷ str) entries fine e = elim (Bool-cases (c == comma)) [
  | inl here ↦ elim (Option-cases (parse_list_from max_arglen left [] str)) [
    | inl failed ↦ absurd (cc (rw (here, failed) at e))
    | inr (rest, parsed) ↦
        let whole = take_all max_arglen buf (omega (arith, fine.0)) in
        let is_comma : c ≡ comma = ground (arith, here) in
        let e' : some (take max_arglen buf ∷ rest) ≡ some entries = rw (here, parsed) at e in
        let same : entries ≡ buf ∷ rest = ground (arith, e', whole) in
        rw (same, is_comma)
          (IsSplit-more left buf str rest fine
            (parse_list_from-IsSplit left [] str rest (omega arith, tt) parsed))
  ]
  | inr other ↦ elim (Bool-cases (length buf == max_arglen - 1)) [
    | inl full ↦ absurd (cc (rw (other, full) at e))
    | inr room ↦ IsSplit-assoc (suc left) buf c str entries (
        parse_list_from-IsSplit (suc left) (buf ++ (c ∷ [])) str entries
          (IsEntry-snoc buf c fine other room) (rw (other, room) at e))
  ]
]

-- If a list is read, then its entries, with commas between them, are the string that was given; there
-- are no more of them than allowed, and each fits into its buffer and has no comma.
pub join-ufpd_parse_list :
    (str : List ℕ) (max_count : ℕ) (entries : List (List ℕ))
    → ufpd_parse_list str max_arglen max_count ≡ some entries
    → (join entries ≡ str) × All IsEntry entries × (length entries ≤ max_count)
unfolding ufpd_parse_list
join-ufpd_parse_list str max_count entries e =
    let w = parse_list_from-IsSplit max_count [] str entries (omega arith, tt) e in
    rw w.some_entry (w.joined, w.bounded, w.counted)

-- The conversion of more entries than there is room for converts those that fit, and succeeds: the
-- number of results is the smaller of the two numbers.
pub length-ufpd_convert_list :
    (numbers : Numbers) (entries : List (List ℕ)) (max_count : ℕ) (nums : List ℕ)
    → ufpd_convert_list numbers entries max_count ≡ some nums
    → length nums ≡ (if leb (length entries) max_count then length entries else max_count)
unfolding ufpd_convert_list
length-ufpd_convert_list numbers [] max_count nums e =
    let same : nums ≡ [] = ground (arith, e) in rw same (ground arith)
length-ufpd_convert_list numbers (s ∷ entries) zero nums e =
    let same : nums ≡ [] = ground (arith, e) in rw same (ground arith)
length-ufpd_convert_list numbers (s ∷ entries) (suc max_count) nums e =
    elim (Option-cases (numbers.scan s)) [
      | inl bad ↦ absurd (cc (rw (bad, ufpd_convert_list) at e))
      | inr (num, good) ↦ elim (Option-cases (ufpd_convert_list numbers entries max_count)) [
        | inl bad ↦ absurd (cc (rw (good, bad, ufpd_convert_list) at e))
        | inr (rest, converted) ↦
            let e' : some (num ∷ rest) ≡ some nums = rw (good, converted, ufpd_convert_list) at e in
            let shorter = length-ufpd_convert_list numbers entries max_count rest converted in
            let same : nums ≡ num ∷ rest = ground (arith, e') in rw same (ground (arith, shorter))
      ]
    ]
