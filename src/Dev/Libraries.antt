-- ===== src/Dev/Libraries.antt =====
-- lib/lib_dev.c: the shared libraries that hold drivers. The names in a directory, which `readdir`
-- gives, are lists of bytes; `dlopen` of a path, which may fail, and `dlclose` are parameters.
use ufp.Common.{
  ℕ, ◌≡◌, inl, inr, refl, Bool, true, false, ◌&&◌, Option, none, some, List, [], ◌∷◌, ◌++◌, ◌==◌,
  if◌then◌else◌, Bool-cases,
}
use ufp.Heap.{Heap}

-- `open` gives a handle
pub record Loader (L : Type 0) : Type 0 where
  pub dlopen : List ℕ → L → Option ℕ × L
  pub dlclose : ℕ → L → L

-- `dylibs`, the handles of the libraries that are open
pub record Libraries (H L : Type 0) : Type 0 where
  pub dylibs : List ℕ
  pub heap : H
  pub loader : L

-- `strrchr(name, '.')`
abbrev pub extension : List ℕ → Option (List ℕ)
extension [] = none
extension (c ∷ name) =
    let later = extension name in
    elim later [ some ext ↦ some ext | none ↦ if c == 46 then some (c ∷ name) else none ]

-- `!strcmp(a, b)`
abbrev pub same_string : List ℕ → List ℕ → Bool
same_string [] [] = true
same_string [] (d ∷ b) = false
same_string (c ∷ a) [] = false
same_string (c ∷ a) (d ∷ b) = c == d && same_string a b

abbrev pub dot_so : List ℕ
dot_so = 46 ∷ 115 ∷ 111 ∷ []

abbrev pub is_library : List ℕ → Bool
is_library name = elim (extension name) [ none ↦ false | some ext ↦ same_string ext dot_so ]

module _ {H L : Type 0} (heap : Heap H) (ops : Loader L) where
  open heap use {malloc, free}
  open ops use {dlopen, dlclose}

  unfoldable pub close_all : List ℕ → H → L → Libraries H L
  close_all [] h l = record { dylibs = []; heap = h; loader = l }
  close_all (handle ∷ handles) h l = close_all handles (free h) (dlclose handle l)

  abbrev pub ufp_dev_unload_lib : Libraries H L → Libraries H L
  ufp_dev_unload_lib s = close_all s.dylibs s.heap s.loader

  -- one library of the directory: `false` is the way to `err_open`
  unfoldable pub load_one : (dir_path name : List ℕ) → Libraries H L → Bool × Libraries H L
  load_one dir_path name s = elim (malloc s.heap) [
    | none ↦ (false, s)
    | some h ↦
        let (handle, l) = dlopen (dir_path ++ (47 ∷ name)) s.loader in
        elim handle [
          | none ↦ (false, record { dylibs = s.dylibs; heap = free h; loader = l })
          | some handle ↦
              (true, record { dylibs = s.dylibs ++ (handle ∷ []); heap = h; loader = l })
        ]
  ]

  unfoldable pub load_all :
      (dir_path : List ℕ) (names : List (List ℕ)) → Libraries H L → Bool × Libraries H L
  load_all dir_path [] s = (true, s)
  load_all dir_path (name ∷ names) s =
      let (ok, s') = load_one dir_path name s in
      let next = load_all dir_path names s' in
      let skipped = load_all dir_path names s in
      if is_library name then (if ok then next else (false, ufp_dev_unload_lib s')) else skipped

  -- the names of the directory, or `none` if `opendir` fails
  unfoldable pub ufp_dev_load_lib :
      (dir_path : List ℕ) → Option (List (List ℕ)) → Libraries H L → Bool × Libraries H L
  ufp_dev_load_lib dir_path none s = (false, s)
  ufp_dev_load_lib dir_path (some names) s = load_all dir_path names s

  close_all-none : (handles : List ℕ) (h : H) (l : L) → (close_all handles h l).dylibs ≡ []
  unfolding close_all
  close_all-none [] h l = refl
  close_all-none (handle ∷ handles) h l = close_all-none handles (free h) (dlclose handle l)

  -- A directory of which one library does not open leaves none open: also those that were open
  -- before are closed.
  load_all-none :
      (dir_path : List ℕ) (names : List (List ℕ)) (s : Libraries H L)
      → (load_all dir_path names s).0 ≡ false
      → (load_all dir_path names s).1.dylibs ≡ []
  unfolding load_all
  load_all-none dir_path [] s e = absurd (cc)
  load_all-none dir_path (name ∷ names) s e =
      let s' = (load_one dir_path name s).1 in
      elim (Bool-cases (is_library name)) [
        | inr other ↦ rw other (load_all-none dir_path names s (rw other at e))
        | inl so ↦ elim (Bool-cases (load_one dir_path name s).0) [
          | inl ok ↦ rw (so, ok) (load_all-none dir_path names s' (rw (so, ok) at e))
          | inr failed ↦ rw (so, failed) (close_all-none s'.dylibs s'.heap s'.loader)
        ]
      ]
