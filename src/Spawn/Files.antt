-- ===== src/Spawn/Files.antt =====
-- Where the extra files stand in the table of the process that is started.
use mathlib.Core.List.{append-nil}
use rootlesskit.Base.{
  length, ltb, ℕ, zero, suc, ◌+◌, ◌-◌, ◌<◌, ◌≡◌, refl, ap, ◌∙◌, subst, false, Option, some, List,
  [], ◌∷◌, ◌++◌, arith, get_elem?,
}
use rootlesskit.Spawn.{Environ, listen_fds, files_from, extra_files, table_of, file_at}

module _ {F : Type 0} where
  pub length-files : (table : ℕ → Option F) (fd n : ℕ) → length (files_from table fd n) ≡ n
  unfolding files_from
  length-files table fd zero = refl
  length-files table fd (suc n) = omega (arith, length-files table (suc fd) n)

  files-at :
      (table : ℕ → Option F) (fd n i : ℕ) (rest : List (Option F))
      → i < n
      → get_elem? (files_from table fd n ++ rest) i ≡ some (table (fd + i))
  unfolding files_from
  files-at table fd zero i rest lt = absurd (omega arith)
  files-at table fd (suc n) zero rest lt = ap (λ k. some (table k)) (omega arith)
  files-at table fd (suc n) (suc i) rest lt =
      files-at table (suc fd) n i rest (omega arith) ∙ ap (λ k. some (table k)) (omega arith)

  pub files-at_alone :
      (table : ℕ → Option F) (fd n i : ℕ)
      → i < n
      → get_elem? (files_from table fd n) i ≡ some (table (fd + i))
  files-at_alone table fd n i lt =
      subst (λ x. get_elem? x i ≡ some (table (fd + i))) (append-nil (files_from table fd n))
        (files-at table fd n i [] lt)

  get_elem-append :
      (xs ys : List (Option F)) (i : ℕ) → get_elem? (xs ++ ys) (length xs + i) ≡ get_elem? ys i
  get_elem-append [] ys i = ap (get_elem? ys) (omega arith)
  get_elem-append (x ∷ xs) ys i =
      let next : suc (length xs) + i ≡ suc (length xs + i) = omega arith in
      ap (get_elem? (x ∷ (xs ++ ys))) next ∙ get_elem-append xs ys i

  -- A descriptor beyond the standard ones is that of the extra file at its place.
  pub table_of-shift :
      (files : List (Option F)) (i : ℕ) → table_of files (3 + i) ≡ file_at (get_elem? files i)
  unfolding table_of
  table_of-shift files i =
      let place : 3 + i - 3 ≡ i = omega arith in
      let large : ltb (3 + i) 3 ≡ false = ground arith in rw (place, large) refl

  pub socket-at :
      (table : ℕ → Option F) (read_pipe write_pipe : F) (env : Environ) (i : ℕ)
      → i < listen_fds env
      → table_of (extra_files table read_pipe write_pipe env) (3 + i) ≡ table (3 + i)
  unfolding extra_files
  socket-at table r w env i lt =
      let files = files_from table 3 (listen_fds env) ++ some r ∷ some w ∷ [] in
      table_of-shift files i
      ∙ ap file_at (files-at table 3 (listen_fds env) i (some r ∷ some w ∷ []) lt)

  pub pipe-at :
      (table : ℕ → Option F) (read_pipe write_pipe : F) (env : Environ) (i : ℕ)
      → table_of (extra_files table read_pipe write_pipe env) (3 + (listen_fds env + i))
        ≡ file_at (get_elem? (some read_pipe ∷ some write_pipe ∷ []) i)
  unfolding extra_files
  pipe-at table r w env i =
      let n = listen_fds env in
      let same : n + i ≡ length (files_from table 3 n) + i =
        omega (arith, length-files table 3 n) in
      table_of-shift (files_from table 3 n ++ some r ∷ some w ∷ []) (n + i)
      ∙ ap (λ k. file_at (get_elem? (files_from table 3 n ++ some r ∷ some w ∷ []) k)) same
      ∙ ap file_at (get_elem-append (files_from table 3 n) (some r ∷ some w ∷ []) i)
