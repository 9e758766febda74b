-- ===== src/Handles/Calls.antt =====
-- What `open_file` and `close_file` do to the openings.
use os_course_design.Prelude.{
  ℕ, ◌+◌, ◌-◌, ◌<◌, ◌≡◌, ◌⊎◌, refl, ap, sym, subst, inl, inr, true, false, List, arith, ◌==◌,
  if◌then◌else◌, Bool-cases, text_eq,
}
use os_course_design.Paths.{normalize_path}
use os_course_design.Handles.{
  SimpleFileSystem, find_open, increment, decrement, open_file, is_open, close_file,
}
use os_course_design.Handles.Counts.{
  opened, is_open-opened, IsValid, opened-increment, opened-decrement, increment-IsValid,
  decrement-IsValid,
}

-- What a call of `open_file` or `close_file` leaves of the openings of each path.
abbrev pub Counts : SimpleFileSystem → List ℕ → (ℕ → ℕ) → SimpleFileSystem → Type 0
Counts s path f t =
    IsValid t.open_files
    × (t.mounted ≡ s.mounted)
    × (t.current_path ≡ s.current_path)
    × ((q : List ℕ)
        → opened t.open_files q ≡ (
            if text_eq (normalize_path s.current_path path) q
            then f (opened s.open_files q)
            else opened s.open_files q))

-- `open_file` answers true exactly for a path, taken from the current directory, that has an inode in a
-- mounted file system; that path is then open once more. Otherwise nothing changes.
pub open_file-Counts :
    (inode_id : List ℕ → ℕ) (s : SimpleFileSystem) (path : List ℕ)
    → IsValid s.open_files
    → (((open_file inode_id s path).1 ≡ true)
        × (s.mounted ≡ true)
        × (0 < inode_id (normalize_path s.current_path path))
        × Counts s path (λ n. n + 1) (open_file inode_id s path).0)
      ⊎ ((open_file inode_id s path ≡ (s, false))
          × ((s.mounted ≡ false) ⊎ (inode_id (normalize_path s.current_path path) ≡ 0)))
unfolding open_file
open_file-Counts inode_id s path v = elim (Bool-cases s.mounted) [
  | inr m ↦ inr (ground (arith, m), inl m)
  | inl m ↦ elim (Bool-cases (inode_id (normalize_path s.current_path path) == 0)) [
    | inl z ↦ inr (ground (arith, m, z), inr (ground arith))
    | inr z ↦
        let e : open_file inode_id s path ≡ (
          record s { open_files = increment s.open_files (normalize_path s.current_path path) },
          true,
        ) =
          ground (arith, m, z) in
        inl (
          ap (λ r. r.1) e,
          m,
          ground arith,
          subst (λ r. Counts s path (λ n. n + 1) r.0) (sym e)
              (
                increment-IsValid s.open_files (normalize_path s.current_path path) v,
                refl,
                refl,
                opened-increment s.open_files (normalize_path s.current_path path),
              ),
        )
  ]
]

-- `close_file` answers true exactly for a path, taken from the current directory, that is open in a
-- mounted file system; that path is then open once less. Otherwise nothing changes.
pub close_file-Counts :
    (s : SimpleFileSystem) (path : List ℕ)
    → IsValid s.open_files
    → (((close_file s path).1 ≡ true)
        × (s.mounted ≡ true)
        × (0 < opened s.open_files (normalize_path s.current_path path))
        × Counts s path (λ n. n - 1) (close_file s path).0)
      ⊎ ((close_file s path ≡ (s, false))
          × ((s.mounted ≡ false) ⊎ (opened s.open_files (normalize_path s.current_path path) ≡ 0)))
unfolding close_file
close_file-Counts s path v = elim (Bool-cases s.mounted) [
  | inr m ↦ inr (ground (arith, m), inl m)
  | inl m ↦
      let test = is_open-opened s.open_files (normalize_path s.current_path path) in
      elim (Bool-cases (is_open (find_open s.open_files (normalize_path s.current_path path)))) [
        | inr z ↦ inr (ground (arith, m, z), inr (ground (arith, test, z)))
        | inl z ↦
            let e : close_file s path ≡ (
              record s { open_files = decrement s.open_files (normalize_path s.current_path path) },
              true,
            ) =
              ground (arith, m, z) in
            inl (
              ap (λ r. r.1) e,
              m,
              ground (arith, test, z),
              subst (λ r. Counts s path (λ n. n - 1) r.0) (sym e)
                  (
                    decrement-IsValid s.open_files (normalize_path s.current_path path) v,
                    refl,
                    refl,
                    λ q. opened-decrement s.open_files (normalize_path s.current_path path) q v,
                  ),
            )
      ]
]
