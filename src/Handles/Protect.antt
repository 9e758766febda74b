-- ===== src/Handles/Protect.antt =====
-- Open files and `is_file_protected`.
use os_course_design.Prelude.{
  ℕ, ◌+◌, ◌-◌, ◌≡◌, ap, subst, ◌∙◌, inl, inr, true, List, arith, ltb, if◌then◌else◌, Bool-cases,
  text_eq, text_eq_self,
}
use os_course_design.Paths.{normalize_path}
use os_course_design.Handles.{SimpleFileSystem, open_file, close_file, is_file_protected}
use os_course_design.Handles.Counts.{opened, is_open-opened, IsValid}
use os_course_design.Handles.Calls.{open_file-Counts, close_file-Counts}

is_file_protected_lem :
    (s : SimpleFileSystem) (path : List ℕ)
    → is_file_protected s path ≡ ltb 0 (opened s.open_files path)
unfolding is_file_protected
is_file_protected_lem s path = is_open-opened s.open_files path

same_path :
    (s t : SimpleFileSystem) (path : List ℕ)
    → t.current_path ≡ s.current_path
    → normalize_path t.current_path path ≡ normalize_path s.current_path path
same_path s t path e = ap (λ c. normalize_path c path) e

-- A file that was opened is protected until it is closed; closing it succeeds, and every file is then open
-- as often as before.
pub close_file-open_file :
    (inode_id : List ℕ → ℕ) (s : SimpleFileSystem) (path : List ℕ)
    → IsValid s.open_files
    → (open_file inode_id s path).1 ≡ true
    → let t = (open_file inode_id s path).0 in
      (is_file_protected t (normalize_path s.current_path path) ≡ true)
      × ((close_file t path).1 ≡ true)
      × IsValid (close_file t path).0.open_files
      × ((q : List ℕ) → opened (close_file t path).0.open_files q ≡ opened s.open_files q)
close_file-open_file inode_id s path v ok = elim (open_file-Counts inode_id s path v) [
  | inr (e, why) ↦ absurd (ground (arith, ok, e))
  | inl (opens, m, found, c) ↦
      let t : SimpleFileSystem = (open_file inode_id s path).0 in
      let p : List ℕ = normalize_path s.current_path path in
      let once : opened t.open_files p ≡ opened s.open_files p + 1 =
        ground (arith, c.3 p, text_eq_self p) in
      let same = same_path s t path c.2 in
      elim (close_file-Counts t path c.0) [
        | inr (e, inl u) ↦ absurd (ground (arith, m, c.1, u))
        | inr (e, inr u) ↦
            absurd (ground (arith, once, subst (λ r. opened t.open_files r ≡ 0) same u))
        | inl (done, m', open_now, c') ↦ (
          is_file_protected_lem t p ∙ ground (arith, once),
          done,
          c'.0,
          restored t p same c'.3 c.3,
        )
      ]
]
  where
    restored :
        (t : SimpleFileSystem) (p : List ℕ)
        → normalize_path t.current_path path ≡ p
        → ((q : List ℕ)
            → opened (close_file t path).0.open_files q ≡ (
                if text_eq (normalize_path t.current_path path) q
                then opened t.open_files q - 1
                else opened t.open_files q))
        → ((q : List ℕ)
            → opened t.open_files q
              ≡ (if text_eq p q then opened s.open_files q + 1 else opened s.open_files q))
        → (q : List ℕ) → opened (close_file t path).0.open_files q ≡ opened s.open_files q
    restored t p same f g q = elim (Bool-cases (text_eq p q)) [
      | inl u ↦ ground (arith, f q, g q, ap (λ r. text_eq r q) same, u)
      | inr u ↦ ground (arith, f q, g q, ap (λ r. text_eq r q) same, u)
    ]
