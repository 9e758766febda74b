-- ===== src/FileSystem/Codes.antt =====
-- The calls that are refused before they reach the manager.
use os_course_design.Prelude.{
  ℕ, ◌≡◌, refl, ap, sym, ◌∙◌, Bool, true, false, List, none, some, arith, inl, inr, Bool-cases,
  if◌then◌else◌, ◌==◌,
}
use os_course_design.Paths.{normalize_path}
use os_course_design.Handles.{SimpleFileSystem, is_file_protected}
use os_course_design.Handles
use os_course_design.Handles.Counts.{IsValid}
use os_course_design.Handles.Protect.{close_file-open_file}
use os_course_design.INode.{Env}
use os_course_design.Tree.{minus_one, minus_two}
use os_course_design.Listing
use os_course_design.Listing.{no_info}
use os_course_design.FileSystem.{
  Volume, create_file, delete_file, read_file, write_file, create_directory, delete_directory,
  get_file_info, change_directory, open_file,
}

-- Without a mounted volume every operation answers -1, false or no information, and changes nothing.
pub unmounted_refuses :
    (e : Env) (v : Volume) (path content : List ℕ) (fuel : ℕ)
    → v.mounted ≡ false
    → (create_file e path content v ≡ (v, minus_one))
      × (delete_file e path v ≡ (v, minus_one))
      × (read_file e path v ≡ (v, minus_one, none))
      × (write_file e path content v ≡ (v, minus_one))
      × (create_directory e path content v ≡ (v, minus_one))
      × (delete_directory e fuel path v ≡ (v, some minus_one))
      × (get_file_info e path v ≡ (v, no_info))
      × (change_directory e path v ≡ (v, false))
      × (open_file e path v ≡ (v, false))
unfolding create_file delete_file read_file write_file create_directory delete_directory
    get_file_info change_directory open_file
unmounted_refuses e v path content fuel h =
    rw h (refl, refl, refl, refl, refl, refl, refl, refl, refl)

-- Opening changes neither the current directory nor the mount.
open-same :
    (f : List ℕ → ℕ) (s : SimpleFileSystem) (path : List ℕ)
    → ((Handles.open_file f s path).0.current_path ≡ s.current_path)
      × ((Handles.open_file f s path).0.mounted ≡ s.mounted)
unfolding Handles.open_file
open-same f s path = elim (Bool-cases (s.mounted)) [
  | inr t ↦ rw t (refl, refl)
  | inl t ↦ elim (Bool-cases (f (normalize_path s.current_path path) == 0)) [
    | inl k ↦ rw (t, k) (refl, refl)
    | inr k ↦ rw (t, k) (refl, refl)
  ]
]

protected_write :
    (e : Env) (v : Volume) (path content : List ℕ)
    → v.mounted ≡ true
    → is_file_protected v.handles (normalize_path v.current_path path) ≡ true
    → write_file e path content v ≡ (v, minus_two)
unfolding write_file
protected_write e v path content t p = rw (p, t) refl

protected_delete :
    (e : Env) (v : Volume) (path : List ℕ)
    → v.mounted ≡ true
    → is_file_protected v.handles path ≡ true
    → delete_file e path v ≡ (v, minus_two)
unfolding delete_file
protected_delete e v path t p = rw (p, t) refl

-- What an answer of true leaves.
record Opened (v : Volume) (path : List ℕ) (w : Volume) : Type 0 where
  pub still_mounted : w.mounted ≡ true
  pub same_path : w.current_path ≡ v.current_path
  pub protects : is_file_protected w.handles (normalize_path v.current_path path) ≡ true

-- What `open_file` does while mounted.
abbrev pub reached : Env → Volume → List ℕ → Volume × Bool
reached e v path =
    let (s, info) = Listing.get_file_info e (normalize_path v.current_path path) v.manager in
    let (h, ok) = Handles.open_file (λ _. info.inode_id) v.handles path in
    (record v { handles = h; manager = s }, ok)

pub open_file-reached :
    (e : Env) (v : Volume) (path : List ℕ)
    → v.mounted ≡ true
    → open_file e path v ≡ reached e v path
unfolding open_file
open_file-reached e v path t = ap (λ (b : Bool). if b then reached e v path else (v, false)) t

mounted_before :
    (e : Env) (v : Volume) (path : List ℕ) → (open_file e path v).1 ≡ true → v.mounted ≡ true
unfolding open_file
mounted_before e v path ok = elim (Bool-cases (v.mounted)) [
  | inl t ↦ t
  | inr t ↦ absurd (ground (arith, rw t at ok))
]

open_file-Opened :
    (e : Env) (v : Volume) (path : List ℕ)
    → IsValid v.open_files
    → (open_file e path v).1 ≡ true
    → Opened v path (open_file e path v).0
open_file-Opened e v path valid ok =
    let t = mounted_before e v path ok in
    let same = open_file-reached e v path t in
    let id = (Listing.get_file_info e (normalize_path v.current_path path) v.manager).1.inode_id in
    let (path_same, mount_same) = open-same (λ _. id) v.handles path in
    let closes =
      close_file-open_file (λ _. id) v.handles path valid
        (ap (λ (r : Volume × Bool). r.1) (sym same) ∙ ok) in
    rw same (record { still_mounted = mount_same ∙ t; same_path = path_same; protects = closes.0 })

-- Once `open_file` of a path answers true, `write_file` of the path and `delete_file` of the normalized path
-- answer -2 and change nothing, if the counts of the open files are well-formed before.
pub open_file-protects :
    (e e' : Env) (v : Volume) (path content : List ℕ)
    → IsValid v.open_files
    → (open_file e path v).1 ≡ true
    → (write_file e' path content (open_file e path v).0 ≡ ((open_file e path v).0, minus_two))
      × (delete_file e' (normalize_path v.current_path path) (open_file e path v).0
          ≡ ((open_file e path v).0, minus_two))
open_file-protects e e' v path content valid ok =
    let o = open_file-Opened e v path valid ok in
    (
      protected_write e' (open_file e path v).0 path content o.still_mounted (
          ap (λ p. is_file_protected (open_file e path v).0.handles (normalize_path p path))
            o.same_path
          ∙ o.protects),
      protected_delete e' (open_file e path v).0 (normalize_path v.current_path path)
          o.still_mounted o.protects,
    )
