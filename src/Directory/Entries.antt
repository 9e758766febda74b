-- ===== src/Directory/Entries.antt =====
-- Adding, finding and removing entries, and `validate`.
use os_course_design.Prelude.{
  ℕ, ◌≤◌, ◌≡◌, ◌↔◌, refl, ◌∙◌, inl, inr, true, false, List, [], ◌∷◌, ◌++◌, none, some, arith, ltb,
  if◌then◌else◌, Bool-cases, length, All, same_string, c_string, text_eq_comm,
}
use os_course_design.Directory.{
  DirectoryEntry, Directory, max_entries, name_size, find_in, none_named, all_distinct, validate,
}

-- No entry has the name.
abbrev pub NoneNamed : List ℕ → List DirectoryEntry → Type 0
NoneNamed name = All (λ e. same_string name e.name ≡ false)

-- No two entries have the same name.
abbrev pub Distinct : List DirectoryEntry → Type 0
Distinct [] = Unit {0}
Distinct (e ∷ es) = NoneNamed e.name es × Distinct es

pub record IsValid (d : Directory) : Type 0 where
  pub distinct : Distinct d.entries
  pub bounded : length d.entries ≤ max_entries
  pub arrays : All (λ e. length e.name ≡ name_size) d.entries

none_named_iff :
    (name : List ℕ) (es : List DirectoryEntry) → (none_named name es ≡ true) ↔ NoneNamed name es
unfolding none_named
none_named_iff name [] = ((λ h. tt), λ h. refl)
none_named_iff name (e ∷ es) =
    let (to, from) = none_named_iff name es in
    elim (Bool-cases (same_string name e.name)) [
      | inl t ↦ rw t ((λ h. absurd (ground arith)), λ h. absurd (ground arith))
      | inr t ↦ rw t ((λ h. (refl, to h)), λ h. from h.1)
    ]

all_distinct_iff : (es : List DirectoryEntry) → (all_distinct es ≡ true) ↔ Distinct es
unfolding all_distinct
all_distinct_iff [] = ((λ h. tt), λ h. refl)
all_distinct_iff (e ∷ es) =
    let (to, from) = all_distinct_iff es in
    let (to', from') = none_named_iff e.name es in
    elim (Bool-cases (none_named e.name es)) [
      | inl t ↦ rw t ((λ h. (to' t, to h)), λ h. from h.1)
      | inr t ↦ rw t ((λ h. absurd (ground arith)), λ h. absurd (ground (arith, from' h.0)))
    ]

-- `validate` accepts a directory exactly if it has at most 256 entries and no two of one name.
pub validate-Distinct :
    (d : Directory) → (validate d ≡ true) ↔ ((length d.entries ≤ max_entries) × Distinct d.entries)
unfolding validate
validate-Distinct d =
    let (to, from) = all_distinct_iff d.entries in
    elim (Bool-cases (ltb max_entries (length d.entries))) [
      | inl t ↦ rw t ((λ h. absurd (ground arith)), λ h. absurd (ground (arith, h.0)))
      | inr t ↦ rw t ((λ h. (ground arith, to h)), λ h. from h.1)
    ]

-- Names that are the same C string are looked up alike.
pub find_in-ext :
    (es : List DirectoryEntry) (m n : List ℕ)
    → c_string m ≡ c_string n
    → find_in es m ≡ find_in es n
unfolding find_in
find_in-ext [] m n h = refl
find_in-ext (e ∷ es) m n h = rw (h, find_in-ext es m n h) refl

pub find_in-append :
    (es : List DirectoryEntry) (e : DirectoryEntry) (n : List ℕ)
    → find_in (es ++ e ∷ []) n ≡ elim (find_in es n) [
      | some x ↦ some x
      | none ↦ if same_string e.name n then some e else none
    ]
unfolding find_in
find_in-append [] e n = refl
find_in-append (x ∷ es) e n = ground (arith, find_in-append es e n)

pub NoneNamed-of_none :
    (es : List DirectoryEntry) (n : List ℕ) → find_in es n ≡ none → NoneNamed n es
unfolding find_in
NoneNamed-of_none [] n h = tt
NoneNamed-of_none (e ∷ es) n h = elim (Bool-cases (same_string e.name n)) [
  | inl t ↦ absurd (ground arith)
  | inr t ↦ (text_eq_comm (c_string n) (c_string e.name) ∙ t, NoneNamed-of_none es n (ground arith))
]
