-- ===== src/Directory/Removal.antt =====
-- What `remove_entry` does to later lookups.
use os_course_design.Prelude.{
  ℕ, ◌≤◌, ◌≡◌, refl, sym, ◌∙◌, inl, inr, Bool, true, false, List, [], ◌∷◌, none, some, arith,
  if◌then◌else◌, Bool-cases, Option-cases, length, All, same_string, c_string, text_eq_comm,
  eq_of_text_eq,
}
use os_course_design.Directory.{
  DirectoryEntry, Directory, name_size, find_in, find_entry, erase_in, remove_entry,
}
use os_course_design.Directory.Entries.{NoneNamed, Distinct, IsValid}
use os_course_design.Directory.Changes.{NoneNamed-ext}

NoneNamed-erase_in :
    (m n : List ℕ) (es : List DirectoryEntry) → NoneNamed m es → NoneNamed m (erase_in es n)
unfolding erase_in
NoneNamed-erase_in m n [] h = tt
NoneNamed-erase_in m n (x ∷ es) h = elim (Bool-cases (same_string x.name n)) [
  | inl t ↦ rw t h.1
  | inr t ↦ rw t (h.0, NoneNamed-erase_in m n es h.1)
]

Distinct-erase_in : (n : List ℕ) (es : List DirectoryEntry) → Distinct es → Distinct (erase_in es n)
unfolding erase_in
Distinct-erase_in n [] d = tt
Distinct-erase_in n (x ∷ es) d = elim (Bool-cases (same_string x.name n)) [
  | inl t ↦ rw t d.1
  | inr t ↦ rw t (NoneNamed-erase_in x.name n es d.0, Distinct-erase_in n es d.1)
]

arrays-erase_in :
    (n : List ℕ) (es : List DirectoryEntry)
    → All (λ x. length x.name ≡ name_size) es
    → All (λ x. length x.name ≡ name_size) (erase_in es n)
unfolding erase_in
arrays-erase_in n [] a = tt
arrays-erase_in n (x ∷ es) a = elim (Bool-cases (same_string x.name n)) [
  | inl t ↦ rw t a.1
  | inr t ↦ rw t (a.0, arrays-erase_in n es a.1)
]

length-erase_in : (n : List ℕ) (es : List DirectoryEntry) → length (erase_in es n) ≤ length es
unfolding erase_in
length-erase_in n [] = ground arith
length-erase_in n (x ∷ es) = elim (Bool-cases (same_string x.name n)) [
  | inl t ↦ ground arith
  | inr t ↦ ground (arith, length-erase_in n es)
]

find_in-none : (n : List ℕ) (es : List DirectoryEntry) → NoneNamed n es → find_in es n ≡ none
unfolding find_in
find_in-none n [] h = refl
find_in-none n (x ∷ es) h =
    rw (text_eq_comm (c_string x.name) (c_string n) ∙ h.0) (find_in-none n es h.1)

find_in-erase_in :
    (n m : List ℕ) (es : List DirectoryEntry)
    → Distinct es
    → find_in (erase_in es n) m ≡ (if same_string n m then none else find_in es m)
unfolding find_in erase_in
find_in-erase_in n m [] d = elim (Bool-cases (same_string n m)) [
  | inl t ↦ rw t refl
  | inr t ↦ rw t refl
]
find_in-erase_in n m (x ∷ es) d = elim (Bool-cases (same_string x.name n)) [
  | inl t ↦
      let e : c_string x.name ≡ c_string n = eq_of_text_eq _ _ t in
      elim (Bool-cases (same_string n m)) [
        | inl u ↦
            let e' : c_string n ≡ c_string m = eq_of_text_eq _ _ u in
            rw (t, u) (find_in-none m es (NoneNamed-ext m x.name es (sym (e ∙ e')) d.0))
        | inr u ↦ rw (t, e, u) refl
      ]
  | inr t ↦ elim (Bool-cases (same_string x.name m)) [
    | inl u ↦
        let e : c_string x.name ≡ c_string m = eq_of_text_eq _ _ u in
        rw (t, u, sym e, text_eq_comm (c_string n) (c_string x.name) ∙ t) refl
    | inr u ↦ rw (t, u) (find_in-erase_in n m es d.1)
  ]
]

-- What a call of `remove_entry` may do, by its answer.
abbrev pub Removes : Directory → List ℕ → Directory → Bool → Type 0
Removes d name d' false = (d' ≡ d) × (find_entry d name ≡ none)
Removes d name d' true =
    IsValid d'
    × (d'.dir_inode_id ≡ d.dir_inode_id)
    × ((e : DirectoryEntry) × (find_entry d name ≡ some e))
    × ((n : List ℕ) → find_entry d' n ≡ (if same_string name n then none else find_entry d n))

remove_entry_absent :
    (d : Directory) (name : List ℕ) → find_entry d name ≡ none → remove_entry d name ≡ (d, false)
unfolding remove_entry
remove_entry_absent d name h = rw (h, remove_entry) refl

remove_entry_found :
    (d : Directory) (name : List ℕ) (e : DirectoryEntry)
    → find_entry d name ≡ some e
    → remove_entry d name ≡ (record d { entries = erase_in d.entries name }, true)
unfolding remove_entry
remove_entry_found d name e h = rw (h, remove_entry) refl

-- On a valid directory, `remove_entry` fails exactly for a name that is not there, and then changes
-- nothing. Otherwise the name is not found afterwards, every other name is found as before, and the
-- directory is valid.
pub remove_entry-Removes :
    (d : Directory) (name : List ℕ)
    → IsValid d
    → Removes d name (remove_entry d name).0 (remove_entry d name).1
unfolding find_entry
remove_entry-Removes d name v = elim (Option-cases (find_in d.entries name)) [
  | inl absent ↦ rw (remove_entry_absent d name absent) (refl, absent)
  | inr (e, found) ↦ rw (remove_entry_found d name e found) (
    record {
      distinct = Distinct-erase_in name d.entries v.distinct;
      bounded = omega (arith, v.bounded, length-erase_in name d.entries);
      arrays = arrays-erase_in name d.entries v.arrays;
    },
    refl,
    (e, found),
    λ n. find_in-erase_in name n d.entries v.distinct,
  )
]
