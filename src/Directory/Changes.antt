-- ===== src/Directory/Changes.antt =====
-- What `add_entry` does to later lookups.
use os_course_design.Prelude.{
  ℕ, ◌-◌, ◌≤◌, ◌<◌, ◌≡◌, ◌⊎◌, refl, ap, ◌∙◌, inl, inr, Bool, true, false, ◌||◌, List, [], ◌∷◌, ◌++◌,
  none, some, arith, leb, ◌==◌, if◌then◌else◌, Bool-cases, Option-cases, length, length-append,
  length-strncpy, All, same_string, strncpy, c_string, c_string-strncpy, text_eq, text_eq_comm,
  eq_of_text_eq,
}
use os_course_design.Directory.{
  DirectoryEntry, Directory, max_entries, name_size, find_in, find_entry, new_entry, add_entry,
}
use os_course_design.Directory.Entries.{
  NoneNamed, Distinct, IsValid, find_in-ext, find_in-append, NoneNamed-of_none,
}

c_string-new_entry :
    (name : List ℕ) (id kind : ℕ)
    → length name < name_size
    → c_string (new_entry name id kind).name ≡ c_string name
unfolding new_entry
c_string-new_entry name id kind h = c_string-strncpy (name_size - 1) name [] (omega arith)

length-new_entry : (name : List ℕ) (id kind : ℕ) → length (new_entry name id kind).name ≡ name_size
unfolding new_entry
length-new_entry name id kind = omega (
  arith,
  length-append (strncpy (name_size - 1) name) (0 ∷ []),
  length-strncpy (name_size - 1) name,
)

NoneNamed-append :
    (n : List ℕ) (es : List DirectoryEntry) (e : DirectoryEntry)
    → NoneNamed n es
    → same_string n e.name ≡ false
    → NoneNamed n (es ++ e ∷ [])
NoneNamed-append n [] e h k = (k, tt)
NoneNamed-append n (x ∷ es) e h k = (h.0, NoneNamed-append n es e h.1 k)

Distinct-append :
    (es : List DirectoryEntry) (e : DirectoryEntry)
    → Distinct es
    → NoneNamed e.name es
    → Distinct (es ++ e ∷ [])
Distinct-append [] e d n = (tt, tt)
Distinct-append (x ∷ es) e d n = (
  NoneNamed-append x.name es e d.0 (text_eq_comm (c_string x.name) (c_string e.name) ∙ n.0),
  Distinct-append es e d.1 n.1,
)

arrays-append :
    (es : List DirectoryEntry) (e : DirectoryEntry)
    → All (λ x. length x.name ≡ name_size) es
    → length e.name ≡ name_size
    → All (λ x. length x.name ≡ name_size) (es ++ e ∷ [])
arrays-append [] e a h = (h, tt)
arrays-append (x ∷ es) e a h = (a.0, arrays-append es e a.1 h)

pub NoneNamed-ext :
    (m n : List ℕ) (es : List DirectoryEntry)
    → c_string m ≡ c_string n
    → NoneNamed n es
    → NoneNamed m es
NoneNamed-ext m n [] e h = tt
NoneNamed-ext m n (x ∷ es) e h = (rw e h.0, NoneNamed-ext m n es e h.1)

-- What a call of `add_entry` may do, by its answer.
abbrev pub Adds : Directory → List ℕ → ℕ → ℕ → Directory → Bool → Type 0
Adds d name id kind d' false =
    (d' ≡ d)
    × ((length name ≡ 0)
        ⊎ ((name_size ≤ length name)
            ⊎ (((e : DirectoryEntry) × (find_entry d name ≡ some e))
                ⊎ (max_entries ≤ length d.entries))))
Adds d name id kind d' true =
    IsValid d'
    × (d'.dir_inode_id ≡ d.dir_inode_id)
    × ((e : DirectoryEntry) × (e.inode_id ≡ id)
        × (e.kind ≡ kind)
        × (c_string e.name ≡ c_string name)
        × ((n : List ℕ)
            → find_entry d' n ≡ (if same_string name n then some e else find_entry d n)))
    × (0 < length name)
    × (length name < name_size)
    × (find_entry d name ≡ none)
    × (length d.entries < max_entries)

added : Directory → List ℕ → ℕ → ℕ → Directory
added d name id kind = record d { entries = d.entries ++ new_entry name id kind ∷ [] }

added-Adds :
    (d : Directory) (name : List ℕ) (id kind : ℕ)
    → IsValid d
    → 0 < length name
    → length name < name_size
    → find_entry d name ≡ none
    → length d.entries < max_entries
    → Adds d name id kind (added d name id kind) true
unfolding added find_entry new_entry
added-Adds d name id kind v some_byte short absent room = (
  record {
    distinct =
        Distinct-append d.entries e v.distinct
          (NoneNamed-ext e.name name d.entries same (NoneNamed-of_none d.entries name absent));
    bounded = omega (arith, length-append d.entries (e ∷ []));
    arrays = arrays-append d.entries e v.arrays (array_size);
  },
  refl,
  (
    e,
    refl,
    refl,
    same,
    λ n. find_in-append d.entries e n ∙ lookup n (Bool-cases (same_string name n)),
  ),
  some_byte,
  short,
  absent,
  room,
)
  where
    e : DirectoryEntry
    e = new_entry name id kind

    same : c_string e.name ≡ c_string name
    same = c_string-new_entry name id kind short

    array_size : length e.name ≡ name_size
    array_size = length-new_entry name id kind

    new_same : (n : List ℕ) → same_string e.name n ≡ same_string name n
    new_same n = ap (λ (s : List ℕ). text_eq s (c_string n)) same

    lookup :
        (n : List ℕ)
        → ((same_string name n ≡ true) ⊎ (same_string name n ≡ false))
        → elim (find_in d.entries n) [
          | some x ↦ some x
          | none ↦ if same_string e.name n then some e else none
        ]
          ≡ (if same_string name n then some e else find_in d.entries n)
    lookup n (inl t) =
        ground (arith, t, new_same n, find_in-ext d.entries name n (eq_of_text_eq _ _ t), absent)
    lookup n (inr t) = ground (arith, t, new_same n)

-- On a valid directory, `add_entry` fails exactly for a name of 0 or of 64 or more bytes, for a name that
-- is there, and in a directory of 256 entries, and then changes nothing. Otherwise the name is found
-- afterwards, with the inode id and the type that were given and the name as its string, every other name
-- is found as before, and the directory is valid.
pub add_entry-Adds :
    (d : Directory) (name : List ℕ) (id kind : ℕ)
    → IsValid d
    → Adds d name id kind (add_entry d name id kind).0 (add_entry d name id kind).1
unfolding add_entry added
add_entry-Adds d name id kind v =
    elim (Bool-cases (length name == 0 || leb name_size (length name))) [
      | inl t ↦ rw t (refl, bad_length t)
      | inr t ↦ elim (Option-cases (find_entry d name)) [
        | inr (e, found) ↦ rw (t, found) (refl, inr (inr (inl (e, found))))
        | inl absent ↦ elim (Bool-cases (leb max_entries (length d.entries))) [
          | inl full ↦ rw (t, absent, full) (refl, inr (inr (inr (ground arith))))
          | inr room ↦
              rw (t, absent, room)
                (added-Adds d name id kind v (positive t) (short t) absent (ground arith))
        ]
      ]
    ]
  where
    short : (length name == 0 || leb name_size (length name)) ≡ false → length name < name_size
    short t = elim (Bool-cases (leb name_size (length name))) [
      | inl z ↦ absurd (ground (arith, Bool-cases (length name == 0)))
      | inr z ↦ ground arith
    ]

    positive : (length name == 0 || leb name_size (length name)) ≡ false → 0 < length name
    positive t = elim (Bool-cases (length name == 0)) [
      | inl z ↦ absurd (ground (arith, t, z))
      | inr z ↦ ground arith
    ]

    bad_length :
        (length name == 0 || leb name_size (length name)) ≡ true
        → (length name ≡ 0)
          ⊎ ((name_size ≤ length name)
              ⊎ (((e : DirectoryEntry) × (find_entry d name ≡ some e))
                  ⊎ (max_entries ≤ length d.entries)))
    bad_length t = elim (Bool-cases (length name == 0)) [
      | inl z ↦ inl (ground arith)
      | inr z ↦ inr (inl (ground arith))
    ]
