-- ===== src/Directory/Serial.antt =====
-- The bytes of a directory: `serialize` and `deserialize`.
use os_course_design.Prelude.{
  ℕ, zero, suc, ◌+◌, ◌*◌, ◌≤◌, ◌<◌, ◌^◌, ◌≡◌, ◌≢◌, ◌⊎◌, refl, ap, sym, ◌∙◌, inl, inr, true, false,
  List, [], ◌∷◌, ◌++◌, arith, ltb, ◌==◌, Bool-cases, length, length-append, take, drop,
  take-append_self, drop-append_self, All, word_of, word_of-word_bytes,
}
use os_course_design.Directory.{
  DirectoryEntry, Directory, max_entries, name_size, entry_size, entry_bytes, entries_bytes,
  serialize, entry_of, entries_of, deserialize,
}

append_assoc : (xs ys zs : List ℕ) → (xs ++ ys) ++ zs ≡ xs ++ (ys ++ zs)
append_assoc [] ys zs = refl
append_assoc (x ∷ xs) ys zs = ap (◌∷◌ x) (append_assoc xs ys zs)

-- An inode id is a `uint32_t` and a name an array of 64 bytes.
abbrev pub Fits : DirectoryEntry → Type 0
Fits e = (e.inode_id < 2 ^ 32) × (length e.name ≡ name_size)

length-entry_bytes :
    (pad : List ℕ) (e : DirectoryEntry)
    → Fits e
    → length pad ≡ 3
    → length (entry_bytes pad e) ≡ entry_size
unfolding entry_bytes
length-entry_bytes pad e f p = omega (arith, length-append e.name (e.kind ∷ pad), f.1)

length-entries_bytes :
    (pad : List ℕ) (es : List DirectoryEntry)
    → All Fits es
    → length pad ≡ 3
    → length (entries_bytes pad es) ≡ length es * entry_size
unfolding entries_bytes
length-entries_bytes pad [] f p = refl
length-entries_bytes pad (e ∷ es) f p = omega (
  arith,
  length-append (entry_bytes pad e) (entries_bytes pad es),
  length-entry_bytes pad e f.0 p,
  length-entries_bytes pad es f.1 p,
)

take_prefix : (n : ℕ) (xs ys : List ℕ) → length xs ≡ n → take n (xs ++ ys) ≡ xs
take_prefix n xs ys h = ap (λ k. take k (xs ++ ys)) (sym h) ∙ take-append_self xs ys

drop_prefix : (n : ℕ) (xs ys : List ℕ) → length xs ≡ n → drop n (xs ++ ys) ≡ ys
drop_prefix n xs ys h = ap (λ k. drop k (xs ++ ys)) (sym h) ∙ drop-append_self xs ys

entry_of-entry_bytes :
    (pad rest : List ℕ) (e : DirectoryEntry) → Fits e → entry_of (entry_bytes pad e ++ rest) ≡ e
unfolding entry_of entry_bytes word_of
entry_of-entry_bytes pad rest e f =
    rw
      (
        append_assoc e.name (e.kind ∷ pad) rest,
        word_of-word_bytes e.inode_id (e.name ++ e.kind ∷ pad ++ rest) f.0,
        take_prefix name_size e.name (e.kind ∷ pad ++ rest) f.1,
        drop_prefix name_size e.name (e.kind ∷ pad ++ rest) f.1,
      )
      refl

entries_of-entries_bytes :
    (pad : List ℕ) (es : List DirectoryEntry)
    → All Fits es
    → length pad ≡ 3
    → entries_of (length es) (entries_bytes pad es) ≡ es
unfolding entries_of entries_bytes
entries_of-entries_bytes pad [] f p = refl
entries_of-entries_bytes pad (e ∷ es) f p =
    rw
      (
        entry_of-entry_bytes pad (entries_bytes pad es) e f.0,
        drop_prefix entry_size (entry_bytes pad e) (entries_bytes pad es)
            (length-entry_bytes pad e f.0 p),
        entries_of-entries_bytes pad es f.1 p,
      )
      refl

length-entries_of : (count : ℕ) (bytes : List ℕ) → length (entries_of count bytes) ≡ count
unfolding entries_of
length-entries_of zero bytes = refl
length-entries_of (suc count) bytes = ap suc (length-entries_of count (drop entry_size bytes))

-- A directory of at most 256 entries, each with an id below 2^32 and a name of 64 bytes, is read back by
-- `deserialize` from the bytes of `serialize`, whatever lies in the padding of the entries.
pub deserialize-serialize :
    (pad : List ℕ) (d old : Directory)
    → length pad ≡ 3
    → length d.entries ≤ max_entries
    → All Fits d.entries
    → deserialize old (serialize pad d) ≡ (record old { entries = d.entries }, true)
unfolding deserialize serialize
deserialize-serialize pad d old p bounded fits =
    rw
      (
        word_of-word_bytes (length d.entries) (entries_bytes pad d.entries)
            (omega (arith, bounded)),
        length-entries_bytes pad d.entries fits p,
        entries_of-entries_bytes pad d.entries fits p,
      )
      (ground (arith, bounded))

-- `deserialize` refuses bytes without a whole count, with a count above 256, or with another length than
-- the count calls for, and then the directory stays as it was; it takes all others.
pub deserialize_iff :
    (d : Directory) (bytes : List ℕ)
    → (((deserialize d bytes).1 ≡ true)
        × (4 ≤ length bytes)
        × (length bytes ≡ 4 + word_of bytes * entry_size)
        × (word_of bytes ≤ max_entries)
        × (length (deserialize d bytes).0.entries ≡ word_of bytes))
      ⊎ ((deserialize d bytes ≡ (d, false))
          × ((length bytes < 4)
              ⊎ ((length bytes ≢ 4 + word_of bytes * entry_size) ⊎ (max_entries < word_of bytes))))
unfolding deserialize
deserialize_iff d bytes = elim (Bool-cases (ltb (length bytes) 4)) [
  | inl t ↦ rw t (inr (refl, inl (ground arith)))
  | inr whole ↦ elim (Bool-cases (length bytes == 4 + word_of bytes * entry_size)) [
    | inr t ↦ rw (whole, t) (inr (refl, inr (inl (λ h. absurd (ground arith)))))
    | inl exact ↦ elim (Bool-cases (ltb max_entries (word_of bytes))) [
      | inl t ↦ rw (whole, exact, t) (inr (refl, inr (inr (ground arith))))
      | inr few ↦
          rw (whole, exact, few)
            (inl (
              refl,
              ground arith,
              ground arith,
              ground arith,
              length-entries_of (word_of bytes) (drop 4 bytes),
            ))
    ]
  ]
]
