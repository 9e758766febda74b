-- ===== src/Paths/Collapse.antt =====
-- `INodeManager::normalize_path`, which takes repeated slashes and a last slash off.
use os_course_design.Prelude.{
  ℕ, ◌≡◌, refl, sym, ◌∙◌, inl, inr, ◌&&◌, List, [], ◌∷◌, ◌++◌, arith, ltb, ◌==◌, Bool-cases, length,
}
use os_course_design.Paths.{
  slash, items, visit, visit_all, split_path, erase_repeated, drop_last_slash, trim_end,
  collapse_path,
}
use os_course_design.Paths.Split.{NoSlash, items-slash, items-whole, add_char, NoSlash-add}

-- Two texts whose components are the same behind any text without a slash.
abbrev Alike : List ℕ → List ℕ → Type 0
Alike a b =
    (components : List (List ℕ)) (t : List ℕ)
    → NoSlash t
    → visit_all components (items (t ++ a)) ≡ visit_all components (items (t ++ b))

-- Alike texts stay alike behind one more character.
Alike-cons : (c : ℕ) (a b : List ℕ) → Alike a b → Alike (c ∷ a) (c ∷ b)
unfolding visit_all
Alike-cons c a b h components t n = elim (Bool-cases (c == slash)) [
  | inl k ↦
      let e : c ≡ slash = ground arith in
      rw (e, items-slash t a n, items-slash t b n) (h (visit components t) [] tt)
  | inr k ↦
      rw (sym (add_char t c a), sym (add_char t c b))
        (h components (t ++ c ∷ []) (NoSlash-add t c n k))
]

Alike-trans : (a b c : List ℕ) → Alike a b → Alike b c → Alike a c
Alike-trans a b c h k components t n = h components t n ∙ k components t n

-- A slash behind a slash adds an empty item, which is skipped.
Alike-slashes : (c d : ℕ) (rest : List ℕ) → c ≡ slash → d ≡ slash → Alike (c ∷ rest) (c ∷ d ∷ rest)
unfolding visit_all visit items
Alike-slashes c d rest e f components t n =
    rw (e, f, items-slash t rest n, items-slash t (slash ∷ rest) n) refl

Alike-last : Alike [] (slash ∷ [])
unfolding visit_all visit items
Alike-last components [] n = refl
Alike-last components (c ∷ t) n =
    rw (items-whole (c ∷ t) n (ground arith), items-slash (c ∷ t) [] n) refl

Alike-erase_repeated : (c : ℕ) (cs : List ℕ) → Alike (erase_repeated c cs) (c ∷ cs)
unfolding erase_repeated
Alike-erase_repeated c [] = λ components t n. refl
Alike-erase_repeated c (d ∷ rest) = elim (Bool-cases (c == slash && d == slash)) [
  | inl k ↦
      let e : c ≡ slash = ground arith in
      let f : d ≡ slash = ground arith in
      rw k (
        Alike-trans (erase_repeated c rest) (c ∷ rest) (c ∷ d ∷ rest) (Alike-erase_repeated c rest)
          (Alike-slashes c d rest e f))
  | inr k ↦ rw k (Alike-cons c (erase_repeated d rest) (d ∷ rest) (Alike-erase_repeated d rest))
]

Alike-drop_last_slash : (text : List ℕ) → Alike (drop_last_slash text) text
unfolding drop_last_slash
Alike-drop_last_slash [] = λ components t n. refl
Alike-drop_last_slash (c ∷ []) = elim (Bool-cases (c == slash)) [
  | inl k ↦ let e : c ≡ slash = ground arith in rw k (rw e Alike-last)
  | inr k ↦ rw k (λ components t n. refl)
]
Alike-drop_last_slash (c ∷ d ∷ rest) =
    Alike-cons c (drop_last_slash (d ∷ rest)) (d ∷ rest) (Alike-drop_last_slash (d ∷ rest))

Alike-trim_end : (text : List ℕ) → Alike (trim_end text) text
Alike-trim_end text = elim (Bool-cases (ltb 1 (length text))) [
  | inl k ↦ rw k (Alike-drop_last_slash text)
  | inr k ↦ rw k (λ components t n. refl)
]

slash_first : (text : List ℕ) → visit_all [] (items (slash ∷ text)) ≡ visit_all [] (items text)
unfolding items visit_all visit
slash_first text = refl

-- `INodeManager::normalize_path` changes no component of a path.
pub split_path-collapse_path : (path : List ℕ) → split_path (collapse_path path) ≡ split_path path
unfolding split_path collapse_path
split_path-collapse_path [] = slash_first []
split_path-collapse_path (c ∷ cs) =
    let erased =
      Alike-trans _ _ _ (Alike-trim_end (erase_repeated c cs)) (Alike-erase_repeated c cs) in
    elim (Bool-cases (c == slash)) [
      | inl k ↦ rw k (erased [] [] tt)
      | inr k ↦ rw k (slash_first (c ∷ cs))
    ]
