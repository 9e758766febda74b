-- ===== src/Paths/Child.antt =====
-- A name below a directory, and the names that are accepted.
use os_course_design.Prelude.{
  ℕ, ◌≤◌, ◌<◌, ◌≡◌, ◌↔◌, refl, ap, sym, ◌∙◌, inl, inr, true, false, ◌||◌, List, [], ◌∷◌, ◌++◌,
  arith, ltb, ◌==◌, Bool-cases, length, text_eq, All,
}
use os_course_design.Paths.{
  slash, dot, dot_dot, items, visit, visit_all, split_path, is_illegal, all_legal,
  is_valid_filename,
}
use os_course_design.Paths.Split.{NoSlash, IsPlain, items-slash, items-whole, add_char, NoSlash-add}

all_legal_iff : (t : List ℕ) → (all_legal t ≡ true) ↔ All (λ c. is_illegal c ≡ false) t
unfolding all_legal
all_legal_iff [] = ((λ h. tt), λ h. refl)
all_legal_iff (c ∷ t) =
    let (to, from) = all_legal_iff t in
    elim (Bool-cases (is_illegal c)) [
      | inl k ↦ rw k ((λ h. absurd (ground arith)), λ h. absurd (ground (arith, h.0)))
      | inr k ↦ rw k ((λ h. (refl, to h)), λ h. from h.1)
    ]

-- `is_valid_filename` accepts exactly the names of 1 to 63 bytes without one of the ten illegal ones.
pub is_valid_filename_iff :
    (name : List ℕ)
    → (is_valid_filename name ≡ true)
      ↔ ((0 < length name) × (length name ≤ 63) × All (λ c. is_illegal c ≡ false) name)
unfolding is_valid_filename
is_valid_filename_iff name =
    let (to, from) = all_legal_iff name in
    elim (Bool-cases (length name == 0 || ltb 63 (length name))) [
      | inl k ↦ rw k ((λ h. absurd (ground arith)), λ h. absurd (ground (arith, k, h.0, h.1)))
      | inr k ↦ rw k ((λ h. (ground arith, ground arith, to h)), λ h. from h.2)
    ]

NoSlash-of_legal : (t : List ℕ) → All (λ c. is_illegal c ≡ false) t → NoSlash t
NoSlash-of_legal [] a = tt
NoSlash-of_legal (c ∷ t) a = (ground (arith, a.0), NoSlash-of_legal t a.1)

append_empty : (t : List ℕ) → t ++ [] ≡ t
append_empty [] = refl
append_empty (c ∷ t) = ap (◌∷◌ c) (append_empty t)

items-name : (name : List ℕ) → IsPlain name → items name ≡ name ∷ []
items-name name p = ap items (sym (append_empty name)) ∙ items-whole name p.0 (nonempty name p)
  where
    nonempty : (t : List ℕ) → IsPlain t → (length t == 0) ≡ false
    nonempty [] p = absurd (ground (arith, p.1))
    nonempty (c ∷ t) p = ground arith

last_item :
    (components : List (List ℕ)) (t : List ℕ)
    → NoSlash t
    → visit components t ≡ visit_all components (items (t ++ []))
unfolding visit visit_all items
last_item components [] n = refl
last_item components (c ∷ t) n = rw (items-whole (c ∷ t) n (ground arith)) refl

visit_all-child :
    (components : List (List ℕ)) (t path name : List ℕ)
    → NoSlash t
    → IsPlain name
    → visit_all components (items (t ++ (path ++ slash ∷ name)))
      ≡ visit (visit_all components (items (t ++ path))) name
unfolding visit_all
visit_all-child components t [] name n p =
    rw (items-slash t name n, items-name name p, sym (last_item components t n)) refl
visit_all-child components t (c ∷ path) name n p = elim (Bool-cases (c == slash)) [
  | inl k ↦
      let e : c ≡ slash = ground arith in
      rw (e, items-slash t (path ++ slash ∷ name) n, items-slash t path n)
        (visit_all-child (visit components t) [] path name tt p)
  | inr k ↦
      rw (sym (add_char t c (path ++ slash ∷ name)), sym (add_char t c path))
        (visit_all-child components (t ++ c ∷ []) path name (NoSlash-add t c n k) p)
]

-- The path of a valid name below a directory, other than "." and "..", has the components of the
-- directory and the name.
pub split_path_child :
    (path name : List ℕ)
    → is_valid_filename name ≡ true
    → text_eq name dot ≡ false
    → text_eq name dot_dot ≡ false
    → split_path (path ++ slash ∷ name) ≡ split_path path ++ name ∷ []
unfolding split_path visit
split_path_child path name v d dd =
    let legal = (is_valid_filename_iff name).0 v in
    let some_byte : (length name == 0 || text_eq name dot) ≡ false = ground (arith, legal.0, d) in
    visit_all-child [] [] path name tt (NoSlash-of_legal name legal.2, some_byte, dd)
    ∙ rw (some_byte, dd) refl
