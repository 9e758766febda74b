-- ===== src/Paths/Split.antt =====
-- Splitting a path, and writing it again.
use os_course_design.Prelude.{
  ℕ, ◌≡◌, refl, ap, sym, ◌∙◌, inl, inr, false, ◌||◌, List, [], ◌∷◌, ◌++◌, arith, ◌==◌, Bool-cases,
  length, text_eq, All,
}
use os_course_design.Paths.{
  slash, dot, dot_dot, push_char, items, pop_back, visit, visit_all, split_path, join, full_path,
  components_of, rebuild, normalize_path,
}

abbrev pub NoSlash : List ℕ → Type 0
NoSlash = All (λ c. (c == slash) ≡ false)

-- A component that a path may keep: no slash, not empty, neither "." nor "..".
abbrev pub IsPlain : List ℕ → Type 0
IsPlain t = NoSlash t × ((length t == 0 || text_eq t dot) ≡ false) × (text_eq t dot_dot ≡ false)

-- What is read

pub items-slash : (t rest : List ℕ) → NoSlash t → items (t ++ slash ∷ rest) ≡ t ∷ items rest
unfolding items
items-slash [] rest n = refl
items-slash (c ∷ t) rest n = rw (n.0, items-slash t rest n.1) refl

NoSlash-items : (cs : List ℕ) → All NoSlash (items cs)
unfolding items
NoSlash-items [] = tt
NoSlash-items (c ∷ cs) = elim (Bool-cases (c == slash)) [
  | inl t ↦ rw t (tt, NoSlash-items cs)
  | inr t ↦ rw t (pushed t (items cs) (NoSlash-items cs))
]
  where
    pushed :
        (c == slash) ≡ false → (ts : List (List ℕ)) → All NoSlash ts → All NoSlash (push_char c ts)
    pushed t [] a = ((t, tt), tt)
    pushed t (x ∷ ts) a = ((t, a.0), a.1)

pub items-whole : (t : List ℕ) → NoSlash t → (length t == 0) ≡ false → items (t ++ []) ≡ t ∷ []
unfolding items
items-whole [] n h = absurd (ground (arith, h))
items-whole (c ∷ []) n h = rw n.0 refl
items-whole (c ∷ d ∷ t) n h = rw (n.0, items-whole (d ∷ t) n.1 (ground arith)) refl

nonempty_of_plain : (t : List ℕ) → IsPlain t → (length t == 0) ≡ false
nonempty_of_plain [] p = absurd (ground (arith, p.1))
nonempty_of_plain (c ∷ t) p = ground arith

items-join :
    (c : List ℕ) (cs : List (List ℕ)) → IsPlain c → All IsPlain cs → items (c ++ join cs) ≡ c ∷ cs
unfolding join
items-join c [] p a = items-whole c p.0 (nonempty_of_plain c p)
items-join c (d ∷ ds) p a = items-slash c (d ++ join ds) p.0 ∙ ap (◌∷◌ c) (items-join d ds a.0 a.1)

pub add_char : (t : List ℕ) (c : ℕ) (rest : List ℕ) → (t ++ c ∷ []) ++ rest ≡ t ++ c ∷ rest
add_char [] c rest = refl
add_char (x ∷ t) c rest = ap (◌∷◌ x) (add_char t c rest)

pub NoSlash-add : (t : List ℕ) (c : ℕ) → NoSlash t → (c == slash) ≡ false → NoSlash (t ++ c ∷ [])
NoSlash-add [] c n h = (h, tt)
NoSlash-add (x ∷ t) c n h = (n.0, NoSlash-add t c n.1 h)

-- What is kept

push_all :
    (xs : List (List ℕ)) (x : List ℕ) (ys : List (List ℕ)) → (xs ++ x ∷ []) ++ ys ≡ xs ++ x ∷ ys
push_all [] x ys = refl
push_all (z ∷ xs) x ys = ap (◌∷◌ z) (push_all xs x ys)

append_nil : (xs : List (List ℕ)) → xs ++ [] ≡ xs
append_nil [] = refl
append_nil (x ∷ xs) = ap (◌∷◌ x) (append_nil xs)

visit_all-plain :
    (components ts : List (List ℕ)) → All IsPlain ts → visit_all components ts ≡ components ++ ts
unfolding visit_all visit
visit_all-plain components [] a = sym (append_nil components)
visit_all-plain components (t ∷ ts) a =
    rw (a.0.1, a.0.2) (visit_all-plain (components ++ t ∷ []) ts a.1 ∙ push_all components t ts)

pop_back-IsPlain : (cs : List (List ℕ)) → All IsPlain cs → All IsPlain (pop_back cs)
unfolding pop_back
pop_back-IsPlain [] a = tt
pop_back-IsPlain (x ∷ []) a = tt
pop_back-IsPlain (x ∷ y ∷ xs) a = (a.0, pop_back-IsPlain (y ∷ xs) a.1)

pub append-IsPlain :
    (cs : List (List ℕ)) (c : List ℕ) → All IsPlain cs → IsPlain c → All IsPlain (cs ++ c ∷ [])
append-IsPlain [] c a p = (p, tt)
append-IsPlain (x ∷ cs) c a p = (a.0, append-IsPlain cs c a.1 p)

visit-IsPlain :
    (components : List (List ℕ)) (t : List ℕ)
    → All IsPlain components
    → NoSlash t
    → All IsPlain (visit components t)
unfolding visit
visit-IsPlain components t a n = elim (Bool-cases (length t == 0 || text_eq t dot)) [
  | inl h ↦ rw h a
  | inr h ↦ elim (Bool-cases (text_eq t dot_dot)) [
    | inl k ↦ rw (h, k) (pop_back-IsPlain components a)
    | inr k ↦ rw (h, k) (append-IsPlain components t a (n, h, k))
  ]
]

visit_all-IsPlain :
    (components ts : List (List ℕ))
    → All IsPlain components
    → All NoSlash ts
    → All IsPlain (visit_all components ts)
unfolding visit_all
visit_all-IsPlain components [] a n = a
visit_all-IsPlain components (t ∷ ts) a n =
    visit_all-IsPlain (visit components t) ts (visit-IsPlain components t a n.0) n.1

-- Every component of a path is plain.
pub split_path-IsPlain : (path : List ℕ) → All IsPlain (split_path path)
unfolding split_path
split_path-IsPlain path = visit_all-IsPlain [] (items path) tt (NoSlash-items path)

pub split_path-rebuild : (cs : List (List ℕ)) → All IsPlain cs → split_path (rebuild cs) ≡ cs
unfolding split_path items visit_all visit join
split_path-rebuild [] a = refl
split_path-rebuild (c ∷ cs) a = rw (items-join c cs a.0 a.1) (visit_all-plain [] (c ∷ cs) a)

-- The empty item before the first slash is skipped either way.
components_of_lem : (full : List ℕ) → components_of full ≡ split_path full
unfolding components_of split_path items visit_all visit
components_of_lem [] = refl
components_of_lem (c ∷ cs) = elim (Bool-cases (c == slash)) [
  | inl t ↦ rw t refl
  | inr t ↦ rw t refl
]

rebuild_absolute :
    (current : List ℕ) (cs : List (List ℕ)) → full_path current (rebuild cs) ≡ rebuild cs
unfolding full_path join
rebuild_absolute current [] = refl
rebuild_absolute current (c ∷ cs) = ground arith

-- `SimpleFileSystem::normalize_path` gives a path of plain components, which are those that
-- `INodeManager::split_path` finds in the path taken from the current directory, and which splitting the
-- result finds again.
pub split_path-normalize_path :
    (current path : List ℕ)
    → (split_path (normalize_path current path) ≡ split_path (full_path current path))
      × All IsPlain (split_path (normalize_path current path))
unfolding normalize_path
split_path-normalize_path current path =
    let e = components_of_lem (full_path current path) in
    let plain = split_path-IsPlain (full_path current path) in
    (
      rw e (split_path-rebuild (split_path (full_path current path)) plain),
      split_path-IsPlain (rebuild (components_of (full_path current path))),
    )

-- A normalized path is left as it is by a second normalization, whatever the current directory then is.
pub normalize_path-normalize_path :
    (current later path : List ℕ)
    → normalize_path later (normalize_path current path) ≡ normalize_path current path
unfolding normalize_path
normalize_path-normalize_path current later path =
    let full = full_path current path in
    let plain = split_path-IsPlain full in
    rw
      (
        components_of_lem full,
        rebuild_absolute later (split_path full),
        components_of_lem (rebuild (split_path full)),
        split_path-rebuild (split_path full) plain,
      )
      refl
