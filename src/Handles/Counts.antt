-- ===== src/Handles/Counts.antt =====
-- How often a file is open.
use os_course_design.Prelude.{
  ℕ, ◌+◌, ◌-◌, ◌<◌, ◌≡◌, refl, subst, ◌∙◌, inl, inr, false, List, [], ◌∷◌, Option, none, some,
  arith, ltb, ◌==◌, if◌then◌else◌, Bool-cases, All, text_eq, text_eq_comm, eq_of_text_eq,
}
use os_course_design.Handles.{OpenFile, find_open, increment, decrement, is_open}

-- The openings of a path that are not closed.
abbrev pub count_of : Option ℕ → ℕ
count_of none = 0
count_of (some count) = count

unfoldable pub opened : List OpenFile → List ℕ → ℕ
opened fs path = count_of (find_open fs path)

abbrev pub NoPath : List ℕ → List OpenFile → Type 0
NoPath path = All (λ f. text_eq path f.path ≡ false)

-- Every path is there once and is open.
abbrev pub IsValid : List OpenFile → Type 0
IsValid [] = Unit {0}
IsValid (f ∷ fs) = (0 < f.count) × NoPath f.path fs × IsValid fs

opened-cons :
    (f : OpenFile) (fs : List OpenFile) (path : List ℕ)
    → opened (f ∷ fs) path ≡ (if text_eq f.path path then f.count else opened fs path)
unfolding opened find_open
opened-cons f fs path = elim (Bool-cases (text_eq f.path path)) [
  | inl t ↦ rw t refl
  | inr t ↦ rw t refl
]

opened_nil : (path : List ℕ) → opened [] path ≡ 0
unfolding opened find_open
opened_nil path = refl

pub is_open-opened :
    (fs : List OpenFile) (path : List ℕ) → is_open (find_open fs path) ≡ ltb 0 (opened fs path)
unfolding opened
is_open-opened fs path = go (find_open fs path)
  where
    go : (o : Option ℕ) → is_open o ≡ ltb 0 (count_of o)
    go none = ground arith
    go (some n) = refl

opened_absent : (fs : List OpenFile) (path : List ℕ) → NoPath path fs → opened fs path ≡ 0
unfolding opened find_open
opened_absent [] path n = refl
opened_absent (f ∷ fs) path n =
    opened-cons f fs path ∙ rw (text_eq_comm f.path path ∙ n.0) (opened_absent fs path n.1)

pub opened-increment :
    (fs : List OpenFile) (p q : List ℕ)
    → opened (increment fs p) q ≡ (if text_eq p q then opened fs q + 1 else opened fs q)
unfolding increment
opened-increment [] p q =
    opened-cons (record { path = p; count = 1 }) [] q ∙ ground (arith, opened_nil q)
opened-increment (f ∷ fs) p q = elim (Bool-cases (text_eq f.path p)) [
  | inl t ↦
      let e : f.path ≡ p = eq_of_text_eq _ _ t in
      rw t (
        opened-cons (record f { count = f.count + 1 }) fs q ∙ elim (Bool-cases (text_eq p q)) [
          | inl u ↦ ground (arith, opened-cons f fs q, e, u)
          | inr u ↦ ground (arith, opened-cons f fs q, e, u)
        ])
  | inr t ↦ rw t (
      opened-cons f (increment fs p) q ∙ elim (Bool-cases (text_eq f.path q)) [
        | inl u ↦
            let e : f.path ≡ q = eq_of_text_eq _ _ u in
            ground
              (arith, opened-cons f fs q, u, subst (λ r. text_eq r p ≡ false) e t, text_eq_comm p q)
        | inr u ↦ ground (arith, opened-cons f fs q, u, opened-increment fs p q)
      ])
]

pub opened-decrement :
    (fs : List OpenFile) (p q : List ℕ)
    → IsValid fs
    → opened (decrement fs p) q ≡ (if text_eq p q then opened fs q - 1 else opened fs q)
unfolding decrement
opened-decrement [] p q v = ground (arith, opened_nil q)
opened-decrement (f ∷ fs) p q v = elim (Bool-cases (text_eq f.path p)) [
  | inl t ↦
      let e : f.path ≡ p = eq_of_text_eq _ _ t in
      let absent : opened fs p ≡ 0 = opened_absent fs p (subst (λ r. NoPath r fs) e v.1) in
      elim (Bool-cases (f.count - 1 == 0)) [
        | inl z ↦
            rw (t, z)
              (elim (Bool-cases (text_eq p q)) [
                | inl u ↦
                    let e' : p ≡ q = eq_of_text_eq _ _ u in
                    ground
                      (arith, opened-cons f fs q, e, u, z, subst (λ r. opened fs r ≡ 0) e' absent)
                | inr u ↦ ground (arith, opened-cons f fs q, e, u)
              ])
        | inr z ↦
            rw (t, z)
              (opened-cons (record f { count = f.count - 1 }) fs q
                ∙ elim (Bool-cases (text_eq p q)) [
                  | inl u ↦ ground (arith, opened-cons f fs q, e, u)
                  | inr u ↦ ground (arith, opened-cons f fs q, e, u)
                ])
      ]
  | inr t ↦ rw t (
      opened-cons f (decrement fs p) q ∙ elim (Bool-cases (text_eq f.path q)) [
        | inl u ↦
            let e : f.path ≡ q = eq_of_text_eq _ _ u in
            ground
              (arith, opened-cons f fs q, u, subst (λ r. text_eq r p ≡ false) e t, text_eq_comm p q)
        | inr u ↦ ground (arith, opened-cons f fs q, u, opened-decrement fs p q v.2)
      ])
]

NoPath-increment :
    (fs : List OpenFile) (p q : List ℕ)
    → text_eq q p ≡ false
    → NoPath q fs
    → NoPath q (increment fs p)
unfolding increment
NoPath-increment [] p q h n = (h, tt)
NoPath-increment (f ∷ fs) p q h n = elim (Bool-cases (text_eq f.path p)) [
  | inl t ↦ rw t n
  | inr t ↦ rw t (n.0, NoPath-increment fs p q h n.1)
]

NoPath-decrement : (fs : List OpenFile) (p q : List ℕ) → NoPath q fs → NoPath q (decrement fs p)
unfolding decrement
NoPath-decrement [] p q n = tt
NoPath-decrement (f ∷ fs) p q n = elim (Bool-cases (text_eq f.path p)) [
  | inl t ↦ elim (Bool-cases (f.count - 1 == 0)) [ inl z ↦ rw (t, z) n.1 | inr z ↦ rw (t, z) n ]
  | inr t ↦ rw t (n.0, NoPath-decrement fs p q n.1)
]

pub increment-IsValid : (fs : List OpenFile) (p : List ℕ) → IsValid fs → IsValid (increment fs p)
unfolding increment
increment-IsValid [] p v = (omega arith, tt, tt)
increment-IsValid (f ∷ fs) p v = elim (Bool-cases (text_eq f.path p)) [
  | inl t ↦ rw t (omega arith, v.1, v.2)
  | inr t ↦ rw t (v.0, NoPath-increment fs p f.path t v.1, increment-IsValid fs p v.2)
]

pub decrement-IsValid : (fs : List OpenFile) (p : List ℕ) → IsValid fs → IsValid (decrement fs p)
unfolding decrement
decrement-IsValid [] p v = tt
decrement-IsValid (f ∷ fs) p v = elim (Bool-cases (text_eq f.path p)) [
  | inl t ↦ elim (Bool-cases (f.count - 1 == 0)) [
    | inl z ↦ rw (t, z) v.2
    | inr z ↦ rw (t, z) (ground arith, v.1, v.2)
  ]
  | inr t ↦ rw t (v.0, NoPath-decrement fs p f.path v.1, decrement-IsValid fs p v.2)
]
