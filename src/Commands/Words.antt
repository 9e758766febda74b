-- ===== src/Commands/Words.antt =====
-- The words that `split_command` finds.
use os_course_design.Prelude.{
  ℕ, ◌≡◌, refl, ap, sym, ◌∙◌, inl, inr, Bool, true, false, not, ◌&&◌, List, [], ◌∷◌, ◌++◌, arith,
  ◌==◌, Bool-cases, length, All,
}
use os_course_design.Commands.{quote, space, push_arg, split_from, split_command}

abbrev pub NonEmpty : List ℕ → Type 0
NonEmpty t = (length t == 0) ≡ false

-- A word without a quotation mark.
abbrev pub IsWord : List ℕ → Type 0
IsWord t = NonEmpty t × All (λ c. (c == quote) ≡ false) t

-- The words, each in quotation marks and followed by a space.
pub write_words : List (List ℕ) → List ℕ
write_words [] = []
write_words (w ∷ ws) = quote ∷ w ++ (quote ∷ space ∷ write_words ws)

push_arg-NonEmpty :
    (args : List (List ℕ)) (arg : List ℕ) → All NonEmpty args → All NonEmpty (push_arg args arg)
push_arg-NonEmpty args arg a = elim (Bool-cases (length arg == 0)) [
  | inl t ↦ rw t a
  | inr t ↦ rw t (added args a t)
]
  where
    added : (xs : List (List ℕ)) → All NonEmpty xs → NonEmpty arg → All NonEmpty (xs ++ arg ∷ [])
    added [] b t = (t, tt)
    added (x ∷ xs) b t = (b.0, added xs b.1 t)

split_from-NonEmpty :
    (args : List (List ℕ)) (arg : List ℕ) (in_quotes : Bool) (cs : List ℕ)
    → All NonEmpty args
    → All NonEmpty (split_from args arg in_quotes cs)
unfolding split_from
split_from-NonEmpty args arg q [] a = push_arg-NonEmpty args arg a
split_from-NonEmpty args arg q (c ∷ cs) a = elim (Bool-cases (c == quote)) [
  | inl t ↦ rw t (split_from-NonEmpty args arg (not q) cs a)
  | inr t ↦ elim (Bool-cases (c == space && not q)) [
    | inl u ↦
        rw (t, u) (split_from-NonEmpty (push_arg args arg) [] q cs (push_arg-NonEmpty args arg a))
    | inr u ↦ rw (t, u) (split_from-NonEmpty args (arg ++ c ∷ []) q cs a)
  ]
]

-- No command line gives an empty word.
pub split_command-NonEmpty : (command : List ℕ) → All NonEmpty (split_command command)
unfolding split_command
split_command-NonEmpty command = split_from-NonEmpty [] [] false command tt

append_assoc : (xs : List ℕ) (x : ℕ) (ys : List ℕ) → (xs ++ x ∷ []) ++ ys ≡ xs ++ x ∷ ys
append_assoc [] x ys = refl
append_assoc (z ∷ xs) x ys = ap (◌∷◌ z) (append_assoc xs x ys)

-- Inside quotation marks every other character is added.
split_from-inside :
    (args : List (List ℕ)) (arg w rest : List ℕ)
    → All (λ c. (c == quote) ≡ false) w
    → split_from args arg true (w ++ quote ∷ rest) ≡ split_from args (arg ++ w) false rest
unfolding split_from
split_from-inside args arg [] rest a = ap (λ t. split_from args t false rest) (sym (append_nil arg))
  where
    append_nil : (t : List ℕ) → t ++ [] ≡ t
    append_nil [] = refl
    append_nil (x ∷ t) = ap (◌∷◌ x) (append_nil t)
split_from-inside args arg (c ∷ w) rest a =
    rw a.0 (ground (arith, split_from-inside args (arg ++ c ∷ []) w rest a.1, append_assoc arg c w))

split_from-write_words :
    (args ws : List (List ℕ))
    → All IsWord ws
    → split_from args [] false (write_words ws) ≡ args ++ ws
unfolding split_from write_words
split_from-write_words args [] a = sym (append_nil args)
  where
    append_nil : (t : List (List ℕ)) → t ++ [] ≡ t
    append_nil [] = refl
    append_nil (x ∷ t) = ap (◌∷◌ x) (append_nil t)
split_from-write_words args (w ∷ ws) a =
    split_from-inside args [] w (space ∷ write_words ws) a.0.1
    ∙ rw a.0.0 (split_from-write_words (args ++ w ∷ []) ws a.1 ∙ push_all args)
  where
    push_all : (xs : List (List ℕ)) → (xs ++ w ∷ []) ++ ws ≡ xs ++ w ∷ ws
    push_all [] = refl
    push_all (x ∷ xs) = ap (◌∷◌ x) (push_all xs)

-- Words that are not empty and have no quotation mark, written each in quotation marks and followed by a
-- space, are read back by `split_command`, spaces in them included.
pub split_command-write_words :
    (ws : List (List ℕ)) → All IsWord ws → split_command (write_words ws) ≡ ws
unfolding split_command
split_command-write_words ws a = split_from-write_words [] ws a
