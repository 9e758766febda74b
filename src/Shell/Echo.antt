-- ===== src/Shell/Echo.antt =====
-- `cat` after `echo`.
use os_course_design.Prelude.{
  ℕ, ◌-◌, ◌^◌, ◌≤◌, ◌<◌, ◌≡◌, ◌≢◌, ◌⊎◌, refl, ap, inl, inr, true, false, List, arith, le→ltb,
  length, text_eq, Bool, [], ◌∷◌, ◌++◌, All, ◌+◌, ltb, if◌then◌else◌, text_eq_self, Bool-cases,
  length-append,
}
use os_course_design.Paths.{normalize_path, calculate_blocks_needed}
use os_course_design.Handles.{is_file_protected}
use os_course_design.INode.{INode, Env}
use os_course_design.Contents.Outcome.{NoRoom}
use os_course_design.Files.RoundTrip.{FileAt}
use os_course_design.Tree.{minus_three}
use os_course_design.FileSystem.{Volume}
use os_course_design.FileSystem.RoundTrip.{read_file-write_file}
use os_course_design.Shell.{
  cmd_echo, cmd_cat, words_before, echo_content, arg, redirect, code, shown,
}

-- A text of words with one space between two.
unfoldable pub spaced : List (List ℕ) → List ℕ
spaced [] = []
spaced (w ∷ []) = w
spaced (w ∷ v ∷ rest) = w ++ 32 ∷ spaced (v ∷ rest)

-- No word is ">".
abbrev pub NoArrow : List (List ℕ) → Type 0
NoArrow words = All (λ w. text_eq w redirect ≡ false) words

append_empty : (xs : List ℕ) → xs ++ [] ≡ xs
append_empty [] = refl
append_empty (x ∷ xs) = ap (◌∷◌ x) (append_empty xs)

words_before-spaced :
    (first : Bool) (w : List ℕ) (words tail : List (List ℕ))
    → NoArrow (w ∷ words)
    → words_before first (w ∷ words ++ redirect ∷ tail)
      ≡ (if first then spaced (w ∷ words) else 32 ∷ spaced (w ∷ words))
unfolding words_before spaced
words_before-spaced true w [] tail plain = rw (plain.0, text_eq_self redirect) (append_empty w)
words_before-spaced false w [] tail plain =
    rw (plain.0, text_eq_self redirect) (ap (◌∷◌ 32) (append_empty w))
words_before-spaced true w (v ∷ words) tail plain =
    rw (plain.0, words_before-spaced false v words tail plain.1) refl
words_before-spaced false w (v ∷ words) tail plain =
    rw (plain.0, words_before-spaced false v words tail plain.1) refl

echo_content-spaced :
    (cmd : List ℕ) (words tail : List (List ℕ))
    → NoArrow words
    → 0 < length tail
    → echo_content (cmd ∷ words ++ redirect ∷ tail) ≡ spaced words
unfolding echo_content words_before spaced
echo_content-spaced cmd [] tail plain some_path = elim (Bool-cases (ltb 2 (length tail + 1))) [
  | inl t ↦ ground (arith, text_eq_self redirect)
  | inr t ↦ ground (arith, text_eq_self redirect)
]
echo_content-spaced cmd (w ∷ words) tail plain some_path =
    let long : ltb 3 (length (cmd ∷ w ∷ words ++ redirect ∷ tail)) ≡ true =
      ground (arith, length-append words (redirect ∷ tail)) in
    rw long (words_before-spaced true w words tail plain)

-- The command up to the contents that `cmd_echo` puts together.
cat_shows :
    (e e' : Env) (v : Volume) (args args' : List (List ℕ)) (content : List ℕ) (id : ℕ) (n : INode)
    → echo_content args ≡ content
    → 2 < length args
    → text_eq (arg args (length args - 2)) redirect ≡ true
    → 1 < length args'
    → arg args' 1 ≡ arg args (length args - 1)
    → v.mounted ≡ true
    → is_file_protected v.handles (normalize_path v.current_path (arg args (length args - 1)))
      ≡ false
    → FileAt v.manager (normalize_path v.current_path (arg args (length args - 1))) id n
    → n.id ≢ 0
    → e.now < 2 ^ 64
    → length content ≤ 2 ^ 32 - 4096
    → n.block_count ≤ calculate_blocks_needed (length content)
    → (((cmd_echo e args v).1 ≡ code minus_three)
        × NoRoom v.manager.bitmap (calculate_blocks_needed (length content)))
      ⊎ (((cmd_echo e args v).1 ≡ code 0)
          × ((cmd_cat e' args' (cmd_echo e args v).0).1 ≡ shown content))
unfolding cmd_echo cmd_cat
cat_shows e e' v args args' content id n made long arrow long' same t free f nonzero clock small
      grows =
    let path = arg args (length args - 1) in
    rw (le→ltb (length args) 3 (omega arith), arrow, made)
      (elim (read_file-write_file e e' v path content id n t free f nonzero clock small grows) [
        | inl (full, no_run) ↦ inl (ap code full, no_run)
        | inr (done, _, back) ↦
            inr (ap code done, rw (le→ltb (length args') 2 (omega arith), same, back) refl)
      ])

-- `echo ... > path` of a file that is there, open to no one, with its inode in the first block of the
-- table and no more blocks than the text needs, where the text is the words in front of the first ">",
-- with one space between two: the code is -3, because no long enough run of blocks is free, or it is 0,
-- and `cat` of the path then shows the text.
pub cmd_cat-cmd_echo :
    (e e' : Env) (v : Volume) (cmd : List ℕ) (words tail args' : List (List ℕ)) (id : ℕ) (n : INode)
    → let args = cmd ∷ words ++ redirect ∷ tail in
      NoArrow words
      → 0 < length tail
      → text_eq (arg args (length args - 2)) redirect ≡ true
      → 1 < length args'
      → arg args' 1 ≡ arg args (length args - 1)
      → v.mounted ≡ true
      → is_file_protected v.handles (normalize_path v.current_path (arg args (length args - 1)))
        ≡ false
      → FileAt v.manager (normalize_path v.current_path (arg args (length args - 1))) id n
      → n.id ≢ 0
      → e.now < 2 ^ 64
      → length (spaced words) ≤ 2 ^ 32 - 4096
      → n.block_count ≤ calculate_blocks_needed (length (spaced words))
      → (((cmd_echo e args v).1 ≡ code minus_three)
          × NoRoom v.manager.bitmap (calculate_blocks_needed (length (spaced words))))
        ⊎ (((cmd_echo e args v).1 ≡ code 0)
            × ((cmd_cat e' args' (cmd_echo e args v).0).1 ≡ shown (spaced words)))
cmd_cat-cmd_echo e e' v cmd words tail args' id n plain some_path arrow =
    cat_shows e e' v (cmd ∷ words ++ redirect ∷ tail) args' (spaced words) id n
      (echo_content-spaced cmd words tail plain some_path)
      (omega (arith, length-append words (redirect ∷ tail))) arrow
