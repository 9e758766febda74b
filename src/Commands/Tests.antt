-- ===== src/Commands/Tests.antt =====
-- Command lines.
use os_course_design.Prelude.{ℕ, ◌≡◌, refl, List, [], ◌∷◌, ◌++◌}
use os_course_design.Commands.{split_command, handle_command, cmd_rm, no_command, name_rm}
use os_course_design.Commands.Words.{write_words, split_command-write_words}

-- "a b" and "c", quoted.
abbrev quoted : List (List ℕ)
quoted = (97 ∷ 32 ∷ 98 ∷ []) ∷ (99 ∷ []) ∷ []

split_command-write_words_example : split_command (write_words quoted) ≡ quoted
split_command-write_words_example =
    split_command-write_words quoted ((refl, (refl, (refl, (refl, tt)))), ((refl, (refl, tt)), tt))

-- Without quotation marks the space separates.
splits : split_command (97 ∷ 32 ∷ 98 ∷ []) ≡ (97 ∷ []) ∷ (98 ∷ []) ∷ []
unfolding split_command os_course_design.Commands.split_from
splits = refl

-- `rm a` goes to its handler.
removes : handle_command (name_rm ++ 32 ∷ 97 ∷ []) ≡ (cmd_rm, name_rm ∷ (97 ∷ []) ∷ [])
unfolding handle_command split_command os_course_design.Commands.split_from
    os_course_design.Prelude.text_eq
removes = refl

-- A line of spaces is no command.
blank_line : (handle_command (32 ∷ 32 ∷ [])).0 ≡ no_command
unfolding handle_command split_command os_course_design.Commands.split_from
blank_line = refl
