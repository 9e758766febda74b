-- ===== src/Paths/Tests.antt =====
-- Paths at concrete texts.
use os_course_design.Prelude.{
  ℕ, ◌+◌, ◌*◌, ◌-◌, ◌^◌, ◌≤◌, ◌<◌, ◌≡◌, ◌⊎◌, refl, List, [], ◌∷◌, ◌++◌, arith, text_eq, All,
}
use os_course_design.Paths.{
  slash, dot, dot_dot, split_path, full_path, normalize_path, collapse_path, is_valid_filename,
  block_size, calculate_blocks_needed,
}
use os_course_design.Paths.Split.{IsPlain, split_path-normalize_path}
use os_course_design.Paths.Collapse.{split_path-collapse_path}
use os_course_design.Paths.Child.{split_path_child}
use os_course_design.Paths.Blocks.{calculate_blocks_needed-covers}

-- "/a/b"
abbrev a_b : List ℕ
a_b = 47 ∷ 97 ∷ 47 ∷ 98 ∷ []

-- "../c//./"
abbrev up_c : List ℕ
up_c = 46 ∷ 46 ∷ 47 ∷ 99 ∷ 47 ∷ 47 ∷ 46 ∷ 47 ∷ []

-- From "/a/b", "../c//./" is "/a/c".
goes_up : normalize_path a_b up_c ≡ 47 ∷ 97 ∷ 47 ∷ 99 ∷ []
unfolding normalize_path os_course_design.Paths.components_of os_course_design.Paths.visit_all
    full_path text_eq os_course_design.Paths.items os_course_design.Paths.visit
    os_course_design.Paths.pop_back os_course_design.Paths.join
goes_up = refl

split_path-normalize_path_example :
    (split_path (normalize_path a_b up_c) ≡ split_path (full_path a_b up_c))
    × All IsPlain (split_path (normalize_path a_b up_c))
split_path-normalize_path_example = split_path-normalize_path a_b up_c

split_path-collapse_path_example : split_path (collapse_path up_c) ≡ split_path up_c
split_path-collapse_path_example = split_path-collapse_path up_c

split_path_child_example :
    split_path (a_b ++ slash ∷ 99 ∷ []) ≡ (97 ∷ []) ∷ (98 ∷ []) ∷ (99 ∷ []) ∷ []
unfolding is_valid_filename os_course_design.Paths.all_legal text_eq split_path
    os_course_design.Paths.visit_all os_course_design.Paths.items os_course_design.Paths.visit
split_path_child_example = split_path_child a_b (99 ∷ []) refl refl refl

calculate_blocks_needed-covers_example :
    ((4097 ≤ 2 ^ 32 - block_size)
      × (4097 ≤ calculate_blocks_needed 4097 * block_size)
      × (calculate_blocks_needed 4097 * block_size < 4097 + block_size))
    ⊎ ((2 ^ 32 - block_size < 4097) × (calculate_blocks_needed 4097 ≡ 0))
calculate_blocks_needed-covers_example = calculate_blocks_needed-covers 4097 (omega arith)
