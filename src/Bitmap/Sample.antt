-- ===== src/Bitmap/Sample.antt =====
-- Two tables of 16 blocks, for the tests of what stands on them.
use os_course_design.Prelude.{◌≡◌, refl, false, [], ◌∷◌, none, tally, arith}
use os_course_design.Bitmap.{
  FreeBitmap, IsValid, is_block_free, allocate_consecutive_blocks, find_consecutive_free_blocks,
}
use os_course_design.Bitmap.Bits.{bit_clear}

-- Blocks 0, 1 and 10 are allocated.
abbrev pub sixteen : FreeBitmap
sixteen = record { bitmap = 3 ∷ 4 ∷ []; total_blocks = 16; free_blocks = 13 }

pub sixteen-IsValid : IsValid sixteen
unfolding is_block_free bit_clear tally
sixteen-IsValid = record {
  bytes = (omega arith, (omega arith, tt));
  covers = refl;
  fits = omega arith;
  counted = refl;
}

pub ten_taken : is_block_free sixteen 10 ≡ false
unfolding is_block_free bit_clear
ten_taken = refl

-- All blocks are.
abbrev pub crowded : FreeBitmap
crowded = record { bitmap = 255 ∷ 255 ∷ []; total_blocks = 16; free_blocks = 0 }

pub crowded-IsValid : IsValid crowded
unfolding is_block_free bit_clear tally
crowded-IsValid = record {
  bytes = (omega arith, (omega arith, tt));
  covers = refl;
  fits = omega arith;
  counted = refl;
}

pub crowded_refuses : (allocate_consecutive_blocks crowded 1).1 ≡ none
unfolding allocate_consecutive_blocks find_consecutive_free_blocks is_block_free bit_clear
crowded_refuses = refl
