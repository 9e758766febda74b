-- ===== src/Bitmap.antt =====
-- The free-block table: src/core/bitmap.h and src/core/bitmap.cpp, `FreeBitmap`. A block number
-- and a count are `uint32_t`, kept as numbers below 2 ^ 32; `UINT32_MAX` means "not found". What
-- reads and writes block 0 through the cache is in Bitmap/Persist.
pub mod Bits
pub mod Status
pub mod Search
pub mod Allocate
pub mod Release
pub mod Store
pub mod Persist
pub mod Truncation
pub mod Sample
mod Tests
use os_course_design.Prelude.{
  ℕ, zero, suc, ◌+◌, ◌-◌, ◌/◌, ◌%◌, ◌<◌, ◌≡◌, min, Bool, true, false, not, ◌&&◌, ◌||◌, List, ◌++◌,
  Option, none, some, ltb, leb, ◌==◌, if◌then◌else◌, length, get_or, set, take, drop, replicate,
  All, add32, sub32, uint32_max, u32_mod, tally,
}
use Bits.{bit_clear, raise_bit, lower_bit}

pub record FreeBitmap : Type 0 where
  pub bitmap : List ℕ
  pub total_blocks : ℕ
  pub free_blocks : ℕ

unfoldable pub is_block_free : FreeBitmap → ℕ → Bool
is_block_free fb block_no =
    if leb fb.total_blocks block_no
    then false
    else bit_clear (get_or fb.bitmap (block_no / 8) 0) (block_no % 8)

mark_allocated : FreeBitmap → ℕ → FreeBitmap
mark_allocated fb block_no =
    if is_block_free fb block_no && ltb 0 fb.free_blocks
    then record fb {
      bitmap =
          set fb.bitmap (block_no / 8)
            (raise_bit (get_or fb.bitmap (block_no / 8) 0) (block_no % 8));
      free_blocks = fb.free_blocks - 1;
    }
    else fb

mark_free : FreeBitmap → ℕ → FreeBitmap
mark_free fb block_no =
    if not (is_block_free fb block_no)
    then record fb {
      bitmap =
          set fb.bitmap (block_no / 8)
            (lower_bit (get_or fb.bitmap (block_no / 8) 0) (block_no % 8));
      free_blocks = add32 fb.free_blocks 1;
    }
    else fb

unfoldable pub set_block_status : FreeBitmap → ℕ → Bool → FreeBitmap
unfolding mark_allocated mark_free
set_block_status fb block_no allocated =
    if leb fb.total_blocks block_no
    then fb
    else if allocated
    then mark_allocated fb block_no
    else mark_free fb block_no

-- The loop of `find_first_free_block`, over the rounds that are left.
first_free : FreeBitmap → ℕ → ℕ → ℕ
first_free fb zero block = uint32_max
first_free fb (suc rounds) block =
    let rest = first_free fb rounds (block + 1) in if is_block_free fb block then block else rest

unfoldable pub find_first_free_block : FreeBitmap → ℕ
unfolding first_free
find_first_free_block fb = first_free fb (fb.total_blocks - 2) 2

-- The inner loop of `find_consecutive_free_blocks`: the offset of the first block in use.
first_used : FreeBitmap → ℕ → ℕ → ℕ → Option ℕ
first_used fb start zero i = none
first_used fb start (suc rounds) i =
    let rest = first_used fb start rounds (i + 1) in
    if is_block_free fb (start + i) then rest else some i

-- The outer loop, on fuel; `limit` is `total_blocks_ - count`.
find_run : FreeBitmap → ℕ → ℕ → ℕ → ℕ → ℕ
find_run fb count limit zero start = uint32_max
find_run fb count limit (suc fuel) start =
    let next : ℕ = elim (first_used fb start count 0) [
      | none ↦ start
      | some i ↦ find_run fb count limit fuel (start + i + 1)
    ] in
    if leb start limit then next else uint32_max

unfoldable pub find_consecutive_free_blocks : FreeBitmap → ℕ → ℕ
unfolding find_run first_used
find_consecutive_free_blocks fb count =
    if count == 0 || ltb fb.free_blocks count
    then uint32_max
    else find_run fb count (sub32 fb.total_blocks count) fb.total_blocks 2

-- The result of a call with an output parameter: its value if the call returns true.
unfoldable pub allocate_block : FreeBitmap → FreeBitmap × Option ℕ
allocate_block fb =
    let free_block = find_first_free_block fb in
    if fb.free_blocks == 0 || free_block == uint32_max
    then (fb, none)
    else (set_block_status fb free_block true, some free_block)

-- for (i = 0; i < count; ++i) set_block_status(start + i, true)
mark_run : FreeBitmap → ℕ → ℕ → FreeBitmap
mark_run fb start zero = fb
mark_run fb start (suc count) = mark_run (set_block_status fb start true) (start + 1) count

unfoldable pub allocate_consecutive_blocks : FreeBitmap → ℕ → FreeBitmap × Option ℕ
unfolding mark_run
allocate_consecutive_blocks fb count =
    let start = find_consecutive_free_blocks fb count in
    if (count == 0 || ltb fb.free_blocks count) || start == uint32_max
    then (fb, none)
    else (mark_run fb start count, some start)

unfoldable pub free_block : FreeBitmap → ℕ → FreeBitmap
free_block fb block_no =
    if ltb block_no 2 || leb fb.total_blocks block_no
    then fb
    else set_block_status fb block_no false

-- The loop of `free_consecutive_blocks`, over the rounds that are left.
free_run : FreeBitmap → ℕ → ℕ → FreeBitmap
free_run fb block zero = fb
free_run fb block (suc rounds) =
    free_run (if leb 2 block then set_block_status fb block false else fb) (block + 1) rounds

-- `start_block + count` wraps at 2 ^ 32.
unfoldable pub free_consecutive_blocks : FreeBitmap → ℕ → ℕ → FreeBitmap
unfolding free_run
free_consecutive_blocks fb start_block count =
    if leb fb.total_blocks start_block || count == 0
    then fb
    else free_run fb start_block (min (add32 start_block count) fb.total_blocks - start_block)

-- An invalid block counts as allocated.
unfoldable pub is_block_allocated : FreeBitmap → ℕ → Bool
is_block_allocated fb block_no =
    if leb fb.total_blocks block_no then true else not (is_block_free fb block_no)

unfoldable pub mark_block_used : FreeBitmap → ℕ → FreeBitmap
mark_block_used fb block_id =
    if leb fb.total_blocks block_id then fb else set_block_status fb block_id true

unfoldable pub get_used_blocks : FreeBitmap → ℕ
get_used_blocks fb = sub32 fb.total_blocks fb.free_blocks

-- The counting loop of `validate`, `deserialize_from` and `load`.
pub count_free : FreeBitmap → ℕ → ℕ → ℕ → ℕ
count_free fb zero block acc = acc
count_free fb (suc rounds) block acc =
    count_free fb rounds (block + 1) (if is_block_free fb block then add32 acc 1 else acc)

unfoldable pub validate : FreeBitmap → Bool
unfolding count_free
validate fb = count_free fb fb.total_blocks 0 0 == fb.free_blocks

-- The bytes of a buffer after a successful call. A null buffer has size 0 here.
unfoldable pub serialize_to : FreeBitmap → List ℕ → Option (List ℕ)
serialize_to fb buffer =
    if length buffer == 0 || ltb (length buffer) (length fb.bitmap)
    then none
    else some (fb.bitmap ++ drop (length fb.bitmap) buffer)

unfoldable pub deserialize_from : FreeBitmap → List ℕ → Option FreeBitmap
unfolding count_free
deserialize_from fb buffer =
    if ltb (length buffer) (length fb.bitmap)
    then none
    else let copied = record fb { bitmap = take (length fb.bitmap) buffer } in
      some (record copied { free_blocks = count_free copied copied.total_blocks 0 0 })

-- Blocks 0 and 1 are kept back.
pub mark_reserved : FreeBitmap → FreeBitmap
mark_reserved fb =
    if ltb 1 fb.total_blocks then set_block_status (set_block_status fb 0 true) 1 true else fb

-- The `initialize` without arguments.
unfoldable pub initialize : FreeBitmap → FreeBitmap
unfolding mark_reserved
initialize fb =
    mark_reserved
      (record fb { bitmap = replicate (length fb.bitmap) 0; free_blocks = fb.total_blocks })

-- The bytes are bytes and cover the blocks, and the counter counts the clear bits.
pub record IsValid (fb : FreeBitmap) : Type 0 where
  pub bytes : All (λ x. x < 256) fb.bitmap
  pub covers : length fb.bitmap ≡ (fb.total_blocks + 7) / 8
  pub fits : fb.total_blocks < u32_mod
  pub counted : fb.free_blocks ≡ tally (is_block_free fb) fb.total_blocks
