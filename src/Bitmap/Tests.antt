-- ===== src/Bitmap/Tests.antt =====
-- The block table at concrete tables.
use os_course_design.Prelude.{
  ℕ, ◌+◌, ◌≡◌, ◌∙◌, refl, true, false, List, [], ◌∷◌, none, some, arith, drop, replicate, tally,
  leb, ltb, ◌&&◌, length-replicate,
}
use os_course_design.Disk.{VirtualDisk}
use os_course_design.Disk.Access.{IsHealthy}
use os_course_design.Cache.{CacheManager, cache_manager}
use os_course_design.Cache.Pages
use os_course_design.Cache.Flush.{cache_manager-IsValid}
use os_course_design.Bitmap.{
  FreeBitmap, is_block_free, set_block_status, allocate_block, allocate_consecutive_blocks,
  free_consecutive_blocks, validate, serialize_to, deserialize_from, initialize, IsValid,
}
use os_course_design.Bitmap.Status.{set_block_status-IsValid, total_blocks-set_block_status}
use os_course_design.Bitmap.Allocate.{AllocatesRun, allocate_consecutive_blocks-AllocatesRun}
use os_course_design.Bitmap.Release.{SameBlocks, free-allocate_consecutive_blocks}
use os_course_design.Bitmap.Store.{initialize_lem, deserialize_from-serialize_to}
use os_course_design.Bitmap.Persist.{save, load, load-save}
use os_course_design.Bitmap.Truncation.{load-save_loses}

-- Eight blocks, of which 0, 1 and 3 are allocated.
abbrev small : FreeBitmap
small = record { bitmap = 11 ∷ []; total_blocks = 8; free_blocks = 5 }

small-IsValid : IsValid small
unfolding is_block_free tally os_course_design.Bitmap.Bits.bit_clear
small-IsValid = record {
  bytes = (omega arith, tt);
  covers = refl;
  fits = omega arith;
  counted = refl;
}

-- `small` with blocks 4 to 6 allocated.
abbrev taken : FreeBitmap
taken = record { bitmap = 123 ∷ []; total_blocks = 8; free_blocks = 2 }

takes_three : allocate_consecutive_blocks small 3 ≡ (taken, some 4)
unfolding allocate_consecutive_blocks os_course_design.Bitmap.find_consecutive_free_blocks
    is_block_free os_course_design.Bitmap.Bits.bit_clear set_block_status
    os_course_design.Bitmap.Bits.raise_bit
takes_three = refl

takes_four : (allocate_consecutive_blocks small 5).1 ≡ none
unfolding allocate_consecutive_blocks os_course_design.Bitmap.find_consecutive_free_blocks
    is_block_free os_course_design.Bitmap.Bits.bit_clear
takes_four = refl

allocate_consecutive_blocks-AllocatesRun_example : AllocatesRun small 3 taken (some 4)
unfolding allocate_consecutive_blocks os_course_design.Bitmap.find_consecutive_free_blocks
    is_block_free os_course_design.Bitmap.Bits.bit_clear set_block_status
    os_course_design.Bitmap.Bits.raise_bit
allocate_consecutive_blocks-AllocatesRun_example =
    allocate_consecutive_blocks-AllocatesRun small 3 small-IsValid

free-allocate_consecutive_blocks_example :
    SameBlocks small (free_consecutive_blocks taken 4 3)
    × ((free_consecutive_blocks taken 4 3).free_blocks ≡ 5)
free-allocate_consecutive_blocks_example =
    free-allocate_consecutive_blocks small taken 3 4 small-IsValid takes_three

deserialize_from-serialize_to_example :
    (out : List ℕ) × (serialize_to small (9 ∷ 9 ∷ []) ≡ some out)
    × (deserialize_from taken out ≡ some small)
    × (drop 1 out ≡ 9 ∷ [])
deserialize_from-serialize_to_example =
    deserialize_from-serialize_to small taken (9 ∷ 9 ∷ []) small-IsValid (omega arith) (omega arith)
      refl refl

-- Persistence

abbrev disk : VirtualDisk
disk = record {
  disk_size = 40960;
  block_size = 4096;
  total_blocks = 10;
  stream = record {
    is_open = true;
    failed = false;
    size = 40960;
    content = λ b. [];
    bad = λ b. false;
  };
}

disk-IsHealthy : IsHealthy disk
disk-IsHealthy = record {
  opened = refl;
  clean = refl;
  good = λ b h. refl;
  backed = λ b h. omega arith;
}

abbrev cache : CacheManager
cache = cache_manager disk 2 4096

cache-IsValid : Pages.IsValid cache
cache-IsValid = (cache_manager-IsValid disk 2 4096 disk-IsHealthy (omega arith) (omega arith)).0

-- A table of 32768 blocks, before it is initialized.
abbrev whole_block : FreeBitmap
whole_block = record { bitmap = replicate 4096 0; total_blocks = 32768; free_blocks = 0 }

facts_of :
    (j : ℕ)
    → IsValid (initialize whole_block)
      × (is_block_free (initialize whole_block) j ≡ (leb 2 j && ltb j 32768))
      × ((initialize whole_block).free_blocks + 2 ≡ 32768)
facts_of j =
    initialize_lem whole_block j (length-replicate {A = ℕ} 4096 0) (omega arith) (omega arith)

total_whole : (initialize whole_block).total_blocks ≡ 32768
unfolding initialize set_block_status is_block_free os_course_design.Bitmap.Bits.bit_clear
    os_course_design.Bitmap.Bits.raise_bit
total_whole = refl

free_0 : is_block_free (initialize whole_block) 0 ≡ false
free_0 = let (_, f, _) = facts_of 0 in f

free_1 : is_block_free (initialize whole_block) 1 ≡ false
free_1 = let (_, f, _) = facts_of 1 in f

load-save_example :
    ((save (initialize whole_block) [] cache 1).1 ≡ true)
    × ((load taken
          (save (initialize whole_block) [] cache 1).0
          2
          (initialize whole_block).total_blocks).1
        ≡ some (initialize whole_block, []))
unfolding cache_manager
load-save_example =
    load-save (initialize whole_block) taken [] cache 1 2 (facts_of 0).0 cache-IsValid (omega arith)
      (omega (arith, total_whole)) (omega (arith, total_whole)) free_0 free_1

abbrev empty : FreeBitmap
empty = record { bitmap = []; total_blocks = 0; free_blocks = 0 }

-- A table of 40000 blocks, before it is initialized.
abbrev blank : FreeBitmap
blank = record { bitmap = replicate 5000 0; total_blocks = 40000; free_blocks = 0 }

large_facts :
    IsValid (initialize blank)
    × (is_block_free (initialize blank) 35000 ≡ true)
    × ((initialize blank).free_blocks + 2 ≡ 40000)
large_facts =
    initialize_lem blank 35000 (length-replicate {A = ℕ} 5000 0) (omega arith) (omega arith)

total_initialize : (initialize blank).total_blocks ≡ 40000
unfolding initialize set_block_status is_block_free os_course_design.Bitmap.Bits.bit_clear
    os_course_design.Bitmap.Bits.raise_bit
total_initialize = refl

-- The same with block 35000 allocated.
large : FreeBitmap
large = set_block_status (initialize blank) 35000 true

large_total : large.total_blocks ≡ 40000
unfolding large
large_total = total_blocks-set_block_status (initialize blank) 35000 true ∙ total_initialize

load-save_loses_example :
    (r : FreeBitmap) × (over : List ℕ) × ((load empty
        (save large [] cache 1).0
        2
        large.total_blocks).1
      ≡ some (r, over))
    × (is_block_free r 35000 ≡ true)
unfolding large set_block_status cache_manager
load-save_loses_example =
    load-save_loses large empty [] cache 1 2 35000
      (set_block_status-IsValid (initialize blank) 35000 true large_facts.0) cache-IsValid
      (omega arith) refl (omega arith) (omega (arith, large_total))
