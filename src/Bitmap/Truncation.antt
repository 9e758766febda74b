-- ===== src/Bitmap/Truncation.antt =====
-- A table of more than 32768 blocks does not fit in block 0: what `load` makes of the rest.
use os_course_design.Prelude.{
  ℕ, zero, suc, ◌-◌, ◌/◌, ◌%◌, ◌≤◌, ◌<◌, ◌≡◌, ◌≢◌, refl, ◌∙◌, true, some, List, [], ◌++◌, arith,
  take, get_or, get_or-set_ne, add32, get_or-replicate, length-take, passes_at,
}
use os_course_design.Bitmap.{FreeBitmap, is_block_free, set_block_status, mark_reserved, IsValid}
use os_course_design.Bitmap.Bits.{bit_clear, raise_bit}
use os_course_design.Bitmap.Store.{zero_table}
use os_course_design.Bitmap.Persist.{
  block_bytes, resize, overlay, overlay_beyond, save, loaded, load, save-Stands, load-loaded,
  overrun,
}
use os_course_design.Cache.{CacheManager}
use os_course_design.Cache.Pages

-- A status change leaves the blocks of other bytes alone, in any table.
other_byte :
    (fb : FreeBitmap) (k j : ℕ)
    → k / 8 ≢ j / 8
    → is_block_free (set_block_status fb k true) j ≡ is_block_free fb j
unfolding set_block_status is_block_free
other_byte fb k j ne = ground (
  arith,
  get_or-set_ne fb.bitmap (k / 8) (j / 8) (raise_bit (get_or fb.bitmap (k / 8) 0) (k % 8)) 0 ne,
)

other_byte_reserved :
    (fb : FreeBitmap) (j : ℕ) → 8 ≤ j → is_block_free (mark_reserved fb) j ≡ is_block_free fb j
unfolding mark_reserved
other_byte_reserved fb j h = ground (
  arith,
  other_byte fb 0 j (omega arith),
  other_byte (set_block_status fb 0 true) 1 j (omega arith),
)

zero_byte_free :
    (fb : FreeBitmap) (j : ℕ)
    → j < fb.total_blocks
    → get_or fb.bitmap (j / 8) 0 ≡ 0
    → is_block_free fb j ≡ true
unfolding is_block_free
zero_byte_free fb j h e =
    rw e (ground (arith, passes_at (bit_clear 0) 8 (j % 8) (omega arith) zero_table))

take-nil : (n : ℕ) → take {A = ℕ} n [] ≡ []
take-nil zero = refl
take-nil (suc n) = refl

-- Saving and loading loses every allocation from block 32768 on: in a table loaded by a new table
-- object such a block is free, whatever its status was in the well-formed table that was saved.
pub load-save_loses :
    (fb fresh : FreeBitmap) (beyond : List ℕ) (c : CacheManager) (now now' j : ℕ)
    → IsValid fb
    → Pages.IsValid c
    → 0 < c.disk.total_blocks
    → fresh.bitmap ≡ []
    → 32768 ≤ j
    → j < fb.total_blocks
    → (r : FreeBitmap) × (over : List ℕ) × ((load fresh
          (save fb beyond c now).0
          now'
          fb.total_blocks).1
        ≡ some (r, over))
      × (is_block_free r j ≡ true)
unfolding loaded resize
load-save_loses fb fresh beyond c now now' j v cv h empty far in_disk = (
  loaded fresh fb.total_blocks bytes,
  overrun fb.total_blocks bytes,
  load-loaded fresh _ now' fb.total_blocks bytes (omega arith)
      (save-Stands fb beyond c now now' cv h).1,
  other_byte_reserved _ j (omega arith) ∙ zero_byte_free _ j in_disk lost,
)
  where
    bytes : List ℕ
    bytes = take block_bytes (fb.bitmap ++ beyond)

    size : ℕ
    size = add32 fb.total_blocks 7 / 8

    blank : get_or (resize fresh.bitmap size) (j / 8) 0 ≡ 0
    blank = rw (empty, take-nil size) (get_or-replicate (size - 0) (j / 8) 0)

    lost : get_or (overlay bytes (resize fresh.bitmap size)) (j / 8) 0 ≡ 0
    lost =
        overlay_beyond bytes _ (j / 8)
          (omega (arith, length-take block_bytes (fb.bitmap ++ beyond)))
        ∙ blank
