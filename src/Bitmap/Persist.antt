-- ===== src/Bitmap/Persist.antt =====
-- What keeps the table on the disk: `load`, `save` and the `initialize` with a cache, which read and
-- write block 0 of 4096 bytes through the cache. `cache_` is the cache given to `load` or
-- `initialize`, and is an argument of `save`. A vector shorter than the block is overrun by both copies.
-- `save` then writes what lies behind it in memory, `beyond`; `load` also gives the bytes that it writes
-- over what lies there. What these destroy is not modelled: with such bytes the behaviour of the code is
-- undefined.
use os_course_design.Prelude.{
  ℕ, zero, suc, ◌-◌, ◌/◌, ◌≤◌, ◌<◌, ◌≡◌, refl, ap, ◌∙◌, Bool, true, false, Option, none, some, List,
  [], ◌∷◌, ◌++◌, arith, ◌==◌, if◌then◌else◌, length, take, drop, u32_mod, replicate, get_or,
  length-replicate, length-append, length-take, lt→ltb, add32,
}
use os_course_design.Bitmap.{
  FreeBitmap, is_block_free, count_free, initialize, mark_reserved, IsValid,
}
use os_course_design.Bitmap.Status.{set_block_status-same}
use os_course_design.Bitmap.Store.{recounted}
use os_course_design.Cache.{CacheManager, read_block, write_block}
use os_course_design.Cache.Pages
use os_course_design.Cache.Access.{read_block-Stands, write_block-Stands}

abbrev pub block_bytes : ℕ
block_bytes = 4096

-- `vector::resize(n, 0)`
unfoldable pub resize : List ℕ → ℕ → List ℕ
resize bytes n = take n bytes ++ replicate (n - length bytes) 0

-- `memcpy` of a whole block over a vector: what is then in the vector.
pub overlay : List ℕ → List ℕ → List ℕ
overlay [] vec = vec
overlay (x ∷ xs) [] = []
overlay (x ∷ xs) (y ∷ ys) = x ∷ overlay xs ys

unfoldable pub save : FreeBitmap → List ℕ → CacheManager → ℕ → CacheManager × Bool
save fb beyond cache now = write_block cache now 0 (take block_bytes (fb.bitmap ++ beyond))

-- The table with the bytes of block 0, counted and with the reserved blocks marked.
unfoldable pub loaded : FreeBitmap → ℕ → List ℕ → FreeBitmap
unfolding count_free mark_reserved resize overlay
loaded fb total_blocks bytes =
    let copied : FreeBitmap = record {
      bitmap = overlay bytes (resize fb.bitmap (add32 total_blocks 7 / 8));
      total_blocks = total_blocks;
      free_blocks = 0;
    } in
    mark_reserved (record copied { free_blocks = count_free copied total_blocks 0 0 })

-- The bytes of the copy that are written behind the vector.
unfoldable pub overrun : ℕ → List ℕ → List ℕ
overrun total_blocks bytes = drop (add32 total_blocks 7 / 8) bytes

-- `none` is false; otherwise the table, and the bytes that are written behind its vector.
unfoldable pub load :
    FreeBitmap → CacheManager → ℕ → ℕ → CacheManager × Option (FreeBitmap × List ℕ)
unfolding loaded overrun
load fb cache now total_blocks =
    let (cache', got) = read_block cache now 0 in
    if total_blocks == 0 then (cache, none) else elim got [
      | none ↦ (cache', none)
      | some bytes ↦ (cache', some (loaded fb total_blocks bytes, overrun total_blocks bytes))
    ]

-- The table after the call, the cache, and the answer.
unfoldable pub initialize_on :
    FreeBitmap → List ℕ → CacheManager → ℕ → ℕ → FreeBitmap × CacheManager × Bool
unfolding initialize save resize
initialize_on fb beyond cache now total_blocks =
    let sized = record fb {
      total_blocks = total_blocks;
      bitmap = resize fb.bitmap (add32 total_blocks 7 / 8);
    } in
    let ready = initialize sized in
    let (cache', ok) = save ready beyond cache now in
    if total_blocks == 0
    then (record fb { total_blocks = 0 }, cache, false)
    else (ready, cache', ok)

drop_all : (xs : List ℕ) (n : ℕ) → length xs ≤ n → drop n xs ≡ []
drop_all [] zero h = refl
drop_all [] (suc n) h = refl
drop_all (x ∷ xs) zero h = absurd (omega arith)
drop_all (x ∷ xs) (suc n) h = drop_all xs n (omega arith)

overlay-take :
    (bs beyond vec : List ℕ) (k : ℕ)
    → length vec ≡ length bs
    → length bs ≤ k
    → overlay (take k (bs ++ beyond)) vec ≡ bs
unfolding overlay
overlay-take [] beyond [] zero e l = refl
overlay-take [] [] [] (suc k) e l = refl
overlay-take [] (y ∷ beyond) [] (suc k) e l = refl
overlay-take [] beyond (x ∷ vec) k e l = absurd (omega arith)
overlay-take (b ∷ bs) beyond [] k e l = absurd (omega arith)
overlay-take (b ∷ bs) beyond (x ∷ vec) zero e l = absurd (omega arith)
overlay-take (b ∷ bs) beyond (x ∷ vec) (suc k) e l =
    ap (◌∷◌ b) (overlay-take bs beyond vec k (omega arith) (omega arith))

length-overlay : (xs ys : List ℕ) → length (overlay xs ys) ≡ length ys
unfolding overlay
length-overlay [] ys = refl
length-overlay (x ∷ xs) [] = refl
length-overlay (x ∷ xs) (y ∷ ys) = ap suc (length-overlay xs ys)

pub overlay_beyond :
    (xs ys : List ℕ) (i : ℕ) → length xs ≤ i → get_or (overlay xs ys) i 0 ≡ get_or ys i 0
unfolding overlay
overlay_beyond [] ys i h = refl
overlay_beyond (x ∷ xs) [] i h = refl
overlay_beyond (x ∷ xs) (y ∷ ys) zero h = absurd (omega arith)
overlay_beyond (x ∷ xs) (y ∷ ys) (suc i) h = overlay_beyond xs ys i (omega arith)

length-resize : (xs : List ℕ) (n : ℕ) → length (resize xs n) ≡ n
unfolding resize
length-resize xs n = omega (
  arith,
  length-append (take n xs) (replicate (n - length xs) 0),
  length-replicate (n - length xs) (zero),
  length-take n xs,
)

-- Block 0 after `save` is the image that it wrote.
pub save-Stands :
    (fb : FreeBitmap) (beyond : List ℕ) (c : CacheManager) (now now' : ℕ)
    → Pages.IsValid c
    → 0 < c.disk.total_blocks
    → ((save fb beyond c now).1 ≡ true)
      × ((read_block (save fb beyond c now).0 now' 0).1
          ≡ some (take block_bytes (fb.bitmap ++ beyond)))
unfolding save
save-Stands fb beyond c now now' v h =
    let image = take block_bytes (fb.bitmap ++ beyond) in
    let (answer, s) = write_block-Stands c now 0 image v h in
    (
      answer,
      (read_block-Stands _ now' 0 s.valid (omega (arith, s.total))).0 ∙ ap some (s.memory_is 0),
    )

pub load-loaded :
    (fb : FreeBitmap) (c : CacheManager) (now total_blocks : ℕ) (bytes : List ℕ)
    → 0 < total_blocks
    → (read_block c now 0).1 ≡ some bytes
    → (load fb c now total_blocks).1
      ≡ some (loaded fb total_blocks bytes, overrun total_blocks bytes)
unfolding load
load-loaded fb c now total_blocks bytes pos e = ground (arith, e)

mark_reserved_same :
    (fb : FreeBitmap)
    → IsValid fb
    → 1 < fb.total_blocks
    → is_block_free fb 0 ≡ false
    → is_block_free fb 1 ≡ false
    → mark_reserved fb ≡ fb
unfolding mark_reserved
mark_reserved_same fb v big f0 f1 =
    rw (lt→ltb _ _ big, set_block_status-same fb 0 v (omega arith) true f0)
      (set_block_status-same fb 1 v big true f1)

pub overrun_none :
    (total_blocks k : ℕ) (bytes : List ℕ)
    → 32760 < total_blocks
    → total_blocks < u32_mod - 7
    → k ≤ block_bytes
    → overrun total_blocks (take k bytes) ≡ []
unfolding overrun
overrun_none total_blocks k bytes big fits small =
    drop_all (take k bytes) (add32 total_blocks 7 / 8) (omega (arith, length-take k bytes))

-- A well-formed table of 32761 to 32768 blocks, the sizes whose vector has the size of a block, in which
-- blocks 0 and 1 are allocated survives a `save` and a `load` through a valid cache: the loaded table is
-- the saved one, whatever table object it is loaded into and whatever lies behind the saved bytes in
-- memory, and no byte is written behind its vector.
pub load-save :
    (fb fresh : FreeBitmap) (beyond : List ℕ) (c : CacheManager) (now now' : ℕ)
    → IsValid fb
    → Pages.IsValid c
    → 0 < c.disk.total_blocks
    → 32760 < fb.total_blocks
    → fb.total_blocks ≤ 32768
    → is_block_free fb 0 ≡ false
    → is_block_free fb 1 ≡ false
    → ((save fb beyond c now).1 ≡ true)
      × ((load fresh (save fb beyond c now).0 now' fb.total_blocks).1 ≡ some (fb, []))
unfolding loaded
load-save fb fresh beyond c now now' v cv h big small f0 f1 =
    let (answer, image) = save-Stands fb beyond c now now' cv h in
    (
      answer,
      load-loaded fresh _ now' fb.total_blocks _ (omega arith) image
          ∙ ap some (
              ap (λ t. (t, overrun fb.total_blocks bytes))
                (ap mark_reserved same ∙ mark_reserved_same fb v (omega arith) f0 f1)
              ∙ ap (λ (over : List ℕ). (fb, over))
                  (overrun_none fb.total_blocks block_bytes (fb.bitmap ++ beyond) big (omega arith)
                    (omega arith))),
    )
  where
    bytes : List ℕ
    bytes = take block_bytes (fb.bitmap ++ beyond)

    copied : FreeBitmap
    copied = record {
      bitmap = overlay bytes (resize fresh.bitmap (add32 fb.total_blocks 7 / 8));
      total_blocks = fb.total_blocks;
      free_blocks = 0;
    }

    restored : copied.bitmap ≡ fb.bitmap
    restored =
        overlay-take fb.bitmap beyond _ block_bytes
          (length-resize fresh.bitmap _ ∙ omega (arith, v.covers)) (omega (arith, v.covers))

    same : record copied { free_blocks = count_free copied fb.total_blocks 0 0 } ≡ fb
    same = recounted fb copied v restored refl
