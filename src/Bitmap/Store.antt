-- ===== src/Bitmap/Store.antt =====
-- The table as a whole: `validate`, `initialize`, and the copies to and from a buffer.
use os_course_design.Prelude.{
  ℕ, zero, suc, ◌+◌, ◌/◌, ◌%◌, ◌≤◌, ◌<◌, ◌≡◌, ◌↔◌, refl, ◌∙◌, sym, ap, inl, inr, true, ◌&&◌, some,
  List, ◌++◌, arith, ltb, leb, ==_iff, lt→ltb, le→ltb, take-append_self, drop-append_self,
  length-append, Bool-cases, length, take, drop, replicate, get_or, get_or-replicate,
  length-replicate, All-replicate, tally, tally-ext, tally_all, tally-add_one, passes, passes_at,
  add32, u32_mod,
}
use os_course_design.Bitmap.{
  FreeBitmap, is_block_free, set_block_status, count_free, validate, serialize_to, deserialize_from,
  mark_reserved, initialize, IsValid,
}
use os_course_design.Bitmap.Bits.{bit_clear}
use os_course_design.Bitmap.Status.{
  set_block_status-IsValid, total_blocks-set_block_status, is_block_free-set_block_status,
  free_blocks-set_allocated,
}

count_free-tally :
    (fb : FreeBitmap) (rounds block acc : ℕ)
    → acc + rounds < u32_mod
    → count_free fb rounds block acc + tally (is_block_free fb) block
      ≡ acc + tally (is_block_free fb) (block + rounds)
unfolding count_free
count_free-tally fb zero block acc h = let e : block + 0 ≡ block = omega arith in rw e
count_free-tally fb (suc rounds) block acc h =
    let e : block + suc rounds ≡ block + 1 + rounds = omega arith in
    let here = tally-add_one (is_block_free fb) block in
    elim (Bool-cases (is_block_free fb block)) [
      | inl t ↦
          rw (e, t) (ground (arith, here, count_free-tally fb rounds (block + 1) (add32 acc 1)))
      | inr t ↦ rw (e, t) (ground (arith, here, count_free-tally fb rounds (block + 1) acc))
    ]

pub count_free_lem :
    (fb : FreeBitmap)
    → fb.total_blocks < u32_mod
    → count_free fb fb.total_blocks 0 0 ≡ tally (is_block_free fb) fb.total_blocks
unfolding tally
count_free_lem fb h =
    let e : 0 + fb.total_blocks ≡ fb.total_blocks = omega arith in
    omega (arith, rw e at (count_free-tally fb fb.total_blocks 0 0 (omega arith)))

-- `validate` accepts a table exactly if its counter is the number of its free blocks.
pub validate_iff :
    (fb : FreeBitmap)
    → fb.total_blocks < u32_mod
    → (validate fb ≡ true) ↔ (fb.free_blocks ≡ tally (is_block_free fb) fb.total_blocks)
unfolding validate
validate_iff fb h =
    rw (count_free_lem fb h) ((λ t. sym ((==_iff _ _).0 t)), (λ e. (==_iff _ _).1 (sym e)))

pub zero_table : passes (bit_clear 0) 8 ≡ true
unfolding passes bit_clear
zero_table = refl

-- A table of zero bytes that counts every block as free.
record IsBlank (fb : FreeBitmap) : Type 0 where
  valid : IsValid fb
  all_free : (j : ℕ) → is_block_free fb j ≡ ltb j fb.total_blocks
  big : 1 < fb.total_blocks

is_block_free_zeros :
    (fb : FreeBitmap) (n j : ℕ)
    → fb.bitmap ≡ replicate n 0
    → is_block_free fb j ≡ ltb j fb.total_blocks
unfolding is_block_free
is_block_free_zeros fb n j e =
    let clear : bit_clear (get_or fb.bitmap (j / 8) 0) (j % 8) ≡ true =
      rw (ap (λ (l : List ℕ). get_or l (j / 8) 0) e ∙ get_or-replicate n (j / 8) 0)
        (passes_at (bit_clear 0) 8 (j % 8) (omega arith) zero_table) in
    ground arith

mark_reserved_lem :
    (fb : FreeBitmap) (j : ℕ)
    → IsBlank fb
    → IsValid (mark_reserved fb)
      × (is_block_free (mark_reserved fb) j ≡ (leb 2 j && ltb j fb.total_blocks))
      × ((mark_reserved fb).free_blocks + 2 ≡ fb.total_blocks)
unfolding mark_reserved
mark_reserved_lem fb j b = rw (lt→ltb _ _ b.big) (
  set_block_status-IsValid first 1 true v1,
  ground (
    arith,
    is_block_free-set_block_status first 1 true j v1,
    is_block_free-set_block_status fb 0 true j b.valid,
    b.all_free j,
    t1,
    b.big,
  ),
  omega (
    arith,
    free_blocks-set_allocated first 1 v1 one_free,
    free_blocks-set_allocated fb 0 b.valid (ground (arith, b.all_free 0, b.big)),
    b.valid.counted,
    all,
  ),
)
  where
    first : FreeBitmap
    first = set_block_status fb 0 true

    v1 : IsValid first
    v1 = set_block_status-IsValid fb 0 true b.valid

    t1 : first.total_blocks ≡ fb.total_blocks
    t1 = total_blocks-set_block_status fb 0 true

    one_free : is_block_free first 1 ≡ true
    one_free =
        ground (arith, is_block_free-set_block_status fb 0 true 1 b.valid, b.all_free 1, b.big)

    all : tally (is_block_free fb) fb.total_blocks ≡ fb.total_blocks
    all = tally_all _ _ (λ k h. ground (arith, b.all_free k))

-- `initialize` makes a well-formed table of bytes that cover the blocks, whatever they were: on a disk
-- of at least two blocks, all but blocks 0 and 1 are free.
pub initialize_lem :
    (fb : FreeBitmap) (j : ℕ)
    → length fb.bitmap ≡ (fb.total_blocks + 7) / 8
    → 1 < fb.total_blocks
    → fb.total_blocks < u32_mod
    → IsValid (initialize fb)
      × (is_block_free (initialize fb) j ≡ (leb 2 j && ltb j fb.total_blocks))
      × ((initialize fb).free_blocks + 2 ≡ fb.total_blocks)
unfolding initialize
initialize_lem fb j covers big fits = mark_reserved_lem blank j (record {
  valid = record {
    bytes = All-replicate (λ x. x < 256) (length fb.bitmap) 0 (omega arith);
    covers = length-replicate (length fb.bitmap) 0 ∙ covers;
    fits = fits;
    counted = sym (tally_all _ _ (λ k h. ground (arith, free k)));
  };
  all_free = free;
  big = big;
})
  where
    blank : FreeBitmap
    blank = record fb { bitmap = replicate (length fb.bitmap) 0; free_blocks = fb.total_blocks }

    free : (k : ℕ) → is_block_free blank k ≡ ltb k fb.total_blocks
    free k = is_block_free_zeros blank (length fb.bitmap) k refl

is_block_free_same_bytes :
    (a b : FreeBitmap) (j : ℕ)
    → a.bitmap ≡ b.bitmap
    → a.total_blocks ≡ b.total_blocks
    → is_block_free a j ≡ is_block_free b j
unfolding is_block_free
is_block_free_same_bytes a b j e t = rw (e, t)

-- A table whose bytes were replaced by those of `fb`, and whose blocks were counted again.
pub recounted :
    (fb copied : FreeBitmap)
    → IsValid fb
    → copied.bitmap ≡ fb.bitmap
    → copied.total_blocks ≡ fb.total_blocks
    → record copied { free_blocks = count_free copied copied.total_blocks 0 0 } ≡ fb
recounted fb copied v e t = ground (arith, e, t, counter)
  where
    counter : count_free copied copied.total_blocks 0 0 ≡ fb.free_blocks
    counter = ground (
      arith,
      count_free_lem copied,
      v.fits,
      v.counted,
      t,
      tally-ext _ _ fb.total_blocks (λ j h. is_block_free_same_bytes copied fb j e t),
    )

-- A table that is copied into a buffer of enough bytes, and from there into any table of the same
-- size, arrives there: bytes and counter are those of the well-formed original, and the bytes of the
-- buffer beyond it are left alone.
pub deserialize_from-serialize_to :
    (fb other : FreeBitmap) (buffer : List ℕ)
    → IsValid fb
    → length fb.bitmap ≤ length buffer
    → 0 < length buffer
    → length other.bitmap ≡ length fb.bitmap
    → other.total_blocks ≡ fb.total_blocks
    → (out : List ℕ) × (serialize_to fb buffer ≡ some out)
      × (deserialize_from other out ≡ some fb)
      × (drop (length fb.bitmap) out ≡ drop (length fb.bitmap) buffer)
unfolding serialize_to deserialize_from
deserialize_from-serialize_to fb other buffer v room pos size total = (
  out,
  ground arith,
  rw (le→ltb _ _ enough) (
      ap some (
        recounted fb (record other { bitmap = take (length other.bitmap) out }) v
          (ap (λ (n : ℕ). take n out) size ∙ take-append_self fb.bitmap _) total)),
  drop-append_self fb.bitmap _,
)
  where
    out : List ℕ
    out = fb.bitmap ++ drop (length fb.bitmap) buffer

    enough : length other.bitmap ≤ length out
    enough = omega (arith, length-append fb.bitmap (drop (length fb.bitmap) buffer))
