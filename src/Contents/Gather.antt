-- ===== src/Contents/Gather.antt =====
-- The bytes that come together when the blocks of an inode are read.
use os_course_design.Prelude.{
  ℕ, zero, suc, ◌+◌, ◌*◌, ◌-◌, ◌≤◌, ◌<◌, ◌≡◌, refl, ap, ◌∙◌, inl, inr, true, false, ◌&&◌, List,
  arith, ltb, leb, if◌then◌else◌, Bool-cases, length, get_or, take, replicate, overwrite, segment,
  length-overwrite, length-replicate, length-take, get_or-overwrite, get_or-take, get_or-segment,
  length-segment, ltb→le, get_or_past, get_or-replicate, u32_mod, min,
}
use os_course_design.Disk.{Block}
use os_course_design.Contents.{block_of, block_offset, copy_size}
use os_course_design.Contents.Loops.{length-block_of, gathered}

offset_is : (i : ℕ) → i * 4096 < u32_mod → block_offset i ≡ i * 4096
offset_is i h = omega arith

copy_size_is : (size off : ℕ) → off ≤ size → copy_size size off ≡ min 4096 (size - off)
copy_size_is size off h = ground arith

-- A piece of the contents in a buffer of zeros, cut short by the end of either.
get_or-padded :
    (zeros content : List ℕ) (off count j : ℕ)
    → get_or zeros j 0 ≡ 0
    → count ≤ length zeros
    → off + count ≤ length content
    → (count < length zeros → off + count ≡ length content)
    → j < length zeros
    → get_or (overwrite zeros 0 (segment off count content)) j 0 ≡ get_or content (off + j) 0
get_or-padded zeros content off count j z fits inside all l = elim (Bool-cases (ltb j count)) [
  | inl near ↦ ground (
    arith,
    near,
    get_or-overwrite zeros 0 (segment off count content) j,
    length-segment off count content inside,
    get_or-segment off count content j,
  )
  | inr far ↦ ground (
    arith,
    far,
    get_or-overwrite zeros 0 (segment off count content) j,
    length-segment off count content inside,
    get_or_past content (off + j) (ending far),
  )
]
  where
    ending : ltb j count ≡ false → length content ≤ off + j
    ending far = omega (arith, all (omega (arith, ltb→le j count far)), ltb→le j count far)

-- Byte `j` of block `i`.
get_or-block_of :
    (content : List ℕ) (i j : ℕ)
    → i * 4096 ≤ length content
    → length content < u32_mod
    → j < 4096
    → get_or (block_of content i) j 0 ≡ get_or content (i * 4096 + j) 0
unfolding block_of
get_or-block_of content i j below small l =
    rw (offset_is i (omega arith), copy_size_is (length content) (i * 4096) below)
      (get_or-padded (replicate 4096 0) content (i * 4096) (min 4096 (length content - i * 4096)) j
        (get_or-replicate {A = ℕ} 4096 j 0) (omega (arith, zeros)) (omega arith)
        (λ short. omega (arith, zeros)) (omega (arith, zeros)))
  where
    zeros : length (replicate {A = ℕ} 4096 0) ≡ 4096
    zeros = length-replicate {A = ℕ} 4096 0

pub length-gathered :
    (m : ℕ → Block) (start size : ℕ) (buffer : List ℕ) (i rounds : ℕ)
    → length (gathered m start size buffer i rounds) ≡ length buffer
unfolding gathered
length-gathered m start size buffer i zero = refl
length-gathered m start size buffer i (suc rounds) =
    length-gathered m start size
      (overwrite buffer (block_offset i) (take (copy_size size (block_offset i)) (m (start + i))))
      (i + 1) rounds
    ∙ length-overwrite buffer _ _

-- One round: the bytes of block `i` come from the contents.
get_or-round :
    (content buffer : List ℕ) (i k : ℕ)
    → length buffer ≡ length content
    → i * 4096 < length content
    → length content < u32_mod
    → k < length content
    → get_or
        (overwrite buffer
          (block_offset i)
          (take (copy_size (length content) (block_offset i)) (block_of content i)))
        k
        0
      ≡ (if leb (i * 4096) k && ltb k (i * 4096 + 4096)
          then get_or content k 0
          else get_or buffer k 0)
get_or-round content buffer i k long below small l =
    rw (offset_is i (omega arith), copy_size_is (length content) (i * 4096) (omega arith))
      (elim (Bool-cases (leb (i * 4096) k && ltb k (i * 4096 + 4096))) [
        | inl near ↦ rw near (
            get_or-overwrite buffer (i * 4096) bytes k
            ∙ rw (inside near) (
                get_or-take count (block_of content i) (k - i * 4096)
                ∙ rw (within near) (
                    get_or-block_of content i (k - i * 4096) (omega arith) small
                      (ground (arith, near))
                    ∙ ap (λ j. get_or content j 0) (back near))))
        | inr far ↦ rw far (get_or-overwrite buffer (i * 4096) bytes k ∙ rw (outside far) refl)
      ])
  where
    count : ℕ
    count = min 4096 (length content - i * 4096)

    bytes : List ℕ
    bytes = take count (block_of content i)

    short : length bytes ≡ count
    short = length-take count (block_of content i) ∙ omega (arith, length-block_of content i)

    inside :
        (leb (i * 4096) k && ltb k (i * 4096 + 4096)) ≡ true
        → (leb (i * 4096) k && (ltb k (i * 4096 + length bytes) && ltb k (length buffer))) ≡ true
    inside near = ground (arith, short)

    outside :
        (leb (i * 4096) k && ltb k (i * 4096 + 4096)) ≡ false
        → (leb (i * 4096) k && (ltb k (i * 4096 + length bytes) && ltb k (length buffer))) ≡ false
    outside far = ground (arith, short)

    within : (leb (i * 4096) k && ltb k (i * 4096 + 4096)) ≡ true → ltb (k - i * 4096) count ≡ true
    within near = ground arith

    back : (leb (i * 4096) k && ltb k (i * 4096 + 4096)) ≡ true → i * 4096 + (k - i * 4096) ≡ k
    back near = ground (arith, near)

-- The buffer holds the contents in the blocks that were read, if the memory does.
pub get_or-gathered :
    (m : ℕ → Block) (start : ℕ) (content buffer : List ℕ) (i rounds k : ℕ)
    → length buffer ≡ length content
    → ((j : ℕ) → i ≤ j → j < i + rounds → m (start + j) ≡ block_of content j)
    → (i + rounds) * 4096 < length content + 4096
    → length content < u32_mod
    → k < length content
    → get_or (gathered m start (length content) buffer i rounds) k 0 ≡ (
        if leb (i * 4096) k && ltb k ((i + rounds) * 4096)
        then get_or content k 0
        else get_or buffer k 0)
unfolding gathered
get_or-gathered m start content buffer i zero k long holds tight small l = ground arith
get_or-gathered m start content buffer i (suc rounds) k long holds tight small l =
    rw (holds i (omega arith) (omega arith)) (
      get_or-gathered m start content
        (overwrite buffer (block_offset i)
          (take (copy_size (length content) (block_offset i)) (block_of content i)))
        (i + 1) rounds k (length-overwrite buffer _ _ ∙ long)
        (λ j a b. holds j (omega arith) (omega arith)) (omega arith) small l
      ∙ rw (get_or-round content buffer i k long (omega arith) small l) (ground arith))
