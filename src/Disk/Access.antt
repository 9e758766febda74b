-- ===== src/Disk/Access.antt =====
-- Reading, writing and copying blocks of an open disk.
use os_course_design.Prelude.{
  ℕ, zero, suc, ◌+◌, ◌*◌, ◌≤◌, ◌<◌, ◌≡◌, refl, subst, ◌∙◌, ◌-◌, ◌⊎◌, inl, inr, Bool, true, false,
  ◌&&◌, some, arith, not, ◌||◌, List, [], ◌∷◌, All, ltb, leb, ◌==◌, if◌then◌else◌, Bool-cases,
}
use mathlib.Core.Option.{none}
use os_course_design.Disk.{
  Block, VirtualDisk, write_at, grown, read_block, write_block, copy_block, copy_blocks,
}

-- The disk is open, its file holds all its blocks, and the device serves them.
pub record IsHealthy (d : VirtualDisk) : Type 0 where
  pub opened : d.is_open ≡ true
  pub clean : d.failed ≡ false
  pub good : (b : ℕ) → b < d.total_blocks → d.bad b ≡ false
  pub backed : (b : ℕ) → b < d.total_blocks → (b + 1) * d.block_size ≤ d.size

-- A healthy disk with other contents.
pub record SameDisk (d d' : VirtualDisk) : Type 0 where
  pub healthy : IsHealthy d'
  pub total : d'.total_blocks ≡ d.total_blocks

-- On a healthy disk every block in range is read, and the disk stays as it is.
pub read_block_lem :
    (d : VirtualDisk) (b : ℕ)
    → IsHealthy d
    → b < d.total_blocks
    → read_block d b ≡ (d, some (d.content b))
unfolding read_block
read_block_lem d b h l = ground (arith, h.good b l, h.backed b l)

grown-IsHealthy :
    (d : VirtualDisk) (b : ℕ) (buffer : Block) → IsHealthy d → IsHealthy (grown d b buffer)
unfolding grown
grown-IsHealthy d b buffer h = record {
  opened = h.opened;
  clean = h.clean;
  good = h.good;
  backed = λ j l. ground (arith, h.backed j l);
}

write_block-grown :
    (d : VirtualDisk) (b : ℕ) (buffer : Block)
    → IsHealthy d
    → b < d.total_blocks
    → write_block d b buffer ≡ (grown d b buffer, true)
unfolding write_block
write_block-grown d b buffer h l = ground (arith, h.good b l)

-- What a successful write leaves.
pub record Wrote (d : VirtualDisk) (b : ℕ) (buffer : Block) (r : VirtualDisk × Bool) : Type 0 where
  pub success : r.1 ≡ true
  pub same : SameDisk d r.0
  pub content : (j : ℕ) → r.0.content j ≡ write_at d.content b buffer j

-- On a healthy disk every write in range succeeds, changes that block alone, and leaves the disk
-- healthy with as many blocks.
pub write_block-Wrote :
    (d : VirtualDisk) (b : ℕ) (buffer : Block)
    → IsHealthy d
    → b < d.total_blocks
    → Wrote d b buffer (write_block d b buffer)
unfolding grown
write_block-Wrote d b buffer h l = rw (write_block-grown d b buffer h l) (record {
  success = refl;
  same = record { healthy = grown-IsHealthy d b buffer h; total = refl };
  content = λ j. refl;
})

-- Every block from `src` on that `copy_blocks` reads is copied as it was before the call.
abbrev CopiedAt : (ℕ → Block) → ℕ → ℕ → ℕ → ℕ → Block → Type 0
CopiedAt before src dst count j b =
    b ≡ (if leb dst j && ltb j (dst + count) then before (src + (j - dst)) else before j)

pub record Copied (d : VirtualDisk) (src dst count : ℕ) (r : VirtualDisk × Bool) : Type 0 where
  pub success : r.1 ≡ true
  pub same : SameDisk d r.0
  pub content : (j : ℕ) → CopiedAt d.content src dst count j (r.0.content j)

copy_block-write_block :
    (d : VirtualDisk) (src dst : ℕ)
    → IsHealthy d
    → src < d.total_blocks
    → copy_block d src dst ≡ write_block d dst (d.content src)
unfolding copy_block
copy_block-write_block d src dst h l = ground (arith, read_block_lem d src h l)

Copied_content :
    (d d' : VirtualDisk) (src dst count j : ℕ) (b : Block)
    → Wrote d dst (d.content src) (d', true)
    → (src + suc count ≤ dst) ⊎ (dst ≤ src)
    → CopiedAt d'.content (src + 1) (dst + 1) count j b
    → CopiedAt d.content src dst (suc count) j b
Copied_content d d' src dst count j b w apart c = elim (Bool-cases (ltb dst j)) [
  | inl t ↦
      let e : src + 1 + (j - (dst + 1)) ≡ src + (j - dst) = ground arith in
      let away : j < dst + suc count → (src + (j - dst) == dst) ≡ false = λ h. ground arith in
      let c' = rw e at c in ground (arith, away, w.content j, w.content (src + (j - dst)))
  | inr t ↦ elim (Bool-cases (j == dst)) [
    | inl s ↦ let e : src + (j - dst) ≡ src = ground arith in rw e (ground (arith, w.content j))
    | inr s ↦ ground (arith, w.content j)
  ]
]

Copied-step :
    (d d' : VirtualDisk) (src dst count : ℕ) (r : VirtualDisk × Bool)
    → Wrote d dst (d.content src) (d', true)
    → (src + suc count ≤ dst) ⊎ (dst ≤ src)
    → Copied d' (src + 1) (dst + 1) count r
    → Copied d src dst (suc count) r
Copied-step d d' src dst count r w apart c = record {
  success = c.success;
  same = record { healthy = c.same.healthy; total = c.same.total ∙ w.same.total };
  content = λ j. Copied_content d d' src dst count j (r.0.content j) w apart (c.content j);
}

-- On a healthy disk, copying between ranges in the disk succeeds if the target does not start inside
-- the source: each target block then holds what its source block held before, and every other block
-- is as it was.
pub copy_blocks-Copied :
    (d : VirtualDisk) (src dst count : ℕ)
    → IsHealthy d
    → src + count ≤ d.total_blocks
    → dst + count ≤ d.total_blocks
    → (src + count ≤ dst) ⊎ (dst ≤ src)
    → Copied d src dst count (copy_blocks d src dst count)
unfolding copy_blocks grown
copy_blocks-Copied d src dst zero h l k apart = record {
  success = refl;
  same = record { healthy = h; total = refl };
  content = λ j. ground arith;
}
copy_blocks-Copied d src dst (suc count) h l k apart =
    rw
      (
        copy_block-write_block d src dst h (omega arith),
        write_block-grown d dst (d.content src) h (omega arith),
      )
      (Copied-step d _ src dst count _ wrote apart (
        copy_blocks-Copied (grown d dst (d.content src)) (src + 1) (dst + 1) count
          (grown-IsHealthy d dst _ h) (omega arith) (omega arith) (omega arith)))
  where
    wrote : Wrote d dst (d.content src) (grown d dst (d.content src), true)
    wrote =
        subst (Wrote d dst (d.content src))
          (write_block-grown d dst (d.content src) h (omega arith))
          (write_block-Wrote d dst (d.content src) h (omega arith))

-- A block number past the disk is refused before the file is touched.
pub refused_outside :
    (d : VirtualDisk) (b : ℕ) (buffer : Block)
    → d.total_blocks ≤ b
    → (read_block d b ≡ (d, none)) × (write_block d b buffer ≡ (d, false))
unfolding read_block write_block
refused_outside d b buffer h = ground arith

-- A read or a write of one block, and whether it succeeds.
pub data Access : Type 0 where
  reads : ℕ → Access
  writes : ℕ → Block → Access

abbrev pub target : Access → ℕ
target (reads b) = b
target (writes b buffer) = b

unfoldable pub access : VirtualDisk → Access → VirtualDisk × Bool
access d (reads b) =
    let (d', got) = read_block d b in (d', elim got [ none ↦ false | some _ ↦ true ])
access d (writes b buffer) = write_block d b buffer

-- One access after the other, with their answers.
pub accesses : VirtualDisk → List Access → VirtualDisk × List Bool
accesses d [] = (d, [])
accesses d (a ∷ rest) =
    let (d', ok) = access d a in let (d'', oks) = accesses d' rest in (d'', ok ∷ oks)

-- A failed access in range leaves the fail bit set.
failed-access :
    (d : VirtualDisk) (a : Access)
    → d.is_open ≡ true
    → target a < d.total_blocks
    → (access d a).1 ≡ false
    → (access d a).0.failed ≡ true
unfolding access read_block write_block
failed-access d (reads b) o h f = elim (Bool-cases d.failed) [
  | inl t ↦ ground arith
  | inr t ↦ elim (Bool-cases (d.bad b || ltb d.size ((b + 1) * d.block_size))) [
    | inl k ↦ ground arith
    | inr k ↦ absurd (ground arith)
  ]
]
failed-access d (writes b buffer) o h f = elim (Bool-cases d.failed) [
  | inl t ↦ ground arith
  | inr t ↦ elim (Bool-cases (d.bad b)) [ inl k ↦ ground arith | inr k ↦ absurd (ground arith) ]
]

refused : (d : VirtualDisk) (a : Access) → d.failed ≡ true → access d a ≡ (d, false)
unfolding access read_block write_block
refused d (reads b) f = elim (Bool-cases (not d.is_open || leb d.total_blocks b)) [
  | inl t ↦ rw t refl
  | inr t ↦ rw (t, f) refl
]
refused d (writes b buffer) f = elim (Bool-cases (not d.is_open || leb d.total_blocks b)) [
  | inl t ↦ rw t refl
  | inr t ↦ rw (t, f) refl
]

all_refused :
    (d : VirtualDisk) (rest : List Access)
    → d.failed ≡ true
    → All (λ ok. ok ≡ false) (accesses d rest).1 × ((accesses d rest).0 ≡ d)
unfolding accesses
all_refused d [] f = (tt, refl)
all_refused d (a ∷ rest) f =
    let (answers, same) = all_refused d rest f in rw (refused d a f) ((refl, answers), same)

-- Once a read or a write of a block of an open disk has failed, every later read and write of any block
-- fails and changes nothing.
pub failure_sticks :
    (d : VirtualDisk) (a : Access) (later : List Access)
    → d.is_open ≡ true
    → target a < d.total_blocks
    → (access d a).1 ≡ false
    → All (λ ok. ok ≡ false) (accesses (access d a).0 later).1
      × ((accesses (access d a).0 later).0 ≡ (access d a).0)
failure_sticks d a later o h f = all_refused (access d a).0 later (failed-access d a o h f)
