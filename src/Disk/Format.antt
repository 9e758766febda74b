-- ===== src/Disk/Format.antt =====
-- Making and opening the file of a disk: `create` and `open`.
use os_course_design.Prelude.{
  ℕ, zero, suc, ◌+◌, ◌*◌, ◌/◌, ◌%◌, ◌≤◌, ◌<◌, ◌≡◌, refl, ap, ◌∙◌, inl, inr, Bool, true, false, some,
  [], arith, ◌==◌, Bool-cases, replicate, u32_mod,
}
use os_course_design.Disk.{
  Block, VirtualDisk, attach, File, write_at, open_disk, fill, mib, create, create_closed,
  read_block,
}
use os_course_design.Disk.Access.{IsHealthy, read_block_lem}

opened_on : VirtualDisk → File → VirtualDisk
opened_on d f = record d {
  disk_size = f.file_size;
  total_blocks = f.file_size / d.block_size % u32_mod;
  stream = attach f true false;
}

opened_on-IsHealthy :
    (d : VirtualDisk) (f : File)
    → 0 < d.block_size
    → ((b : ℕ) → f.broken b ≡ false)
    → f.file_size / d.block_size < u32_mod
    → IsHealthy (opened_on d f)
unfolding opened_on
opened_on-IsHealthy d f pos sound fits = record {
  opened = refl;
  clean = refl;
  good = λ b h. sound b;
  backed = λ b h. grind arith;
}

open_disk-opened_on :
    (d : VirtualDisk) (f : File)
    → d.is_open ≡ false
    → 0 < f.file_size
    → open_disk d (some f) ≡ (opened_on d f, true)
unfolding open_disk opened_on
open_disk-opened_on d f closed pos = ground arith

-- Opening a closed disk on a file of at least one byte, whose device is sound, gives a healthy disk
-- with as many blocks as the file holds whole, provided that these are fewer than 2 ^ 32.
pub open_disk-IsHealthy :
    (d : VirtualDisk) (f : File)
    → d.is_open ≡ false
    → 0 < d.block_size
    → 0 < f.file_size
    → f.file_size / d.block_size < u32_mod
    → ((b : ℕ) → f.broken b ≡ false)
    → ((open_disk d (some f)).1 ≡ true)
      × IsHealthy (open_disk d (some f)).0
      × ((open_disk d (some f)).0.total_blocks ≡ f.file_size / d.block_size)
unfolding opened_on
open_disk-IsHealthy d f closed bs pos fits sound =
    rw (open_disk-opened_on d f closed pos)
      (refl, opened_on-IsHealthy d f bs sound fits, omega arith)

-- The file that `fill` leaves, when no write failed.
record Filled (bytes : ℕ) (f : File) (i rounds : ℕ) (r : File × Bool) : Type 0 where
  success : r.1 ≡ true
  size : r.0.file_size ≡ f.file_size + rounds * bytes
  device : (b : ℕ) → r.0.broken b ≡ f.broken b
  zeros : (b : ℕ) → i ≤ b → b < i + rounds → r.0.blocks b ≡ replicate bytes 0
  kept : (b : ℕ) → b < i → r.0.blocks b ≡ f.blocks b

one_more : ℕ → File → ℕ → File
one_more bytes f i = record f {
  blocks = write_at f.blocks i (replicate bytes 0);
  file_size = f.file_size + bytes;
}

Filled-step :
    (bytes : ℕ) (f : File) (i rounds : ℕ) (r : File × Bool)
    → Filled bytes (one_more bytes f i) (i + 1) rounds r
    → Filled bytes f i (suc rounds) r
unfolding one_more
Filled-step bytes f i rounds r w = record {
  success = w.success;
  size = omega (arith, w.size);
  device = w.device;
  zeros = λ b l h. elim (Bool-cases (b == i)) [
    | inl t ↦ ground (arith, w.kept b)
    | inr t ↦ w.zeros b (ground arith) (omega arith)
  ];
  kept = λ b h. ground (arith, w.kept b);
}

fill-Filled :
    (bytes : ℕ) (f : File) (i rounds : ℕ)
    → ((b : ℕ) → f.broken b ≡ false)
    → Filled bytes f i rounds (fill bytes f i rounds)
unfolding fill one_more
fill-Filled bytes f i zero sound = record {
  success = refl;
  size = omega arith;
  device = λ b. refl;
  zeros = λ b l h. absurd (omega arith);
  kept = λ b h. refl;
}
fill-Filled bytes f i (suc rounds) sound =
    rw (sound i)
      (Filled-step bytes f i rounds _ (fill-Filled bytes (one_more bytes f i) (i + 1) rounds sound))

-- The host file behind a disk.
pub saved : VirtualDisk → File
saved d = record { file_size = d.size; blocks = d.content; broken = d.bad }

abbrev blank : (ℕ → Bool) → File
blank broken = record { file_size = 0; blocks = λ _. []; broken = broken }

abbrev zeroed : ℕ → (ℕ → Bool) → File
zeroed size_mb broken = (fill 4096 (blank broken) 0 (size_mb * 256)).0

create-zeroed :
    (d : VirtualDisk) (found : File) (size_mb : ℕ) (broken : ℕ → Bool)
    → d.is_open ≡ false
    → d.block_size ≡ 4096
    → size_mb * 256 < u32_mod
    → ((k : ℕ) → broken k ≡ false)
    → create d size_mb (some broken) found true ≡ (
      record d { disk_size = size_mb * mib; stream = attach (zeroed size_mb broken) true false },
      true,
    )
unfolding create create_closed
create-zeroed d found size_mb broken shut db fits sound =
    let rounds : size_mb * mib / 4096 % u32_mod ≡ size_mb * 256 = omega arith in
    let ok = (fill-Filled 4096 (blank broken) 0 (size_mb * 256) sound).success in
    simp (shut, db, rounds, ok)

-- A disk of blocks of 4096 bytes that `create` makes through a closed stream on a sound device can be
-- opened by another disk object whose stream is closed: it is healthy, has 256 blocks for each MiB, and
-- each block reads as zeros.
pub open_disk-create :
    (d e : VirtualDisk) (found : File) (size_mb b : ℕ) (broken : ℕ → Bool)
    → d.is_open ≡ false
    → d.block_size ≡ 4096
    → e.block_size ≡ 4096
    → e.is_open ≡ false
    → size_mb * 256 < u32_mod
    → ((k : ℕ) → broken k ≡ false)
    → b < size_mb * 256
    → let made = create d size_mb (some broken) found true in
      let opened = (open_disk e (some (saved made.0))).0 in
      (made.1 ≡ true)
      × IsHealthy opened
      × (opened.total_blocks ≡ size_mb * 256)
      × (read_block opened b ≡ (opened, some (replicate 4096 0)))
unfolding saved opened_on
open_disk-create d e found size_mb b broken shut db eb closed fits sound h =
    rw
      (
        create-zeroed d found size_mb broken shut db fits sound,
        open_disk-opened_on e file closed (omega (arith, filled.size)),
      )
      (refl, healthy, total, reads)
  where
    file : File
    file = zeroed size_mb broken

    filled :
        Filled 4096 (blank broken) 0 (size_mb * 256) (fill 4096 (blank broken) 0 (size_mb * 256))
    filled = fill-Filled 4096 (blank broken) 0 (size_mb * 256) sound

    device : (k : ℕ) → file.broken k ≡ false
    device k = filled.device k ∙ sound k

    total : (opened_on e file).total_blocks ≡ size_mb * 256
    total = rw eb (omega (arith, filled.size))

    healthy : IsHealthy (opened_on e file)
    healthy = opened_on-IsHealthy e file (omega arith) device (rw eb (omega (arith, filled.size)))

    reads : read_block (opened_on e file) b ≡ (opened_on e file, some (replicate 4096 0))
    reads =
        read_block_lem (opened_on e file) b healthy (rw total h)
        ∙ ap (λ (c : Block). (opened_on e file, some c))
            (filled.zeros b (omega arith) (omega arith))
