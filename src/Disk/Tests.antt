-- ===== src/Disk/Tests.antt =====
-- The disk at concrete disks.
use os_course_design.Prelude.{
  ◌≡◌, refl, inl, true, false, [], ◌∷◌, none, some, arith, ◌==◌, replicate, All,
}
use os_course_design.Disk.{
  VirtualDisk, File, read_block, write_block, copy_blocks, open_disk, create,
}
use os_course_design.Disk.Access.{
  IsHealthy, Copied, copy_blocks-Copied, reads, writes, access, accesses, failure_sticks,
}
use os_course_design.Disk.Format.{open_disk-create, saved}

-- Ten blocks, each holding its number.
abbrev numbered : VirtualDisk
numbered = record {
  disk_size = 40960;
  block_size = 4096;
  total_blocks = 10;
  stream = record {
    is_open = true;
    failed = false;
    size = 40960;
    content = λ b. b ∷ [];
    bad = λ b. false;
  };
}

numbered-IsHealthy : IsHealthy numbered
numbered-IsHealthy = record {
  opened = refl;
  clean = refl;
  good = λ b h. refl;
  backed = λ b h. omega arith;
}

reads_back : (read_block (write_block numbered 3 (7 ∷ [])).0 3).1 ≡ some (7 ∷ [])
unfolding read_block write_block
reads_back = refl

past_the_end : (read_block numbered 10).1 ≡ none
unfolding read_block
past_the_end = refl

copy_blocks-Copied_example : Copied numbered 1 5 2 (copy_blocks numbered 1 5 2)
copy_blocks-Copied_example =
    copy_blocks-Copied numbered 1 5 2 numbered-IsHealthy (omega arith) (omega arith)
      (inl (omega arith))

-- A device that fails at block 4.
abbrev worn : VirtualDisk
worn = record numbered { stream = record (numbered.stream) { bad = λ b. b == 4 } }

write_fails : (access worn (writes 4 [])).1 ≡ false
unfolding access write_block
write_fails = refl

failure_sticks_example :
    All (λ ok. ok ≡ false) (accesses (access worn (writes 4 [])).0 (reads 2 ∷ writes 3 [] ∷ [])).1
    × ((accesses (access worn (writes 4 [])).0 (reads 2 ∷ writes 3 [] ∷ [])).0
        ≡ (access worn (writes 4 [])).0)
failure_sticks_example =
    failure_sticks worn (writes 4 []) (reads 2 ∷ writes 3 [] ∷ []) refl (omega arith) write_fails

abbrev closed : VirtualDisk
closed = record {
  disk_size = 0;
  block_size = 4096;
  total_blocks = 0;
  stream = record {
    is_open = false;
    failed = false;
    size = 0;
    content = λ b. [];
    bad = λ b. false;
  };
}

abbrev file : File
file = record { file_size = 10000; blocks = λ b. []; broken = λ b. false }

open_disk-create_example :
    let made = create closed 1 (some (λ b. false)) file true in
    let opened = (open_disk closed (some (saved made.0))).0 in
    (made.1 ≡ true)
    × IsHealthy opened
    × (opened.total_blocks ≡ 256)
    × (read_block opened 7 ≡ (opened, some (replicate 4096 0)))
open_disk-create_example =
    open_disk-create closed closed file 1 7 (λ b. false) refl refl refl refl (omega arith)
      (λ b. refl) (omega arith)

-- The stream is open already.
refuses_open : (create numbered 1 (some (λ b. false)) file true).1 ≡ false
unfolding create os_course_design.Disk.create_open
refuses_open = refl
