-- ===== src/Disk.antt =====
-- The virtual disk: src/core/disk.h and src/core/disk.cpp, `VirtualDisk`. The host file behind
-- `file_stream_` is its size in bytes, its contents by block, and the blocks at which the device fails:
-- an environment that the calls find. A stream that failed once fails at every later seek, since the
-- code never clears it. A buffer holds `block_size` bytes.
pub mod Access
pub mod Format
mod Tests
use os_course_design.Prelude.{
  ℕ, zero, suc, ◌+◌, ◌*◌, ◌/◌, ◌%◌, Bool, true, false, not, ◌||◌, List, Option, none, some, ltb,
  leb, ◌==◌, ◌&&◌, [], if◌then◌else◌, u32_mod, replicate,
}

abbrev pub Block : Type 0
Block = List ℕ

pub record Stream : Type 0 where
  pub is_open : Bool
  pub failed : Bool
  pub size : ℕ
  pub content : ℕ → Block
  pub bad : ℕ → Bool

pub record VirtualDisk : Type 0 where
  pub disk_size : ℕ
  pub block_size : ℕ
  pub total_blocks : ℕ
  pub stream : Stream
  pub open stream use *

abbrev pub write_at : (ℕ → Block) → ℕ → Block → ℕ → Block
write_at content k b j = if j == k then b else content j

-- `none` is false; the buffer is then not to be read.
unfoldable pub read_block : VirtualDisk → ℕ → VirtualDisk × Option Block
read_block d block_no =
    if not d.is_open || leb d.total_blocks block_no
    then (d, none)
    else if d.failed
    then (d, none)
    else if d.bad block_no || ltb d.size ((block_no + 1) * d.block_size)
    then (record d { stream = record (d.stream) { failed = true } }, none)
    else (d, some (d.content block_no))

-- A write at the end lets the file grow.
grown : VirtualDisk → ℕ → Block → VirtualDisk
grown d block_no buffer = record d {
  stream = record (d.stream) {
    content = write_at d.content block_no buffer;
    size =
        if ltb d.size ((block_no + 1) * d.block_size)
        then (block_no + 1) * d.block_size
        else d.size;
  };
}

unfoldable pub write_block : VirtualDisk → ℕ → Block → VirtualDisk × Bool
unfolding grown
write_block d block_no buffer =
    if not d.is_open || leb d.total_blocks block_no
    then (d, false)
    else if d.failed
    then (d, false)
    else if d.bad block_no
    then (record d { stream = record (d.stream) { failed = true } }, false)
    else (grown d block_no buffer, true)

-- One round of `copy_blocks`.
unfoldable pub copy_block : VirtualDisk → ℕ → ℕ → VirtualDisk × Bool
copy_block d src dst =
    let (d', buffer) = read_block d src in
    elim buffer [ none ↦ (d', false) | some b ↦ write_block d' dst b ]

unfoldable pub copy_blocks : VirtualDisk → ℕ → ℕ → ℕ → VirtualDisk × Bool
copy_blocks d src dst zero = (d, true)
copy_blocks d src dst (suc count) =
    let rest = copy_blocks (copy_block d src dst).0 (src + 1) (dst + 1) count in
    if (copy_block d src dst).1 then rest else ((copy_block d src dst).0, false)

-- The host file that `open` finds.
pub record File : Type 0 where
  pub file_size : ℕ
  pub blocks : ℕ → Block
  pub broken : ℕ → Bool

abbrev attach : File → Bool → Bool → Stream
attach f is_open failed = record {
  is_open = is_open;
  failed = failed;
  size = f.file_size;
  content = f.blocks;
  bad = f.broken;
}

-- `none`: the host has no such file. Opening a stream that is open fails, and `tellg` is then -1.
unfoldable pub open_disk : VirtualDisk → Option File → VirtualDisk × Bool
open_disk d none =
    (record d { stream = record (d.stream) { is_open = false; failed = true } }, false)
open_disk d (some f) =
    if d.is_open
    then (record d { stream = record (d.stream) { is_open = false; failed = true } }, false)
    else if f.file_size == 0
    then (record d { stream = attach f false false }, false)
    else (
      record d {
        disk_size = f.file_size;
        total_blocks = f.file_size / d.block_size % u32_mod;
        stream = attach f true false;
      },
      true,
    )

-- The loop of `create`: one block of zeros after the other.
fill : ℕ → File → ℕ → ℕ → File × Bool
fill bytes f i zero = (f, true)
fill bytes f i (suc rounds) =
    let rest =
      fill bytes
        (record f {
          blocks = write_at f.blocks i (replicate bytes 0);
          file_size = f.file_size + bytes;
        })
        (i + 1) rounds in
    if f.broken i then (f, false) else rest

abbrev pub mib : ℕ
mib = 1024 * 1024

-- On a closed stream. The host lets the file be created or not (`some broken` or `none`) and opened again
-- or not.
create_closed : VirtualDisk → ℕ → Option (ℕ → Bool) → Bool → VirtualDisk × Bool
unfolding fill
create_closed d size_mb none reopens = (
  record d {
    disk_size = size_mb * mib;
    stream = record (d.stream) { is_open = false; failed = true };
  },
  false,
)
create_closed d size_mb (some broken) reopens =
    let (f, filled) =
      fill d.block_size (record { file_size = 0; blocks = λ _. []; broken = broken }) 0
        (size_mb * mib / d.block_size % u32_mod) in
    (
      record d {
        disk_size = size_mb * mib;
        stream = attach f (filled && reopens) (not (filled && reopens));
      },
      filled && reopens,
    )

-- On an open stream the first `open` fails and only sets the fail bit, so the first write fails. Without a
-- write the stream is closed and opened on what the host has under the name.
create_open : VirtualDisk → ℕ → File → Bool → VirtualDisk × Bool
create_open d size_mb found reopens =
    if size_mb * mib / d.block_size % u32_mod == 0
    then (
      record d { disk_size = size_mb * mib; stream = attach found reopens (not reopens) },
      reopens,
    )
    else (
      record d {
        disk_size = size_mb * mib;
        stream = record (d.stream) { is_open = false; failed = true };
      },
      false,
    )

-- `total_blocks_` is left as it is.
unfoldable pub create : VirtualDisk → ℕ → Option (ℕ → Bool) → File → Bool → VirtualDisk × Bool
unfolding create_closed create_open
create d size_mb host found reopens =
    if d.is_open then create_open d size_mb found reopens else create_closed d size_mb host reopens
