-- ===== src/Cache/Tests.antt =====
-- The cache at a concrete disk, with two pages.
use os_course_design.Prelude.{ℕ, ◌≡◌, refl, true, false, List, [], ◌∷◌, some, arith}
use os_course_design.Disk
use os_course_design.Disk.{VirtualDisk, Block, write_at}
use os_course_design.Disk.Access.{IsHealthy}
use os_course_design.Cache.{
  CacheManager, cache_manager, page_at, read_block, write_block, flush_all,
}
use os_course_design.Cache.Pages.{IsValid, view}
use os_course_design.Cache.Install.{Stands}
use os_course_design.Cache.Access.{read_block-Stands, write_block-Stands, write_block_outside}
use os_course_design.Cache.Flush.{cache_manager-IsValid, flush_all-Stands}
use os_course_design.Cache.Refinement.{Call, reads, writes, flushes, run, run_array, run-run_array}

-- Ten blocks, each holding its number.
abbrev numbered : VirtualDisk
numbered = record {
  disk_size = 40960;
  block_size = 4096;
  total_blocks = 10;
  stream = record {
    is_open = true;
    failed = false;
    size = 40960;
    content = λ b. b ∷ [];
    bad = λ b. false;
  };
}

numbered-IsHealthy : IsHealthy numbered
numbered-IsHealthy = record {
  opened = refl;
  clean = refl;
  good = λ b h. refl;
  backed = λ b h. omega arith;
}

abbrev two_pages : CacheManager
two_pages = cache_manager numbered 2 4096

two_pages-IsValid : IsValid two_pages
two_pages-IsValid =
    (cache_manager-IsValid numbered 2 4096 numbered-IsHealthy (omega arith) (omega arith)).0

-- Three blocks pass through two pages: block 1 is written, evicted and read again.
abbrev calls : List (ℕ × Call)
calls =
    (1, writes 1 (42 ∷ []))
    ∷ (2, reads 2)
    ∷ (3, reads 3)
    ∷ (4, writes 3 (43 ∷ []))
    ∷ (5, reads 1)
    ∷ (6, flushes)
    ∷ (7, reads 3)
    ∷ []

run-run_array_example : run two_pages calls ≡ run_array (λ b. b ∷ []) calls
unfolding view cache_manager
run-run_array_example =
    run-run_array two_pages (λ b. b ∷ []) calls 10 two_pages-IsValid (λ b. refl) refl
      (
        omega arith,
        (omega arith, (omega arith, (omega arith, (omega arith, (tt, (omega arith, tt)))))),
      )

-- The cache with a dirty page.
abbrev written : CacheManager
written = (write_block two_pages 1 1 (42 ∷ [])).0

write_block-Stands_example :
    ((write_block two_pages 1 1 (42 ∷ [])).1 ≡ true)
    × Stands two_pages (write_at (view two_pages) 1 (42 ∷ [])) written
unfolding cache_manager
write_block-Stands_example =
    write_block-Stands two_pages 1 1 (42 ∷ []) two_pages-IsValid (omega arith)

written-Stands : Stands two_pages (write_at (view two_pages) 1 (42 ∷ [])) written
unfolding cache_manager
written-Stands = (write_block-Stands two_pages 1 1 (42 ∷ []) two_pages-IsValid (omega arith)).1

read_block-Stands_example :
    ((read_block written 2 1).1 ≡ some (view written 1))
    × Stands written (view written) (read_block written 2 1).0
unfolding write_block os_course_design.Cache.find_page cache_manager
read_block-Stands_example =
    read_block-Stands written 2 1 written-Stands.valid (omega (arith, written-Stands.total))

flush_all-Stands_example :
    Stands written (view written) (flush_all written)
    × ((b : ℕ) → (flush_all written).disk.content b ≡ view written b)
    × ((i : ℕ) → (page_at (flush_all written) i).dirty ≡ false)
flush_all-Stands_example = flush_all-Stands written written-Stands.valid

write_block_outside_example :
    ((write_block two_pages 1 12 []).1 ≡ true)
    × ((write_block two_pages 1 12 []).0.disk.total_blocks ≡ 10)
    × ((Disk.write_block (write_block two_pages 1 12 []).0.disk 12 []).1 ≡ false)
unfolding cache_manager
write_block_outside_example = write_block_outside two_pages 1 12 [] two_pages-IsValid (omega arith)
