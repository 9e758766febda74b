-- ===== src/Cache.antt =====
-- The block cache: src/core/cache.h and src/core/cache.cpp, `CacheManager`. The disk behind `disk_` is
-- part of the state, since after mounting every access to it goes through the cache. `time(nullptr)`
-- is an argument, `now`. A buffer holds one block, so that `memcpy` copies it whole.
pub mod Pages
pub mod Victim
pub mod Eviction
pub mod Install
pub mod Access
pub mod Flush
pub mod Refinement
mod Tests
use os_course_design.Prelude.{
  ℕ, zero, suc, ◌+◌, ◌≡◌, Bool, true, false, not, ◌&&◌, List, [], ◌∷◌, ◌++◌, Option, none, some,
  ◌==◌, if◌then◌else◌, length, get_or, set, replicate, uint32_max,
}
use os_course_design.Disk.{Block, VirtualDisk}
use os_course_design.Disk

pub record CachePage : Type 0 where
  pub block_no : ℕ
  pub dirty : Bool
  pub access_time : ℕ
  pub contents : Block

pub record CacheManager : Type 0 where
  pub disk : VirtualDisk
  pub pages : List CachePage
  pub fifo_queue : List ℕ
  pub block_to_page : ℕ → Option ℕ

abbrev pub unused_page : ℕ → CachePage
unused_page bytes = record {
  block_no = uint32_max;
  dirty = false;
  access_time = 0;
  contents = replicate bytes 0;
}

-- The constructor.
unfoldable pub cache_manager : VirtualDisk → ℕ → ℕ → CacheManager
cache_manager disk page_count block_size = record {
  disk = disk;
  pages = replicate page_count (unused_page block_size);
  fifo_queue = [];
  block_to_page = λ _. none;
}

-- `pages_[i]`; the code never goes past the end.
unfoldable pub page_at : CacheManager → ℕ → CachePage
page_at c i = get_or c.pages i (unused_page 0)

abbrev set_page : CacheManager → ℕ → CachePage → CacheManager
set_page c i p = record c { pages = set c.pages i p }

abbrev pub put_entry : (ℕ → Option ℕ) → ℕ → Option ℕ → ℕ → Option ℕ
put_entry m b o j = if j == b then o else m j

unfoldable pub find_page : CacheManager → ℕ → Option ℕ
find_page c block_no = c.block_to_page block_no

-- A failed write is reported on the error stream, and the page counts as clean all the same.
unfoldable pub write_back_page : CacheManager → ℕ → CacheManager
write_back_page c page_index =
    let p = page_at c page_index in
    let written = (Disk.write_block c.disk p.block_no p.contents).0 in
    if not (p.block_no == uint32_max) && p.dirty
    then set_page (record c { disk = written }) page_index (record p { dirty = false })
    else c

-- The first page that holds no block.
first_unused : List CachePage → ℕ → Option ℕ
first_unused [] i = none
first_unused (p ∷ ps) i =
    let rest = first_unused ps (i + 1) in if p.block_no == uint32_max then some i else rest

-- The victim leaves the queue, is written back if dirty, and loses its block.
evict : CacheManager → List ℕ → CacheManager × Option ℕ
evict c [] = (c, none)
evict c (victim ∷ rest) =
    let popped = record c { fifo_queue = rest } in
    let clean = if (page_at popped victim).dirty then write_back_page popped victim else popped in
    let p = page_at clean victim in
    (
      record clean {
        block_to_page = put_entry clean.block_to_page p.block_no none;
        pages = set clean.pages victim (record p { block_no = uint32_max });
      },
      some victim,
    )

unfoldable pub get_free_page : CacheManager → CacheManager × Option ℕ
unfolding first_unused evict
get_free_page c = elim (first_unused c.pages 0) [
  | some i ↦ (c, some i)
  | none ↦ evict c c.fifo_queue
]

-- The page takes a block: its fields, the map and the queue.
pub install : CacheManager → ℕ → CachePage → CacheManager
install c i p = record c {
  pages = set c.pages i p;
  block_to_page = put_entry c.block_to_page p.block_no (some i);
  fifo_queue = c.fifo_queue ++ i ∷ [];
}

-- Steps 5 to 7 of `read_block`.
fetch : CacheManager → ℕ → ℕ → ℕ → CacheManager × Option Block
unfolding install
fetch c now block_no i =
    let (disk', got) = Disk.read_block c.disk block_no in
    elim got [
      | none ↦ (record c { disk = disk' }, none)
      | some data' ↦ (
        install (record c { disk = disk' }) i
            (record { block_no = block_no; dirty = false; access_time = now; contents = data' }),
        some data',
      )
    ]

-- `none` is false. The code looks for the page twice, which without locks finds the same.
unfoldable pub read_block : CacheManager → ℕ → ℕ → CacheManager × Option Block
unfolding fetch
read_block c now block_no = elim (find_page c block_no) [
  | some i ↦ (c, some (page_at c i).contents)
  | none ↦
      let (c', page) = get_free_page c in
      elim page [ none ↦ (c', none) | some i ↦ fetch c' now block_no i ]
]

-- A write miss: the old contents are fetched, if the disk can be read.
claim : CacheManager → ℕ → ℕ → ℕ → CacheManager
unfolding install
claim c now block_no i =
    let (disk', got) = Disk.read_block c.disk block_no in
    let p = page_at c i in
    install (record c { disk = disk' }) i
      (record p {
        block_no = block_no;
        access_time = now;
        contents = elim got [ none ↦ p.contents | some data' ↦ data' ];
      })

-- The page takes the buffer and is dirty.
pub store : CacheManager → ℕ → Block → CacheManager
store c i buffer = set_page c i (record (page_at c i) { contents = buffer; dirty = true })

unfoldable pub write_block : CacheManager → ℕ → ℕ → Block → CacheManager × Bool
unfolding claim store
write_block c now block_no buffer = elim (find_page c block_no) [
  | some i ↦ (store c i buffer, true)
  | none ↦
      let (c', page) = get_free_page c in
      elim page [ none ↦ (c', false) | some i ↦ (store (claim c' now block_no i) i buffer, true) ]
]

-- The loop of `flush_all`, over the rounds that are left.
flush_from : CacheManager → ℕ → ℕ → CacheManager
flush_from c i zero = c
flush_from c i (suc rounds) =
    flush_from (if (page_at c i).dirty then write_back_page c i else c) (i + 1) rounds

unfoldable pub flush_all : CacheManager → CacheManager
unfolding flush_from
flush_all c = flush_from c 0 (length c.pages)
