-- ===== src/Cache/Access.antt =====
-- `read_block` and `write_block` as accesses to one memory.
use os_course_design.Prelude.{
  ℕ, ◌≤◌, ◌<◌, ◌≡◌, refl, ap, sym, inl, inr, Bool, true, false, [], none, some, Option-cases, arith,
}
use os_course_design.Disk
use os_course_design.Disk.{Block, VirtualDisk, write_at}
use os_course_design.Disk.Access.{read_block_lem, refused_outside}
use os_course_design.Cache.{
  CachePage, CacheManager, page_at, find_page, get_free_page, install, fetch, claim, store,
  read_block, write_block,
}
use os_course_design.Cache.Pages.{MapsTo, IsValid, view, view_mapped}
use os_course_design.Cache.Install.{
  Stands, contents-view, install-Stands, installed_self, store-Stands,
}
use os_course_design.Cache.Eviction.{FreesPage, get_free_page-FreesPage}

abbrev fetched : CacheManager → ℕ → ℕ → CachePage
fetched c now b = record {
  block_no = b;
  dirty = false;
  access_time = now;
  contents = c.disk.content b;
}

fetch-install :
    (c : CacheManager) (now b i : ℕ)
    → Disk.read_block c.disk b ≡ (c.disk, some (c.disk.content b))
    → fetch c now b i ≡ (install c i (fetched c now b), some (c.disk.content b))
unfolding fetch install
fetch-install c now b i e = ground (arith, e)

-- The page of a write miss still counts as clean.
abbrev claimed : CacheManager → ℕ → ℕ → ℕ → CachePage
claimed c now b i = record (page_at c i) {
  block_no = b;
  access_time = now;
  contents = c.disk.content b;
}

claim-install :
    (c : CacheManager) (now b i : ℕ)
    → Disk.read_block c.disk b ≡ (c.disk, some (c.disk.content b))
    → claim c now b i ≡ install c i (claimed c now b i)
unfolding claim install
claim-install c now b i e = ground (arith, e)

-- `fetch` and `claim` leave the memory as it was.
module _ (c c' : CacheManager) (now b i : ℕ) (f : FreesPage c c' i)
    (fresh : c.block_to_page b ≡ none) (h : b < c.disk.total_blocks) where
  disk_read : Disk.read_block c'.disk b ≡ (c'.disk, some (c'.disk.content b))
  disk_read = read_block_lem c'.disk b f.coherent.healthy (rw f.total h)

  fetch-Stands : ((fetch c' now b i).1 ≡ some (view c b)) × Stands c (view c) (fetch c' now b i).0
  fetch-Stands = rw (fetch-install c' now b i disk_read) (
    ap some (contents-view c c' (fetched c' now b) i f fresh h refl),
    install-Stands c c' (fetched c' now b) i f fresh h refl,
  )

  claim-Stands : Stands c (view c) (claim c' now b i)
  claim-Stands =
      rw (claim-install c' now b i disk_read)
        (install-Stands c c' (claimed c' now b i) i f fresh h refl)

  claim-MapsTo : MapsTo b (page_at (claim c' now b i) i)
  claim-MapsTo = rw (claim-install c' now b i disk_read) (record {
    block = ground (arith, claimed_page);
    proper = ground (arith, f.coherent.fits, f.total);
  })
    where
      claimed_page : page_at (install c' i (claimed c' now b i)) i ≡ claimed c' now b i
      claimed_page = installed_self c' i (claimed c' now b i) f.in_range

read_miss :
    (c : CacheManager) (now b i : ℕ)
    → find_page c b ≡ none
    → (get_free_page c).1 ≡ some i
    → read_block c now b ≡ fetch (get_free_page c).0 now b i
unfolding read_block
read_miss c now b i miss found = ground (arith, miss, found)

write_miss :
    (c : CacheManager) (now b i : ℕ) (buffer : Block)
    → find_page c b ≡ none
    → (get_free_page c).1 ≡ some i
    → write_block c now b buffer ≡ (store (claim (get_free_page c).0 now b i) i buffer, true)
unfolding write_block
write_miss c now b i buffer miss found = ground (arith, miss, found)

read_hit :
    (c : CacheManager) (now b i : ℕ)
    → find_page c b ≡ some i
    → read_block c now b ≡ (c, some (page_at c i).contents)
unfolding read_block
read_hit c now b i e = ground (arith, e)

write_hit :
    (c : CacheManager) (now b i : ℕ) (buffer : Block)
    → find_page c b ≡ some i
    → write_block c now b buffer ≡ (store c i buffer, true)
unfolding write_block
write_hit c now b i buffer e = ground (arith, e)

-- On a valid cache, reading a block of the disk succeeds, returns what the memory holds there, and
-- leaves the memory as it was, whether the block was cached, loaded into an unused page or loaded
-- after an eviction.
pub read_block-Stands :
    (c : CacheManager) (now b : ℕ)
    → IsValid c
    → b < c.disk.total_blocks
    → ((read_block c now b).1 ≡ some (view c b)) × Stands c (view c) (read_block c now b).0
unfolding find_page
read_block-Stands c now b v h = elim (Option-cases (c.block_to_page b)) [
  | inl e ↦
      let (i, found, f) = get_free_page-FreesPage c v in
      rw (read_miss c now b i e found) (fetch-Stands c _ now b i f e h)
  | inr (i, e) ↦ rw (read_hit c now b i e) (
    ap some (sym (view_mapped c b i e)),
    record { valid = v; total = refl; memory_is = λ j. refl },
  )
]

-- On a valid cache, writing a block of the disk succeeds, changes the memory at that block alone, and
-- leaves a valid cache.
pub write_block-Stands :
    (c : CacheManager) (now b : ℕ) (buffer : Block)
    → IsValid c
    → b < c.disk.total_blocks
    → ((write_block c now b buffer).1 ≡ true)
      × Stands c (write_at (view c) b buffer) (write_block c now b buffer).0
unfolding find_page
write_block-Stands c now b buffer v h = elim (Option-cases (c.block_to_page b)) [
  | inl e ↦
      let (i, found, f) = get_free_page-FreesPage c v in
      rw (write_miss c now b i buffer e found) (
        refl,
        store-Stands c _ (view c) b i buffer (claim-Stands c _ now b i f e h)
            (claim-MapsTo c _ now b i f e h),
      )
  | inr (i, e) ↦ rw (write_hit c now b i buffer e) (
    refl,
    store-Stands c c (view c) b i buffer (record { valid = v; total = refl; memory_is = λ j. refl })
        (v.coherent.mapped b i e),
  )
]

claim_outside :
    (c : CacheManager) (now b i : ℕ) → c.disk.total_blocks ≤ b → (claim c now b i).disk ≡ c.disk
unfolding claim install
claim_outside c now b i h = ground (arith, (refused_outside c.disk b [] h).0)

-- A write past the disk is not refused: on a valid cache `write_block` answers true for a block number
-- from the disk's size up to UINT32_MAX - 1 too, although the disk then refuses that block, so that the
-- data can never be written back.
pub write_block_outside :
    (c : CacheManager) (now b : ℕ) (buffer : Block)
    → IsValid c
    → c.disk.total_blocks ≤ b
    → ((write_block c now b buffer).1 ≡ true)
      × ((write_block c now b buffer).0.disk.total_blocks ≡ c.disk.total_blocks)
      × ((Disk.write_block (write_block c now b buffer).0.disk b buffer).1 ≡ false)
unfolding find_page store
write_block_outside c now b buffer v h = elim (Option-cases (c.block_to_page b)) [
  | inl e ↦
      let (i, found, f) = get_free_page-FreesPage c v in
      let out = rw (sym f.total) at h in
      let kept = claim_outside (get_free_page c).0 now b i out in
      rw (write_miss c now b i buffer e found, kept)
        (refl, f.total, ap (λ (r : VirtualDisk × Bool). r.1) (refused_outside _ b buffer out).1)
  | inr (i, e) ↦
      rw (write_hit c now b i buffer e)
        (refl, refl, ap (λ (r : VirtualDisk × Bool). r.1) (refused_outside c.disk b buffer h).1)
]
