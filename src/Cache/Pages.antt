-- ===== src/Cache/Pages.antt =====
-- The invariant of the cache, the memory that it stands for, and `write_back_page`.
use os_course_design.Prelude.{
  ℕ, zero, suc, ◌+◌, ◌<◌, ◌≡◌, refl, ap, sym, ◌∙◌, inl, inr, Bool, true, false, not, ◌&&◌, List, [],
  ◌∷◌, Option, none, some, ◌==◌, if◌then◌else◌, Bool-cases, Option-cases, arith, length, get_or,
  set, length-set, get_or-set_self, get_or-set_ne, uint32_max, u32_mod,
}
use os_course_design.Disk.{Block, VirtualDisk, write_at}
use os_course_design.Disk
use os_course_design.Disk.Access.{IsHealthy, SameDisk, Wrote, write_block-Wrote}
use os_course_design.Cache.{CachePage, CacheManager, page_at, unused_page, write_back_page}

abbrev pub IsUsed : CachePage → Type 0
IsUsed p = (p.block_no == uint32_max) ≡ false

abbrev pub is_used : CachePage → Bool
is_used p = not (p.block_no == uint32_max)

-- How often a page stands in the queue.
unfoldable pub occurrences : ℕ → List ℕ → ℕ
occurrences i [] = 0
occurrences i (j ∷ js) = (if j == i then 1 else 0) + occurrences i js

-- What holds of each page: the map leads to it, its block is on the disk, and it is dirty unless it
-- agrees with the disk.
pub record PageIsValid (c : CacheManager) (i : ℕ) (p : CachePage) : Type 0 where
  pub indexed : IsUsed p → c.block_to_page p.block_no ≡ some i
  pub in_disk : IsUsed p → p.block_no < c.disk.total_blocks
  pub coherent : IsUsed p → p.dirty ≡ false → p.contents ≡ c.disk.content p.block_no
  pub idle_clean : p.block_no ≡ uint32_max → p.dirty ≡ false

pub record MapsTo (b : ℕ) (p : CachePage) : Type 0 where
  pub block : p.block_no ≡ b
  pub proper : (b == uint32_max) ≡ false

-- Everything but the queue.
pub record IsCoherent (c : CacheManager) : Type 0 where
  pub healthy : IsHealthy c.disk
  pub fits : c.disk.total_blocks < u32_mod
  pub page : (i : ℕ) → PageIsValid c i (page_at c i)
  pub mapped : (b i : ℕ) → c.block_to_page b ≡ some i → MapsTo b (page_at c i)

-- The queue holds each used page once, and nothing else; there is a page.
pub record IsValid (c : CacheManager) : Type 0 where
  pub coherent : IsCoherent c
  pub queued : (i : ℕ) → occurrences i c.fifo_queue ≡ (if is_used (page_at c i) then 1 else 0)
  pub some_page : 0 < length c.pages

-- The memory that cache and disk stand for.
unfoldable pub view : CacheManager → ℕ → Block
view c b = elim (c.block_to_page b) [ some i ↦ (page_at c i).contents | none ↦ c.disk.content b ]

pub view_mapped :
    (c : CacheManager) (b i : ℕ) → c.block_to_page b ≡ some i → view c b ≡ (page_at c i).contents
unfolding view
view_mapped c b i e = rw (e, view)

pub view_unmapped :
    (c : CacheManager) (b : ℕ) → c.block_to_page b ≡ none → view c b ≡ c.disk.content b
unfolding view
view_unmapped c b e = rw (e, view)

-- The pages of a cache in which page `i` was replaced.
pub page_at-set :
    (c c' : CacheManager) (i j : ℕ) (p : CachePage)
    → c'.pages ≡ set c.pages i p
    → i < length c.pages
    → page_at c' j ≡ (if j == i then p else page_at c j)
unfolding page_at
page_at-set c c' i j p t h = elim (Bool-cases (j == i)) [
  | inl e ↦
      let same : j ≡ i = ground arith in
      rw (e, t, same) (get_or-set_self c.pages i p (unused_page 0) h)
  | inr e ↦ rw (e, t) (get_or-set_ne c.pages i j p (unused_page 0) (ground arith))
]

-- A used page stands in the list.
pub used_in_range : (c : CacheManager) (i : ℕ) → IsUsed (page_at c i) → i < length c.pages
unfolding page_at
used_in_range c i u = in_range c.pages i u
  where
    in_range : (ps : List CachePage) (k : ℕ) → IsUsed (get_or ps k (unused_page 0)) → k < length ps
    in_range [] k h = absurd (ground arith)
    in_range (p ∷ ps) zero h = omega arith
    in_range (p ∷ ps) (suc k) h = omega (arith, in_range ps k h)

abbrev cleaned : CachePage → CachePage
cleaned p = record p { dirty = false }

-- After the dirty page `i` was written back.
pub record Cleans (c : CacheManager) (i : ℕ) (c' : CacheManager) : Type 0 where
  pub queue : c'.fifo_queue ≡ c.fifo_queue
  pub map : c'.block_to_page ≡ c.block_to_page
  pub count : length c'.pages ≡ length c.pages
  pub page : (j : ℕ) → page_at c' j ≡ (if j == i then cleaned (page_at c i) else page_at c j)
  pub disk : SameDisk c.disk c'.disk
  pub content :
      (b : ℕ)
      → c'.disk.content b ≡ write_at c.disk.content (page_at c i).block_no (page_at c i).contents b

pub write_back_page-Cleans :
    (c : CacheManager) (i : ℕ)
    → IsCoherent c
    → (page_at c i).dirty ≡ true
    → Cleans c i (write_back_page c i)
unfolding write_back_page
write_back_page-Cleans c i v d =
    let test : (not ((page_at c i).block_no == uint32_max) && (page_at c i).dirty) ≡ true =
      ground (arith, d, used) in
    rw test (record {
      queue = refl;
      map = refl;
      count = length-set c.pages i _;
      page = λ j. page_at-set c _ i j _ refl (used_in_range c i used);
      disk = wrote.same;
      content = wrote.content;
    })
  where
    used : IsUsed (page_at c i)
    used = ground (arith, (v.page i).idle_clean, d)

    wrote :
        Wrote c.disk
          (page_at c i).block_no
          (page_at c i).contents
          (Disk.write_block c.disk (page_at c i).block_no (page_at c i).contents)
    wrote = write_block-Wrote c.disk _ _ v.healthy ((v.page i).in_disk used)

-- Two used pages hold different blocks.
pub used_distinct :
    (c : CacheManager) (i j : ℕ)
    → IsCoherent c
    → IsUsed (page_at c i)
    → IsUsed (page_at c j)
    → (page_at c j).block_no ≡ (page_at c i).block_no
    → j ≡ i
used_distinct c i j v u u' e =
    ground (arith, (v.page j).indexed u', (v.page i).indexed u, ap c.block_to_page e)

-- A block that no page holds is not the block of a used page.
pub unmapped_ne :
    (c : CacheManager) (i b : ℕ)
    → IsCoherent c
    → IsUsed (page_at c i)
    → c.block_to_page b ≡ none
    → (b == (page_at c i).block_no) ≡ false
unmapped_ne c i b v u e = elim (Bool-cases (b == (page_at c i).block_no)) [
  | inl t ↦
      let same : b ≡ (page_at c i).block_no = ground arith in
      absurd (ground (arith, e, ap c.block_to_page same, (v.page i).indexed u))
  | inr t ↦ t
]

module _ (c c' : CacheManager) (i : ℕ) (v : IsCoherent c) (used : IsUsed (page_at c i))
    (w : Cleans c i c') where
  open v use {healthy, fits, page as page_of, mapped}

  Cleans-self : PageIsValid c' i (cleaned (page_at c i))
  Cleans-self = record {
    indexed = λ u. rw w.map ((page_of i).indexed u);
    in_disk = λ u. rw w.disk.total ((page_of i).in_disk u);
    coherent = λ u d. ground (arith, w.content (page_at c i).block_no);
    idle_clean = λ e. refl;
  }

  Cleans-other : (j : ℕ) → (j == i) ≡ false → PageIsValid c' j (page_at c j)
  Cleans-other j ne = record {
    indexed = λ u. rw w.map ((page_of j).indexed u);
    in_disk = λ u. rw w.disk.total ((page_of j).in_disk u);
    coherent = λ u d. ground (
      arith,
      w.content (page_at c j).block_no,
      used_distinct c i j v used u,
      (page_of j).coherent u d,
    );
    idle_clean = (page_of j).idle_clean;
  }

  Cleans-page : (j : ℕ) → PageIsValid c' j (page_at c' j)
  Cleans-page j = elim (Bool-cases (j == i)) [
    | inl e ↦ let same : j ≡ i = ground arith in rw (w.page j, e, same) Cleans-self
    | inr e ↦ rw (w.page j, e) (Cleans-other j e)
  ]

  pub Cleans-IsCoherent : IsCoherent c'
  Cleans-IsCoherent = record {
    healthy = w.disk.healthy;
    fits = rw w.disk.total fits;
    page = Cleans-page;
    mapped = λ b j e.
        let m = mapped b j (ap (λ (f : ℕ → Option ℕ). f b) (sym w.map) ∙ e) in
        record { block = ground (arith, m.block, w.page j); proper = m.proper };
  }

  pub view-Cleans : (b : ℕ) → view c' b ≡ view c b
  unfolding view
  view-Cleans b = elim (Option-cases (c.block_to_page b)) [
    | inl e ↦ rw (w.map, e) (ground (arith, e, w.content b, unmapped_ne c i b v used e))
    | inr (j, e) ↦ rw (w.map, e) (ground (arith, w.page j))
  ]
