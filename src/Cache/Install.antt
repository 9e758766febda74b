-- ===== src/Cache/Install.antt =====
-- A page that takes a block, and a page that takes a buffer.
use os_course_design.Prelude.{
  ℕ, ◌+◌, ◌<◌, ◌≡◌, ◌⊎◌, refl, ap, sym, ◌∙◌, inl, inr, true, false, List, [], ◌∷◌, ◌++◌, none, some,
  ◌==◌, if◌then◌else◌, Bool-cases, Option-cases, arith, length, length-set, uint32_max,
}
use os_course_design.Disk.{Block, write_at}
use os_course_design.Cache.{CachePage, CacheManager, page_at, install, store}
use os_course_design.Cache.Pages.{
  IsUsed, is_used, occurrences, PageIsValid, MapsTo, IsCoherent, IsValid, view, view_mapped,
  view_unmapped, page_at-set, used_in_range, used_distinct, unmapped_ne,
}
use os_course_design.Cache.Eviction.{FreesPage}

-- A valid cache over a disk of as many blocks, for another memory.
pub record Stands (c : CacheManager) (memory : ℕ → Block) (c' : CacheManager) : Type 0 where
  pub valid : IsValid c'
  pub total : c'.disk.total_blocks ≡ c.disk.total_blocks
  pub memory_is : (b : ℕ) → view c' b ≡ memory b

pub occurrences-append :
    (j i : ℕ) (q : List ℕ)
    → occurrences j (q ++ i ∷ []) ≡ occurrences j q + (if i == j then 1 else 0)
unfolding occurrences
occurrences-append j i [] = ground arith
occurrences-append j i (k ∷ q) = ground (arith, occurrences-append j i q)

pub installed_self :
    (c : CacheManager) (i : ℕ) (p : CachePage) → i < length c.pages → page_at (install c i p) i ≡ p
unfolding install
installed_self c i p h = ground (arith, page_at-set c (install c i p) i i p refl h)

module _ (c : CacheManager) (i : ℕ) (p : CachePage) (v : IsCoherent c)
    (queued : (j : ℕ) → occurrences j c.fifo_queue ≡ (if is_used (page_at c j) then 1 else 0))
    (in_range : i < length c.pages) (idle : (page_at c i).block_no ≡ uint32_max)
    (fresh : c.block_to_page p.block_no ≡ none) (on_disk : p.block_no < c.disk.total_blocks)
    (agrees : p.dirty ≡ false → p.contents ≡ c.disk.content p.block_no) where
  proper : IsUsed p
  proper = ground (arith, v.fits)

  page_at-install : (j : ℕ) → page_at (install c i p) j ≡ (if j == i then p else page_at c j)
  unfolding install
  page_at-install j = page_at-set c _ i j p refl in_range

  installed-page : (j : ℕ) → PageIsValid (install c i p) j (page_at (install c i p) j)
  unfolding install
  installed-page j = elim (Bool-cases (j == i)) [
    | inl e ↦
        let same : j ≡ i = ground arith in
        rw (page_at-install j, e)
          (record {
            indexed = λ u. ground arith;
            in_disk = λ u. on_disk;
            coherent = λ u d. agrees d;
            idle_clean = λ u. absurd (ground (arith, proper));
          })
    | inr e ↦
        rw (page_at-install j, e)
          (record {
            indexed =
                λ u. ground (arith, (v.page j).indexed u, unmapped_ne c j p.block_no v u fresh);
            in_disk = (v.page j).in_disk;
            coherent = (v.page j).coherent;
            idle_clean = (v.page j).idle_clean;
          })
  ]

  still_mapped :
      (b j : ℕ)
      → (install c i p).block_to_page b ≡ some j
      → ((b == p.block_no) ≡ true) ⊎ ((b == p.block_no) ≡ false)
      → MapsTo b (page_at (install c i p) j)
  unfolding install
  still_mapped b j e (inl t) = record {
    block = ground (arith, page_at-install j);
    proper = ground (arith, proper);
  }
  still_mapped b j e (inr t) =
      let m = v.mapped b j (ground arith) in
      record {
        block = ground (arith, page_at-install j, m.block, m.proper, idle);
        proper = m.proper;
      }

  installed-IsValid : IsValid (install c i p)
  unfolding install
  installed-IsValid = record {
    coherent = record {
      healthy = v.healthy;
      fits = v.fits;
      page = installed-page;
      mapped = λ b j e. still_mapped b j e (Bool-cases (b == p.block_no));
    };
    queued = λ j.
        ground
          (arith, queued j, occurrences-append j i c.fifo_queue, page_at-install j, proper, idle);
    some_page = rw (length-set c.pages i p) (omega arith);
  }

  view-installed : (b : ℕ) → view (install c i p) b ≡ write_at (view c) p.block_no p.contents b
  unfolding install
  view-installed b = elim (Bool-cases (b == p.block_no)) [
    | inl t ↦ view_mapped (install c i p) b i (rw t) ∙ ground (arith, page_at-install i)
    | inr t ↦ elim (Option-cases (c.block_to_page b)) [
      | inl e ↦ view_unmapped (install c i p) b (rw (t, e)) ∙ rw t (sym (view_unmapped c b e))
      | inr (j, e) ↦
          let m = v.mapped b j e in
          let after : view (install c i p) b ≡ (page_at (install c i p) j).contents =
            view_mapped (install c i p) b j (rw (t, e)) in
          ground (arith, after, view_mapped c b j e, page_at-install j, t, m.block, m.proper, idle)
    ]
  ]

module _ (c : CacheManager) (i : ℕ) (buffer : Block) (v : IsValid c)
    (used : IsUsed (page_at c i)) where
  abbrev written : CachePage
  written = record (page_at c i) { contents = buffer; dirty = true }

  page_at-store : (j : ℕ) → page_at (store c i buffer) j ≡ (if j == i then written else page_at c j)
  unfolding store
  page_at-store j = page_at-set c _ i j written refl (used_in_range c i used)

  block_of-store : (j : ℕ) → (page_at (store c i buffer) j).block_no ≡ (page_at c j).block_no
  block_of-store j = ground (arith, page_at-store j)

  stored-page : (j : ℕ) → PageIsValid (store c i buffer) j (page_at (store c i buffer) j)
  unfolding store
  stored-page j = elim (Bool-cases (j == i)) [
    | inl e ↦
        let same : j ≡ i = ground arith in
        rw (page_at-store j, e)
          (record {
            indexed = λ u. (v.coherent.page i).indexed u ∙ ap some (sym same);
            in_disk = (v.coherent.page i).in_disk;
            coherent = λ u d. absurd (ground arith);
            idle_clean = λ u. absurd (ground (arith, used));
          })
    | inr e ↦
        rw (page_at-store j, e)
          (record {
            indexed = (v.coherent.page j).indexed;
            in_disk = (v.coherent.page j).in_disk;
            coherent = (v.coherent.page j).coherent;
            idle_clean = (v.coherent.page j).idle_clean;
          })
  ]

  pub stored-IsValid : IsValid (store c i buffer)
  unfolding store
  stored-IsValid = record {
    coherent = record {
      healthy = v.coherent.healthy;
      fits = v.coherent.fits;
      page = stored-page;
      mapped = λ b j e.
          let m = v.coherent.mapped b j e in
          record { block = block_of-store j ∙ m.block; proper = m.proper };
    };
    queued = λ j. ground (arith, v.queued j, block_of-store j);
    some_page = rw (length-set c.pages i written) (v.some_page);
  }

  pub view-stored :
      (b : ℕ) → view (store c i buffer) b ≡ write_at (view c) (page_at c i).block_no buffer b
  unfolding store
  view-stored b = elim (Option-cases (c.block_to_page b)) [
    | inl e ↦
        view_unmapped (store c i buffer) b e
        ∙ rw (unmapped_ne c i b v.coherent used e) (sym (view_unmapped c b e))
    | inr (j, e) ↦
        let m = v.coherent.mapped b j e in
        ground (
          arith,
          view_mapped (store c i buffer) b j e,
          view_mapped c b j e,
          page_at-store j,
          m.block,
          m.proper,
          used_distinct c i j v.coherent used,
        )
  ]

-- Installing what the disk holds of a block, on a page that was freed.
module _ (c c' : CacheManager) (p : CachePage) (i : ℕ) (f : FreesPage c c' i)
    (fresh : c.block_to_page p.block_no ≡ none) (h : p.block_no < c.disk.total_blocks)
    (from_disk : p.contents ≡ c'.disk.content p.block_no) where
  on_disk' : p.block_no < c'.disk.total_blocks
  on_disk' = rw f.total h

  pub contents-view : p.contents ≡ view c p.block_no
  contents-view =
      from_disk
      ∙ sym (view_unmapped c' p.block_no (f.unmapped p.block_no fresh))
      ∙ f.same_view p.block_no

  pub install-Stands : Stands c (view c) (install c' i p)
  unfolding install
  install-Stands = record {
    valid =
        installed-IsValid c' i p f.coherent f.queued f.in_range f.idle (f.unmapped _ fresh) on_disk'
          (λ d. from_disk);
    total = f.total;
    memory_is = λ b. ground (
      arith,
      view-installed c' i p f.coherent f.queued f.in_range f.idle (f.unmapped _ fresh) on_disk'
          (λ d. from_disk) b,
      f.same_view b,
      contents-view,
      (λ (e : b ≡ p.block_no). ap (view c) e),
    );
  }

-- A buffer stored on a page that holds block `b`.
pub store-Stands :
    (c c' : CacheManager) (memory : ℕ → Block) (b i : ℕ) (buffer : Block)
    → Stands c memory c'
    → MapsTo b (page_at c' i)
    → Stands c (write_at memory b buffer) (store c' i buffer)
unfolding store
store-Stands c c' memory b i buffer s m = record {
  valid = stored-IsValid c' i buffer s.valid used;
  total = s.total;
  memory_is = λ j. ground (arith, view-stored c' i buffer s.valid used j, s.memory_is j, m.block);
}
  where
    used : IsUsed (page_at c' i)
    used = ground (arith, m.block, m.proper)
