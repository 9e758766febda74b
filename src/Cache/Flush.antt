-- ===== src/Cache/Flush.antt =====
-- The constructor, and `flush_all`.
use os_course_design.Prelude.{
  ℕ, zero, suc, ◌+◌, ◌<◌, ◌≡◌, refl, ap, sym, ◌∙◌, inl, inr, false, ◌&&◌, ◌==◌, if◌then◌else◌, ltb,
  leb, Bool-cases, Option-cases, arith, length, get_or, All-get_or, All-replicate, replicate,
  length-replicate, uint32_max, u32_mod,
}
use os_course_design.Disk.{VirtualDisk}
use os_course_design.Disk.Access.{IsHealthy}
use os_course_design.Cache.{
  CachePage, CacheManager, cache_manager, page_at, write_back_page, flush_from, flush_all,
  unused_page,
}
use os_course_design.Cache.Pages.{
  IsUsed, occurrences, IsCoherent, IsValid, view, view_mapped, view_unmapped, used_in_range,
  write_back_page-Cleans, Cleans-IsCoherent, view-Cleans,
}
use os_course_design.Cache.Install.{Stands}

abbrev IsBlank : CachePage → Type 0
IsBlank p = (p.block_no ≡ uint32_max) × (p.dirty ≡ false)

fresh_page : (n bytes i : ℕ) → IsBlank (get_or (replicate n (unused_page bytes)) i (unused_page 0))
fresh_page n bytes i =
    All-get_or IsBlank (replicate n (unused_page bytes)) i (unused_page 0)
      (All-replicate IsBlank n (unused_page bytes) (refl, refl)) (refl, refl)

-- A new cache with at least one page over a healthy disk is valid and stands for the disk's contents.
pub cache_manager-IsValid :
    (disk : VirtualDisk) (page_count block_size : ℕ)
    → IsHealthy disk
    → disk.total_blocks < u32_mod
    → 0 < page_count
    → IsValid (cache_manager disk page_count block_size)
      × ((b : ℕ) → view (cache_manager disk page_count block_size) b ≡ disk.content b)
unfolding cache_manager occurrences view page_at
cache_manager-IsValid disk page_count block_size h fits pos = (
  record {
    coherent = record {
      healthy = h;
      fits = fits;
      page = λ i. record {
        indexed = λ u. absurd (ground (arith, (blank i).0));
        in_disk = λ u. absurd (ground (arith, (blank i).0));
        coherent = λ u. absurd (ground (arith, (blank i).0));
        idle_clean = λ e. (blank i).1;
      };
      mapped = λ b i e. absurd (ground arith);
    };
    queued = λ i. ground (arith, (blank i).0);
    some_page = rw length-replicate pos;
  },
  λ b. refl,
)
  where
    new : CacheManager
    new = cache_manager disk page_count block_size

    blank : (i : ℕ) → IsBlank (page_at new i)
    blank i = fresh_page page_count block_size i

-- After page `i` was written back if it was dirty.
record FlushesOne (c : CacheManager) (i : ℕ) (c' : CacheManager) : Type 0 where
  stands : Stands c (view c) c'
  count : length c'.pages ≡ length c.pages
  clean : (j : ℕ) → (page_at c' j).dirty ≡ (if j == i then false else (page_at c j).dirty)

abbrev flush_one : CacheManager → ℕ → CacheManager
flush_one c i = if (page_at c i).dirty then write_back_page c i else c

flush_one-FlushesOne : (c : CacheManager) (i : ℕ) → IsValid c → FlushesOne c i (flush_one c i)
flush_one-FlushesOne c i v = elim (Bool-cases (page_at c i).dirty) [
  | inr e ↦ rw e (record {
    stands = record { valid = v; total = refl; memory_is = λ b. refl };
    count = refl;
    clean = λ j. elim (Bool-cases (j == i)) [
      | inl t ↦ let same : j ≡ i = ground arith in rw (t, same) e
      | inr t ↦ rw t refl
    ];
  })
  | inl e ↦
      let w = write_back_page-Cleans c i v.coherent e in
      let used : IsUsed (page_at c i) = ground (arith, (v.coherent.page i).idle_clean, e) in
      rw e (record {
        stands = record {
          valid = record {
            coherent = Cleans-IsCoherent c _ i v.coherent used w;
            queued = λ j. ground (arith, v.queued j, w.page j, ap (occurrences j) w.queue);
            some_page = rw w.count v.some_page;
          };
          total = w.disk.total;
          memory_is = view-Cleans c _ i v.coherent used w;
        };
        count = w.count;
        clean = λ j. ground (arith, w.page j);
      })
]

-- After the pages from `i` up to `i + rounds` were visited.
record FlushesRange (c : CacheManager) (i rounds : ℕ) (c' : CacheManager) : Type 0 where
  stands : Stands c (view c) c'
  count : length c'.pages ≡ length c.pages
  clean :
      (j : ℕ)
      → (page_at c' j).dirty
        ≡ (if leb i j && ltb j (i + rounds) then false else (page_at c j).dirty)

FlushesRange-step :
    (c c' c'' : CacheManager) (i rounds : ℕ)
    → FlushesOne c i c'
    → FlushesRange c' (i + 1) rounds c''
    → FlushesRange c i (suc rounds) c''
FlushesRange-step c c' c'' i rounds one rest = record {
  stands = record {
    valid = rest.stands.valid;
    total = rest.stands.total ∙ one.stands.total;
    memory_is = λ b. rest.stands.memory_is b ∙ one.stands.memory_is b;
  };
  count = rest.count ∙ one.count;
  clean = λ j. ground (arith, rest.clean j, one.clean j);
}

-- With every page clean, the disk holds the memory.
content-view :
    (c : CacheManager)
    → IsCoherent c
    → ((i : ℕ) → (page_at c i).dirty ≡ false)
    → (b : ℕ) → c.disk.content b ≡ view c b
content-view c v clean b = elim (Option-cases (c.block_to_page b)) [
  | inl e ↦ sym (view_unmapped c b e)
  | inr (i, e) ↦
      let m = v.mapped b i e in
      let used : IsUsed (page_at c i) = ground (arith, m.block, m.proper) in
      ap c.disk.content (sym m.block)
      ∙ sym ((v.page i).coherent used (clean i))
      ∙ sym (view_mapped c b i e)
]

flush_from-FlushesRange :
    (c : CacheManager) (i rounds : ℕ) → IsValid c → FlushesRange c i rounds (flush_from c i rounds)
unfolding flush_from
flush_from-FlushesRange c i zero v = record {
  stands = record { valid = v; total = refl; memory_is = λ b. refl };
  count = refl;
  clean = λ j. ground arith;
}
flush_from-FlushesRange c i (suc rounds) v =
    FlushesRange-step c (flush_one c i) _ i rounds (flush_one-FlushesOne c i v) (
      flush_from-FlushesRange (flush_one c i) (i + 1) rounds
        (flush_one-FlushesOne c i v).stands.valid)

-- On a valid cache, `flush_all` writes all of the memory to the disk: afterwards the disk holds at each
-- block what the memory held before, no page is dirty, and the memory is the same.
pub flush_all-Stands :
    (c : CacheManager)
    → IsValid c
    → Stands c (view c) (flush_all c)
      × ((b : ℕ) → (flush_all c).disk.content b ≡ view c b)
      × ((i : ℕ) → (page_at (flush_all c) i).dirty ≡ false)
unfolding flush_all
flush_all-Stands c v = (
  w.stands,
  (λ b. content-view _ w.stands.valid.coherent all_clean b ∙ w.stands.memory_is b),
  all_clean,
)
  where
    w : FlushesRange c 0 (length c.pages) (flush_from c 0 (length c.pages))
    w = flush_from-FlushesRange c 0 (length c.pages) v

    all_clean : (i : ℕ) → (page_at (flush_from c 0 (length c.pages)) i).dirty ≡ false
    all_clean i =
        let idle = (v.coherent.page i).idle_clean in
        elim (Bool-cases (ltb i (length c.pages))) [
          | inl t ↦ ground (arith, w.clean i)
          | inr t ↦ elim (Bool-cases ((page_at c i).block_no == uint32_max)) [
            | inl u ↦ ground (arith, w.clean i, idle)
            | inr u ↦ absurd (ground (arith, used_in_range c i u))
          ]
        ]
