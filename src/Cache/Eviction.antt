-- ===== src/Cache/Eviction.antt =====
-- Finding a page for a new block: `get_free_page`, and the FIFO replacement in it.
use os_course_design.Prelude.{
  ℕ, zero, suc, ◌+◌, ◌<◌, ◌≡◌, ◌⊎◌, refl, ap, sym, ◌∙◌, inl, inr, true, false, List, [], ◌∷◌,
  Option, none, some, ◌==◌, if◌then◌else◌, Bool-cases, Option-cases, List-cases, arith, length,
  get_or, set, length-set, uint32_max,
}
use os_course_design.Cache.{
  CachePage, CacheManager, page_at, put_entry, unused_page, first_unused, evict, get_free_page,
}
use os_course_design.Cache.Pages.{
  IsUsed, is_used, occurrences, PageIsValid, MapsTo, IsCoherent, IsValid, view, view_mapped,
  view_unmapped, page_at-set, used_in_range, used_distinct,
}
use os_course_design.Cache.Victim.{IsCleanFor, popped, clean_victim, clean_victim-IsCleanFor}

-- A page that holds no block, at the same memory.
pub record FreesPage (c c' : CacheManager) (i : ℕ) : Type 0 where
  pub coherent : IsCoherent c'
  pub queued : (j : ℕ) → occurrences j c'.fifo_queue ≡ (if is_used (page_at c' j) then 1 else 0)
  pub in_range : i < length c'.pages
  pub idle : (page_at c' i).block_no ≡ uint32_max
  pub unmapped : (b : ℕ) → c.block_to_page b ≡ none → c'.block_to_page b ≡ none
  pub total : c'.disk.total_blocks ≡ c.disk.total_blocks
  pub same_view : (b : ℕ) → view c' b ≡ view c b

abbrev vacated : CacheManager → ℕ → CacheManager
vacated c victim = record c {
  block_to_page = put_entry c.block_to_page (page_at c victim).block_no none;
  pages = set c.pages victim (record (page_at c victim) { block_no = uint32_max });
}

module _ (c : CacheManager) (victim : ℕ) (v : IsCoherent c) (used : IsUsed (page_at c victim))
    (clean : (page_at c victim).dirty ≡ false) where
  page_at-vacated :
      (j : ℕ)
      → page_at (vacated c victim) j
        ≡ (if j == victim then record (page_at c victim) { block_no = uint32_max } else page_at c j)
  page_at-vacated j = page_at-set c _ victim j _ refl (used_in_range c victim used)

  vacated-page : (j : ℕ) → PageIsValid (vacated c victim) j (page_at (vacated c victim) j)
  vacated-page j = elim (Bool-cases (j == victim)) [
    | inl e ↦
        rw (page_at-vacated j, e)
          (record {
            indexed = λ u. absurd (ground arith);
            in_disk = λ u. absurd (ground arith);
            coherent = λ u d. absurd (ground arith);
            idle_clean = λ u. clean;
          })
    | inr e ↦
        rw (page_at-vacated j, e)
          (record {
            indexed = λ u. ground (arith, (v.page j).indexed u, used_distinct c victim j v used u);
            in_disk = (v.page j).in_disk;
            coherent = (v.page j).coherent;
            idle_clean = (v.page j).idle_clean;
          })
  ]

  still_mapped :
      (b j : ℕ)
      → (vacated c victim).block_to_page b ≡ some j
      → ((b == (page_at c victim).block_no) ≡ true) ⊎ ((b == (page_at c victim).block_no) ≡ false)
      → MapsTo b (page_at (vacated c victim) j)
  still_mapped b j e (inl t) = absurd (ground arith)
  still_mapped b j e (inr t) =
      let m = v.mapped b j (ground arith) in
      record { block = ground (arith, page_at-vacated j, m.block); proper = m.proper }

  vacated-IsCoherent : IsCoherent (vacated c victim)
  vacated-IsCoherent = record {
    healthy = v.healthy;
    fits = v.fits;
    page = vacated-page;
    mapped = λ b j e. still_mapped b j e (Bool-cases (b == (page_at c victim).block_no));
  }

  view-vacated : (b : ℕ) → view (vacated c victim) b ≡ view c b
  view-vacated b = elim (Bool-cases (b == (page_at c victim).block_no)) [
    | inl t ↦
        let same : b ≡ (page_at c victim).block_no = ground arith in
        view_unmapped (vacated c victim) b (rw t)
        ∙ ap c.disk.content same
        ∙ sym ((v.page victim).coherent used clean)
        ∙ sym (view_mapped c b victim (ap c.block_to_page same ∙ (v.page victim).indexed used))
    | inr t ↦ elim (Option-cases (c.block_to_page b)) [
      | inl e ↦ view_unmapped (vacated c victim) b (rw (t, e)) ∙ sym (view_unmapped c b e)
      | inr (j, e) ↦
          view_mapped (vacated c victim) b j (rw (t, e))
          ∙ ground (arith, page_at-vacated j)
          ∙ sym (view_mapped c b j e)
    ]
  ]

occurrences_cons :
    (i j : ℕ) (rest : List ℕ)
    → occurrences i (j ∷ rest) ≡ (if j == i then 1 else 0) + occurrences i rest
unfolding occurrences
occurrences_cons i j rest = refl

occurrences_nil : (i : ℕ) → occurrences i [] ≡ 0
unfolding occurrences
occurrences_nil i = refl

-- The oldest page in the queue is in use.
oldest-IsUsed :
    (c : CacheManager) (victim : ℕ) (rest : List ℕ)
    → IsValid c
    → c.fifo_queue ≡ victim ∷ rest
    → IsUsed (page_at c victim)
oldest-IsUsed c victim rest v e =
    ground (arith, v.queued victim, ap (occurrences victim) e, occurrences_cons victim victim rest)

evict-FreesPage :
    (c : CacheManager) (victim : ℕ) (rest : List ℕ)
    → IsValid c
    → c.fifo_queue ≡ victim ∷ rest
    → ((evict c (victim ∷ rest)).1 ≡ some victim) × FreesPage c (evict c (victim ∷ rest)).0 victim
unfolding evict
evict-FreesPage c victim rest v e = (
  refl,
  record {
    coherent = vacated-IsCoherent clean victim w.coherent used' w.clean;
    queued = λ j. queue_of j;
    in_range = rw (length-set clean.pages victim _) (used_in_range clean victim used');
    idle = ground (arith, page_at-vacated clean victim w.coherent used' w.clean victim);
    unmapped = λ b h. ground (arith, ap (λ (f : ℕ → Option ℕ). f b) w.map, h);
    total = w.total;
    same_view = λ b. view-vacated clean victim w.coherent used' w.clean b ∙ w.same_view b;
  },
)
  where
    used : IsUsed (page_at c victim)
    used = oldest-IsUsed c victim rest v e

    clean : CacheManager
    clean = clean_victim (popped c rest) victim

    w : IsCleanFor c rest victim clean
    w = clean_victim-IsCleanFor c rest victim v.coherent used

    used' : IsUsed (page_at clean victim)
    used' = ground (arith, w.block victim, used)

    queue_of :
        (j : ℕ)
        → occurrences j (vacated clean victim).fifo_queue
          ≡ (if is_used (page_at (vacated clean victim) j) then 1 else 0)
    queue_of j = ground (
      arith,
      v.queued j,
      ap (occurrences j) e,
      ap (occurrences j) w.queue,
      occurrences_cons j victim rest,
      page_at-vacated clean victim w.coherent used' w.clean j,
      w.block j,
      used,
    )

-- Either the first unused page is found, or all are in use.
first_unused_lem :
    (ps : List CachePage) (k : ℕ)
    → ((i : ℕ) × (first_unused ps k ≡ some (k + i))
        × (i < length ps)
        × ((get_or ps i (unused_page 0)).block_no ≡ uint32_max))
      ⊎ ((first_unused ps k ≡ none)
          × ((i : ℕ) → i < length ps → IsUsed (get_or ps i (unused_page 0))))
unfolding first_unused
first_unused_lem [] k = inr (refl, λ i h. absurd (omega arith))
first_unused_lem (p ∷ ps) k = elim (Bool-cases (p.block_no == uint32_max)) [
  | inl e ↦ rw e (inl (0, ground arith, omega arith, ground arith))
  | inr e ↦ rw e (elim (first_unused_lem ps (k + 1)) [
    | inl (i, f, l, u) ↦ inl (suc i, f ∙ ap some (omega arith), omega arith, u)
    | inr (f, all) ↦ inr (f, λ i h. all_used e all i h)
  ])
]
  where
    all_used :
        IsUsed p
        → ((i : ℕ) → i < length ps → IsUsed (get_or ps i (unused_page 0)))
        → (i : ℕ) → i < suc (length ps)
        → IsUsed (get_or (p ∷ ps) i (unused_page 0))
    all_used u all zero h = u
    all_used u all (suc i) h = all i (omega arith)

get_free_page_found :
    (c : CacheManager) (i : ℕ) → first_unused c.pages 0 ≡ some i → get_free_page c ≡ (c, some i)
unfolding get_free_page
get_free_page_found c i e = rw (e, get_free_page)

get_free_page_evicts :
    (c : CacheManager) → first_unused c.pages 0 ≡ none → get_free_page c ≡ evict c c.fifo_queue
unfolding get_free_page
get_free_page_evicts c e = rw (e, get_free_page)

found-FreesPage :
    (c : CacheManager) (i : ℕ)
    → IsValid c
    → i < length c.pages
    → (page_at c i).block_no ≡ uint32_max
    → FreesPage c c i
found-FreesPage c i v l u = record {
  coherent = v.coherent;
  queued = v.queued;
  in_range = l;
  idle = u;
  unmapped = λ b e. e;
  total = refl;
  same_view = λ b. refl;
}

-- On a valid cache, `get_free_page` finds a page: it holds no block afterwards, and the memory is the
-- same.
pub get_free_page-FreesPage :
    (c : CacheManager)
    → IsValid c
    → (i : ℕ) × ((get_free_page c).1 ≡ some i) × FreesPage c (get_free_page c).0 i
unfolding page_at
get_free_page-FreesPage c v = elim (first_unused_lem c.pages 0) [
  | inl (i, f, l, u) ↦
      rw (get_free_page_found c i (f ∙ ap some (omega arith))) (i, refl, found-FreesPage c i v l u)
  | inr (f, all) ↦ elim (List-cases c.fifo_queue) [
    | inl e ↦
        absurd
          (ground (arith, v.queued 0, all 0 v.some_page, ap (occurrences 0) e, occurrences_nil 0))
    | inr (victim, rest, e) ↦
        let (answer, freed) = evict-FreesPage c victim rest v e in
        rw (get_free_page_evicts c f ∙ ap (evict c) e) (victim, answer, freed)
  ]
]
