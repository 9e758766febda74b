-- ===== src/Cache/Victim.antt =====
-- The page that FIFO replacement takes, written back if it is dirty.
use os_course_design.Prelude.{
  ℕ, ◌≡◌, refl, ◌∙◌, inl, inr, false, List, if◌then◌else◌, Bool-cases, arith, length,
}
use os_course_design.Cache.{CacheManager, page_at, write_back_page}
use os_course_design.Cache.Pages.{
  IsUsed, IsCoherent, view, write_back_page-Cleans, Cleans-IsCoherent, view-Cleans,
}

-- The victim is off the queue and agrees with the disk.
pub record IsCleanFor (c : CacheManager) (rest : List ℕ) (victim : ℕ) (c' : CacheManager)
    : Type 0 where
  pub coherent : IsCoherent c'
  pub queue : c'.fifo_queue ≡ rest
  pub map : c'.block_to_page ≡ c.block_to_page
  pub count : length c'.pages ≡ length c.pages
  pub total : c'.disk.total_blocks ≡ c.disk.total_blocks
  pub block : (j : ℕ) → (page_at c' j).block_no ≡ (page_at c j).block_no
  pub clean : (page_at c' victim).dirty ≡ false
  pub same_view : (b : ℕ) → view c' b ≡ view c b

abbrev pub popped : CacheManager → List ℕ → CacheManager
popped c rest = record c { fifo_queue = rest }

pub popped-IsCoherent :
    (c : CacheManager) (rest : List ℕ) → IsCoherent c → IsCoherent (popped c rest)
unfolding page_at
popped-IsCoherent c rest v = record {
  healthy = v.healthy;
  fits = v.fits;
  page = λ i. record {
    indexed = (v.page i).indexed;
    in_disk = (v.page i).in_disk;
    coherent = (v.page i).coherent;
    idle_clean = (v.page i).idle_clean;
  };
  mapped = v.mapped;
}

pub page_at-popped :
    (c : CacheManager) (rest : List ℕ) (j : ℕ) → page_at (popped c rest) j ≡ page_at c j
unfolding page_at
page_at-popped c rest j = refl

pub view-popped : (c : CacheManager) (rest : List ℕ) (b : ℕ) → view (popped c rest) b ≡ view c b
unfolding view page_at
view-popped c rest b = refl

abbrev pub clean_victim : CacheManager → ℕ → CacheManager
clean_victim c victim = if (page_at c victim).dirty then write_back_page c victim else c

pub clean_victim-IsCleanFor :
    (c : CacheManager) (rest : List ℕ) (victim : ℕ)
    → IsCoherent c
    → IsUsed (page_at c victim)
    → IsCleanFor c rest victim (clean_victim (popped c rest) victim)
unfolding page_at
clean_victim-IsCleanFor c rest victim v used =
    elim (Bool-cases (page_at (popped c rest) victim).dirty) [
      | inr e ↦ rw e (record {
        coherent = pv;
        queue = refl;
        map = refl;
        count = refl;
        total = refl;
        block = λ j. rw page_at-popped refl;
        clean = e;
        same_view = view-popped c rest;
      })
      | inl e ↦
          let w = write_back_page-Cleans (popped c rest) victim pv e in
          rw e (record {
            coherent = Cleans-IsCoherent (popped c rest) _ victim pv used w;
            queue = w.queue;
            map = w.map;
            count = w.count;
            total = w.disk.total;
            block = λ j.
                ground (arith, w.page j, page_at-popped c rest j, page_at-popped c rest victim);
            clean = ground (arith, w.page victim);
            same_view =
                λ b. view-Cleans (popped c rest) _ victim pv used w b ∙ view-popped c rest b;
          })
    ]
  where
    pv : IsCoherent (popped c rest)
    pv = popped-IsCoherent c rest v
