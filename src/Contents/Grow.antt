-- ===== src/Contents/Grow.antt =====
-- The three ways in which `resize_inode` finds room, and what it comes to.
use os_course_design.Prelude.{
  ℕ, ◌+◌, ◌*◌, ◌-◌, ◌^◌, ◌≤◌, ◌<◌, ◌≡◌, refl, ap, sym, ◌∙◌, inl, inr, true, false, ◌&&◌, some,
  arith, ltb, leb, ltb→lt, ltb→le, if◌then◌else◌, Bool-cases, add32,
}
use os_course_design.Cache.{CacheManager}
use os_course_design.Cache.Pages.{view}
use os_course_design.Bitmap.{FreeBitmap, is_block_free, free_consecutive_blocks}
use os_course_design.Bitmap.Search.{RunFree}
use os_course_design.Bitmap.Allocate.{AllocatesRun, MarksRun}
use os_course_design.Bitmap.Release.{Frees, free_consecutive_blocks-Frees}
use os_course_design.INode.{INode, INodeManager, Env}
use os_course_design.INode.Table.{Holds, with_cache}
use os_course_design.Contents.Runs.{
  is_contiguous-inside, mark_blocks-IsValid, mark_blocks-taken, mark_blocks-marked, copied,
}
use os_course_design.Contents.Resize.{IsReady, Prepared, resized, resized-IsInode}
use os_course_design.Contents.{is_contiguous, mark_blocks}

module _ (e : Env) (s : INodeManager) (id size blocks : ℕ) (n : INode) (r : IsReady s id n)
    (clock : e.now < 2 ^ 64) (size_fits : size < 2 ^ 32) (covered : size ≤ blocks * 4096)
    (tight : blocks * 4096 < size + 4096) (c : CacheManager)
    (holds : Holds s.cache (view s.cache) c) where
  -- The number of blocks stays.
  pub Prepared-same :
      n.block_count ≡ blocks
      → Prepared s id n (with_cache c s) (resized e n n.start_block n.block_count size)
  Prepared-same same = record {
    sound = holds.sound;
    total = holds.total;
    fits =
        resized-IsInode e n n.start_block n.block_count size r.fits r.fits.start_fits
          r.fits.count_fits size_fits clock;
    placed = record {
      covered = omega arith;
      tight = omega arith;
      on_disk = r.placed.on_disk;
      behind = r.placed.behind;
    };
    bitmap_valid = r.bitmap_valid;
    bitmap_total = refl;
    owned = r.owned;
    same_kind = refl;
    kept = λ j l. holds.memory_is (n.start_block + j);
    others = λ b taken. holds.memory_is b;
    same_used = refl;
    same_directories = refl;
  }

  -- The blocks behind the old ones are marked.
  abbrev pub extended : INodeManager
  extended = record (with_cache c s) {
    bitmap = mark_blocks s.bitmap (add32 n.start_block n.block_count) 0 (blocks - n.block_count);
  }

  pub Prepared-extended :
      n.block_count < blocks
      → is_contiguous s.bitmap (add32 n.start_block n.block_count) 0 (blocks - n.block_count) ≡ true
      → Prepared s id n extended (resized e n n.start_block blocks size)
  Prepared-extended more free =
      let (valid, total) =
        mark_blocks-IsValid s.bitmap (add32 n.start_block n.block_count) 0 (blocks - n.block_count)
          r.bitmap_valid in
      record {
        sound = holds.sound;
        total = holds.total;
        fits =
            resized-IsInode e n n.start_block blocks size r.fits r.fits.start_fits (omega arith)
              size_fits clock;
        placed = record {
          covered = covered;
          tight = tight;
          on_disk = omega (arith, inside, r.same_size);
          behind = r.placed.behind;
        };
        bitmap_valid = valid;
        bitmap_total = total;
        owned = λ j l. elim (Bool-cases (ltb j n.block_count)) [
          | inl old ↦
              mark_blocks-taken s.bitmap _ 0 (blocks - n.block_count) (n.start_block + j)
                r.bitmap_valid (r.owned j (ltb→lt j n.block_count old))
          | inr new ↦
              mark_blocks-marked s.bitmap _ 0 (blocks - n.block_count) (n.start_block + j)
                r.bitmap_valid (omega (arith, inside, behind))
                (omega (arith, behind, ltb→le j n.block_count new)) (omega (arith, behind))
        ];
        same_kind = refl;
        kept = λ j l. holds.memory_is (n.start_block + j);
        others = λ b taken. holds.memory_is b;
        same_used = refl;
        same_directories = refl;
      }
    where
      behind : add32 n.start_block n.block_count ≡ n.start_block + n.block_count
      behind = omega (arith, r.placed.on_disk, r.sound.cached.coherent.fits)

      inside : n.start_block + blocks ≤ s.bitmap.total_blocks
      inside = omega (
        arith,
        is_contiguous-inside s.bitmap (add32 n.start_block n.block_count) 0 (blocks - n.block_count)
            r.bitmap_valid.fits (omega (arith, behind, r.placed.on_disk, r.same_size)) free,
        behind,
      )

-- The blocks are copied to a new run, and the old one is freed.
module _ (e : Env) (s : INodeManager) (id size blocks : ℕ) (n : INode) (r : IsReady s id n)
    (clock : e.now < 2 ^ 64) (size_fits : size < 2 ^ 32) (covered : size ≤ blocks * 4096)
    (tight : blocks * 4096 < size + 4096) (grows : n.block_count ≤ blocks) (start : ℕ)
    (fb : FreeBitmap) (taken : AllocatesRun s.bitmap blocks fb (some start)) where
  -- The new run is free and the old one is not.
  run_free : RunFree s.bitmap start blocks
  run_free = taken.2.1

  marks : MarksRun s.bitmap start blocks fb
  marks = taken.3

  no_clash : (i j : ℕ) → i < n.block_count → j < blocks → n.start_block + i ≡ start + j → ⊥
  no_clash i j a b same =
      let clash : true ≡ false =
        sym (run_free j b) ∙ ap (is_block_free s.bitmap) (sym same) ∙ r.owned i a in
      absurd (ground (arith, clash))

  pub runs_apart :
      (if leb (start + 0 + n.block_count) (n.start_block + 0)
        then true
        else leb (n.start_block + 0 + n.block_count) (start + 0))
      ≡ true
  runs_apart = elim (Bool-cases (leb (start + n.block_count) n.start_block)) [
    | inl t ↦ ground arith
    | inr t ↦ elim (Bool-cases (leb (n.start_block + n.block_count) start)) [
      | inl t' ↦ ground arith
      | inr t' ↦ elim (Bool-cases (leb n.start_block start)) [
        | inl early ↦
            absurd (no_clash (start - n.start_block) 0 (ground arith) (ground arith) (ground arith))
        | inr late ↦
            absurd (no_clash 0 (n.start_block - start) (ground arith) (ground arith) (ground arith))
      ]
    ]
  ]

  abbrev pub freed : FreeBitmap
  freed = free_consecutive_blocks fb n.start_block n.block_count

  frees : Frees fb n.start_block (n.start_block + n.block_count) freed
  frees =
      free_consecutive_blocks-Frees fb n.start_block n.block_count marks.valid
        (omega (arith, r.placed.on_disk, r.sound.cached.coherent.fits))

  module _ (c : CacheManager)
      (holds : Holds s.cache (copied (view s.cache) n.start_block start 0 n.block_count) c) where
    abbrev pub moved : INodeManager
    moved = record s { cache = c; bitmap = freed }

    pub Prepared-moved : Prepared s id n moved (resized e n start blocks size)
    Prepared-moved = record {
      sound = holds.sound;
      total = holds.total;
      fits =
          resized-IsInode e n start blocks size r.fits (omega (arith, taken.1, r.bitmap_valid.fits))
            (omega arith) size_fits clock;
      placed = record {
        covered = covered;
        tight = tight;
        on_disk = omega (arith, taken.1, r.same_size);
        behind = omega (arith, taken.2.0, r.low);
      };
      bitmap_valid = frees.valid;
      bitmap_total = frees.total ∙ marks.total;
      owned = λ j l.
          frees.freed (start + j) ∙ rw (not_old j l, marks.marked (start + j)) (ground (arith, l));
      same_kind = refl;
      kept = λ j l.
          holds.memory_is (start + j)
          ∙ rw (in_run j l) (ap (λ k. view s.cache (n.start_block + k)) (back j));
      others = λ b t. holds.memory_is b ∙ rw (not_new b t) refl;
      same_used = refl;
      same_directories = refl;
    }
      where
        not_old :
            (j : ℕ)
            → j < blocks
            → ((leb n.start_block (start + j) && ltb (start + j) (n.start_block + n.block_count))
                && (leb 2 (start + j) && ltb (start + j) fb.total_blocks))
              ≡ false
        not_old j l =
            elim (Bool-cases
              (leb n.start_block (start + j) && ltb (start + j) (n.start_block + n.block_count))) [
                | inr t ↦ rw t refl
                | inl t ↦ absurd (
                    no_clash (start + j - n.start_block) j (ground (arith, t)) l
                      (ground (arith, t)))
              ]

        in_run :
            (j : ℕ)
            → j < n.block_count
            → (leb (start + 0) (start + j) && ltb (start + j) (start + 0 + n.block_count)) ≡ true
        in_run j l = ground (arith, l)

        back : (j : ℕ) → start + j - start ≡ j
        back j = omega arith

        not_new :
            (b : ℕ)
            → is_block_free s.bitmap b ≡ false
            → (leb (start + 0) b && ltb b (start + 0 + n.block_count)) ≡ false
        not_new b t = elim (Bool-cases (leb (start + 0) b && ltb b (start + 0 + n.block_count))) [
          | inr k ↦ k
          | inl k ↦
              let at : start + (b - start) ≡ b = ground (arith, k) in
              let clash : true ≡ false =
                sym (run_free (b - start) (ground (arith, k, grows)))
                ∙ ap (is_block_free s.bitmap) at
                ∙ t in
              absurd (ground (arith, clash))
        ]
