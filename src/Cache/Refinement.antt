-- ===== src/Cache/Refinement.antt =====
-- A cache against the memory that it promises to be: any sequence of calls in range gets the answers
-- of a plain array of blocks.
use mathlib.Core.Path.{ap₂}
use os_course_design.Prelude.{
  ℕ, ◌<◌, ◌≡◌, refl, ap, ◌∙◌, Bool, true, List, [], ◌∷◌, Option, some, arith, All,
}
use os_course_design.Disk.{Block, write_at}
use os_course_design.Cache.{CacheManager, read_block, write_block, flush_all}
use os_course_design.Cache.Pages.{IsValid, view}
use os_course_design.Cache.Access.{read_block-Stands, write_block-Stands}
use os_course_design.Cache.Flush.{flush_all-Stands}

pub data Call : Type 0 where
  reads : ℕ → Call
  writes : ℕ → Block → Call
  flushes : Call

pub data Answer : Type 0 where
  contents_are : Option Block → Answer
  returned : Bool → Answer
  flushed : Answer

step : CacheManager → ℕ × Call → CacheManager × Answer
step c (now, reads b) = let (c', got) = read_block c now b in (c', contents_are got)
step c (now, writes b buffer) = let (c', ok) = write_block c now b buffer in (c', returned ok)
step c (now, flushes) = (flush_all c, flushed)

pub run : CacheManager → List (ℕ × Call) → List Answer
unfolding step
run c [] = []
run c (call ∷ calls) = (step c call).1 ∷ run (step c call).0 calls

-- The plain array.
array_step : (ℕ → Block) → Call → (ℕ → Block) × Answer
array_step m (reads b) = (m, contents_are (some (m b)))
array_step m (writes b buffer) = (write_at m b buffer, returned true)
array_step m flushes = (m, flushed)

pub run_array : (ℕ → Block) → List (ℕ × Call) → List Answer
unfolding array_step
run_array m [] = []
run_array m (call ∷ calls) = (array_step m call.1).1 ∷ run_array (array_step m call.1).0 calls

abbrev pub InRange : ℕ → ℕ × Call → Type 0
InRange total (now, reads b) = b < total
InRange total (now, writes b buffer) = b < total
InRange total (now, flushes) = Unit

-- One call keeps the agreement.
record Agrees (total : ℕ) (r : CacheManager × Answer) (a : (ℕ → Block) × Answer) : Type 0 where
  valid : IsValid r.0
  total_is : r.0.disk.total_blocks ≡ total
  memory_is : (b : ℕ) → view r.0 b ≡ a.0 b
  answer : r.1 ≡ a.1

step-Agrees :
    (c : CacheManager) (m : ℕ → Block) (call : ℕ × Call)
    → IsValid c
    → ((b : ℕ) → view c b ≡ m b)
    → InRange c.disk.total_blocks call
    → Agrees c.disk.total_blocks (step c call) (array_step m call.1)
unfolding step array_step
step-Agrees c m (now, reads b) v e h =
    let (answer, s) = read_block-Stands c now b v h in
    record {
      valid = s.valid;
      total_is = s.total;
      memory_is = λ j. s.memory_is j ∙ e j;
      answer = ap contents_are (answer ∙ ap some (e b));
    }
step-Agrees c m (now, writes b buffer) v e h =
    let (answer, s) = write_block-Stands c now b buffer v h in
    record {
      valid = s.valid;
      total_is = s.total;
      memory_is = λ j. ground (arith, s.memory_is j, e j);
      answer = ap returned answer;
    }
step-Agrees c m (now, flushes) v e h =
    let s = (flush_all-Stands c v).0 in
    record {
      valid = s.valid;
      total_is = s.total;
      memory_is = λ j. s.memory_is j ∙ e j;
      answer = refl;
    }

-- From a valid cache, every sequence of reads, writes and flushes of blocks of the disk gets the
-- answers that a plain array of blocks gives, whatever is evicted meanwhile.
pub run-run_array :
    (c : CacheManager) (m : ℕ → Block) (calls : List (ℕ × Call)) (total : ℕ)
    → IsValid c
    → ((b : ℕ) → view c b ≡ m b)
    → c.disk.total_blocks ≡ total
    → All (InRange total) calls
    → run c calls ≡ run_array m calls
unfolding run run_array
run-run_array c m [] total v e t h = refl
run-run_array c m (call ∷ calls) total v e t h =
    let a = step-Agrees c m call v e (rw t h.0) in
    ap₂ (◌∷◌) a.answer (
      run-run_array (step c call).0 (array_step m call.1).0 calls total a.valid a.memory_is
        (a.total_is ∙ t) h.1)
