-- ===== src/Contents/Loops.antt =====
-- The loops over the blocks of an inode, as changes of one memory.
use os_course_design.Prelude.{
  ℕ, zero, suc, ◌+◌, ◌-◌, ◌≤◌, ◌<◌, ◌≡◌, refl, ap, ◌∙◌, inl, inr, ◌&&◌, List, arith, ltb, leb, ◌==◌,
  if◌then◌else◌, Bool-cases, length, take, replicate, overwrite, segment, length-overwrite,
  length-replicate, fun_ext, add32, u32_mod,
}
use os_course_design.Disk.{Block, write_at}
use os_course_design.Cache.Pages.{view}
use os_course_design.INode.{INode, INodeManager, Env}
use os_course_design.INode.Table.{
  IsSound, Gives, with_cache, read_cache_lem, write_cache_lem, Holds-trans, Holds-ext,
}
use os_course_design.Contents.{block_of, block_offset, copy_size, write_blocks, read_blocks}

pub length-block_of : (content : List ℕ) (i : ℕ) → length (block_of content i) ≡ 4096
unfolding block_of
length-block_of content i =
    length-overwrite (replicate 4096 0) 0
      (segment (block_offset i) (copy_size (length content) (block_offset i)) content)
    ∙ length-replicate {A = ℕ} 4096 0

sum_fits : (m n : ℕ) → m + n < u32_mod → add32 m n ≡ m + n
sum_fits m n h = omega arith

-- The memory with `rounds` blocks of the contents written behind `start`, from block `i` on.
abbrev pub written : (ℕ → Block) → ℕ → List ℕ → ℕ → ℕ → ℕ → Block
written m start content i rounds b =
    if leb (start + i) b && ltb b (start + i + rounds) then block_of content (b - start) else m b

written-step :
    (m : ℕ → Block) (start : ℕ) (content : List ℕ) (i rounds b : ℕ)
    → written (write_at m (start + i) (block_of content i)) start content (i + 1) rounds b
      ≡ written m start content i (suc rounds) b
written-step m start content i rounds b = elim (Bool-cases (b == start + i)) [
  | inl same ↦ ground (arith, ap (block_of content) (here b))
  | inr other ↦ ground arith
]
  where
    here : (k : ℕ) → start + i - start ≡ i
    here k = omega arith

pub write_blocks_lem :
    (e : Env) (node : INode) (content : List ℕ) (i rounds : ℕ) (s : INodeManager)
    → IsSound s.cache
    → node.start_block + i + rounds ≤ s.cache.disk.total_blocks
    → Gives s
        (written (view s.cache) node.start_block content i rounds)
        (write_blocks e node content i rounds s)
        tt
unfolding write_blocks
write_blocks_lem e node content i zero s v fits =
    (s.cache, refl, record { sound = v; total = refl; memory_is = λ b. ground arith })
write_blocks_lem e node content i (suc rounds) s v fits =
    let (c, wrote, holds) =
      write_cache_lem e (node.start_block + i) (block_of content i) s v (omega arith)
        (length-block_of content i) in
    let (c', rest, holds') =
      write_blocks_lem e node content (i + 1) rounds (with_cache c s) holds.sound
        (omega (arith, holds.total)) in
    (
      c',
      rw (sum_fits node.start_block i (omega (arith, v.cached.coherent.fits)), wrote, rest) refl,
      Holds-ext s.cache c' _ _ (Holds-trans s.cache c c' _ _ holds holds') (λ b.
          ap (λ (f : ℕ → Block). written f node.start_block content (i + 1) rounds b)
            (fun_ext holds.memory_is)
          ∙ written-step (view s.cache) node.start_block content i rounds b),
    )

-- The buffer that `read_inode_data` fills from a memory.
unfoldable pub gathered : (ℕ → Block) → ℕ → ℕ → List ℕ → ℕ → ℕ → List ℕ
gathered m start size buffer i zero = buffer
gathered m start size buffer i (suc rounds) =
    gathered m start size
      (overwrite buffer (block_offset i) (take (copy_size size (block_offset i)) (m (start + i))))
      (i + 1) rounds

pub read_blocks_lem :
    (e : Env) (node : INode) (buffer : List ℕ) (i rounds : ℕ) (s : INodeManager) (m : ℕ → Block)
    → IsSound s.cache
    → ((b : ℕ) → view s.cache b ≡ m b)
    → node.start_block + i + rounds ≤ s.cache.disk.total_blocks
    → Gives s m
        (read_blocks e node buffer i rounds s)
        (gathered m node.start_block node.size buffer i rounds)
unfolding read_blocks gathered
read_blocks_lem e node buffer i zero s m v is fits =
    (s.cache, refl, record { sound = v; total = refl; memory_is = is })
read_blocks_lem e node buffer i (suc rounds) s m v is fits =
    let (c, got, holds) = read_cache_lem e (node.start_block + i) s v (omega arith) in
    let (c', rest, holds') =
      read_blocks_lem e node
        (overwrite buffer (block_offset i)
          (take (copy_size node.size (block_offset i)) (m (node.start_block + i))))
        (i + 1) rounds (with_cache c s) m holds.sound (λ b. holds.memory_is b ∙ is b)
        (omega (arith, holds.total)) in
    (
      c',
      rw
          (
            sum_fits node.start_block i (omega (arith, v.cached.coherent.fits)),
            got,
            is (node.start_block + i),
            rest,
          )
          refl,
      Holds-trans s.cache c c' _ _ holds holds',
    )
