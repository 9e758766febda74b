-- ===== src/INode/Layout.antt =====
-- The bytes of an inode and its place in its block of the table.
use os_course_design.Prelude.{
  ℕ, zero, suc, ◌+◌, ◌*◌, ◌/◌, ◌%◌, ◌^◌, ◌<◌, ◌≤◌, ◌≡◌, ◌≢◌, refl, ap, sym, ◌∙◌, inl, inr, true,
  List, [], ◌∷◌, ◌++◌, arith, ltb, leb, ltb→le, ◌==◌, if◌then◌else◌, Bool-cases, ==_self, ==_iff,
  length, take, overwrite, segment, length-overwrite, segment-overwrite_self,
  segment-overwrite_apart, word_bytes, word_of, word_of-word_bytes,
}
use os_course_design.Disk.{Block, write_at}
use os_course_design.INode.{
  INode, Env, inode_bytes, inode_of, inode_size, inodes_per_block, table_block, table_offset,
  max_inodes,
}

-- The fields fit into their bytes.
pub record IsInode (n : INode) : Type 0 where
  pub id_fits : n.id < 2 ^ 32
  pub size_fits : n.size < 2 ^ 32
  pub start_fits : n.start_block < 2 ^ 32
  pub count_fits : n.block_count < 2 ^ 32
  pub parent_fits : n.parent_id < 2 ^ 32
  pub created_fits : n.create_time < 2 ^ 64
  pub modified_fits : n.modify_time < 2 ^ 64
  pub name_length : length n.name ≡ 64

-- The two words of a time.
time_halves :
    (t : ℕ) (rest : List ℕ)
    → t < 2 ^ 64
    → word_of (word_bytes t ++ rest) + word_of (word_bytes (t / 2 ^ 32) ++ rest) * 2 ^ 32 ≡ t
unfolding word_of
time_halves t rest h = omega arith

take_all : (n : ℕ) (xs : List ℕ) → length xs ≡ n → take n xs ≡ xs
take_all zero [] e = refl
take_all zero (x ∷ xs) e = absurd (omega arith)
take_all (suc n) [] e = refl
take_all (suc n) (x ∷ xs) e = ap (◌∷◌ x) (take_all n xs (omega arith))

pub inode_of-inode_bytes : (e : Env) (n : INode) → IsInode n → inode_of (inode_bytes e n) ≡ n
unfolding inode_of inode_bytes word_of
inode_of-inode_bytes e n v =
    rw
      (
        word_of-word_bytes n.id [] v.id_fits,
        word_of-word_bytes n.size [] v.size_fits,
        word_of-word_bytes n.start_block [] v.start_fits,
        word_of-word_bytes n.block_count [] v.count_fits,
        word_of-word_bytes n.parent_id [] v.parent_fits,
        time_halves n.create_time [] v.created_fits,
        time_halves n.modify_time [] v.modified_fits,
        take_all 64 n.name v.name_length,
      )
      refl

-- The inode that a memory of blocks holds.
unfoldable pub node_at : (ℕ → Block) → ℕ → INode
node_at m id = inode_of (segment (table_offset id) inode_size (m (table_block id)))

-- The memory with an inode written to it.
unfoldable pub put_node : Env → (ℕ → Block) → ℕ → INode → ℕ → Block
put_node e m id n =
    write_at m (table_block id) (overwrite (m (table_block id)) (table_offset id) (inode_bytes e n))

pub length-inode_bytes :
    (e : Env) (n : INode) → length n.name ≡ 64 → length (inode_bytes e n) ≡ inode_size
unfolding inode_bytes
length-inode_bytes e n h = omega (arith, h)

pub length-put_node :
    (e : Env) (m : ℕ → Block) (id : ℕ) (n : INode) (b : ℕ)
    → length (put_node e m id n b) ≡ length (m b)
unfolding put_node
length-put_node e m id n b = elim (Bool-cases (b == table_block id)) [
  | inl same ↦
      rw same
        (length-overwrite (m (table_block id)) _ _ ∙ ap (λ k. length (m k)) (ground (arith, same)))
  | inr other ↦ rw other refl
]

offset_fits : (id : ℕ) → table_offset id + inode_size ≤ 4096
offset_fits id = omega arith

-- Two inodes of one block of the table do not overlap.
offsets_apart :
    (i j : ℕ)
    → i ≢ j
    → table_block i ≡ table_block j
    → (if leb (table_offset j + inode_size) (table_offset i)
        then true
        else leb (table_offset i + inode_size) (table_offset j))
      ≡ true
offsets_apart i j ne e = elim (Bool-cases (ltb (i % inodes_per_block) (j % inodes_per_block))) [
  | inl l ↦ ground arith
  | inr l ↦ elim (Bool-cases (ltb (j % inodes_per_block) (i % inodes_per_block))) [
    | inl l' ↦ ground arith
    | inr l' ↦ absurd (ne (omega (arith, ltb→le _ _ l, ltb→le _ _ l')))
  ]
]

module _ (e : Env) (m : ℕ → Block) (i : ℕ) (n : INode)
    (whole : (b : ℕ) → b < 8 → length (m b) ≡ 4096) (v : IsInode n) (h : i < max_inodes) where
  long : length (inode_bytes e n) ≡ inode_size
  long = length-inode_bytes e n v.name_length

  room : length (m (table_block i)) ≡ 4096
  room = whole (table_block i) (omega arith)

  -- A written inode is the one read there.
  pub node_at-put_node : node_at (put_node e m i n) i ≡ n
  unfolding node_at put_node
  node_at-put_node = rw (==_self (table_block i)) (
      ap inode_of (
        ap
          (λ k.
            segment (table_offset i) k
              (overwrite (m (table_block i)) (table_offset i) (inode_bytes e n)))
          (sym long)
        ∙ segment-overwrite_self (m (table_block i)) (table_offset i) (inode_bytes e n)
            (omega (arith, long, room, offset_fits i)))
      ∙ inode_of-inode_bytes e n v)

  -- The others of the table stay.
  pub node_at-put_node_other : (j : ℕ) → j ≢ i → node_at (put_node e m i n) j ≡ node_at m j
  unfolding node_at put_node
  node_at-put_node_other j ne = elim (Bool-cases (table_block j == table_block i)) [
    | inr apart ↦ rw apart refl
    | inl shared ↦ ap inode_of (
        rw shared (
          ap
            (λ b.
              segment (table_offset j) inode_size
                (overwrite (m b) (table_offset i) (inode_bytes e n)))
            (sym (same shared))
          ∙ segment-overwrite_apart (m (table_block j)) (table_offset i) (inode_bytes e n)
              (table_offset j) inode_size
              (omega (arith, whole (table_block j) (omega (arith, same shared)), offset_fits j))
              (rw long (offsets_apart i j (λ k. ne (sym k)) (sym (same shared))))))
  ]
    where
      same : (table_block j == table_block i) ≡ true → table_block j ≡ table_block i
      same k = (==_iff (table_block j) (table_block i)).0 k
