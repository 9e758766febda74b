-- ===== src/Files/RoundTrip.antt =====
-- `read_file` after `write_file`, in the manager.
use os_course_design.Prelude.{
  ℕ, ◌+◌, ◌-◌, ◌%◌, ◌^◌, ◌≤◌, ◌<◌, ◌≡◌, ◌≢◌, ◌⊎◌, refl, ap, sym, subst, ◌∙◌, inl, inr, false, ◌&&◌,
  List, [], ◌∷◌, Option, some, arith, ltb, leb, ==_iff, length, text_eq, fun_ext, u32_mod,
}
use os_course_design.Cache.{CacheManager}
use os_course_design.Cache.Pages.{view}
use os_course_design.Bitmap.{is_block_free}
use os_course_design.Paths.{slash, split_path, calculate_blocks_needed}
use os_course_design.Directory.{Directory}
use os_course_design.INode.{INode, INodeManager, Env, Done, fs_file, root_inode_id, table_block}
use os_course_design.INode.Table.{Holds, Gives, with_cache, read_inode_lem, Holds-trans, Holds-ext}
use os_course_design.Contents.{read_file_data, write_file_data}
use os_course_design.Contents.RoundTrip.{Stores, stamped}
use os_course_design.Contents.Resize.{IsReady}
use os_course_design.Contents.Outcome.{Refuses, resize_inode-Resizes}
use os_course_design.Contents.Store.{
  IsReady-Holds, Stored, write_inode_data-Stored, read_inode_data-Stored,
}
use os_course_design.Tree.Walk.{cached_walk, resolved-cached}
use os_course_design.Files.{resolve_kind, read_file, write_file}

-- The path leads through cached directories to a file that is ready.
pub record FileAt (s : INodeManager) (path : List ℕ) (id : ℕ) (n : INode) : Type 0 where
  pub ready : IsReady s id n
  pub is_file : n.kind ≡ fs_file
  pub not_root : text_eq path (slash ∷ []) ≡ false
  pub leads : cached_walk s.directory_cache root_inode_id (split_path path) ≡ some id

resolve_kind_lem :
    (e : Env) (path : List ℕ) (id : ℕ) (n : INode) (s : INodeManager)
    → FileAt s path id n
    → Gives s (view s.cache) (resolve_kind e fs_file path s) id
unfolding resolve_kind
resolve_kind_lem e path id n s f =
    let (c, got, holds) = read_inode_lem e id s f.ready.sound f.ready.used in
    (
      c,
      rw
          (
            resolved-cached e path id s f.not_root f.leads (omega (arith, f.ready.low)),
            got,
            f.ready.node,
            (==_iff n.kind fs_file).1 f.is_file,
          )
          refl,
      holds,
    )

-- A file stays where it is while the memory and the directories stay.
pub FileAt-Holds :
    (s : INodeManager) (path : List ℕ) (id : ℕ) (n : INode) (c : CacheManager)
    → FileAt s path id n
    → Holds s.cache (view s.cache) c
    → FileAt (with_cache c s) path id n
FileAt-Holds s path id n c f h = record {
  ready = IsReady-Holds s id n c f.ready h;
  is_file = f.is_file;
  not_root = f.not_root;
  leads = f.leads;
}

pub read_file_lem :
    (e : Env) (path : List ℕ) (id : ℕ) (n : INode) (content : List ℕ) (s : INodeManager)
    → FileAt s path id n
    → Stores (view s.cache) id n content
    → (read_file e path s).1 ≡ some content
unfolding read_file read_file_data
read_file_lem e path id n content s f stores =
    let (c, resolves, holds) = resolve_kind_lem e path id n s f in
    let r = IsReady-Holds s id n c f.ready holds in
    let (c', got, holds') = read_inode_lem e id (with_cache c s) r.sound r.used in
    let r' = IsReady-Holds (with_cache c s) id n c' r holds' in
    let stores' : Stores (view c') id n content =
      subst (λ m. Stores m id n content)
        (sym (fun_ext (λ b. holds'.memory_is b ∙ holds.memory_is b))) stores in
    let (c'', fetched, _) = read_inode_data-Stored e id n content (with_cache c' s) r' stores' in
    rw (resolves, got, r.node, (==_iff n.kind fs_file).1 f.is_file, fetched) refl

write_file_data_lem :
    (e : Env) (id : ℕ) (n : INode) (content : List ℕ) (s : INodeManager)
    → IsReady s id n
    → n.kind ≡ fs_file
    → n.size ≡ length content
    → e.now < 2 ^ 64
    → (s' : INodeManager) × (write_file_data e id content s ≡ (s', some tt))
      × Stored s id (stamped e n) content s'
unfolding write_file_data
write_file_data_lem e id n content s r is_file size clock =
    let (c, got, holds) = read_inode_lem e id s r.sound r.used in
    let (s', wrote, stored) =
      write_inode_data-Stored e id n content (with_cache c s) (IsReady-Holds s id n c r holds) size
        clock in
    (
      s',
      rw (got, r.node, (==_iff n.kind fs_file).1 is_file, wrote) refl,
      record {
        ready = stored.ready;
        contents = stored.contents;
        others = λ b table own. stored.others b table own ∙ holds.memory_is b;
        same_directories = stored.same_directories;
      },
    )

-- The call answers true, the file is where it was, and any later `read_file` of the path returns the contents.
pub record Writes (s : INodeManager) (path : List ℕ) (id : ℕ) (content : List ℕ)
    (r : INodeManager × Option Done) : Type 0 where
  pub success : r.1 ≡ some tt
  pub node : INode
  pub file : FileAt r.0 path id node
  pub reads : (e : Env) → (read_file e path r.0).1 ≡ some content
  pub stores : Stores (view r.0.cache) id node content
  pub others :
      (b : ℕ)
      → is_block_free s.bitmap b ≡ false
      → b ≢ table_block id
      → (leb node.start_block b && ltb b (node.start_block + node.block_count)) ≡ false
      → view r.0.cache b ≡ view s.cache b

-- For a path that leads through cached directories to a file whose inode stands in the first block of the table,
-- and contents of up to 2 ^ 32 - 4096 bytes that need at least as many blocks as the file has: `write_file` either
-- answers false, with memory and bitmap as they were, because no long enough run of blocks is free, or answers
-- true; then every `read_file` of the path returns the contents, the file is again such a file, and no block that
-- was allocated has changed but the inode's block of the table and the file's own.
pub write_file-Writes :
    (e : Env) (path : List ℕ) (id : ℕ) (n : INode) (content : List ℕ) (s : INodeManager)
    → FileAt s path id n
    → e.now < 2 ^ 64
    → length content ≤ 2 ^ 32 - 4096
    → n.block_count ≤ calculate_blocks_needed (length content)
    → Refuses s (length content) (write_file e path content s)
      ⊎ Writes s path id content (write_file e path content s)
unfolding write_file
write_file-Writes e path id n content s f clock small grows =
    let (c, resolves, holds) = resolve_kind_lem e path id n s f in
    let size_fits : length content % u32_mod ≡ length content = omega arith in
    rw (resolves, size_fits)
      (elim (resize_inode-Resizes e id (length content) n (with_cache c s)
        (IsReady-Holds s id n c f.ready holds) clock small grows) [
          | inl full ↦ inl (
              rw full.failure (record {
                failure = refl;
                holds =
                    Holds-ext s.cache _ _ _ (Holds-trans s.cache c _ _ _ holds full.holds)
                      holds.memory_is;
                same_bitmap = full.same_bitmap;
                no_run = full.no_run;
              }))
          | inr (s2, n2, resized, rs) ↦
              let (s3, wrote, stored) =
                write_file_data_lem e id n2 content s2 rs.ready (rs.same_kind ∙ f.is_file)
                  rs.new_size clock in
              let file : FileAt s3 path id (stamped e n2) = record {
                ready = stored.ready;
                is_file = rs.same_kind ∙ f.is_file;
                not_root = f.not_root;
                leads =
                    ap (λ (d : ℕ → Option Directory). cached_walk d root_inode_id (split_path path))
                      (stored.same_directories ∙ rs.same_directories)
                    ∙ f.leads;
              } in
              inr (
                rw (resized, wrote)
                  (record {
                    success = refl;
                    node = stamped e n2;
                    file = file;
                    reads = λ e'.
                        read_file_lem e' path id (stamped e n2) content s3 file stored.contents;
                    stores = stored.contents;
                    others = λ b taken table own.
                        stored.others b table own ∙ rs.others b taken table ∙ holds.memory_is b;
                  }))
        ])
