-- ===== src/FileSystem/RoundTrip.antt =====
-- `read_file` after `write_file`, by way of the open files and the error codes.
use os_course_design.Prelude.{
  ℕ, ◌-◌, ◌^◌, ◌≤◌, ◌<◌, ◌≡◌, ◌≢◌, ◌⊎◌, refl, ap, sym, subst, ◌∙◌, inl, inr, Bool, true, false,
  List, some, ne→==, length, fun_ext,
}
use os_course_design.Cache.{CacheManager}
use os_course_design.Cache.Pages.{view}
use os_course_design.Paths.{normalize_path, calculate_blocks_needed}
use os_course_design.Paths.Split.{normalize_path-normalize_path}
use os_course_design.Handles.{is_file_protected}
use os_course_design.INode.{INode, INodeManager, Env}
use os_course_design.INode.Table.{Holds, with_cache}
use os_course_design.Contents.RoundTrip.{Stores}
use os_course_design.Contents.Outcome.{NoRoom}
use os_course_design.Tree.{minus_three}
use os_course_design.Files
use os_course_design.Files.RoundTrip.{FileAt, FileAt-Holds, read_file_lem, write_file-Writes}
use os_course_design.Listing
use os_course_design.Listing.{FileInfo}
use os_course_design.Listing.Missing.{get_file_info-FileAt}
use os_course_design.FileSystem.{
  Volume, read_file, write_file, open_file, on_manager, code_if, code_of,
}
use os_course_design.FileSystem.Codes.{open_file-reached}

-- `write_file` of a file that is there, open to no one: it comes down to the manager's `write_file`.
written :
    (e : Env) (v : Volume) (path content : List ℕ) (id : ℕ) (n : INode)
    → v.mounted ≡ true
    → is_file_protected v.handles (normalize_path v.current_path path) ≡ false
    → FileAt v.manager (normalize_path v.current_path path) id n
    → n.id ≢ 0
    → (c : CacheManager) × (write_file e path content v
        ≡ code_of minus_three (
            on_manager
              (Files.write_file e (normalize_path v.current_path path) content)
              (record v { manager = with_cache c v.manager })))
      × Holds v.manager.cache (view v.manager.cache) c
unfolding write_file Listing.info_of
written e v path content id n t free f nonzero =
    let (c, told, holds) =
      get_file_info-FileAt e (normalize_path v.current_path path) id n v.manager f in
    (c, rw (free, told, ne→== n.id 0 nonzero, t) refl, holds)

-- `read_file` of a file whose blocks hold the contents.
read_back :
    (e : Env) (v : Volume) (path content : List ℕ) (id : ℕ) (n : INode)
    → v.mounted ≡ true
    → FileAt v.manager (normalize_path v.current_path path) id n
    → Stores (view v.manager.cache) id n content
    → ((read_file e path v).1 ≡ 0) × ((read_file e path v).2 ≡ some content)
unfolding read_file
read_back e v path content id n t f stores =
    let p = normalize_path v.current_path path in
    let (c, told, holds) = get_file_info-FileAt e p id n v.manager f in
    let same : (open_file e p v).0.manager ≡ with_cache c v.manager =
      ap (λ (r : Volume × Bool). r.0.manager) (open_file-reached e v p t)
      ∙ ap (λ q. (Listing.get_file_info e q v.manager).0)
          (normalize_path-normalize_path v.current_path v.current_path path)
      ∙ ap (λ (r : INodeManager × FileInfo). r.0) told in
    let found : (Files.read_file e p (open_file e p v).0.manager).1 ≡ some content =
      ap (λ s. (Files.read_file e p s).1) same
      ∙ read_file_lem e p id n content (with_cache c v.manager)
          (FileAt-Holds v.manager p id n c f holds)
          (subst (λ m. Stores m id n content) (sym (fun_ext holds.memory_is)) stores) in
    rw (found, t) (refl, refl)

-- For a mounted volume and a path that leads through cached directories to a file that nobody has open, with its
-- inode in the first block of the table, and contents of up to 2 ^ 32 - 4096 bytes that need at least as many
-- blocks as the file has: `write_file` answers -3, because no long enough run of blocks is free, or it answers 0,
-- and `read_file` of the path then answers 0 with the contents.
pub read_file-write_file :
    (e e' : Env) (v : Volume) (path content : List ℕ) (id : ℕ) (n : INode)
    → v.mounted ≡ true
    → is_file_protected v.handles (normalize_path v.current_path path) ≡ false
    → FileAt v.manager (normalize_path v.current_path path) id n
    → n.id ≢ 0
    → e.now < 2 ^ 64
    → length content ≤ 2 ^ 32 - 4096
    → n.block_count ≤ calculate_blocks_needed (length content)
    → (((write_file e path content v).1 ≡ minus_three)
        × NoRoom v.manager.bitmap (calculate_blocks_needed (length content)))
      ⊎ (((write_file e path content v).1 ≡ 0)
          × ((read_file e' path (write_file e path content v).0).1 ≡ 0)
          × ((read_file e' path (write_file e path content v).0).2 ≡ some content))
read_file-write_file e e' v path content id n t free f nonzero clock small grows =
    let p = normalize_path v.current_path path in
    let (c, eq, holds) = written e v path content id n t free f nonzero in
    rw eq
      (elim (write_file-Writes e p id n content (with_cache c v.manager)
        (FileAt-Holds v.manager p id n c f holds) clock small grows) [
          | inl full ↦ inl (ap (code_if minus_three) full.failure, full.no_run)
          | inr done ↦
              let (code, back) =
                read_back e'
                  (record v { manager = (Files.write_file e p content (with_cache c v.manager)).0 })
                  path content id done.node t done.file done.stores in
              inr (ap (code_if minus_three) done.success, code, back)
        ])
