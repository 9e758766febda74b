-- ===== src/Listing/Tests.antt =====
-- The deletion of the directory "/a", which has only "." and "..", on a disk of sixteen blocks.
use os_course_design.Prelude.{
  ℕ, ◌≡◌, refl, ap, ◌∙◌, fun_ext, true, false, [], ◌∷◌, List, replicate, length, length-replicate,
  none, some, arith, if◌then◌else◌, ◌==◌,
}
use os_course_design.Disk.{Block, VirtualDisk}
use os_course_design.Disk.Access.{IsHealthy}
use os_course_design.Cache.{cache_manager}
use os_course_design.Cache.Pages.{view}
use os_course_design.Cache.Flush.{cache_manager-IsValid}
use os_course_design.Bitmap.Sample.{sixteen}
use os_course_design.Directory.{Directory}
use os_course_design.INode.{INode, INodeManager, Env, is_used, read_inode}
use os_course_design.INode.Layout.{IsInode, node_at, put_node, length-put_node, node_at-put_node}
use os_course_design.INode.Table.{IsSound}
use os_course_design.Tree.Walk.{cached_walk}
use os_course_design.Paths.{split_path}
use os_course_design.Listing.{delete_directory, answered}
use os_course_design.Listing.Empty.{OnlyDots, delete_directory-dots}

abbrev env : Env
env = record { now = 7; pad_one = 0; pad_two = 0; pad_three = 0; stale_name = replicate 64 0 }

-- A directory in block 10, with inode 2.
abbrev node : INode
node = record {
  id = 2;
  kind = 1;
  size = 0;
  start_block = 10;
  block_count = 1;
  parent_id = 1;
  create_time = 5;
  modify_time = 5;
  name = 97 ∷ replicate 63 0;
}

node-IsInode : IsInode node
node-IsInode = record {
  id_fits = omega arith;
  size_fits = omega arith;
  start_fits = omega arith;
  count_fits = omega arith;
  parent_fits = omega arith;
  created_fits = omega arith;
  modified_fits = omega arith;
  name_length = refl;
}

abbrev zeros : ℕ → Block
zeros b = replicate 4096 0

abbrev disk : VirtualDisk
disk = record {
  disk_size = 65536;
  block_size = 4096;
  total_blocks = 16;
  stream = record {
    is_open = true;
    failed = false;
    size = 65536;
    content = put_node env zeros 2 node;
    bad = λ b. false;
  };
}

disk-IsHealthy : IsHealthy disk
disk-IsHealthy = record {
  opened = refl;
  clean = refl;
  good = λ b h. refl;
  backed = λ b h. omega arith;
}

abbrev root : Directory
root = record {
  dir_inode_id = 1;
  entries = record { inode_id = 2; name = 97 ∷ replicate 63 0; kind = 1 } ∷ [];
}

abbrev only : Directory
only = record {
  dir_inode_id = 2;
  entries =
      record { inode_id = 2; name = 46 ∷ replicate 63 0; kind = 1 }
      ∷ record { inode_id = 1; name = 46 ∷ 46 ∷ replicate 62 0; kind = 1 }
      ∷ [];
}

-- Both directories are cached.
abbrev manager : INodeManager
manager = record {
  cache = cache_manager disk 16 4096;
  bitmap = sixteen;
  inode_count = 2;
  inode_used = false ∷ true ∷ true ∷ replicate 253 false;
  directory_cache = λ id. if id == 1 then some root else some only;
}

blocks_whole : (b : ℕ) → length (zeros b) ≡ 4096
blocks_whole b = length-replicate {A = ℕ} 4096 0

view-manager : (b : ℕ) → view manager.cache b ≡ put_node env zeros 2 node b
view-manager b = (cache_manager-IsValid disk 16 4096 disk-IsHealthy (omega arith) (omega arith)).1 b

manager-IsSound : IsSound manager.cache
unfolding cache_manager
manager-IsSound = record {
  cached = (cache_manager-IsValid disk 16 4096 disk-IsHealthy (omega arith) (omega arith)).0;
  room = omega arith;
  whole = λ b l.
      ap (λ (t : Block). length t) (view-manager b)
      ∙ length-put_node env zeros 2 node b
      ∙ blocks_whole b;
}

manager-node : node_at (view manager.cache) 2 ≡ node
manager-node =
    ap (λ (f : ℕ → Block). node_at f 2) (fun_ext view-manager)
    ∙ node_at-put_node env zeros 2 node (λ b l. blocks_whole b) node-IsInode (omega arith)

abbrev path_a : List ℕ
path_a = 47 ∷ 97 ∷ []

leads_to_a : cached_walk manager.directory_cache 1 (split_path path_a) ≡ some 2
unfolding os_course_design.Prelude.text_eq os_course_design.Paths.visit_all
    os_course_design.Paths.items os_course_design.Paths.visit cached_walk split_path
    os_course_design.Directory.find_entry os_course_design.Prelude.c_string
leads_to_a = refl

only_dots : OnlyDots only.entries
unfolding os_course_design.Prelude.text_eq os_course_design.Prelude.c_string
only_dots = (refl, (refl, tt))

delete_directory-dots_example :
    let r = delete_directory env 3 path_a manager in
    (r.1 ≡ answered true)
    × (is_used r.0 2 ≡ false)
    × ((read_inode env 2 r.0).1 ≡ none)
    × (r.0.directory_cache 2 ≡ none)
unfolding os_course_design.Prelude.text_eq
delete_directory-dots_example =
    delete_directory-dots env env 2 path_a 2 only manager refl leads_to_a manager-IsSound refl refl
      (ap (λ (n : INode). n.kind) manager-node) refl only_dots
