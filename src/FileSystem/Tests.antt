-- ===== src/FileSystem/Tests.antt =====
-- Runs of the operations on small disks, from the inode table up to the commands.
use os_course_design.Prelude.{
  ℕ, suc, ◌+◌, ◌-◌, ◌*◌, ◌^◌, ◌<◌, ◌≤◌, ◌≡◌, ◌≢◌, ◌⊎◌, refl, ap, ◌∙◌, fun_ext, Bool, true, false,
  List, [], ◌∷◌, ◌++◌, Option, none, some, replicate, text_eq, c_string, length, length-replicate,
  drop, arith, ltb, leb, ◌&&◌,
}
use os_course_design.Disk.{Block, VirtualDisk, File}
use os_course_design.Disk.Access.{IsHealthy}
use os_course_design.Cache.{CacheManager, cache_manager}
use os_course_design.Cache.Pages.{view}
use os_course_design.Cache.Flush.{cache_manager-IsValid}
use os_course_design.Bitmap.Sample.{
  sixteen, sixteen-IsValid, ten_taken, crowded, crowded-IsValid, crowded_refuses,
}
use os_course_design.Bitmap.{is_block_free}
use os_course_design.Directory.{Directory}
use os_course_design.Paths.{
  split_path, visit, visit_all, items, components_of, full_path, join, normalize_path,
  calculate_blocks_needed,
}
use os_course_design.INode.{
  INode, INodeManager, Env, inode_manager, is_used, read_inode, write_inode, table_block,
}
use os_course_design.INode.Layout.{IsInode, node_at, put_node, length-put_node, node_at-put_node}
use os_course_design.INode.Table.{IsSound, read_inode-write_inode}
use os_course_design.Contents.{resize_inode, read_inode_data, write_inode_data}
use os_course_design.Contents.RoundTrip.{IsPlaced, read_inode_data-write_inode_data}
use os_course_design.Contents.Resize.{IsReady}
use os_course_design.Contents.Outcome.{Refuses, Accepts, NoRoom, resize_inode-Resizes}
use os_course_design.Tree.{minus_one, minus_two, minus_three, create_inode, free_slot}
use os_course_design.Tree.Create.{create_inode-full}
use os_course_design.Files
use os_course_design.Files.Failures.{create_file-full}
use os_course_design.Files.RoundTrip.{FileAt, Writes, write_file-Writes}
use os_course_design.Handles
use os_course_design.Listing.{FileInfo, no_info, info_of}
use os_course_design.Listing.Missing.{get_file_info-FileAt}
use os_course_design.FileSystem.{
  Volume, mount, create_file, delete_file, read_file, write_file, create_directory,
  delete_directory, get_file_info, change_directory, open_file, fresh_disk, fresh_bitmap,
}
use os_course_design.FileSystem.Codes.{open_file-reached, open_file-protects}
use os_course_design.FileSystem.Mounting.{get_file_info-mount}
use os_course_design.FileSystem.RoundTrip.{read_file-write_file}
use os_course_design.Shell.{cmd_echo, cmd_cat, code, shown}
use os_course_design.Shell.Echo.{spaced, cmd_cat-cmd_echo}

abbrev env : Env
env = record { now = 7; pad_one = 0; pad_two = 0; pad_three = 0; stale_name = replicate 64 0 }

-- A file of three bytes in block 10, with inode 2.
abbrev node : INode
node = record {
  id = 2;
  kind = 0;
  size = 3;
  start_block = 10;
  block_count = 1;
  parent_id = 1;
  create_time = 5;
  modify_time = 5;
  name = 97 ∷ replicate 63 0;
}

node-IsInode : IsInode node
node-IsInode = record {
  id_fits = omega arith;
  size_fits = omega arith;
  start_fits = omega arith;
  count_fits = omega arith;
  parent_fits = omega arith;
  created_fits = omega arith;
  modified_fits = omega arith;
  name_length = refl;
}

abbrev zeros : ℕ → Block
zeros b = replicate 4096 0

abbrev disk : VirtualDisk
disk = record {
  disk_size = 65536;
  block_size = 4096;
  total_blocks = 16;
  stream = record {
    is_open = true;
    failed = false;
    size = 65536;
    content = put_node env zeros 2 node;
    bad = λ b. false;
  };
}

disk-IsHealthy : IsHealthy disk
disk-IsHealthy = record {
  opened = refl;
  clean = refl;
  good = λ b h. refl;
  backed = λ b h. omega arith;
}

abbrev root : Directory
root = record {
  dir_inode_id = 1;
  entries = record { inode_id = 2; name = 97 ∷ replicate 63 0; kind = 0 } ∷ [];
}

-- The root directory is cached, and it holds "a".
abbrev manager : INodeManager
manager = record {
  cache = cache_manager disk 16 4096;
  bitmap = sixteen;
  inode_count = 2;
  inode_used = false ∷ true ∷ true ∷ replicate 253 false;
  directory_cache = λ id. some root;
}

blocks_whole : (b : ℕ) → length (zeros b) ≡ 4096
blocks_whole b = length-replicate {A = ℕ} 4096 0

view-manager : (b : ℕ) → view manager.cache b ≡ put_node env zeros 2 node b
view-manager b = (cache_manager-IsValid disk 16 4096 disk-IsHealthy (omega arith) (omega arith)).1 b

manager-IsSound : IsSound manager.cache
unfolding cache_manager
manager-IsSound = record {
  cached = (cache_manager-IsValid disk 16 4096 disk-IsHealthy (omega arith) (omega arith)).0;
  room = omega arith;
  whole = λ b l.
      ap (λ (t : Block). length t) (view-manager b)
      ∙ length-put_node env zeros 2 node b
      ∙ blocks_whole b;
}

manager-node : node_at (view manager.cache) 2 ≡ node
manager-node =
    ap (λ (f : ℕ → Block). node_at f 2) (fun_ext view-manager)
    ∙ node_at-put_node env zeros 2 node (λ b l. blocks_whole b) node-IsInode (omega arith)

node-IsPlaced : IsPlaced node 2 16
node-IsPlaced = record {
  covered = omega arith;
  tight = omega arith;
  on_disk = omega arith;
  behind = omega arith;
}

ten_plus : (j : ℕ) → j < 1 → 10 + j ≡ 10
ten_plus j l = omega arith

manager-IsReady : IsReady manager 2 node
unfolding cache_manager
manager-IsReady = record {
  sound = manager-IsSound;
  used = refl;
  low = omega arith;
  node = manager-node;
  fits = node-IsInode;
  placed = node-IsPlaced;
  bitmap_valid = sixteen-IsValid;
  same_size = refl;
  owned = λ j l. ap (is_block_free sixteen) (ten_plus j l) ∙ ten_taken;
}

-- "/a" and "a"
abbrev path_a : List ℕ
path_a = 47 ∷ 97 ∷ []

abbrev name_a : List ℕ
name_a = 97 ∷ []

abbrev text : List ℕ
text = 104 ∷ 101 ∷ 121 ∷ []

abbrev volume : Volume
volume = record {
  handles = record { mounted = true; current_path = 47 ∷ []; open_files = [] };
  manager = manager;
}

normal_a : normalize_path (47 ∷ []) name_a ≡ path_a
unfolding normalize_path os_course_design.Paths.components_of os_course_design.Paths.visit_all
    os_course_design.Paths.full_path os_course_design.Prelude.text_eq os_course_design.Paths.items
    os_course_design.Paths.visit os_course_design.Paths.join
normal_a = refl

file_a : FileAt manager (normalize_path (47 ∷ []) name_a) 2 node
unfolding os_course_design.Prelude.text_eq normalize_path os_course_design.Paths.components_of
    os_course_design.Paths.visit_all os_course_design.Paths.full_path os_course_design.Paths.items
    os_course_design.Paths.visit os_course_design.Paths.join os_course_design.Tree.Walk.cached_walk
    os_course_design.Paths.split_path os_course_design.Directory.find_entry
    os_course_design.Prelude.c_string
file_a = record { ready = manager-IsReady; is_file = refl; not_root = refl; leads = refl }

-- The inode table, contents and sizes

read_inode-write_inode_example :
    ((write_inode env 2 node manager).1 ≡ some tt)
    × ((read_inode env 2 (write_inode env 2 node manager).0).1 ≡ some node)
    × ((j : ℕ)
        → j ≢ 2
        → is_used manager j ≡ true
        → (read_inode env j (write_inode env 2 node manager).0).1 ≡ (read_inode env j manager).1)
    × ((b : ℕ)
        → b ≢ table_block 2
        → view (write_inode env 2 node manager).0.cache b ≡ view manager.cache b)
read_inode-write_inode_example =
    read_inode-write_inode env env 2 node manager manager-IsSound refl node-IsInode

read_inode_data-write_inode_data_example :
    ((write_inode_data env 2 text manager).1 ≡ some tt)
    × ((read_inode_data env 2 (write_inode_data env 2 text manager).0).1 ≡ some text)
    × ((read_inode env 2 (write_inode_data env 2 text manager).0).1
        ≡ some (record node { modify_time = 7 }))
    × ((b : ℕ)
        → b ≢ table_block 2
        → (leb 10 b && ltb b (10 + 1)) ≡ false
        → view (write_inode_data env 2 text manager).0.cache b ≡ view manager.cache b)
read_inode_data-write_inode_data_example =
    read_inode_data-write_inode_data env env 2 node text manager manager-IsSound refl manager-node
      node-IsInode manager-IsReady.placed refl (omega arith)

resize_inode-Resizes_example :
    Refuses manager 9000 (resize_inode env 2 9000 manager)
    ⊎ Accepts manager 2 node 9000 (resize_inode env 2 9000 manager)
unfolding calculate_blocks_needed
resize_inode-Resizes_example =
    resize_inode-Resizes env 2 9000 node manager manager-IsReady (omega arith) (omega arith)
      (omega arith)

write_file-Writes_example :
    Refuses manager 3 (Files.write_file env (normalize_path (47 ∷ []) name_a) text manager)
    ⊎ Writes manager
        (normalize_path (47 ∷ []) name_a)
        2
        text
        (Files.write_file env (normalize_path (47 ∷ []) name_a) text manager)
unfolding calculate_blocks_needed
write_file-Writes_example =
    write_file-Writes env (normalize_path (47 ∷ []) name_a) 2 node text manager file_a (omega arith)
      (omega arith) (omega arith)

read_file-write_file_example :
    (((write_file env name_a text volume).1 ≡ minus_three)
      × NoRoom sixteen (calculate_blocks_needed 3))
    ⊎ (((write_file env name_a text volume).1 ≡ 0)
        × ((read_file env name_a (write_file env name_a text volume).0).1 ≡ 0)
        × ((read_file env name_a (write_file env name_a text volume).0).2 ≡ some text))
unfolding calculate_blocks_needed os_course_design.Handles.is_file_protected
    os_course_design.Handles.find_open
read_file-write_file_example =
    read_file-write_file env env volume name_a text 2 node refl refl file_a (omega arith)
      (omega arith) (omega arith) (omega arith)

-- A full disk

abbrev full_manager : INodeManager
full_manager = record manager { bitmap = crowded }

create_inode-full_example :
    ((create_inode env 1 1 name_a 0 full_manager ≡ (full_manager, minus_one))
      × ((256 ≤ 2) ⊎ (free_slot (drop 1 manager.inode_used) 1 ≡ none)))
    ⊎ (create_inode env 1 1 name_a 0 full_manager ≡ (full_manager, minus_two))
unfolding os_course_design.Tree.blocks_of_kind
create_inode-full_example =
    create_inode-full env 1 1 name_a 0 full_manager crowded-IsValid crowded_refuses

-- "/b"
create_file-full_example :
    Files.create_file env (47 ∷ 98 ∷ []) [] full_manager ≡ (full_manager, some tt)
unfolding free_slot os_course_design.Paths.is_valid_filename Files.file_name Files.last_slash
    os_course_design.Paths.all_legal os_course_design.Tree.resolve_path
    os_course_design.Prelude.text_eq Files.parent_path os_course_design.Directory.find_entry
    os_course_design.Prelude.c_string
create_file-full_example =
    create_file-full env (47 ∷ 98 ∷ []) full_manager 1 3 root crowded-IsValid crowded_refuses
      (omega arith) refl refl refl refl refl

-- Mounting, open files and commands

abbrev host_file : File
host_file = record { file_size = 65536; blocks = λ b. replicate 4096 0; broken = λ b. false }

abbrev unmounted : Volume
unmounted = record {
  handles = record { mounted = false; current_path = 47 ∷ []; open_files = [] };
  manager = inode_manager fresh_bitmap (cache_manager fresh_disk 16 4096);
}

mounts : (mount env (some host_file) unmounted).1 ≡ true
unfolding mount os_course_design.Disk.open_disk os_course_design.Bitmap.Persist.load
    os_course_design.Cache.read_block os_course_design.Cache.find_page cache_manager
    os_course_design.Cache.get_free_page os_course_design.Disk.read_block read_inode inode_manager
    os_course_design.Tree.create_root_directory os_course_design.Contents.allocate
    os_course_design.Bitmap.allocate_consecutive_blocks os_course_design.Bitmap.set_block_status
    is_block_free os_course_design.Bitmap.Bits.bit_clear os_course_design.Bitmap.Bits.raise_bit
    os_course_design.Bitmap.find_consecutive_free_blocks write_inode
    os_course_design.INode.write_cache os_course_design.Cache.write_block
    os_course_design.INode.read_cache os_course_design.Directory.add_entry
    os_course_design.Directory.find_entry os_course_design.Prelude.c_string
    os_course_design.Directory.new_entry os_course_design.Prelude.strncpy
    os_course_design.Tree.save_directory_content os_course_design.Bitmap.Bits.lower_bit
    os_course_design.Bitmap.Persist.loaded os_course_design.Bitmap.Persist.resize
    os_course_design.Bitmap.free_consecutive_blocks os_course_design.Cache.page_at
    os_course_design.Cache.write_back_page read_inode_data os_course_design.Contents.release_blocks
    write_inode_data os_course_design.Directory.deserialize os_course_design.Directory.find_in
    os_course_design.Directory.remove_entry os_course_design.Directory.serialize
    os_course_design.Disk.write_block os_course_design.FileSystem.make_missing_root
    os_course_design.FileSystem.start_disk os_course_design.FileSystem.start_manager
    os_course_design.FileSystem.with_bitmap os_course_design.Prelude.overwrite
    os_course_design.Prelude.word_of os_course_design.Prelude.text_eq
    os_course_design.Tree.cache_directory os_course_design.Tree.delete_inode
    os_course_design.Tree.get_directory os_course_design.Tree.load_directory_content
    os_course_design.Tree.remove_directory_entry os_course_design.Tree.remove_from_cache
    resize_inode calculate_blocks_needed
mounts = refl

splits_a : split_path (normalize_path (47 ∷ []) name_a) ≡ name_a ∷ []
unfolding split_path visit visit_all items normalize_path components_of full_path join text_eq
splits_a = refl

not_root_a : text_eq (normalize_path (47 ∷ []) name_a) (47 ∷ []) ≡ false
unfolding visit visit_all items normalize_path components_of full_path join text_eq
not_root_a = refl

get_file_info-mount_example :
    (get_file_info env name_a (mount env (some host_file) unmounted).0).1 ≡ no_info
unfolding text_eq c_string
get_file_info-mount_example =
    get_file_info-mount env env (some host_file) unmounted name_a name_a [] mounts splits_a
      not_root_a refl refl

opens : (open_file env name_a volume).1 ≡ true
unfolding info_of Handles.open_file
opens =
    let (c, told, _) =
      get_file_info-FileAt env (normalize_path (47 ∷ []) name_a) 2 node manager file_a in
    ap (λ (r : Volume × Bool). r.1) (open_file-reached env volume name_a refl)
    ∙ ap
        (λ (r : INodeManager × FileInfo).
          (Handles.open_file (λ _. r.1.inode_id) volume.handles name_a).1)
        told

open_file-protects_example :
    (write_file env name_a text (open_file env name_a volume).0
      ≡ ((open_file env name_a volume).0, minus_two))
    × (delete_file env (normalize_path (47 ∷ []) name_a) (open_file env name_a volume).0
        ≡ ((open_file env name_a volume).0, minus_two))
open_file-protects_example = open_file-protects env env volume name_a text tt opens

-- echo h i > a, and cat a
abbrev words : List (List ℕ)
words = (104 ∷ []) ∷ (105 ∷ []) ∷ []

abbrev echo_name : List ℕ
echo_name = 101 ∷ 99 ∷ 104 ∷ 111 ∷ []

abbrev echo_args : List (List ℕ)
echo_args = echo_name ∷ (104 ∷ []) ∷ (105 ∷ []) ∷ (62 ∷ []) ∷ name_a ∷ []

abbrev cat_args : List (List ℕ)
cat_args = (99 ∷ 97 ∷ 116 ∷ []) ∷ name_a ∷ []

cmd_cat-cmd_echo_example :
    (((cmd_echo env echo_args volume).1 ≡ code minus_three)
      × NoRoom sixteen (calculate_blocks_needed 3))
    ⊎ (((cmd_echo env echo_args volume).1 ≡ code 0)
        × ((cmd_cat env cat_args (cmd_echo env echo_args volume).0).1
            ≡ shown (104 ∷ 32 ∷ 105 ∷ [])))
unfolding os_course_design.Prelude.text_eq os_course_design.Handles.is_file_protected
    os_course_design.Handles.find_open calculate_blocks_needed spaced
cmd_cat-cmd_echo_example =
    cmd_cat-cmd_echo env env volume echo_name words (name_a ∷ []) cat_args 2 node (refl, (refl, tt))
      (omega arith) refl (omega arith) refl refl refl file_a (omega arith) (omega arith)
      (omega arith) (omega arith)
