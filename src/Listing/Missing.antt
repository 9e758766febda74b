-- ===== src/Listing/Missing.antt =====
-- What is told of a path that leads nowhere, and of one that leads to a file.
use os_course_design.Prelude.{◌≡◌, refl, none, List, ℕ, arith}
use os_course_design.INode.{INodeManager, Env}
use os_course_design.Tree.{resolved}
use os_course_design.Cache.{CacheManager}
use os_course_design.Cache.Pages.{view}
use os_course_design.INode.{INode}
use os_course_design.INode.Table.{Holds, with_cache, read_inode_lem}
use os_course_design.Tree.Walk.{resolved-cached}
use os_course_design.Files.RoundTrip.{FileAt}
use os_course_design.Listing.{get_file_info, info_if, info_of, no_info}

pub get_file_info-nowhere :
    (e : Env) (path : List ℕ) (s : INodeManager)
    → resolved e path s ≡ (s, none)
    → get_file_info e path s ≡ (s, no_info)
unfolding get_file_info info_if
get_file_info-nowhere e path s h = rw h refl

pub get_file_info-FileAt :
    (e : Env) (path : List ℕ) (id : ℕ) (n : INode) (s : INodeManager)
    → FileAt s path id n
    → (c : CacheManager) × (get_file_info e path s ≡ (with_cache c s, info_of n.name path n))
      × Holds s.cache (view s.cache) c
unfolding get_file_info info_if
get_file_info-FileAt e path id n s f =
    let (c, got, holds) = read_inode_lem e id s f.ready.sound f.ready.used in
    (
      c,
      rw
          (
            resolved-cached e path id s f.not_root f.leads (omega (arith, f.ready.low)),
            got,
            f.ready.node,
          )
          refl,
      holds,
    )
