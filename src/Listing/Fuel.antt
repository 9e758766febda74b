-- ===== src/Listing/Fuel.antt =====
-- The fuel of the recursive deletion of directories.
use os_course_design.Prelude.{
  ℕ, zero, suc, ◌≤◌, ◌≡◌, refl, Bool, true, false, List, [], ◌∷◌, Option, none, some, arith,
  if◌then◌else◌, ◌==◌, ◌||◌, same_string,
}
use os_course_design.INode.{INodeManager, Env, root_inode_id, read_inode, fs_directory}
use os_course_design.Files.{resolve_kind}
use os_course_design.Directory.{DirectoryEntry}
use os_course_design.Tree.{get_directory, delete_inode}
use os_course_design.Paths.{dot, dot_dot}
use os_course_design.Listing.{
  Outcome, answered, exhausted, answered_by, then_more, delete_entry, delete_entries,
  delete_directory_recursive, delete_directory,
}

-- A call with its state that came to an answer.
abbrev Answers : INodeManager × Outcome → Type 0
Answers r = (b : Bool) × (r.1 ≡ answered b)

-- Two calls of which the second is the first wherever that answers.
abbrev Extends : INodeManager × Outcome → INodeManager × Outcome → Type 0
Extends r r' = Answers r → r' ≡ r

-- The same of two recursive calls.
abbrev ExtendsAll :
    (ℕ → INodeManager → INodeManager × Outcome)
    → (ℕ → INodeManager → INodeManager × Outcome)
    → Type 0
ExtendsAll f g = (id : ℕ) (s : INodeManager) → Extends (f id s) (g id s)

then_more-Extends :
    (r r' : INodeManager × Outcome) (more more' : INodeManager → INodeManager × Outcome)
    → Extends r r'
    → ((s : INodeManager) → Extends (more s) (more' s))
    → Extends (then_more r more) (then_more r' more')
then_more-Extends (s, answered true) r' more more' h hs a = rw (h (true, refl)) (hs s a)
then_more-Extends (s, answered false) r' more more' h hs a = rw (h (false, refl)) refl
then_more-Extends (s, exhausted) r' more more' h hs (b, p) = absurd (ground (arith, p))

-- A test decides between the same answer and two such calls.
if-Extends :
    (c : Bool) (same r r' : INodeManager × Outcome)
    → Extends r r'
    → Extends (if c then same else r) (if c then same else r')
if-Extends true same r r' h a = refl
if-Extends false same r r' h a = h a

then-Extends :
    (c : Bool) (same r r' : INodeManager × Outcome)
    → Extends r r'
    → Extends (if c then r else same) (if c then r' else same)
then-Extends true same r r' h a = h a
then-Extends false same r r' h a = refl

some-Extends :
    {A : Type 0}
    → (o : Option A) (same : INodeManager × Outcome) (f g : A → INodeManager × Outcome)
    → ((x : A) → Extends (f x) (g x))
    → Extends (elim o [ none ↦ same | some x ↦ f x ]) (elim o [ none ↦ same | some x ↦ g x ])
some-Extends none same f g h a = refl
some-Extends (some x) same f g h a = h x a

delete_entry-Extends :
    (e : Env) (f g : ℕ → INodeManager → INodeManager × Outcome)
    → ExtendsAll f g
    → (entry : DirectoryEntry) (s : INodeManager)
    → Extends (delete_entry e f entry s) (delete_entry e g entry s)
unfolding delete_entry
delete_entry-Extends e f g h entry s =
    let s' = (read_inode e entry.inode_id s).0 in
    if-Extends (same_string entry.name dot || same_string entry.name dot_dot) (s, answered true) _ _
      (some-Extends ((read_inode e entry.inode_id s).1) (s', answered true) _ _
        (λ n.
          then-Extends (n.kind == fs_directory) (answered_by (delete_inode e entry.inode_id s')) _ _
            (h entry.inode_id s')))

delete_entries-Extends :
    (e : Env) (f g : ℕ → INodeManager → INodeManager × Outcome)
    → ExtendsAll f g
    → (entries : List DirectoryEntry) (s : INodeManager)
    → Extends (delete_entries e f entries s) (delete_entries e g entries s)
unfolding delete_entries
delete_entries-Extends e f g h [] s a = refl
delete_entries-Extends e f g h (entry ∷ rest) s a =
    then_more-Extends (delete_entry e f entry s) (delete_entry e g entry s) _ _
      (delete_entry-Extends e f g h entry s) (delete_entries-Extends e f g h rest) a

delete_directory_recursive-Extends :
    (e : Env) (fuel more : ℕ)
    → fuel ≤ more
    → ExtendsAll (delete_directory_recursive e fuel) (delete_directory_recursive e more)
unfolding delete_directory_recursive
delete_directory_recursive-Extends e zero more le id s (b, p) = absurd (ground (arith, p))
delete_directory_recursive-Extends e (suc fuel) zero le id s a = absurd (omega (arith, le))
delete_directory_recursive-Extends e (suc fuel) (suc more) le id s a =
    let (s', d) = get_directory e id s in
    if-Extends (id == root_inode_id) (s, answered false) _ _
      (some-Extends d (s', answered false) _ _
        (λ d'.
          then_more-Extends _ _ (λ t. answered_by (delete_inode e id t)) _
            (delete_entries-Extends e (delete_directory_recursive e fuel)
              (delete_directory_recursive e more)
              (delete_directory_recursive-Extends e fuel more (omega (arith, le))) d'.entries s')
            (λ t _. refl)))
      a

-- A recursive deletion that answers does not depend on the fuel: with any more of it `delete_directory`
-- gives the same answer and leaves the same state.
pub delete_directory-more_fuel :
    (e : Env) (fuel more : ℕ) (path : List ℕ) (s : INodeManager) (b : Bool)
    → fuel ≤ more
    → (delete_directory e fuel path s).1 ≡ answered b
    → delete_directory e more path s ≡ delete_directory e fuel path s
unfolding delete_directory
delete_directory-more_fuel e fuel more path s b le p =
    let (s', found) = resolve_kind e fs_directory path s in
    some-Extends found (s', answered false) _ _
      (λ id.
        if-Extends (id == root_inode_id) (s', answered false) _ _
          (delete_directory_recursive-Extends e fuel more le id s'))
      (b, p)
