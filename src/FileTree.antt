-- ===== src/FileTree.antt =====
-- File trees: o9_filetree.c. A tree of directories, texts and live files that one actor owns and others
-- mount into theirs. Addresses are numbers; an entry has its id for its address in its tree (ft_id
-- counts to 2 ^ 64, which no run reaches). The trees in use are those of the list ft_trees; an operation
-- on another address fails. Paths and names are texts without a nul. Every function holds
-- ft_mount_lock, so it is one step. Memory does not run out; the counts of references are left out.
pub mod Entries
pub mod Mounts
pub mod Reaches
pub mod Acyclic
pub mod Shown
pub mod Apply
pub mod Held
pub mod Found
pub mod Planned
pub mod System
pub mod Steps
pub mod Lifetime
pub mod History
pub mod Listing
pub mod Grown
pub mod Listed
pub mod Complete
pub mod Tests
use objective_9c.Prelude.{
  ℕ, zero, suc, ◌+◌, ◌*◌, ◌%◌, ◌^◌, List, [], ◌∷◌, Option, some, none, Bool, true, false, ◌&&◌,
  ◌||◌, not, ◌==◌, ltb, leb, if◌then◌else◌, Bytes, bytes_eq, codes,
}
use Prim.Native.Nat.{bit_xor}

pub data Kind : Type 0 where
  dir text live : Kind

pub record Mount : Type 0 where
  pub source : ℕ
  pub mode : ℕ

pub record Entry : Type 0 where
  pub name : Bytes
  pub id : ℕ
  pub kind : Kind
  pub writable : Bool
  pub removed : Bool
  pub content : Option Bytes
  pub mounts : List Mount
  pub parent : Option ℕ
  pub buckets : ℕ → List ℕ

pub record FileTree : Type 0 where
  pub owner : ℕ
  pub alive : Bool
  pub root : ℕ
  pub all : List Entry

pub record Source : Type 0 where
  pub id : Bytes
  pub tree : ℕ

-- ft_trees, ft_sources and ft_next_id, and the next address of a tree
pub record Store : Type 0 where
  pub trees : List (ℕ × FileTree)
  pub sources : List Source
  pub next_id : ℕ
  pub next_tree : ℕ

unfoldable pub bucket_from : ℕ → Bytes → ℕ
bucket_from h [] = h
bucket_from h (c ∷ s) = bucket_from ((bit_xor h c * 16777619) % 2 ^ 32) s

unfoldable pub bucket : Bytes → ℕ
bucket name = bucket_from 2166136261 name % 64

unfoldable pub has_bad_byte : Bytes → Bool
has_bad_byte [] = false
has_bad_byte (c ∷ s) = c == b'/' || (ltb c b' ' || (c == 127 || has_bad_byte s))

unfoldable pub name_ok : Bytes → Bool
name_ok name =
    not (bytes_eq name [])
    && (not (bytes_eq name (codes "."))
        && (not (bytes_eq name (codes "..")) && not (has_bad_byte name)))

abbrev pub is_dir : Kind → Bool
is_dir dir = true
is_dir text = false
is_dir live = false

abbrev pub entry_in : List Entry → ℕ → Option Entry
entry_in [] i = none
entry_in (e ∷ es) i = let rest = entry_in es i in if e.id == i then some e else rest

abbrev pub tree_in : List (ℕ × FileTree) → ℕ → Option FileTree
tree_in [] a = none
tree_in ((b, t) ∷ ts) a = let rest = tree_in ts a in if b == a then some t else rest

-- the entry of a chain of a directory that has a name
unfoldable pub find_chain : FileTree → List ℕ → Bytes → Option Entry
find_chain t [] name = none
find_chain t (i ∷ is) name =
    let rest = find_chain t is name in
    elim (entry_in t.all i) [
      | none ↦ rest
      | some e ↦ if not e.removed && bytes_eq e.name name then some e else rest
    ]

unfoldable pub find : FileTree → Entry → Bytes → Option Entry
find t d name = if is_dir d.kind then find_chain t (d.buckets (bucket name)) name else none

abbrev pub update : List Entry → ℕ → (Entry → Entry) → List Entry
update [] i f = []
update (e ∷ es) i f = (if e.id == i then f e else e) ∷ update es i f

-- A write to a tree that is in use.
abbrev pub put_tree : List (ℕ × FileTree) → ℕ → FileTree → List (ℕ × FileTree)
put_tree [] a t = []
put_tree ((b, u) ∷ ts) a t = (b, if b == a then t else u) ∷ put_tree ts a t

abbrev pub push_bucket : Bytes → ℕ → Entry → Entry
push_bucket name i d = record d {
  buckets = λ h. if h == bucket name then i ∷ d.buckets h else d.buckets h;
}

unfoldable pub new_entry : ℕ → Option ℕ → Bytes → Kind → Option Bytes → Bool → Entry
new_entry i parent name kind content writable = record {
  name = name;
  id = i;
  kind = kind;
  writable = writable;
  removed = false;
  content = content;
  mounts = [];
  parent = parent;
  buckets = λ h. [];
}

-- ft_entry with a parent
unfoldable pub add_entry : FileTree → ℕ → ℕ → Bytes → Kind → Option Bytes → Bool → FileTree
add_entry t i parent name kind content writable = record t {
  all =
      update (new_entry i (some parent) name kind content writable ∷ t.all) parent
        (push_bucket name i);
}

unfoldable pub owned : ℕ → FileTree → Bool
owned self t = t.alive && t.owner == self

-- o9_filetree_new: the address of the tree
unfoldable pub filetree_new : ℕ → Store → Store × ℕ
filetree_new self s = (
  record s {
    trees =
        (
          s.next_tree,
          record {
            owner = self;
            alive = true;
            root = s.next_id;
            all = new_entry s.next_id none (codes ".") dir none false ∷ [];
          },
        )
        ∷ s.trees;
    next_id = s.next_id + 1;
    next_tree = s.next_tree + 1;
  },
  s.next_tree,
)
