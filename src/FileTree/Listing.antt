-- ===== src/FileTree/Listing.antt =====
-- Listings of directories of o9_filetree.c, through mounts: ft_list_add, ft_collect and
-- o9_filetree_entries, with o9_filetree_data. An entry stands with the address of its tree.
use objective_9c.Prelude.{
  ℕ, zero, suc, ◌+◌, List, [], ◌∷◌, ◌++◌, Option, some, none, Bool, false, ◌&&◌, ◌||◌, not, ◌==◌,
  if◌then◌else◌, Bytes, bytes_eq,
}
use objective_9c.FileTree.{Store, Mount, Entry, FileTree, tree_in, entry_in, is_dir}
use objective_9c.FileTree.Mounts.{is_alive, replaces, root_of}

abbrev pub Listed : Type 0
Listed = List (ℕ × Entry)

abbrev pub has_name : Bytes → Listed → Bool
has_name n [] = false
has_name n ((a, e) ∷ es) = bytes_eq e.name n || has_name n es

-- ft_list_add
unfoldable pub list_add : Listed → ℕ × Entry → Listed
list_add es (a, e) = if has_name e.name es then es else es ++ (a, e) ∷ []

-- a chain of a directory
unfoldable pub add_chain : FileTree → ℕ → Listed → List ℕ → Listed
add_chain t a es [] = es
add_chain t a es (i ∷ is) = elim (entry_in t.all i) [
  | none ↦ add_chain t a es is
  | some e ↦ add_chain t a (list_add es (a, e)) is
]

-- its buckets from `i` on
unfoldable pub add_buckets : FileTree → ℕ → (ℕ → List ℕ) → ℕ → ℕ → Listed → Listed
add_buckets t a buckets zero i es = es
add_buckets t a buckets (suc n) i es =
    add_buckets t a buckets n (i + 1) (add_chain t a es (buckets i))

-- the mounts whose mode passes a test, one after the other, until one fails
unfoldable pub each_mount :
    (ℕ → Bool) → (Mount → Listed → Option Listed) → List Mount → Listed → Option Listed
each_mount test f [] es = some es
each_mount test f (m ∷ ms) es = elim (if test m.mode then f m es else some es) [
  | none ↦ none
  | some fs ↦ each_mount test f ms fs
]

abbrev pub then_list : Option Listed → (Listed → Option Listed) → Option Listed
then_list none f = none
then_list (some es) f = f es

abbrev pub own_entries : FileTree → ℕ → Entry → Listed → Listed
own_entries t a d es = if replaces d.mounts then es else add_buckets t a d.buckets 64 0 es

-- ft_collect in 65 - depth rounds
unfoldable pub collect : ℕ → Store → Option (ℕ × Entry) → Listed → Option Listed
collect zero s d es = none
collect (suc rounds) s none es = none
collect (suc rounds) s (some (a, d)) es =
    let inner : Mount → Listed → Option Listed = λ m fs. collect rounds s (root_of s m.source) fs in
    elim (tree_in s.trees a) [
      | none ↦ none
      | some t ↦
          if is_dir d.kind && (not d.removed && t.alive)
          then then_list (each_mount (λ mode. mode == 0 || mode == 1) inner d.mounts es)
              (λ fs. each_mount (λ mode. mode == 2) inner d.mounts (own_entries t a d fs))
          else none
    ]

-- o9_filetree_entries, for a directory that is there
unfoldable pub filetree_entries : Store → ℕ → ℕ × Entry → Option Listed
filetree_entries s a (b, d) =
    if is_dir d.kind && is_alive s a then collect 65 s (some (b, d)) [] else none

-- o9_filetree_data
unfoldable pub filetree_data : Store → ℕ → ℕ × Entry → Option Bytes
filetree_data s a (b, e) =
    if is_alive s a && (is_alive s b && not e.removed) then e.content else none
