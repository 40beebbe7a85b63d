-- ===== src/FileTree/Entries.antt =====
-- What the owner of a file tree does in o9_filetree.c: its directories and files written and removed,
-- and its end.
use objective_9c.Prelude.{
  ℕ, zero, suc, ◌+◌, List, [], ◌∷◌, Option, some, none, Bool, true, false, ◌&&◌, not, ◌==◌,
  if◌then◌else◌, Bytes,
}
use objective_9c.FileTree.{
  Kind, dir, text, live, Entry, FileTree, Source, Store, bucket, name_ok, is_dir, entry_in, tree_in,
  find, update, put_tree, add_entry, owned,
}

-- a path cut at its slashes: the first name and the others
unfoldable pub split_path : Bytes → Bytes × List Bytes
split_path [] = ([], [])
split_path (c ∷ s) =
    let (name, names) = split_path s in if c == b'/' then ([], name ∷ names) else (c ∷ name, names)

-- the parent and the last name, from a directory on
unfoldable pub parent_from : FileTree → Entry → Bytes → List Bytes → Option (Entry × Bytes)
parent_from t d name [] = if name_ok name then some (d, name) else none
parent_from t d name (n ∷ ns) =
    if name_ok name
    then elim (find t d name) [
      | none ↦ none
      | some e ↦ let rest = parent_from t e n ns in if is_dir e.kind then rest else none
    ]
    else none

abbrev pub is_relative : Bytes → Bool
is_relative [] = false
is_relative (c ∷ s) = not (c == b'/')

unfoldable pub parent_of : FileTree → Bytes → Option (Entry × Bytes)
parent_of t path =
    if is_relative path
    then elim (entry_in t.all t.root) [
      | none ↦ none
      | some r ↦ parent_from t r (split_path path).0 (split_path path).1
    ]
    else none

abbrev pub same_kind : Kind → Kind → Bool
same_kind dir dir = true
same_kind text text = true
same_kind live live = true
same_kind _ _ = false

abbrev pub put_existing : FileTree → ℕ → Entry → Kind → Option Bytes → Bool → Option (FileTree × ℕ)
put_existing t i e kind content writable =
    if same_kind e.kind kind
    then if is_dir kind
      then some (t, i)
      else some (
        record t {
          all = update t.all e.id (λ d. record d { content = content; writable = writable });
        },
        i,
      )
    else none

-- what ft_put does to a tree in use, with the next id, before and after
unfoldable pub put_in : FileTree → ℕ → Bytes → Kind → Option Bytes → Bool → Option (FileTree × ℕ)
put_in t i path kind content writable = elim (parent_of t path) [
  | none ↦ none
  | some (d, leaf) ↦ elim (find t d leaf) [
    | none ↦ some (add_entry t i d.id leaf kind content writable, i + 1)
    | some e ↦ put_existing t i e kind content writable
  ]
]

abbrev pub lacks_text : Kind → Option Bytes → Bool
lacks_text text none = true
lacks_text _ _ = false

-- A store and whether the operation succeeds.
abbrev pub stored : Store → ℕ → Option (FileTree × ℕ) → Store × Bool
stored s a none = (s, false)
stored s a (some (t, i)) = (record s { trees = put_tree s.trees a t; next_id = i }, true)

-- ft_put, on the tree at an address
unfoldable pub put_to :
    ℕ → Store → ℕ → Bytes → Kind → Option Bytes → Bool → Option FileTree → Store × Bool
put_to self s a path kind content writable none = (s, false)
put_to self s a path kind content writable (some t) =
    if owned self t && not (lacks_text kind content)
    then stored s a (put_in t s.next_id path kind content writable)
    else (s, false)

unfoldable pub put : ℕ → Store → ℕ → Bytes → Kind → Option Bytes → Bool → Store × Bool
put self s a path kind content writable =
    put_to self s a path kind content writable (tree_in s.trees a)

unfoldable pub filetree_dir : ℕ → Store → ℕ → Bytes → Store × Bool
filetree_dir self s a path = put self s a path dir none false

unfoldable pub filetree_text : ℕ → Store → ℕ → Bytes → Option Bytes → Bool → Store × Bool
filetree_text self s a path content writable = put self s a path text content writable

unfoldable pub filetree_live : ℕ → Store → ℕ → Bytes → Bool → Store × Bool
filetree_live self s a path writable = put self s a path live none writable

unfoldable pub all_empty : ℕ → (ℕ → List ℕ) → Bool
all_empty zero buckets = true
all_empty (suc n) buckets = elim (buckets n) [ [] ↦ all_empty n buckets | _ ∷ _ ↦ false ]

-- a chain without its first entry `i`
unfoldable pub unlink : List ℕ → ℕ → List ℕ
unlink [] i = []
unlink (j ∷ js) i = let rest = unlink js i in if j == i then js else j ∷ rest

abbrev pub drop_bucket : Bytes → ℕ → Entry → Entry
drop_bucket name i d = record d {
  buckets = λ h. if h == bucket name then unlink (d.buckets h) i else d.buckets h;
}

abbrev pub mark_removed : Entry → Entry
mark_removed e = record e { removed = true }

unfoldable pub remove_in : FileTree → ℕ → Bytes → Option (FileTree × ℕ)
remove_in t i path = elim (parent_of t path) [
  | none ↦ none
  | some (d, leaf) ↦ elim (find t d leaf) [
    | none ↦ none
    | some e ↦
        if all_empty 64 e.buckets
        then some (
          record t { all = update (update t.all d.id (drop_bucket leaf e.id)) e.id mark_removed },
          i,
        )
        else none
  ]
]

unfoldable pub remove_to : ℕ → Store → ℕ → Bytes → Option FileTree → Store × Bool
remove_to self s a path none = (s, false)
remove_to self s a path (some t) =
    if owned self t then stored s a (remove_in t s.next_id path) else (s, false)

-- o9_filetree_remove
unfoldable pub filetree_remove : ℕ → Store → ℕ → Bytes → Store × Bool
filetree_remove self s a path = remove_to self s a path (tree_in s.trees a)

unfoldable pub without_source : List Source → ℕ → List Source
without_source [] a = []
without_source (x ∷ xs) a = let rest = without_source xs a in if x.tree == a then rest else x ∷ rest

unfoldable pub revoke_to : Store → ℕ → Option FileTree → Store
revoke_to s a none = s
revoke_to s a (some t) = record s {
  trees = put_tree s.trees a (record t { alive = false });
  sources = without_source s.sources a;
}

-- o9_filetree_revoke
unfoldable pub filetree_revoke : Store → ℕ → Store
filetree_revoke s a = revoke_to s a (tree_in s.trees a)

unfoldable pub close_to : ℕ → Store → ℕ → Option FileTree → Store
close_to self s a none = s
close_to self s a (some t) = if owned self t then filetree_revoke s a else s

-- o9_filetree_close
unfoldable pub filetree_close : ℕ → Store → ℕ → Store
filetree_close self s a = close_to self s a (tree_in s.trees a)
