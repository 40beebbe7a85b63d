-- ===== src/FileTree/Mounts.antt =====
-- The sources and the mounts of o9_filetree.c: registration, lookup through mounts, and the
-- application of mount specs (o9_filetree_apply_specs), with o9_filetree_destroy.
use objective_9c.Prelude.{
  ℕ, zero, suc, List, [], ◌∷◌, ◌++◌, map, Option, some, none, Bool, true, false, ◌&&◌, ◌||◌, not,
  ◌==◌, ltb, if◌then◌else◌, Bytes, bytes_eq, codes,
}
use objective_9c.FileTree.{
  Mount, Entry, FileTree, Source, Store, name_ok, is_dir, entry_in, tree_in, find, update, put_tree,
  owned,
}
use objective_9c.FileTree.Entries.{split_path, is_relative}

abbrev pub has_byte : ℕ → Bytes → Bool
has_byte b [] = false
has_byte b (c ∷ s) = c == b || has_byte b s

unfoldable pub is_registered : List Source → Bytes → Bool
is_registered [] id = false
is_registered (x ∷ xs) id = bytes_eq x.id id || is_registered xs id

unfoldable pub register_to : ℕ → Store → ℕ → Bytes → Option FileTree → Store × Bool
register_to self s a id none = (s, false)
register_to self s a id (some t) =
    if owned self t
      && (name_ok id
          && (not (has_byte b'!' id)
              && (not (has_byte b':' id) && not (is_registered s.sources id))))
    then (record s { sources = record { id = id; tree = a } ∷ s.sources }, true)
    else (s, false)

-- o9_filetree_register
unfoldable pub filetree_register : ℕ → Store → ℕ → Bytes → Store × Bool
filetree_register self s a id = register_to self s a id (tree_in s.trees a)

abbrev pub alive_of : Option FileTree → Bool
alive_of none = false
alive_of (some t) = t.alive

abbrev pub is_alive : Store → ℕ → Bool
is_alive s a = alive_of (tree_in s.trees a)

-- ft_resolve, on the list of sources
unfoldable pub resolve_from : Store → List Source → Bytes → Option ℕ
resolve_from s [] id = none
resolve_from s (x ∷ xs) id =
    let rest = resolve_from s xs id in
    if bytes_eq x.id id && is_alive s x.tree then some x.tree else rest

unfoldable pub resolve : Store → Bytes → Option ℕ
resolve s id = resolve_from s s.sources id

abbrev pub replaces : List Mount → Bool
replaces [] = false
replaces (m ∷ ms) = m.mode == 0 || replaces ms

-- What the first of the mounts whose mode passes a test gives.
abbrev pub first_mount : (ℕ → Bool) → (Mount → Option (ℕ × Entry)) → List Mount → Option (ℕ × Entry)
first_mount test f [] = none
first_mount test f (m ∷ ms) =
    let rest = first_mount test f ms in
    if test m.mode then elim (f m) [ none ↦ rest | some r ↦ some r ] else rest

abbrev pub or_else : Option (ℕ × Entry) → Option (ℕ × Entry) → Option (ℕ × Entry)
or_else none y = y
or_else (some r) y = some r

abbrev pub root_of : Store → ℕ → Option (ℕ × Entry)
root_of s a = elim (tree_in s.trees a) [
  | none ↦ none
  | some t ↦ elim (entry_in t.all t.root) [ none ↦ none | some r ↦ some (a, r) ]
]

-- the entry of the directory itself, if no mount replaces it
abbrev pub own_entry : FileTree → ℕ → Entry → Bytes → Option (ℕ × Entry)
own_entry t a d name =
    if replaces d.mounts then none else elim (find t d name) [ none ↦ none | some e ↦ some (a, e) ]

-- ft_lookup_mount in 65 - depth rounds: an entry with the address of its tree
unfoldable pub lookup_mount : ℕ → Store → Bytes → Option (ℕ × Entry) → Option (ℕ × Entry)
lookup_mount zero s name d = none
lookup_mount (suc rounds) s name none = none
lookup_mount (suc rounds) s name (some (a, d)) =
    let inner : Mount → Option (ℕ × Entry) = λ m. lookup_mount rounds s name (root_of s m.source) in
    elim (tree_in s.trees a) [
      | none ↦ none
      | some t ↦
          if is_dir d.kind && (not d.removed && t.alive)
          then or_else (first_mount (λ mode. mode == 0 || mode == 1) inner d.mounts)
              (or_else (own_entry t a d name) (first_mount (λ mode. mode == 2) inner d.mounts))
          else none
    ]

-- o9_filetree_lookup
unfoldable pub filetree_lookup : Store → ℕ → Option (ℕ × Entry) → Bytes → Option (ℕ × Entry)
filetree_lookup s a d name = if is_alive s a then lookup_mount 65 s name d else none

-- an entry of a tree, and the mounts planned for it
pub record Plan : Type 0 where
  pub tree : ℕ
  pub target : ℕ
  pub mounts : List Mount

unfoldable pub plan_for : List Plan → ℕ → ℕ → Option (List Mount)
plan_for [] a i = none
plan_for (p ∷ ps) a i =
    let rest = plan_for ps a i in if p.tree == a && p.target == i then some p.mounts else rest

abbrev pub set_plan : List Plan → ℕ → ℕ → List Mount → List Plan
set_plan [] a i ms = []
set_plan (p ∷ ps) a i ms =
    let rest = set_plan ps a i ms in
    if p.tree == a && p.target == i then record p { mounts = ms } ∷ ps else p ∷ rest

-- O9FTMountSpec; a mode is an int, as its 32 bits
pub record Spec : Type 0 where
  pub target : Bytes
  pub source : Option Bytes
  pub mode : ℕ
  pub unmount : Bool

unfoldable pub target_from : FileTree → Entry → Bytes → List Bytes → Option Entry
target_from t d name [] =
    if name_ok name
    then elim (find t d name) [ none ↦ none | some e ↦ if is_dir e.kind then some e else none ]
    else none
target_from t d name (n ∷ ns) =
    if name_ok name
    then elim (find t d name) [
      | none ↦ none
      | some e ↦ let rest = target_from t e n ns in if is_dir e.kind then rest else none
    ]
    else none

-- ft_target
unfoldable pub target_of : FileTree → Bytes → Option Entry
target_of t path = elim (entry_in t.all t.root) [
  | none ↦ none
  | some r ↦
      if not (is_relative path)
      then none
      else if bytes_eq path (codes ".")
      then some r
      else target_from t r (split_path path).0 (split_path path).1
]

abbrev pub with_mount : List Mount → Mount → List Mount
with_mount ms m = if m.mode == 0 then m ∷ [] else if m.mode == 1 then m ∷ ms else ms ++ m ∷ []

-- the mounts that a spec makes of those planned so far
unfoldable pub spec_mounts : Store → Spec → List Mount → Option (List Mount)
spec_mounts s x ms = if x.unmount then some [] else if ltb 2 x.mode then none else elim x.source [
  | none ↦ none
  | some id ↦ elim (resolve s id) [
    | none ↦ none
    | some b ↦ some (with_mount ms (record { source = b; mode = x.mode }))
  ]
]

abbrev pub planned : List Plan → ℕ → ℕ → Option (List Mount) → Bool → Option (List Plan)
planned ps a i none known = none
planned ps a i (some ms) true = some (set_plan ps a i ms)
planned ps a i (some ms) false = some (record { tree = a; target = i; mounts = ms } ∷ ps)

-- one spec
unfoldable pub plan_spec : Store → ℕ → FileTree → List Plan → Spec → Option (List Plan)
plan_spec s a t ps x = elim (target_of t x.target) [
  | none ↦ none
  | some e ↦ elim (plan_for ps a e.id) [
    | none ↦ planned ps a e.id (spec_mounts s x e.mounts) false
    | some ms ↦ planned ps a e.id (spec_mounts s x ms) true
  ]
]

unfoldable pub plan_specs : Store → ℕ → FileTree → List Plan → List Spec → Option (List Plan)
plan_specs s a t ps [] = some ps
plan_specs s a t ps (x ∷ xs) = elim (plan_spec s a t ps x) [
  | none ↦ none
  | some qs ↦ plan_specs s a t qs xs
]

abbrev pub sources_of : List Mount → List ℕ
sources_of ms = map (λ m. m.source) ms

-- the trees mounted in entries of tree `a` that are not removed, under plans
unfoldable pub mounted : List Plan → ℕ → List Entry → List ℕ
mounted ps a [] = []
mounted ps a (e ∷ es) =
    let rest = mounted ps a es in
    if e.removed then rest else elim (plan_for ps a e.id) [
      | none ↦ sources_of e.mounts ++ rest
      | some ms ↦ sources_of ms ++ rest
    ]

abbrev pub mounted_of : List Plan → ℕ → Option FileTree → List ℕ
mounted_of ps a none = []
mounted_of ps a (some t) = mounted ps a t.all

unfoldable pub mounted_in : List Plan → Store → ℕ → List ℕ
mounted_in ps s a = mounted_of ps a (tree_in s.trees a)

abbrev pub member : ℕ → List ℕ → Bool
member a [] = false
member a (b ∷ bs) = b == a || member a bs

abbrev pub any_of : (ℕ → Bool) → List ℕ → Bool
any_of f [] = false
any_of f (a ∷ bs) = f a || any_of f bs

-- ft_reaches in 256 - nseen rounds
unfoldable pub reaches : ℕ → Store → ℕ → List Plan → List ℕ → ℕ → Bool
reaches zero s goal ps seen a = true
reaches (suc rounds) s goal ps seen a =
    let deeper = any_of (λ b. reaches rounds s goal ps (a ∷ seen) b) (mounted_in ps s a) in
    if a == goal then true else if member a seen then false else deeper

unfoldable pub plans_reach : Store → ℕ → List Plan → List Plan → Bool
plans_reach s goal ps [] = false
plans_reach s goal ps (q ∷ qs) =
    any_of (λ b. reaches 256 s goal ps [] b) (sources_of q.mounts) || plans_reach s goal ps qs

abbrev pub set_mounts : List Mount → Entry → Entry
set_mounts ms e = record e { mounts = ms }

unfoldable pub commit : List Entry → List Plan → List Entry
commit es [] = es
commit es (p ∷ ps) = commit (update es p.target (set_mounts p.mounts)) ps

-- the mounts of all plans are put in place, unless one of them leads back to the tree
unfoldable pub apply_plans : Store → ℕ → FileTree → Option (List Plan) → Store × Bool
apply_plans s a t none = (s, false)
apply_plans s a t (some ps) =
    if plans_reach s a ps ps
    then (s, false)
    else (record s { trees = put_tree s.trees a (record t { all = commit t.all ps }) }, true)

unfoldable pub apply_to : ℕ → Store → ℕ → List Spec → Option FileTree → Store × Bool
apply_to self s a xs none = (s, false)
apply_to self s a xs (some t) =
    if owned self t then apply_plans s a t (plan_specs s a t [] xs) else (s, false)

-- o9_filetree_apply_specs
unfoldable pub filetree_apply_specs : ℕ → Store → ℕ → List Spec → Store × Bool
filetree_apply_specs self s a xs = apply_to self s a xs (tree_in s.trees a)

abbrev pub names_tree : List Source → ℕ → Bool
names_tree [] a = false
names_tree (x ∷ xs) a = x.tree == a || names_tree xs a

-- whether a mount of an entry, removed or not, has a source
unfoldable pub mounts_of_all : List Entry → List ℕ
mounts_of_all [] = []
mounts_of_all (e ∷ es) = sources_of e.mounts ++ mounts_of_all es

unfoldable pub mounted_elsewhere : List (ℕ × FileTree) → ℕ → Bool
mounted_elsewhere [] a = false
mounted_elsewhere ((b, t) ∷ ts) a =
    (not (b == a) && member a (mounts_of_all t.all)) || mounted_elsewhere ts a

unfoldable pub without_tree : List (ℕ × FileTree) → ℕ → List (ℕ × FileTree)
without_tree [] a = []
without_tree ((b, t) ∷ ts) a = let rest = without_tree ts a in if b == a then ts else (b, t) ∷ rest

unfoldable pub destroy_to : ℕ → Store → ℕ → Option FileTree → Store × Bool
destroy_to self s a none = (s, false)
destroy_to self s a (some t) =
    if not (t.owner == self) || (t.alive || (names_tree s.sources a || mounted_elsewhere s.trees a))
    then (s, false)
    else (record s { trees = without_tree s.trees a }, true)

-- o9_filetree_destroy
unfoldable pub filetree_destroy : ℕ → Store → ℕ → Store × Bool
filetree_destroy self s a = destroy_to self s a (tree_in s.trees a)
