-- ===== src/Merge/Waiting.antt =====
-- The tasks that grid/o9mutmerge.c waits for, while it merges results and while it reads the manifest.
use objective_9c.Prelude.{
  ◌≡◌, refl, ap, ◌∙◌, List, [], ◌∷◌, Option, some, none, Bool, true, false, not, arith, Bytes,
  bytes_eq, codes, length, if_ind, inl, inr, Bool-cases,
}
use objective_9c.Merge.{
  nhash, Chain, Merge, Entry, Node, result_file, subdir, Dir, unreadable, listed, Nodes, end, more,
  put, new_entry, hstr, lookup, lookup_create, find_entry, mark_seen, read_line, read_lines,
  read_manifest, add_malformed, add_unexpected, add_again, add_first, merge_known, merge_row,
  is_tab, child, merge_file, merge_node, merge_results, merge_nodes, merge_root, merge_roots, start,
}
use objective_9c.Merge.Rows.{field, same_result, second_line, before_byte, tab_byte}
use objective_9c.Merge.Tasks.{has_text, row_id, ids_in, ids_under, ids_among, root_ids, result_ids}
use objective_9c.Merge.Seen.{known, waits, AllPlaced}
use objective_9c.Merge.Results.{Merged, Merged-none, Merged-one, Merged-both, first-Merged}

known-Merged :
    (m : Merge) (o : Option Entry) (id row root file : Bytes)
    → AllPlaced m
    → lookup m id ≡ o
    → Merged m (merge_known m o id row root file) (id ∷ [])
unfolding merge_known add_unexpected add_again
known-Merged m none id row root file placed at_id =
    Merged-one m (add_unexpected m id file) id placed refl refl (ap waits at_id)
known-Merged m (some e) id row root file placed at_id =
    if_ind (λ m'. Merged m m' (id ∷ [])) e.seen (add_again (same_result e.row row) m e id row file)
      (add_first m id row root file)
      (λ seen. again (same_result e.row row) (ap waits at_id ∙ ap not seen))
      (λ fresh. first-Merged m id row root file placed)
  where
    again :
        (b : Bool) → waits (lookup m id) ≡ false → Merged m (add_again b m e id row file) (id ∷ [])
    again true idle = Merged-one m (add_again true m e id row file) id placed refl refl idle
    again false idle = Merged-one m (add_again false m e id row file) id placed refl refl idle

row-Merged :
    (m : Merge) (row : Option Bytes) (root file : Bytes)
    → AllPlaced m
    → Merged m (merge_row m row root file) (row_id row)
unfolding merge_row add_malformed add_unexpected
row-Merged m none root file placed =
    Merged-none m (add_malformed m file (codes "empty_or_missing_result_row")) placed refl refl
row-Merged m (some []) root file placed =
    unfold field objective_9c.Merge.Rows.behind_tabs before_byte bytes_eq in
    Merged-none m (add_malformed m file (codes "empty_or_missing_result_row")) placed refl refl
row-Merged m (some (c ∷ s)) root file placed =
    let id = field (c ∷ s) 1 512 in
    elim (Bool-cases (bytes_eq id [])) [
      | inl nameless ↦
          simp nameless (Merged-none m (add_unexpected m (codes "-") file) placed refl refl)
      | inr named ↦ simp named (known-Merged m (lookup m id) id (c ∷ s) root file placed refl)
    ]

mutual
  unfolding merge_node merge_file merge_results merge_nodes add_malformed

  node-Merged :
      (m : Merge) (root dir : Bytes) (n : Node)
      → AllPlaced m
      → Merged m (merge_node m root dir n) (ids_in n)
  node-Merged m root dir (result_file name text) placed = elim (Bool-cases (is_tab name)) [
    | inl result ↦ simp result (row-Merged m (second_line text) root (child dir name) placed)
    | inr other ↦ simp other (Merged-none m m placed refl refl)
  ]
  node-Merged m root dir (subdir name d) placed = dir-Merged m root (child dir name) d placed

  dir-Merged :
      (m : Merge) (root dir : Bytes) (d : Dir)
      → AllPlaced m
      → Merged m (merge_results m root dir d) (ids_under d)
  dir-Merged m root dir unreadable placed =
      Merged-none m (add_malformed m root (codes "missing_results_dir")) placed refl refl
  dir-Merged m root dir (listed ns) placed = nodes-Merged m root dir ns placed

  nodes-Merged :
      (m : Merge) (root dir : Bytes) (ns : Nodes)
      → AllPlaced m
      → Merged m (merge_nodes m root dir ns) (ids_among ns)
  nodes-Merged m root dir end placed = Merged-none m m placed refl refl
  nodes-Merged m root dir (more n ns) placed =
      let first = node-Merged m root dir n placed in
      Merged-both m (merge_node m root dir n) (merge_nodes (merge_node m root dir n) root dir ns)
        (ids_in n) (ids_among ns) first
        (nodes-Merged (merge_node m root dir n) root dir ns first.placed)

root-Merged :
    (m : Merge) (root : Bytes) (results : Option Dir) (itself : Dir)
    → AllPlaced m
    → Merged m (merge_root m root results itself) (root_ids results itself)
unfolding merge_root
root-Merged m root none itself placed = dir-Merged m root root itself placed
root-Merged m root (some d) itself placed = dir-Merged m root _ d placed

pub roots-Merged :
    (m : Merge) (rs : List (Bytes × Option Dir × Dir))
    → AllPlaced m
    → Merged m (merge_roots m rs) (result_ids rs)
unfolding merge_roots
roots-Merged m [] placed = Merged-none m m placed refl refl
roots-Merged m ((root, results, itself) ∷ rs) placed =
    let first = root-Merged m root results itself placed in
    Merged-both m (merge_root m root results itself)
      (merge_roots (merge_root m root results itself) rs) (root_ids results itself) (result_ids rs)
      first (roots-Merged (merge_root m root results itself) rs first.placed)

-- The manifest has been read so far: these are the tasks, and all of them wait.
pub record IsRead (m : Merge) (ts : List Bytes) : Type 0 where
  pub placed : AllPlaced m
  pub knows : (x : Bytes) → known (lookup m x) ≡ has_text x ts
  pub waiting : (x : Bytes) → waits (lookup m x) ≡ has_text x ts
  pub counted : m.manifest_total ≡ length ts

pub start-IsRead : IsRead start []
unfolding start lookup find_entry
start-IsRead = record {
  placed = λ h. omega arith;
  knows = λ x. refl;
  waiting = λ x. refl;
  counted = refl;
}
