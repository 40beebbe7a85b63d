-- ===== src/Merge/Classes.antt =====
-- Every result is counted in one class: the totals of grid/o9mutmerge.c and the trees of results.
use objective_9c.Prelude.{
  ℕ, ◌+◌, ◌≡◌, List, [], ◌∷◌, Option, some, none, Bool, true, false, if◌then◌else◌, arith, Bytes,
  Bool-cases, inl, inr, bytes_eq, codes, if_ind,
}
use objective_9c.Merge.{
  Merge, Entry, Node, result_file, subdir, Dir, unreadable, listed, Nodes, end, more, add_malformed,
  add_unexpected, add_again, add_first, merge_known, merge_row, is_tab, child, merge_file,
  merge_node, merge_results, merge_nodes, merge_root, merge_roots, lookup,
}
use objective_9c.Merge.Rows.{field, same_result, second_line}

-- the results in all classes
abbrev pub handled : Merge → ℕ
handled m =
    m.deduped_total
    + (m.duplicate_total + (m.conflict_total + (m.unexpected_total + m.malformed_total)))

-- the files of a tree that are named as results, and its directories that cannot be opened
abbrev mutual
  results_in : Node → ℕ
  results_in (result_file name text) = if is_tab name then 1 else 0
  results_in (subdir name d) = results_under d

  pub results_under : Dir → ℕ
  results_under unreadable = 1
  results_under (listed ns) = results_among ns

  results_among : Nodes → ℕ
  results_among end = 0
  results_among (more n ns) = results_in n + results_among ns

-- of the directory that a root stands for
abbrev root_results : Option Dir → Dir → ℕ
root_results (some results) itself = results_under results
root_results none itself = results_under itself

abbrev pub results_of : List (Bytes × Option Dir × Dir) → ℕ
results_of [] = 0
results_of ((root, results, itself) ∷ rs) = root_results results itself + results_of rs

malformed-handled :
    (m : Merge) (file reason : Bytes) → handled (add_malformed m file reason) ≡ handled m + 1
unfolding add_malformed
malformed-handled m file reason = omega arith

unexpected-handled :
    (m : Merge) (id file : Bytes) → handled (add_unexpected m id file) ≡ handled m + 1
unfolding add_unexpected
unexpected-handled m id file = omega arith

again-handled :
    (b : Bool) (m : Merge) (e : Entry) (id row file : Bytes)
    → handled (add_again b m e id row file) ≡ handled m + 1
unfolding add_again
again-handled true m e id row file = omega arith
again-handled false m e id row file = omega arith

first-handled :
    (m : Merge) (id row root file : Bytes) → handled (add_first m id row root file) ≡ handled m + 1
unfolding add_first
first-handled m id row root file = omega arith

known-handled :
    (m : Merge) (o : Option Entry) (id row root file : Bytes)
    → handled (merge_known m o id row root file) ≡ handled m + 1
unfolding merge_known
known-handled m none id row root file = unexpected-handled m id file
known-handled m (some e) id row root file =
    if_ind (λ z. handled z ≡ handled m + 1) e.seen _ _
      (λ seen. again-handled (same_result e.row row) m e id row file)
      (λ fresh. first-handled m id row root file)

row-handled :
    (m : Merge) (row : Option Bytes) (root file : Bytes)
    → handled (merge_row m row root file) ≡ handled m + 1
unfolding merge_row
row-handled m none root file = malformed-handled m file (codes "empty_or_missing_result_row")
row-handled m (some []) root file = malformed-handled m file (codes "empty_or_missing_result_row")
row-handled m (some (c ∷ s)) root file =
    let id = field (c ∷ s) 1 512 in
    elim (Bool-cases (bytes_eq id [])) [
      | inl nameless ↦ rw nameless (unexpected-handled m (codes "-") file)
      | inr named ↦ rw named (known-handled m (lookup m id) id (c ∷ s) root file)
    ]

mutual
  unfolding merge_node merge_file merge_results merge_nodes

  node-handled :
      (m : Merge) (root dir : Bytes) (n : Node)
      → handled (merge_node m root dir n) ≡ handled m + results_in n
  node-handled m root dir (result_file name text) = elim (Bool-cases (is_tab name)) [
    | inl result ↦ rw result (row-handled m (second_line text) root (child dir name))
    | inr other ↦ rw other (omega arith)
  ]
  node-handled m root dir (subdir name d) = dir-handled m root (child dir name) d

  dir-handled :
      (m : Merge) (root dir : Bytes) (d : Dir)
      → handled (merge_results m root dir d) ≡ handled m + results_under d
  dir-handled m root dir unreadable = malformed-handled m root (codes "missing_results_dir")
  dir-handled m root dir (listed ns) = nodes-handled m root dir ns

  nodes-handled :
      (m : Merge) (root dir : Bytes) (ns : Nodes)
      → handled (merge_nodes m root dir ns) ≡ handled m + results_among ns
  nodes-handled m root dir end = omega arith
  nodes-handled m root dir (more n ns) =
      omega (arith, node-handled m root dir n, nodes-handled (merge_node m root dir n) root dir ns)

root-handled :
    (m : Merge) (root : Bytes) (results : Option Dir) (itself : Dir)
    → handled (merge_root m root results itself) ≡ handled m + root_results results itself
unfolding merge_root
root-handled m root none itself = dir-handled m root root itself
root-handled m root (some d) itself = dir-handled m root _ d

-- Merging roots counts each file named as a result, and each directory that cannot be opened, in exactly
-- one of the classes: first results, duplicates, conflicts, unexpected and malformed.
pub merge_roots-handled :
    (m : Merge) (rs : List (Bytes × Option Dir × Dir))
    → handled (merge_roots m rs) ≡ handled m + results_of rs
unfolding merge_roots
merge_roots-handled m [] = omega arith
merge_roots-handled m ((root, results, itself) ∷ rs) = omega (
  arith,
  root-handled m root results itself,
  merge_roots-handled (merge_root m root results itself) rs,
)
