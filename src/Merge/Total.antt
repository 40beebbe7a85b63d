-- ===== src/Merge/Total.antt =====
-- The totals of grid/o9mutmerge.c agree with its table, and with the list of missing results.
use objective_9c.Prelude.{
  not, ◌∙◌, ℕ, ◌+◌, ◌<◌, ◌≡◌, refl, List, [], ◌∷◌, Option, some, none, Bool, true, false, arith,
  Bytes, bytes_eq, codes, length, if_ind, ◌&&◌, ◌==◌, ◌↔◌,
}
use objective_9c.Merge.{
  nhash, Chain, Merge, Entry, Node, result_file, subdir, Dir, unreadable, listed, Nodes, end, more,
  put, new_entry, hstr, lookup, lookup_create, find_entry, mark_seen, read_line, read_lines,
  read_manifest, add_malformed, add_unexpected, add_again, add_first, merge_known, merge_row,
  is_tab, child, merge_file, merge_node, merge_results, merge_nodes, merge_root, merge_roots,
  write_missing, start, run, succeeds,
}
use objective_9c.Merge.Rows.{field, same_result, second_line, before_byte, tab_byte}
use objective_9c.Merge.Tasks.{has_text, tasks, result_ids}
use objective_9c.Merge.Missing.{missing_lem, total_lem}
use objective_9c.Merge.Count.{
  sum_from, entries, seen_in, sum_from_empty, sum_from-put, length-missing_from, length-mark_seen,
  seen-mark_seen,
}

-- The manifest's total is the number of entries, and the total of first results that of the entries
-- with one.
pub record IsCounted (m : Merge) : Type 0 where
  pub all : sum_from entries nhash m.tab 0 ≡ m.manifest_total
  pub seen : sum_from seen_in nhash m.tab 0 ≡ m.deduped_total

hstr_small : (s : Bytes) → hstr s < nhash
unfolding hstr
hstr_small s = omega arith

put_total :
    (w : Chain → ℕ) (tab : ℕ → Chain) (s : Bytes) (c : Chain)
    → sum_from w nhash (put tab (hstr s) c) 0 + w (tab (hstr s)) ≡ sum_from w nhash tab 0 + w c
put_total w tab s c = sum_from-put w nhash tab (hstr s) c 0 (omega arith) (hstr_small s)

pub start-IsCounted : IsCounted start
unfolding start
start-IsCounted = record {
  all = sum_from_empty entries nhash 0 refl;
  seen = sum_from_empty seen_in nhash 0 refl;
}

create-IsCounted : (m : Merge) (id : Bytes) → IsCounted m → IsCounted (lookup_create m id)
unfolding lookup_create new_entry
create-IsCounted m id v = go (find_entry (m.tab (hstr id)) id)
  where
    c : Chain
    c = m.tab (hstr id)

    go :
        (o : Option Entry)
        → IsCounted (elim o [
          | some e ↦ m
          | none ↦ record m {
            tab = put m.tab (hstr id) (new_entry id ∷ c);
            manifest_total = m.manifest_total + 1;
          }
        ])
    go (some e) = v
    go none = record {
      all = omega (arith, put_total entries m.tab id (new_entry id ∷ c), v.all);
      seen = omega (arith, put_total seen_in m.tab id (new_entry id ∷ c), v.seen);
    }

line-IsCounted : (m : Merge) (l : Bytes) → IsCounted m → IsCounted (read_line m l)
unfolding read_line
line-IsCounted m l v =
    let id = before_byte tab_byte (before_byte 0 l) in
    if_ind IsCounted (bytes_eq id []) m (lookup_create m id) (λ e. v) (λ e. create-IsCounted m id v)

lines-IsCounted : (m : Merge) (ls : List Bytes) → IsCounted m → IsCounted (read_lines m ls)
unfolding read_lines
lines-IsCounted m [] v = v
lines-IsCounted m (l ∷ ls) v = lines-IsCounted (read_line m l) ls (line-IsCounted m l v)

manifest-IsCounted : (m : Merge) (ls : List Bytes) → IsCounted m → IsCounted (read_manifest m ls)
unfolding read_manifest
manifest-IsCounted m [] v = v
manifest-IsCounted m (heading ∷ ls) v = lines-IsCounted m ls v

-- the classes but the first leave the table and the two totals
malformed-IsCounted :
    (m : Merge) (file reason : Bytes) → IsCounted m → IsCounted (add_malformed m file reason)
unfolding add_malformed
malformed-IsCounted m file reason v = record { all = v.all; seen = v.seen }

unexpected-IsCounted :
    (m : Merge) (id file : Bytes) → IsCounted m → IsCounted (add_unexpected m id file)
unfolding add_unexpected
unexpected-IsCounted m id file v = record { all = v.all; seen = v.seen }

again-IsCounted :
    (b : Bool) (m : Merge) (e : Entry) (id row file : Bytes)
    → IsCounted m
    → IsCounted (add_again b m e id row file)
unfolding add_again
again-IsCounted true m e id row file v = record { all = v.all; seen = v.seen }
again-IsCounted false m e id row file v = record { all = v.all; seen = v.seen }

first-IsCounted :
    (m : Merge) (e : Entry) (id row root file : Bytes)
    → lookup m id ≡ some e
    → e.seen ≡ false
    → IsCounted m
    → IsCounted (add_first m id row root file)
unfolding add_first lookup
first-IsCounted m e id row root file found fresh v =
    let c = m.tab (hstr id) in
    record {
      all = omega (
        arith,
        put_total entries m.tab id (mark_seen c id row file),
        length-mark_seen c id row file,
        v.all,
      );
      seen = omega (
        arith,
        put_total seen_in m.tab id (mark_seen c id row file),
        seen-mark_seen c id row file e found fresh,
        v.seen,
      );
    }

known-IsCounted :
    (m : Merge) (o : Option Entry) (id row root file : Bytes)
    → lookup m id ≡ o
    → IsCounted m
    → IsCounted (merge_known m o id row root file)
unfolding merge_known
known-IsCounted m none id row root file found v = unexpected-IsCounted m id file v
known-IsCounted m (some e) id row root file found v =
    if_ind IsCounted e.seen (add_again (same_result e.row row) m e id row file)
      (add_first m id row root file)
      (λ seen. again-IsCounted (same_result e.row row) m e id row file v)
      (λ fresh. first-IsCounted m e id row root file found fresh v)

row-IsCounted :
    (m : Merge) (row : Option Bytes) (root file : Bytes)
    → IsCounted m
    → IsCounted (merge_row m row root file)
unfolding merge_row
row-IsCounted m none root file v =
    malformed-IsCounted m file (codes "empty_or_missing_result_row") v
row-IsCounted m (some []) root file v =
    malformed-IsCounted m file (codes "empty_or_missing_result_row") v
row-IsCounted m (some (c ∷ s)) root file v =
    let id = field (c ∷ s) 1 512 in
    if_ind IsCounted (bytes_eq id []) (add_unexpected m (codes "-") file)
      (merge_known m (lookup m id) id (c ∷ s) root file)
      (λ nameless. unexpected-IsCounted m (codes "-") file v)
      (λ named. known-IsCounted m (lookup m id) id (c ∷ s) root file refl v)

mutual
  unfolding merge_node merge_file merge_results merge_nodes

  node-IsCounted :
      (m : Merge) (root dir : Bytes) (n : Node) → IsCounted m → IsCounted (merge_node m root dir n)
  node-IsCounted m root dir (result_file name text) v =
      if_ind IsCounted (is_tab name) (merge_row m (second_line text) root (child dir name)) m
        (λ result. row-IsCounted m (second_line text) root (child dir name) v) (λ other. v)
  node-IsCounted m root dir (subdir name d) v = dir-IsCounted m root (child dir name) d v

  dir-IsCounted :
      (m : Merge) (root dir : Bytes) (d : Dir)
      → IsCounted m
      → IsCounted (merge_results m root dir d)
  dir-IsCounted m root dir unreadable v = malformed-IsCounted m root (codes "missing_results_dir") v
  dir-IsCounted m root dir (listed ns) v = nodes-IsCounted m root dir ns v

  nodes-IsCounted :
      (m : Merge) (root dir : Bytes) (ns : Nodes)
      → IsCounted m
      → IsCounted (merge_nodes m root dir ns)
  nodes-IsCounted m root dir end v = v
  nodes-IsCounted m root dir (more n ns) v =
      nodes-IsCounted (merge_node m root dir n) root dir ns (node-IsCounted m root dir n v)

root-IsCounted :
    (m : Merge) (root : Bytes) (results : Option Dir) (itself : Dir)
    → IsCounted m
    → IsCounted (merge_root m root results itself)
unfolding merge_root
root-IsCounted m root none itself v = dir-IsCounted m root root itself v
root-IsCounted m root (some d) itself v = dir-IsCounted m root _ d v

-- Merging roots keeps the totals in agreement with the table: the manifest's total is the number of its
-- entries, and the total of first results the number of entries that are seen.
pub merge_roots-IsCounted :
    (m : Merge) (rs : List (Bytes × Option Dir × Dir)) → IsCounted m → IsCounted (merge_roots m rs)
unfolding merge_roots
merge_roots-IsCounted m [] v = v
merge_roots-IsCounted m ((root, results, itself) ∷ rs) v =
    merge_roots-IsCounted (merge_root m root results itself) rs
      (root-IsCounted m root results itself v)

missing-IsCounted :
    (m : Merge) → IsCounted m → length (write_missing m) + m.deduped_total ≡ m.manifest_total
unfolding write_missing
missing-IsCounted m v = omega (arith, length-missing_from nhash m.tab 0, v.all, v.seen)

all_zero :
    (missing d t c u x : ℕ)
    → missing + d ≡ t
    → ((missing == 0 && (c == 0 && (u == 0 && x == 0))) ≡ true)
      ↔ ((d ≡ t) × (c ≡ 0) × (u ≡ 0) × (x ≡ 0))
all_zero missing d t c u x total = ground arith

-- The whole program on a manifest and roots: the missing list names exactly the tasks of the
-- manifest, which are the different ids of its lines behind the heading, that are the id of no row of a
-- result file. The manifest's total is the number of these tasks, and the number of missing tasks and the
-- total of first results add up to it. The program exits with success if and only if every task
-- has a first result, and no result was a conflict, unexpected or malformed.
pub run-missing :
    (manifest : List Bytes) (rs : List (Bytes × Option Dir × Dir))
    → let (m, missing) = run manifest rs in
      ((x : Bytes)
        → has_text x missing ≡ (has_text x (tasks manifest) && not (has_text x (result_ids rs))))
      × (m.manifest_total ≡ length (tasks manifest))
      × (length missing + m.deduped_total ≡ m.manifest_total)
      × (succeeds (run manifest rs) ≡ true ↔ (
          (m.deduped_total ≡ length (tasks manifest))
          × (m.conflict_total ≡ 0)
          × (m.unexpected_total ≡ 0)
          × (m.malformed_total ≡ 0)))
unfolding run succeeds
run-missing manifest rs =
    let m = merge_roots (read_manifest start manifest) rs in
    let total = missing-IsCounted m (
      merge_roots-IsCounted (read_manifest start manifest) rs
        (manifest-IsCounted start manifest start-IsCounted)) in
    (
      λ x. missing_lem manifest rs x,
      total_lem manifest rs,
      total,
      all_zero (length (write_missing m)) m.deduped_total (length (tasks manifest)) m.conflict_total
          m.unexpected_total m.malformed_total (total ∙ total_lem manifest rs),
    )
