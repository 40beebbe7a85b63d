-- ===== src/Merge/Tests.antt =====
-- A manifest of two tasks, and results for them.
use objective_9c.Prelude.{
  not, ◌&&◌, bytes_eq, ◌+◌, ◌≡◌, ◌↔◌, refl, List, [], ◌∷◌, ◌++◌, Option, some, none, true, Bytes,
  codes, length,
}
use objective_9c.Merge.{
  is_tab, Merge, Node, result_file, subdir, Dir, unreadable, listed, Nodes, end, more, merge_roots,
  start, start, run, succeeds, lookup_create, lookup, is_tab, hstr, find_entry, put, new_entry,
  Entry, merge_root,
}
use objective_9c.Merge.Rows.{field, second_line, same_result, behind_tabs, behind_byte, before_byte}
use objective_9c.Merge.Tasks.{has_text, tasks, result_ids}
use objective_9c.Merge.Classes.{handled, results_of, merge_roots-handled}
use objective_9c.Merge.Total.{run-missing}

abbrev result : Bytes
result = codes "task_id\n" ++ codes "t1\tw\ts\tm\tkilled\t0\n"

-- two results of one task, one of an unknown task, a file that is no result, and a closed directory
abbrev roots : List (Bytes × Option Dir × Dir)
roots =
    (
      codes "a",
      some (
          listed (
            more (result_file (codes "t1.tab") (some result)) (
              more (result_file (codes "again.tab") (some result))
                (more (result_file (codes "log") (some result)) end)))),
      unreadable,
    )
    ∷ (
      codes "b",
      none,
      listed (
          more (subdir (codes "x") unreadable)
            (more (result_file (codes "t9.tab") (some (codes "h\nt9\tw\n"))) end)),
    )
    ∷ []

abbrev manifest : List Bytes
manifest = codes "task_id\tsource" ∷ codes "t1\ts" ∷ codes "t2\ts" ∷ []

second_line_test : second_line (some result) ≡ some (codes "t1\tw\ts\tm\tkilled\t0")
unfolding second_line objective_9c.Merge.Rows.line_at before_byte behind_byte
second_line_test = refl

field_test : field (codes "t1\tw\ts\tm\tkilled\t0") 5 64 ≡ codes "killed"
unfolding field behind_tabs behind_byte before_byte
field_test = refl

merge_roots-handled_example : handled (merge_roots start roots) ≡ handled start + results_of roots
merge_roots-handled_example = merge_roots-handled start roots

run-missing_example :
    ((x : Bytes)
      → has_text x (run manifest roots).1
        ≡ (has_text x (tasks manifest) && not (has_text x (result_ids roots))))
    × ((run manifest roots).0.manifest_total ≡ length (tasks manifest))
    × (length (run manifest roots).1 + (run manifest roots).0.deduped_total
        ≡ (run manifest roots).0.manifest_total)
    × (succeeds (run manifest roots) ≡ true ↔ (
        ((run manifest roots).0.deduped_total ≡ length (tasks manifest))
        × ((run manifest roots).0.conflict_total ≡ 0)
        × ((run manifest roots).0.unexpected_total ≡ 0)
        × ((run manifest roots).0.malformed_total ≡ 0)))
run-missing_example = run-missing manifest roots

-- the manifest has two tasks, and the roots have results of the first and of an unknown one
tasks_test : tasks manifest ≡ codes "t2" ∷ codes "t1" ∷ []
unfolding before_byte bytes_eq
tasks_test = refl

result_ids_test : result_ids roots ≡ codes "t1" ∷ codes "t1" ∷ codes "t9" ∷ []
unfolding is_tab second_line objective_9c.Merge.Rows.line_at before_byte behind_byte field
    behind_tabs bytes_eq
result_ids_test = refl
