-- ===== src/Merge/Tasks.antt =====
-- The tasks of a manifest and the results of the trees, described without the table of
-- grid/o9mutmerge.c, and the entries that the table has for them.
use objective_9c.Prelude.{
  List, [], ◌∷◌, ◌++◌, Option, some, none, Bool, false, ◌||◌, if◌then◌else◌, Bytes, bytes_eq,
}
use objective_9c.Merge.{
  Node, result_file, subdir, Dir, unreadable, listed, Nodes, end, more, is_tab,
}
use objective_9c.Merge.Rows.{field, second_line, before_byte, tab_byte}

abbrev pub has_text : Bytes → List Bytes → Bool
has_text x [] = false
has_text x (y ∷ ys) = bytes_eq y x || has_text x ys

-- one id more, if it is not empty and not there
abbrev pub add_task : List Bytes → Bytes → List Bytes
add_task ts id = if bytes_eq id [] || has_text id ts then ts else id ∷ ts

-- the different ids of the lines of a manifest, each up to its first tab
abbrev pub add_tasks : List Bytes → List Bytes → List Bytes
add_tasks ts [] = ts
add_tasks ts (l ∷ ls) = add_tasks (add_task ts (before_byte tab_byte (before_byte 0 l))) ls

-- of a whole manifest, whose first line is its heading
abbrev pub tasks : List Bytes → List Bytes
tasks [] = []
tasks (heading ∷ ls) = add_tasks [] ls

-- the id of a row, if it is not empty
abbrev pub row_id : Option Bytes → List Bytes
row_id none = []
row_id (some row) = if bytes_eq (field row 1 512) [] then [] else field row 1 512 ∷ []

-- the ids of the result files of a tree, in its order
abbrev mutual
  pub ids_in : Node → List Bytes
  ids_in (result_file name text) = if is_tab name then row_id (second_line text) else []
  ids_in (subdir name d) = ids_under d

  pub ids_under : Dir → List Bytes
  ids_under unreadable = []
  ids_under (listed ns) = ids_among ns

  pub ids_among : Nodes → List Bytes
  ids_among end = []
  ids_among (more n ns) = ids_in n ++ ids_among ns

abbrev pub root_ids : Option Dir → Dir → List Bytes
root_ids (some results) itself = ids_under results
root_ids none itself = ids_under itself

abbrev pub result_ids : List (Bytes × Option Dir × Dir) → List Bytes
result_ids [] = []
result_ids ((root, results, itself) ∷ rs) = root_ids results itself ++ result_ids rs
