-- ===== src/Merge.antt =====
-- The merge of mutation results: grid/o9mutmerge.c. The program reads a manifest of task ids and trees of
-- result files, and reports each task's first result, with lists of duplicates, conflicts, missing,
-- unexpected and malformed results. A directory is what dirread gives of it, in order; a file is what
-- read gives of its first bytes, or none; the lines of the manifest are those that Brdline gives.
-- Memory does not run out. The lines that are printed are kept as lists of texts, without their newline.
pub mod Rows
pub mod Count
pub mod Classes
pub mod Tasks
pub mod Seen
pub mod Results
pub mod Waiting
pub mod Missing
pub mod Total
pub mod Tests
use objective_9c.Prelude.{
  ℕ, zero, suc, ◌+◌, ◌-◌, ◌*◌, ◌%◌, ◌^◌, List, [], ◌∷◌, ◌++◌, Option, some, none, Bool, true, false,
  ◌&&◌, ◌||◌, not, ◌==◌, ltb, if◌then◌else◌, Bytes, bytes_eq, codes, length, drop,
}
use objective_9c.Merge.Rows.{field, same_result, second_line, before_byte, tab_byte}
use Prim.Native.Nat.{bit_xor}

abbrev pub nhash : ℕ
nhash = 524288

pub record Entry : Type 0 where
  pub id : Bytes
  pub row : Bytes
  pub file : Bytes
  pub seen : Bool

abbrev pub Chain : Type 0
Chain = List Entry

-- killed_total and the totals beside it
pub record Outcomes : Type 0 where
  pub killed : ℕ
  pub survived : ℕ
  pub timeout : ℕ
  pub infra : ℕ
  pub setup : ℕ
  pub equivalent : ℕ

-- the static variables of the program, and what it printed
pub record Merge : Type 0 where
  pub tab : ℕ → Chain
  pub manifest_total : ℕ
  pub deduped_total : ℕ
  pub duplicate_total : ℕ
  pub conflict_total : ℕ
  pub unexpected_total : ℕ
  pub malformed_total : ℕ
  pub outcomes : Outcomes
  pub report : List Bytes
  pub duplicates : List Bytes
  pub conflicts : List Bytes
  pub unexpected : List Bytes
  pub malformed : List Bytes

mutual
  -- a file with its name and what read gives, or a directory
  pub data Node : Type 0 where
    result_file : Bytes → Option Bytes → Node
    subdir : Bytes → Dir → Node

  pub data Dir : Type 0 where
    unreadable : Dir
    listed : Nodes → Dir

  pub data Nodes : Type 0 where
    end : Nodes
    more : Node → Nodes → Nodes

unfoldable pub hstr_from : ℕ → Bytes → ℕ
hstr_from h [] = h
hstr_from h (c ∷ s) = hstr_from (bit_xor ((h * 33) % 2 ^ 32) c) s

unfoldable pub hstr : Bytes → ℕ
hstr s = hstr_from 5381 s % nhash

unfoldable pub find_entry : Chain → Bytes → Option Entry
find_entry [] id = none
find_entry (e ∷ es) id = let rest = find_entry es id in if bytes_eq e.id id then some e else rest

abbrev pub put : (ℕ → Chain) → ℕ → Chain → ℕ → Chain
put tab h c i = if i == h then c else tab i

unfoldable pub new_entry : Bytes → Entry
new_entry id = record { id = id; row = []; file = []; seen = false }

-- lookup(id, 1)
unfoldable pub lookup_create : Merge → Bytes → Merge
lookup_create m id = elim (find_entry (m.tab (hstr id)) id) [
  | some e ↦ m
  | none ↦ record m {
    tab = put m.tab (hstr id) (new_entry id ∷ m.tab (hstr id));
    manifest_total = m.manifest_total + 1;
  }
]

-- lookup(id, 0)
unfoldable pub lookup : Merge → Bytes → Option Entry
lookup m id = find_entry (m.tab (hstr id)) id

-- one line of the manifest, up to a nul: the id before the first tab, if there is one
unfoldable pub read_line : Merge → Bytes → Merge
read_line m line =
    let id = before_byte tab_byte (before_byte 0 line) in
    if bytes_eq id [] then m else lookup_create m id

unfoldable pub read_lines : Merge → List Bytes → Merge
read_lines m [] = m
read_lines m (l ∷ ls) = read_lines (read_line m l) ls

-- the first line is the heading
unfoldable pub read_manifest : Merge → List Bytes → Merge
read_manifest m [] = m
read_manifest m (heading ∷ ls) = read_lines m ls

unfoldable pub count_result : Outcomes → Bytes → Outcomes
count_result o row =
    let r = field row 5 64 in
    if bytes_eq r (codes "killed")
    then record o { killed = o.killed + 1 }
    else if bytes_eq r (codes "survived")
    then record o { survived = o.survived + 1 }
    else if bytes_eq r (codes "timeout")
    then record o { timeout = o.timeout + 1 }
    else if bytes_eq r (codes "infra_fail")
    then record o { infra = o.infra + 1 }
    else if bytes_eq r (codes "setup_error")
    then record o { setup = o.setup + 1 }
    else if bytes_eq r (codes "equivalent")
    then record o { equivalent = o.equivalent + 1 }
    else o

-- fields with a tab between them
unfoldable pub tabbed : List Bytes → Bytes
tabbed [] = []
tabbed (f ∷ []) = f
tabbed (f ∷ g ∷ fs) = f ++ (tab_byte ∷ tabbed (g ∷ fs))

-- the entry of a task marked as seen, with its result
unfoldable pub mark_seen : Chain → Bytes → Bytes → Bytes → Chain
mark_seen [] id row file = []
mark_seen (e ∷ es) id row file =
    let rest = mark_seen es id row file in
    if bytes_eq e.id id then record e { seen = true; row = row; file = file } ∷ es else e ∷ rest

unfoldable pub add_malformed : Merge → Bytes → Bytes → Merge
add_malformed m file reason = record m {
  malformed = m.malformed ++ tabbed (file ∷ reason ∷ []) ∷ [];
  malformed_total = m.malformed_total + 1;
}

unfoldable pub add_unexpected : Merge → Bytes → Bytes → Merge
add_unexpected m id file = record m {
  unexpected = m.unexpected ++ tabbed (id ∷ file ∷ []) ∷ [];
  unexpected_total = m.unexpected_total + 1;
}

-- another result for a task that has one: the same result again, or a conflict
unfoldable pub add_again : Bool → Merge → Entry → Bytes → Bytes → Bytes → Merge
add_again true m e id row file = record m {
  duplicates = m.duplicates ++ tabbed (id ∷ e.file ∷ file ∷ []) ∷ [];
  duplicate_total = m.duplicate_total + 1;
}
add_again false m e id row file = record m {
  conflicts = m.conflicts ++ tabbed (id ∷ e.file ∷ file ∷ e.row ∷ row ∷ []) ∷ [];
  conflict_total = m.conflict_total + 1;
}

-- the first result of a task
unfoldable pub add_first : Merge → Bytes → Bytes → Bytes → Bytes → Merge
add_first m id row root file = record m {
  tab = put m.tab (hstr id) (mark_seen (m.tab (hstr id)) id row file);
  deduped_total = m.deduped_total + 1;
  outcomes = count_result m.outcomes row;
  report = m.report ++ tabbed (row ∷ root ∷ file ∷ []) ∷ [];
}

-- a row whose id is not empty, with what the lookup gave
unfoldable pub merge_known : Merge → Option Entry → Bytes → Bytes → Bytes → Bytes → Merge
merge_known m none id row root file = add_unexpected m id file
merge_known m (some e) id row root file =
    if e.seen
    then add_again (same_result e.row row) m e id row file
    else add_first m id row root file

-- a row, or none for a file without one
unfoldable pub merge_row : Merge → Option Bytes → Bytes → Bytes → Merge
merge_row m none root file = add_malformed m file (codes "empty_or_missing_result_row")
merge_row m (some []) root file = add_malformed m file (codes "empty_or_missing_result_row")
merge_row m (some (c ∷ s)) root file =
    let id = field (c ∷ s) 1 512 in
    if bytes_eq id []
    then add_unexpected m (codes "-") file
    else merge_known m (lookup m id) id (c ∷ s) root file

-- a name of four bytes or more that ends in ".tab"
unfoldable pub is_tab : Bytes → Bool
is_tab name = not (ltb (length name) 4) && bytes_eq (drop (length name - 4) name) (codes ".tab")

unfoldable pub child : Bytes → Bytes → Bytes
child dir name = dir ++ (b'/' ∷ name)

unfoldable pub merge_file : Merge → Bytes → Bytes → Bytes → Option Bytes → Merge
merge_file m root dir name text =
    if is_tab name then merge_row m (second_line text) root (child dir name) else m

unfoldable mutual
  pub merge_node : Merge → Bytes → Bytes → Node → Merge
  merge_node m root dir (result_file name text) = merge_file m root dir name text
  merge_node m root dir (subdir name d) = merge_results m root (child dir name) d

  pub merge_results : Merge → Bytes → Bytes → Dir → Merge
  merge_results m root dir unreadable = add_malformed m root (codes "missing_results_dir")
  merge_results m root dir (listed ns) = merge_nodes m root dir ns

  pub merge_nodes : Merge → Bytes → Bytes → Nodes → Merge
  merge_nodes m root dir end = m
  merge_nodes m root dir (more n ns) = merge_nodes (merge_node m root dir n) root dir ns

-- A root as the command line names it, with its directory "results" if it has one.
unfoldable pub merge_root : Merge → Bytes → Option Dir → Dir → Merge
merge_root m root (some results) itself = merge_results m root (root ++ codes "/results") results
merge_root m root none itself = merge_results m root root itself

unfoldable pub merge_roots : Merge → List (Bytes × Option Dir × Dir) → Merge
merge_roots m [] = m
merge_roots m ((root, results, itself) ∷ rs) = merge_roots (merge_root m root results itself) rs

unfoldable pub missing_in : Chain → List Bytes
missing_in [] = []
missing_in (e ∷ es) = let rest = missing_in es in if e.seen then rest else e.id ∷ rest

-- write_missing, from bucket `i` on, with the buckets that are left
unfoldable pub missing_from : ℕ → (ℕ → Chain) → ℕ → List Bytes
missing_from zero tab i = []
missing_from (suc n) tab i = missing_in (tab i) ++ missing_from n tab (i + 1)

unfoldable pub write_missing : Merge → List Bytes
write_missing m = missing_from nhash m.tab 0

-- the zeroed variables
unfoldable pub start : Merge
start = record {
  tab = λ i. [];
  manifest_total = 0;
  deduped_total = 0;
  duplicate_total = 0;
  conflict_total = 0;
  unexpected_total = 0;
  malformed_total = 0;
  outcomes = record { killed = 0; survived = 0; timeout = 0; infra = 0; setup = 0; equivalent = 0 };
  report = [];
  duplicates = [];
  conflicts = [];
  unexpected = [];
  malformed = [];
}

-- main, without its output: the state at its end and the ids that are missing
unfoldable pub run : List Bytes → List (Bytes × Option Dir × Dir) → Merge × List Bytes
run manifest roots =
    let m = merge_roots (read_manifest start manifest) roots in (m, write_missing m)

-- exits(nil)
unfoldable pub succeeds : Merge × List Bytes → Bool
succeeds (m, missing) =
    length missing == 0
    && (m.conflict_total == 0 && (m.unexpected_total == 0 && m.malformed_total == 0))
