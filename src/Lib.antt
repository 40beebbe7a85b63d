-- ===== src/Lib.antt =====
-- The runtime of objective-9c, an actor language for Plan 9 whose compiler emits C that calls
-- o9_runtime.c. Every object is a process with a dispatch channel; objects call each other
-- synchronously over these channels, and requests from outside, over 9P, go through a router with one
-- mailbox and one worker for an object. Each file is about the part of o9_runtime.c, o9.h or the
-- other file that it names; a definition has the name of the C function without its prefix.
--
-- * Ring, Ring/*: the submission ring (o9_tring_*) and the completion ring (o9_rring_*) of a mailbox,
--   with counters of 32 bits that wrap. Ring/Queue is the bounded queue that they implement.
-- * Actor, Actor/Tids: the context of a process (O9ProcCtx) and the table from channels to thread ids.
-- * Dag, Dag/*: the graph of calls in progress, by which o9_dag_call_begin refuses a call that would
--   wait for itself. Dag/Walk and Dag/Acyclic describe paths, Dag/Begin and Dag/Exit the operations,
--   Dag/System all the sequences of them. An actor has one call in progress at most, since a call
--   blocks it. Dag takes the context from Actor, and its actor_exit clears Actor's table.
-- * ObjTable, ObjTable/*: the object table (o9_objtab_*), a hash table with open addressing that gives
--   out handles of a generation and an index.
-- * Router, Router/*: the mailboxes (Router/Mailbox), o9_router_submit and
--   o9_router_unregister_actor (Router/Submit) over ObjTable and Ring, and the worker
--   o9_router_worker as a step relation on one mailbox (Router/Workers).
-- * Mount, Mount/*: the checks on the cells of a mount table (o9_mt_*_ok, o9_mt_join). Mount/Segments
--   and Mount/Confined resolve paths the way a file system does.
-- * Text, Text/*: the builtins on strings (o9_str_*, o9_string_*). StringObject: the allocation and the
--   count of references of a string on the heap.
-- * DataStack, DataStack/*: the bump allocator (o9_datastack_*, o9_frame_*), in an address space of
--   2 ^ 64 bytes, with the memory it writes. HeapSlice: the growing arrays (o9_slice_*).
-- * Sync, Sync/*: semaphores and wait groups (o9_sync_sem_*, o9_sync_wg_*), each critical section a step.
--   How many sleepers an rwakeup wakes is a parameter.
-- * TypeExpr, TypeExpr/*: the types of the compiler (o9c/o9_type.c), their equality, their dumps and
--   names in C (TypeExpr/Texts) and the table of builtin types (TypeExpr/Builtins).
-- * Dict, Dict/*: typed dictionaries (o9_dict_*), and their text form (Dict/Wire).
-- * FileTree, FileTree/*: the trees of files that an actor serves (o9_filetree.c): their entries
--   (FileTree, FileTree/Entries), sources and mounts (FileTree/Mounts), listings (FileTree/Listing), and
--   all sequences of the operations (FileTree/History). The runtime's application of a mount table, which
--   calls o9_filetree_apply_specs, is not a part of it.
-- * Lexical, Lexical/*: the comparison of C texts up to blanks and comments (o9_c_*), which tells
--   mutants that change nothing, and the split of journal lines (o9_journal_split, Lexical/Journal).
--   A scan that leaves its text, as it does after an unfinished comment, has no result.
-- * Merge, Merge/*: grid/o9mutmerge.c, a program of its own that merges the results of mutation runs.
--   Merge/Tasks reads the manifest's tasks and the identifiers of the results without its table.
-- * Prelude, Prelude/*: lists, tests, bytes, integers and libc's snprint, which is a parameter wherever
--   the code prints into a buffer (Actor, Dag, Mount).
--
-- State is passed in and returned. A function that holds a lock from its first statement to its last
-- is one step. Pointers are numbers, or options where only nil matters; whether memory or a process
-- can be had is an argument, but in FileTree, Merge, Lexical and TypeExpr memory does not run out. Loops over a table run on fuel that is its length or its size, 256 for the
-- object table, 65 for draining a ring of 64, the number of edges for a walk in the call graph; the
-- theorems about the results show that no loop is cut short. The loops that double a capacity have one
-- round more than the index or the length that they must exceed. The walk of a file tree's mounts stops
-- after 256 trees and a lookup after 65, as in the code. Printing and reading of integers and doubles in
-- Dict/Wire are parameters.
--
-- Not modelled: how a process finds its context, the 9P server and client, tables of rows (Tabula), the
-- applied mount table, tasks, the files of ledger and journal, views, cryptography, the
-- dispatch cache in assembly, the compiler o9c beyond its types, the files that the merge writes, and
-- the vendored monocypher, libtab and libquickjs.
pub mod Prelude
pub mod Ring
pub mod Actor
pub mod Dag
pub mod ObjTable
pub mod Router
pub mod Mount
pub mod Text
pub mod StringObject
pub mod DataStack
pub mod HeapSlice
pub mod Sync
pub mod TypeExpr
pub mod Dict
pub mod Merge
pub mod FileTree
pub mod Lexical
