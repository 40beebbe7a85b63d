-- ===== src/FileTree/Tests.antt =====
-- Two trees of actor 7, one mounted into a directory of the other.
use objective_9c.Prelude.{ℕ, ◌≡◌, refl, [], ◌∷◌, true, false, some, none, codes, bytes_eq, Bytes}
use objective_9c.FileTree.{
  text, dir, Store, FileTree, tree_in, filetree_new, name_ok, has_bad_byte, find, find_chain,
  bucket, bucket_from, add_entry, new_entry, owned, push_bucket, Entry,
}
use objective_9c.FileTree.Entries.{
  put, put_to, put_in, filetree_revoke, revoke_to, without_source, parent_of, parent_from,
  split_path,
}
use objective_9c.FileTree.Mounts.{
  Spec, filetree_register, register_to, is_registered, filetree_apply_specs, apply_to, apply_plans,
  filetree_destroy, destroy_to, resolve, resolve_from, target_of, target_from, plan_specs,
  plan_spec, plan_for, spec_mounts, plans_reach, reaches, mounted_in, mounted, commit,
  mounts_of_all, mounted_elsewhere, filetree_lookup,
}
use objective_9c.FileTree.Listing.{
  filetree_entries, collect, each_mount, add_buckets, add_chain, list_add, has_name,
}
use objective_9c.FileTree.Grown.{Distinct}
use objective_9c.FileTree.Complete.{entries_lem}
use objective_9c.FileTree.Reaches.{IsAcyclic}
use objective_9c.FileTree.Held.{Held}
use objective_9c.FileTree.System.{IsValid, start}
use objective_9c.FileTree.Apply.{apply_specs-IsAcyclic}
use objective_9c.FileTree.History.{
  destroy_lem, History, fresh, next, created, written, registered, revoked, History-IsValid,
}

-- tree 0 has the directory "d", tree 1 the text "x" and the name "src"
abbrev one_tree : Store
one_tree = (filetree_new 7 start).0

abbrev two_trees : Store
two_trees = (filetree_new 7 one_tree).0

abbrev with_dir : Store
with_dir = (put 7 two_trees 0 (codes "d") dir none false).0

abbrev with_text : Store
with_text = (put 7 with_dir 1 (codes "x") text (some (codes "hi")) false).0

abbrev sourced : Store
sourced = (filetree_register 7 with_text 1 (codes "src")).0

abbrev mount_d : Spec
mount_d = record { target = codes "d"; source = some (codes "src"); mode = 0; unmount = false }

sourced-History : History sourced
sourced-History =
    next with_text sourced
      (next with_dir with_text
        (next two_trees with_dir
          (next one_tree two_trees (next start one_tree fresh (created 7)) (created 7))
          (written 7 0 (codes "d") dir none false))
        (written 7 1 (codes "x") text (some (codes "hi")) false))
      (registered 7 1 (codes "src"))

History-IsValid_example : IsValid sourced
History-IsValid_example = History-IsValid sourced sourced-History

apply_specs-IsAcyclic_example : IsAcyclic (filetree_apply_specs 7 sourced 0 (mount_d ∷ [])).0
apply_specs-IsAcyclic_example =
    apply_specs-IsAcyclic 7 sourced 0 (mount_d ∷ [])
      (History-IsValid sourced sourced-History).acyclic

-- the mount is accepted
apply_test : (filetree_apply_specs 7 sourced 0 (mount_d ∷ [])).1 ≡ true
unfolding filetree_new put put_to put_in filetree_register register_to is_registered name_ok
    has_bad_byte find find_chain bucket bucket_from parent_of parent_from split_path add_entry
    new_entry owned filetree_apply_specs apply_to apply_plans resolve resolve_from target_of
    target_from plan_specs plan_spec plan_for spec_mounts plans_reach reaches mounted_in mounted
    commit bytes_eq
apply_test = refl

abbrev revoked_tree : Store
revoked_tree = filetree_revoke one_tree 0

revoked_tree-IsValid : IsValid revoked_tree
revoked_tree-IsValid =
    History-IsValid revoked_tree
      (next one_tree revoked_tree (next start one_tree fresh (created 7)) (revoked 0))

revoked_tree-destroyed : (filetree_destroy 7 revoked_tree 0).1 ≡ true
unfolding filetree_new filetree_revoke revoke_to without_source filetree_destroy destroy_to
    mounted_elsewhere mounts_of_all new_entry
revoked_tree-destroyed = refl

destroy_lem_example :
    IsValid (filetree_destroy 7 revoked_tree 0).0
    × (tree_in (filetree_destroy 7 revoked_tree 0).0.trees 0 ≡ none)
    × ((b : ℕ) (t : FileTree)
        → tree_in (filetree_destroy 7 revoked_tree 0).0.trees b ≡ some t
        → Held 0 t.all
        → ⊥)
destroy_lem_example = destroy_lem 7 revoked_tree 0 revoked_tree-IsValid revoked_tree-destroyed

-- the root of tree 1, which holds "x"
abbrev root_of_1 : Entry
root_of_1 = push_bucket (codes "x") 4 (new_entry 2 none (codes ".") dir none false)

abbrev x_entry : Entry
x_entry = new_entry 4 (some 2) (codes "x") text (some (codes "hi")) false

listed_x : filetree_entries sourced 1 (1, root_of_1) ≡ some ((1, x_entry) ∷ [])
unfolding filetree_new put put_to put_in filetree_register register_to is_registered name_ok
    has_bad_byte find find_chain bucket bucket_from parent_of parent_from split_path add_entry
    new_entry owned bytes_eq filetree_entries collect each_mount add_buckets add_chain list_add
listed_x = refl

entries_lem_example :
    Distinct ((1, x_entry) ∷ [])
    × ((name : Bytes) (r : ℕ × Entry)
        → filetree_lookup sourced 1 (some (1, root_of_1)) name ≡ some r
        → has_name name ((1, x_entry) ∷ []) ≡ true)
entries_lem_example = entries_lem sourced 1 1 root_of_1 ((1, x_entry) ∷ []) listed_x
