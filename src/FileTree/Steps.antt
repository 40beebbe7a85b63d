-- ===== src/FileTree/Steps.antt =====
-- Each operation of o9_filetree.c keeps a valid store valid.
use objective_9c.Prelude.{
  ℕ, ◌≡◌, refl, ap, ◌∙◌, ◌≢◌, inl, inr, List, [], ◌∷◌, Bool, true, false, ◌&&◌, ◌==◌, not, arith,
  Option, some, none, subst, Bool-cases, if_ind, Bytes, ℕ_discrete,
}
use objective_9c.FileTree.{Kind, Store, Source, FileTree, tree_in, put_tree, owned, name_ok}
use objective_9c.FileTree.Entries.{
  put, put_to, stored, lacks_text, put_in, filetree_remove, remove_to, remove_in, filetree_revoke,
  revoke_to, filetree_close, close_to, without_source,
}
use objective_9c.FileTree.Mounts.{
  Plan, Spec, member, mounted_in, mounted_of, is_alive, alive_of, filetree_register, register_to,
  is_registered, has_byte, filetree_apply_specs, apply_to, apply_plans, plan_specs, plans_reach,
  commit,
}
use objective_9c.FileTree.Reaches.{IsAcyclic}
use objective_9c.FileTree.Acyclic.{Mounted, fewer-IsAcyclic, tree_in-put_ne}
use objective_9c.FileTree.Apply.{applied, apply_specs-IsAcyclic}
use objective_9c.FileTree.Held.{KeptBy, put_in-KeptBy, remove_in-KeptBy}
use objective_9c.FileTree.Planned.{Planned, specs-Planned, commit-Held}
use objective_9c.FileTree.System.{
  IsValid, AllAlive, AllAlive-mono, kept-IsValid, replaced-IsValid, fewer_mounts, alive-replaced,
}

stored-IsValid :
    (s : Store) (a : ℕ) (t : FileTree) (o : Option (FileTree × ℕ))
    → IsValid s
    → tree_in s.trees a ≡ some t
    → KeptBy t o
    → IsValid (stored s a o).0
stored-IsValid s a t none v at_a k = v
stored-IsValid s a t (some (u, i)) v at_a k =
    kept-IsValid s (record s { trees = put_tree s.trees a u; next_id = i }) a t u v at_a refl refl
      refl k

pub put-IsValid :
    (self : ℕ) (s : Store) (a : ℕ) (path : Bytes) (kind : Kind) (content : Option Bytes)
    (writable : Bool)
    → IsValid s
    → IsValid (put self s a path kind content writable).0
unfolding put put_to
put-IsValid self s a path kind content writable v = go (tree_in s.trees a) refl
  where
    go :
        (o : Option FileTree)
        → tree_in s.trees a ≡ o
        → IsValid (put_to self s a path kind content writable o).0
    go none e = v
    go (some t) e =
        if_ind {A = Store × Bool} (λ r. IsValid r.0) (owned self t && not (lacks_text kind content))
          (stored s a (put_in t s.next_id path kind content writable)) (s, false)
          (λ ok.
            stored-IsValid s a t (put_in t s.next_id path kind content writable) v e
              (put_in-KeptBy t s.next_id path kind content writable))
          (λ bad. v)

pub remove-IsValid :
    (self : ℕ) (s : Store) (a : ℕ) (path : Bytes)
    → IsValid s
    → IsValid (filetree_remove self s a path).0
unfolding filetree_remove remove_to
remove-IsValid self s a path v = go (tree_in s.trees a) refl
  where
    go : (o : Option FileTree) → tree_in s.trees a ≡ o → IsValid (remove_to self s a path o).0
    go none e = v
    go (some t) e =
        if_ind {A = Store × Bool} (λ r. IsValid r.0) (owned self t)
          (stored s a (remove_in t s.next_id path)) (s, false)
          (λ ok.
            stored-IsValid s a t (remove_in t s.next_id path) v e
              (remove_in-KeptBy t s.next_id path))
          (λ bad. v)

-- The sources that are left after a tree is revoked are alive in the store.
AllAlive-without :
    (s s' : Store) (xs : List Source) (a : ℕ)
    → ((b : ℕ) → b ≢ a → is_alive s b ≡ true → is_alive s' b ≡ true)
    → AllAlive s xs
    → AllAlive s' (without_source xs a)
unfolding without_source
AllAlive-without s s' [] a f h = refl
AllAlive-without s s' (x ∷ xs) a f (h, k) = elim (ℕ_discrete x.tree a) [
  | yes e ↦ let t : (x.tree == a) ≡ true = ground arith in simp t (AllAlive-without s s' xs a f k)
  | no ne ↦
      let t : (x.tree == a) ≡ false = ground arith in
      simp t (f x.tree ne h, AllAlive-without s s' xs a f k)
]

pub revoke-IsValid : (s : Store) (a : ℕ) → IsValid s → IsValid (filetree_revoke s a)
unfolding filetree_revoke revoke_to
revoke-IsValid s a v = go (tree_in s.trees a) refl
  where
    go : (o : Option FileTree) → tree_in s.trees a ≡ o → IsValid (revoke_to s a o)
    go none e = v
    go (some t) e =
        let u : FileTree = record t { alive = false } in
        let s' : Store = record s {
          trees = put_tree s.trees a u;
          sources = without_source s.sources a;
        } in
        replaced-IsValid s s' a t u v e refl refl
          (fewer_mounts s s' a t u v e refl refl (λ b m h. h)) (λ m h. v.linked a t e m h)
          (AllAlive-without s s' s.sources a
            (λ b ne h. ap alive_of (tree_in-put_ne s.trees a b u ne) ∙ h) v.alive)

pub close-IsValid : (self : ℕ) (s : Store) (a : ℕ) → IsValid s → IsValid (filetree_close self s a)
unfolding filetree_close close_to
close-IsValid self s a v = go (tree_in s.trees a)
  where
    go : (o : Option FileTree) → IsValid (close_to self s a o)
    go none = v
    go (some t) =
        if_ind IsValid (owned self t) (filetree_revoke s a) s (λ ok. revoke-IsValid s a v)
          (λ bad. v)

pub apply-IsValid :
    (self : ℕ) (s : Store) (a : ℕ) (xs : List Spec)
    → IsValid s
    → IsValid (filetree_apply_specs self s a xs).0
unfolding filetree_apply_specs apply_to apply_plans
apply-IsValid self s a xs v =
    go (tree_in s.trees a) refl (apply_specs-IsAcyclic self s a xs v.acyclic)
  where
    plans :
        (t : FileTree)
        → tree_in s.trees a ≡ some t
        → (o : Option (List Plan)) → Planned s o
        → IsAcyclic (apply_plans s a t o).0
        → IsValid (apply_plans s a t o).0
    plans t e none k acyclic = v
    plans t e (some ps) k acyclic = elim (Bool-cases (plans_reach s a ps ps)) [
      | inl reached ↦ simp reached v
      | inr free ↦
          let u : FileTree = record t { all = commit t.all ps } in
          simp free (
            replaced-IsValid s (applied s a t ps) a t u v e refl refl (simp free at acyclic)
              (λ m h. elim (commit-Held m t.all ps h) [
                | inl old ↦ v.linked a t e m old
                | inr new ↦ k m new
              ])
              (AllAlive-mono s (applied s a t ps) s.sources
                (alive-replaced s (applied s a t ps) a t u v e refl refl refl) v.alive))
    ]

    go :
        (o : Option FileTree)
        → tree_in s.trees a ≡ o
        → IsAcyclic (apply_to self s a xs o).0
        → IsValid (apply_to self s a xs o).0
    go none e acyclic = v
    go (some t) e acyclic = elim (Bool-cases (owned self t)) [
      | inl own ↦ simp own (
          plans t e (plan_specs s a t [] xs)
            (specs-Planned s a t (λ m h. v.linked a t e m h) [] xs (λ m h. cc))
            (simp own at acyclic))
      | inr other ↦ simp other v
    ]

same_mounts : (s s' : Store) → s'.trees ≡ s.trees → (b c : ℕ) → Mounted s' b c → Mounted s b c
unfolding mounted_in
same_mounts s s' e b c m = subst (λ z. member c (mounted_of [] b (tree_in z b)) ≡ true) e m

pub register-IsValid :
    (self : ℕ) (s : Store) (a : ℕ) (id : Bytes)
    → IsValid s
    → IsValid (filetree_register self s a id).0
unfolding filetree_register register_to owned
register-IsValid self s a id v = go (tree_in s.trees a) refl
  where
    added :
        (t : FileTree)
        → tree_in s.trees a ≡ some t
        → t.alive ≡ true
        → IsValid (record s { sources = record { id = id; tree = a } ∷ s.sources })
    added t e alive =
        let s' : Store = record s { sources = record { id = id; tree = a } ∷ s.sources } in
        record {
          acyclic = fewer-IsAcyclic s s' (λ b c m. same_mounts s s' refl b c m) v.acyclic;
          linked = λ b u at_b m h. v.linked b u at_b m h;
          alive = (ap alive_of e ∙ alive, AllAlive-mono s s' s.sources (λ b h. h) v.alive);
          unique = v.unique;
          below = v.below;
        }

    go : (o : Option FileTree) → tree_in s.trees a ≡ o → IsValid (register_to self s a id o).0
    go none e = v
    go (some t) e = elim (Bool-cases t.alive) [
      | inl alive ↦
          if_ind {A = Store × Bool} (λ r. IsValid r.0)
            (owned self t
              && (name_ok id
                  && (not (has_byte b'!' id)
                      && (not (has_byte b':' id) && not (is_registered s.sources id)))))
            (record s { sources = record { id = id; tree = a } ∷ s.sources }, true) (s, false)
            (λ ok. added t e alive) (λ bad. v)
      | inr dead ↦ simp dead v
    ]
