-- ===== src/Merge/Results.antt =====
-- What merging result files does to the tasks that grid/o9mutmerge.c waits for.
use objective_9c.Prelude.{
  ℕ, ◌≡◌, refl, sym, ap, subst, ◌∙◌, List, [], ◌∷◌, ◌++◌, Option, some, none, Bool, true, false,
  not, ◌&&◌, ◌||◌, ◌==◌, arith, Bytes, bytes_eq, bytes_eq_sound, if_ind, inl, inr, Bool-cases,
}
use objective_9c.Merge.{Chain, Merge, Entry, put, hstr, lookup, find_entry, mark_seen, add_first}
use objective_9c.Merge.Tasks.{has_text}
use objective_9c.Merge.Seen.{
  known, waits, Placed, AllPlaced, and_true, bytes_ne, find_entry-mark_seen, lookup_put,
}

pub has_text-append :
    (x : Bytes) (ys zs : List Bytes) → has_text x (ys ++ zs) ≡ (has_text x ys || has_text x zs)
has_text-append x [] zs = refl
has_text-append x (y ∷ ys) zs = elim (Bool-cases (bytes_eq y x)) [
  | inl here ↦ rw here refl
  | inr other ↦ rw (other, has_text-append x ys zs) refl
]

not_or : (w a b : Bool) → ((w && not a) && not b) ≡ (w && not (a || b))
not_or true true b = refl
not_or true false b = refl
not_or false a b = refl

-- What merging results with the ids `xs` does to the table: the same tasks are known, in their places,
-- and those wait that waited and are not among the ids.
pub record Merged (m m' : Merge) (xs : List Bytes) : Type 0 where
  pub placed : AllPlaced m'
  pub same_known : (x : Bytes) → known (lookup m' x) ≡ known (lookup m x)
  pub still_waits : (x : Bytes) → waits (lookup m' x) ≡ (waits (lookup m x) && not (has_text x xs))
  pub same_total : m'.manifest_total ≡ m.manifest_total

pub Merged-both :
    (m m' m'' : Merge) (xs ys : List Bytes)
    → Merged m m' xs
    → Merged m' m'' ys
    → Merged m m'' (xs ++ ys)
Merged-both m m' m'' xs ys p q = record {
  placed = q.placed;
  same_known = λ x. q.same_known x ∙ p.same_known x;
  still_waits = λ x.
      q.still_waits x
      ∙ ap (λ b. b && not (has_text x ys)) (p.still_waits x)
      ∙ not_or (waits (lookup m x)) (has_text x xs) (has_text x ys)
      ∙ ap (λ b. waits (lookup m x) && not b) (sym (has_text-append x xs ys));
  same_total = q.same_total ∙ p.same_total;
}

-- the same table, with no id or with one that does not wait
pub Merged-none :
    (m m' : Merge)
    → AllPlaced m
    → m'.tab ≡ m.tab
    → m'.manifest_total ≡ m.manifest_total
    → Merged m m' []
unfolding lookup
Merged-none m m' placed e total = record {
  placed = λ h. subst (λ t. Placed h (t h)) (sym e) (placed h);
  same_known = λ x. ap (λ t. known (find_entry (t (hstr x)) x)) e;
  still_waits = λ x.
      ap (λ t. waits (find_entry (t (hstr x)) x)) e
      ∙ sym (and_true (waits (find_entry (m.tab (hstr x)) x)));
  same_total = total;
}

pub Merged-one :
    (m m' : Merge) (id : Bytes)
    → AllPlaced m
    → m'.tab ≡ m.tab
    → m'.manifest_total ≡ m.manifest_total
    → waits (lookup m id) ≡ false
    → Merged m m' (id ∷ [])
unfolding lookup
Merged-one m m' id placed e total idle = record {
  placed = λ h. subst (λ t. Placed h (t h)) (sym e) (placed h);
  same_known = λ x. ap (λ t. known (find_entry (t (hstr x)) x)) e;
  still_waits = λ x. ap (λ t. waits (find_entry (t (hstr x)) x)) e ∙ waiting x;
  same_total = total;
}
  where
    waiting : (x : Bytes) → waits (lookup m x) ≡ (waits (lookup m x) && not (has_text x (id ∷ [])))
    waiting x = elim (Bool-cases (bytes_eq id x)) [
      | inl this ↦
          let none_waits : waits (lookup m x) ≡ false =
            subst (λ z. waits (lookup m z) ≡ false) (bytes_eq_sound id x this) idle in
          rw none_waits refl
      | inr other ↦ rw other (sym (and_true (waits (lookup m x))))
    ]

-- the entries stay in their places
none_of_known : (o : Option Entry) → known o ≡ false → o ≡ none
none_of_known none h = refl
none_of_known (some e) h = cc

Placed-mark_seen :
    (h : ℕ) (c : Chain) (id row file : Bytes) → Placed h c → Placed h (mark_seen c id row file)
unfolding mark_seen
Placed-mark_seen h [] id row file p = p
Placed-mark_seen h (e ∷ es) id row file (at_h, once, rest) =
    if_ind (Placed h) (bytes_eq e.id id) _ _ (λ here. (at_h, once, rest))
      (λ other. (
        at_h,
        none_of_known (find_entry (mark_seen es id row file) e.id)
            ((find_entry-mark_seen es id row file e.id).0 ∙ ap known once),
        Placed-mark_seen h es id row file rest,
      ))

pub Placed-put :
    (tab : ℕ → Chain) (a : ℕ) (c : Chain)
    → ((h : ℕ) → Placed h (tab h))
    → Placed a c
    → (h : ℕ) → Placed h (put tab a c h)
Placed-put tab a c all new h =
    if_ind (Placed h) (h == a) c (tab h)
      (λ here. let e : a ≡ h = ground arith in subst (λ z. Placed z c) e new) (λ other. all h)

pub first-Merged :
    (m : Merge) (id row root file : Bytes)
    → AllPlaced m
    → Merged m (add_first m id row root file) (id ∷ [])
unfolding add_first lookup
first-Merged m id row root file placed = record {
  placed =
      Placed-put m.tab (hstr id) c (λ h. placed h)
        (Placed-mark_seen (hstr id) (m.tab (hstr id)) id row file (placed (hstr id)));
  same_known = λ x.
      lookup_put m.tab id x c (λ o. known o ≡ known (find_entry (m.tab (hstr x)) x))
        (λ e. subst (λ h. known (find_entry c x) ≡ known (find_entry (m.tab h) x)) e (marked x).0)
        (λ ne. refl);
  still_waits = λ x.
      lookup_put m.tab id x c
        (λ o. waits o ≡ (waits (find_entry (m.tab (hstr x)) x) && not (has_text x (id ∷ []))))
        (λ e.
          subst
            (λ h.
              waits (find_entry c x)
              ≡ (waits (find_entry (m.tab h) x) && not (has_text x (id ∷ []))))
            e ((marked x).1 ∙ ap (λ b. waits (find_entry (m.tab (hstr id)) x) && not b) (alone x)))
        (λ ne.
          let apart : bytes_eq id x ≡ false = bytes_ne id x (λ s. ne (ap hstr s)) in
          rw apart (sym (and_true (waits (find_entry (m.tab (hstr x)) x)))));
  same_total = refl;
}
  where
    c : Chain
    c = mark_seen (m.tab (hstr id)) id row file

    marked :
        (x : Bytes)
        → (known (find_entry c x) ≡ known (find_entry (m.tab (hstr id)) x))
          × (waits (find_entry c x)
              ≡ (waits (find_entry (m.tab (hstr id)) x) && not (bytes_eq id x)))
    marked x = find_entry-mark_seen (m.tab (hstr id)) id row file x

    alone : (x : Bytes) → bytes_eq id x ≡ has_text x (id ∷ [])
    alone x = elim (Bool-cases (bytes_eq id x)) [ inl h ↦ rw h refl | inr h ↦ rw h refl ]
