-- ===== src/Merge/Missing.antt =====
-- What the manifest gives to the table of grid/o9mutmerge.c, and which tasks it lists as missing.
use objective_9c.Prelude.{
  ℕ, zero, suc, ◌+◌, ◌<◌, ◌≤◌, ◌≡◌, refl, sym, ap, ap₂, subst, ◌∙◌, ◌≢◌, List, [], ◌∷◌, Option,
  some, none, Bool, true, false, not, ◌&&◌, ◌||◌, if◌then◌else◌, arith, Bytes, bytes_eq,
  bytes_eq_sound, length, inl, inr, Bool-cases, ℕ_discrete,
}
use objective_9c.Merge.{
  nhash, Chain, Merge, Entry, Dir, put, new_entry, hstr, lookup, lookup_create, find_entry,
  read_line, read_lines, read_manifest, merge_roots, start, missing_in, missing_from, write_missing,
}
use objective_9c.Merge.Rows.{before_byte, tab_byte}
use objective_9c.Merge.Tasks.{has_text, result_ids, tasks, add_task, add_tasks}
use objective_9c.Merge.Seen.{known, waits, Placed, AllPlaced, bytes_ne, lookup_put}
use objective_9c.Merge.Results.{Merged, has_text-append, Placed-put}
use objective_9c.Merge.Waiting.{roots-Merged, IsRead, start-IsRead}

-- a task that is new to the table
added-IsRead :
    (m : Merge) (id : Bytes) (ts : List Bytes)
    → find_entry (m.tab (hstr id)) id ≡ none
    → IsRead m ts
    → IsRead
        (record m {
          tab = put m.tab (hstr id) (new_entry id ∷ m.tab (hstr id));
          manifest_total = m.manifest_total + 1;
        })
        (id ∷ ts)
unfolding lookup find_entry new_entry
added-IsRead m id ts absent v = record {
  placed =
      Placed-put m.tab (hstr id) (new_entry id ∷ m.tab (hstr id)) v.placed
        (refl, absent, v.placed (hstr id));
  knows = λ x. at_each x known (λ h. v.knows x) (new_known x);
  waiting = λ x. at_each x waits (λ h. v.waiting x) (new_waits x);
  counted = omega (arith, v.counted);
}
  where
    c : Chain
    c = new_entry id ∷ m.tab (hstr id)

    new_known : (x : Bytes) → bytes_eq id x ≡ true → known (find_entry c x) ≡ true
    new_known x h = rw h refl

    new_waits : (x : Bytes) → bytes_eq id x ≡ true → waits (find_entry c x) ≡ true
    new_waits x h = rw h refl

    at_each :
        (x : Bytes) (f : Option Entry → Bool)
        → (bytes_eq id x ≡ false → f (find_entry (m.tab (hstr x)) x) ≡ has_text x ts)
        → (bytes_eq id x ≡ true → f (find_entry c x) ≡ true)
        → f (find_entry (put m.tab (hstr id) c (hstr x)) x) ≡ has_text x (id ∷ ts)
    at_each x f old new =
        lookup_put m.tab id x c (λ o. f o ≡ has_text x (id ∷ ts))
          (λ e. elim (Bool-cases (bytes_eq id x)) [
            | inl here ↦ new here ∙ rw here refl
            | inr other ↦
                let before : f (find_entry (m.tab (hstr id)) x) ≡ has_text x ts =
                  subst (λ h. f (find_entry (m.tab h) x) ≡ has_text x ts) (sym e) (old other) in
                rw other before
          ])
          (λ ne.
            let apart : bytes_eq id x ≡ false = bytes_ne id x (λ s. ne (ap hstr s)) in
            old apart ∙ rw apart refl)

create-IsRead :
    (m : Merge) (id : Bytes) (ts : List Bytes)
    → IsRead m ts
    → IsRead (lookup_create m id) (if has_text id ts then ts else id ∷ ts)
unfolding lookup_create lookup
create-IsRead m id ts v = go (find_entry (m.tab (hstr id)) id) refl
  where
    grown : Merge
    grown = record m {
      tab = put m.tab (hstr id) (new_entry id ∷ m.tab (hstr id));
      manifest_total = m.manifest_total + 1;
    }

    go :
        (o : Option Entry)
        → find_entry (m.tab (hstr id)) id ≡ o
        → IsRead (elim o [ some e ↦ m | none ↦ grown ]) (if has_text id ts then ts else id ∷ ts)
    go (some e) at_id =
        let there : has_text id ts ≡ true = sym (v.knows id) ∙ ap known at_id in rw there v
    go none at_id =
        let absent : has_text id ts ≡ false = sym (v.knows id) ∙ ap known at_id in
        rw absent (added-IsRead m id ts at_id v)

line-IsRead :
    (m : Merge) (l : Bytes) (ts : List Bytes)
    → IsRead m ts
    → IsRead (read_line m l) (add_task ts (before_byte tab_byte (before_byte 0 l)))
unfolding read_line
line-IsRead m l ts v =
    let id = before_byte tab_byte (before_byte 0 l) in
    elim (Bool-cases (bytes_eq id [])) [
      | inl empty ↦ simp empty v
      | inr named ↦ simp named (create-IsRead m id ts v)
    ]

lines-IsRead :
    (m : Merge) (ls : List Bytes) (ts : List Bytes)
    → IsRead m ts
    → IsRead (read_lines m ls) (add_tasks ts ls)
unfolding read_lines
lines-IsRead m [] ts v = v
lines-IsRead m (l ∷ ls) ts v =
    lines-IsRead (read_line m l) ls (add_task ts (before_byte tab_byte (before_byte 0 l)))
      (line-IsRead m l ts v)

pub manifest-IsRead :
    (manifest : List Bytes) → IsRead (read_manifest start manifest) (tasks manifest)
unfolding read_manifest
manifest-IsRead [] = start-IsRead
manifest-IsRead (heading ∷ ls) = lines-IsRead start ls [] start-IsRead

or_none : (b : Bool) → (b || false) ≡ b
or_none true = refl
or_none false = refl

-- the list of missing tasks names those that wait
bucket_missing :
    (c : Chain) (h : ℕ) (x : Bytes)
    → Placed h c
    → has_text x (missing_in c) ≡ waits (find_entry c x)
unfolding missing_in find_entry
bucket_missing [] h x p = refl
bucket_missing (e ∷ es) h x (at_h, once, rest) = elim (Bool-cases (bytes_eq e.id x)) [
  | inr other ↦ elim (Bool-cases e.seen) [
    | inl seen ↦ simp (seen, other) (bucket_missing es h x rest)
    | inr open_task ↦ simp (open_task, other) (bucket_missing es h x rest)
  ]
  | inl here ↦ elim (Bool-cases e.seen) [
    | inr open_task ↦ simp (open_task, here) refl
    | inl seen ↦
        let eq : e.id ≡ x = bytes_eq_sound e.id x here in
        let gone : has_text x (missing_in es) ≡ false =
          bucket_missing es h x rest ∙ ap waits (subst (λ z. find_entry es z ≡ none) eq once) in
        simp (seen, here) gone
  ]
]

elsewhere : (c : Chain) (h : ℕ) (x : Bytes) → Placed h c → hstr x ≢ h → find_entry c x ≡ none
unfolding find_entry
elsewhere [] h x p ne = refl
elsewhere (e ∷ es) h x (at_h, once, rest) ne = elim (Bool-cases (bytes_eq e.id x)) [
  | inl here ↦ absurd (ne (sym (ap hstr (bytes_eq_sound e.id x here)) ∙ at_h))
  | inr other ↦ simp other (elsewhere es h x rest ne)
]

module _ (m : Merge) (placed : AllPlaced m) (x : Bytes) where
  other_bucket : (i : ℕ) → hstr x ≢ i → has_text x (missing_in (m.tab i)) ≡ false
  other_bucket i ne =
      bucket_missing (m.tab i) i x (placed i) ∙ ap waits (elsewhere (m.tab i) i x (placed i) ne)

  missing_behind : (n i : ℕ) → hstr x < i → has_text x (missing_from n m.tab i) ≡ false
  unfolding missing_from
  missing_behind zero i h = refl
  missing_behind (suc n) i h =
      has_text-append x (missing_in (m.tab i)) (missing_from n m.tab (i + 1))
      ∙ ap₂ (λ a b. a || b) (other_bucket i (λ e. absurd (omega arith)))
          (missing_behind n (i + 1) (omega arith))

  missing_within :
      (n i : ℕ)
      → i ≤ hstr x
      → hstr x < i + n
      → has_text x (missing_from n m.tab i) ≡ waits (find_entry (m.tab (hstr x)) x)
  unfolding missing_from
  missing_within zero i low high = absurd (omega arith)
  missing_within (suc n) i low high = elim (ℕ_discrete (hstr x) i) [
    | yes e ↦
        has_text-append x (missing_in (m.tab i)) (missing_from n m.tab (i + 1))
        ∙ ap₂ (λ a b. a || b)
            (bucket_missing (m.tab i) i x (placed i)
              ∙ ap (λ h. waits (find_entry (m.tab h) x)) (sym e))
            (missing_behind n (i + 1) (omega arith))
        ∙ or_none (waits (find_entry (m.tab (hstr x)) x))
    | no ne ↦
        has_text-append x (missing_in (m.tab i)) (missing_from n m.tab (i + 1))
        ∙ ap₂ (λ a b. a || b) (other_bucket i ne)
            (missing_within n (i + 1) (omega arith) (omega arith))
  ]

-- after the whole merge: a task waits if it is of the manifest and no result has its id
pub missing_lem :
    (manifest : List Bytes) (rs : List (Bytes × Option Dir × Dir)) (x : Bytes)
    → has_text x (write_missing (merge_roots (read_manifest start manifest) rs))
      ≡ (has_text x (tasks manifest) && not (has_text x (result_ids rs)))
unfolding write_missing lookup hstr
missing_lem manifest rs x =
    missing_within m merged.placed x nhash 0 (omega arith) (omega arith)
    ∙ merged.still_waits x
    ∙ ap (λ b. b && not (has_text x (result_ids rs))) (read.waiting x)
  where
    read : IsRead (read_manifest start manifest) (tasks manifest)
    read = manifest-IsRead manifest

    m : Merge
    m = merge_roots (read_manifest start manifest) rs

    merged : Merged (read_manifest start manifest) m (result_ids rs)
    merged = roots-Merged (read_manifest start manifest) rs read.placed

pub total_lem :
    (manifest : List Bytes) (rs : List (Bytes × Option Dir × Dir))
    → (merge_roots (read_manifest start manifest) rs).manifest_total ≡ length (tasks manifest)
total_lem manifest rs =
    (roots-Merged (read_manifest start manifest) rs (manifest-IsRead manifest).placed).same_total
    ∙ (manifest-IsRead manifest).counted
