-- ===== src/ObjTable/Probe.antt =====
-- Registering a name again finds the entry that the first registration made.
use objective_9c.Prelude.{
  ℕ, zero, suc, ◌+◌, ◌%◌, ◌<◌, ◌≡◌, refl, ◌≢◌, ◌⊎◌, inl, inr, Option, some, none, true, false,
  arith, Bytes, length, get_elem?, set, get_elem?-set_self, get_elem?-set_ne, Bool-cases,
  ℕ_discrete, sym, ◌∙◌, ap,
}
use objective_9c.ObjTable.{
  ObjEntry, HashSlot, ObjTab, max_objects, is_named, hit, miss, probe, first_of_free, vacant,
  deleted, at_entry,
}

pub Slot-cases :
    (o : Option HashSlot)
    → (o ≡ none) ⊎ (o ≡ some vacant) ⊎ (o ≡ some deleted) ⊎ ((j : ℕ) × (o ≡ some (at_entry j)))
Slot-cases none = inl refl
Slot-cases (some vacant) = inr (inl refl)
Slot-cases (some deleted) = inr (inr (inl refl))
Slot-cases (some (at_entry j)) = inr (inr (inr (j, refl)))

some_slot : {a b : ℕ} → miss (some a) ≡ miss (some b) → a ≡ b
some_slot h = ground arith

absurd_found : {P : Type 0} {b : ℕ} → miss none ≡ miss (some b) → P
absurd_found h = cc

absurd_hit : {P : Type 0} {j b : ℕ} → hit j ≡ miss (some b) → P
absurd_hit h = cc

module _ (t : ObjTab) (h : ℕ) (class oid : Bytes) where
  -- a free place that was seen before is not given up for another
  probe-keeps :
      (rounds step k : ℕ) (m : Option ℕ)
      → probe t h class oid rounds step (some k) ≡ miss m
      → m ≡ some k
  unfolding probe first_of_free
  probe-keeps zero step k m e = ground arith
  probe-keeps (suc rounds) step k m e = ground (arith, probe-keeps rounds (step + 1) k m)

-- the table after entry `i` is claimed for the name, and place `slot` points at it
abbrev pub claimed : ObjTab → ℕ → ℕ → ObjEntry → ObjTab
claimed t slot i e = record t {
  entries = set t.entries i e;
  hash_tab = set t.hash_tab slot (at_entry i);
}

module _ (t : ObjTab) (h : ℕ) (class oid : Bytes) (slot i : ℕ) (e : ObjEntry)
    (named : is_named class oid (some e) ≡ true) (inside : i < length t.entries)
    (slot_inside : slot < length t.hash_tab) where
  named_now : is_named class oid (get_elem? (set t.entries i e) i) ≡ true
  named_now = rw (get_elem?-set_self t.entries i e inside) named

  others_same :
      (j : ℕ)
      → is_named class oid (get_elem? t.entries j) ≡ false
      → (j ≡ i) ⊎ (is_named class oid (get_elem? (set t.entries i e) j) ≡ false)
  others_same j no_name = elim (ℕ_discrete j i) [
    | yes same ↦ inl same
    | no ne ↦ inr (rw (get_elem?-set_ne t.entries e (λ q. ne (sym q))) no_name)
  ]

  slots_same :
      (idx : ℕ) {s : Option HashSlot}
      → get_elem? t.hash_tab idx ≡ s
      → idx ≢ slot
      → get_elem? (set t.hash_tab slot (at_entry i)) idx ≡ s
  slots_same idx q ne = get_elem?-set_ne t.hash_tab (at_entry i) (λ p. ne (sym p)) ∙ q

  -- A search that ended with `slot` as the free place ends at the claimed entry afterwards.
  pub probe-claimed :
      (rounds step : ℕ)
      → probe t h class oid rounds step none ≡ miss (some slot)
      → probe (claimed t slot i e) h class oid rounds step none ≡ hit i
  unfolding probe first_of_free
  probe-claimed zero step q = cc
  probe-claimed (suc rounds) step q =
      let idx = (h + step) % max_objects in
      elim (ℕ_discrete idx slot) [
        | yes same ↦
            rw (same, get_elem?-set_self t.hash_tab slot (at_entry i) slot_inside, probe, named_now)
              refl
        | no ne ↦ elim (Slot-cases (get_elem? t.hash_tab idx)) [
          | inl e₀ ↦ absurd_found (rw (e₀, probe) at q)
          | inr (inl e₀) ↦ absurd (ne (some_slot (rw (e₀, probe) at q)))
          | inr (inr (inl e₀)) ↦ absurd (
              ne (
                some_slot (
                  ap miss (
                    sym (
                      probe-keeps t h class oid rounds (step + 1) idx (some slot)
                        (rw (e₀, probe) at q))))))
          | inr (inr (inr (j, e₀))) ↦
              elim (Bool-cases (is_named class oid (get_elem? t.entries j))) [
                | inl yes_named ↦ absurd_hit (rw (e₀, probe, yes_named) at q)
                | inr not_named ↦
                    let rest = probe-claimed rounds (step + 1) (rw (e₀, probe, not_named) at q) in
                    let kept = slots_same idx e₀ ne in
                    elim (others_same j not_named) [
                      | inl at_i ↦
                          let found : is_named class oid (get_elem? (set t.entries i e) j) ≡ true =
                            rw at_i named_now in
                          rw (kept, probe, found) (ap hit at_i)
                      | inr still ↦ rw (kept, probe, still) rest
                    ]
              ]
        ]
      ]
