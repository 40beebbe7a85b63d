-- ===== src/Actor/Tids.antt =====
-- The table from dispatch channels to thread ids is a map, as long as it has room.
use objective_9c.Prelude.{
  ℕ, zero, suc, ◌+◌, ◌-◌, ◌≤◌, ◌<◌, ◌≡◌, refl, ◌≢◌, ◌⊎◌, inl, inr, List, [], ◌∷◌, Option, some,
  none, false, ◌==◌, if◌then◌else◌, arith, set, get_elem?, Option-cases, ℕ_discrete, ==_self, sym,
  ◌∙◌,
}
use objective_9c.Prelude.Count.{ind, count, count-pos_of_get, count-set}
use objective_9c.Actor.{
  ActorTid, first_free, put_slot, actor_tid_put, remove_first, actor_tid_remove, find_tid,
  tid_for_chan,
}

abbrev pub entries_of : ℕ → List ActorTid → ℕ
entries_of chan t = count (λ e. e.chan == chan) t

-- every channel but nil has one entry at most
abbrev pub IsMap : List ActorTid → Type 0
IsMap t = (chan : ℕ) → chan ≢ 0 → entries_of chan t ≤ 1

-- a free entry, or one of the channel itself
abbrev pub HasRoom : List ActorTid → ℕ → Type 0
HasRoom t chan = 0 < entries_of 0 t + entries_of chan t

-- the free slot that the loop remembers when it had none
free_here : (e : ActorTid) (i k : ℕ) → first_free none e i ≡ some k → (e.chan ≡ 0) × (i ≡ k)
unfolding first_free
free_here e i k h = ground arith

module _ (chan : ℕ) where
  -- the slot that the loop finds, told from the one that it was given
  put_slot-some :
      (t : List ActorTid) (i : ℕ) (slot : Option ℕ) (k : ℕ)
      → put_slot t i chan slot ≡ some k
      → ((slot ≡ some k) × (entries_of chan t ≡ 0))
        ⊎ ((i ≤ k)
            × ((e : ActorTid) × (get_elem? t (k - i) ≡ some e)
                × ((e.chan ≡ chan) ⊎ ((e.chan ≡ 0) × (entries_of chan t ≡ 0)))))
  unfolding put_slot first_free
  put_slot-some [] i slot k h = inl (h, refl)
  put_slot-some (e ∷ t) i slot k h = elim (ℕ_discrete e.chan chan) [
    | yes hit ↦
        let at_i : i ≡ k = ground arith in
        let z : k - i ≡ 0 = omega arith in inr (omega arith, (e, rw z refl, inl hit))
    | no miss ↦
        let rest : put_slot t (i + 1) chan (first_free slot e i) ≡ some k = ground arith in
        elim (put_slot-some t (i + 1) (first_free slot e i) k rest) [
          | inl (given, absent) ↦ elim (Option-cases slot) [
            | inr (j, was) ↦ inl (ground arith)
            | inl new ↦
                let (free, at_i) = free_here e i k (rw new at given) in
                let z : k - i ≡ 0 = omega arith in
                inr (omega arith, (e, rw z refl, inr (free, ground arith)))
          ]
          | inr (le, (x, at_x, why)) ↦
              let step : k - i ≡ suc (k - (i + 1)) = omega arith in
              inr (
                omega arith,
                (
                  x,
                  rw step at_x,
                  elim why [ inl own ↦ inl own | inr (f, absent) ↦ inr (f, ground arith) ],
                ),
              )
        ]
  ]

  -- no slot is found only in a table without room
  put_slot-none :
      (t : List ActorTid) (i : ℕ) (slot : Option ℕ)
      → put_slot t i chan slot ≡ none
      → (slot ≡ none) × (entries_of 0 t + entries_of chan t ≡ 0)
  unfolding put_slot first_free
  put_slot-none [] i slot h = (h, refl)
  put_slot-none (e ∷ t) i none h = ground (arith, put_slot-none t (i + 1) (first_free none e i))
  put_slot-none (e ∷ t) i (some j) h = ground (arith, put_slot-none t (i + 1) (some j))

  find_tid-absent : (t : List ActorTid) → entries_of chan t ≡ 0 → find_tid t chan ≡ 0
  unfolding find_tid
  find_tid-absent [] h = refl
  find_tid-absent (e ∷ t) h = ground (arith, find_tid-absent t)

  find_tid-set_self :
      (t : List ActorTid) (k tid : ℕ) (e : ActorTid)
      → get_elem? t k ≡ some e
      → entries_of chan t ≤ ind (e.chan == chan)
      → find_tid (set t k (record { chan = chan; tid = tid })) chan ≡ tid
  unfolding find_tid
  find_tid-set_self [] k tid e h u = cc
  find_tid-set_self (x ∷ t) zero tid e h u = ground arith
  find_tid-set_self (x ∷ t) (suc k) tid e h u =
      let present = count-pos_of_get (λ (y : ActorTid). y.chan == chan) t k e h in
      ground (arith, find_tid-set_self t k tid e h, present)

  find_tid-set_ne :
      (t : List ActorTid) (k : ℕ) (e new : ActorTid)
      → get_elem? t k ≡ some e
      → e.chan ≢ chan
      → new.chan ≢ chan
      → find_tid (set t k new) chan ≡ find_tid t chan
  unfolding find_tid
  find_tid-set_ne [] k e new h a b = cc
  find_tid-set_ne (x ∷ t) zero e new h a b = let same : x ≡ e = cc in rw same (ground arith)
  find_tid-set_ne (x ∷ t) (suc k) e new h a b = ground (arith, find_tid-set_ne t k e new h a b)

-- Where the loop of `o9_actor_tid_put` writes: over the channel's own entry, or over a free one.
put_slot_lem :
    (t : List ActorTid) (chan : ℕ)
    → HasRoom t chan
    → (k : ℕ) × (e : ActorTid) × (put_slot t 0 chan none ≡ some k)
      × (get_elem? t k ≡ some e)
      × ((e.chan ≡ chan) ⊎ ((e.chan ≡ 0) × (entries_of chan t ≡ 0)))
put_slot_lem t chan room = elim (Option-cases (put_slot t 0 chan none)) [
  | inl e ↦ absurd (omega (arith, (put_slot-none chan t 0 none e).1))
  | inr (k, found) ↦ elim (put_slot-some chan t 0 none k found) [
    | inl (e, _) ↦ cc
    | inr (_, (e, at_k, why)) ↦ let z : k - 0 ≡ k = omega arith in (k, e, found, rw z at at_k, why)
  ]
]

-- `o9_actor_tid_put` of a channel, not nil, on a table with room and one entry a channel: the channel's thread id is the new one afterwards, and
-- that of every other channel is what it was.
pub actor_tid_put_lem :
    (t : List ActorTid) (chan tid other : ℕ)
    → chan ≢ 0
    → IsMap t
    → HasRoom t chan
    → tid_for_chan (actor_tid_put t chan tid) other
      ≡ (if other == chan then tid else tid_for_chan t other)
unfolding tid_for_chan actor_tid_put
actor_tid_put_lem t chan tid other h unique room =
    let (k, e, found, at_k, why) = put_slot_lem t chan room in
    let z : (chan == 0) ≡ false = ground arith in
    elim (ℕ_discrete other chan) [
      | yes same ↦
          rw (same, found, z, ==_self chan)
            (find_tid-set_self chan t k tid e at_k (elim why [
              | inl own ↦ rw (own, ==_self chan) (unique chan h)
              | inr (free, absent) ↦ omega arith
            ]))
      | no ne ↦ elim (ℕ_discrete other 0) [
        | yes nil ↦ rw nil (ground arith)
        | no hz ↦
            let z' : (other == 0) ≡ false = ground arith in
            let differ : (other == chan) ≡ false = ground arith in
            rw (found, z, z', differ)
              (find_tid-set_ne other t k e (record { chan = chan; tid = tid }) at_k
                (elim why [
                  | inl own ↦ λ q. ne (sym q ∙ own)
                  | inr (free, _) ↦ λ q. hz (sym q ∙ free)
                ])
                (λ q. ne (sym q)))
      ]
    ]

find_tid-remove_first :
    (t : List ActorTid) (chan other : ℕ)
    → chan ≢ 0
    → other ≢ 0
    → entries_of chan t ≤ 1
    → find_tid (remove_first t chan) other ≡ (if other == chan then 0 else find_tid t other)
unfolding find_tid remove_first
find_tid-remove_first [] chan other h k u = ground arith
find_tid-remove_first (e ∷ t) chan other h k u =
    ground (arith, find_tid-remove_first t chan other h k, find_tid-absent chan t)

-- On a table with one entry a channel `o9_actor_tid_remove` forgets the channel's thread id, which then reads as 0, and no other.
pub actor_tid_remove_lem :
    (t : List ActorTid) (chan other : ℕ)
    → chan ≢ 0
    → IsMap t
    → tid_for_chan (actor_tid_remove t chan) other
      ≡ (if other == chan then 0 else tid_for_chan t other)
unfolding tid_for_chan actor_tid_remove
actor_tid_remove_lem t chan other h unique = elim (ℕ_discrete other 0) [
  | yes nil ↦ rw nil (ground arith)
  | no hz ↦ ground (arith, find_tid-remove_first t chan other h hz (unique chan h))
]

entries_of-remove_first :
    (t : List ActorTid) (chan c : ℕ) → c ≢ 0 → entries_of c (remove_first t chan) ≤ entries_of c t
unfolding remove_first
entries_of-remove_first [] chan c h = omega arith
entries_of-remove_first (e ∷ t) chan c h = ground (arith, entries_of-remove_first t chan c h)

-- Both operations keep one entry at most for each channel.
pub tids-IsMap :
    (t : List ActorTid) (chan tid : ℕ)
    → IsMap t
    → HasRoom t chan
    → IsMap (actor_tid_put t chan tid) × IsMap (actor_tid_remove t chan)
unfolding actor_tid_put actor_tid_remove
tids-IsMap t chan tid unique room =
    (put_map, λ c h. ground (arith, unique c h, entries_of-remove_first t chan c h))
  where
    put_map : IsMap (actor_tid_put t chan tid)
    put_map c h =
        let (k, e, found, at_k, why) = put_slot_lem t chan room in
        let new : ActorTid = record { chan = chan; tid = tid } in
        let moved = count-set (λ (x : ActorTid). x.chan == c) t k e new at_k in
        ground (arith, found, moved, unique c h, why)
