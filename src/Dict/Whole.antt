-- ===== src/Dict/Whole.antt =====
-- A whole dictionary written and read.
use objective_9c.Prelude.{
  ◌-◌, ◌≡◌, refl, sym, ap, ◌∙◌, List, [], ◌∷◌, ◌++◌, append_assoc, Option, some, true, arith, Bytes,
  subst,
}
use objective_9c.Dict.{Cell, Chain, Dict, defaults, hash_cell, bucket, find, getp, setv, cell_copy}
use objective_9c.Dict.Lookup.{IsValid, getp-setv, used-defaults, getp_used, setv-updated, Placed}
use objective_9c.Dict.Placed.{setv-IsValid}
use objective_9c.Dict.Wire.{
  Numbers, lines, entry_text, chain_text, buckets_text, serialize, set_lines, deserialize,
}
use objective_9c.Dict.Hex.{ReadsInts}
use objective_9c.Dict.Last.{later, last, last_all, nth, last_all-find, PlacedFrom-bucket}
use objective_9c.Dict.Round.{
  SameType, AllWritable, AllChains, lines-entry_text, set_line-line_of, set_all, set_chains,
}

SameType-setv :
    (d r : Dict) (k : Cell) (v : Option Cell)
    → IsValid r
    → SameType d r
    → SameType d (setv true r k v)
SameType-setv d r k v valid t = subst (SameType d) (sym (setv-updated r k v valid.used)) (record {
  keysz_eq = t.keysz_eq;
  valsz_eq = t.valsz_eq;
  keykind_eq = t.keykind_eq;
  valkind_eq = t.valkind_eq;
})

module _ (numbers : Numbers) where
  -- what stays of the target while entries are set
  record IsTarget (d r : Dict) : Type 0 where
    valid : IsValid r
    type_eq : SameType d r

  IsTarget-setv :
      (d r : Dict) (k : Cell) (v : Option Cell) → IsTarget d r → IsTarget d (setv true r k v)
  IsTarget-setv d r k v t = record {
    valid = setv-IsValid r k v t.valid;
    type_eq = SameType-setv d r k v t.valid t.type_eq;
  }

  IsTarget-set_all : (d r : Dict) (c : Chain) → IsTarget d r → IsTarget d (set_all numbers r c)
  IsTarget-set_all d r [] t = t
  IsTarget-set_all d r (e ∷ es) t =
      IsTarget-set_all d (setv true r e.key (some e.val)) es
        (IsTarget-setv d r e.key (some e.val) t)

  set_lines-chain_text :
      (d r : Dict) (c : Chain) (s : Bytes)
      → ReadsInts numbers
      → IsTarget d r
      → AllWritable numbers d c
      → set_lines numbers r (lines (chain_text numbers d c ++ s))
        ≡ set_lines numbers (set_all numbers r c) (lines s)
  unfolding chain_text set_lines
  set_lines-chain_text d r [] s ints t w = refl
  set_lines-chain_text d r (e ∷ es) s ints t (w, ws) =
      let split : (entry_text numbers d e ++ chain_text numbers d es) ++ s
          ≡ entry_text numbers d e ++ (chain_text numbers d es ++ s) =
        append_assoc (entry_text numbers d e) (chain_text numbers d es) s in
      ap (λ z. set_lines numbers r (lines z)) split
      ∙ ap (set_lines numbers r) (lines-entry_text numbers d e (chain_text numbers d es ++ s) w)
      ∙ ap (λ z. set_lines numbers z (lines (chain_text numbers d es ++ s)))
          (set_line-line_of numbers d r e ints t.type_eq w)
      ∙ set_lines-chain_text d (setv true r e.key (some e.val)) es s ints
          (IsTarget-setv d r e.key (some e.val) t) ws

  set_lines-buckets_text :
      (d r : Dict) (cs : List Chain)
      → ReadsInts numbers
      → IsTarget d r
      → AllChains numbers d cs
      → set_lines numbers r (lines (buckets_text numbers d cs)) ≡ set_chains numbers r cs
  unfolding buckets_text set_lines lines
  set_lines-buckets_text d r [] ints t w = refl
  set_lines-buckets_text d r (c ∷ cs) ints t (w, ws) =
      set_lines-chain_text d r c (buckets_text numbers d cs) ints t w
      ∙ set_lines-buckets_text d (set_all numbers r c) cs ints (IsTarget-set_all d r c t) ws

  getp-set_all :
      (d r : Dict) (c : Chain) (k : Cell)
      → IsTarget d r
      → getp (set_all numbers r c) k ≡ last c k (getp r k)
  unfolding cell_copy
  getp-set_all d r [] k t = refl
  getp-set_all d r (e ∷ es) k t =
      getp-set_all d (setv true r e.key (some e.val)) es k (IsTarget-setv d r e.key (some e.val) t)
      ∙ ap (last es k) (getp-setv r e.key (some e.val) k t.valid)

  getp-set_chains :
      (d r : Dict) (cs : List Chain) (k : Cell)
      → IsTarget d r
      → getp (set_chains numbers r cs) k ≡ last_all cs k (getp r k)
  getp-set_chains d r [] k t = refl
  getp-set_chains d r (c ∷ cs) k t =
      getp-set_chains d (set_all numbers r c) cs k (IsTarget-set_all d r c t)
      ∙ ap (last_all cs k) (getp-set_all d r c k t)

  -- Reading the text of a dictionary `d` into a dictionary `r` for the same types gives what `d` had
  -- under each of its keys, and leaves what `r` had under the others. Both are valid, the cells of `d` are
  -- portable, no key's text has a colon and no text a newline, and strtoll reads what %lld prints.
  pub deserialize-serialize :
      (d r : Dict) (k : Cell)
      → ReadsInts numbers
      → IsValid d
      → IsValid r
      → SameType d r
      → AllChains numbers d d.buckets
      → getp (deserialize numbers r (serialize numbers d)) k ≡ later (getp d k) (getp r k)
  unfolding serialize deserialize bucket
  deserialize-serialize d r k ints vd vr t w =
      let target : IsTarget d r = record { valid = vr; type_eq = t } in
      let all = set_lines-buckets_text d r d.buckets ints target w in
      let placed =
        PlacedFrom-bucket d d.buckets 0
          (λ j. subst (λ z. Placed z (nth d.buckets j)) (omega arith) (vd.placed j)) in
      let index : hash_cell k - 0 ≡ hash_cell k = omega arith in
      let found : last_all d.buckets k (getp r k)
          ≡ later (find (nth d.buckets (hash_cell k)) k) (getp r k) =
        last_all-find 0 d.buckets k (getp r k) placed (omega arith)
        ∙ ap (λ z. later (find (nth d.buckets z) k) (getp r k)) index in
      ap (λ z. getp (set_lines numbers (defaults r) (lines (buckets_text numbers z z.buckets))) k)
        (used-defaults d vd.used)
      ∙ ap (λ z. getp (set_lines numbers z (lines (buckets_text numbers d d.buckets))) k)
          (used-defaults r vr.used)
      ∙ ap (λ z. getp z k) all
      ∙ getp-set_chains d r d.buckets k target
      ∙ found
      ∙ ap (λ z. later z (getp r k)) (sym (getp_used d k vd.used))
