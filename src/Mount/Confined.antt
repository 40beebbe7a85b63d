-- ===== src/Mount/Confined.antt =====
-- An accepted target stays below the root under which a mount table is applied.
use objective_9c.Prelude.{
  ℕ, ◌+◌, ◌<◌, ◌==◌, length, length-append, ◌≡◌, refl, sym, ap, ◌∙◌, ◌≢◌, inl, inr, List, [], ◌∷◌,
  ◌++◌, append_assoc, some, true, false, ◌||◌, arith, if◌then◌else◌, Bytes, bytes_eq,
  bytes_eq_sound, codes, Bool-cases, append-nil,
}
use objective_9c.Prelude.Libc.{Libc}
use objective_9c.Mount.{
  slash, bad_text, first_byte, target_ok, source_ok, srv_source_ok, starts_with, join,
}
use objective_9c.Mount.Segments.{segments, is_dotdot, any_dotdot, has_dotdot_lem}

-- One segment of a path, as a file system resolves it: the names from the innermost directory out.
abbrev pub enter : List Bytes → Bytes → List Bytes
enter [] s =
    if bytes_eq s [] || bytes_eq s (codes ".") then [] else if is_dotdot s then [] else s ∷ []
enter (d ∷ ds) s =
    if bytes_eq s [] || bytes_eq s (codes ".")
    then d ∷ ds
    else if is_dotdot s
    then ds
    else s ∷ d ∷ ds

abbrev pub walk : List Bytes → List Bytes → List Bytes
walk dir [] = dir
walk dir (s ∷ ss) = walk (enter dir s) ss

-- the directory `dir`, or one below it
abbrev pub Below : List Bytes → List Bytes → Type 0
Below dir place = (names : List Bytes) × (place ≡ names ++ dir)

enter-Below : (dir : List Bytes) (s : Bytes) → is_dotdot s ≡ false → Below dir (enter dir s)
enter-Below [] s h = (enter [] s, sym (append-nil (enter [] s)))
enter-Below (d ∷ ds) s h = elim (Bool-cases (bytes_eq s [] || bytes_eq s (codes "."))) [
  | inl same ↦ ([], rw same refl)
  | inr other ↦ (s ∷ [], rw (other, h) refl)
]

Below-trans : {a b c : List Bytes} → Below a b → Below b c → Below a c
Below-trans {a} (m, e) (n, f) = (n ++ m, f ∙ ap (λ z. n ++ z) e ∙ sym (append_assoc n m a))

walk-Below : (ss : List Bytes) (dir : List Bytes) → any_dotdot ss ≡ false → Below dir (walk dir ss)
walk-Below [] dir h = ([], refl)
walk-Below (s ∷ ss) dir h =
    Below-trans (enter-Below dir s (ground arith)) (walk-Below ss (enter dir s) (ground arith))

walk-append : (xs ys dir : List Bytes) → walk dir (xs ++ ys) ≡ walk (walk dir xs) ys
walk-append [] ys dir = refl
walk-append (x ∷ xs) ys dir = walk-append xs ys (enter dir x)

segs-append : (s t : Bytes) → segments (s ++ slash ∷ t) ≡ segments s ++ segments t
segs-append [] t = refl
segs-append (c ∷ s) t = let ih = segs-append s t in ground arith

-- an accepted target is a text without a ".." segment
target_ok-inv :
    (t : Bytes)
    → target_ok (some t) ≡ true
    → (bad_text (some t) ≡ false)
      × (first_byte (some t) ≢ slash)
      × (any_dotdot (segments t) ≡ false)
unfolding target_ok
target_ok-inv t h =
    let bad : bad_text (some t) ≡ false = ground arith in
    let relative : first_byte (some t) ≢ slash = ground arith in
    elim (Bool-cases (bytes_eq t (codes "."))) [
      | inl same ↦
          let e = bytes_eq_sound t (codes ".") same in
          (bad, relative, rw e (unfold bytes_eq in refl))
      | inr other ↦ (bad, relative, sym (has_dotdot_lem t) ∙ ground arith)
    ]

-- A target that `o9_mt_target_ok` accepts leads from any directory to that directory or one below
-- it, and never above.
pub target_confined :
    (t : Bytes) (dir : List Bytes) → target_ok (some t) ≡ true → Below dir (walk dir (segments t))
target_confined t dir h = let (_, _, clean) = target_ok-inv t h in walk-Below (segments t) dir clean

some_inj : (a b : Bytes) → some a ≡ some b → a ≡ b
some_inj a b h = cc

-- A path that `o9_mt_join` makes leads to the root or below it, if the root and the target with a slash
-- and a nul between and behind them fit into the buffer.
pub join_confined :
    (libc : Libc) (nout : ℕ) (root target : Bytes) (path : Bytes)
    → length root + length target + 1 < nout
    → join libc nout (some root) (some target) ≡ some path
    → Below (walk [] (segments root)) (walk [] (segments path))
unfolding join
join_confined libc nout root target path room h = elim (Bool-cases (target_ok (some target))) [
  | inr bad ↦ ground arith
  | inl good ↦
      let positive : (nout == 0) ≡ false = ground arith in
      elim (Bool-cases (bytes_eq target (codes "."))) [
        | inl same ↦
            let e : path ≡ root =
              sym (some_inj _ _ (simp (positive, good, same) at h))
              ∙ libc.snprint_fits nout root (omega arith) in
            rw e ([], refl)
        | inr other ↦
            let fits : length (root ++ slash ∷ target) < nout =
              omega (arith, length-append root (slash ∷ target)) in
            let e : path ≡ root ++ slash ∷ target =
              sym (some_inj _ _ (simp (positive, good, other) at h))
              ∙ libc.snprint_fits nout (root ++ slash ∷ target) fits in
            let split =
              ap (walk []) (segs-append root target)
              ∙ walk-append (segments root) (segments target) [] in
            let (names, f) = target_confined target (walk [] (segments root)) good in
            rw e (names, split ∙ f)
      ]
]

starts_with-inv : (s t : Bytes) → starts_with s t ≡ true → (rest : Bytes) × (s ≡ t ++ rest)
unfolding starts_with
starts_with-inv s [] h = (s, refl)
starts_with-inv [] (b ∷ t) h = cc
starts_with-inv (c ∷ s) (b ∷ t) h =
    let (rest, e) = starts_with-inv s t (ground arith) in (rest, ground arith)

-- A source that `o9_mt_srv_source_ok` accepts names /srv or something below it.
pub srv_source_confined :
    (s : Bytes) → srv_source_ok (some s) ≡ true → Below (codes "srv" ∷ []) (walk [] (segments s))
unfolding srv_source_ok source_ok bytes_eq
srv_source_confined s h =
    let clean : any_dotdot (segments s) ≡ false = sym (has_dotdot_lem s) ∙ ground arith in
    let (rest, e) = starts_with-inv s (codes "/srv/") (ground arith) in
    let clean' : any_dotdot (segments (codes "/srv/" ++ rest)) ≡ false = rw e at clean in
    rw e (walk-Below (segments rest) (codes "srv" ∷ []) clean')
