-- ===== src/Dag/Walk.antt =====
-- The walk along first edges (o9_path_exists_locked) needs no more hops than there are edges, and
-- finds exactly the paths of a table in which no caller stands twice.
use objective_9c.Prelude.{
  ℕ, zero, suc, ◌≤◌, ◌<◌, ◌≡◌, refl, ◌≢◌, ◌↔◌, ◌⊎◌, inl, inr, [], ◌∷◌, some, none, Bool, true,
  false, ◌&&◌, ◌==◌, if◌then◌else◌, arith, length, Option-cases, Bool-cases, ==_iff, ℕ_discrete,
}
use objective_9c.Prelude.Count.{count}
use objective_9c.Dag.{Edge, Edges, first_callee, follow, path_exists}

-- an edge of the table from `a` to `b`
abbrev pub joins : ℕ → ℕ → Edge → Bool
joins a b e = e.caller == a && e.callee == b

abbrev pub HasEdge : Edges → ℕ → ℕ → Type 0
HasEdge es a b = 0 < count (joins a b) es

abbrev pub calls_of : ℕ → Edges → ℕ
calls_of a es = count (λ e. e.caller == a) es

-- every actor waits for one call at most
abbrev pub Single : Edges → Type 0
Single es = (a : ℕ) → calls_of a es ≤ 1

-- `a` waits for `b`, through any number of actors in between
pub data WaitsFor (es : Edges) : ℕ → ℕ → Type 0 where
  one : {a b : ℕ} → HasEdge es a b → WaitsFor es a b
  more : {a b c : ℕ} → HasEdge es a b → WaitsFor es b c → WaitsFor es a c

pub WaitsFor-append : {es : Edges} {a b c : ℕ} → WaitsFor es a b → WaitsFor es b c → WaitsFor es a c
WaitsFor-append (one h) q = more h q
WaitsFor-append (more h p) q = more h (WaitsFor-append p q)

-- the table without the edges out of `a`
without : ℕ → Edges → Edges
without a [] = []
without a (e ∷ es) = if e.caller == a then without a es else e ∷ without a es

first_callee-without :
    (a b : ℕ) (es : Edges) → b ≢ a → first_callee (without a es) b ≡ first_callee es b
unfolding without first_callee
first_callee-without a b [] h = refl
first_callee-without a b (e ∷ es) h = ground (arith, first_callee-without a b es h)

length-without : (a : ℕ) (es : Edges) → length (without a es) ≤ length es
unfolding without
length-without a [] = omega arith
length-without a (e ∷ es) = ground (arith, length-without a es)

length-without_lt :
    (a : ℕ) (es : Edges) {b : ℕ} → first_callee es a ≡ some b → length (without a es) < length es
unfolding without first_callee
length-without_lt a [] h = cc
length-without_lt a (e ∷ es) {b} h =
    ground (arith, length-without a es, length-without_lt a es {b = b})

first_callee-without_self : (a : ℕ) (es : Edges) → first_callee (without a es) a ≡ none
unfolding without first_callee
first_callee-without_self a [] = refl
first_callee-without_self a (e ∷ es) = ground (arith, first_callee-without_self a es)

-- more hops find no less
follow_mono :
    (k m : ℕ) (es : Edges) (a t : ℕ) → k ≤ m → follow k es a t ≡ true → follow m es a t ≡ true
unfolding follow
follow_mono zero m es a t h p = cc
follow_mono (suc k) zero es a t h p = absurd (omega arith)
follow_mono (suc k) (suc m) es a t h p = elim (Option-cases (first_callee es a)) [
  | inl e ↦ ground arith
  | inr (b, e) ↦ ground (arith, follow_mono k m es b t)
]

-- fewer edges out of one actor find no more
follow-without_mono :
    (k : ℕ) (es : Edges) (a b t : ℕ) → follow k (without a es) b t ≡ true → follow k es b t ≡ true
unfolding follow
follow-without_mono zero es a b t p = cc
follow-without_mono (suc k) es a b t p = elim (ℕ_discrete b a) [
  | yes e ↦
      let stop : first_callee (without a es) b ≡ none = rw e (first_callee-without_self a es) in
      ground arith
  | no ne ↦ elim (Option-cases (first_callee es b)) [
    | inl e ↦ ground (arith, first_callee-without a b es ne)
    | inr (c, e) ↦ ground (arith, first_callee-without a b es ne, follow-without_mono k es a c t)
  ]
]

-- A walk either passes through `a`, or does not need the edges out of `a`.
follow_split :
    (k : ℕ) (es : Edges) (a b t : ℕ)
    → follow k es b t ≡ true
    → (follow k es a t ≡ true) ⊎ (follow k (without a es) b t ≡ true)
unfolding follow
follow_split zero es a b t p = cc
follow_split (suc k) es a b t p = elim (ℕ_discrete b a) [
  | yes e ↦ inl (rw (← e) p)
  | no ne ↦ elim (Option-cases (first_callee es b)) [
    | inl e ↦ ground arith
    | inr (c, e) ↦ ground (
      arith,
      first_callee-without a b es ne,
      follow_split k es a c t,
      follow_mono k (suc k) es a t (omega arith),
    )
  ]
]

-- Every walk that reaches its target does so within as many hops as there are edges.
follow_enough :
    (k : ℕ) (es : Edges) (a t : ℕ) → follow k es a t ≡ true → follow (length es) es a t ≡ true
unfolding follow
follow_enough zero es a t p = cc
follow_enough (suc k) es a t p = elim (Option-cases (first_callee es a)) [
  | inl e ↦ ground arith
  | inr (b, e) ↦
      let m = length (without a es) in
      let fits = length-without_lt a es e in
      let raise = follow_mono (suc m) (length es) es a t fits in
      elim (Bool-cases (b == t)) [
        | inl hit ↦ raise (rw (e, follow, hit) refl)
        | inr miss ↦ elim (follow_split k es a b t (rw (e, follow, miss) at p)) [
          | inl again ↦ follow_enough k es a t again
          | inr past ↦ raise (
              rw (e, follow, miss)
                (follow-without_mono m es a b t (follow_enough k (without a es) b t past)))
        ]
      ]
]

first_callee-HasEdge : (es : Edges) (a : ℕ) {b : ℕ} → first_callee es a ≡ some b → HasEdge es a b
unfolding first_callee
first_callee-HasEdge [] a h = cc
first_callee-HasEdge (e ∷ es) a {b} h = ground (arith, first_callee-HasEdge es a {b = b})

first_callee-none : (es : Edges) (a : ℕ) → first_callee es a ≡ none → calls_of a es ≡ 0
unfolding first_callee
first_callee-none [] a h = refl
first_callee-none (e ∷ es) a h = ground (arith, first_callee-none es a)

HasEdge-calls_of : (es : Edges) (a b : ℕ) → HasEdge es a b → 0 < calls_of a es
HasEdge-calls_of [] a b h = h
HasEdge-calls_of (e ∷ es) a b h = ground (arith, HasEdge-calls_of es a b)

-- in a table where every caller stands once the first edge is the only one
first_callee-of_HasEdge :
    (es : Edges) (a b : ℕ) → calls_of a es ≤ 1 → HasEdge es a b → first_callee es a ≡ some b
unfolding first_callee
first_callee-of_HasEdge [] a b s h = absurd (omega arith)
first_callee-of_HasEdge (e ∷ es) a b s h =
    ground (arith, first_callee-of_HasEdge es a b, HasEdge-calls_of es a b)

follow-WaitsFor : (k : ℕ) (es : Edges) (a t : ℕ) → follow k es a t ≡ true → WaitsFor es a t
unfolding follow
follow-WaitsFor zero es a t p = cc
follow-WaitsFor (suc k) es a t p = elim (Option-cases (first_callee es a)) [
  | inl e ↦ ground arith
  | inr (b, e) ↦ elim (Bool-cases (b == t)) [
    | inl hit ↦ one (first_callee-HasEdge es a (rw ((==_iff b t).0 hit) at e))
    | inr miss ↦
        more (first_callee-HasEdge es a e) (follow-WaitsFor k es b t (rw (e, follow, miss) at p))
  ]
]

WaitsFor-follow :
    {es : Edges} {a t : ℕ} → Single es → WaitsFor es a t → (k : ℕ) × (follow k es a t ≡ true)
unfolding follow
WaitsFor-follow {es} {a} {t} s (one h) =
    (1, rw (first_callee-of_HasEdge es a t (s a) h, follow, (==_iff t t).1 refl) refl)
WaitsFor-follow {es} {a} {t} s (more {b} h p) =
    let (k, e) = WaitsFor-follow s p in
    elim (Bool-cases (b == t)) [
      | inl hit ↦ (1, rw (first_callee-of_HasEdge es a b (s a) h, follow, hit) refl)
      | inr miss ↦ (suc k, rw (first_callee-of_HasEdge es a b (s a) h, follow, miss) e)
    ]

-- `o9_path_exists_locked` on two channels that are not nil: it returns 1 exactly when they are the
-- same or one waits for the other, in a table in which every caller stands once at most. So its
-- bound on the hops never cuts a search short.
pub path_exists_lem :
    (es : Edges) (start target : ℕ)
    → Single es
    → start ≢ 0
    → target ≢ 0
    → (path_exists es start target ≡ true) ↔ ((start ≡ target) ⊎ WaitsFor es start target)
unfolding path_exists
path_exists_lem es a t s ha ht =
    let zero_a : (a == 0) ≡ false = ground arith in
    let zero_t : (t == 0) ≡ false = ground arith in
    elim (ℕ_discrete a t) [
      | yes e ↦ (λ _. inl e, λ _. rw (zero_a, zero_t, (==_iff a t).1 e) refl)
      | no ne ↦
          let differ : (a == t) ≡ false = ground arith in
          rw (zero_a, zero_t, differ)
            (
              λ p. inr (follow-WaitsFor (length es) es a t p),
              λ q. elim q [
                | inl e ↦ absurd (ne e)
                | inr p ↦ let (k, e) = WaitsFor-follow s p in follow_enough k es a t e
              ],
            )
    ]
