-- ===== src/FileTree/Reaches.antt =====
-- What ft_reaches of o9_filetree.c finds: the ways through mounts.
use objective_9c.Prelude.{
  ℕ, zero, suc, ◌≡◌, refl, sym, ◌≢◌, ◌⊎◌, inl, inr, List, [], ◌∷◌, Bool, true, false, ◌||◌, ◌==◌,
  arith, Option, some, none, subst, Bool-cases, ℕ_discrete,
}
use objective_9c.FileTree.{Store, Entry, FileTree, tree_in}
use objective_9c.FileTree.Mounts.{
  Plan, mounted_in, mounted_of, mounted, member, any_of, reaches, plan_for,
}

-- `Leads s c a`: a way of one mount or more from tree `a` to tree `c`
pub data Leads (s : Store) (c : ℕ) : ℕ → Type 0 where
  direct : (a : ℕ) → member c (mounted_in [] s a) ≡ true → Leads s c a
  behind : (a b : ℕ) → member b (mounted_in [] s a) ≡ true → Leads s c b → Leads s c a

abbrev pub IsAcyclic : Store → Type 0
IsAcyclic s = (a : ℕ) → Leads s a a → ⊥

pub join : (s : Store) (b c a : ℕ) → Leads s b a → Leads s c b → Leads s c a
join s b c a (direct _ m) q = behind a b m q
join s b c a (behind _ d m p) q = behind a d m (join s b c d p q)

pub or_false : (x y : Bool) → (x || y) ≡ false → (x ≡ false) × (y ≡ false)
or_false true y h = cc
or_false false y h = (refl, h)

-- which of the two it is that a test finds
pub member-cons :
    (a b : ℕ) (bs : List ℕ) → member a (b ∷ bs) ≡ true → (b ≡ a) ⊎ (member a bs ≡ true)
member-cons a b bs m = elim (ℕ_discrete b a) [
  | yes e ↦ inl e
  | no ne ↦ let e : (b == a) ≡ false = ground arith in inr (rw e at m)
]

pub any_of-member :
    (f : ℕ → Bool) (bs : List ℕ) (b : ℕ) → member b bs ≡ true → any_of f bs ≡ false → f b ≡ false
any_of-member f [] b m none_of = cc
any_of-member f (c ∷ cs) b m none_of =
    let (here, later) = or_false (f c) (any_of f cs) none_of in
    elim (member-cons b c cs m) [
      | inl e ↦ subst (λ z. f z ≡ false) e here
      | inr behind_c ↦ any_of-member f cs b behind_c later
    ]

-- no plan is for an entry of this tree
abbrev pub Apart : List Plan → ℕ → Type 0
Apart ps a = (i : ℕ) → plan_for ps a i ≡ none

mounted-Apart :
    (ps : List Plan) (a : ℕ) (es : List Entry) → Apart ps a → mounted ps a es ≡ mounted [] a es
unfolding mounted plan_for
mounted-Apart ps a [] h = refl
mounted-Apart ps a (e ∷ es) h = rw (h e.id, mounted-Apart ps a es h) refl

pub mounted_in-Apart :
    (ps : List Plan) (s : Store) (a : ℕ) → Apart ps a → mounted_in ps s a ≡ mounted_in [] s a
unfolding mounted_in
mounted_in-Apart ps s a h = go (tree_in s.trees a)
  where
    go : (o : Option FileTree) → mounted_of ps a o ≡ mounted_of [] a o
    go none = refl
    go (some t) = mounted-Apart ps a t.all h

trail_on :
    (s : Store) (seen : List ℕ) (a b : ℕ)
    → member b (mounted_in [] s a) ≡ true
    → ((c : ℕ) → member c seen ≡ true → Leads s a c)
    → (c : ℕ) → member c (a ∷ seen) ≡ true
    → Leads s b c
trail_on s seen a b m trail c here = elim (member-cons c a seen here) [
  | inl e ↦ subst (λ z. Leads s b z) e (direct a m)
  | inr before ↦ join s a b c (trail c before) (direct a m)
]

pub nowhere :
    (s : Store) (goal a : ℕ)
    → ((b : ℕ) → member b (mounted_in [] s a) ≡ true → (b ≢ goal) × (Leads s goal b → ⊥))
    → Leads s goal a
    → ⊥
nowhere s goal a below (direct _ m) = (below goal m).0 refl
nowhere s goal a below (behind _ b m p) = (below b m).1 p

-- Where nothing is reached, no way leads to the goal: in a store without cycles the trees seen so far are
-- not met again.
pub reaches_sound :
    (rounds : ℕ) (s : Store) (goal : ℕ) (ps : List Plan) (seen : List ℕ) (a : ℕ)
    → IsAcyclic s
    → ((b : ℕ) → b ≢ goal → Apart ps b)
    → ((b : ℕ) → member b seen ≡ true → Leads s a b)
    → reaches rounds s goal ps seen a ≡ false
    → (a ≢ goal) × (Leads s goal a → ⊥)
unfolding reaches
reaches_sound zero s goal ps seen a acyclic apart trail h = cc
reaches_sound (suc rounds) s goal ps seen a acyclic apart trail h = elim (ℕ_discrete a goal) [
  | yes here ↦
      let e : (a == goal) ≡ true = ground arith in let clash : true ≡ false = rw e at h in cc
  | no ne ↦
      let e : (a == goal) ≡ false = ground arith in
      elim (Bool-cases (member a seen)) [
        | inl again ↦ absurd (acyclic a (trail a again))
        | inr fresh ↦
            let nothing : any_of (λ b. reaches rounds s goal ps (a ∷ seen) b) (mounted_in ps s a)
                ≡ false =
              rw (e, fresh) at h in
            let same = mounted_in-Apart ps s a (apart a ne) in
            let below : (b : ℕ)
                → member b (mounted_in [] s a) ≡ true
                → (b ≢ goal) × (Leads s goal b → ⊥) =
              λ b m.
                reaches_sound rounds s goal ps (a ∷ seen) b acyclic apart
                  (trail_on s seen a b m trail)
                  (any_of-member (λ b. reaches rounds s goal ps (a ∷ seen) b) (mounted_in ps s a) b
                    (subst (λ z. member b z ≡ true) (sym same) m) nothing) in
            (ne, λ way. nowhere s goal a below way)
      ]
]
