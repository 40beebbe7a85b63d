-- ===== src/Lexical/Blanks.antt =====
-- Blanks and newlines in what o9_c_without_ws_comments of o9_runtime.c drops.
use objective_9c.Prelude.{
  sym, ℕ, ◌≡◌, refl, ap, ◌∙◌, [], ◌∷◌, ◌++◌, some, true, false, ◌==◌, arith, Bytes, bytes_eq,
  bytes_eq_self,
}
use objective_9c.Lexical.{
  Mode, code, Scan, is_blank, next_is, code_step, scan_step, scan, first_scan, without_ws_comments,
  whitespace_equiv, literal, escaped, block, line, opening_block, opening_line, closing, written,
}

-- where the scan stands behind a text, with what follows it
abbrev pub after : Scan → Bytes → Bytes → Scan
after st [] rest = st
after st (c ∷ s) rest = after (scan_step st.mode st c (s ++ rest)).0 s rest

abbrev Agree : Bytes → Bytes → Type 0
Agree x y = (next_is b'*' x ≡ next_is b'*' y) × (next_is b'/' x ≡ next_is b'/' y)

-- a step looks at no more of what follows than whether it begins with "*" or "/"
step-Agree :
    (m : Mode) (st : Scan) (c : ℕ) (x y : Bytes)
    → Agree x y
    → scan_step m st c x ≡ scan_step m st c y
unfolding scan_step code_step
step-Agree code st c x y (e, f) = rw (e, f) refl
step-Agree (literal q) st c x y (e, f) = refl
step-Agree (escaped q) st c x y (e, f) = refl
step-Agree block st c x y (e, f) = rw f refl
step-Agree line st c x y (e, f) = refl
step-Agree opening_block st c x y (e, f) = refl
step-Agree opening_line st c x y (e, f) = refl
step-Agree closing st c x y (e, f) = refl

Agree-behind : (s b : Bytes) → Agree (s ++ (b'\n' ∷ b)) (s ++ (b' ' ∷ b))
Agree-behind [] b = (refl, refl)
Agree-behind (c ∷ s) b = (refl, refl)

-- a newline and a space both open a gap in code
newline_step : (st : Scan) (b : Bytes) → st.mode ≡ code → scan st (b'\n' ∷ b) ≡ scan st (b' ' ∷ b)
unfolding scan scan_step code_step is_blank
newline_step st b here = rw here refl

scan-newline :
    (st : Scan) (a b : Bytes)
    → (after st a (b'\n' ∷ b)).mode ≡ code
    → scan st (a ++ (b'\n' ∷ b)) ≡ scan st (a ++ (b' ' ∷ b))
unfolding scan
scan-newline st [] b here = newline_step st b here
scan-newline st (c ∷ s) b here =
    let same = step-Agree st.mode st c (s ++ (b'\n' ∷ b)) (s ++ (b' ' ∷ b)) (Agree-behind s b) in
    let rest = scan-newline (scan_step st.mode st c (s ++ (b'\n' ∷ b))).0 s b here in
    ap (written (scan_step st.mode st c (s ++ (b'\n' ∷ b))).1) rest
    ∙ ap (λ (r : Scan × Bytes). written r.1 (scan r.0 (s ++ (b' ' ∷ b)))) same

differ : (a b : Bytes) → bytes_eq (a ++ (b'\n' ∷ b)) (a ++ (b' ' ∷ b)) ≡ false
unfolding bytes_eq
differ [] b = refl
differ (c ∷ s) b = let e : (c == c) ≡ true = ground arith in rw (e, differ s b) refl

-- Two texts that differ in one newline of code, which is a space in the other, are equivalent for
-- `o9_c_lexical_whitespace_equiv`, wherever it is: also at the end of a directive. The scan of the
-- first text does not read behind it, which it does where the text ends in a comment.
pub newline_ignored :
    (a b out : Bytes)
    → (after first_scan a (b'\n' ∷ b)).mode ≡ code
    → without_ws_comments (a ++ (b'\n' ∷ b)) ≡ some out
    → whitespace_equiv (some (a ++ (b'\n' ∷ b))) (some (a ++ (b' ' ∷ b))) ≡ some true
unfolding whitespace_equiv without_ws_comments
newline_ignored a b out here first =
    let second : scan first_scan (a ++ (b' ' ∷ b)) ≡ some out =
      sym (scan-newline first_scan a b here) ∙ first in
    rw (differ a b, first, second) (ap some (bytes_eq_self out))
