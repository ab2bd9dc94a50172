-- ===== src/Exec/Answer.antt =====
-- How the answer of the daemon is read.
use docker_mobile.Base.{
  ℕ, ◌≡◌, ◌≢◌, refl, sym, ap, subst, ◌⊎◌, inl, inr, Bool, true, false, ◌&&◌, ◌||◌, not, Option,
  none, some, [], ◌∷◌, ◌++◌, arith, append-nil, append_assoc, Bool-cases, if◌then◌else◌, nat_beq,
  nat_beq_iff, Text, contains_byte, contains_byte-append, ◌==◌, nat_eq, text_eq, ==_iff, Result, ok,
  err, cons_before, cut, ||-inv, false≢true, ◌∙◌, split_if,
}
use docker_mobile.Exec.{
  ExecError, malformed_status, bad_status, unexpected_status, no_status_line, headers_cut,
  read_line, with_line_feed, second_field, atoi, check_status, is_blank, skip_headers,
  headers_or_cut, read_answer,
}

-- A text without a byte, and one that is cut at its first.
abbrev Without : ℕ → Text → Type 0
Without b s = contains_byte b s ≡ false

abbrev CutAt : ℕ → Text → Option (Text × Text) → Type 0
CutAt b s none = Without b s
CutAt b s (some (before, after)) = (s ≡ before ++ b ∷ after) × Without b before

cons_before-CutAt :
    (b c : ℕ) (s : Text) (o : Option (Text × Text))
    → nat_beq c b ≡ false
    → CutAt b s o
    → CutAt b (c ∷ s) (cons_before c o)
unfolding contains_byte
cons_before-CutAt b c s none n h = ground arith
cons_before-CutAt b c s (some (x, y)) n h = (ap (λ t. c ∷ t) h.0, ground arith)

cut-CutAt : (b : ℕ) (s : Text) → CutAt b s (cut b s)
unfolding cut contains_byte
cut-CutAt b [] = refl
cut-CutAt b (c ∷ s) = elim (Bool-cases (nat_beq c b)) [
  | inl e ↦ rw e (ap (λ d. d ∷ s) ((nat_beq_iff c b).0 e), refl)
  | inr e ↦ rw e (cons_before-CutAt b c s (cut b s) e (cut-CutAt b s))
]

abbrev IsBlank : Text → Type 0
IsBlank line = (line ≡ []) ⊎ (line ≡ 13 ∷ [])

-- The headers end with the first empty line: what follows it, or none if the text ends before.
pub data Headers : Text → Option Text → Type 0 where
  ended : {s : Text} → Without 10 s → Headers s none
  blank :
      {s : Text} (line rest : Text)
      → s ≡ line ++ 10 ∷ rest
      → Without 10 line
      → IsBlank line
      → Headers s (some rest)
  further :
      {s : Text} (line rest : Text) {o : Option Text}
      → s ≡ line ++ 10 ∷ rest
      → Without 10 line
      → ¬ IsBlank line
      → Headers rest o
      → Headers s o

is_blank-IsBlank : (line : Text) → is_blank line ≡ true → IsBlank line
is_blank-IsBlank line h = elim (||-inv (line == 13 ∷ []) _ h) [
  | inl e ↦ inr ((==_iff line (13 ∷ [])).0 e)
  | inr e ↦ inl ((==_iff line []).0 e)
]

not-IsBlank : (line : Text) → is_blank line ≡ false → ¬ IsBlank line
not-IsBlank line h (inl e) = ground (arith, (==_iff line []).1 e)
not-IsBlank line h (inr e) = ground (arith, (==_iff line (13 ∷ [])).1 e)

longer-Without :
    (line : Text) (c : ℕ) → Without 10 line → nat_beq c 10 ≡ false → Without 10 (line ++ c ∷ [])
unfolding contains_byte
longer-Without line c w e = ground (arith, contains_byte-append 10 line (c ∷ []))

skip_headers-Headers : (line s : Text) → Without 10 line → Headers (line ++ s) (skip_headers line s)
unfolding skip_headers contains_byte
skip_headers-Headers line [] w = ended (subst (Without 10) (sym (append-nil line)) w)
skip_headers-Headers line (c ∷ s) w = elim (Bool-cases (nat_beq c 10)) [
  | inl e ↦
      let q = ap (λ d. line ++ d ∷ s) ((nat_beq_iff c 10).0 e) in
      elim (Bool-cases (is_blank line)) [
        | inl b ↦ rw (e, b) (blank line s q w (is_blank-IsBlank line b))
        | inr b ↦
            rw (e, b) (further line s q w (not-IsBlank line b) (skip_headers-Headers [] s refl))
      ]
  | inr e ↦ rw e (
      subst (λ t. Headers t (skip_headers (line ++ c ∷ []) s)) (append_assoc line (c ∷ []) s)
        (skip_headers-Headers (line ++ c ∷ []) s (longer-Without line c w e)))
]

-- The second of the fields that single spaces separate.
abbrev Field : Text → Text → Type 0
Field t f =
    (before : Text) × (after : Text) × (t ≡ before ++ (32 ∷ (f ++ after)))
    × Without 32 before
    × Without 32 f
    × ((after ≡ []) ⊎ ((more : Text) × (after ≡ 32 ∷ more)))

-- What a status line says of the terminal: an error, or that it is open.
pub data Says (t : Text) : Option ExecError → Type 0 where
  no_field : Without 32 t → Says t (some malformed_status)
  no_number : (f : Text) → Field t f → atoi f ≡ none → Says t (some bad_status)
  another :
      (f : Text) (minus : Bool) (code : ℕ)
      → Field t f
      → atoi f ≡ some (minus, code)
      → (minus ≡ true) ⊎ ((code ≢ 101) × (code ≢ 200))
      → Says t (some unexpected_status)
  accepted :
      (f : Text) (code : ℕ)
      → Field t f
      → atoi f ≡ some (false, code)
      → (code ≡ 101) ⊎ (code ≡ 200)
      → Says t none

is_accepted : Bool → ℕ → Bool
is_accepted minus code = not minus && (nat_beq code 101 || nat_beq code 200)

other :
    (minus : Bool) (code : ℕ)
    → is_accepted minus code ≡ false
    → (minus ≡ true) ⊎ ((code ≢ 101) × (code ≢ 200))
unfolding is_accepted
other true code p = inl refl
other false code p = inr ((λ e. ground (arith, p, e)), (λ e. ground (arith, p, e)))

open_at :
    (t f : Text) (minus : Bool) (code : ℕ)
    → Field t f
    → atoi f ≡ some (minus, code)
    → is_accepted minus code ≡ true
    → Says t none
unfolding is_accepted
open_at t f true code h e p = absurd (false≢true p)
open_at t f false code h e p = accepted f code h e (one_of_two p)
  where
    one_of_two : (nat_beq code 101 || nat_beq code 200) ≡ true → (code ≡ 101) ⊎ (code ≡ 200)
    one_of_two p = elim (||-inv (nat_beq code 101) _ p) [
      | inl e ↦ inl ((nat_beq_iff code 101).0 e)
      | inr e ↦ inr ((nat_beq_iff code 200).0 e)
    ]

status_error : Option (Bool × ℕ) → Option ExecError
unfolding is_accepted
status_error none = some bad_status
status_error (some (minus, code)) = if is_accepted minus code then none else some unexpected_status

number-Says :
    (t f : Text) (o : Option (Bool × ℕ)) → Field t f → atoi f ≡ o → Says t (status_error o)
unfolding status_error
number-Says t f none h e = no_number f h e
number-Says t f (some (minus, code)) h e =
    split_if (Says t) (is_accepted minus code) none (some unexpected_status)
      (λ p. open_at t f minus code h e p) (λ p. another f minus code h e (other minus code p))

code-Says : (t f : Text) → Field t f → Says t (check_status (some f))
unfolding check_status status_error is_accepted
code-Says t f h = number-Says t f (atoi f) h refl

rest-Says :
    (t before rest : Text) (o : Option (Text × Text))
    → t ≡ before ++ 32 ∷ rest
    → Without 32 before
    → CutAt 32 rest o
    → Says t (check_status (elim o [ none ↦ some rest | some (f, _) ↦ some f ]))
rest-Says t before rest none q w c =
    code-Says t rest (before, [], rw (append-nil rest) q, w, c, inl refl)
rest-Says t before rest (some (x, y)) q w c =
    code-Says t x (before, 32 ∷ y, q ∙ ap (λ r. before ++ 32 ∷ r) c.0, w, c.1, inr (y, refl))

line-Says :
    (t : Text) (o : Option (Text × Text)) → CutAt 32 t o → Says t (check_status (second_field o))
unfolding check_status
line-Says t none c = no_field c
line-Says t (some (before, rest)) c =
    rest-Says t before rest (cut 32 rest) c.0 c.1 (cut-CutAt 32 rest)

-- The first line of what comes, and what follows it.
abbrev First : Text → Text → Text → Type 0
First incoming line rest = (incoming ≡ line ++ 10 ∷ rest) × Without 10 line

-- How the answer of the daemon is taken. The status line is trimmed with its line feed.
pub data Answered (trim : Text → Text) (incoming : Text) : Result ExecError Text → Type 0 where
  no_line : Without 10 incoming → Answered trim incoming (err no_status_line)
  refused :
      (line rest : Text) (e : ExecError)
      → First incoming line rest
      → Says (trim (line ++ 10 ∷ [])) (some e)
      → Answered trim incoming (err e)
  cut_short :
      (line rest : Text)
      → First incoming line rest
      → Says (trim (line ++ 10 ∷ [])) none
      → Headers rest none
      → Answered trim incoming (err headers_cut)
  opened :
      (line rest body : Text)
      → First incoming line rest
      → Says (trim (line ++ 10 ∷ [])) none
      → Headers rest (some body)
      → Answered trim incoming (ok body)

module _ (trim : Text → Text) (incoming : Text) where
  headers-Answered :
      (line rest : Text) (o : Option Text)
      → First incoming line rest
      → Says (trim (line ++ 10 ∷ [])) none
      → Headers rest o
      → Answered trim incoming (headers_or_cut o)
  headers-Answered line rest none f c h = cut_short line rest f c h
  headers-Answered line rest (some body) f c h = opened line rest body f c h

  status-Answered :
      (line rest : Text) (x : Option ExecError)
      → First incoming line rest
      → Says (trim (line ++ 10 ∷ [])) x
      → Answered trim incoming
          (elim x [ some e ↦ err e | none ↦ headers_or_cut (skip_headers [] rest) ])
  unfolding contains_byte
  status-Answered line rest (some f) q c = refused line rest f q c
  status-Answered line rest none q c =
      headers-Answered line rest _ q c (skip_headers-Headers [] rest refl)

  answer_of : Option (Text × Text) → Result ExecError Text
  answer_of none = err no_status_line
  answer_of (some (line, rest)) = elim (check_status (second_field (cut 32 (trim line)))) [
    | some e ↦ err e
    | none ↦ headers_or_cut (skip_headers [] rest)
  ]

  line-Answered :
      (o : Option (Text × Text))
      → CutAt 10 incoming o
      → Answered trim incoming (answer_of (with_line_feed o))
  unfolding answer_of
  line-Answered none c = no_line c
  line-Answered (some (line, rest)) c =
      let t = trim (line ++ 10 ∷ []) in
      status-Answered line rest _ c (line-Says t (cut 32 t) (cut-CutAt 32 t))

-- The answer of the daemon is taken in one of four ways: it has no line at all; the second field of its
-- first line, trimmed, is missing, is no number, or is another number than 101 or 200, each with its own
-- error; no empty line ends the headers; or the terminal is open, and reads exactly what follows the
-- first empty line.
pub read_answer-Answered :
    (trim : Text → Text) (incoming : Text) → Answered trim incoming (read_answer trim incoming)
unfolding read_answer answer_of read_line
read_answer-Answered trim incoming =
    line-Answered trim incoming (cut 10 incoming) (cut-CutAt 10 incoming)
