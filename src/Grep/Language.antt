-- ===== src/Grep/Language.antt =====
-- What a regular expression means: its tokens, and the texts that begin with a match of them.
use xv6_riscv_labs.Prelude.{
  ℕ, ◌≡◌, ◌≢◌, refl, ap, Bool, true, List, [], ◌∷◌, ◌++◌, ◌==◌, if◌then◌else◌, arith, ◌↔◌, ◌⊎◌, inl,
  inr, Bool-cases, ℕ_discrete,
}
use xv6_riscv_labs.Grep.Defs.{matchstar, is_end, match_one, matchhere, match_from, match}

pub data Token : Type 0 where
  one : ℕ → Token  -- a character, or any for `.`
  many : ℕ → Token  -- `c*`
  end : Token  -- `$` at the end

abbrev pub tokens : List ℕ → List Token
tokens [] = []
tokens (c ∷ []) = if c == b'$' then end ∷ [] else one c ∷ []
tokens (c ∷ d ∷ re) = if d == b'*' then many c ∷ tokens re else one c ∷ tokens (d ∷ re)

-- A character of the text fits one of the expression.
abbrev pub Fits : ℕ → ℕ → Type 0
Fits c x = (c ≡ b'.') ⊎ (c ≡ x)

abbrev pub AllFit : ℕ → List ℕ → Type 0
AllFit c [] = Unit
AllFit c (x ∷ xs) = Fits c x × AllFit c xs

-- The text begins with a match of the tokens.
abbrev pub Begins : List Token → List ℕ → Type 0
Begins [] text = Unit
Begins (one c ∷ ts) text = (x : ℕ) × (rest : List ℕ) × (text ≡ x ∷ rest) × Fits c x × Begins ts rest
Begins (many c ∷ ts) text =
    (run : List ℕ) × (rest : List ℕ) × (text ≡ run ++ rest) × AllFit c run × Begins ts rest
Begins (end ∷ ts) text = (text ≡ []) × Begins ts text

module _ (c : ℕ) (here : List ℕ → Bool) where
  matchstar_sound :
      (text : List ℕ)
      → matchstar c here text ≡ true
      → (run : List ℕ) × (rest : List ℕ) × (text ≡ run ++ rest) × AllFit c run × (here rest ≡ true)
  unfolding matchstar
  matchstar_sound [] h = ([], [], refl, tt, h)
  matchstar_sound (x ∷ text) h = elim (Bool-cases (here (x ∷ text))) [
    | inl now ↦ ([], x ∷ text, refl, tt, now)
    | inr later ↦
        let (run, rest, e, fits, found) = matchstar_sound text (ground arith) in
        (x ∷ run, rest, ap (λ l. x ∷ l) e, (ground arith, fits), found)
  ]

  matchstar_complete :
      (run rest : List ℕ) → AllFit c run → here rest ≡ true → matchstar c here (run ++ rest) ≡ true
  unfolding matchstar
  matchstar_complete [] [] f h = h
  matchstar_complete [] (x ∷ rest) f h = ground arith
  matchstar_complete (x ∷ run) rest f h = ground (arith, matchstar_complete run rest f.1 h)

match_one_iff :
    (c : ℕ) (here : List ℕ → Bool) (text : List ℕ)
    → (match_one c here text ≡ true)
      ↔ ((x : ℕ) × (rest : List ℕ) × (text ≡ x ∷ rest) × Fits c x × (here rest ≡ true))
match_one_iff c here [] = (λ h. cc, λ (x, rest, e, f, h). cc)
match_one_iff c here (x ∷ text) =
    (λ h. (x, text, refl, ground arith, ground arith), λ (y, rest, e, f, h). ground arith)

is_end_iff : (text : List ℕ) → (is_end text ≡ true) ↔ (text ≡ [])
is_end_iff [] = (λ h. refl, λ h. refl)
is_end_iff (x ∷ text) = (λ h. cc, λ h. cc)

-- `matchhere` accepts exactly the texts that begin with a match of the expression.
pub matchhere_iff : (re text : List ℕ) → (matchhere re text ≡ true) ↔ Begins (tokens re) text
unfolding matchhere
matchhere_iff [] text = (λ h. tt, λ h. refl)
matchhere_iff (c ∷ []) text = elim (Bool-cases (c == b'$')) [
  | inl e ↦ rw e (λ h. ((is_end_iff text).0 h, tt), λ h. (is_end_iff text).1 h.0)
  | inr e ↦ rw e (
    λ h. let (x, rest, s, f, g) = (match_one_iff c (matchhere []) text).0 h in (x, rest, s, f, tt),
    λ (x, rest, s, f, g). (match_one_iff c (matchhere []) text).1 (x, rest, s, f, refl),
  )
]
matchhere_iff (c ∷ d ∷ re) text = elim (Bool-cases (d == b'*')) [
  | inl e ↦ rw e (
    λ h.
        let (run, rest, s, f, g) = matchstar_sound c (matchhere re) text h in
        (run, rest, s, f, (matchhere_iff re rest).0 g),
    λ (run, rest, s, f, g).
        rw s (matchstar_complete c (matchhere re) run rest f ((matchhere_iff re rest).1 g)),
  )
  | inr e ↦ rw e (
    λ h.
        let (x, rest, s, f, g) = (match_one_iff c (matchhere (d ∷ re)) text).0 h in
        (x, rest, s, f, (matchhere_iff (d ∷ re) rest).0 g),
    λ (x, rest, s, f, g).
        (match_one_iff c (matchhere (d ∷ re)) text).1
          (x, rest, s, f, (matchhere_iff (d ∷ re) rest).1 g),
  )
]

match_from_sound :
    (re text : List ℕ)
    → match_from re text ≡ true
    → (before : List ℕ) × (rest : List ℕ) × (text ≡ before ++ rest) × Begins (tokens re) rest
unfolding match_from
match_from_sound re [] h = ([], [], refl, (matchhere_iff re []).0 h)
match_from_sound re (x ∷ text) h = elim (Bool-cases (matchhere re (x ∷ text))) [
  | inl now ↦ ([], x ∷ text, refl, (matchhere_iff re (x ∷ text)).0 now)
  | inr later ↦
      let (before, rest, e, begins) = match_from_sound re text (ground arith) in
      (x ∷ before, rest, ap (λ l. x ∷ l) e, begins)
]

match_from_complete :
    (re before rest : List ℕ) → Begins (tokens re) rest → match_from re (before ++ rest) ≡ true
unfolding match_from
match_from_complete re [] [] h = (matchhere_iff re []).1 h
match_from_complete re [] (x ∷ rest) h = rw ((matchhere_iff re (x ∷ rest)).1 h)
match_from_complete re (x ∷ before) rest h = ground (arith, match_from_complete re before rest h)

-- A text matches if a match begins somewhere in it, or at its start under `^`.
abbrev pub Matches : List ℕ → List ℕ → Type 0
Matches [] text = Unit
Matches (c ∷ re) text =
    ((c ≡ b'^') × Begins (tokens re) text)
    ⊎ ((c ≢ b'^')
        × (before : List ℕ) × (rest : List ℕ) × (text ≡ before ++ rest)
        × Begins (tokens (c ∷ re)) rest)

match_from_nil : (text : List ℕ) → match_from [] text ≡ true
unfolding match_from matchhere
match_from_nil [] = refl
match_from_nil (x ∷ text) = refl

-- `match` decides whether the expression matches the text.
pub match_iff : (re text : List ℕ) → (match re text ≡ true) ↔ Matches re text
unfolding match
match_iff [] text = (λ h. tt, λ h. match_from_nil text)
match_iff (c ∷ re) text = elim (ℕ_discrete c b'^') [
  | yes e ↦ (
    λ h. inl (e, (matchhere_iff re text).0 (ground arith)),
    λ m. elim m [
      | inl (p, begins) ↦ ground (arith, (matchhere_iff re text).1 begins)
      | inr (p, before, rest, s, begins) ↦ absurd (p e)
    ],
  )
  | no ne ↦ (
    λ h.
        let (before, rest, s, begins) = match_from_sound (c ∷ re) text (ground arith) in
        inr (ne, before, rest, s, begins),
    λ m. elim m [
      | inl (p, begins) ↦ absurd (ne p)
      | inr (p, before, rest, s, begins) ↦
          rw s (ground (arith, match_from_complete (c ∷ re) before rest begins))
    ],
  )
]
