-- ===== src/Grep/Defs.antt =====
-- The matcher of user/grep.c. `matchstar` gets the rest of the match as a function.
use xv6_riscv_labs.Prelude.{ℕ, Bool, true, false, ◌&&◌, ◌||◌, List, [], ◌∷◌, ◌==◌, if◌then◌else◌}

-- `matchstar`: the loop over the text, where `here` is `matchhere` of the rest of the expression.
unfoldable pub matchstar : ℕ → (List ℕ → Bool) → List ℕ → Bool
matchstar c here [] = here []
matchstar c here (x ∷ text) = here (x ∷ text) || ((x == c || c == b'.') && matchstar c here text)

abbrev pub is_end : List ℕ → Bool
is_end [] = true
is_end (x ∷ text) = false

-- The last test of `matchhere`: one character, then the rest of the expression.
abbrev pub match_one : ℕ → (List ℕ → Bool) → List ℕ → Bool
match_one c here [] = false
match_one c here (x ∷ text) = (c == b'.' || c == x) && here text

unfoldable pub matchhere : List ℕ → List ℕ → Bool
unfolding matchstar
matchhere [] text = true
matchhere (c ∷ []) text = if c == b'$' then is_end text else match_one c (matchhere []) text
matchhere (c ∷ d ∷ re) text =
    if d == b'*' then matchstar c (matchhere re) text else match_one c (matchhere (d ∷ re)) text

-- The loop of `match` at each place of the text, the end included.
unfoldable pub match_from : List ℕ → List ℕ → Bool
unfolding matchhere
match_from re [] = matchhere re []
match_from re (x ∷ text) = matchhere re (x ∷ text) || match_from re text

unfoldable pub match : List ℕ → List ℕ → Bool
unfolding match_from
match [] text = match_from [] text
match (c ∷ re) text = if c == b'^' then matchhere re text else match_from (c ∷ re) text
