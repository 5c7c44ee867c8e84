-- ===== src/Grep/Tests.antt =====
-- Runs of the matcher of user/grep.c.
use Prim.Native.Char.{code}
use Prim.Native.String.{String}
use xv6_riscv_labs.Prelude.{ℕ, ◌≡◌, refl, true, false, List, [], ◌∷◌, ◌↔◌}
use xv6_riscv_labs.Grep.Defs.{match, matchhere}
use xv6_riscv_labs.Grep.Language.{Begins, tokens, Matches, matchhere_iff, match_iff}

abbrev codes : String → List ℕ
codes String.[] = []
codes (String.◌∷◌ c s) = code c ∷ codes s

finds_star : match (codes "a*b") (codes "xaab") ≡ true
unfolding match
finds_star = refl

finds_end : match (codes "^a.$") (codes "abc") ≡ false
unfolding match
finds_end = refl

matchhere_iff_example :
    (matchhere (codes "a*b") (codes "aabc") ≡ true) ↔ Begins (tokens (codes "a*b")) (codes "aabc")
matchhere_iff_example = matchhere_iff (codes "a*b") (codes "aabc")

match_iff_example :
    (match (codes "a*b") (codes "xaab") ≡ true) ↔ Matches (codes "a*b") (codes "xaab")
match_iff_example = match_iff (codes "a*b") (codes "xaab")
