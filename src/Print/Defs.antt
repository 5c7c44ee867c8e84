-- ===== src/Print/Defs.antt =====
-- printint of user/printf.c and kernel/printf.c, and atoi of user/ulib.c. A signed number is its
-- bit pattern.
use xv6_riscv_labs.Prelude.{
  ℕ, zero, suc, ◌+◌, ◌-◌, ◌*◌, ◌/◌, ◌%◌, ◌^◌, Bool, ◌&&◌, List, [], ◌∷◌, ◌++◌, ◌==◌, ltb, leb,
  if◌then◌else◌,
}

-- `digits[d]`, with the letters of the program.
abbrev pub digit : ℕ → ℕ → ℕ
digit letter d = if ltb d 10 then b'0' + d else letter + (d - 10)

-- The loop that fills `buf`, one round for each bit at most: its characters from `buf[0]` on.
unfoldable pub store_digits : ℕ → ℕ → ℕ → ℕ → List ℕ
store_digits zero letter base x = []
store_digits (suc k) letter base x =
    let rest = store_digits k letter base (x / base) in
    digit letter (x % base) ∷ (if x / base == 0 then [] else rest)

-- Negative as a number of `w` bits.
abbrev pub is_negative : ℕ → ℕ → Bool
is_negative w xx = leb (2 ^ (w - 1)) xx

-- `-xx` on `w` bits.
abbrev pub negate : ℕ → ℕ → ℕ
negate w xx = (2 ^ w - xx) % 2 ^ w

-- The contents of `buf` for a number of `w` bits.
unfoldable pub store_int : ℕ → ℕ → ℕ → ℕ → Bool → List ℕ
store_int w letter xx base sgn =
    if sgn && is_negative w xx
    then store_digits w letter base (negate w xx) ++ b'-' ∷ []
    else store_digits w letter base xx

-- The last loop: what is put out, from the end of `buf` on.
unfoldable pub put_back : List ℕ → List ℕ
put_back [] = []
put_back (c ∷ cs) = put_back cs ++ c ∷ []

-- printint of user/printf.c
abbrev pub user_printint : ℕ → ℕ → Bool → List ℕ
user_printint xx base sgn = put_back (store_int 32 b'A' xx base sgn)

-- printint of kernel/printf.c
abbrev pub kernel_printint : ℕ → ℕ → Bool → List ℕ
kernel_printint xx base sgn = put_back (store_int 64 b'a' xx base sgn)

abbrev pub is_digit : ℕ → Bool
is_digit c = leb b'0' c && leb c b'9'

-- The loop of `atoi` with `n` read so far.
unfoldable pub atoi_from : ℕ → List ℕ → ℕ
atoi_from n [] = n
atoi_from n (c ∷ cs) =
    let rest = atoi_from ((n * 10 + (c - b'0')) % 2 ^ 32) cs in if is_digit c then rest else n

-- The characters of a string, less the 0 at its end.
abbrev pub atoi : List ℕ → ℕ
atoi s = atoi_from 0 s
