-- ===== src/Console/Defs.antt =====
-- `consoleintr` and `consoleread` of kernel/console.c, over the input buffer `cons`.
use xv6_riscv_labs.Prelude.{
  ℕ, zero, suc, ◌+◌, ◌-◌, ◌%◌, ◌^◌, Bool, not, ◌&&◌, ◌||◌, List, [], ◌∷◌, ◌==◌, ltb, if◌then◌else◌,
  update,
}

abbrev pub input_buf_size : ℕ
input_buf_size = 128

-- `uint` arithmetic
abbrev pub uint : ℕ → ℕ
uint n = n % 2 ^ 32

-- `cons`, less its lock: `r`, `w` and `e` are the read, write and edit index.
pub record Cons : Type 0 where
  pub buf : ℕ → ℕ
  pub r : ℕ
  pub w : ℕ
  pub e : ℕ

-- `C(x)`
abbrev pub ctrl : ℕ → ℕ
ctrl x = x - b'@'

abbrev pub newline : ℕ
newline = 10

-- `a - b` on `uint`.
abbrev pub minus : ℕ → ℕ → ℕ
minus a b = uint (a + 2 ^ 32 - b)

abbrev pub back : Cons → Cons
back c = record c { e = minus c.e 1 }

-- The loop of `C('U')`, on fuel for `k` characters.
unfoldable pub kill_line : ℕ → Cons → Cons
kill_line zero c = c
kill_line (suc k) c =
    let rest = kill_line k (back c) in
    if c.e == c.w then c else if c.buf (minus c.e 1 % input_buf_size) == newline then c else rest

-- `c = (c == '\r') ? '\n' : c`
abbrev pub as_newline : ℕ → ℕ
as_newline ch = if ch == 13 then newline else ch

abbrev pub append : ℕ → Cons → Cons
append ch c = record c { buf = update c.buf (c.e % input_buf_size) ch; e = uint (c.e + 1) }

-- Is a line complete with `ch` stored: a newline, an end of file, or a full buffer.
abbrev pub completes : ℕ → Cons → Bool
completes ch c = ch == newline || ch == ctrl b'D' || minus c.e c.r == input_buf_size

unfoldable pub store_char : ℕ → Cons → Cons
store_char ch c = let c' = append ch c in if completes ch c' then record c' { w = c'.e } else c'

-- The loop of `C('U')` ends within the buffer's size.
unfoldable pub consoleintr : ℕ → Cons → Cons
consoleintr ch c =
    if ch == ctrl b'P'
    then c
    else if ch == ctrl b'U'
    then kill_line input_buf_size c
    else if ch == ctrl b'H' || ch == 127
    then if c.e == c.w then c else back c
    else if not (ch == 0) && ltb (minus c.e c.r) input_buf_size
    then store_char (as_newline ch) c
    else c

-- How a run of `consoleread` ends: it returns a count, returns -1, or sleeps with `left` bytes to
-- read.
pub data Outcome : Type 0 where
  returned : ℕ → Outcome
  failed : Outcome
  asleep : (left : ℕ) → Outcome

pub record Reading : Type 0 where
  pub outcome : Outcome
  pub bytes : List ℕ
  pub taken : List ℕ
  pub cons : Cons

abbrev pub take_char : Cons → Cons
take_char c = record c { r = uint (c.r + 1) }

-- The loop of `consoleread` with `k` bytes left of the `i + k` asked for. `copyout` says whether
-- the reader's memory takes a byte at its place.
unfoldable pub read_from : Bool → (ℕ → Bool) → ℕ → ℕ → Cons → Reading
read_from killed copyout zero i c = record {
  outcome = returned i;
  bytes = [];
  taken = [];
  cons = c;
}
read_from killed copyout (suc k) i c =
    let ch = c.buf (c.r % input_buf_size) in
    let rest = read_from killed copyout k (i + 1) (take_char c) in
    if c.r == c.w
    then record {
      outcome = if killed then failed else asleep (suc k);
      bytes = [];
      taken = [];
      cons = c;
    }
    else if ch == ctrl b'D'
    then (if ltb 0 i
        then record { outcome = returned i; bytes = []; taken = []; cons = c }
        else record { outcome = returned i; bytes = []; taken = ch ∷ []; cons = take_char c })
    else if not (copyout i)
    then record { outcome = returned i; bytes = []; taken = ch ∷ []; cons = take_char c }
    else if ch == newline
    then record { outcome = returned (i + 1); bytes = ch ∷ []; taken = ch ∷ []; cons = take_char c }
    else record rest { bytes = ch ∷ rest.bytes; taken = ch ∷ rest.taken }
