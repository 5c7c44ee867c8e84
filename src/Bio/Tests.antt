-- ===== src/Bio/Tests.antt =====
-- Runs of kernel/bio.c.
use xv6_riscv_labs.Prelude.{
  ℕ, ◌<◌, ◌≡◌, refl, false, none, some, List, [], ◌∷◌, ◌++◌, ◌==◌, arith, ◌⊎◌,
}
use xv6_riscv_labs.Bits.{ByteArray}
use xv6_riscv_labs.Bio.Defs.{nbuf, Buf, Bcache, is_for, set_buf, binit, bget, brelse}
use xv6_riscv_labs.Bio.Cache.{IsCache, IsGotten, bget-IsCache}
use xv6_riscv_labs.Bio.Release.{down, binit-IsCache, IsReleased, brelse-IsCache}
use xv6_riscv_labs.Bio.Steps.{changes, releases, Reaches, start, after, Reaches-IsCache}

abbrev zero_buf : Buf
zero_buf = record { valid = false; dev = 0; blockno = 0; refcnt = 0; bytes = λ _. 0 }

-- The cache before `binit`.
abbrev zeroes : Bcache
zeroes = record { buf = λ _. zero_buf; links = record { next = λ _. 0; prev = λ _. 0 } }

abbrev disk : ℕ → ℕ → ByteArray
disk dev blockno i = blockno

bget-IsCache_example :
    ((bget 1 7 (binit zeroes) ≡ none)
      × ((j : ℕ)
          → j < nbuf
          → (is_for 1 7 ((binit zeroes).buf j) ≡ false)
            × ((((binit zeroes).buf j).refcnt == 0) ≡ false)))
    ⊎ ((b : ℕ) × (c' : Bcache) × (bget 1 7 (binit zeroes) ≡ some (b, c'))
        × IsGotten (binit zeroes) (down nbuf) 1 7 b c'
        × IsCache c' (down nbuf))
bget-IsCache_example =
    bget-IsCache (binit zeroes) (down nbuf) 1 7 (binit-IsCache zeroes (λ b. refl))
      (λ e. absurd (omega (arith, e)))

-- A buffer in use twice.
abbrev busy : Bcache
busy = set_buf 29 (record zero_buf { refcnt = 2 }) zeroes

busy-IsCache : IsCache (binit busy) ([] ++ 29 ∷ down 29)
busy-IsCache = binit-IsCache busy (λ b. ground arith)

brelse-IsCache_example :
    IsReleased 29 (binit busy) (brelse 29 (binit busy))
    × ((((binit busy).buf 29).refcnt ≡ 1) × IsCache (brelse 29 (binit busy)) (29 ∷ [] ++ down 29)
        ⊎ (1 < ((binit busy).buf 29).refcnt)
          × IsCache (brelse 29 (binit busy)) ([] ++ 29 ∷ down 29))
unfolding binit
brelse-IsCache_example = brelse-IsCache (binit busy) 29 [] (down 29) busy-IsCache (omega arith)

-- The holder changes its bytes and lets it go.
abbrev changed : Bcache
changed = set_buf 29 (record ((binit busy).buf 29) { bytes = λ _. 5 }) (binit busy)

changed_refcnt : (changed.buf 29).refcnt ≡ 2
unfolding binit
changed_refcnt = refl

run : Reaches disk (binit busy) (brelse 29 changed)
run =
    after changed (brelse 29 changed) (after (binit busy) changed start (changes 29 (λ _. 5)))
      (releases 29 (omega arith) (omega (arith, changed_refcnt)))

Reaches-IsCache_example : (nodes : List ℕ) × IsCache (brelse 29 changed) nodes
Reaches-IsCache_example = Reaches-IsCache disk busy (brelse 29 changed) (λ b. ground arith) run
