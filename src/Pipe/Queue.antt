-- ===== src/Pipe/Queue.antt =====
-- A pipe holds a queue of at most 512 bytes, whatever its counters have wrapped to.
use xv6_riscv_labs.Prelude.{
  ℕ, zero, suc, ◌+◌, ◌-◌, ◌%◌, ◌^◌, ◌≤◌, ◌<◌, ◌≡◌, ◌≢◌, refl, ap, ap₂, false, List, [], ◌∷◌, ◌++◌,
  ◌==◌, update, arith, length, ◌∙◌,
}
use xv6_riscv_labs.Pipe.Defs.{Pipe, pipe_size, uint, put, take_byte, is_full, is_empty}

-- The number of bytes in the pipe.
abbrev pub count : Pipe → ℕ
count p = uint (p.nwrite + 2 ^ 32 - p.nread)

pub record IsValid (p : Pipe) : Type 0 where
  pub read_small : p.nread < 2 ^ 32
  pub write_small : p.nwrite < 2 ^ 32
  pub fits : count p ≤ pipe_size

-- The `k` bytes from counter `r` on.
abbrev pub window : (ℕ → ℕ) → ℕ → ℕ → List ℕ
window buf r zero = []
window buf r (suc k) = buf (r % pipe_size) ∷ window buf (uint (r + 1)) k

abbrev pub contents : Pipe → List ℕ
contents p = window p.buf p.nread (count p)

pub length-window : (buf : ℕ → ℕ) (r k : ℕ) → length (window buf r k) ≡ k
length-window buf r zero = refl
length-window buf r (suc k) = ap suc (length-window buf (uint (r + 1)) k)

window-put :
    (buf : ℕ → ℕ) (ch k r w : ℕ)
    → k < pipe_size
    → w % pipe_size ≡ (r + k) % pipe_size
    → window (update buf (w % pipe_size) ch) r (suc k) ≡ window buf r k ++ (ch ∷ [])
window-put buf ch zero r w h e = ground arith
window-put buf ch (suc k) r w h e =
    ap₂ ◌∷◌ (ground arith) (window-put buf ch k (uint (r + 1)) w (omega arith) (omega arith))

window_step :
    (buf : ℕ → ℕ) (r k : ℕ)
    → k ≢ 0
    → window buf r k ≡ buf (r % pipe_size) ∷ window buf (uint (r + 1)) (k - 1)
window_step buf r zero h = absurd (h refl)
window_step buf r (suc k) h = ap (λ j. window buf r (suc j)) (omega arith)

module _ {p : Pipe} (v : IsValid p) where
  -- A pipe that is not full takes a byte at the end of its queue.
  pub put_lem :
      (ch : ℕ)
      → is_full p ≡ false
      → IsValid (put ch p) × (contents (put ch p) ≡ contents p ++ (ch ∷ []))
  unfolding put
  put_lem ch h = (
    ground arith,
    ap (window (update p.buf (p.nwrite % pipe_size) ch) p.nread) grown
        ∙ window-put p.buf ch (count p) p.nread p.nwrite (ground arith) (ground arith),
  )
    where
      grown : uint (uint (p.nwrite + 1) + 2 ^ 32 - p.nread) ≡ suc (count p)
      grown = ground arith

  -- A pipe that is not empty gives the first byte of its queue.
  pub take_byte_lem :
      is_empty p ≡ false
      → IsValid (take_byte p) × (contents p ≡ p.buf (p.nread % pipe_size) ∷ contents (take_byte p))
  take_byte_lem h = (
    ground arith,
    window_step p.buf p.nread (count p) (ground arith)
        ∙ ap (λ k. p.buf (p.nread % pipe_size) ∷ window p.buf (uint (p.nread + 1)) k)
            (ground arith),
  )

  -- `pipewrite` finds the pipe full exactly if it holds `PIPESIZE` bytes, `piperead` finds it
  -- empty exactly if it holds none.
  pub full_empty_lem :
      (is_full p ≡ (length (contents p) == pipe_size)) × (is_empty p ≡ (length (contents p) == 0))
  full_empty_lem =
      let size = length-window p.buf p.nread (count p) in
      (ground (arith, size), ground (arith, size))
