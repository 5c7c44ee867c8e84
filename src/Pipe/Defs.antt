-- ===== src/Pipe/Defs.antt =====
-- The operations of kernel/pipe.c. A call runs with the pipe's lock held until it returns or goes
-- to sleep; when it wakes up it tests again from where it stood, and other calls ran in between.
use xv6_riscv_labs.Prelude.{
  ℕ, zero, suc, ◌+◌, ◌%◌, ◌^◌, Bool, true, false, not, ◌&&◌, ◌||◌, Option, none, some, List, [],
  ◌∷◌, ◌==◌, if◌then◌else◌, update,
}

abbrev pub pipe_size : ℕ
pipe_size = 512

-- `uint` arithmetic
abbrev pub uint : ℕ → ℕ
uint n = n % 2 ^ 32

-- `struct pipe`, less its lock.
pub record Pipe : Type 0 where
  pub buf : ℕ → ℕ
  pub nread : ℕ
  pub nwrite : ℕ
  pub readopen : Bool
  pub writeopen : Bool

-- How a run of `pipewrite` or `piperead` ends: it returns a count, returns -1, or sleeps.
pub data Outcome : Type 0 where
  returned : ℕ → Outcome
  failed : Outcome
  asleep : Outcome

-- The pipe that `pipealloc` sets up in a page with contents `page`.
unfoldable pub pipe_init : (ℕ → ℕ) → Pipe
pipe_init page = record { buf = page; nread = 0; nwrite = 0; readopen = true; writeopen = true }

-- `pipeclose`: the pipe, and whether its page is freed.
unfoldable pub pipeclose : Bool → Pipe → Pipe × Bool
pipeclose writable p =
    let p' = if writable then record p { writeopen = false } else record p { readopen = false } in
    (p', not p'.readopen && not p'.writeopen)

abbrev pub is_full : Pipe → Bool
is_full p = p.nwrite == uint (p.nread + pipe_size)

abbrev pub is_empty : Pipe → Bool
is_empty p = p.nread == p.nwrite

-- `pi->data[pi->nwrite++ % PIPESIZE] = ch;`
unfoldable pub put : ℕ → Pipe → Pipe
put ch p = record p { buf = update p.buf (p.nwrite % pipe_size) ch; nwrite = uint (p.nwrite + 1) }

-- A run of `pipewrite`: how it ends, and the bytes that it put into the pipe.
pub record Writing : Type 0 where
  pub outcome : Outcome
  pub bytes : List ℕ
  pub pipe : Pipe

-- The loop of `pipewrite` with `k` bytes left, from byte `i`. `copyin` gives the byte at
-- `addr + i` of the writer's memory, or fails.
unfoldable pub write_from : Bool → (ℕ → Option ℕ) → ℕ → ℕ → Pipe → Writing
write_from killed copyin zero i p = record { outcome = returned i; bytes = []; pipe = p }
write_from killed copyin (suc k) i p =
    if not p.readopen || killed
    then record { outcome = failed; bytes = []; pipe = p }
    else if is_full p
    then record { outcome = asleep; bytes = []; pipe = p }
    else elim (copyin i) [
      | none ↦ record { outcome = returned i; bytes = []; pipe = p }
      | some ch ↦
          let rest = write_from killed copyin k (i + 1) (put ch p) in
          record rest { bytes = ch ∷ rest.bytes }
    ]

-- The loop of `piperead` that copies, with `k` bytes left, from byte `i`. `copyout` says whether
-- the reader's memory takes a byte at `addr + i`. The bytes delivered are listed, and the bytes
-- taken from the pipe.
pub record Reading : Type 0 where
  pub outcome : Outcome
  pub bytes : List ℕ
  pub taken : List ℕ
  pub pipe : Pipe

abbrev pub take_byte : Pipe → Pipe
take_byte p = record p { nread = uint (p.nread + 1) }

unfoldable pub read_from : (ℕ → Bool) → ℕ → ℕ → Pipe → Reading
read_from copyout zero i p = record { outcome = returned i; bytes = []; taken = []; pipe = p }
read_from copyout (suc k) i p =
    let ch = p.buf (p.nread % pipe_size) in
    let rest = read_from copyout k (i + 1) (take_byte p) in
    if is_empty p
    then record { outcome = returned i; bytes = []; taken = []; pipe = p }
    else if copyout i
    then record rest { bytes = ch ∷ rest.bytes; taken = ch ∷ rest.taken }
    else record { outcome = returned i; bytes = []; taken = ch ∷ []; pipe = take_byte p }

-- A run of `piperead` of `n` bytes.
unfoldable pub piperead : Bool → (ℕ → Bool) → ℕ → Pipe → Reading
unfolding read_from
piperead killed copyout n p =
    if is_empty p && p.writeopen
    then record { outcome = if killed then failed else asleep; bytes = []; taken = []; pipe = p }
    else read_from copyout n 0 p
