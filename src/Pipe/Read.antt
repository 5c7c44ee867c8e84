-- ===== src/Pipe/Read.antt =====
-- `piperead` of kernel/pipe.c, and whole histories of a pipe.
use xv6_riscv_labs.Prelude.{
  ℕ, zero, suc, ◌+◌, ◌%◌, ◌≤◌, ◌≡◌, refl, ap, ◌∙◌, Bool, true, false, ◌&&◌, Option, List, [], ◌∷◌,
  ◌++◌, if◌then◌else◌, arith, length, Bool-cases, ◌⊎◌, inl, inr,
}
use native.Mathlib.Nat.{add-zero}
use mathlib.Core.List.{append-nil, append_assoc}
use xv6_riscv_labs.Pipe.Defs.{
  Pipe, pipe_size, take_byte, is_empty, returned, failed, asleep, write_from, Reading, read_from,
  piperead, pipeclose,
}
use xv6_riscv_labs.Pipe.Queue.{IsValid, contents, take_byte_lem}
use xv6_riscv_labs.Pipe.Fifo.{write_from-Wrote}

-- What a run of `piperead` leaves: the queue without the bytes taken, which are those delivered
-- and at most one more, where `copyout` failed.
pub record Took (copyout : ℕ → Bool) (k i : ℕ) (p : Pipe) (r : Reading) : Type 0 where
  pub valid : IsValid r.pipe
  pub queue : contents p ≡ r.taken ++ contents r.pipe
  pub few : length r.bytes ≤ k
  pub ends : r.outcome ≡ returned (i + length r.bytes)
  pub delivered :
      ((r.taken ≡ r.bytes) × ((length r.bytes ≡ k) ⊎ (is_empty r.pipe ≡ true)))
      ⊎ ((ch : ℕ) × (r.taken ≡ r.bytes ++ (ch ∷ [])) × (copyout (i + length r.bytes) ≡ false))

module _ (copyout : ℕ → Bool) where
  Took-one :
      (k i ch : ℕ) (p : Pipe) (rest : Reading)
      → contents p ≡ ch ∷ contents (take_byte p)
      → Took copyout k (i + 1) (take_byte p) rest
      → Took copyout (suc k) i p (record rest { bytes = ch ∷ rest.bytes; taken = ch ∷ rest.taken })
  Took-one k i ch p rest q t = record {
    valid = t.valid;
    queue = q ∙ ap (λ l. ch ∷ l) t.queue;
    few = omega (arith, t.few);
    ends = ground (arith, t.ends);
    delivered = elim t.delivered [
      | inl (same, full) ↦ inl (ap (λ l. ch ∷ l) same, ground (arith, full))
      | inr (lost, e, fault) ↦ inr (lost, ap (λ l. ch ∷ l) e, ground (arith, fault))
    ];
  }

  read_from-Took : (k i : ℕ) (p : Pipe) → IsValid p → Took copyout k i p (read_from copyout k i p)
  unfolding read_from
  read_from-Took zero i p v = record {
    valid = v;
    queue = refl;
    few = omega arith;
    ends = ap returned (omega arith);
    delivered = inl (refl, inl refl);
  }
  read_from-Took (suc k) i p v = elim (Bool-cases (is_empty p)) [
    | inl empty ↦ rw empty (record {
      valid = v;
      queue = refl;
      few = omega arith;
      ends = ap returned (omega arith);
      delivered = inl (refl, inr empty);
    })
    | inr more ↦ elim (Bool-cases (copyout i)) [
      | inl good ↦
          rw (more, good)
            (Took-one k i (p.buf (p.nread % pipe_size)) p
              (read_from copyout k (i + 1) (take_byte p)) (take_byte_lem v more).1
              (read_from-Took k (i + 1) (take_byte p) (take_byte_lem v more).0))
      | inr fault ↦
          rw (more, fault)
            (record {
              valid = (take_byte_lem v more).0;
              queue = (take_byte_lem v more).1;
              few = omega arith;
              ends = ap returned (omega arith);
              delivered = inr (p.buf (p.nread % pipe_size), refl, rw add-zero fault);
            })
    ]
  ]

  -- A run of `piperead` on an empty pipe with a write end does not change the pipe: it returns -1
  -- if the caller is killed, and sleeps if not. Any other run takes the first bytes of the queue
  -- and returns how many it delivered: all `n`, or all there were, unless `copyout` failed; then
  -- one more byte than it delivered has left the queue.
  pub piperead-Took :
      (killed : Bool) (n : ℕ) (p : Pipe)
      → IsValid p
      → (((is_empty p ≡ true) × (p.writeopen ≡ true))
          × (piperead killed copyout n p ≡ record {
            outcome = if killed then failed else asleep;
            bytes = [];
            taken = [];
            pipe = p;
          }))
        ⊎ (((is_empty p ≡ false) ⊎ (p.writeopen ≡ false))
            × Took copyout n 0 p (piperead killed copyout n p))
  unfolding piperead
  piperead-Took killed n p v = elim (Bool-cases (is_empty p && p.writeopen)) [
    | inl wait ↦ inl (ground (arith, wait), rw wait)
    | inr go ↦ inr (ground (arith, go), rw go (read_from-Took n 0 p v))
  ]

-- One call of some process, or what is left of it after a sleep.
pub data Call : Type 0 where
  write : (killed : Bool) (copyin : ℕ → Option ℕ) (k i : ℕ) → Call
  read : (killed : Bool) (copyout : ℕ → Bool) (n : ℕ) → Call
  close : (writable : Bool) → Call

-- The bytes that the writers put in and those that the readers took, in order.
pub record History : Type 0 where
  pub written : List ℕ
  pub taken : List ℕ
  pub pipe : Pipe

unfoldable pub run : List Call → Pipe → History
run [] p = record { written = []; taken = []; pipe = p }
run (write killed copyin k i ∷ calls) p =
    let w = write_from killed copyin k i p in
    let rest = run calls w.pipe in record rest { written = w.bytes ++ rest.written }
run (read killed copyout n ∷ calls) p =
    let r = piperead killed copyout n p in
    let rest = run calls r.pipe in record rest { taken = r.taken ++ rest.taken }
run (close writable ∷ calls) p = run calls (pipeclose writable p).0

close-IsValid :
    (writable : Bool) {p : Pipe}
    → IsValid p
    → IsValid (pipeclose writable p).0 × (contents (pipeclose writable p).0 ≡ contents p)
unfolding pipeclose
close-IsValid true v = (ground arith, refl)
close-IsValid false v = (ground arith, refl)

read-IsValid :
    (killed : Bool) (copyout : ℕ → Bool) (n : ℕ) {p : Pipe}
    → IsValid p
    → IsValid (piperead killed copyout n p).pipe
      × (contents p
          ≡ (piperead killed copyout n p).taken ++ contents (piperead killed copyout n p).pipe)
read-IsValid killed copyout n {p} v = elim (piperead-Took copyout killed n p v) [
  | inl (why, e) ↦ rw e (v, refl)
  | inr (why, t) ↦ (t.valid, t.queue)
]

-- Whatever calls run on a pipe in whatever order, no byte is lost, repeated or overtaken between
-- the ends: what was in the pipe and what was written is what was taken and what is in it.
pub run_fifo :
    (calls : List Call) (p : Pipe)
    → IsValid p
    → IsValid (run calls p).pipe
      × (contents p ++ (run calls p).written ≡ (run calls p).taken ++ contents (run calls p).pipe)
unfolding run
run_fifo [] p v = (v, append-nil (contents p))
run_fifo (write killed copyin k i ∷ calls) p v =
    let w = write_from-Wrote killed copyin k i p v in
    let (valid, rest) = run_fifo calls (write_from killed copyin k i p).pipe w.valid in
    (valid, rw (← append_assoc, ← w.queue) rest)
run_fifo (read killed copyout n ∷ calls) p v =
    let (now, queue) = read-IsValid killed copyout n v in
    let (valid, rest) = run_fifo calls (piperead killed copyout n p).pipe now in
    (valid, simp (queue, append_assoc) (ap (λ l. (piperead killed copyout n p).taken ++ l) rest))
run_fifo (close writable ∷ calls) p v =
    let (now, queue) = close-IsValid writable v in
    let (valid, rest) = run_fifo calls (pipeclose writable p).0 now in (valid, rw (← queue) rest)
