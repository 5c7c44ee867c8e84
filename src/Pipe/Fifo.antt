-- ===== src/Pipe/Fifo.antt =====
-- What the calls of kernel/pipe.c do to the queue of a pipe, one by one and in any order.
use xv6_riscv_labs.Prelude.{
  ℕ, zero, suc, ◌+◌, ◌≤◌, ◌<◌, ◌≡◌, refl, ap, sym, ◌∙◌, Bool, true, not, ◌||◌, Option, none, some,
  [], ◌∷◌, ◌++◌, arith, length, get_elem?, Bool-cases, Option-cases, ◌⊎◌, inl, inr,
}
use mathlib.Core.List.{append-nil, append_assoc}
use xv6_riscv_labs.Pipe.Defs.{
  Pipe, put, is_full, Outcome, returned, failed, asleep, Writing, write_from,
}
use xv6_riscv_labs.Pipe.Queue.{IsValid, contents, put_lem}

-- What a run of `pipewrite` leaves: the queue extended by the bytes written.
pub record Wrote (copyin : ℕ → Option ℕ) (k i : ℕ) (p : Pipe) (w : Writing) : Type 0 where
  pub valid : IsValid w.pipe
  pub queue : contents w.pipe ≡ contents p ++ w.bytes
  pub few : length w.bytes ≤ k
  pub source : (j : ℕ) → j < length w.bytes → get_elem? w.bytes j ≡ copyin (i + j)
  pub ends :
      (w.outcome ≡ failed)
      ⊎ ((w.outcome ≡ asleep) × (is_full w.pipe ≡ true) × (length w.bytes < k))
      ⊎ ((w.outcome ≡ returned (i + length w.bytes))
          × ((length w.bytes ≡ k) ⊎ (copyin (i + length w.bytes) ≡ none)))

module _ (killed : Bool) (copyin : ℕ → Option ℕ) where
  Wrote-nothing :
      (k i : ℕ) (p : Pipe) (o : Outcome)
      → IsValid p
      → (o ≡ failed)
        ⊎ ((o ≡ asleep) × (is_full p ≡ true) × (0 < k))
        ⊎ ((o ≡ returned i) × ((0 ≡ k) ⊎ (copyin i ≡ none)))
      → Wrote copyin k i p (record { outcome = o; bytes = []; pipe = p })
  Wrote-nothing k i p o v h = record {
    valid = v;
    queue = sym (append-nil (contents p));
    few = omega arith;
    source = λ j lt. absurd (omega arith);
    ends = ground (arith, h);
  }

  Wrote-one :
      (k i ch : ℕ) (p : Pipe) (rest : Writing)
      → copyin i ≡ some ch
      → contents (put ch p) ≡ contents p ++ (ch ∷ [])
      → Wrote copyin k (i + 1) (put ch p) rest
      → Wrote copyin (suc k) i p (record rest { bytes = ch ∷ rest.bytes })
  Wrote-one k i ch p rest e q r = record {
    valid = r.valid;
    queue = r.queue ∙ ap (λ l. l ++ rest.bytes) q ∙ append_assoc (contents p) (ch ∷ []) rest.bytes;
    few = omega (arith, r.few);
    source = source;
    ends = ground (arith, r.ends);
  }
    where
      source :
          (j : ℕ) → j < suc (length rest.bytes) → get_elem? (ch ∷ rest.bytes) j ≡ copyin (i + j)
      source zero lt = ground arith
      source (suc j) lt = ground (arith, r.source j)

  -- Each run of `pipewrite` puts the next bytes of the caller's memory at the end of the queue. It
  -- returns -1 (on a closed read end or a killed caller), or sleeps before the last byte because
  -- the pipe is full, or returns the number of bytes, all of them unless `copyin` failed.
  pub write_from-Wrote :
      (k i : ℕ) (p : Pipe) → IsValid p → Wrote copyin k i p (write_from killed copyin k i p)
  unfolding write_from
  write_from-Wrote zero i p v = Wrote-nothing zero i p (returned i) v (inr (inr (refl, inl refl)))
  write_from-Wrote (suc k) i p v = elim (Bool-cases (not p.readopen || killed)) [
    | inl closed ↦ rw closed (Wrote-nothing (suc k) i p failed v (inl refl))
    | inr open_end ↦ elim (Bool-cases (is_full p)) [
      | inl full ↦
          rw (open_end, full)
            (Wrote-nothing (suc k) i p asleep v (inr (inl (refl, full, omega arith))))
      | inr room ↦ elim (Option-cases (copyin i)) [
        | inl fault ↦
            rw (open_end, room, fault)
              (Wrote-nothing (suc k) i p (returned i) v (inr (inr (refl, inr fault))))
        | inr (ch, e) ↦
            rw (open_end, room, e)
              (Wrote-one k i ch p (write_from killed copyin k (i + 1) (put ch p)) e
                (put_lem v ch room).1 (write_from-Wrote k (i + 1) (put ch p) (put_lem v ch room).0))
      ]
    ]
  ]
