-- ===== src/Console/Read.antt =====
-- `consoleread` of kernel/console.c: what a reader gets of the complete lines.
use native.Mathlib.Nat.{add-zero}
use xv6_riscv_labs.Prelude.{
  ℕ, zero, suc, ◌+◌, ◌-◌, ◌%◌, ◌≤◌, ◌<◌, ◌≡◌, ◌≢◌, refl, ap, ◌∙◌, Bool, true, false, List, [], ◌∷◌,
  ◌++◌, ◌==◌, ltb, if◌then◌else◌, arith, length, Bool-cases, ◌⊎◌, inl, inr,
}
use xv6_riscv_labs.Console.Defs.{
  Cons, input_buf_size, ctrl, newline, Outcome, returned, failed, asleep, Reading, take_char,
  read_from,
}
use xv6_riscv_labs.Console.Edit.{IsValid, ready, bytes_from, lines}

-- Bytes of one line: no end of file among them, and a newline only as the last.
abbrev pub OneLine : List ℕ → Type 0
OneLine [] = Unit
OneLine (ch ∷ rest) = (ch ≢ ctrl b'D') × ((ch ≡ newline) → rest ≡ []) × OneLine rest

take_char_lem :
    (c : Cons)
    → IsValid c
    → c.r ≢ c.w
    → IsValid (take_char c) × (lines c ≡ c.buf (c.r % input_buf_size) ∷ lines (take_char c))
take_char_lem c v ne = (ground arith, ap (bytes_from c.buf c.r) shrink)
  where
    shrink : ready c ≡ suc (ready (take_char c))
    shrink = ground arith

-- Why a call returns its count: it delivered all that was asked for, or a line to its end; or it
-- took a last byte, an end of file or one that `copyout` refused; or the next byte is an end of
-- file that it leaves for the next call.
abbrev pub Stops : ℕ → ℕ → Reading → Type 0
Stops k i r =
    (length r.bytes ≡ k)
    ⊎ ((xs : List ℕ) × (r.bytes ≡ xs ++ (newline ∷ [])))
    ⊎ ((ch : ℕ) × (r.taken ≡ r.bytes ++ (ch ∷ [])))
    ⊎ ((0 < i + length r.bytes) × ((rest : List ℕ) × (lines r.cons ≡ ctrl b'D' ∷ rest)))

-- What a run of `consoleread` leaves. The bytes taken from the lines are those delivered, and at
-- most one more: an end of file before all of them, or a byte that `copyout` refused.
pub record Reads (killed : Bool) (copyout : ℕ → Bool) (k i : ℕ) (c : Cons) (r : Reading)
    : Type 0 where
  pub valid : IsValid r.cons
  pub queue : lines c ≡ r.taken ++ lines r.cons
  pub few : length r.bytes ≤ k
  pub line : OneLine r.bytes
  pub taken :
      (r.taken ≡ r.bytes)
      ⊎ ((ch : ℕ) × (r.taken ≡ r.bytes ++ (ch ∷ []))
          × (((ch ≡ ctrl b'D') × (i + length r.bytes ≡ 0))
              ⊎ (copyout (i + length r.bytes) ≡ false)))
  pub ends :
      ((killed ≡ true) × (r.outcome ≡ failed) × (lines r.cons ≡ []))
      ⊎ ((killed ≡ false)
          × (r.outcome ≡ asleep (k - length r.bytes))
          × (lines r.cons ≡ [])
          × (length r.bytes < k))
      ⊎ ((r.outcome ≡ returned (i + length r.bytes)) × Stops k i r)

Stops-one :
    (k i ch : ℕ) (rest : Reading)
    → Stops k (i + 1) rest
    → Stops (suc k) i (record rest { bytes = ch ∷ rest.bytes; taken = ch ∷ rest.taken })
Stops-one k i ch rest (inl all) = inl (omega (arith, all))
Stops-one k i ch rest (inr (inl (xs, e))) = inr (inl (ch ∷ xs, ap (λ l. ch ∷ l) e))
Stops-one k i ch rest (inr (inr (inl (last, e)))) = inr (inr (inl (last, ap (λ l. ch ∷ l) e)))
Stops-one k i ch rest (inr (inr (inr (h, left)))) = inr (inr (inr (omega (arith, h), left)))

module _ (killed : Bool) (copyout : ℕ → Bool) where
  -- A byte delivered before the rest of the call.
  Reads-one :
      (k i ch : ℕ) (c : Cons) (rest : Reading)
      → lines c ≡ ch ∷ lines (take_char c)
      → ch ≢ ctrl b'D'
      → ch ≢ newline
      → Reads killed copyout k (i + 1) (take_char c) rest
      → Reads killed copyout
          (suc k)
          i
          c
          (record rest { bytes = ch ∷ rest.bytes; taken = ch ∷ rest.taken })
  Reads-one k i ch c rest q nd nn t = record {
    valid = t.valid;
    queue = q ∙ ap (λ l. ch ∷ l) t.queue;
    few = omega (arith, t.few);
    line = (nd, (λ e. absurd (nn e)), t.line);
    taken = elim t.taken [
      | inl same ↦ inl (ap (λ l. ch ∷ l) same)
      | inr (lost, e, why) ↦ inr (lost, ap (λ l. ch ∷ l) e, ground (arith, why))
    ];
    ends = elim t.ends [
      | inl failure ↦ inl failure
      | inr (inl (alive, e, empty, h)) ↦
          inr (inl (alive, e ∙ ap asleep (omega arith), empty, omega (arith, h)))
      | inr (inr (e, why)) ↦ inr (inr (e ∙ ap returned (omega arith), Stops-one k i ch rest why))
    ];
  }

  Reads-none :
      (k i : ℕ) (c : Cons) (o : Outcome)
      → IsValid c
      → ((killed ≡ true) × (o ≡ failed) × (lines c ≡ []))
        ⊎ ((killed ≡ false) × (o ≡ asleep k) × (lines c ≡ []) × (0 < k))
        ⊎ ((o ≡ returned i) × Stops k i (record { outcome = o; bytes = []; taken = []; cons = c }))
      → Reads killed copyout k i c (record { outcome = o; bytes = []; taken = []; cons = c })
  Reads-none k i c o v h = record {
    valid = v;
    queue = refl;
    few = omega arith;
    line = tt;
    taken = inl refl;
    ends = elim h [
      | inl failure ↦ inl failure
      | inr (inl (alive, e, empty, some_left)) ↦
          inr (inl (alive, e ∙ ap asleep (omega arith), empty, some_left))
      | inr (inr (e, why)) ↦ inr (inr (e ∙ ap returned (omega arith), why))
    ];
  }

  lines_empty : (c : Cons) → IsValid c → c.r ≡ c.w → lines c ≡ []
  lines_empty c v e = ap (bytes_from c.buf c.r) none_ready
    where
      none_ready : ready c ≡ 0
      none_ready = ground arith

  -- A run of `consoleread` takes bytes from the front of the complete lines and delivers at most
  -- one line: nothing after a newline, and no end of file. It returns -1 if it finds no complete
  -- line left and its caller is killed, and sleeps if it finds none, is not and has bytes to read.
  -- Else it returns how many bytes it delivered, and it does so only if these are all that was
  -- asked for or end in a newline, if it took a byte that `copyout` refused, or an end of file with
  -- nothing delivered, or if it has delivered some and the next byte is an end of file.
  pub read_from-Reads :
      (k i : ℕ) (c : Cons) → IsValid c → Reads killed copyout k i c (read_from killed copyout k i c)
  unfolding read_from
  read_from-Reads zero i c v = Reads-none zero i c (returned i) v (inr (inr (refl, inl refl)))
  read_from-Reads (suc k) i c v = elim (Bool-cases (c.r == c.w)) [
    | inl empty ↦ rw empty (
        Reads-none (suc k) i c (if killed then failed else asleep (suc k)) v
          (ground (arith, lines_empty c v)))
    | inr some_ready ↦
        let ch = c.buf (c.r % input_buf_size) in
        let (valid, first) = take_char_lem c v (ground arith) in
        elim (Bool-cases (ch == ctrl b'D')) [
          | inl eof ↦ elim (Bool-cases (ltb 0 i)) [
            | inl later ↦
                rw (some_ready, eof, later)
                  (Reads-none (suc k) i c (returned i) v (
                    inr (
                      inr (
                        refl,
                        inr (
                            inr (
                              inr (
                                ground (arith, later),
                                (
                                  lines (take_char c),
                                  first ∙ ap (λ x. x ∷ lines (take_char c)) (ground (arith, eof)),
                                ),
                              ))),
                      ))))
            | inr at_start ↦
                rw (some_ready, eof, at_start)
                  (record {
                    valid = valid;
                    queue = first;
                    few = omega arith;
                    line = tt;
                    taken = inr (ch, refl, inl (ground (arith, eof), ground (arith, at_start)));
                    ends = inr (inr (ap returned (omega arith), inr (inr (inl (ch, refl)))));
                  })
          ]
          | inr plain ↦ elim (Bool-cases (copyout i)) [
            | inr fault ↦
                rw (some_ready, plain, fault)
                  (record {
                    valid = valid;
                    queue = first;
                    few = omega arith;
                    line = tt;
                    taken = inr (ch, refl, inr (rw add-zero fault));
                    ends = inr (inr (ap returned (omega arith), inr (inr (inl (ch, refl)))));
                  })
            | inl good ↦ elim (Bool-cases (ch == newline)) [
              | inl end_line ↦
                  rw (some_ready, plain, good, end_line)
                    (record {
                      valid = valid;
                      queue = first;
                      few = omega arith;
                      line = (ground arith, (λ _. refl), tt);
                      taken = inl refl;
                      ends = inr (
                          inr (
                            ap returned (omega arith),
                            inr (inl ([], ap (λ x. x ∷ []) (ground (arith, end_line)))),
                          ));
                    })
              | inr more ↦
                  rw (some_ready, plain, good, more)
                    (Reads-one k i ch c (read_from killed copyout k (i + 1) (take_char c)) first
                      (ground arith) (ground arith) (read_from-Reads k (i + 1) (take_char c) valid))
            ]
          ]
        ]
  ]
