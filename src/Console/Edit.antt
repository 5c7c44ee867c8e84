-- ===== src/Console/Edit.antt =====
-- What the interrupt handler of kernel/console.c does to the lines typed so far.
use xv6_riscv_labs.Prelude.{
  ℕ, zero, suc, ◌+◌, ◌-◌, ◌%◌, ◌^◌, ◌≤◌, ◌<◌, ◌≡◌, ◌≢◌, refl, ap, ap₂, sym, ◌∙◌, Bool, true, false,
  not, ◌&&◌, ◌||◌, List, [], ◌∷◌, ◌++◌, ◌==◌, ltb, if◌then◌else◌, update, arith, Bool-cases, ◌⊎◌,
  inl, inr, ℕ_discrete,
}
use mathlib.Core.List.{append-nil, append_assoc}
use xv6_riscv_labs.Console.Defs.{
  Cons, input_buf_size, uint, minus, ctrl, newline, back, kill_line, as_newline, append, completes,
  store_char, consoleintr,
}

-- The complete lines, and the line being edited, as numbers of bytes.
abbrev pub ready : Cons → ℕ
ready c = minus c.w c.r

abbrev pub typed : Cons → ℕ
typed c = minus c.e c.r

pub record IsValid (c : Cons) : Type 0 where
  pub r_small : c.r < 2 ^ 32
  pub w_small : c.w < 2 ^ 32
  pub e_small : c.e < 2 ^ 32
  pub ordered : ready c ≤ typed c
  pub fits : typed c ≤ input_buf_size

-- The `k` bytes from index `i` on.
abbrev pub bytes_from : (ℕ → ℕ) → ℕ → ℕ → List ℕ
bytes_from buf i zero = []
bytes_from buf i (suc k) = buf (i % input_buf_size) ∷ bytes_from buf (uint (i + 1)) k

-- What `consoleread` can see, and all that was typed.
abbrev pub lines : Cons → List ℕ
lines c = bytes_from c.buf c.r (ready c)

abbrev pub input : Cons → List ℕ
input c = bytes_from c.buf c.r (typed c)

back-IsValid :
    (c : Cons) → IsValid c → c.e ≢ c.w → IsValid (back c) × (typed c ≡ suc (typed (back c)))
back-IsValid c v ne = (ground arith, ground arith)

-- The kill loop takes bytes off the end of the line being edited, and ends within its fuel.
pub kill_line_lem :
    (k : ℕ) (c : Cons)
    → IsValid c
    → minus c.e c.w ≤ k
    → IsValid (kill_line k c)
      × ((kill_line k c).buf ≡ c.buf)
      × ((kill_line k c).r ≡ c.r)
      × ((kill_line k c).w ≡ c.w)
      × (typed (kill_line k c) ≤ typed c)
      × (((kill_line k c).e ≡ c.w) ⊎ (c.buf (minus (kill_line k c).e 1 % input_buf_size) ≡ newline))
unfolding kill_line
kill_line_lem zero c v h = (v, refl, refl, refl, omega arith, inl (ground arith))
kill_line_lem (suc k) c v h = elim (ℕ_discrete c.e c.w) [
  | yes e ↦ ground (arith, v)
  | no ne ↦ elim (ℕ_discrete (c.buf (minus c.e 1 % input_buf_size)) newline) [
    | yes stop ↦ ground (arith, v, stop)
    | no more ↦
        let (valid, step) = back-IsValid c v ne in
        ground (arith, kill_line_lem k (back c) valid (ground arith), step)
  ]
]

bytes-update :
    (buf : ℕ → ℕ) (ch k d i w : ℕ)
    → k ≤ d
    → d < input_buf_size
    → w % input_buf_size ≡ (i + d) % input_buf_size
    → bytes_from (update buf (w % input_buf_size) ch) i k ≡ bytes_from buf i k
bytes-update buf ch zero d i w h l e = refl
bytes-update buf ch (suc k) d i w h l e =
    ap₂ ◌∷◌ (ground arith)
      (bytes-update buf ch k (d - 1) (uint (i + 1)) w (omega arith) (omega arith) (omega arith))

bytes-put :
    (buf : ℕ → ℕ) (ch k i w : ℕ)
    → k < input_buf_size
    → w % input_buf_size ≡ (i + k) % input_buf_size
    → bytes_from (update buf (w % input_buf_size) ch) i (suc k) ≡ bytes_from buf i k ++ (ch ∷ [])
bytes-put buf ch zero i w h e = ground arith
bytes-put buf ch (suc k) i w h e =
    ap₂ ◌∷◌ (ground arith) (bytes-put buf ch k (uint (i + 1)) w (omega arith) (omega arith))

bytes-split :
    (buf : ℕ → ℕ) (a n i : ℕ)
    → a ≤ n
    → i < 2 ^ 32
    → bytes_from buf i n ≡ bytes_from buf i a ++ bytes_from buf (uint (i + a)) (n - a)
bytes-split buf zero n i h small = ap₂ (bytes_from buf) (omega arith) (omega arith)
bytes-split buf (suc a) zero i h small = absurd (omega arith)
bytes-split buf (suc a) (suc n) i h small =
    ap (λ l. buf (i % input_buf_size) ∷ l)
      (bytes-split buf a n (uint (i + 1)) (omega arith) (omega arith)
        ∙ ap₂ (λ s k. bytes_from buf (uint (i + 1)) a ++ bytes_from buf s k) (omega arith)
            (omega arith))

-- What the handler may do to the buffer: the complete lines only grow at their end.
pub record Edits (c c' : Cons) : Type 0 where
  pub valid : IsValid c'
  pub start : c'.r ≡ c.r
  pub more : List ℕ
  pub grown : lines c' ≡ lines c ++ more

same-Edits : (c : Cons) → IsValid c → Edits c c
same-Edits c v = record { valid = v; start = refl; more = []; grown = sym (append-nil (lines c)) }

-- A change of the edit index alone.
shorter-Edits : (c c' : Cons) → IsValid c' → c'.buf ≡ c.buf → c'.r ≡ c.r → c'.w ≡ c.w → Edits c c'
shorter-Edits c c' v eb er ew = record {
  valid = v;
  start = er;
  more = [];
  grown =
      ap₂ (λ b i. bytes_from b i (ready c')) eb er
      ∙ ap (bytes_from c.buf c.r) (omega arith)
      ∙ sym (append-nil (lines c));
}

module _ (ch : ℕ) (c : Cons) (v : IsValid c) (room : typed c < input_buf_size) where
  grown_typed : typed (append ch c) ≡ suc (typed c)
  grown_typed = ground arith

  -- A stored character is the last one of the input.
  input-append : input (append ch c) ≡ input c ++ (ch ∷ [])
  input-append =
      ap (bytes_from (update c.buf (c.e % input_buf_size) ch) c.r) grown_typed
      ∙ bytes-put c.buf ch (typed c) c.r c.e room (ground arith)

  lines-append : lines (append ch c) ≡ lines c
  lines-append = bytes-update c.buf ch (ready c) (typed c) c.r c.e v.ordered room (ground arith)

  lines-input : input c ≡ lines c ++ bytes_from c.buf (uint (c.r + ready c)) (typed c - ready c)
  lines-input = bytes-split c.buf (ready c) (typed c) c.r v.ordered v.r_small

  -- `store_char` puts the character at the end of the input, and shows all of the input to readers
  -- exactly if the character completes a line or the buffer is full.
  pub store_char_lem :
      Edits c (store_char ch c)
      × (input (store_char ch c) ≡ input c ++ (ch ∷ []))
      × ((completes ch (append ch c) ≡ true) → lines (store_char ch c) ≡ input c ++ (ch ∷ []))
      × ((completes ch (append ch c) ≡ false) → lines (store_char ch c) ≡ lines c)
  unfolding store_char
  store_char_lem = elim (Bool-cases (completes ch (append ch c))) [
    | inl done ↦ rw done (
      record {
        valid = ground (arith, v);
        start = refl;
        more = bytes_from c.buf (uint (c.r + ready c)) (typed c - ready c) ++ (ch ∷ []);
        grown =
            input-append
            ∙ ap (λ l. l ++ (ch ∷ [])) lines-input
            ∙ append_assoc (lines c) (bytes_from c.buf (uint (c.r + ready c)) (typed c - ready c))
                (ch ∷ []);
      },
      input-append,
      λ e. input-append,
      λ e. cc,
    )
    | inr open_line ↦ rw open_line (
      record {
        valid = ground (arith, v);
        start = refl;
        more = [];
        grown = lines-append ∙ sym (append-nil (lines c));
      },
      input-append,
      λ e. cc,
      λ e. lines-append,
    )
  ]

if-Edits :
    (b : Bool) (c x y : Cons)
    → (b ≡ true → Edits c x)
    → (b ≡ false → Edits c y)
    → Edits c (if b then x else y)
if-Edits true c x y h k = h refl
if-Edits false c x y h k = k refl

kill-Edits : (c : Cons) → IsValid c → Edits c (kill_line input_buf_size c)
kill-Edits c v =
    let (valid, buf, r, w, le, rest) = kill_line_lem input_buf_size c v (ground arith) in
    shorter-Edits c (kill_line input_buf_size c) valid buf r w

back-Edits : (c : Cons) → IsValid c → (c.e == c.w) ≡ false → Edits c (back c)
back-Edits c v ne = shorter-Edits c (back c) (back-IsValid c v (ground arith)).0 refl refl refl

-- Whatever is typed, the handler keeps the indices in order and the input within the buffer, and
-- the complete lines stay as they are or grow at their end: no line that `consoleread` can see is
-- edited or killed.
pub consoleintr-Edits : (ch : ℕ) (c : Cons) → IsValid c → Edits c (consoleintr ch c)
unfolding consoleintr
consoleintr-Edits ch c v =
    if-Edits (ch == ctrl b'P') c _ _ (λ _. same-Edits c v)
      (λ _.
        if-Edits (ch == ctrl b'U') c _ _ (λ _. kill-Edits c v)
          (λ _.
            if-Edits (ch == ctrl b'H' || ch == 127) c _ _
              (λ _. if-Edits (c.e == c.w) c _ _ (λ _. same-Edits c v) (back-Edits c v))
              (λ _.
                if-Edits (not (ch == 0) && ltb (typed c) input_buf_size) c _ _
                  (λ room. (store_char_lem (as_newline ch) c v (ground (arith, room))).0)
                  (λ _. same-Edits c v))))
