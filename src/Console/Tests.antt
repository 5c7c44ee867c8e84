-- ===== src/Console/Tests.antt =====
-- Runs of kernel/console.c.
use xv6_riscv_labs.Prelude.{if◌then◌else◌, ◌==◌, ◌-◌, ◌^◌, ◌≡◌, refl, true, false, [], ◌∷◌, arith}
use xv6_riscv_labs.Console.Defs.{Cons, newline, store_char, consoleintr, read_from, returned}
use xv6_riscv_labs.Console.Edit.{IsValid, Edits, lines, consoleintr-Edits}
use xv6_riscv_labs.Console.Read.{Reads, read_from-Reads}

abbrev quiet : Cons
quiet = record { buf = λ _. 0; r = 2 ^ 32 - 1; w = 2 ^ 32 - 1; e = 2 ^ 32 - 1 }

quiet-IsValid : IsValid quiet
quiet-IsValid = record {
  r_small = omega arith;
  w_small = omega arith;
  e_small = omega arith;
  ordered = omega arith;
  fits = omega arith;
}

-- One character, then a carriage return, at the index where `uint` wraps.
abbrev typed_line : Cons
typed_line = store_char newline (store_char b'a' quiet)

lines-typed : lines typed_line ≡ b'a' ∷ newline ∷ []
unfolding store_char
lines-typed = refl

-- A full line in the buffer, `a` and a newline, read with a buffer of five bytes.
abbrev one_line : Cons
one_line = record { buf = λ i. if i == 127 then b'a' else newline; r = 127; w = 129; e = 130 }

one_line-IsValid : IsValid one_line
one_line-IsValid = record {
  r_small = omega arith;
  w_small = omega arith;
  e_small = omega arith;
  ordered = omega arith;
  fits = omega arith;
}

reads_line : (read_from false (λ _. true) 5 0 one_line).outcome ≡ returned 2
unfolding read_from
reads_line = refl

consoleintr-Edits_example : Edits one_line (consoleintr 13 one_line)
consoleintr-Edits_example = consoleintr-Edits 13 one_line one_line-IsValid

read_from-Reads_example :
    Reads false (λ _. true) 5 0 one_line (read_from false (λ _. true) 5 0 one_line)
read_from-Reads_example = read_from-Reads false (λ _. true) 5 0 one_line one_line-IsValid
