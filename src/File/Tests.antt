-- ===== src/File/Tests.antt =====
-- Runs of kernel/file.c.
use xv6_riscv_labs.Prelude.{ℕ, ◌≡◌, ◌≢◌, refl, true, false, some, List, [], ◌∷◌, update, arith}
use xv6_riscv_labs.File.Table.{
  Closing, File, Ftable, fd_none, fd_pipe, filedup, fileclose, nothing, close_pipe,
}
use xv6_riscv_labs.File.Holders.{Closes, count, IsCounted, filedup-IsCounted, fileclose-IsCounted}

abbrev unused : File
unused = record {
  type = fd_none;
  ref = 0;
  readable = false;
  writable = false;
  pipe = 0;
  ip = 0;
  off = 0;
  major = 0;
}

-- File 0 is the write end of pipe 7, held twice.
abbrev table : Ftable
table =
    update (λ _. unused) 0 (record unused { type = fd_pipe; ref = 2; writable = true; pipe = 7 })

abbrev held : List ℕ
held = 0 ∷ 0 ∷ []

table-IsCounted : IsCounted table held
table-IsCounted = record { counted = λ f. ground arith; known = λ f p. ground arith }

filedup-IsCounted_example : (t' : Ftable) × (filedup 0 table ≡ some t') × IsCounted t' (0 ∷ held)
filedup-IsCounted_example = filedup-IsCounted 0 table held table-IsCounted (omega arith)

fileclose-IsCounted_example :
    (c : Closing) × (t' : Ftable) × (fileclose 0 table ≡ some (c, t'))
    × (count 0 (0 ∷ []) ≡ 0 → Closes (table 0) c)
    × (count 0 (0 ∷ []) ≢ 0 → c ≡ nothing)
    × IsCounted t' (0 ∷ [])
fileclose-IsCounted_example = fileclose-IsCounted 0 table held (0 ∷ []) [] table-IsCounted refl

-- The last `fileclose` closes the write end.
last_close :
    fileclose 0 (update table 0 (record (table 0) { ref = 1 }))
    ≡ some (
      close_pipe 7 true,
      update
          (update table 0 (record (table 0) { ref = 1 }))
          0
          (record (table 0) { ref = 0; type = fd_none }),
    )
unfolding fileclose
last_close = refl
