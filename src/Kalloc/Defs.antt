-- ===== src/Kalloc/Defs.antt =====
-- kalloc and kfree of kernel/kalloc.c. Of a page only its first word is kept, in which a free page
-- holds the pointer to the next one.
use xv6_riscv_labs.Prelude.{
  ℕ, ◌+◌, ◌*◌, ◌%◌, ◌^◌, not, ◌||◌, Option, none, some, ◌==◌, ltb, leb, if◌then◌else◌, update,
}

abbrev pub pgsize : ℕ
pgsize = 4096

-- `PHYSTOP`
abbrev pub phystop : ℕ
phystop = 2 ^ 31 + 128 * 2 ^ 20

-- `kmem`, the first words of the pages, and `end`, the first address after the kernel.
pub record Kmem : Type 0 where
  pub freelist : ℕ
  pub next : ℕ → ℕ
  pub end_address : ℕ

-- A word of which `memset` has set each byte to `c`.
abbrev pub junk : ℕ → ℕ
junk c = c * 72340172838076673

-- `none` is the panic.
unfoldable pub kfree : ℕ → Kmem → Option Kmem
kfree pa m =
    if not (pa % pgsize == 0) || ltb pa m.end_address || leb phystop pa
    then none
    else some (record m { next = update (update m.next pa (junk 1)) pa m.freelist; freelist = pa })

-- The page, 0 if there is none.
unfoldable pub kalloc : Kmem → ℕ × Kmem
kalloc m =
    let r = m.freelist in
    if r == 0
    then (0, m)
    else (r, record m { freelist = m.next r; next = update m.next r (junk 5) })
