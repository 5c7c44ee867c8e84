-- ===== src/Links/Defs.antt =====
-- kernel/list.c: circular lists with links both ways. A node is its address.
use xv6_riscv_labs.Prelude.{ℕ, Bool, Option, none, some, ◌==◌, if◌then◌else◌, update}

-- `struct list` at each address.
pub record Links : Type 0 where
  pub next : ℕ → ℕ
  pub prev : ℕ → ℕ

abbrev pub set_next : ℕ → ℕ → Links → Links
set_next a v m = record m { next = update m.next a v }

abbrev pub set_prev : ℕ → ℕ → Links → Links
set_prev a v m = record m { prev = update m.prev a v }

unfoldable pub lst_init : ℕ → Links → Links
lst_init lst m = set_prev lst lst (set_next lst lst m)

unfoldable pub lst_empty : ℕ → Links → Bool
lst_empty lst m = m.next lst == lst

unfoldable pub lst_remove : ℕ → Links → Links
lst_remove e m = let m1 = set_next (m.prev e) (m.next e) m in set_prev (m1.next e) (m1.prev e) m1

-- `none` is the panic.
unfoldable pub lst_pop : ℕ → Links → Option (ℕ × Links)
lst_pop lst m = if m.next lst == lst then none else some (m.next lst, lst_remove (m.next lst) m)

unfoldable pub lst_push : ℕ → ℕ → Links → Links
lst_push lst p m =
    let m1 = set_next p (m.next lst) m in
    let m2 = set_prev p lst m1 in let m3 = set_prev (m2.next lst) p m2 in set_next lst p m3
