-- ===== src/Vm/Defs.antt =====
-- walk, walkaddr, copyin and copyout of kernel/vm.c. The pages of page tables are an array of
-- words, by address, apart from the bytes of the other pages. Shifts and masks are written as
-- divisions, products and remainders.
use xv6_riscv_labs.Prelude.{
  ℕ, zero, suc, ◌+◌, ◌-◌, ◌*◌, ◌/◌, ◌%◌, ◌^◌, Bool, true, false, not, ◌&&◌, ◌||◌, Option, none,
  some, List, [], ◌∷◌, ◌==◌, ltb, leb, if◌then◌else◌, update,
}
use xv6_riscv_labs.Str.{memmove}

abbrev pub pgsize : ℕ
pgsize = 4096

-- `PGROUNDDOWN(a)`
abbrev pub pg_round_down : ℕ → ℕ
pg_round_down a = a / pgsize * pgsize

abbrev pub maxva : ℕ
maxva = 2 ^ 38

-- Bit `k` of a page-table entry.
abbrev pub flag : ℕ → ℕ → Bool
flag k pte = pte / 2 ^ k % 2 == 1

abbrev pub pte_v : ℕ → Bool
pte_v pte = flag 0 pte

abbrev pub pte_w : ℕ → Bool
pte_w pte = flag 2 pte

abbrev pub pte_u : ℕ → Bool
pte_u pte = flag 4 pte

-- `PTE2PA(pte)`
abbrev pub pte2pa : ℕ → ℕ
pte2pa pte = pte / 2 ^ 10 * 2 ^ 12 % 2 ^ 64

-- `PA2PTE(pa)`
abbrev pub pa2pte : ℕ → ℕ
pa2pte pa = pa / 2 ^ 12 * 2 ^ 10

-- `PX(level, va)`
abbrev pub px : ℕ → ℕ → ℕ
px level va = va / 2 ^ (12 + 9 * level) % 512

-- `&pagetable[PX(level, va)]`
abbrev pub pte_at : ℕ → ℕ → ℕ → ℕ
pte_at pagetable level va = pagetable + 8 * px level va

-- The words of the page tables, and the pages that `kalloc` gives, in their order.
pub record Tables : Type 0 where
  pub words : ℕ → ℕ
  pub free : List ℕ

-- `memset(pagetable, 0, PGSIZE)`
abbrev pub zero_page : ℕ → (ℕ → ℕ) → ℕ → ℕ
zero_page p words a = if leb p a && ltb a (p + pgsize) then 0 else words a

-- A new page-table page for the entry at `pte`.
abbrev pub extend : ℕ → ℕ → Tables → Tables
extend pte page t = record t { words = update (zero_page page t.words) pte (pa2pte page + 1) }

-- The loop of `walk` from `level` on: the address of the entry, if there is one, and the tables.
unfoldable pub walk_from : ℕ → ℕ → ℕ → Bool → Tables → Option ℕ × Tables
walk_from zero pagetable va alloc t = (some (pte_at pagetable 0 va), t)
walk_from (suc level) pagetable va alloc t =
    let pte = pte_at pagetable (suc level) va in
    if pte_v (t.words pte)
    then walk_from level (pte2pa (t.words pte)) va alloc t
    else if not alloc
    then (none, t)
    else elim t.free [
      | [] ↦ (none, t)
      | page ∷ rest ↦ walk_from level page va alloc (extend pte page (record t { free = rest }))
    ]

-- `walk`; `none` is the panic.
unfoldable pub walk : ℕ → ℕ → Bool → Tables → Option (Option ℕ × Tables)
walk pagetable va alloc t = if leb maxva va then none else some (walk_from 2 pagetable va alloc t)

-- `walkaddr`: the result of `walk` below `MAXVA`.
unfoldable pub walkaddr : ℕ → Tables → ℕ → ℕ
walkaddr pagetable t va = if leb maxva va then 0 else elim (walk_from 2 pagetable va false t).0 [
  | none ↦ 0
  | some pte ↦
      if not (pte_v (t.words pte))
      then 0
      else if not (pte_u (t.words pte))
      then 0
      else pte2pa (t.words pte)
]

-- The tests of `copyout`: the page that may be written at `va0`.
unfoldable pub writable : ℕ → Tables → ℕ → Option ℕ
writable pagetable t va0 =
    if leb maxva va0 then none else elim (walk_from 2 pagetable va0 false t).0 [
      | none ↦ none
      | some pte ↦
          if not (pte_v (t.words pte)) || not (pte_u (t.words pte)) || not (pte_w (t.words pte))
          then none
          else some (pte2pa (t.words pte))
    ]

-- `n = PGSIZE - (va - va0); if(n > len) n = len;`
abbrev pub chunk : ℕ → ℕ → ℕ
chunk va len = let n = pgsize - (va - pg_round_down va) in if ltb len n then len else n

-- The loop of `copyin`, where `pa` is `walkaddr`, on fuel: the value returned is 0, and the bytes.
unfoldable pub copyin_from : ℕ → (ℕ → ℕ) → ℕ → ℕ → ℕ → (ℕ → ℕ) → Bool × (ℕ → ℕ)
copyin_from zero pa dst srcva len m = (len == 0, m)
copyin_from (suc k) pa dst srcva len m =
    let va0 = pg_round_down srcva in
    let n = chunk srcva len in
    let rest =
      copyin_from k pa (dst + n) (va0 + pgsize) (len - n)
        (memmove dst (pa va0 + (srcva - va0)) n m) in
    if len == 0 then (true, m) else if pa va0 == 0 then (false, m) else rest

-- `copyin`: each round copies a byte at least.
unfoldable pub copyin : ℕ → Tables → ℕ → ℕ → ℕ → (ℕ → ℕ) → Bool × (ℕ → ℕ)
copyin pagetable t dst srcva len m = copyin_from len (walkaddr pagetable t) dst srcva len m

-- The loop of `copyout`, where `page` is its tests, on fuel.
unfoldable pub copyout_from : ℕ → (ℕ → Option ℕ) → ℕ → ℕ → ℕ → (ℕ → ℕ) → Bool × (ℕ → ℕ)
copyout_from zero page dstva src len m = (len == 0, m)
copyout_from (suc k) page dstva src len m =
    let va0 = pg_round_down dstva in
    let n = chunk dstva len in
    if len == 0 then (true, m) else elim (page va0) [
      | none ↦ (false, m)
      | some pa0 ↦
          copyout_from k page (va0 + pgsize) (src + n) (len - n)
            (memmove (pa0 + (dstva - va0)) src n m)
    ]

unfoldable pub copyout : ℕ → Tables → ℕ → ℕ → ℕ → (ℕ → ℕ) → Bool × (ℕ → ℕ)
copyout pagetable t dstva src len m = copyout_from len (writable pagetable t) dstva src len m
