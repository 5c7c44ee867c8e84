-- ===== src/Kalloc/Tests.antt =====
-- Runs of kernel/kalloc.c.
use xv6_riscv_labs.Prelude.{
  ℕ, ◌+◌, ◌^◌, ◌≡◌, ◌≢◌, refl, Bool, true, false, List, [], ◌∷◌, ◌==◌, update, arith, ◌⊎◌,
}
use xv6_riscv_labs.Kalloc.Defs.{Kmem, kalloc}
use xv6_riscv_labs.Kalloc.Pages.{IsHeap, kalloc_lem}

abbrev first_page : ℕ
first_page = 2 ^ 31 + 4096

-- One page is free, and the next one is in use.
abbrev one_free : Kmem
one_free = record { freelist = first_page; next = λ _. 0; end_address = 2 ^ 31 }

abbrev taken : ℕ → Bool
taken p = p == 2147491840

one_free-IsHeap : IsHeap taken (first_page ∷ []) one_free
one_free-IsHeap = record {
  chain = (refl, (λ e. absurd (omega arith)), refl);
  distinct = (tt, tt);
  apart = (refl, tt);
}

kalloc_lem_example :
    (((first_page ∷ []) ≡ []) × (kalloc one_free ≡ (0, one_free)))
    ⊎ ((p : ℕ) × (rest : List ℕ) × ((first_page ∷ []) ≡ p ∷ rest)
        × ((kalloc one_free).0 ≡ p)
        × (p ≢ 0)
        × (taken p ≡ false)
        × IsHeap (update taken p true) rest (kalloc one_free).1)
kalloc_lem_example = kalloc_lem taken (first_page ∷ []) one_free one_free-IsHeap
