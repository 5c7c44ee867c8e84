-- ===== src/Vm/Entry.antt =====
-- Single rounds of `walk` of kernel/vm.c, and the entries and free pages that it needs.
use xv6_riscv_labs.Prelude.{
  ==-false, subst, ℕ, zero, suc, ◌+◌, ◌%◌, ◌^◌, ◌<◌, ◌≤◌, ◌≡◌, ◌≢◌, refl, ap, Bool, true, false,
  none, List, [], ◌∷◌, arith, ◌⊎◌, inl, inr,
}
use xv6_riscv_labs.Vm.Defs.{
  pgsize, pte_v, pte2pa, pa2pte, pte_at, Tables, zero_page, extend, walk_from,
}

-- An address outside every page of a list.
abbrev pub Outside : ℕ → List ℕ → Type 0
Outside a [] = Unit
Outside a (page ∷ rest) = ((a < page) ⊎ (page + pgsize ≤ a)) × Outside a rest

-- Pages that `kalloc` may give: whole, below `2 ^ 56`, and each one once.
abbrev pub AreFree : List ℕ → Type 0
AreFree [] = Unit
AreFree (page ∷ rest) =
    (page % pgsize ≡ 0)
    × (page < 2 ^ 56)
    × ((a : ℕ) → page ≤ a → a < page + pgsize → Outside a rest)
    × AreFree rest

-- The entries that a walk of `va` meets stand in no free page.
abbrev pub IsPath : ℕ → ℕ → ℕ → Tables → Type 0
IsPath zero pagetable va t = Unit
IsPath (suc level) pagetable va t =
    Outside (pte_at pagetable (suc level) va) t.free
    × (pte_v (t.words (pte_at pagetable (suc level) va)) ≡ true
        → IsPath level (pte2pa (t.words (pte_at pagetable (suc level) va))) va t)

-- The entry of a new page leads to the page.
pub entry-page : (page : ℕ) → page % pgsize ≡ 0 → page < 2 ^ 56 → pte2pa (pa2pte page + 1) ≡ page
entry-page page al small = omega arith

pub entry-valid : (page : ℕ) → pte_v (pa2pte page + 1) ≡ true
entry-valid page = ground arith

pub pte_at-inside :
    (page level va : ℕ) → (page ≤ pte_at page level va) × (pte_at page level va < page + pgsize)
pte_at-inside page level va = (omega arith, omega arith)

-- A page of zeros is a path.
pub zeros-IsPath :
    (level page va : ℕ) (t : Tables)
    → ((a : ℕ) → page ≤ a → a < page + pgsize → t.words a ≡ 0)
    → ((a : ℕ) → page ≤ a → a < page + pgsize → Outside a t.free)
    → IsPath level page va t
zeros-IsPath zero page va t z o = tt
zeros-IsPath (suc level) page va t z o =
    let (low, high) = pte_at-inside page (suc level) va in
    (
      o (pte_at page (suc level) va) low high,
      λ v. absurd (ground (arith, z (pte_at page (suc level) va) low high, v)),
    )

pub List-cases : (l : List ℕ) → (l ≡ []) ⊎ ((x : ℕ) × (rest : List ℕ) × (l ≡ x ∷ rest))
List-cases [] = inl refl
List-cases (x ∷ rest) = inr (x, rest, refl)

-- The tables with a new page for the entry of `va` in `page`.
abbrev pub added : ℕ → ℕ → ℕ → ℕ → List ℕ → Tables → Tables
added level page va new rest t = extend (pte_at page (suc level) va) new (record t { free = rest })

pub walk_valid :
    (level page va : ℕ) (alloc : Bool) (t : Tables)
    → pte_v (t.words (pte_at page (suc level) va)) ≡ true
    → walk_from (suc level) page va alloc t
      ≡ walk_from level (pte2pa (t.words (pte_at page (suc level) va))) va alloc t
unfolding walk_from
walk_valid level page va alloc t v = rw (v, walk_from) refl

pub walk_stops :
    (level page va : ℕ) (alloc : Bool) (t : Tables)
    → pte_v (t.words (pte_at page (suc level) va)) ≡ false
    → (alloc ≡ false) ⊎ (t.free ≡ [])
    → walk_from (suc level) page va alloc t ≡ (none, t)
unfolding walk_from
walk_stops level page va false t v h = rw (v, walk_from) refl
walk_stops level page va true t v (inl e) = absurd (ground (arith, e))
walk_stops level page va true t v (inr e) =
    rw (v, e, walk_from) (ap (λ l. (none, record { words = t.words; free = l })) e)

pub walk_adds :
    (level page va new : ℕ) (rest : List ℕ) (t : Tables)
    → pte_v (t.words (pte_at page (suc level) va)) ≡ false
    → t.free ≡ new ∷ rest
    → walk_from (suc level) page va true t
      ≡ walk_from level new va true (added level page va new rest t)
unfolding walk_from
walk_adds level page va new rest t v e = rw (v, e, walk_from) refl

-- An entry in use keeps its word when pages are added.
pub added-keeps :
    (level page va new : ℕ) (rest : List ℕ) (t : Tables) (a : ℕ)
    → pte_v (t.words (pte_at page (suc level) va)) ≡ false
    → Outside a (new ∷ rest)
    → pte_v (t.words a) ≡ true
    → (added level page va new rest t).words a ≡ t.words a
added-keeps level page va new rest t a v o w =
    rw (==-false (pte_at page (suc level) va) a other) (outside_page (o.0))
  where
    other : pte_at page (suc level) va ≢ a
    other e = ground (arith, subst (λ x. pte_v (t.words x) ≡ false) e v, w)

    outside_page : (a < new) ⊎ (new + pgsize ≤ a) → zero_page new t.words a ≡ t.words a
    outside_page (inl h) = ground arith
    outside_page (inr h) = ground arith
