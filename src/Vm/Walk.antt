-- ===== src/Vm/Walk.antt =====
-- `walk` of kernel/vm.c: what it makes, a later walk finds, and it leaves all other entries alone.
use xv6_riscv_labs.Prelude.{
  ==-refl, ==-false, subst, ℕ, zero, suc, ◌+◌, ◌<◌, ◌≤◌, ◌≡◌, ◌≢◌, refl, ap, sym, ◌∙◌, Bool, true,
  false, Option, none, some, List, [], ◌∷◌, leb, arith, Bool-cases, ◌⊎◌, inl, inr,
}
use xv6_riscv_labs.Vm.Defs.{pgsize, maxva, pte_v, pte2pa, pa2pte, pte_at, Tables, walk_from, walk}
use xv6_riscv_labs.Vm.Entry.{
  Outside, AreFree, IsPath, entry-page, entry-valid, zeros-IsPath, List-cases, added, walk_valid,
  walk_stops, walk_adds, added-keeps,
}

pub walk_from-keeps :
    (level page va : ℕ) (alloc : Bool) (t : Tables) (a : ℕ)
    → Outside a t.free
    → pte_v (t.words a) ≡ true
    → (walk_from level page va alloc t).1.words a ≡ t.words a
unfolding walk_from
walk_from-keeps zero page va alloc t a o w = refl
walk_from-keeps (suc level) page va alloc t a o w =
    elim (Bool-cases (pte_v (t.words (pte_at page (suc level) va)))) [
      | inl v ↦
          ap (λ r. r.1.words a) (walk_valid level page va alloc t v)
          ∙ walk_from-keeps level (pte2pa (t.words (pte_at page (suc level) va))) va alloc t a o w
      | inr v ↦ elim (Bool-cases alloc) [
        | inr e ↦ ap (λ r. r.1.words a) (walk_stops level page va alloc t v (inl e))
        | inl e ↦ elim (List-cases t.free) [
          | inl none_left ↦
              ap (λ r. r.1.words a) (walk_stops level page va alloc t v (inr none_left))
          | inr (new, rest, f) ↦
              let o' = subst (Outside a) f o in
              let same = added-keeps level page va new rest t a v o' w in
              ap (λ x. (walk_from (suc level) page va x t).1.words a) e
              ∙ ap (λ r. r.1.words a) (walk_adds level page va new rest t v f)
              ∙ walk_from-keeps level new va true (added level page va new rest t) a o'.1
                  (ap pte_v same ∙ w)
              ∙ same
        ]
      ]
    ]

-- A walk that makes pages either runs out of them, or ends at an entry that a later walk finds.
abbrev pub Found : ℕ → ℕ → ℕ → Option ℕ × Tables → Type 0
Found level page va r =
    ((r.0 ≡ none) × ((r.1).free ≡ []))
    ⊎ ((pte : ℕ) × (r.0 ≡ some pte) × (walk_from level page va false r.1 ≡ (some pte, r.1)))

Found-up :
    (level page next va : ℕ) (r : Option ℕ × Tables)
    → pte_v ((r.1).words (pte_at page (suc level) va)) ≡ true
    → pte2pa ((r.1).words (pte_at page (suc level) va)) ≡ next
    → Found level next va r
    → Found (suc level) page va r
Found-up level page next va r v e (inl h) = inl h
Found-up level page next va r v e (inr (pte, h, w)) =
    inr (
      pte,
      h,
      walk_valid level page va false r.1 v ∙ ap (λ x. walk_from level x va false r.1) e ∙ w,
    )

added-IsPath :
    (level page va new : ℕ) (rest : List ℕ) (t : Tables)
    → Outside (pte_at page (suc level) va) (new ∷ rest)
    → AreFree (new ∷ rest)
    → IsPath level new va (added level page va new rest t)
added-IsPath level page va new rest t o (al, small, apart, f) =
    zeros-IsPath level new va (added level page va new rest t)
      (λ a low high.
        rw (==-false (pte_at page (suc level) va) a (other a low high o.0)) (ground arith))
      apart
  where
    other :
        (a : ℕ)
        → new ≤ a
        → a < new + pgsize
        → (pte_at page (suc level) va < new) ⊎ (new + pgsize ≤ pte_at page (suc level) va)
        → pte_at page (suc level) va ≢ a
    other a low high (inl h) e = omega arith
    other a low high (inr h) e = omega arith

pub walk_from-Found :
    (level page va : ℕ) (t : Tables)
    → IsPath level page va t
    → AreFree t.free
    → Found level page va (walk_from level page va true t)
unfolding walk_from
walk_from-Found zero page va t p f = inr (pte_at page 0 va, refl, refl)
walk_from-Found (suc level) page va t (o, p) f =
    elim (Bool-cases (pte_v (t.words (pte_at page (suc level) va)))) [
      | inl v ↦
          let next = pte2pa (t.words (pte_at page (suc level) va)) in
          let r = walk_from level next va true t in
          let same = walk_from-keeps level next va true t (pte_at page (suc level) va) o v in
          subst (Found (suc level) page va) (sym (walk_valid level page va true t v)) (
            Found-up level page next va r (ap pte_v same ∙ v) (ap pte2pa same)
              (walk_from-Found level next va t (p v) f))
      | inr v ↦ elim (List-cases t.free) [
        | inl none_left ↦
            subst (Found (suc level) page va)
              (sym (walk_stops level page va true t v (inr none_left))) (inl (refl, none_left))
        | inr (new, rest, e) ↦
            let o' = subst (Outside (pte_at page (suc level) va)) e o in
            let f' = subst AreFree e f in
            let t1 = added level page va new rest t in
            let at_entry : t1.words (pte_at page (suc level) va) ≡ pa2pte new + 1 =
              rw (==-refl (pte_at page (suc level) va)) refl in
            let same =
              walk_from-keeps level new va true t1 (pte_at page (suc level) va) o'.1
                (ap pte_v at_entry ∙ entry-valid new)
              ∙ at_entry in
            subst (Found (suc level) page va) (sym (walk_adds level page va new rest t v e)) (
              Found-up level page new va (walk_from level new va true t1)
                (ap pte_v same ∙ entry-valid new) (ap pte2pa same ∙ entry-page new f'.0 f'.1)
                (walk_from-Found level new va t1 (added-IsPath level page va new rest t o' f')
                  f'.3))
      ]
    ]

-- What `walk` with `alloc` leaves.
pub record Walked (pagetable va : ℕ) (t : Tables) (r : Option ℕ × Tables) : Type 0 where
  pub returns : walk pagetable va true t ≡ some r
  pub found :
      ((r.0 ≡ none) × ((r.1).free ≡ []))
      ⊎ ((pte : ℕ) × (r.0 ≡ some pte) × (walk pagetable va false r.1 ≡ some (some pte, r.1)))
  pub keeps : (a : ℕ) → Outside a t.free → pte_v (t.words a) ≡ true → (r.1).words a ≡ t.words a

small_leb : (va : ℕ) → va < maxva → leb maxva va ≡ false
small_leb va h = ground arith

walk_small :
    (pagetable va : ℕ) (alloc : Bool) (t : Tables)
    → va < maxva
    → walk pagetable va alloc t ≡ some (walk_from 2 pagetable va alloc t)
unfolding walk
walk_small pagetable va alloc t h = rw (small_leb va h) refl

-- Below `MAXVA`, a `walk` that may make page tables gives the entry that a `walk` that may not
-- finds afterwards, or no entry if the pages run out; and every valid entry in a page in use keeps
-- its word.
pub walk-Walked :
    (pagetable va : ℕ) (t : Tables)
    → va < maxva
    → IsPath 2 pagetable va t
    → AreFree t.free
    → Walked pagetable va t (walk_from 2 pagetable va true t)
walk-Walked pagetable va t h p f = record {
  returns = walk_small pagetable va true t h;
  found = elim (walk_from-Found 2 pagetable va t p f) [
    | inl none_left ↦ inl none_left
    | inr (pte, e, w) ↦
        inr
          (pte, e, walk_small pagetable va false (walk_from 2 pagetable va true t).1 h ∙ ap some w)
  ];
  keeps = λ a o v. walk_from-keeps 2 pagetable va true t a o v;
}
