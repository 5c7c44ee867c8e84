-- ===== src/Kalloc/Pages.antt =====
-- kalloc and kfree of kernel/kalloc.c hand out no page twice.

use xv6_riscv_labs.Prelude.{
  Absent, AllDistinct, subst, ℕ, ◌%◌, ◌<◌, ◌≤◌, ◌≡◌, ◌≢◌, refl, sym, ◌∙◌, Bool, true, false, not,
  ◌||◌, some, List, [], ◌∷◌, ◌==◌, ltb, leb, update, arith, ◌⊎◌, inl, inr,
}
use xv6_riscv_labs.Kalloc.Defs.{Kmem, kfree, kalloc, junk, pgsize, phystop}

-- The pages of a list are linked from `head` on.
abbrev pub Chain : (ℕ → ℕ) → ℕ → List ℕ → Type 0
Chain next head [] = head ≡ 0
Chain next head (p ∷ l) = (head ≡ p) × (p ≢ 0) × Chain next (next p) l

abbrev pub AllUnused : (ℕ → Bool) → List ℕ → Type 0
AllUnused used [] = Unit
AllUnused used (p ∷ l) = (used p ≡ false) × AllUnused used l

-- The free pages are linked, each one once, and none of them is in use.
pub record IsHeap (used : ℕ → Bool) (free : List ℕ) (m : Kmem) : Type 0 where
  pub chain : Chain m.next m.freelist free
  pub distinct : AllDistinct free
  pub apart : AllUnused used free

Chain-update :
    (next : ℕ → ℕ) (q v head : ℕ) (l : List ℕ)
    → Absent q l
    → Chain next head l
    → Chain (update next q v) head l
Chain-update next q v head [] a c = c
Chain-update next q v head (p ∷ l) (ne, a) (e, n, c) =
    (e, n, subst (λ h. Chain (update next q v) h l) (kept) (Chain-update next q v (next p) l a c))
  where
    kept : next p ≡ update next q v p
    kept = ground (arith, ne)

AllUnused-update :
    (used : ℕ → Bool) (q : ℕ) (b : Bool) (l : List ℕ)
    → Absent q l
    → AllUnused used l
    → AllUnused (update used q b) l
AllUnused-update used q b [] a u = tt
AllUnused-update used q b (p ∷ l) (ne, a) (e, u) = (kept ∙ e, AllUnused-update used q b l a u)
  where
    kept : update used q b p ≡ used p
    kept = ground (arith, ne)

used-Absent : (used : ℕ → Bool) (q : ℕ) (l : List ℕ) → used q ≡ true → AllUnused used l → Absent q l
used-Absent used q [] e u = tt
used-Absent used q (p ∷ l) e (f, u) =
    ((λ same. ground (arith, subst (λ x. used x ≡ true) same e, f)), used-Absent used q l e u)

-- `kalloc` returns 0 and changes nothing if no page is free. Else it returns a page that was free,
-- which is not 0 and was not in use, and the heap is well formed with that page in use.
pub kalloc_lem :
    (used : ℕ → Bool) (free : List ℕ) (m : Kmem)
    → IsHeap used free m
    → ((free ≡ []) × (kalloc m ≡ (0, m)))
      ⊎ ((p : ℕ) × (rest : List ℕ) × (free ≡ p ∷ rest)
          × ((kalloc m).0 ≡ p)
          × (p ≢ 0)
          × (used p ≡ false)
          × IsHeap (update used p true) rest (kalloc m).1)
unfolding kalloc
kalloc_lem used [] m h = inl (refl, rw (none_free) refl)
  where
    none_free : (m.freelist == 0) ≡ true
    none_free = ground (arith, h.chain)
kalloc_lem used (p ∷ rest) m h =
    let (e, n, c) = h.chain in
    let (absent, distinct) = h.distinct in
    let (unused, apart) = h.apart in
    inr (
      p,
      rest,
      refl,
      rw (not_empty e n) e,
      n,
      unused,
      rw (not_empty e n) (record {
        chain =
            subst (λ r. Chain (update m.next r (junk 5)) (m.next r) rest) (sym e)
              (Chain-update m.next p (junk 5) (m.next p) rest absent c);
        distinct = distinct;
        apart = AllUnused-update used p true rest absent apart;
      }),
    )
  where
    not_empty : m.freelist ≡ p → p ≢ 0 → (m.freelist == 0) ≡ false
    not_empty e n = ground (arith, e, n)

-- `kfree` of a page in use, whole and within the memory after the kernel, puts it in front of the
-- free pages, and the heap is well formed without that page in use.
kfree_lem :
    (used : ℕ → Bool) (free : List ℕ) (pa : ℕ) (m : Kmem)
    → IsHeap used free m
    → used pa ≡ true
    → pa % pgsize ≡ 0
    → m.end_address ≤ pa
    → pa < phystop
    → pa ≢ 0
    → (m' : Kmem) × (kfree pa m ≡ some m') × IsHeap (update used pa false) (pa ∷ free) m'
unfolding kfree
kfree_lem used free pa m h u al low high ne = (
  record m { next = update (update m.next pa (junk 1)) pa m.freelist; freelist = pa },
  rw guard refl,
  record {
    chain = (
      refl,
      ne,
      subst (λ x. Chain (update (update m.next pa (junk 1)) pa m.freelist) x free) at_pa
          (Chain-update (update m.next pa (junk 1)) pa m.freelist m.freelist free absent
            (Chain-update m.next pa (junk 1) m.freelist free absent h.chain)),
    );
    distinct = (absent, h.distinct);
    apart = (ground arith, AllUnused-update used pa false free absent h.apart);
  },
)
  where
    absent : Absent pa free
    absent = used-Absent used pa free u h.apart

    guard : (not (pa % pgsize == 0) || ltb pa m.end_address || leb phystop pa) ≡ false
    guard = ground arith

    at_pa : m.freelist ≡ update (update m.next pa (junk 1)) pa m.freelist pa
    at_pa = ground arith
