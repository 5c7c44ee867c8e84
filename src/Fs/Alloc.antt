-- ===== src/Fs/Alloc.antt =====
-- What the block allocator of kernel/fs.c promises.
use xv6_riscv_labs.Prelude.{
  ℕ, zero, suc, ◌+◌, ◌*◌, ◌/◌, ◌%◌, ◌≤◌, ◌<◌, ◌≡◌, ◌≢◌, refl, ap, sym, ◌∙◌, true, false, not, ◌&&◌,
  ◌||◌, none, some, ◌∷◌, ◌==◌, arith, ◌⊎◌, inl, inr, ℕ_discrete, dec_lt, Bool-cases, ◌-◌, subst,
  lt→ltb, subst, lt→ltb,
}
use mathlib.Core.Bool.{false≢true}
use xv6_riscv_labs.Bits.{ByteArray, IsBytes, isset, setbit, clearbit, isset-setbit, isset-clearbit}
use xv6_riscv_labs.Fs.Bitmap.{
  Disk, bpb, bsize, write_block, bitmap_block, bzero, scan, balloc_from, balloc, bfree, used,
}

scan_lem :
    (size k bi b : ℕ) (bitmap : ByteArray)
    → ((scan size k bi b bitmap ≡ none)
        × ((i : ℕ) → bi ≤ i → i < bi + k → b + i < size → isset bitmap i ≡ true))
      ⊎ ((i : ℕ) × (scan size k bi b bitmap ≡ some i)
          × (bi ≤ i)
          × (i < bi + k)
          × (b + i < size)
          × (isset bitmap i ≡ false)
          × ((j : ℕ) → bi ≤ j → j < i → isset bitmap j ≡ true))
unfolding scan
scan_lem size zero bi b bitmap = inl (refl, λ i p q. absurd (omega arith))
scan_lem size (suc k) bi b bitmap = elim (dec_lt (b + bi) size) [
  | no past ↦ inl (ground arith, λ i p q r. absurd (omega arith))
  | yes within ↦ elim (Bool-cases (isset bitmap bi)) [
    | inr free ↦
        inr
          (bi, ground arith, omega arith, omega arith, within, free, λ j p q. absurd (omega arith))
    | inl taken ↦ elim (scan_lem size k (bi + 1) b bitmap) [
      | inl (e, all) ↦
          inl (ground (arith, e), extend taken (bi + suc k) (λ i p q r. all i p (omega arith) r))
      | inr (i, e, lo, hi, small, free, first) ↦ inr (
        i,
        ground (arith, e),
        omega arith,
        omega arith,
        small,
        free,
        λ j p q. extend taken i (λ j a c r. first j a c) j p q (omega arith),
      )
    ]
  ]
]
  where
    extend :
        isset bitmap bi ≡ true
        → (top : ℕ) → ((i : ℕ) → bi + 1 ≤ i → i < top → b + i < size → isset bitmap i ≡ true)
        → (i : ℕ) → bi ≤ i
        → i < top
        → b + i < size
        → isset bitmap i ≡ true
    extend taken top all i p q r = elim (ℕ_discrete bi i) [
      | yes same ↦ rw (← same) taken
      | no other ↦ all i (omega arith) q r
    ]

-- Block `x` marked in the free map and zeroed.
abbrev pub taken_block : ℕ → Disk → Disk
taken_block x d =
    bzero x (write_block (bitmap_block d x) (setbit (d.block (bitmap_block d x)) (x % bpb)) d)

record Found (d : Disk) (b : ℕ) (result : ℕ × Disk) (x : ℕ) : Type 0 where
  low : b ≤ x
  within : x < d.size
  free : used d x ≡ false
  first : (y : ℕ) → b ≤ y → y < x → used d y ≡ true
  marked : result ≡ (x, taken_block x d)

module _ (d : Disk) (b : ℕ) (aligned : b % bpb ≡ 0) where
  same_block : (i : ℕ) → i < bpb → (bitmap_block d (b + i) ≡ bitmap_block d b) × ((b + i) % bpb ≡ i)
  same_block i h = (omega arith, omega arith)

  used_lem : (i : ℕ) → i < bpb → used d (b + i) ≡ isset (d.block (bitmap_block d b)) i
  used_lem i h = rw ((same_block i h).0, (same_block i h).1)

  -- One block of the free map with a free block in it.
  Found-here :
      (i : ℕ)
      → i < bpb
      → b + i < d.size
      → isset (d.block (bitmap_block d b)) i ≡ false
      → ((j : ℕ) → 0 ≤ j → j < i → isset (d.block (bitmap_block d b)) j ≡ true)
      → Found d b
          (
            b + i,
            bzero
                (b + i)
                (write_block (bitmap_block d b) (setbit (d.block (bitmap_block d b)) i) d),
          )
          (b + i)
  Found-here i h w f first = record {
    low = omega arith;
    within = w;
    free = used_lem i h ∙ f;
    first = λ y p q.
        let at : b + (y - b) ≡ y = omega arith in
        subst (λ z. used d z ≡ true) at
          (used_lem (y - b) (omega arith) ∙ first (y - b) (omega arith) (omega arith));
    marked = rw ((same_block i h).0, (same_block i h).1);
  }

  -- One block of the free map with none.
  full_here :
      ((i : ℕ) → 0 ≤ i → i < 0 + bpb → b + i < d.size → isset (d.block (bitmap_block d b)) i ≡ true)
      → (y : ℕ) → b ≤ y
      → y < b + bpb
      → y < d.size
      → used d y ≡ true
  full_here all y p q r =
      let at : b + (y - b) ≡ y = omega arith in
      subst (λ z. used d z ≡ true) at
        (used_lem (y - b) (omega arith) ∙ all (y - b) (omega arith) (omega arith) (omega arith))

balloc_from_lem :
    (r b : ℕ) (d : Disk)
    → b % bpb ≡ 0
    → d.size ≤ b + r * bpb
    → ((balloc_from r b d ≡ (0, d)) × ((y : ℕ) → b ≤ y → y < d.size → used d y ≡ true))
      ⊎ ((x : ℕ) × Found d b (balloc_from r b d) x)
unfolding balloc_from
balloc_from_lem zero b d a h = inl (refl, λ y p q. absurd (omega arith))
balloc_from_lem (suc r) b d a h = elim (dec_lt b d.size) [
  | no past ↦ inl (ground arith, λ y p q. absurd (omega arith))
  | yes within ↦ elim (scan_lem d.size bpb 0 b (d.block (bitmap_block d b))) [
    | inr (i, e, lo, hi, small, free, first) ↦
        inr (
          b + i,
          rw (lt→ltb b d.size within, e) (Found-here d b a i (omega arith) small free first),
        )
    | inl (e, all) ↦ elim (balloc_from_lem r (b + bpb) d (omega arith) (omega arith)) [
      | inl (none_free, rest) ↦ inl (
        rw (lt→ltb b d.size within, e) none_free,
        λ y p q. elim (dec_lt y (b + bpb)) [
          | yes here ↦ full_here d b a all y p here q
          | no later ↦ rest y (omega arith) q
        ],
      )
      | inr (x, f) ↦ inr (
        x,
        rw (lt→ltb b d.size within, e)
            (record {
              low = omega (arith, f.low);
              within = f.within;
              free = f.free;
              first = λ y p q. elim (dec_lt y (b + bpb)) [
                | yes here ↦ full_here d b a all y p here (omega (arith, f.within))
                | no later ↦ f.first y (omega arith) q
              ];
              marked = f.marked;
            }),
      )
    ]
  ]
]

pub balloc_lem :
    (d : Disk)
    → ((balloc d ≡ (0, d)) × ((y : ℕ) → y < d.size → used d y ≡ true))
      ⊎ ((x : ℕ) × (x < d.size)
          × (used d x ≡ false)
          × ((y : ℕ) → y < x → used d y ≡ true)
          × (balloc d ≡ (x, taken_block x d)))
unfolding balloc
balloc_lem d = elim (balloc_from_lem (d.size / bpb + 1) 0 d (omega arith) (omega arith)) [
  | inl (e, all) ↦ inl (e, λ y p. all y (omega arith) p)
  | inr (x, f) ↦ inr (x, f.within, f.free, (λ y p. f.first y (omega arith) p), f.marked)
]

-- The blocks of the free map are in use, and are blocks of bytes.
pub record IsMapped (d : Disk) : Type 0 where
  pub bytes : (b : ℕ) → IsBytes (d.block b)
  pub reserved : (y : ℕ) → y < d.size → used d (bitmap_block d y) ≡ true

apart : (d : Disk) (x y : ℕ) → IsMapped d → used d x ≡ false → y < d.size → x ≢ bitmap_block d y
apart d x y m free h e = false≢true (sym free ∙ ap (used d) e ∙ m.reserved y h)

pub used-taken_block :
    (d : Disk) (x : ℕ)
    → IsMapped d
    → balloc d ≡ (x, taken_block x d)
    → used d x ≡ false
    → ((y : ℕ) → y < d.size → used (balloc d).1 y ≡ (x == y || used d y))
      × ((i : ℕ) → i < bsize → (balloc d).1.block x i ≡ 0)
unfolding bzero
used-taken_block d x m e free = rw e (
  λ y h. ground (
    arith,
    apart d x y m free h,
    isset-setbit (d.block (bitmap_block d x)) (m.bytes (bitmap_block d x)) (x % bpb) (y % bpb),
  ),
  λ i h. ground arith,
)

-- On a disk whose free map is in use, `balloc` returns 0 and leaves every bit of the free map if
-- every block is in use. Else it returns the first free block, which is in use afterwards and full
-- of zeros; every other block of the disk keeps its bit in the free map.
pub used-balloc :
    (d : Disk)
    → IsMapped d
    → (((balloc d).0 ≡ 0)
        × ((y : ℕ) → y < d.size → used d y ≡ true)
        × ((y : ℕ) → used (balloc d).1 y ≡ used d y))
      ⊎ (((balloc d).0 < d.size)
          × (used d (balloc d).0 ≡ false)
          × ((y : ℕ) → y < (balloc d).0 → used d y ≡ true)
          × ((y : ℕ) → y < d.size → used (balloc d).1 y ≡ ((balloc d).0 == y || used d y))
          × ((i : ℕ) → i < bsize → (balloc d).1.block (balloc d).0 i ≡ 0))
used-balloc d m = elim (balloc_lem d) [
  | inl (e, all) ↦ inl (ap (λ r. r.0) e, all, λ y. ap (λ r. used r.1 y) e)
  | inr (x, small, free, first, e) ↦
      let marks = used-taken_block d x m e free in
      let here : (balloc d).0 ≡ x = ap (λ r. r.0) e in
      inr (
        subst (λ z. z < d.size) (sym here) small,
        ap (used d) here ∙ free,
        λ y h. first y (subst (λ z. y < z) here h),
        λ y h. marks.0 y h ∙ ap (λ z. z == y || used d y) (sym here),
        λ i h. ap (λ z. (balloc d).1.block z i) here ∙ marks.1 i h,
      )
]

-- `bfree` panics exactly if the block is free; otherwise it frees that block and no other, through
-- the log.
bfree_lem :
    (b : ℕ) (d : Disk)
    → IsMapped d
    → ((used d b ≡ false) × (bfree b d ≡ none))
      ⊎ ((used d b ≡ true)
          × ((d' : Disk) × (bfree b d ≡ some d')
              × ((y : ℕ) → used d' y ≡ (not (b == y) && used d y))
              × (d'.logged ≡ bitmap_block d b ∷ d.logged)))
unfolding bfree
bfree_lem b d m = elim (Bool-cases (used d b)) [
  | inr free ↦ inl (free, rw free)
  | inl in_use ↦ inr (
    in_use,
    (
      write_block (bitmap_block d b) (clearbit (d.block (bitmap_block d b)) (b % bpb)) d,
      rw in_use,
      (λ y. ground (
        arith,
        isset-clearbit (d.block (bitmap_block d b)) (m.bytes (bitmap_block d b)) (b % bpb)
            (y % bpb),
      )),
      refl,
    ),
  )
]
