-- ===== src/Bio/Cache.antt =====
-- `bget` of kernel/bio.c keeps at most one buffer for each block.
use xv6_riscv_labs.Prelude.{
  ℕ, ◌+◌, ◌≤◌, ◌<◌, ◌≡◌, ◌≢◌, refl, sym, ◌∙◌, Bool, true, false, none, some, List, [], ◌==◌, arith,
  ◌⊎◌, inl, inr, Bool-cases, Absent, ==-refl, length, subst, update-at, update-other, ℕ_discrete,
  dec_lt,
}
use mathlib.Core.Bool.{false≢true}
use xv6_riscv_labs.Links.Ring.{IsRing}
use xv6_riscv_labs.Bio.Defs.{
  nbuf, head, Bcache, is_for, find_cached, find_free, set_buf, take_buf, bget,
}
use xv6_riscv_labs.Bio.Scan.{
  AllFail, IsFirst, first_from_lem, reverse_onto, Seg-reverse, Absent-reverse_onto,
  length-reverse_onto, AllFail-Absent, AllFail-back, present_in, reverse_present,
}

-- The list holds every buffer once, and no two buffers are for one block; device 0 is that of
-- buffers never used.
pub record IsCache (c : Bcache) (nodes : List ℕ) : Type 0 where
  pub ring : IsRing c.links head nodes
  pub size : length nodes ≡ nbuf
  pub whole : (b : ℕ) → b < nbuf → ¬ Absent b nodes
  pub only : (b : ℕ) → nbuf ≤ b → Absent b nodes
  pub unique :
      (dev blockno i j : ℕ)
      → dev ≢ 0
      → i < nbuf
      → j < nbuf
      → is_for dev blockno (c.buf i) ≡ true
      → is_for dev blockno (c.buf j) ≡ true
      → i ≡ j

module _ (c : Bcache) (nodes : List ℕ) (r : IsCache c nodes) where
  fails_all : (test : ℕ → Bool) → AllFail test nodes → (b : ℕ) → b < nbuf → test b ≡ false
  fails_all test f b h = elim (Bool-cases (test b)) [
    | inr e ↦ e
    | inl e ↦ absurd (r.whole b h (AllFail-Absent test b nodes e f))
  ]

  small_of : (b : ℕ) → ¬ Absent b nodes → b < nbuf
  small_of b n = elim (dec_lt b nbuf) [
    | yes l ↦ l
    | no g ↦ absurd (n (r.only b (omega (arith, g))))
  ]

  find_cached_lem :
      (dev blockno : ℕ)
      → ((find_cached dev blockno c ≡ none)
          × ((b : ℕ) → b < nbuf → is_for dev blockno (c.buf b) ≡ false))
        ⊎ ((b : ℕ) × (find_cached dev blockno c ≡ some b)
            × (b < nbuf)
            × (is_for dev blockno (c.buf b) ≡ true))
  find_cached_lem dev blockno =
      elim (first_from_lem c.links.next c.links.prev (λ b. is_for dev blockno (c.buf b)) nbuf head
        nodes r.ring.linked r.ring.apart (omega (arith, r.size))) [
          | inl (e, f) ↦ inl (e, fails_all (λ b. is_for dev blockno (c.buf b)) f)
          | inr (b, e, g) ↦ inr (
            b,
            e,
            small_of b (λ a. present_in g.pre b g.post (subst (Absent b) g.parts a) refl),
            g.passes,
          )
        ]

  find_free_lem :
      ((find_free c ≡ none) × ((b : ℕ) → b < nbuf → ((c.buf b).refcnt == 0) ≡ false))
      ⊎ ((b : ℕ) × (find_free c ≡ some b)
          × (b < nbuf)
          × IsFirst (λ x. (c.buf x).refcnt == 0) (reverse_onto nodes []) b)
  find_free_lem =
      elim (first_from_lem c.links.prev c.links.next (λ b. (c.buf b).refcnt == 0) nbuf head
        (reverse_onto nodes []) (Seg-reverse c.links.next c.links.prev nodes r.ring.linked)
        (Absent-reverse_onto head nodes [] r.ring.apart tt)
        (omega (arith, r.size, length-reverse_onto nodes []))) [
          | inl (e, f) ↦ inl (
            e,
            fails_all (λ b. (c.buf b).refcnt == 0)
                (AllFail-back (λ b. (c.buf b).refcnt == 0) nodes [] f).0,
          )
          | inr (b, e, g) ↦
              inr (b, e, small_of b (λ a. reverse_present nodes g.pre b g.post g.parts a refl), g)
        ]

-- The buffer `b` that `bget` returns.
pub record IsGotten (c : Bcache) (nodes : List ℕ) (dev blockno b : ℕ) (c' : Bcache) : Type 0 where
  pub small : b < nbuf
  pub buffer : is_for dev blockno (c'.buf b) ≡ true
  pub others : (j : ℕ) → b ≢ j → c'.buf j ≡ c.buf j
  pub links : c'.links ≡ c.links
  pub outcome :
      ((is_for dev blockno (c.buf b) ≡ true)
        × (c'.buf b ≡ record (c.buf b) { refcnt = (c.buf b).refcnt + 1 }))
      ⊎ (((j : ℕ) → j < nbuf → is_for dev blockno (c.buf j) ≡ false)
          × IsFirst (λ x. (c.buf x).refcnt == 0) (reverse_onto nodes []) b
          × ((c'.buf b).refcnt ≡ 1)
          × ((c'.buf b).valid ≡ false))

module _ (c : Bcache) (nodes : List ℕ) (dev blockno b : ℕ) where
  hit-IsGotten :
      b < nbuf
      → is_for dev blockno (c.buf b) ≡ true
      → IsGotten c nodes dev blockno b
          (set_buf b (record (c.buf b) { refcnt = (c.buf b).refcnt + 1 }) c)
  hit-IsGotten h e = record {
    small = h;
    buffer = rw (==-refl b) e;
    others = update-other c.buf b (record (c.buf b) { refcnt = (c.buf b).refcnt + 1 });
    links = refl;
    outcome = inl (e, update-at c.buf b (record (c.buf b) { refcnt = (c.buf b).refcnt + 1 }));
  }

  miss-IsGotten :
      b < nbuf
      → ((j : ℕ) → j < nbuf → is_for dev blockno (c.buf j) ≡ false)
      → IsFirst (λ x. (c.buf x).refcnt == 0) (reverse_onto nodes []) b
      → IsGotten c nodes dev blockno b (
          set_buf b
            (record (c.buf b) { dev = dev; blockno = blockno; valid = false; refcnt = 1 })
            c)
  miss-IsGotten h f g = record {
    small = h;
    buffer = rw (==-refl b, ==-refl dev, ==-refl blockno) refl;
    others =
        update-other c.buf b
          (record (c.buf b) { dev = dev; blockno = blockno; valid = false; refcnt = 1 });
    links = refl;
    outcome = inr (f, g, rw (==-refl b) refl, rw (==-refl b) refl);
  }

module _ (c : Bcache) (nodes : List ℕ) (dev blockno b : ℕ) (c' : Bcache) (r : IsCache c nodes)
    (g : IsGotten c nodes dev blockno b c') where
  same_block :
      (j dev' blockno' : ℕ)
      → dev' ≢ 0
      → j < nbuf
      → is_for dev' blockno' (c'.buf b) ≡ true
      → is_for dev' blockno' (c'.buf j) ≡ true
      → b ≡ j
  same_block j dev' blockno' z h e e' = elim (ℕ_discrete b j) [
    | yes s ↦ s
    | no n ↦
        let before : is_for dev blockno (c.buf j) ≡ true =
          subst (λ x. is_for dev blockno x ≡ true) (g.others j n)
            (ground (arith, e, e', g.buffer)) in
        elim g.outcome [
          | inl (held, k) ↦
              r.unique dev blockno b j (λ y. z (ground (arith, y, e, g.buffer))) g.small h held
                before
          | inr (absent, f, one, cold) ↦ absurd (false≢true (sym (absent j h) ∙ before))
        ]
  ]

  gotten-IsCache : IsCache c' nodes
  gotten-IsCache = record {
    ring = subst (λ l. IsRing l head nodes) (sym g.links) r.ring;
    size = r.size;
    whole = r.whole;
    only = r.only;
    unique = λ dev' blockno' i j z h k e e'. elim (ℕ_discrete b i) [
      | yes s ↦
          sym s
          ∙ same_block j dev' blockno' z k
              (subst (λ x. is_for dev' blockno' (c'.buf x) ≡ true) (sym s) e) e'
      | no n ↦ elim (ℕ_discrete b j) [
        | yes s ↦
            sym (
              same_block i dev' blockno' z h
                (subst (λ x. is_for dev' blockno' (c'.buf x) ≡ true) (sym s) e') e)
            ∙ s
        | no m ↦
            r.unique dev' blockno' i j z h k
              (subst (λ x. is_for dev' blockno' x ≡ true) (g.others i n) e)
              (subst (λ x. is_for dev' blockno' x ≡ true) (g.others j m) e')
      ]
    ];
  }

-- `bget` of a block of a device other than 0, in a cache whose list holds every buffer once and
-- that has no two buffers for one block, panics exactly if no buffer is for the block and none is
-- unreferenced. Otherwise it returns a buffer for the block and changes no other buffer and no
-- link: the buffer that was for the block, with one more reference; or, if there was none, the
-- unreferenced buffer nearest to the old end of the list, with one reference and not read. There
-- are still no two buffers for one block.
pub bget-IsCache :
    (c : Bcache) (nodes : List ℕ) (dev blockno : ℕ)
    → IsCache c nodes
    → dev ≢ 0
    → ((bget dev blockno c ≡ none)
        × ((j : ℕ)
            → j < nbuf
            → (is_for dev blockno (c.buf j) ≡ false) × (((c.buf j).refcnt == 0) ≡ false)))
      ⊎ ((b : ℕ) × (c' : Bcache) × (bget dev blockno c ≡ some (b, c'))
          × IsGotten c nodes dev blockno b c'
          × IsCache c' nodes)
unfolding bget take_buf
bget-IsCache c nodes dev blockno r z = elim (find_cached_lem c nodes r dev blockno) [
  | inr (b, e, h, held) ↦
      let g = hit-IsGotten c nodes dev blockno b h held in
      inr (b, _, rw e refl, g, gotten-IsCache c nodes dev blockno b _ r g)
  | inl (e, absent) ↦ elim (find_free_lem c nodes r) [
    | inl (e', busy) ↦ inl (rw (e, e') refl, λ j h. (absent j h, busy j h))
    | inr (b, e', h, first) ↦
        let g = miss-IsGotten c nodes dev blockno b h absent first in
        inr (b, _, rw (e, e') refl, g, gotten-IsCache c nodes dev blockno b _ r g)
  ]
]
