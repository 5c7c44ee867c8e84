-- ===== src/Bio/Steps.antt =====
-- The calls of kernel/bio.c in any order, from `binit` on.
use xv6_riscv_labs.Prelude.{
  ℕ, ◌<◌, ◌≡◌, ◌≢◌, refl, ap, sym, ◌∙◌, Bool, true, none, some, List, [], ◌∷◌, ◌++◌, if◌then◌else◌,
  inl, inr, Absent, Bool-cases, subst, update-at, update-other, ℕ_discrete,
}
use mathlib.Core.Option.{some-injective}
use mathlib.Core.Option.{none-ne-some}
use xv6_riscv_labs.Bits.{ByteArray}
use xv6_riscv_labs.Bio.Defs.{nbuf, Bcache, is_for, set_buf, binit, bget, bread, brelse}
use xv6_riscv_labs.Bio.Cache.{IsCache, bget-IsCache}
use xv6_riscv_labs.Bio.Release.{down, binit-IsCache, brelse-IsCache}

present_parts :
    (b : ℕ) (nodes : List ℕ)
    → ¬ Absent b nodes
    → (xs : List ℕ) × (ys : List ℕ) × (nodes ≡ xs ++ b ∷ ys)
present_parts b [] n = absurd (n tt)
present_parts b (x ∷ xs) n = elim (ℕ_discrete b x) [
  | yes e ↦ ([], xs, ap (λ y. y ∷ xs) (sym e))
  | no ne ↦
      let (pre, post, e) = present_parts b xs (λ a. n (ne, a)) in (x ∷ pre, post, ap (λ l. x ∷ l) e)
]

-- New bytes for a buffer leave the cache well formed.
module _ (c : Bcache) (nodes : List ℕ) (b : ℕ) (bytes : ByteArray) (v : Bool)
    (r : IsCache c nodes) where
  abbrev filled : Bcache
  filled = set_buf b (record (c.buf b) { bytes = bytes; valid = v }) c

  filled_same :
      (dev blockno j : ℕ) → is_for dev blockno (filled.buf j) ≡ is_for dev blockno (c.buf j)
  filled_same dev blockno j = elim (ℕ_discrete b j) [
    | yes e ↦
        subst (λ x. is_for dev blockno (filled.buf x) ≡ is_for dev blockno (c.buf x)) e
          (ap (is_for dev blockno)
            (update-at c.buf b (record (c.buf b) { bytes = bytes; valid = v })))
    | no n ↦
        ap (is_for dev blockno)
          (update-other c.buf b (record (c.buf b) { bytes = bytes; valid = v }) j n)
  ]

  filled-IsCache : IsCache filled nodes
  filled-IsCache = record {
    ring = r.ring;
    size = r.size;
    whole = r.whole;
    only = r.only;
    unique = λ dev blockno i j n h k e e'.
        r.unique dev blockno i j n h k (sym (filled_same dev blockno i) ∙ e)
          (sym (filled_same dev blockno j) ∙ e');
  }

-- What `bread` returns for the buffer that `bget` gave.
abbrev fill : (ℕ → ℕ → ByteArray) → ℕ → Bcache → Bcache
fill disk b c =
    if (c.buf b).valid
    then c
    else set_buf b (record (c.buf b) { bytes = disk (c.buf b).dev (c.buf b).blockno; valid = true })
        c

fill-IsCache :
    (disk : ℕ → ℕ → ByteArray) (b : ℕ) (c : Bcache) (nodes : List ℕ)
    → IsCache c nodes
    → IsCache (fill disk b c) nodes
fill-IsCache disk b c nodes r = elim (Bool-cases (c.buf b).valid) [
  | inl v ↦ rw v r
  | inr v ↦ rw v (filled-IsCache c nodes b (disk (c.buf b).dev (c.buf b).blockno) true r)
]

bread-none :
    (disk : ℕ → ℕ → ByteArray) (dev blockno : ℕ) (c : Bcache)
    → bget dev blockno c ≡ none
    → bread disk dev blockno c ≡ none
unfolding bread
bread-none disk dev blockno c e = rw (e, bread) refl

bread-some :
    (disk : ℕ → ℕ → ByteArray) (dev blockno : ℕ) (c : Bcache) (b : ℕ) (c' : Bcache)
    → bget dev blockno c ≡ some (b, c')
    → bread disk dev blockno c ≡ some (b, fill disk b c')
unfolding bread
bread-some disk dev blockno c b c' e = rw (e, bread) refl

-- A call on the cache: `bread` of a block of a device other than 0, a change of the bytes of a
-- buffer, or `brelse` of a buffer with a reference.
pub data Step (disk : ℕ → ℕ → ByteArray) (c : Bcache) : Bcache → Type 0 where
  reads :
      (dev blockno b : ℕ) (c' : Bcache)
      → dev ≢ 0
      → bread disk dev blockno c ≡ some (b, c')
      → Step disk c c'
  changes :
      (b : ℕ) (bytes : ByteArray) → Step disk c (set_buf b (record (c.buf b) { bytes = bytes }) c)
  releases : (b : ℕ) → b < nbuf → 0 < (c.buf b).refcnt → Step disk c (brelse b c)

pub data Reaches (disk : ℕ → ℕ → ByteArray) (c : Bcache) : Bcache → Type 0 where
  start : Reaches disk c c
  after : (c' c'' : Bcache) → Reaches disk c c' → Step disk c' c'' → Reaches disk c c''

step-IsCache :
    (disk : ℕ → ℕ → ByteArray) (c c' : Bcache) (nodes : List ℕ)
    → IsCache c nodes
    → Step disk c c'
    → (nodes' : List ℕ) × IsCache c' nodes'
step-IsCache disk c c' nodes r (reads dev blockno b _ n e) =
    elim (bget-IsCache c nodes dev blockno r n) [
      | inl (none_left, busy) ↦
          absurd (none-ne-some (b, c') (sym (bread-none disk dev blockno c none_left) ∙ e))
      | inr (b', d, e', g, r') ↦ (
        nodes,
        subst (λ x. IsCache x nodes)
            (ap (λ x. x.1) (some-injective _ _ (sym (bread-some disk dev blockno c b' d e') ∙ e)))
            (fill-IsCache disk b' d nodes r'),
      )
    ]
step-IsCache disk c c' nodes r (changes b bytes) =
    (nodes, filled-IsCache c nodes b bytes (c.buf b).valid r)
step-IsCache disk c c' nodes r (releases b h k) =
    let (xs, ys, e) = present_parts b nodes (r.whole b h) in
    elim (brelse-IsCache c b xs ys (subst (IsCache c) e r) k).1 [
      | inl (one, r') ↦ (b ∷ xs ++ ys, r')
      | inr (more, r') ↦ (xs ++ b ∷ ys, r')
    ]

Reaches-IsCache' :
    (disk : ℕ → ℕ → ByteArray) (c c' : Bcache) (nodes : List ℕ)
    → IsCache c nodes
    → Reaches disk c c'
    → (nodes' : List ℕ) × IsCache c' nodes'
Reaches-IsCache' disk c c' nodes r start = (nodes, r)
Reaches-IsCache' disk c c' nodes r (after mid _ t s) =
    let (nodes', r') = Reaches-IsCache' disk c mid nodes r t in step-IsCache disk mid c' nodes' r' s

-- From `binit` of buffers full of zeros, whatever blocks of devices other than 0 are read, bytes
-- changed and buffers with a reference released, in any order: the list of buffers holds every
-- buffer once, linked in both directions, and no two buffers are for the same block.
pub Reaches-IsCache :
    (disk : ℕ → ℕ → ByteArray) (c c' : Bcache)
    → ((b : ℕ) → (c.buf b).dev ≡ 0)
    → Reaches disk (binit c) c'
    → (nodes : List ℕ) × IsCache c' nodes
Reaches-IsCache disk c c' zeroes t =
    Reaches-IsCache' disk (binit c) c' (down nbuf) (binit-IsCache c zeroes) t
