-- ===== src/Inode/Free.antt =====
-- The loops of `itrunc` of kernel/fs.c free the blocks of a range of pointers.
use xv6_riscv_labs.Prelude.{
  ℕ, suc, ◌+◌, ◌%◌, ◌≤◌, ◌<◌, ◌≡◌, ◌≢◌, refl, ap, sym, ◌∙◌, true, false, not, ◌&&◌, some, ◌==◌,
  arith, dec_lt, ℕ_discrete, subst, ==-refl, ==-false, update-other, update_all,
}
use xv6_riscv_labs.Bits.{IsBytes, clearbit, isset-clearbit, clearbit-IsBytes}
use xv6_riscv_labs.Fs.Bitmap.{Disk, bpb, write_block, bitmap_block, bfree, used}
use xv6_riscv_labs.Inode.Blocks.{IsData, IsDisk}

-- Block `b` cleared in the free map.
abbrev pub freed_block : ℕ → Disk → Disk
freed_block b d = write_block (bitmap_block d b) (clearbit (d.block (bitmap_block d b)) (b % bpb)) d

-- The pointers `p` from `i` on, `k` of them, are 0 or different blocks in use.
pub record IsFreeable (p : ℕ → ℕ) (i k : ℕ) (d : Disk) : Type 0 where
  pub small : (x : ℕ) → i ≤ x → x < i + k → p x ≢ 0 → p x < d.size
  pub in_use : (x : ℕ) → i ≤ x → x < i + k → p x ≢ 0 → used d (p x) ≡ true
  pub off_map : (x : ℕ) → i ≤ x → x < i + k → p x ≢ 0 → IsData d (p x)
  pub apart : (x y : ℕ) → i ≤ x → x < i + k → i ≤ y → y < i + k → p x ≢ 0 → p x ≡ p y → x ≡ y

-- Exactly these blocks are free now.
pub record IsFreed (p : ℕ → ℕ) (i k : ℕ) (d d' : Disk) : Type 0 where
  pub disk : IsDisk d'
  pub size : d'.size ≡ d.size
  pub bmapstart : d'.bmapstart ≡ d.bmapstart
  pub gone : (x : ℕ) → i ≤ x → x < i + k → p x ≢ 0 → used d' (p x) ≡ false
  pub stay :
      (y : ℕ)
      → y < d.size
      → ((x : ℕ) → i ≤ x → x < i + k → p x ≢ 0 → p x ≢ y)
      → used d' y ≡ used d y
  pub content : (y : ℕ) → IsData d y → d'.block y ≡ d.block y

pub IsFreed-none : (p : ℕ → ℕ) (i : ℕ) (d : Disk) → IsDisk d → IsFreed p i 0 d d
IsFreed-none p i d g = record {
  disk = g;
  size = refl;
  bmapstart = refl;
  gone = λ x low high n. absurd (omega arith);
  stay = λ y h n. refl;
  content = λ y o. refl;
}

-- A pointer that is 0 is skipped.
pub IsFreed-skip :
    (p : ℕ → ℕ) (i k : ℕ) (d d' : Disk)
    → p i ≡ 0
    → IsFreed p (i + 1) k d d'
    → IsFreed p i (suc k) d d'
IsFreed-skip p i k d d' z f = record {
  disk = f.disk;
  size = f.size;
  bmapstart = f.bmapstart;
  gone = λ x low high n. elim (ℕ_discrete i x) [
    | yes e ↦ absurd (n (ap p (sym e) ∙ z))
    | no m ↦ f.gone x (omega arith) (omega arith) n
  ];
  stay = λ y h n. f.stay y h (λ x low high. n x (omega arith) (omega arith));
  content = f.content;
}

module _ (b : ℕ) (d : Disk) (disk : IsDisk d) (in_use : used d b ≡ true) where
  pub bfree-some : bfree b d ≡ some (freed_block b d)
  unfolding bfree
  bfree-some = rw in_use

  pub used-freed_block : (y : ℕ) → used (freed_block b d) y ≡ (not (b == y) && used d y)
  used-freed_block y = ground (
    arith,
    isset-clearbit (d.block (bitmap_block d b)) (disk.mapped.bytes (bitmap_block d b)) (b % bpb)
        (y % bpb),
  )

  pub still_used : (y : ℕ) → b ≢ y → used d y ≡ true → used (freed_block b d) y ≡ true
  still_used y n u = used-freed_block y ∙ rw (==-false b y n, u) refl

  module _ (small : b < d.size) (n : b ≢ 0) (off : IsData d b) where
    pub freed-IsDisk : IsDisk (freed_block b d)
    freed-IsDisk = record {
      mapped = record {
        bytes = λ y.
            update_all IsBytes d.block (bitmap_block d b) _ y
              (clearbit-IsBytes (d.block (bitmap_block d b)) (disk.mapped.bytes (bitmap_block d b))
                (b % bpb))
              (disk.mapped.bytes y);
        reserved = λ y h. still_used (bitmap_block d y) (off y h) (disk.mapped.reserved y h);
      };
      boot = still_used 0 n disk.boot;
      some_block = disk.some_block;
      low = disk.low;
      small = disk.small;
    }

    pub freed_content : (y : ℕ) → IsData d y → (freed_block b d).block y ≡ d.block y
    freed_content y o = update-other d.block (bitmap_block d b) _ y (λ e. o b small (sym e))

module _ (p : ℕ → ℕ) (i k : ℕ) (d : Disk) (disk : IsDisk d) (f : IsFreeable p i (suc k) d) where
  -- The pointers after the first one.
  pub rest-IsFreeable : IsFreeable p (i + 1) k d
  rest-IsFreeable = record {
    small = λ x low high. f.small x (omega arith) (omega arith);
    in_use = λ x low high. f.in_use x (omega arith) (omega arith);
    off_map = λ x low high. f.off_map x (omega arith) (omega arith);
    apart = λ x y low high low' high'.
        f.apart x y (omega arith) (omega arith) (omega arith) (omega arith);
  }

  module _ (n : p i ≢ 0) where
    pub first_used : used d (p i) ≡ true
    first_used = f.in_use i (omega arith) (omega arith) n

    first_off : IsData d (p i)
    first_off = f.off_map i (omega arith) (omega arith) n

    first_small : p i < d.size
    first_small = f.small i (omega arith) (omega arith) n

    pub first-IsFreeable : IsFreeable p (i + 1) k (freed_block (p i) d)
    first-IsFreeable = record {
      small = λ x low high. f.small x (omega arith) (omega arith);
      in_use = λ x low high m.
          still_used (p i) d disk first_used (p x)
            (λ e. absurd (
              omega (
                arith,
                low,
                f.apart i x (omega arith) (omega arith) (omega arith) (omega arith) n e,
              )))
            (f.in_use x (omega arith) (omega arith) m);
      off_map = λ x low high. f.off_map x (omega arith) (omega arith);
      apart = λ x y low high low' high'.
          f.apart x y (omega arith) (omega arith) (omega arith) (omega arith);
    }

    pub first-IsDisk : IsDisk (freed_block (p i) d)
    first-IsDisk = freed-IsDisk (p i) d disk first_used first_small n first_off

    pub IsFreed-first :
        (d' : Disk) → IsFreed p (i + 1) k (freed_block (p i) d) d' → IsFreed p i (suc k) d d'
    IsFreed-first d' g = record {
      disk = g.disk;
      size = g.size;
      bmapstart = g.bmapstart;
      gone = λ x low high m. elim (ℕ_discrete i x) [
        | yes e ↦
            subst (λ y. used d' (p y) ≡ false) e
              (g.stay (p i) first_small (λ x low high m e. absurd (
                  omega (
                    arith,
                    low,
                    f.apart i x (omega arith) (omega arith) (omega arith) (omega arith) n (sym e),
                  )))
                ∙ used-freed_block (p i) d disk first_used (p i)
                ∙ rw (==-refl (p i)) refl)
        | no ne ↦ g.gone x (omega arith) (omega arith) m
      ];
      stay = λ y h out.
          g.stay y h (λ x low high. out x (omega arith) (omega arith))
          ∙ used-freed_block (p i) d disk first_used y
          ∙ rw (==-false (p i) y (out i (omega arith) (omega arith) n)) refl;
      content =
          λ y o. g.content y o ∙ freed_content (p i) d disk first_used first_small n first_off y o;
    }

pub front-IsFreeable :
    (p : ℕ → ℕ) (i k l : ℕ) (d : Disk) → IsFreeable p i (k + l) d → IsFreeable p i k d
front-IsFreeable p i k l d f = record {
  small = λ x low high. f.small x low (omega arith);
  in_use = λ x low high. f.in_use x low (omega arith);
  off_map = λ x low high. f.off_map x low (omega arith);
  apart = λ x y low high low' high'. f.apart x y low (omega arith) low' (omega arith);
}

-- Two ranges one after the other.
module _ (p : ℕ → ℕ) (i k l : ℕ) (d d' : Disk) (f : IsFreeable p i (k + l) d)
    (g : IsFreed p i k d d') where
  pub after-IsFreeable : IsFreeable p (i + k) l d'
  after-IsFreeable = record {
    small = λ x low high n. rw g.size (f.small x (omega arith) (omega arith) n);
    in_use = λ x low high n.
        g.stay (p x) (f.small x (omega arith) (omega arith) n) (λ y low' high' m e. absurd (
          omega
            (arith, low, high', f.apart y x low' (omega arith) (omega arith) (omega arith) m e)))
        ∙ f.in_use x (omega arith) (omega arith) n;
    off_map = λ x low high n y h.
        rw g.bmapstart (f.off_map x (omega arith) (omega arith) n y (subst (λ s. y < s) g.size h));
    apart = λ x y low high low' high'.
        f.apart x y (omega arith) (omega arith) (omega arith) (omega arith);
  }

  pub append-IsFreed : (d'' : Disk) → IsFreed p (i + k) l d' d'' → IsFreed p i (k + l) d d''
  append-IsFreed d'' g' = record {
    disk = g'.disk;
    size = g'.size ∙ g.size;
    bmapstart = g'.bmapstart ∙ g.bmapstart;
    gone = λ x low high n. elim (dec_lt x (i + k)) [
      | no late ↦ g'.gone x (omega arith) (omega arith) n
      | yes early ↦
          g'.stay (p x) (rw g.size (f.small x low high n)) (λ y low' high' m e.
            absurd
              (omega (arith, early, low', f.apart y x (omega arith) (omega arith) low high m e)))
          ∙ g.gone x low early n
    ];
    stay = λ y h out.
        g'.stay y (rw g.size h) (λ x low high. out x (omega arith) (omega arith))
        ∙ g.stay y h (λ x low high. out x low (omega arith));
    content = λ y o.
        g'.content y (λ z h. rw g.bmapstart (o z (subst (λ s. z < s) g.size h))) ∙ g.content y o;
  }
