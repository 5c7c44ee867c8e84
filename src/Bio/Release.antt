-- ===== src/Bio/Release.antt =====
-- `binit` and `brelse` of kernel/bio.c, and runs of the buffer cache.
use xv6_riscv_labs.Prelude.{
  ℕ, zero, suc, ◌+◌, ◌-◌, ◌≤◌, ◌<◌, ◌≡◌, ◌≢◌, refl, ap, sym, ◌∙◌, true, false, List, [], ◌∷◌, ◌++◌,
  ◌==◌, update, arith, ◌⊎◌, inl, inr, Absent, AllDistinct, ==-refl, length, length-append, subst,
  update-at, update-other, ℕ_discrete,
}
use xv6_riscv_labs.Links.Defs.{Links, lst_init, lst_push}
use xv6_riscv_labs.Links.Ring.{
  IsRing, lst_init-IsRing, lst_push-IsRing, next_apart, unlinked-IsRing, Absent-without,
}
use xv6_riscv_labs.Bio.Defs.{
  nbuf, head, Bcache, put_first, binit_from, binit, is_for, set_buf, unlink, brelse,
}
use xv6_riscv_labs.Bio.Cache.{IsCache}

put_first-IsRing :
    (b : ℕ) (nodes : List ℕ) (m : Links)
    → IsRing m head nodes
    → Absent b (head ∷ nodes)
    → IsRing (put_first b m) head (b ∷ nodes)
unfolding put_first lst_push
put_first-IsRing b nodes m r a = lst_push-IsRing head b nodes m r a

unlink-IsRing :
    (b : ℕ) (xs ys : List ℕ) (m : Links)
    → IsRing m head (xs ++ b ∷ ys)
    → IsRing (unlink b m) head (xs ++ ys)
unlink-IsRing b xs ys m r =
    subst
      (λ x.
        IsRing
          (record { next = update m.next x (m.next b); prev = update m.prev (m.next b) (m.prev b) })
          head (xs ++ ys))
      (sym (update-other m.prev (m.next b) (m.prev b) b (λ h. next_apart head b xs ys m r (sym h))))
      (unlinked-IsRing head b xs ys m r)

-- The buffers in the order that `binit` leaves.
abbrev pub down : ℕ → List ℕ
down zero = []
down (suc n) = n ∷ down n

Absent-down : (n b : ℕ) → n ≤ b → Absent b (down n)
Absent-down zero b h = tt
Absent-down (suc n) b h = ((λ e. absurd (omega (arith, e, h))), Absent-down n b (omega (arith, h)))

down_whole : (n b : ℕ) → b < n → ¬ Absent b (down n)
down_whole zero b h a = absurd (omega (arith, h))
down_whole (suc n) b h (ne, a) = down_whole n b (ground (arith, ne, h)) a

length-down : (n : ℕ) → length (down n) ≡ n
length-down zero = refl
length-down (suc n) = ap suc (length-down n)

binit_from-IsRing :
    (k b : ℕ) (m : Links)
    → b + k ≤ nbuf
    → IsRing m head (down b)
    → IsRing (binit_from k b m) head (down (b + k))
unfolding binit_from
binit_from-IsRing zero b m h r = subst (λ n. IsRing m head (down n)) (omega arith) r
binit_from-IsRing (suc k) b m h r =
    subst (λ n. IsRing (binit_from k (b + 1) (put_first b m)) head (down n)) {x = b + 1 + k}
      {y = b + suc k} (omega arith)
      (binit_from-IsRing k (b + 1) (put_first b m) (omega (arith, h)) (
        subst (λ n. IsRing (put_first b m) head (down n)) {x = suc b} {y = b + 1} (omega arith)
          (put_first-IsRing b (down b) m r
            ((λ e. absurd (omega (arith, e, h))), Absent-down b b (omega arith)))))

-- The cache after `binit`, whose buffers are zero before.
pub binit-IsCache : (c : Bcache) → ((b : ℕ) → (c.buf b).dev ≡ 0) → IsCache (binit c) (down nbuf)
unfolding binit lst_init
binit-IsCache c zeroes = record {
  ring = binit_from-IsRing nbuf 0 _ (omega arith) (lst_init-IsRing head c.links);
  size = length-down nbuf;
  whole = down_whole nbuf;
  only = λ b h. Absent-down nbuf b h;
  unique = λ dev blockno i j n h k e e'. absurd (ground (arith, n, zeroes i, e));
}

-- A list with one of its nodes at the front.
front-Absent : (q b : ℕ) (xs ys : List ℕ) → Absent q (b ∷ xs ++ ys) → Absent q (xs ++ b ∷ ys)
front-Absent q b [] ys a = a
front-Absent q b (x ∷ xs) ys (n, (m, a)) = (m, front-Absent q b xs ys (n, a))

node-Absent : (q b : ℕ) (xs ys : List ℕ) → Absent q (xs ++ b ∷ ys) → q ≢ b
node-Absent q b [] ys (n, a) = n
node-Absent q b (x ∷ xs) ys (n, a) = node-Absent q b xs ys a

node_apart : (b : ℕ) (xs ys : List ℕ) → AllDistinct (xs ++ b ∷ ys) → Absent b (xs ++ ys)
node_apart b [] ys (a, d) = a
node_apart b (x ∷ xs) ys (a, d) = ((λ e. node-Absent x b xs ys a (sym e)), node_apart b xs ys d)

length_front : (b : ℕ) (xs ys : List ℕ) → length (b ∷ xs ++ ys) ≡ length (xs ++ b ∷ ys)
length_front b xs ys = omega (arith, length-append xs ys, length-append xs (b ∷ ys))

-- The buffer with one reference less; the others stay.
pub record IsReleased (b : ℕ) (c c' : Bcache) : Type 0 where
  pub buffer : c'.buf b ≡ record (c.buf b) { refcnt = (c.buf b).refcnt - 1 }
  pub others : (j : ℕ) → b ≢ j → c'.buf j ≡ c.buf j

module _ (c : Bcache) (b : ℕ) (xs ys : List ℕ) (r : IsCache c (xs ++ b ∷ ys)) where
  abbrev dropped : Bcache
  dropped = set_buf b (record (c.buf b) { refcnt = (c.buf b).refcnt - 1 }) c

  dropped-IsReleased : IsReleased b c dropped
  dropped-IsReleased = record {
    buffer = update-at c.buf b (record (c.buf b) { refcnt = (c.buf b).refcnt - 1 });
    others = update-other c.buf b (record (c.buf b) { refcnt = (c.buf b).refcnt - 1 });
  }

  same_block :
      (dev blockno j : ℕ)
      → is_for dev blockno (dropped.buf j) ≡ true
      → is_for dev blockno (c.buf j) ≡ true
  same_block dev blockno j e = elim (ℕ_discrete b j) [
    | yes s ↦
        subst (λ x. is_for dev blockno (c.buf x) ≡ true) s
          (subst (λ v. is_for dev blockno v ≡ true) dropped-IsReleased.buffer
            (subst (λ x. is_for dev blockno (dropped.buf x) ≡ true) (sym s) e))
    | no n ↦ subst (λ v. is_for dev blockno v ≡ true) (dropped-IsReleased.others j n) e
  ]

  dropped-IsCache : IsCache dropped (xs ++ b ∷ ys)
  dropped-IsCache = record {
    ring = r.ring;
    size = r.size;
    whole = r.whole;
    only = r.only;
    unique = λ dev blockno i j n h k e e'.
        r.unique dev blockno i j n h k (same_block dev blockno i e) (same_block dev blockno j e');
  }

  moved-IsCache :
      IsCache (record dropped { links = put_first b (unlink b dropped.links) }) (b ∷ xs ++ ys)
  moved-IsCache = record {
    ring =
        put_first-IsRing b (xs ++ ys) (unlink b c.links) (unlink-IsRing b xs ys c.links r.ring) (
          (λ e. node-Absent head b xs ys r.ring.apart (sym e)),
          node_apart b xs ys r.ring.distinct,
        );
    size = length_front b xs ys ∙ r.size;
    whole = λ q h a. r.whole q h (front-Absent q b xs ys a);
    only = λ q h. (node-Absent q b xs ys (r.only q h), Absent-without q xs b ys (r.only q h));
    unique = dropped-IsCache.unique;
  }

  abbrev moved : Bcache
  moved = record dropped { links = put_first b (unlink b dropped.links) }

  brelse_last : (c.buf b).refcnt ≡ 1 → brelse b c ≡ moved
  unfolding brelse
  brelse_last e =
      let t : ((c.buf b).refcnt - 1 == 0) ≡ true = ground (arith, e) in rw (==-refl b, t) refl

  brelse_more : (c.buf b).refcnt ≢ 1 → 0 < (c.buf b).refcnt → brelse b c ≡ dropped
  unfolding brelse
  brelse_more n h =
      let t : ((c.buf b).refcnt - 1 == 0) ≡ false = ground (arith, n, h) in rw (==-refl b, t) refl

-- `brelse` of a buffer with a reference, in a cache as `bget` keeps it, takes one reference from
-- the buffer and changes no other buffer. If it was the last one the buffer moves to the front of
-- the list and the rest keeps its order; otherwise the list stays. The cache is still well formed.
pub brelse-IsCache :
    (c : Bcache) (b : ℕ) (xs ys : List ℕ)
    → IsCache c (xs ++ b ∷ ys)
    → 0 < (c.buf b).refcnt
    → IsReleased b c (brelse b c)
      × ((((c.buf b).refcnt ≡ 1) × IsCache (brelse b c) (b ∷ xs ++ ys))
          ⊎ ((1 < (c.buf b).refcnt) × IsCache (brelse b c) (xs ++ b ∷ ys)))
brelse-IsCache c b xs ys r h = elim (ℕ_discrete (c.buf b).refcnt 1) [
  | yes e ↦
      let moves = sym (brelse_last c b xs ys r e) in
      (
        subst (IsReleased b c) moves (record {
          buffer = (dropped-IsReleased c b xs ys r).buffer;
          others = (dropped-IsReleased c b xs ys r).others;
        }),
        inl (e, subst (λ x. IsCache x (b ∷ xs ++ ys)) moves (moved-IsCache c b xs ys r)),
      )
  | no n ↦
      let stays = sym (brelse_more c b xs ys r n h) in
      (
        subst (IsReleased b c) stays (dropped-IsReleased c b xs ys r),
        inr (
          omega (arith, n, h),
          subst (λ x. IsCache x (xs ++ b ∷ ys)) stays (dropped-IsCache c b xs ys r),
        ),
      )
]
