-- ===== src/Inode/Room.antt =====
-- How much `bmap` of kernel/fs.c puts into the log, and when the log has room for a write.
use mathlib.Core.Option.{some-injective}
use xv6_riscv_labs.Prelude.{
  ℕ, suc, ◌+◌, ◌-◌, ◌*◌, ◌/◌, ◌%◌, ◌≤◌, ◌<◌, ◌≡◌, ◌≢◌, refl, ap, sym, ◌∙◌, false, none, some, List,
  [], ◌∷◌, ◌==◌, length, arith, if◌then◌else◌, ◌⊎◌, inl, inr, ℕ_discrete, dec_lt, subst, ==-false,
  lt→ltb, ltb-false, Bool-cases,
}
use xv6_riscv_labs.Fs.Bitmap.{
  Disk, bsize, write_block, balloc, bzero, log_n, last_panics, log_panics,
}
use xv6_riscv_labs.Fs.Alloc.{balloc_lem}
use xv6_riscv_labs.Inode.Words.{le32}
use xv6_riscv_labs.Inode.Defs.{Inode, ndirect, nindirect, bmap_direct, bmap_entry, bmap}
use xv6_riscv_labs.Inode.File.{ptr}
use xv6_riscv_labs.Inode.Steps.{ptr_direct, ptr_entry}
use xv6_riscv_labs.Inode.Map.{slot_of}
use xv6_riscv_labs.Inode.Content.{chunk}

-- At most `n` more calls of `log_write`.
pub record Logs (n : ℕ) (d d' : Disk) : Type 0 where
  pub limit : d'.limit ≡ d.limit
  pub few : length d'.logged ≤ length d.logged + n

Logs-none : (n : ℕ) (d : Disk) → Logs n d d
Logs-none n d = record { limit = refl; few = omega arith }

Logs-trans : (n m : ℕ) (d d' d'' : Disk) → Logs n d d' → Logs m d' d'' → Logs (n + m) d d''
Logs-trans n m d d' d'' a b = record {
  limit = b.limit ∙ a.limit;
  few = omega (arith, a.few, b.few);
}

Logs-more : (n m : ℕ) (d d' : Disk) → n ≤ m → Logs n d d' → Logs m d d'
Logs-more n m d d' h a = record { limit = a.limit; few = omega (arith, a.few, h) }

-- No call of `log_write`.
pub record SameLog (d d' : Disk) : Type 0 where
  pub limit : d'.limit ≡ d.limit
  pub logged : d'.logged ≡ d.logged

pub SameLog-refl : (d : Disk) → SameLog d d
SameLog-refl d = record { limit = refl; logged = refl }

pub SameLog-trans : (d d' d'' : Disk) → SameLog d d' → SameLog d' d'' → SameLog d d''
SameLog-trans d d' d'' a b = record { limit = b.limit ∙ a.limit; logged = b.logged ∙ a.logged }

balloc-Logs : (d : Disk) → Logs 2 d (balloc d).1
unfolding bzero
balloc-Logs d = elim (balloc_lem d) [
  | inl (e, all) ↦ subst (Logs 2 d) (sym (ap (λ r. r.1) e)) (Logs-none 2 d)
  | inr (x, small, free, first, e) ↦
      subst (Logs 2 d) (sym (ap (λ r. r.1) e)) (record { limit = refl; few = omega arith })
]

bmap_direct-Logs : (i : ℕ) (ip : Inode) (d : Disk) → Logs 2 d (bmap_direct i ip d).2
unfolding bmap_direct
bmap_direct-Logs i ip d = elim (ℕ_discrete (ip.addrs i) 0) [
  | yes z ↦ rw z (balloc-Logs d)
  | no n ↦ rw (==-false (ip.addrs i) 0 n) (Logs-none 2 d)
]

bmap_entry-Logs : (j x : ℕ) (ip : Inode) (d : Disk) → Logs 3 d (bmap_entry j (x, ip, d)).2
unfolding bmap_entry
bmap_entry-Logs j x ip d = elim (ℕ_discrete x 0) [
  | yes z ↦ rw z (Logs-none 3 d)
  | no n ↦ rw (==-false x 0 n) (elim (ℕ_discrete (le32 (d.block x) (4 * j)) 0) [
    | no m ↦ rw (==-false (le32 (d.block x) (4 * j)) 0 m) (Logs-none 3 d)
    | yes z ↦ rw z (elim (Bool-cases ((balloc d).0 == 0)) [
      | inl e ↦ rw e (Logs-more 2 3 d (balloc d).1 (omega arith) (balloc-Logs d))
      | inr e ↦
          rw e (record { limit = (balloc-Logs d).limit; few = omega (arith, (balloc-Logs d).few) })
    ])
  ])
]

-- `bmap` without its tests.
bmap_near :
    (bn : ℕ) (ip : Inode) (d : Disk) → bn < ndirect → bmap bn ip d ≡ some (bmap_direct bn ip d)
unfolding bmap
bmap_near bn ip d h = rw (lt→ltb bn ndirect h) refl

bmap_far :
    (bn : ℕ) (ip : Inode) (d : Disk)
    → ndirect ≤ bn
    → bn - ndirect < nindirect
    → bmap bn ip d ≡ some (bmap_entry (bn - ndirect) (bmap_direct ndirect ip d))
unfolding bmap
bmap_far bn ip d h l = rw (ltb-false bn ndirect h, lt→ltb (bn - ndirect) nindirect l) refl

bmap_past :
    (bn : ℕ) (ip : Inode) (d : Disk) → ndirect ≤ bn → nindirect ≤ bn - ndirect → bmap bn ip d ≡ none
unfolding bmap
bmap_past bn ip d h l = rw (ltb-false bn ndirect h, ltb-false (bn - ndirect) nindirect l) refl

-- What `bmap` returns, if it does.
module _ (bn : ℕ) (ip : Inode) (d : Disk) (r : ℕ × Inode × Disk) (e : bmap bn ip d ≡ some r) where
  bmap_result :
      ((bn < ndirect) × (bmap_direct bn ip d ≡ r))
      ⊎ ((ndirect ≤ bn) × (bmap_entry (bn - ndirect) (bmap_direct ndirect ip d) ≡ r))
  bmap_result = elim (dec_lt bn ndirect) [
    | yes h ↦ inl (h, some-injective (bmap_direct bn ip d) r (sym (bmap_near bn ip d h) ∙ e))
    | no g ↦ elim (dec_lt (bn - ndirect) nindirect) [
      | yes l ↦ inr (
        omega (arith, g),
        some-injective (bmap_entry (bn - ndirect) (bmap_direct ndirect ip d)) r
            (sym (bmap_far bn ip d (omega (arith, g)) l) ∙ e),
      )
      | no m ↦
          absurd (ground (arith, sym (bmap_past bn ip d (omega (arith, g)) (omega (arith, m))) ∙ e))
    ]
  ]

pub bmap-Logs :
    (bn : ℕ) (ip : Inode) (d : Disk) (b : ℕ) (ip' : Inode) (d' : Disk)
    → bmap bn ip d ≡ some (b, ip', d')
    → Logs 5 d d'
bmap-Logs bn ip d b ip' d' e = elim (bmap_result bn ip d (b, ip', d') e) [
  | inl (h, same) ↦
      subst (λ r. Logs 5 d r.2) same
        (Logs-more 2 5 d (bmap_direct bn ip d).2 (omega arith) (bmap_direct-Logs bn ip d))
  | inr (h, same) ↦
      let r = bmap_direct ndirect ip d in
      subst (λ x. Logs 5 d x.2) same
        (Logs-trans 2 3 d r.2 (bmap_entry (bn - ndirect) r).2 (bmap_direct-Logs ndirect ip d)
          (bmap_entry-Logs (bn - ndirect) r.0 r.1 r.2))
]

bmap_direct_kept :
    (i : ℕ) (ip : Inode) (d : Disk) → ip.addrs i ≢ 0 → bmap_direct i ip d ≡ (ip.addrs i, ip, d)
unfolding bmap_direct
bmap_direct_kept i ip d n = rw (==-false (ip.addrs i) 0 n) refl

bmap_entry_kept :
    (j x : ℕ) (ip : Inode) (d : Disk)
    → x ≢ 0
    → le32 (d.block x) (4 * j) ≢ 0
    → bmap_entry j (x, ip, d) ≡ (le32 (d.block x) (4 * j), ip, d)
unfolding bmap_entry
bmap_entry_kept j x ip d n m = rw (==-false x 0 n, ==-false (le32 (d.block x) (4 * j)) 0 m) refl

-- A pointer of the indirect block that is not 0.
entry_some :
    (j : ℕ) (ip : Inode) (d : Disk)
    → ptr ip d (13 + j) ≢ 0
    → (ip.addrs ndirect ≢ 0) × (le32 (d.block (ip.addrs ndirect)) (4 * j) ≢ 0)
entry_some j ip d n =
    let e = ptr_entry ip d (13 + j) (omega arith) in
    let some_block : ip.addrs ndirect ≢ 0 = λ z. n (e ∙ rw z refl) in
    (
      some_block,
      λ z. n (
          e
          ∙ rw (==-false (ip.addrs ndirect) 0 some_block) (
              ap (λ y. le32 (d.block (ip.addrs ndirect)) (4 * y)) {x = 13 + j - 13} {y = j}
                (omega arith)
              ∙ z)),
    )

pub bmap-SameLog :
    (bn : ℕ) (ip : Inode) (d : Disk) (b : ℕ) (ip' : Inode) (d' : Disk)
    → ptr ip d (slot_of bn) ≢ 0
    → bmap bn ip d ≡ some (b, ip', d')
    → SameLog d d'
bmap-SameLog bn ip d b ip' d' n e = elim (bmap_result bn ip d (b, ip', d') e) [
  | inl (h, same) ↦
      let n' : ip.addrs bn ≢ 0 = λ z. n (
        ap (ptr ip d) {x = slot_of bn} {y = bn} (rw (lt→ltb bn ndirect h) refl)
        ∙ ptr_direct ip d bn (omega (arith, h))
        ∙ z) in
      subst (λ r. SameLog d r.2) (sym (bmap_direct_kept bn ip d n') ∙ same) (SameLog-refl d)
  | inr (h, same) ↦
      let j = bn - ndirect in
      let slot : slot_of bn ≡ 13 + j = rw (ltb-false bn ndirect h) (omega (arith, h)) in
      let (x, y) = entry_some j ip d (λ z. n (ap (ptr ip d) slot ∙ z)) in
      let whole : bmap_entry j (bmap_direct ndirect ip d)
          ≡ (le32 (d.block (ip.addrs ndirect)) (4 * j), ip, d) =
        ap (bmap_entry j) (bmap_direct_kept ndirect ip d x)
        ∙ bmap_entry_kept j (ip.addrs ndirect) ip d x y in
      subst (λ r. SameLog d r.2) (sym whole ∙ same) (SameLog-refl d)
]

log_n_small : (logged : List ℕ) → log_n logged ≤ length logged
unfolding log_n
log_n_small [] = omega arith
log_n_small (b ∷ logged) = ground (arith, log_n_small logged)

no_panic_list :
    (limit : ℕ) (logged : List ℕ) → length logged ≤ limit → last_panics limit logged ≡ false
no_panic_list limit [] h = refl
no_panic_list limit (b ∷ logged) h = ground (arith, log_n_small logged, h)

pub no_panic : (d : Disk) → length d.logged ≤ d.limit → log_panics d ≡ false
no_panic d h = no_panic_list d.limit d.logged h

-- The blocks of the file that `rest` bytes from `off` on touch.
abbrev pub turns : ℕ → ℕ → ℕ
turns off rest = if rest == 0 then 0 else (off % bsize + rest - 1) / bsize + 1

pub turns_step :
    (off rest : ℕ)
    → 0 < rest
    → turns off rest ≡ turns (off + chunk rest off) (rest - chunk rest off) + 1
turns_step off rest h = ground arith

-- The log takes what a write of `n` bytes at `off` may put into it: six blocks for each block of
-- the file, and the inode's.
abbrev pub HasRoom : Disk → ℕ → ℕ → Type 0
HasRoom d off n = length d.logged + 6 * turns off n < d.limit

pub room_left : (d : Disk) (off n : ℕ) → HasRoom d off n → length d.logged < d.limit
room_left d off n h = omega (arith, h)

-- After a turn of the loop of `writei`.
pub turn-HasRoom :
    (d d' : Disk) (b : ℕ) (v : ℕ → ℕ) (off rest : ℕ)
    → 0 < rest
    → HasRoom d off rest
    → Logs 5 d d'
    → HasRoom (write_block b v d') (off + chunk rest off) (rest - chunk rest off)
turn-HasRoom d d' b v off rest some_left h l =
    let step = turns_step off rest some_left in
    let left = turns (off + chunk rest off) (rest - chunk rest off) in
    let fewer : 6 * turns off rest ≡ 6 * left + 6 = ap (λ x. 6 * x) step ∙ omega arith in
    rw l.limit (
      room_sum (length d.logged) (length d'.logged) (6 * turns off rest) (6 * left) d.limit h l.few
        fewer)
  where
    room_sum : (x y a c limit : ℕ) → x + a < limit → y ≤ x + 5 → a ≡ c + 6 → suc y + c < limit
    room_sum x y a c limit p q e = omega (arith, p, q, e)
