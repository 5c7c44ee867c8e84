-- ===== src/Inode/Map.antt =====
-- `bmap` of kernel/fs.c finds or allocates the block of a file.
use xv6_riscv_labs.Prelude.{
  ℕ, ◌+◌, ◌-◌, ◌*◌, ◌≤◌, ◌<◌, ◌≡◌, ◌≢◌, refl, ap, sym, ◌∙◌, true, none, some, ltb, arith,
  if◌then◌else◌, ◌⊎◌, inl, inr, ℕ_discrete, dec_lt, subst, ==-false, lt→ltb, ltb-false,
}
use xv6_riscv_labs.Fs.Bitmap.{Disk, used}
use xv6_riscv_labs.Fs.Alloc.{taken_block}
use xv6_riscv_labs.Inode.Words.{le32}
use xv6_riscv_labs.Inode.Defs.{Inode, ndirect, nindirect, bmap_direct, bmap_entry, bmap}
use xv6_riscv_labs.Inode.Blocks.{IsDisk, balloc-IsTaken}
use xv6_riscv_labs.Inode.File.{nslot, ptr, IsFile, IsKept, IsKept-refl, IsKept-trans, not_before}
use xv6_riscv_labs.Inode.Steps.{IsMapping, ptr_direct, ptr_entry, direct-IsMapping, entry-IsMapping}

-- The pointer of block `bn` of a file.
abbrev pub slot_of : ℕ → ℕ
slot_of bn = if ltb bn ndirect then bn else bn + 1

-- What `bmap` and its parts return.
abbrev Maps : ℕ → Inode → Disk → ℕ × Inode × Disk → Type 0
Maps s ip d r = IsMapping s r.0 ip d r.1 r.2

module _ (ip : Inode) (d : Disk) (disk : IsDisk d) (file : IsFile ip d) where
  found-IsMapping : (s : ℕ) → ptr ip d s ≢ 0 → IsMapping s (ptr ip d s) ip d ip d
  found-IsMapping s n = record {
    kept = IsKept-refl s ip d file disk;
    now = refl;
    outcome = inl (n, refl);
  }

  full-IsMapping :
      (s : ℕ) → ptr ip d s ≡ 0 → ((y : ℕ) → y < d.size → used d y ≡ true) → IsMapping s 0 ip d ip d
  full-IsMapping s z full = record {
    kept = IsKept-refl s ip d file disk;
    now = z;
    outcome = inr (inr (refl, z, full));
  }

  bmap_direct_lem : (i : ℕ) → i < 13 → Maps i ip d (bmap_direct i ip d)
  unfolding bmap_direct
  bmap_direct_lem i h = elim (ℕ_discrete (ip.addrs i) 0) [
    | no n ↦ rw (==-false (ip.addrs i) 0 n) (
        subst (λ p. IsMapping i p ip d ip d) (ptr_direct ip d i h)
          (found-IsMapping i (λ z. n (sym (ptr_direct ip d i h) ∙ z))))
    | yes z ↦ elim (balloc-IsTaken d disk) [
      | inl (e, full) ↦ rw (z, e) (full-IsMapping i (ptr_direct ip d i h ∙ z) full)
      | inr (b, e, n, t) ↦
          rw (z, e, ==-false b 0 n) (direct-IsMapping ip d file b (taken_block b d) t i h z n)
    ]
  ]

  -- With the indirect block.
  module _ (j : ℕ) (h : j < nindirect) (n : ip.addrs ndirect ≢ 0) where
    abbrev number : ℕ
    number = le32 (d.block (ip.addrs ndirect)) (4 * j)

    ptr-number : ptr ip d (13 + j) ≡ number
    ptr-number =
        ptr_entry ip d (13 + j) (omega arith)
        ∙ rw (==-false (ip.addrs ndirect) 0 n)
            (ap (λ y. le32 (d.block (ip.addrs ndirect)) (4 * y)) (omega arith))

    entry_lem : Maps (13 + j) ip d (bmap_entry j (ip.addrs ndirect, ip, d))
    unfolding bmap_entry
    entry_lem = rw (==-false (ip.addrs ndirect) 0 n) (elim (ℕ_discrete number 0) [
      | no m ↦ rw (==-false number 0 m) (
          subst (λ p. IsMapping (13 + j) p ip d ip d) ptr-number
            (found-IsMapping (13 + j) (λ z. m (sym ptr-number ∙ z))))
      | yes z ↦ elim (balloc-IsTaken d disk) [
        | inl (e, full) ↦ rw (z, e) (full-IsMapping (13 + j) (ptr-number ∙ z) full)
        | inr (b, e, m, t) ↦
            rw (z, e, ==-false b 0 m)
              (entry-IsMapping ip d file b (taken_block b d) t j h n m
                (omega (arith, (t 0).small, disk.small)) (ptr-number ∙ z))
      ]
    ])

IsKept-any :
    (s s' : ℕ) (ip : Inode) (d : Disk) (ip' : Inode) (d' : Disk)
    → s ≡ ndirect
    → IsKept s ip d ip' d'
    → IsKept s' ip d ip' d'
IsKept-any s s' ip d ip' d' e k = record {
  file = k.file;
  disk = k.disk;
  size = k.size;
  bmapstart = k.bmapstart;
  fields = k.fields;
  pointers = k.pointers;
  others = λ x h n m. k.others x h (λ z. m (z ∙ e)) m;
  fresh = k.fresh;
  in_use = k.in_use;
  content = k.content;
}

-- After a step that left pointer `s`.
IsMapping-after :
    (s b : ℕ) (ip : Inode) (d : Disk) (ip' : Inode) (d' : Disk) (ip'' : Inode) (d'' : Disk)
    → s < nslot
    → IsKept s ip d ip' d'
    → ptr ip' d' s ≡ ptr ip d s
    → IsMapping s b ip' d' ip'' d''
    → IsMapping s b ip d ip'' d''
IsMapping-after s b ip d ip' d' ip'' d'' h k same m =
    let kept = IsKept-trans ip d ip' d' s ip'' d'' k m.kept in
    record {
      kept = kept;
      now = m.now;
      outcome = elim m.outcome [
        | inl (n, e) ↦ inl (n, sym same ∙ e)
        | inr (inl (n, z, free, zeroes)) ↦ inr (
            inl (
              n,
              sym same ∙ z,
              not_before ip d ip' d' s k b
                  (subst (λ y. y < d.size) m.now
                    (subst (λ y. ptr ip'' d'' s < y) kept.size
                      (kept.file.small s h (λ e. n (sym m.now ∙ e)))))
                  free,
              zeroes,
            ))
        | inr (inr (n, z, full)) ↦ inr (inr (n, sym same ∙ z, full))
      ];
    }

pub IsMapping-full :
    (s b : ℕ) (ip : Inode) (d : Disk) (ip' : Inode) (d' : Disk)
    → IsMapping s b ip d ip' d'
    → b ≡ 0
    → (y : ℕ) → y < d'.size
    → used d' y ≡ true
IsMapping-full s b ip d ip' d' m z = elim m.outcome [
  | inl (n, e) ↦ absurd (n z)
  | inr (inl (n, e, free, zeroes)) ↦ absurd (n z)
  | inr (inr (n, e, full)) ↦ full
]

module _ (ip : Inode) (d : Disk) (x : ℕ) (ip' : Inode) (d' : Disk)
    (m : IsMapping ndirect x ip d ip' d') where
  abbrev kept_all : (s : ℕ) → IsKept s ip d ip' d'
  kept_all s = IsKept-any ndirect s ip d ip' d' refl m.kept

  entry_same : (s : ℕ) → s < nslot → 13 ≤ s → ptr ip' d' s ≡ ptr ip d s
  entry_same s h l = m.kept.others s h (λ e. absurd (omega arith)) (λ e. absurd (omega arith))

  bmap_entry_lem : (j : ℕ) → j < nindirect → Maps (13 + j) ip d (bmap_entry j (x, ip', d'))
  unfolding bmap_entry
  bmap_entry_lem j h = elim (ℕ_discrete x 0) [
    | yes z ↦
        let none_now : ptr ip' d' (13 + j) ≡ 0 =
          ptr_entry ip' d' (13 + j) (omega arith) ∙ rw (m.now, z) refl in
        rw z (record {
          kept = kept_all (13 + j);
          now = none_now;
          outcome = inr (
              inr (
                refl,
                sym (entry_same (13 + j) (omega arith) (omega arith)) ∙ none_now,
                IsMapping-full ndirect x ip d ip' d' m z,
              ));
        })
    | no n ↦
        subst (λ y. Maps (13 + j) ip d (bmap_entry j (y, ip', d'))) m.now
          (IsMapping-after (13 + j) _ ip d ip' d' _ _ (omega arith) (kept_all (13 + j))
            (entry_same (13 + j) (omega arith) (omega arith))
            (entry_lem ip' d' m.kept.disk m.kept.file j h (λ z. n (sym m.now ∙ z))))
  ]

-- `bmap` panics exactly on a block past the largest file. Otherwise it returns the block that
-- the file's pointer now holds: the one it held before; or, if it held none, a block that was
-- free and is now full of zeros; or 0 if it held none and the disk is full. The pointers of the
-- file stay apart and in use, every other pointer to data stays, and so does the content of every
-- block in use other than block 0, the blocks of the free map and the indirect block.
pub bmap_lem :
    (ip : Inode) (d : Disk) (bn : ℕ)
    → IsDisk d
    → IsFile ip d
    → ((ndirect + nindirect ≤ bn) × (bmap bn ip d ≡ none))
      ⊎ ((bn < ndirect + nindirect)
          × ((b : ℕ) × (ip' : Inode) × (d' : Disk) × (bmap bn ip d ≡ some (b, ip', d'))
              × IsMapping (slot_of bn) b ip d ip' d'))
unfolding bmap
bmap_lem ip d bn disk file = elim (dec_lt bn ndirect) [
  | yes l ↦ inr (
    omega arith,
    (
      (bmap_direct bn ip d).0,
      (bmap_direct bn ip d).1,
      (bmap_direct bn ip d).2,
      rw (lt→ltb bn ndirect l) refl,
      rw (lt→ltb bn ndirect l) (bmap_direct_lem ip d disk file bn (omega arith)),
    ),
  )
  | no g ↦ elim (dec_lt (bn - ndirect) nindirect) [
    | no past ↦ inl (omega arith, ground arith)
    | yes l ↦
        let m = bmap_direct_lem ip d disk file ndirect (omega arith) in
        inr (
          omega arith,
          (
            (bmap_entry (bn - ndirect) (bmap_direct ndirect ip d)).0,
            (bmap_entry (bn - ndirect) (bmap_direct ndirect ip d)).1,
            (bmap_entry (bn - ndirect) (bmap_direct ndirect ip d)).2,
            rw (ltb-false bn ndirect (omega arith), lt→ltb (bn - ndirect) nindirect l) refl,
            rw (ltb-false bn ndirect (omega arith)) (
                subst (λ s. Maps s ip d (bmap_entry (bn - ndirect) (bmap_direct ndirect ip d)))
                  (omega arith) (bmap_entry_lem ip d _ _ _ m (bn - ndirect) l)),
          ),
        )
  ]
]
