-- ===== src/Inode/Table.antt =====
-- `iget` of kernel/fs.c on the inode table.
use xv6_riscv_labs.Prelude.{
  ℕ, zero, suc, ◌+◌, ◌<◌, ◌≡◌, ◌≢◌, refl, sym, ◌∙◌, Bool, true, false, ◌&&◌, Option, none, some,
  ◌==◌, ltb, if◌then◌else◌, update, arith, Bool-cases, ◌⊎◌, inl, inr, ℕ_discrete, subst, ==-refl,
  ==-false, update-at, update-other,
}
use mathlib.Core.Bool.{false≢true}
use xv6_riscv_labs.Inode.Defs.{Inode, ninode, hit, miss, or_else, iget_from, take_entry, iget}

-- A referenced entry for the inode.
abbrev pub holds : Inode → ℕ → ℕ → Bool
holds ip dev inum = ltb 0 ip.ref && ip.dev == dev && ip.inum == inum

-- No two referenced entries are for one inode.
abbrev pub IsTable : (ℕ → Inode) → Type 0
IsTable t =
    (dev inum i j : ℕ)
    → i < ninode
    → j < ninode
    → holds (t i) dev inum ≡ true
    → holds (t j) dev inum ≡ true
    → i ≡ j

module _ (dev inum : ℕ) (t : ℕ → Inode) where
  record Scanned (i : ℕ) (empty : Option ℕ) : Type 0 where
    absent : (j : ℕ) → j < i → holds (t j) dev inum ≡ false
    slot :
        ((empty ≡ none) × ((j : ℕ) → j < i → (t j).ref ≢ 0))
        ⊎ ((x : ℕ) × (empty ≡ some x) × (x < i) × ((t x).ref ≡ 0))

  up_to : {P : ℕ → Type 0} → (i : ℕ) → ((j : ℕ) → j < i → P j) → P i → (j : ℕ) → j < i + 1 → P j
  up_to {P} i below here j h = elim (ℕ_discrete j i) [
    | yes e ↦ subst P (sym e) here
    | no d ↦ below j (omega arith)
  ]

  Scanned-next :
      (i : ℕ) (empty : Option ℕ)
      → Scanned i empty
      → holds (t i) dev inum ≡ false
      → Scanned (i + 1) (or_else empty (if (t i).ref == 0 then some i else none))
  Scanned-next i empty s f = record {
    absent = up_to {P = λ j. holds (t j) dev inum ≡ false} i s.absent f;
    slot = elim s.slot [
      | inr (x, e, small, free) ↦ inr (x, rw e refl, omega (arith, small), free)
      | inl (e, all) ↦ elim (ℕ_discrete (t i).ref 0) [
        | yes z ↦ inr (i, rw (e, z) refl, omega arith, z)
        | no n ↦ inl (rw (e, ==-false (t i).ref 0 n) refl, up_to {P = λ j. (t j).ref ≢ 0} i all n)
      ]
    ];
  }

  iget_from_lem :
      (k i : ℕ) (empty : Option ℕ)
      → Scanned i empty
      → ((j : ℕ) × (iget_from k i empty dev inum t ≡ hit j)
          × (j < i + k)
          × (holds (t j) dev inum ≡ true))
        ⊎ ((e : Option ℕ) × (iget_from k i empty dev inum t ≡ miss e) × Scanned (i + k) e)
  unfolding iget_from
  iget_from_lem zero i empty s = inr (empty, refl, subst (λ x. Scanned x empty) (omega arith) s)
  iget_from_lem (suc k) i empty s = elim (Bool-cases (holds (t i) dev inum)) [
    | inl e ↦ inl (i, rw e refl, omega arith, e)
    | inr e ↦
        elim (iget_from_lem k (i + 1) (or_else empty (if (t i).ref == 0 then some i else none))
          (Scanned-next i empty s e)) [
            | inl (j, found, small, h) ↦ inl (j, rw e found, omega (arith, small), h)
            | inr (x, missed, r) ↦ inr (x, rw e missed, subst (λ y. Scanned y x) (omega arith) r)
          ]
  ]

  -- The entry `i` that `iget` returns, and the table it leaves.
  pub record Got (i : ℕ) (t' : ℕ → Inode) : Type 0 where
    pub small : i < ninode
    pub entry : holds (t' i) dev inum ≡ true
    pub others : (j : ℕ) → i ≢ j → t' j ≡ t j
    pub counted :
        ((holds (t i) dev inum ≡ true) × (t' i ≡ record (t i) { ref = (t i).ref + 1 }))
        ⊎ (((j : ℕ) → j < ninode → holds (t j) dev inum ≡ false)
            × ((t i).ref ≡ 0)
            × ((t' i).ref ≡ 1)
            × ((t' i).valid ≡ false))

  Got-hit :
      (i : ℕ)
      → i < ninode
      → holds (t i) dev inum ≡ true
      → Got i (update t i (record (t i) { ref = (t i).ref + 1 }))
  Got-hit i s h = record {
    small = s;
    entry = rw (==-refl i) (ground (arith, h));
    others = update-other t i (record (t i) { ref = (t i).ref + 1 });
    counted = inl (h, update-at t i (record (t i) { ref = (t i).ref + 1 }));
  }

  Got-miss :
      (i : ℕ)
      → i < ninode
      → (t i).ref ≡ 0
      → ((j : ℕ) → j < ninode → holds (t j) dev inum ≡ false)
      → Got i (update t i (record (t i) { dev = dev; inum = inum; ref = 1; valid = false }))
  Got-miss i s free absent =
      let new : Inode = record (t i) { dev = dev; inum = inum; ref = 1; valid = false } in
      record {
        small = s;
        entry = rw (==-refl i, ==-refl dev, ==-refl inum) refl;
        others = update-other t i new;
        counted = inr (absent, free, rw (==-refl i) refl, rw (==-refl i) refl);
      }

  Got-same :
      (i : ℕ) (t' : ℕ → Inode)
      → IsTable t
      → Got i t'
      → (j dev' inum' : ℕ) → j < ninode
      → holds (t' i) dev' inum' ≡ true
      → holds (t' j) dev' inum' ≡ true
      → i ≡ j
  Got-same i t' u g j dev' inum' s h h' = elim (ℕ_discrete i j) [
    | yes e ↦ e
    | no d ↦
        let before : holds (t j) dev inum ≡ true =
          subst (λ x. holds x dev inum ≡ true) (g.others j d) (ground (arith, h, h', g.entry)) in
        elim g.counted [
          | inl (held, z) ↦ u dev inum i j g.small s held before
          | inr (absent, free, one, cold) ↦ absurd (false≢true (sym (absent j s) ∙ before))
        ]
  ]

  Got-IsTable : (i : ℕ) (t' : ℕ → Inode) → IsTable t → Got i t' → IsTable t'
  Got-IsTable i t' u g dev' inum' j k sj sk hj hk = elim (ℕ_discrete i j) [
    | yes e ↦
        sym e
        ∙ Got-same i t' u g k dev' inum' sk (subst (λ x. holds (t' x) dev' inum' ≡ true) (sym e) hj)
            hk
    | no d ↦ elim (ℕ_discrete i k) [
      | yes e ↦
          sym (
            Got-same i t' u g j dev' inum' sj
              (subst (λ x. holds (t' x) dev' inum' ≡ true) (sym e) hk) hj)
          ∙ e
      | no d' ↦
          u dev' inum' j k sj sk (subst (λ x. holds x dev' inum' ≡ true) (g.others j d) hj)
            (subst (λ x. holds x dev' inum' ≡ true) (g.others k d') hk)
    ]
  ]

  iget_cases :
      ((iget dev inum t ≡ none)
        × ((j : ℕ) → j < ninode → (holds (t j) dev inum ≡ false) × ((t j).ref ≢ 0)))
      ⊎ ((i : ℕ) × (t' : ℕ → Inode) × (iget dev inum t ≡ some (i, t')) × Got i t')
  unfolding take_entry
  iget_cases = elim (iget_from_lem ninode 0 none nothing_scanned) [
    | inl (j, e, s, h) ↦ inr (j, _, rw e refl, Got-hit j s h)
    | inr (x, e, s) ↦ elim s.slot [
      | inl (z, all) ↦ inl (rw (e, z) refl, λ j h. (s.absent j h, all j h))
      | inr (j, z, small, free) ↦ inr (j, _, rw (e, z) refl, Got-miss j small free s.absent)
    ]
  ]
    where
      nothing_scanned : Scanned 0 none
      nothing_scanned = record {
        absent = λ j h. absurd (omega arith);
        slot = inl (refl, λ j h. absurd (omega arith));
      }

-- In a table in which no two referenced entries are for one inode, `iget` panics exactly if no
-- entry holds the inode and every entry is referenced. Otherwise it returns an entry that holds
-- the inode and changes no other entry: the one that held it already, with one more reference, or
-- an unreferenced one if there was none, with one reference and not read; and still no two
-- referenced entries are for one inode.
pub iget-IsTable :
    (dev inum : ℕ) (t : ℕ → Inode)
    → IsTable t
    → ((iget dev inum t ≡ none)
        × ((j : ℕ) → j < ninode → (holds (t j) dev inum ≡ false) × ((t j).ref ≢ 0)))
      ⊎ ((i : ℕ) × (t' : ℕ → Inode) × (iget dev inum t ≡ some (i, t'))
          × Got dev inum t i t'
          × IsTable t')
iget-IsTable dev inum t u = elim (iget_cases dev inum t) [
  | inl full ↦ inl full
  | inr (i, t', e, g) ↦ inr (i, t', e, g, Got-IsTable dev inum t i t' u g)
]
