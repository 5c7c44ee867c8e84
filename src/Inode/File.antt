-- ===== src/Inode/File.antt =====
-- The pointers of a file of kernel/fs.c, and what a growing file keeps.
use xv6_riscv_labs.Prelude.{
  ℕ, ◌-◌, ◌*◌, ◌<◌, ◌≡◌, ◌≢◌, refl, ap, sym, ◌∙◌, true, false, ◌==◌, ltb, arith, if◌then◌else◌, inl,
  inr, ℕ_discrete, subst, ==-refl, Bool-cases,
}
use mathlib.Core.Bool.{false≢true}
use xv6_riscv_labs.Fs.Bitmap.{Disk, used}
use xv6_riscv_labs.Inode.Words.{le32}
use xv6_riscv_labs.Inode.Defs.{Inode, ndirect}
use xv6_riscv_labs.Inode.Blocks.{IsData, IsDisk, IsTaken}

-- The pointers: 0 to 11 to data, 12 to the indirect block, from 13 on its entries.
abbrev pub nslot : ℕ
nslot = 269

abbrev pub ptr : Inode → Disk → ℕ → ℕ
ptr ip d s =
    if ltb s 13
    then ip.addrs s
    else if ip.addrs ndirect == 0
    then 0
    else le32 (d.block (ip.addrs ndirect)) (4 * (s - 13))

-- The pointers are 0 or different blocks in use, none of the free map.
pub record IsFile (ip : Inode) (d : Disk) : Type 0 where
  pub small : (s : ℕ) → s < nslot → ptr ip d s ≢ 0 → ptr ip d s < d.size
  pub in_use : (s : ℕ) → s < nslot → ptr ip d s ≢ 0 → used d (ptr ip d s) ≡ true
  pub off_map : (s : ℕ) → s < nslot → ptr ip d s ≢ 0 → IsData d (ptr ip d s)
  pub apart :
      (s s' : ℕ) → s < nslot → s' < nslot → ptr ip d s ≢ 0 → ptr ip d s ≡ ptr ip d s' → s ≡ s'

-- The file and the disk are kept, but for pointer `s` and the indirect block, if these were 0.
pub record IsKept (s : ℕ) (ip : Inode) (d : Disk) (ip' : Inode) (d' : Disk) : Type 0 where
  pub file : IsFile ip' d'
  pub disk : IsDisk d'
  pub size : d'.size ≡ d.size
  pub bmapstart : d'.bmapstart ≡ d.bmapstart
  pub fields : ip' ≡ record ip { addrs = ip'.addrs }
  pub pointers : (x : ℕ) → x < nslot → ptr ip d x ≢ 0 → ptr ip' d' x ≡ ptr ip d x
  pub others : (x : ℕ) → x < nslot → x ≢ s → x ≢ ndirect → ptr ip' d' x ≡ ptr ip d x
  pub fresh :
      (x : ℕ) → x < nslot → ptr ip d x ≡ 0 → ptr ip' d' x ≢ 0 → used d (ptr ip' d' x) ≡ false
  pub in_use : (y : ℕ) → y < d.size → used d y ≡ true → used d' y ≡ true
  pub content :
      (y : ℕ)
      → y < d.size
      → used d y ≡ true
      → y ≢ 0
      → y ≢ ip.addrs ndirect
      → IsData d y
      → d'.block y ≡ d.block y

pub IsKept-refl : (s : ℕ) (ip : Inode) (d : Disk) → IsFile ip d → IsDisk d → IsKept s ip d ip d
IsKept-refl s ip d f g = record {
  file = f;
  disk = g;
  size = refl;
  bmapstart = refl;
  fields = refl;
  pointers = λ x h n. refl;
  others = λ x h n m. refl;
  fresh = λ x h z n. absurd (n z);
  in_use = λ y h u. u;
  content = λ y h u z n o. refl;
}

module _ (ip : Inode) (d : Disk) (ip' : Inode) (d' : Disk) where
  pub IsData-kept :
      d'.size ≡ d.size → d'.bmapstart ≡ d.bmapstart → (b : ℕ) → IsData d b → IsData d' b
  IsData-kept s m b o y h = rw m (o y (subst (λ n. y < n) s h))

  pub not_before :
      (s : ℕ) → IsKept s ip d ip' d' → (y : ℕ) → y < d.size → used d' y ≡ false → used d y ≡ false
  not_before s a y h f = elim (Bool-cases (used d y)) [
    | inr e ↦ e
    | inl e ↦ absurd (false≢true (sym f ∙ a.in_use y h e))
  ]

  -- A block in use that is not the indirect block does not become it.
  indirect_apart :
      (s : ℕ)
      → IsKept s ip d ip' d'
      → (y : ℕ) → used d y ≡ true
      → y ≢ 0
      → y ≢ ip.addrs ndirect
      → y ≢ ip'.addrs ndirect
  indirect_apart s a y u z n e = elim (ℕ_discrete (ip.addrs ndirect) 0) [
    | no m ↦ n (e ∙ a.pointers ndirect (omega arith) m)
    | yes m ↦
        false≢true
          (sym (a.fresh ndirect (omega arith) m (λ zero. z (e ∙ zero))) ∙ sym (ap (used d) e) ∙ u)
  ]

  pub IsKept-trans :
      (s : ℕ) (ip'' : Inode) (d'' : Disk)
      → IsKept s ip d ip' d'
      → IsKept s ip' d' ip'' d''
      → IsKept s ip d ip'' d''
  IsKept-trans s ip'' d'' a b = record {
    file = b.file;
    disk = b.disk;
    size = b.size ∙ a.size;
    bmapstart = b.bmapstart ∙ a.bmapstart;
    fields = b.fields ∙ ap {A = Inode} {B = Inode} (λ i. record i { addrs = ip''.addrs }) a.fields;
    pointers = λ x h n. b.pointers x h (λ z. n (sym (a.pointers x h n) ∙ z)) ∙ a.pointers x h n;
    others = λ x h n m. b.others x h n m ∙ a.others x h n m;
    fresh = λ x h z n. elim (ℕ_discrete (ptr ip' d' x) 0) [
      | no m ↦ subst (λ p. used d p ≡ false) (sym (b.pointers x h m)) (a.fresh x h z m)
      | yes e ↦
          not_before s a (ptr ip'' d'' x) (rw (← (b.size ∙ a.size)) (b.file.small x h n))
            (b.fresh x h e n)
    ];
    in_use = λ y h u. b.in_use y (subst (λ n. y < n) (sym a.size) h) (a.in_use y h u);
    content = λ y h u z n o.
        b.content y (subst (λ n. y < n) (sym a.size) h) (a.in_use y h u) z
          (indirect_apart s a y u z n) (IsData-kept a.size a.bmapstart y o)
        ∙ a.content y h u z n o;
  }

  -- One step: block `b`, just taken, becomes pointer `s`.
  module _ (s b : ℕ) (file : IsFile ip d) (t : IsTaken (ip.addrs ndirect) d b d')
      (s_small : s < nslot) (was : ptr ip d s ≡ 0) (now : ptr ip' d' s ≡ b)
      (others : (x : ℕ) → x < nslot → x ≢ s → ptr ip' d' x ≡ ptr ip d x) where
    -- What holds of the new pointer and of the old ones holds of all.
    each :
        (P : ℕ → ℕ → Type 0)
        → P s b
        → ((x : ℕ) → x < nslot → x ≢ s → P x (ptr ip d x))
        → (x : ℕ) → x < nslot
        → P x (ptr ip' d' x)
    each P new old x h = elim (ℕ_discrete x s) [
      | yes e ↦ subst (λ y. P y (ptr ip' d' y)) (sym e) (subst (P s) (sym now) new)
      | no n ↦ subst (P x) (sym (others x h n)) (old x h n)
    ]

    kept_pointers : (x : ℕ) → x < nslot → ptr ip d x ≢ 0 → ptr ip' d' x ≡ ptr ip d x
    kept_pointers x h n = others x h (λ e. n (ap (ptr ip d) e ∙ was))

    was_free :
        (x : ℕ) → x < nslot → ptr ip d x ≡ 0 → ptr ip' d' x ≢ 0 → used d (ptr ip' d' x) ≡ false
    was_free x h z n = elim (ℕ_discrete x s) [
      | yes e ↦ subst (λ y. used d (ptr ip' d' y) ≡ false) (sym e) (ap (used d) now ∙ t.free)
      | no m ↦ absurd (n (others x h m ∙ z))
    ]

    kept_in_use : (y : ℕ) → y < d.size → used d y ≡ true → used d' y ≡ true
    kept_in_use y h u = t.in_use y h ∙ rw u (ground arith)

    fresh : (x : ℕ) → x < nslot → ptr ip d x ≢ 0 → ptr ip d x ≢ b
    fresh x h n e = false≢true (sym t.free ∙ sym (ap (used d) e) ∙ file.in_use x h n)

    step-IsFile : IsFile ip' d'
    step-IsFile = record {
      small =
          each (λ x p. p ≢ 0 → p < d'.size) (λ n. rw t.size t.small)
            (λ x h m n. rw t.size (file.small x h n));
      in_use =
          each (λ x p. p ≢ 0 → used d' p ≡ true) (λ n. t.in_use b t.small ∙ rw (==-refl b))
            (λ x h m n. kept_in_use (ptr ip d x) (file.small x h n) (file.in_use x h n));
      off_map =
          each (λ x p. p ≢ 0 → IsData d' p) (λ n. IsData-kept t.size t.bmapstart b t.off_map)
            (λ x h m n. IsData-kept t.size t.bmapstart (ptr ip d x) (file.off_map x h n));
      apart = λ x y h k.
          each (λ x p. p ≢ 0 → p ≡ ptr ip' d' y → x ≡ y)
            (each (λ y q. b ≢ 0 → b ≡ q → s ≡ y) (λ n e. refl)
              (λ y h m n e. absurd (fresh y h (λ z. n (e ∙ z)) (sym e))) y k)
            (λ x h m.
              each (λ y q. ptr ip d x ≢ 0 → ptr ip d x ≡ q → x ≡ y) (λ n e. absurd (fresh x h n e))
                (λ y k m' n e. file.apart x y h k n e) y k)
            x h;
    }

    pub step-IsKept : ip' ≡ record ip { addrs = ip'.addrs } → IsKept s ip d ip' d'
    step-IsKept fields = record {
      file = step-IsFile;
      disk = t.disk;
      size = t.size;
      bmapstart = t.bmapstart;
      fields = fields;
      pointers = kept_pointers;
      others = λ x h n m. others x h n;
      fresh = was_free;
      in_use = kept_in_use;
      content =
          λ y h u z n o. t.frame y (λ e. false≢true (sym t.free ∙ sym (ap (used d) e) ∙ u)) n o;
    }
