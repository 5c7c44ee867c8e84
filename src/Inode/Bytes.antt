-- ===== src/Inode/Bytes.antt =====
-- A file of kernel/fs.c as a sequence of bytes, and the steps of `readi` and `writei` on it.
use xv6_riscv_labs.Prelude.{
  ℕ, ◌/◌, ◌%◌, ◌<◌, ◌≡◌, ◌≢◌, refl, ap, sym, ◌∙◌, true, ◌==◌, arith, if◌then◌else◌, inl, inr,
  ℕ_discrete, ==-false,
}
use mathlib.Core.Bool.{false≢true}
use xv6_riscv_labs.Bits.{ByteArray}
use xv6_riscv_labs.Fs.Bitmap.{Disk, bsize, used}
use xv6_riscv_labs.Inode.Defs.{Inode, ndirect}
use xv6_riscv_labs.Inode.Blocks.{IsData, IsDisk}
use xv6_riscv_labs.Inode.File.{nslot, ptr, IsFile, IsKept, IsData-kept}
use xv6_riscv_labs.Inode.Steps.{IsMapping}
use xv6_riscv_labs.Inode.Map.{slot_of}
use xv6_riscv_labs.Inode.Content.{max_size}

-- Byte `q` of the file; 0 where it has no block.
abbrev pub byte : Inode → Disk → ℕ → ℕ
byte ip d q =
    if ptr ip d (slot_of (q / bsize)) == 0
    then 0
    else d.block (ptr ip d (slot_of (q / bsize))) (q % bsize)

-- A block in use that is none of the file's nor of the free map.
pub record IsOther (ip : Inode) (d : Disk) (y : ℕ) : Type 0 where
  pub small : y < d.size
  pub in_use : used d y ≡ true
  pub some_block : y ≢ 0
  pub off_map : IsData d y
  pub apart : (s : ℕ) → s < nslot → ptr ip d s ≢ y

-- The file keeps its form and has the bytes `new`; no other block in use has changed.
pub record IsRewritten (ip : Inode) (d : Disk) (ip' : Inode) (d' : Disk) (new : ByteArray)
    : Type 0 where
  pub disk : IsDisk d'
  pub file : IsFile ip' d'
  pub fields : ip' ≡ record ip { addrs = ip'.addrs }
  pub pointers : (x : ℕ) → x < nslot → ptr ip d x ≢ 0 → ptr ip' d' x ≢ 0
  pub bytes : (q : ℕ) → q < max_size → byte ip' d' q ≡ new q
  pub others : (y : ℕ) → IsOther ip d y → IsOther ip' d' y × (d'.block y ≡ d.block y)

pub IsRewritten-refl :
    (ip : Inode) (d : Disk) → IsDisk d → IsFile ip d → IsRewritten ip d ip d (byte ip d)
IsRewritten-refl ip d g f = record {
  disk = g;
  file = f;
  fields = refl;
  pointers = λ x h n. n;
  bytes = λ q h. refl;
  others = λ y o. (o, refl);
}

pub IsRewritten-trans :
    (ip : Inode) (d : Disk) (ip' : Inode) (d' : Disk) (ip'' : Inode) (d'' : Disk)
    (mid new : ByteArray)
    → IsRewritten ip d ip' d' mid
    → IsRewritten ip' d' ip'' d'' new
    → IsRewritten ip d ip'' d'' new
IsRewritten-trans ip d ip' d' ip'' d'' mid new a b = record {
  disk = b.disk;
  file = b.file;
  fields = b.fields ∙ ap {A = Inode} {B = Inode} (λ i. record i { addrs = ip''.addrs }) a.fields;
  pointers = λ x h n. b.pointers x h (a.pointers x h n);
  bytes = b.bytes;
  others = λ y o. let step = b.others y (a.others y o).0 in (step.0, step.1 ∙ (a.others y o).1);
}

pub IsRewritten-as :
    (ip : Inode) (d : Disk) (ip' : Inode) (d' : Disk) (new new' : ByteArray)
    → IsRewritten ip d ip' d' new
    → ((q : ℕ) → q < max_size → new q ≡ new' q)
    → IsRewritten ip d ip' d' new'
IsRewritten-as ip d ip' d' new new' a e = record {
  disk = a.disk;
  file = a.file;
  fields = a.fields;
  pointers = a.pointers;
  bytes = λ q h. a.bytes q h ∙ e q h;
  others = a.others;
}

pub slot_small :
    (q : ℕ) → q < max_size → (slot_of (q / bsize) < nslot) × (slot_of (q / bsize) ≢ ndirect)
slot_small q h = (ground arith, λ e. ground (arith, e))

-- `bmap` leaves the bytes.
module _ (ip : Inode) (d : Disk) (ip' : Inode) (d' : Disk) (f : IsFile ip d) where
  byte_kept :
      (s q : ℕ)
      → IsKept s ip d ip' d'
      → q < max_size
      → ptr ip d (slot_of (q / bsize)) ≢ 0
      → byte ip' d' q ≡ byte ip d q
  byte_kept s q k h n =
      let x : ℕ = slot_of (q / bsize) in
      let in_range = slot_small q h in
      rw (k.pointers x in_range.0 n, ==-false (ptr ip d x) 0 n)
        (ap (λ a. a (q % bsize))
          (k.content (ptr ip d x) (f.small x in_range.0 n) (f.in_use x in_range.0 n) n
            (λ e. in_range.1 (f.apart x ndirect in_range.0 (omega arith) n e))
            (f.off_map x in_range.0 n)))

  mapped_byte : (s b q : ℕ) → IsMapping s b ip d ip' d' → q < max_size → byte ip' d' q ≡ byte ip d q
  mapped_byte s b q m h = elim (ℕ_discrete (ptr ip d (slot_of (q / bsize))) 0) [
    | no n ↦ byte_kept s q m.kept h n
    | yes z ↦ elim (ℕ_discrete (slot_of (q / bsize)) s) [
      | no n ↦
          rw (m.kept.others (slot_of (q / bsize)) (slot_small q h).0 n (slot_small q h).1, z) refl
      | yes e ↦ elim m.outcome [
        | inl (n, p) ↦ absurd (n (sym p ∙ ap (ptr ip d) (sym e) ∙ z))
        | inr (inl (n, p, free, zeroes)) ↦
            rw (z, ap (ptr ip' d') e ∙ m.now, ==-false b 0 n) (zeroes (q % bsize) (omega arith))
        | inr (inr (n, p, full)) ↦ rw (z, ap (ptr ip' d') e ∙ m.now ∙ n) refl
      ]
    ]
  ]

  kept-IsOther : (s y : ℕ) → IsKept s ip d ip' d' → IsOther ip d y → IsOther ip' d' y
  kept-IsOther s y k o = record {
    small = rw k.size o.small;
    in_use = k.in_use y o.small o.in_use;
    some_block = o.some_block;
    off_map = IsData-kept ip d ip' d' k.size k.bmapstart y o.off_map;
    apart = λ x h e. elim (ℕ_discrete (ptr ip d x) 0) [
      | no n ↦ o.apart x h (sym (k.pointers x h n) ∙ e)
      | yes z ↦
          false≢true
            (sym (k.fresh x h z (λ z'. o.some_block (sym e ∙ z'))) ∙ ap (used d) e ∙ o.in_use)
    ];
  }

  pub IsMapping-IsRewritten :
      (s b : ℕ) → IsMapping s b ip d ip' d' → IsRewritten ip d ip' d' (byte ip d)
  IsMapping-IsRewritten s b m = record {
    disk = m.kept.disk;
    file = m.kept.file;
    fields = m.kept.fields;
    pointers = λ x h n z. n (sym (m.kept.pointers x h n) ∙ z);
    bytes = λ q h. mapped_byte s b q m h;
    others = λ y o. (
      kept-IsOther s y m.kept o,
      m.kept.content y o.small o.in_use o.some_block (λ e. o.apart ndirect (omega arith) (sym e))
          o.off_map,
    );
  }
