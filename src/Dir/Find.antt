-- ===== src/Dir/Find.antt =====
-- dirlookup of kernel/fs.c finds the first entry with the name.
use xv6_riscv_labs.Prelude.{
  ℕ, zero, suc, ◌+◌, ◌-◌, ◌*◌, ◌/◌, ◌%◌, ◌≤◌, ◌<◌, ◌≡◌, refl, ap, sym, ◌∙◌, fun_ext, true, false,
  Option, none, some, ◌==◌, arith, ◌⊎◌, inl, inr, Bool-cases, ℕ_discrete, dec_lt, lt→ltb, ltb-false,
  update,
}
use xv6_riscv_labs.Bits.{ByteArray, IsBytes}
use xv6_riscv_labs.Fs.Bitmap.{Disk, bsize}
use xv6_riscv_labs.Inode.Words.{le16}
use xv6_riscv_labs.Inode.Defs.{Inode}
use xv6_riscv_labs.Inode.File.{ptr}
use xv6_riscv_labs.Inode.Map.{slot_of}
use xv6_riscv_labs.Inode.Room.{SameLog, SameLog-refl, SameLog-trans}
use xv6_riscv_labs.Inode.Content.{max_size, overlay, readi}
use xv6_riscv_labs.Inode.Bytes.{
  byte, IsRewritten, IsRewritten-refl, IsRewritten-trans, IsRewritten-as,
}
use xv6_riscv_labs.Inode.Overlay.{overlay-IsBytes, overlay_cases, overlay_in, overlay_out}
use xv6_riscv_labs.Dir.Defs.{
  kernel_copies, dirent_size, same_name, lookup_from, t_dir, find_entry, dirlookup, get_found,
  after_find,
}
use xv6_riscv_labs.Dir.Lookup.{IsDirectory, image, is_hit, overlay_again, IsEntry, read-IsEntry}

-- The result is the first entry from `off` on that is in use and has the name, if there is one.
abbrev pub IsFirst : ByteArray → ByteArray → ℕ → ℕ → ℕ → ℕ → Option (ℕ × ℕ) → Type 0
IsFirst f mem name de off size none =
    (o : ℕ) → off ≤ o → o < size → o % dirent_size ≡ 0 → is_hit f mem name de o ≡ false
IsFirst f mem name de off size (some (o, inum)) =
    (off ≤ o)
    × (o < size)
    × (o % dirent_size ≡ 0)
    × (inum ≡ le16 (image f mem de o) de)
    × (is_hit f mem name de o ≡ true)
    × ((o' : ℕ) → off ≤ o' → o' < o → o' % dirent_size ≡ 0 → is_hit f mem name de o' ≡ false)

pub record IsFound (mem : ByteArray) (name de off : ℕ) (dp : Inode) (d : Disk)
    (r : Option (Option (ℕ × ℕ) × ByteArray × Inode × Disk)) : Type 0 where
  pub found : Option (ℕ × ℕ)
  pub mem' : ByteArray
  pub dp' : Inode
  pub d' : Disk
  pub result : r ≡ some (found, mem', dp', d')
  pub first : IsFirst (byte dp d) mem name de off dp.size found
  pub outside : (q : ℕ) → (q < de) ⊎ (de + dirent_size ≤ q) → mem' q ≡ mem q
  pub kept : IsBytes mem → IsBytes mem'
  pub log : SameLog d d'
  pub directory : IsDirectory dp' d'
  pub rewritten : IsRewritten dp d dp' d' (byte dp d)

byte-IsBytes :
    (dp : Inode) (d : Disk) (off : ℕ)
    → ((b : ℕ) → IsBytes (d.block b))
    → IsBytes (λ i. byte dp d (off + i))
byte-IsBytes dp d off h i =
    ground (arith, h (ptr dp d (slot_of ((off + i) / bsize))) ((off + i) % bsize))

module _ (dp0 : Inode) (d0 : Disk) (mem0 : ByteArray) (name de : ℕ) where
  -- Where the loop stands: only `de` has changed in memory, and the directory has its bytes.
  pub record IsAt (mem : ByteArray) (dp : Inode) (d : Disk) : Type 0 where
    pub directory : IsDirectory dp d
    pub rewritten : IsRewritten dp0 d0 dp d (byte dp0 d0)
    pub again : (src : ByteArray) → overlay mem de dirent_size src ≡ overlay mem0 de dirent_size src
    pub outside : (q : ℕ) → (q < de) ⊎ (de + dirent_size ≤ q) → mem q ≡ mem0 q
    pub kept : IsBytes mem0 → IsBytes mem
    pub log : SameLog d0 d

  pub same_size : (mem : ByteArray) (dp : Inode) (d : Disk) → IsAt mem dp d → dp.size ≡ dp0.size
  same_size mem dp d s = ap (λ i. i.size) s.rewritten.fields

  pub same_image :
      (mem : ByteArray) (dp : Inode) (d : Disk) (off : ℕ)
      → IsAt mem dp d
      → off + dirent_size ≤ max_size
      → image (byte dp d) mem de off ≡ image (byte dp0 d0) mem0 de off
  same_image mem dp d off s fits =
      s.again (λ i. byte dp d (off + i))
      ∙ fun_ext (λ q. elim (overlay_cases de dirent_size q) [
        | inl (low, high) ↦
            overlay_in mem0 de dirent_size (λ i. byte dp d (off + i)) q low high
            ∙ s.rewritten.bytes (off + (q - de)) (omega arith)
            ∙ sym (overlay_in mem0 de dirent_size (λ i. byte dp0 d0 (off + i)) q low high)
        | inr out ↦
            overlay_out mem0 de dirent_size (λ i. byte dp d (off + i)) q out
            ∙ sym (overlay_out mem0 de dirent_size (λ i. byte dp0 d0 (off + i)) q out)
      ])

  pub entry-IsAt :
      (mem : ByteArray) (dp : Inode) (d : Disk) (off : ℕ)
      → ((b : ℕ) → IsBytes (d0.block b))
      → (s : IsAt mem dp d) → off + dirent_size ≤ max_size
      → (e : IsEntry off de mem dp d) → IsAt (image (byte dp0 d0) mem0 de off) e.dp' e.d'
  entry-IsAt mem dp d off blocks s fits e = record {
    directory = e.directory;
    rewritten =
        IsRewritten-as dp0 d0 e.dp' e.d' (byte dp d) (byte dp0 d0)
          (IsRewritten-trans dp0 d0 dp d e.dp' e.d' (byte dp0 d0) (byte dp d) s.rewritten
            e.rewritten)
          s.rewritten.bytes;
    again = λ src. overlay_again mem0 (λ i. byte dp0 d0 (off + i)) src de dirent_size;
    log = SameLog-trans d0 d e.d' s.log e.log;
    outside = λ q h. overlay_out mem0 de dirent_size (λ i. byte dp0 d0 (off + i)) q h;
    kept = λ h.
        overlay-IsBytes mem0 de dirent_size (λ i. byte dp0 d0 (off + i)) h
          (byte-IsBytes dp0 d0 off blocks);
  }

  at-IsFound :
      (found : Option (ℕ × ℕ)) (mem : ByteArray) (dp : Inode) (d : Disk) (off : ℕ)
      → IsAt mem dp d
      → IsFirst (byte dp0 d0) mem0 name de off dp0.size found
      → IsFound mem0 name de off dp0 d0 (some (found, mem, dp, d))
  at-IsFound found mem dp d off s first = record {
    found = found;
    mem' = mem;
    dp' = dp;
    d' = d;
    result = refl;
    first = first;
    outside = s.outside;
    kept = s.kept;
    log = s.log;
    directory = s.directory;
    rewritten = s.rewritten;
  }

  -- An entry that is not the one looked for is passed over.
  passed-IsFirst :
      (off : ℕ) (found : Option (ℕ × ℕ))
      → off % dirent_size ≡ 0
      → is_hit (byte dp0 d0) mem0 name de off ≡ false
      → IsFirst (byte dp0 d0) mem0 name de (off + dirent_size) dp0.size found
      → IsFirst (byte dp0 d0) mem0 name de off dp0.size found
  passed-IsFirst off none a miss first = λ o low high b. elim (ℕ_discrete o off) [
    | yes e ↦ rw e miss
    | no n ↦ first o (omega (arith, n, low, a, b)) high b
  ]
  passed-IsFirst off (some (o, inum)) a miss (low, high, b, here, hit, before) = (
    omega (arith, low),
    high,
    b,
    here,
    hit,
    λ o' low' high' b'. elim (ℕ_discrete o' off) [
      | yes e ↦ rw e miss
      | no n ↦ before o' (omega (arith, n, low', a, b')) high' b'
    ],
  )

  passed-IsFound :
      (off : ℕ) (r : Option (Option (ℕ × ℕ) × ByteArray × Inode × Disk))
      → off % dirent_size ≡ 0
      → is_hit (byte dp0 d0) mem0 name de off ≡ false
      → IsFound mem0 name de (off + dirent_size) dp0 d0 r
      → IsFound mem0 name de off dp0 d0 r
  passed-IsFound off r a miss w = record {
    found = w.found;
    mem' = w.mem';
    dp' = w.dp';
    d' = w.d';
    result = w.result;
    first = passed-IsFirst off w.found a miss w.first;
    outside = w.outside;
    kept = w.kept;
    log = w.log;
    directory = w.directory;
    rewritten = w.rewritten;
  }

  lookup_from_lem :
      (k off : ℕ) (mem : ByteArray) (dp : Inode) (d : Disk)
      → ((b : ℕ) → IsBytes (d0.block b))
      → IsAt mem dp d
      → off % dirent_size ≡ 0
      → off ≤ dp0.size
      → dp0.size < off + dirent_size * k
      → IsFound mem0 name de off dp0 d0 (lookup_from k name de off (mem, dp, d))
  unfolding lookup_from
  lookup_from_lem zero off mem dp d blocks s a low enough = absurd (omega (arith, low, enough))
  lookup_from_lem (suc k) off mem dp d blocks s a low enough = elim (dec_lt off dp.size) [
    | no n ↦ rw (ltb-false off dp.size (omega (arith, n))) (
        at-IsFound none mem dp d off s
          (λ o above high b. absurd (omega (arith, n, above, high, same_size mem dp d s))))
    | yes l ↦
        let e = read-IsEntry off de mem dp d s.directory l a in
        let small : off + dirent_size ≤ max_size =
          omega (arith, l, a, s.directory.small, s.directory.entries) in
        let next = entry-IsAt mem dp d off blocks s small e in
        let m = image (byte dp0 d0) mem0 de off in
        let rest =
          lookup_from_lem k (off + dirent_size) m e.dp' e.d' blocks next (omega (arith, a))
            (omega (arith, a, l, same_size mem dp d s, s.directory.entries))
            (omega (arith, enough)) in
        let read : readi kernel_copies off dirent_size de mem dp d
            ≡ some (some dirent_size, m, e.dp', e.d') =
          e.result
          ∙ ap (λ x. some (some dirent_size, x, e.dp', e.d')) (same_image mem dp d off s small) in
        rw (lt→ltb off dp.size l, read)
          (elim (Bool-cases (le16 m de == 0)) [
            | inl unused ↦ rw unused (passed-IsFound off _ a (rw unused refl) rest)
            | inr used ↦ rw used (elim (Bool-cases (same_name name de m)) [
              | inr other ↦ rw other (passed-IsFound off _ a (rw (used, other) refl) rest)
              | inl same ↦ rw same (
                  at-IsFound (some (off, le16 m de)) m e.dp' e.d' off next (
                    omega arith,
                    omega (arith, l, same_size mem dp d s),
                    a,
                    refl,
                    rw (used, same) refl,
                    λ o above high b. absurd (omega (arith, above, high)),
                  ))
            ])
          ])
  ]

pub start-IsAt :
    (mem : ByteArray) (name de : ℕ) (dp : Inode) (d : Disk)
    → IsDirectory dp d
    → IsAt dp d mem name de mem dp d
start-IsAt mem name de dp d r = record {
  directory = r;
  rewritten = IsRewritten-refl dp d r.disk r.file;
  again = λ src. refl;
  outside = λ q h. refl;
  kept = λ h. h;
  log = SameLog-refl d;
}

find_entry_lem :
    (mem : ByteArray) (name de : ℕ) (dp : Inode) (d : Disk)
    → dp.type ≡ t_dir
    → IsDirectory dp d
    → IsFound mem name de 0 dp d (find_entry name de (mem, dp, d))
unfolding find_entry
find_entry_lem mem name de dp d e r =
    let is_dir : (dp.type == t_dir) ≡ true = ap (λ x. x == t_dir) e in
    rw is_dir (
      lookup_from_lem dp d mem name de (dp.size / dirent_size + 1) 0 mem dp d r.disk.mapped.bytes
        (start-IsAt mem name de dp d r) refl (omega arith) (omega arith))

pub dirlookup_lem :
    (p name de : ℕ) (mem : ByteArray) (t : ℕ → Inode) (d : Disk)
    → (t p).type ≡ t_dir
    → IsDirectory (t p) d
    → (w : IsFound mem name de 0 (t p) d (find_entry name de (mem, t p, d))) × (dirlookup p name de
          mem t d
        ≡ get_found (t p).dev (update t p w.dp') (w.found, w.mem', w.dp', w.d'))
unfolding dirlookup
dirlookup_lem p name de mem t d e r =
    let w = find_entry_lem mem name de (t p) d e r in
    let dev : w.dp'.dev ≡ (t p).dev = ap (λ i. i.dev) w.rewritten.fields in
    (
      w,
      ap (after_find p t) w.result
          ∙ ap (λ n. get_found n (update t p w.dp') (w.found, w.mem', w.dp', w.d')) dev,
    )
