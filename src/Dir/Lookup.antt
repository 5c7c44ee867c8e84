-- ===== src/Dir/Lookup.antt =====
-- dirlookup of kernel/fs.c finds the first entry with the name.
use xv6_riscv_labs.Prelude.{
  ℕ, ◌+◌, ◌-◌, ◌/◌, ◌%◌, ◌≤◌, ◌<◌, ◌≡◌, ◌≢◌, refl, ap, sym, ◌∙◌, fun_ext, Bool, not, ◌&&◌, some,
  ◌==◌, arith, inl, inr, dec_lt, subst, min,
}
use xv6_riscv_labs.Bits.{ByteArray}
use xv6_riscv_labs.Fs.Bitmap.{Disk, bsize}
use xv6_riscv_labs.Inode.Words.{le16}
use xv6_riscv_labs.Inode.Defs.{Inode}
use xv6_riscv_labs.Inode.Blocks.{IsDisk}
use xv6_riscv_labs.Inode.File.{ptr, IsFile}
use xv6_riscv_labs.Inode.Map.{slot_of}
use xv6_riscv_labs.Inode.Content.{max_size, overlay, readi}
use xv6_riscv_labs.Inode.Bytes.{byte, IsRewritten, slot_small}
use xv6_riscv_labs.Inode.Overlay.{overlay_cases, overlay_in, overlay_out}
use xv6_riscv_labs.Inode.Room.{SameLog}
use xv6_riscv_labs.Inode.Readi.{IsRead, readi_lem}
use xv6_riscv_labs.Dir.Defs.{kernel_copies, dirent_size, same_name}

-- A directory: whole entries, each with its blocks.
pub record IsDirectory (dp : Inode) (d : Disk) : Type 0 where
  pub disk : IsDisk d
  pub file : IsFile dp d
  pub entries : dp.size % dirent_size ≡ 0
  pub small : dp.size ≤ max_size
  pub mapped : (q : ℕ) → q < dp.size → ptr dp d (slot_of (q / bsize)) ≢ 0

-- Memory with the entry at offset `off` of the bytes `f` in `de`.
abbrev pub image : ByteArray → ByteArray → ℕ → ℕ → ByteArray
image f mem de off = overlay mem de dirent_size (λ i. f (off + i))

-- The entry is in use and has the name.
abbrev pub is_hit : ByteArray → ByteArray → ℕ → ℕ → ℕ → Bool
is_hit f mem name de off =
    not (le16 (image f mem de off) de == 0) && same_name name de (image f mem de off)

pub overlay_again :
    (mem src1 src : ByteArray) (de n : ℕ)
    → overlay (overlay mem de n src1) de n src ≡ overlay mem de n src
overlay_again mem src1 src de n = fun_ext (λ q. elim (overlay_cases de n q) [
  | inl (low, high) ↦
      overlay_in (overlay mem de n src1) de n src q low high
      ∙ sym (overlay_in mem de n src q low high)
  | inr out ↦
      overlay_out (overlay mem de n src1) de n src q out
      ∙ overlay_out mem de n src1 q out
      ∙ sym (overlay_out mem de n src q out)
])

-- One entry read into `de`.
pub record IsEntry (off de : ℕ) (mem : ByteArray) (dp : Inode) (d : Disk) : Type 0 where
  pub dp' : Inode
  pub d' : Disk
  pub result :
      readi kernel_copies off dirent_size de mem dp d
      ≡ some (some dirent_size, image (byte dp d) mem de off, dp', d')
  pub rewritten : IsRewritten dp d dp' d' (byte dp d)
  pub directory : IsDirectory dp' d'
  pub size : dp'.size ≡ dp.size
  pub log : SameLog d d'

pub rewritten-IsDirectory :
    (dp : Inode) (d : Disk) (dp' : Inode) (d' : Disk) (new : ByteArray)
    → IsDirectory dp d
    → IsRewritten dp d dp' d' new
    → IsDirectory dp' d'
rewritten-IsDirectory dp d dp' d' new r w =
    let size : dp'.size ≡ dp.size = ap (λ i. i.size) w.fields in
    record {
      disk = w.disk;
      file = w.file;
      entries = rw size r.entries;
      small = rw size r.small;
      mapped = λ q h.
          let h' : q < dp.size = subst (λ s. q < s) size h in
          w.pointers (slot_of (q / bsize)) (slot_small q (omega (arith, h', r.small))).0
            (r.mapped q h');
    }

module _ (off de : ℕ) (mem : ByteArray) (dp : Inode) (d : Disk) (r : IsDirectory dp d)
    (h : off < dp.size) (a : off % dirent_size ≡ 0) where
  whole_left : min dirent_size (dp.size - off) ≡ dirent_size
  whole_left = omega (arith, h, a, r.entries)

  read_whole :
      IsRead dirent_size 0 off de mem dp d (readi kernel_copies off dirent_size de mem dp d)
      → IsEntry off de mem dp d
  read_whole g =
      let all : g.count ≡ dirent_size = elim (dec_lt g.count dirent_size) [
        | yes l ↦ absurd (
            r.mapped (off + g.count) (omega (arith, h, a, l, r.entries))
              (g.short (omega (arith, l))).0)
        | no n ↦ omega (arith, n, g.at_most)
      ] in
      let count : 0 + g.count ≡ dirent_size = omega (arith, all) in
      let bytes : g.mem' ≡ image (byte dp d) mem de off =
        fun_ext (λ q. g.bytes q ∙ ap (λ n. overlay mem de n (λ i. byte dp d (off + i)) q) all) in
      record {
        dp' = g.ip';
        d' = g.d';
        result =
            g.result
            ∙ ap (λ n. some (some n, g.mem', g.ip', g.d')) count
            ∙ ap (λ m. some (some dirent_size, m, g.ip', g.d')) bytes;
        rewritten = g.rewritten;
        directory = rewritten-IsDirectory dp d g.ip' g.d' (byte dp d) r g.rewritten;
        size = ap (λ i. i.size) g.rewritten.fields;
        log = g.quiet (λ q low high. r.mapped q (omega (arith, h, a, r.entries, high)));
      }

  pub read-IsEntry : IsEntry off de mem dp d
  read-IsEntry = read_whole (
      subst (λ n. IsRead n 0 off de mem dp d (readi kernel_copies off dirent_size de mem dp d))
        whole_left
        (readi_lem kernel_copies off dirent_size de mem dp d (λ b m. refl) r.disk r.file r.small
          (omega (arith, h)) (omega (arith, h, r.small))))
