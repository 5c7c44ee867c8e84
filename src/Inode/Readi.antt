-- ===== src/Inode/Readi.antt =====
-- `readi` of kernel/fs.c returns the bytes.
use xv6_riscv_labs.Prelude.{
  ℕ, zero, suc, ◌+◌, ◌-◌, ◌/◌, ◌%◌, ◌^◌, ◌≤◌, ◌<◌, ◌≡◌, ◌≢◌, refl, sym, ◌∙◌, true, Option, some,
  arith, inl, inr, ℕ_discrete, dec_lt, subst, ==-false, lt→ltb, ltb-false, min,
}
use xv6_riscv_labs.Bits.{ByteArray}
use xv6_riscv_labs.Fs.Bitmap.{Disk, bsize, used}
use xv6_riscv_labs.Inode.Defs.{Inode}
use xv6_riscv_labs.Inode.Blocks.{IsDisk}
use xv6_riscv_labs.Inode.File.{ptr, IsFile}
use xv6_riscv_labs.Inode.Steps.{IsMapping}
use xv6_riscv_labs.Inode.Map.{slot_of, bmap_lem, IsMapping-full}
use xv6_riscv_labs.Inode.Content.{max_size, overlay, chunk, Copies, clip, read_blocks, readi}
use xv6_riscv_labs.Inode.Bytes.{
  byte, IsRewritten, IsRewritten-refl, IsRewritten-trans, IsRewritten-as, IsMapping-IsRewritten,
  slot_small,
}
use xv6_riscv_labs.Inode.Overlay.{
  overlay_none, overlay_in, overlay_out, overlay_cases, overlay_twice,
}
use xv6_riscv_labs.Inode.Room.{SameLog, SameLog-refl, SameLog-trans, bmap-SameLog}
use xv6_riscv_labs.Inode.Writei.{Whole, chunk_lem}

-- Memory after `count` bytes of the file from `off` on went to address `dst`.
abbrev pub loaded : ByteArray → Inode → Disk → ℕ → ℕ → ℕ → ByteArray
loaded mem ip d off dst count = overlay mem dst count (λ i. byte ip d (off + i))

-- Each of `n` bytes from `off` on has a block.
abbrev pub Mapped : Inode → Disk → ℕ → ℕ → Type 0
Mapped ip d off n = (q : ℕ) → off ≤ q → q < off + n → ptr ip d (slot_of (q / bsize)) ≢ 0

-- What the loop returns, from `tot` on, with `count` bytes read.
pub record IsRead (n tot off dst : ℕ) (mem : ByteArray) (ip : Inode) (d : Disk)
    (r : Option (Option ℕ × ByteArray × Inode × Disk)) : Type 0 where
  pub count : ℕ
  pub mem' : ByteArray
  pub ip' : Inode
  pub d' : Disk
  pub result : r ≡ some (some (tot + count), mem', ip', d')
  pub at_most : tot + count ≤ n
  pub rewritten : IsRewritten ip d ip' d' (byte ip d)
  pub bytes : (q : ℕ) → mem' q ≡ loaded mem ip d off dst count q
  pub short :
      tot + count < n
      → (ptr ip d (slot_of ((off + count) / bsize)) ≡ 0)
        × ((y : ℕ) → y < d'.size → used d' y ≡ true)
  pub quiet : Mapped ip d off (n - tot) → SameLog d d'

same_read :
    (t t' : ℕ) (mem : ByteArray) (ip : Inode) (d : Disk)
    → t ≡ t'
    → ◌≡◌ {A = Option (Option ℕ × ByteArray × Inode × Disk)}
        (some (some t, mem, ip, d))
        (some (some t', mem, ip, d))
same_read t t' mem ip d e = rw e refl

-- One turn of the loop.
module _ (ip : Inode) (d : Disk) (b : ℕ) (ip' : Inode) (d' : Disk) (off m dst : ℕ)
    (mem : ByteArray) where
  byte_here :
      (x i : ℕ)
      → b ≢ 0
      → ptr ip' d' (slot_of (off / bsize)) ≡ b
      → x / bsize ≡ off / bsize
      → x % bsize ≡ off % bsize + i
      → byte ip' d' x ≡ d'.block b (off % bsize + i)
  byte_here x i n now e e' = rw (e, now, ==-false b 0 n, e') refl

  -- What the turn copies are the file's bytes.
  turn_bytes :
      IsRewritten ip d ip' d' (byte ip d)
      → off % bsize + m ≤ bsize
      → off + m ≤ max_size
      → b ≢ 0
      → ptr ip' d' (slot_of (off / bsize)) ≡ b
      → (q : ℕ)
      → overlay mem dst m (λ i. d'.block b (off % bsize + i)) q ≡ loaded mem ip d off dst m q
  turn_bytes a fits small n now q = elim (overlay_cases dst m q) [
    | inr out ↦
        overlay_out mem dst m (λ i. d'.block b (off % bsize + i)) q out
        ∙ sym (overlay_out mem dst m (λ i. byte ip d (off + i)) q out)
    | inl (low, high) ↦
        overlay_in mem dst m (λ i. d'.block b (off % bsize + i)) q low high
        ∙ sym (byte_here (off + (q - dst)) (q - dst) n now (omega arith) (omega arith))
        ∙ a.bytes (off + (q - dst)) (omega arith)
        ∙ sym (overlay_in mem dst m (λ i. byte ip d (off + i)) q low high)
  ]

module _ (n : ℕ) where
  stop-IsRead :
      (tot off dst : ℕ) (mem : ByteArray) (ip : Inode) (d : Disk) (ip' : Inode) (d' : Disk)
      → tot ≤ n
      → IsRewritten ip d ip' d' (byte ip d)
      → (tot < n
          → (ptr ip d (slot_of (off / bsize)) ≡ 0) × ((y : ℕ) → y < d'.size → used d' y ≡ true))
      → (Mapped ip d off (n - tot) → SameLog d d')
      → IsRead n tot off dst mem ip d (some (some tot, mem, ip', d'))
  stop-IsRead tot off dst mem ip d ip' d' h r full quiet = record {
    count = 0;
    mem' = mem;
    ip' = ip';
    d' = d';
    result = same_read tot (tot + 0) mem ip' d' (omega arith);
    at_most = omega (arith, h);
    rewritten = r;
    bytes = λ q. overlay_none mem dst (λ i. byte ip d (off + i)) q;
    short = λ l.
        subst
          (λ x. (ptr ip d (slot_of (x / bsize)) ≡ 0) × ((y : ℕ) → y < d'.size → used d' y ≡ true))
          {x = off} {y = off + 0} (omega arith) (full (omega (arith, l)));
    quiet = quiet;
  }

  -- The bytes of a file that `bmap` has left as they were.
  loaded_kept :
      (mem : ByteArray) (ip : Inode) (d : Disk) (ip' : Inode) (d' : Disk) (off dst count q : ℕ)
      → IsRewritten ip d ip' d' (byte ip d)
      → off + count ≤ max_size
      → loaded mem ip' d' off dst count q ≡ loaded mem ip d off dst count q
  loaded_kept mem ip d ip' d' off dst count q a small = elim (overlay_cases dst count q) [
    | inr out ↦
        overlay_out mem dst count (λ i. byte ip' d' (off + i)) q out
        ∙ sym (overlay_out mem dst count (λ i. byte ip d (off + i)) q out)
    | inl (low, high) ↦
        overlay_in mem dst count (λ i. byte ip' d' (off + i)) q low high
        ∙ a.bytes (off + (q - dst)) (omega arith)
        ∙ sym (overlay_in mem dst count (λ i. byte ip d (off + i)) q low high)
  ]

  -- A pointer that is still 0 was 0.
  unmapped_before :
      (x y : ℕ) (ip : Inode) (d : Disk) (ip' : Inode) (d' d'' : Disk)
      → IsRewritten ip d ip' d' (byte ip d)
      → x < max_size
      → x ≡ y
      → (ptr ip' d' (slot_of (x / bsize)) ≡ 0) × ((z : ℕ) → z < d''.size → used d'' z ≡ true)
      → (ptr ip d (slot_of (y / bsize)) ≡ 0) × ((z : ℕ) → z < d''.size → used d'' z ≡ true)
  unmapped_before x y ip d ip' d' d'' a small e (z, full) = (
    subst (λ k. ptr ip d (slot_of (k / bsize)) ≡ 0) e
        (elim (ℕ_discrete (ptr ip d (slot_of (x / bsize))) 0) [
          | yes e' ↦ e'
          | no n ↦ absurd (a.pointers (slot_of (x / bsize)) (slot_small x small).0 n z)
        ]),
    full,
  )

  turn-IsRead :
      (tot off dst m : ℕ) (mem mem1 : ByteArray) (ip : Inode) (d : Disk) (ip' : Inode) (d' : Disk)
      → (r : Option (Option ℕ × ByteArray × Inode × Disk)) → IsFile ip d
      → IsRewritten ip d ip' d' (byte ip d)
      → off + (n - tot) ≤ max_size
      → (Mapped ip d off (n - tot) → SameLog d d')
      → ((q : ℕ) → mem1 q ≡ loaded mem ip d off dst m q)
      → IsRead n (tot + m) (off + m) (dst + m) mem1 ip' d' r
      → IsRead n tot off dst mem ip d r
  turn-IsRead tot off dst m mem mem1 ip d ip' d' r file a fits quiet first w = record {
    count = m + w.count;
    mem' = w.mem';
    ip' = w.ip';
    d' = w.d';
    result =
        w.result
        ∙ same_read (tot + m + w.count) (tot + (m + w.count)) w.mem' w.ip' w.d' (omega arith);
    at_most = omega (arith, w.at_most);
    rewritten =
        IsRewritten-as ip d w.ip' w.d' (byte ip' d') (byte ip d)
          (IsRewritten-trans ip d ip' d' w.ip' w.d' (byte ip d) (byte ip' d') a w.rewritten)
          a.bytes;
    bytes = λ q.
        w.bytes q
        ∙ loaded_kept mem1 ip d ip' d' (off + m) (dst + m) w.count q a
            (omega (arith, w.at_most, fits))
        ∙ overlay_twice mem mem1 (byte ip d) dst m w.count off q (first q);
    short = λ l.
        unmapped_before (off + m + w.count) (off + (m + w.count)) ip d ip' d' w.d' a
          (omega (arith, l, fits)) (omega arith) (w.short (omega (arith, l)));
    quiet = λ h. SameLog-trans d d' w.d' (quiet h) (
        w.quiet (λ q low high.
          a.pointers (slot_of (q / bsize)) (slot_small q (omega (arith, high, fits))).0
            (h q (omega (arith, low)) (omega (arith, high)))));
  }

  module _ (copies : Copies) (whole : Whole copies) where
    not_mapped :
        (s b : ℕ) (ip : Inode) (d : Disk) (ip' : Inode) (d' : Disk)
        → IsMapping s b ip d ip' d'
        → b ≡ 0
        → ptr ip d s ≡ 0
    not_mapped s b ip d ip' d' m z = elim m.outcome [
      | inl (n, e) ↦ absurd (n z)
      | inr (inl (n, e, free, zeroes)) ↦ e
      | inr (inr (n, e, full)) ↦ e
    ]

    pub read_blocks_lem :
        (k tot off dst : ℕ) (mem : ByteArray) (ip : Inode) (d : Disk)
        → IsDisk d
        → IsFile ip d
        → tot ≤ n
        → n - tot ≤ k
        → off + (n - tot) ≤ max_size
        → IsRead n tot off dst mem ip d (read_blocks k copies n tot off dst mem ip d)
    unfolding read_blocks
    read_blocks_lem zero tot off dst mem ip d disk file h enough fits =
        stop-IsRead tot off dst mem ip d ip d h (IsRewritten-refl ip d disk file)
          (λ l. absurd (omega arith)) (λ h. SameLog-refl d)
    read_blocks_lem (suc k) tot off dst mem ip d disk file h enough fits = elim (dec_lt tot n) [
      | no done ↦ rw (ltb-false tot n (omega arith)) (
          stop-IsRead tot off dst mem ip d ip d h (IsRewritten-refl ip d disk file)
            (λ l. absurd (omega arith)) (λ h. SameLog-refl d))
      | yes more ↦ elim (bmap_lem ip d (off / bsize) disk file) [
        | inl (past, e) ↦ absurd (omega arith)
        | inr (small, (b, ip', d', e, mapping)) ↦
            let m = chunk (n - tot) off in
            let c = chunk_lem (n - tot) off (omega arith) in
            let a = IsMapping-IsRewritten ip d ip' d' file (slot_of (off / bsize)) b mapping in
            let quiet : Mapped ip d off (n - tot) → SameLog d d' =
              λ h. bmap-SameLog (off / bsize) ip d b ip' d' (h off (omega arith) (omega arith)) e in
            rw (lt→ltb tot n more, e)
              (elim (ℕ_discrete b 0) [
                | yes z ↦ rw z (
                    stop-IsRead tot off dst mem ip d ip' d' h a
                      (λ l. (
                        not_mapped (slot_of (off / bsize)) b ip d ip' d' mapping z,
                        IsMapping-full (slot_of (off / bsize)) b ip d ip' d' mapping z,
                      ))
                      quiet)
                | no z ↦
                    let from : ByteArray = λ i. d'.block b (off % bsize + i) in
                    rw
                      (
                        ==-false b 0 z,
                        whole dst (chunk (n - tot) off),
                        ltb-false (chunk (n - tot) off) (chunk (n - tot) off) (omega arith),
                      )
                      (turn-IsRead tot off dst m mem (overlay mem dst m from) ip d ip' d' _ file a
                        fits quiet
                        (turn_bytes ip d b ip' d' off m dst mem a c.1 (omega (arith, c.0)) z
                          mapping.now)
                        (read_blocks_lem k (tot + m) (off + m) (dst + m) (overlay mem dst m from)
                          ip' d' a.disk a.file (omega (arith, c.0)) (omega (arith, c.0, c.2))
                          (omega (arith, c.0))))
              ])
      ]
    ]

-- `readi` to memory of the kernel, of `n` bytes from an offset within a file of distinct data
-- blocks, does not panic and does not fail. It returns the number of bytes it copied: those up to
-- the end of the file, or fewer if the next byte has no block and the disk is full. The memory
-- holds the file's bytes there and is otherwise as before; the file keeps its bytes, and every
-- block in use that is none of its own stays.
pub readi_lem :
    (copies : Copies) (off n dst : ℕ) (mem : ByteArray) (ip : Inode) (d : Disk)
    → Whole copies
    → IsDisk d
    → IsFile ip d
    → ip.size ≤ max_size
    → off ≤ ip.size
    → off + n < 2 ^ 32
    → IsRead (min n (ip.size - off)) 0 off dst mem ip d (readi copies off n dst mem ip d)
unfolding readi
readi_lem copies off n dst mem ip d whole disk file small h fits =
    let clipped : clip off n ip.size ≡ min n (ip.size - off) = ground arith in
    rw (ltb-false ip.size off h, ltb-false ((off + n) % 2 ^ 32) off (omega arith), clipped)
      (read_blocks_lem (min n (ip.size - off)) copies whole (min n (ip.size - off)) 0 off dst mem ip
        d disk file (omega arith) (omega arith) (omega arith))
