-- ===== src/Inode/Writei.antt =====
-- `writei` of kernel/fs.c stores the bytes.
use xv6_riscv_labs.Prelude.{
  ℕ, zero, suc, ◌+◌, ◌-◌, ◌/◌, ◌%◌, ◌≤◌, ◌<◌, ◌≡◌, ◌≢◌, refl, sym, ◌∙◌, true, Option, some, ◌==◌,
  length, arith, if◌then◌else◌, inl, inr, ℕ_discrete, dec_lt, subst, ==-false, lt→ltb, ltb-false,
}
use xv6_riscv_labs.Bits.{ByteArray, IsBytes}
use xv6_riscv_labs.Fs.Bitmap.{Disk, bsize, write_block, used}
use xv6_riscv_labs.Inode.Defs.{Inode}
use xv6_riscv_labs.Inode.Blocks.{IsDisk}
use xv6_riscv_labs.Inode.File.{ptr, IsFile}
use xv6_riscv_labs.Inode.Steps.{IsMapping}
use xv6_riscv_labs.Inode.Map.{slot_of, bmap_lem, IsMapping-full}
use xv6_riscv_labs.Inode.Content.{max_size, overlay, chunk, Copies, write_blocks}
use xv6_riscv_labs.Inode.Bytes.{
  byte, IsRewritten, IsRewritten-refl, IsRewritten-trans, IsRewritten-as, IsMapping-IsRewritten,
  slot_small,
}
use xv6_riscv_labs.Inode.Room.{HasRoom, room_left, turn-HasRoom, bmap-Logs, no_panic}
use xv6_riscv_labs.Inode.Write.{data-IsRewritten}
use xv6_riscv_labs.Inode.Overlay.{
  overlay-IsBytes, overlay_none, overlay_same, overlay_twice, overlay_block,
}

-- No copy fails, as with an address of the kernel.
abbrev pub Whole : Copies → Type 0
Whole copies = (a m : ℕ) → copies a m ≡ m

-- `chunk` stays in the request and in the block, and is not 0.
pub chunk_lem :
    (rest off : ℕ)
    → 0 < rest
    → (chunk rest off ≤ rest) × (off % bsize + chunk rest off ≤ bsize) × (0 < chunk rest off)
chunk_lem rest off h = (omega (arith, h), omega (arith, h), omega (arith, h))

-- What `count` bytes from `src` on, written from `off` on, make of the file.
abbrev pub stored : Inode → Disk → ByteArray → ℕ → ℕ → ℕ → ByteArray
stored ip d mem off src count = overlay (byte ip d) off count (λ i. mem (src + i))

-- One turn of the loop.
module _ (ip : Inode) (d : Disk) (b : ℕ) (ip' : Inode) (d' : Disk) (off m src : ℕ)
    (mem : ByteArray) where
  abbrev pub block' : ByteArray
  block' = overlay (d'.block b) (off % bsize) m (λ i. mem (src + i))

  abbrev after_turn : ByteArray
  after_turn q =
      if slot_of (q / bsize) == slot_of (off / bsize) then block' (q % bsize) else byte ip' d' q

  mapped_here :
      b ≢ 0
      → ptr ip' d' (slot_of (off / bsize)) ≡ b
      → (q : ℕ) → q / bsize ≡ off / bsize
      → byte ip' d' q ≡ d'.block b (q % bsize)
  mapped_here n e q same = rw (same, e, ==-false b 0 n) refl

  module _ (file : IsFile ip d) (bytes : IsBytes mem) (small : off < max_size)
      (fits : off % bsize + m ≤ bsize) (n : b ≢ 0)
      (mapping : IsMapping (slot_of (off / bsize)) b ip d ip' d') where
    bmap-IsRewritten : IsRewritten ip d ip' d' (byte ip d)
    bmap-IsRewritten = IsMapping-IsRewritten ip d ip' d' file (slot_of (off / bsize)) b mapping

    some_ptr : ptr ip' d' (slot_of (off / bsize)) ≢ 0
    some_ptr z = n (sym mapping.now ∙ z)

    store-IsRewritten : IsRewritten ip' d' ip' (write_block b block' d') after_turn
    store-IsRewritten =
        subst (λ x. IsRewritten ip' d' ip' (write_block x block' d') after_turn) mapping.now
          (data-IsRewritten ip' d' (slot_of (off / bsize)) block' bmap-IsRewritten.disk
            bmap-IsRewritten.file (slot_small off small).0 (slot_small off small).1 some_ptr
            (overlay-IsBytes (d'.block b) (off % bsize) m (λ i. mem (src + i))
              (bmap-IsRewritten.disk.mapped.bytes b) (λ i. bytes (src + i))))

    pub turn-IsRewritten :
        IsRewritten ip d ip' (write_block b block' d') (stored ip d mem off src m)
    turn-IsRewritten =
        IsRewritten-as ip d ip' (write_block b block' d') after_turn (stored ip d mem off src m)
          (IsRewritten-trans ip d ip' d' ip' (write_block b block' d') (byte ip d) after_turn
            bmap-IsRewritten store-IsRewritten)
          (λ q h.
            overlay_block (byte ip' d') (d'.block b) (λ i. mem (src + i)) off m q fits
              (mapped_here n mapping.now q)
            ∙ overlay_same (byte ip' d') (byte ip d) off m (λ i. mem (src + i)) q
                (bmap-IsRewritten.bytes q h))

    pub turn_mapped :
        (q : ℕ)
        → off ≤ q
        → q < off + m
        → ptr ip' (write_block b block' d') (slot_of (q / bsize)) ≢ 0
    turn_mapped q low high =
        subst (λ x. ptr ip' (write_block b block' d') (slot_of x) ≢ 0) {x = off / bsize}
          {y = q / bsize} (omega arith)
          (store-IsRewritten.pointers (slot_of (off / bsize)) (slot_small off small).0 some_ptr)

-- What the loop returns, from `tot` on, with `count` bytes written.
pub record Written (mem : ByteArray) (n tot off src : ℕ) (ip : Inode) (d : Disk)
    (r : Option (ℕ × ℕ × Inode × Disk)) : Type 0 where
  pub count : ℕ
  pub ip' : Inode
  pub d' : Disk
  pub result : r ≡ some (tot + count, off + count, ip', d')
  pub at_most : tot + count ≤ n
  pub rewritten : IsRewritten ip d ip' d' (stored ip d mem off src count)
  pub mapped : (q : ℕ) → off ≤ q → q < off + count → ptr ip' d' (slot_of (q / bsize)) ≢ 0
  pub short : tot + count < n → (y : ℕ) → y < d'.size → used d' y ≡ true
  pub room : length d'.logged < d'.limit

same_result :
    (t t' o o' : ℕ) (ip : Inode) (d : Disk)
    → t ≡ t'
    → o ≡ o'
    → ◌≡◌ {A = Option (ℕ × ℕ × Inode × Disk)} (some (t, o, ip, d)) (some (t', o', ip, d))
same_result t t' o o' ip d e e' = rw (e, e') refl

module _ (mem : ByteArray) (n : ℕ) where
  -- The loop ends here.
  stop-Written :
      (tot off src : ℕ) (ip : Inode) (d : Disk) (ip' : Inode) (d' : Disk)
      → tot ≤ n
      → IsRewritten ip d ip' d' (byte ip d)
      → (tot < n → (y : ℕ) → y < d'.size → used d' y ≡ true)
      → length d'.logged < d'.limit
      → Written mem n tot off src ip d (some (tot, off, ip', d'))
  stop-Written tot off src ip d ip' d' h r full room = record {
    count = 0;
    ip' = ip';
    d' = d';
    result = same_result tot (tot + 0) off (off + 0) ip' d' (omega arith) (omega arith);
    at_most = omega (arith, h);
    rewritten =
        IsRewritten-as ip d ip' d' (byte ip d) (stored ip d mem off src 0) r
          (λ q l. overlay_none (byte ip d) off (λ i. mem (src + i)) q);
    mapped = λ q low high. absurd (omega arith);
    short = λ l. full (omega (arith, l));
    room = room;
  }

  -- After a turn that wrote `m` bytes.
  turn-Written :
      (tot off src m : ℕ) (ip : Inode) (d : Disk) (ip' : Inode) (d' : Disk)
      (r : Option (ℕ × ℕ × Inode × Disk))
      → IsRewritten ip d ip' d' (stored ip d mem off src m)
      → off + (n - tot) ≤ max_size
      → ((q : ℕ) → off ≤ q → q < off + m → ptr ip' d' (slot_of (q / bsize)) ≢ 0)
      → Written mem n (tot + m) (off + m) (src + m) ip' d' r
      → Written mem n tot off src ip d r
  turn-Written tot off src m ip d ip' d' r a fits here w = record {
    count = m + w.count;
    ip' = w.ip';
    d' = w.d';
    result =
        w.result
        ∙ same_result (tot + m + w.count) (tot + (m + w.count)) (off + m + w.count)
            (off + (m + w.count)) w.ip' w.d' (omega arith) (omega arith);
    at_most = omega (arith, w.at_most);
    rewritten =
        IsRewritten-as ip d w.ip' w.d' (stored ip' d' mem (off + m) (src + m) w.count)
          (stored ip d mem off src (m + w.count))
          (IsRewritten-trans ip d ip' d' w.ip' w.d' (stored ip d mem off src m)
            (stored ip' d' mem (off + m) (src + m) w.count) a w.rewritten)
          (λ q h. overlay_twice (byte ip d) (byte ip' d') mem off m w.count src q (a.bytes q h));
    mapped = λ q low high. elim (dec_lt q (off + m)) [
      | yes l ↦
          w.rewritten.pointers (slot_of (q / bsize)) (slot_small q (omega arith)).0 (here q low l)
      | no g ↦ w.mapped q (omega arith) (omega arith)
    ];
    short = λ l. w.short (omega (arith, l));
    room = w.room;
  }

  -- The loop with fuel for the bytes left.
  module _ (copies : Copies) (whole : Whole copies) (bytes : IsBytes mem) where
    pub write_blocks_lem :
        (k tot off src : ℕ) (ip : Inode) (d : Disk)
        → IsDisk d
        → IsFile ip d
        → tot ≤ n
        → n - tot ≤ k
        → off + (n - tot) ≤ max_size
        → HasRoom d off (n - tot)
        → Written mem n tot off src ip d (write_blocks k copies mem n tot off src ip d)
    unfolding write_blocks
    write_blocks_lem zero tot off src ip d disk file h enough fits room =
        stop-Written tot off src ip d ip d h (IsRewritten-refl ip d disk file)
          (λ l. absurd (omega arith)) (room_left d off (n - tot) room)
    write_blocks_lem (suc k) tot off src ip d disk file h enough fits room = elim (dec_lt tot n) [
      | no done ↦ rw (ltb-false tot n (omega arith)) (
          stop-Written tot off src ip d ip d h (IsRewritten-refl ip d disk file)
            (λ l. absurd (omega arith)) (room_left d off (n - tot) room))
      | yes more ↦ elim (bmap_lem ip d (off / bsize) disk file) [
        | inl (past, e) ↦ absurd (omega arith)
        | inr (small, (b, ip', d', e, mapping)) ↦
            let logs = bmap-Logs (off / bsize) ip d b ip' d' e in
            let room' : (v : ByteArray)
                → HasRoom (write_block b v d') (off + chunk (n - tot) off)
                    (n - tot - chunk (n - tot) off) =
              λ v. turn-HasRoom d d' b v off (n - tot) (omega arith) room logs in
            rw (lt→ltb tot n more, e)
              (elim (ℕ_discrete b 0) [
                | yes z ↦ rw z (
                    stop-Written tot off src ip d ip' d' h
                      (IsMapping-IsRewritten ip d ip' d' file (slot_of (off / bsize)) b mapping)
                      (λ l. IsMapping-full (slot_of (off / bsize)) b ip d ip' d' mapping z)
                      (omega (arith, room' (λ _. 0))))
                | no z ↦
                    let m = chunk (n - tot) off in
                    let c = chunk_lem (n - tot) off (omega arith) in
                    let turn =
                      turn-IsRewritten ip d b ip' d' off m src mem file bytes (omega arith) c.1 z
                        mapping in
                    rw
                      (
                        ==-false b 0 z,
                        whole src (chunk (n - tot) off),
                        ltb-false (chunk (n - tot) off) (chunk (n - tot) off) (omega arith),
                        no_panic (write_block b (block' ip d b ip' d' off m src mem) d')
                            (omega (arith, room' (block' ip d b ip' d' off m src mem))),
                      )
                      (turn-Written tot off src m ip d ip'
                        (write_block b (block' ip d b ip' d' off m src mem) d') _ turn fits
                        (turn_mapped ip d b ip' d' off m src mem file bytes (omega arith) c.1 z
                          mapping)
                        (write_blocks_lem k (tot + m) (off + m) (src + m) ip'
                          (write_block b (block' ip d b ip' d' off m src mem) d') turn.disk
                          turn.file (omega (arith, c.0)) (omega (arith, c.0, c.2))
                          (omega (arith, c.0))
                          (subst
                            (HasRoom (write_block b (block' ip d b ip' d' off m src mem) d')
                              (off + m))
                            {x = n - tot - m} {y = n - (tot + m)} (omega (arith, c.0))
                            (room' (block' ip d b ip' d' off m src mem)))))
              ])
      ]
    ]
