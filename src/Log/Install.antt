-- ===== src/Log/Install.antt =====
-- What the loops of the log leave on the disk, and where they leave it alone.
use xv6_riscv_labs.Prelude.{
  ℕ, zero, suc, ◌+◌, ◌-◌, ◌≤◌, ◌<◌, ◌≡◌, ◌≢◌, refl, Bool, arith, ltb, leb, if◌then◌else◌, update,
  ℕ_discrete, ◌&&◌,
}
use xv6_riscv_labs.Log.Disk.{Block, Io, bwrite}
use xv6_riscv_labs.Log.Defs.{
  install_one, install_from, write_one, write_log_from, read_blocks, put_blocks,
}

module _ (start : ℕ) (block : ℕ → ℕ) where
  -- A block that is not in the list is left alone on the disk and in the cache.
  pub install_from_other :
      (r : Bool) (k tail : ℕ) (io : Io) (b : ℕ)
      → ((i : ℕ) → tail ≤ i → i < tail + k → block i ≢ b)
      → ((install_from start block r k tail io).disk b ≡ io.disk b)
        × ((install_from start block r k tail io).cache b ≡ io.cache b)
  unfolding install_from bwrite
  install_from_other r zero tail io b h = (refl, refl)
  install_from_other r (suc k) tail io b h = ground (
    arith,
    install_from_other r k (tail + 1) (install_one start block r tail io) b
        (λ i p q. h i (omega arith) (omega arith)),
    h tail,
  )

  pub install_from_power :
      (r : Bool) (k tail : ℕ) (io : Io)
      → (install_from start block r k tail io).power ≡ io.power - k
  unfolding install_from bwrite
  install_from_power r zero tail io = ground arith
  install_from_power r (suc k) tail io =
      ground (arith, install_from_power r k (tail + 1) (install_one start block r tail io))

  -- One round with power left: the block and its buffer hold the log block.
  install_one_lem :
      (r : Bool) (tail : ℕ) (io : Io)
      → 1 ≤ io.power
      → ((install_one start block r tail io).disk
          ≡ update io.disk (block tail) (io.cache (start + tail + 1)))
        × ((install_one start block r tail io).cache
            ≡ update io.cache (block tail) (io.cache (start + tail + 1)))
        × ((install_one start block r tail io).power ≡ io.power - 1)
  unfolding bwrite
  install_one_lem r tail io p = ground arith

  -- Only the listed block numbers count.
  pub install_from_cong :
      (block' : ℕ → ℕ) (r : Bool) (k tail : ℕ) (io : Io)
      → ((i : ℕ) → tail ≤ i → i < tail + k → block i ≡ block' i)
      → install_from start block r k tail io ≡ install_from start block' r k tail io
  unfolding install_from bwrite
  install_from_cong block' r zero tail io h = refl
  install_from_cong block' r (suc k) tail io h = rw (h tail (omega arith) (omega arith)) (
      install_from_cong block' r k (tail + 1) (install_one start block' r tail io)
        (λ i p q. h i (omega arith) (omega arith)))

  -- A block of the list holds its log block once it is installed.
  pub install_from_hit :
      (r : Bool) (k tail : ℕ) (io : Io) (j : ℕ)
      → k ≤ io.power
      → ((i l : ℕ) → i < tail + k → l < tail + k → block i ≢ start + l + 1)
      → ((i l : ℕ) → i < tail + k → l < tail + k → block i ≡ block l → i ≡ l)
      → tail ≤ j
      → j < tail + k
      → ((install_from start block r k tail io).disk (block j) ≡ io.cache (start + j + 1))
        × ((install_from start block r k tail io).cache (block j) ≡ io.cache (start + j + 1))
  unfolding install_from
  install_from_hit r zero tail io j p away distinct lo hi = absurd (omega arith)
  install_from_hit r (suc k) tail io j p away distinct lo hi = elim (ℕ_discrete tail j) [
    | yes e ↦ rw (← e) (
        ground (
          arith,
          install_one_lem r tail io (omega arith),
          install_from_other r k (tail + 1) (install_one start block r tail io) (block tail)
              (λ i p q same.
                absurd (omega (arith, distinct i tail (omega arith) (omega arith) same))),
        ))
    | no ne ↦ ground (
      arith,
      install_one_lem r tail io (omega arith),
      away tail j (omega arith) hi,
      install_from_hit r k (tail + 1) (install_one start block r tail io) j
          (omega (arith, install_one_lem r tail io (omega arith)))
          (λ i l p q. away i l (omega arith) (omega arith))
          (λ i l p q. distinct i l (omega arith) (omega arith)) (omega arith) (omega arith),
    )
  ]

  -- Without power the loop changes nothing on the disk.
  pub install_from_dead :
      (r : Bool) (k tail : ℕ) (io : Io)
      → io.power ≡ 0
      → (install_from start block r k tail io).disk ≡ io.disk
  unfolding install_from bwrite
  install_from_dead r zero tail io p = refl
  install_from_dead r (suc k) tail io p =
      ground (arith, install_from_dead r k (tail + 1) (install_one start block r tail io))

  pub write_log_from_power :
      (k tail : ℕ) (io : Io) → (write_log_from start block k tail io).power ≡ io.power - k
  unfolding write_log_from bwrite
  write_log_from_power zero tail io = ground arith
  write_log_from_power (suc k) tail io =
      ground (arith, write_log_from_power k (tail + 1) (write_one start block tail io))

  -- The log is written nowhere but in its own blocks.
  pub write_log_from_other :
      (k tail : ℕ) (io : Io) (b : ℕ)
      → ((i : ℕ) → tail ≤ i → i < tail + k → start + i + 1 ≢ b)
      → ((write_log_from start block k tail io).disk b ≡ io.disk b)
        × ((write_log_from start block k tail io).cache b ≡ io.cache b)
  unfolding write_log_from bwrite
  write_log_from_other zero tail io b h = (refl, refl)
  write_log_from_other (suc k) tail io b h = ground (
    arith,
    write_log_from_other k (tail + 1) (write_one start block tail io) b
        (λ i p q. h i (omega arith) (omega arith)),
    h tail,
  )

  write_one_lem :
      (tail : ℕ) (io : Io)
      → 1 ≤ io.power
      → ((write_one start block tail io).disk
          ≡ update io.disk (start + tail + 1) (io.cache (block tail)))
        × ((write_one start block tail io).cache
            ≡ update io.cache (start + tail + 1) (io.cache (block tail)))
        × ((write_one start block tail io).power ≡ io.power - 1)
  unfolding bwrite
  write_one_lem tail io p = ground arith

  -- With power left, each log block holds its cache block, on the disk and in the cache.
  pub write_log_from_hit :
      (k tail : ℕ) (io : Io) (j : ℕ)
      → k ≤ io.power
      → ((i l : ℕ) → i < tail + k → l < tail + k → block i ≢ start + l + 1)
      → tail ≤ j
      → j < tail + k
      → ((write_log_from start block k tail io).disk (start + j + 1) ≡ io.cache (block j))
        × ((write_log_from start block k tail io).cache (start + j + 1) ≡ io.cache (block j))
  unfolding write_log_from
  write_log_from_hit zero tail io j p away lo hi = absurd (omega arith)
  write_log_from_hit (suc k) tail io j p away lo hi = elim (ℕ_discrete tail j) [
    | yes e ↦ rw (← e) (
        ground (
          arith,
          write_one_lem tail io (omega arith),
          write_log_from_other k (tail + 1) (write_one start block tail io) (start + tail + 1)
              (λ i p q same. absurd (omega arith)),
        ))
    | no ne ↦ ground (
      arith,
      write_one_lem tail io (omega arith),
      away j tail hi (omega arith),
      write_log_from_hit k (tail + 1) (write_one start block tail io) j
          (omega (arith, write_one_lem tail io (omega arith)))
          (λ i l p q. away i l (omega arith) (omega arith)) (omega arith) (omega arith),
    )
  ]

-- The header block: `put_blocks` stores the block numbers, and `read_blocks` gives them back.
pub put_blocks_lem :
    (k i : ℕ) (block : ℕ → ℕ) (hb : Block) (w : ℕ)
    → put_blocks k i block hb w
      ≡ (if leb (1 + i) w && ltb w (1 + i + k) then block (w - 1) else hb w)
unfolding put_blocks
put_blocks_lem zero i block hb w = ground arith
put_blocks_lem (suc k) i block hb w =
    ground (arith, put_blocks_lem k (i + 1) block (update hb (1 + i) (block i)) w)

pub read_blocks_lem :
    (k i : ℕ) (buf : Block) (block : ℕ → ℕ) (j : ℕ)
    → read_blocks k i buf block j ≡ (if leb i j && ltb j (i + k) then buf (1 + j) else block j)
unfolding read_blocks
read_blocks_lem zero i buf block j = ground arith
read_blocks_lem (suc k) i buf block j =
    ground (arith, read_blocks_lem k (i + 1) buf (update block i (buf (1 + i))) j)
