-- ===== src/Fs/Tests.antt =====
-- Runs of the file system's layers.
use xv6_riscv_labs.Prelude.{
  ℕ, ◌/◌, ◌<◌, ◌≡◌, refl, true, false, ◌||◌, none, some, List, [], ◌∷◌, ◌==◌, update, arith, ◌⊎◌,
}
use xv6_riscv_labs.Bits.{isset, has_bit}
use xv6_riscv_labs.Fs.Bitmap.{Disk, bpb, bsize, balloc, balloc_from, scan, used}
use xv6_riscv_labs.Fs.Alloc.{IsMapped, taken_block, used-balloc}
use xv6_riscv_labs.Fs.Path.{skipelem, copy_name, AllSlash, Splits, skipelem_lem}

-- Eight blocks, block 1 holding the free map, in which blocks 0 to 2 are in use.
abbrev disk : Disk
disk = record {
  size = 8;
  bmapstart = 1;
  block = update (λ _ _. 0) 1 (update (λ _. 0) 0 7);
  logged = [];
  limit = 30;
}

disk-IsMapped : IsMapped disk
unfolding isset has_bit
disk-IsMapped = record {
  bytes = λ b i. ground arith;
  reserved = λ y h. let e : y / bpb ≡ 0 = omega arith in rw e;
}

balloc-disk : balloc disk ≡ (3, taken_block 3 disk)
unfolding balloc balloc_from scan isset has_bit
balloc-disk = refl

used-balloc_example :
    (((balloc disk).0 ≡ 0)
      × ((y : ℕ) → y < 8 → used disk y ≡ true)
      × ((y : ℕ) → used (balloc disk).1 y ≡ used disk y))
    ⊎ (((balloc disk).0 < 8)
        × (used disk (balloc disk).0 ≡ false)
        × ((y : ℕ) → y < (balloc disk).0 → used disk y ≡ true)
        × ((y : ℕ) → y < 8 → used (balloc disk).1 y ≡ ((balloc disk).0 == y || used disk y))
        × ((i : ℕ) → i < bsize → (balloc disk).1.block (balloc disk).0 i ≡ 0))
used-balloc_example = used-balloc disk disk-IsMapped

abbrev path : List ℕ
path = b'/' ∷ b'/' ∷ b'a' ∷ b'/' ∷ b'/' ∷ b'b' ∷ []

abbrev no_name : ℕ → ℕ
no_name j = 0

skips : skipelem path no_name ≡ some (b'b' ∷ [], copy_name (b'a' ∷ []) no_name)
unfolding skipelem
skips = refl

skipelem_lem_example :
    ((skipelem path no_name ≡ none) × AllSlash path)
    ⊎ ((elem : List ℕ) × (rest : List ℕ) × (skipelem path no_name
          ≡ some (rest, copy_name elem no_name))
        × Splits path elem rest)
skipelem_lem_example = skipelem_lem path no_name
