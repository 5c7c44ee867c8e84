-- ===== src/Inode/Overlay.antt =====
-- Bytes written over others.
use xv6_riscv_labs.Prelude.{
  ℕ, ◌+◌, ◌-◌, ◌/◌, ◌%◌, ◌≤◌, ◌<◌, ◌≡◌, ap, sym, ◌∙◌, ◌&&◌, ◌==◌, ltb, leb, arith, if◌then◌else◌,
  ◌⊎◌, inl, inr, ℕ_discrete, ==-refl, ==-false,
}
use xv6_riscv_labs.Bits.{ByteArray, IsBytes}
use xv6_riscv_labs.Fs.Bitmap.{bsize}
use xv6_riscv_labs.Inode.Map.{slot_of}
use xv6_riscv_labs.Inode.Content.{overlay}

-- Inside and outside of what is written.
pub overlay_in :
    (a : ByteArray) (i m : ℕ) (src : ByteArray) (q : ℕ)
    → i ≤ q
    → q < i + m
    → overlay a i m src q ≡ src (q - i)
overlay_in a i m src q low high = ground (arith, low, high)

pub overlay_out :
    (a : ByteArray) (i m : ℕ) (src : ByteArray) (q : ℕ)
    → (q < i) ⊎ (i + m ≤ q)
    → overlay a i m src q ≡ a q
overlay_out a i m src q h = ground (arith, h)

pub overlay-IsBytes :
    (a : ByteArray) (i m : ℕ) (src : ByteArray)
    → IsBytes a
    → IsBytes src
    → IsBytes (overlay a i m src)
overlay-IsBytes a i m src h k q = ground (arith, h q, k (q - i))

pub overlay_none : (a : ByteArray) (i : ℕ) (src : ByteArray) (q : ℕ) → a q ≡ overlay a i 0 src q
overlay_none a i src q = ground arith

pub overlay_same :
    (a b : ByteArray) (i m : ℕ) (src : ByteArray) (q : ℕ)
    → a q ≡ b q
    → overlay a i m src q ≡ overlay b i m src q
overlay_same a b i m src q e = ap (λ x. if leb i q && ltb q (i + m) then src (q - i) else x) e

pub overlay_cases : (i m q : ℕ) → ((i ≤ q) × (q < i + m)) ⊎ ((q < i) ⊎ (i + m ≤ q))
overlay_cases i m q = ground arith

-- Two writes one after the other are one.
pub overlay_twice :
    (a b mem : ByteArray) (off m l src q : ℕ)
    → b q ≡ overlay a off m (λ i. mem (src + i)) q
    → overlay b (off + m) l (λ i. mem (src + m + i)) q
      ≡ overlay a off (m + l) (λ i. mem (src + i)) q
overlay_twice a b mem off m l src q e = elim (overlay_cases (off + m) l q) [
  | inl (low, high) ↦
      overlay_in b (off + m) l (λ i. mem (src + m + i)) q low high
      ∙ ap mem {x = src + m + (q - (off + m))} {y = src + (q - off)} (omega arith)
      ∙ sym (overlay_in a off (m + l) (λ i. mem (src + i)) q (omega arith) (omega arith))
  | inr out ↦
      overlay_out b (off + m) l (λ i. mem (src + m + i)) q out ∙ e ∙ elim (overlay_cases off m q) [
        | inl (low, high) ↦
            overlay_in a off m (λ i. mem (src + i)) q low high
            ∙ sym (overlay_in a off (m + l) (λ i. mem (src + i)) q low (omega arith))
        | inr out' ↦
            overlay_out a off m (λ i. mem (src + i)) q out'
            ∙ sym (overlay_out a off (m + l) (λ i. mem (src + i)) q (ground (arith, out, out')))
      ]
]

-- A write within a block is one in the file.
pub overlay_block :
    (f a src : ByteArray) (off m q : ℕ)
    → off % bsize + m ≤ bsize
    → (q / bsize ≡ off / bsize → f q ≡ a (q % bsize))
    → (if slot_of (q / bsize) == slot_of (off / bsize)
        then overlay a (off % bsize) m src (q % bsize)
        else f q)
      ≡ overlay f off m src q
overlay_block f a src off m q h same = elim (ℕ_discrete (q / bsize) (off / bsize)) [
  | no n ↦
      rw (==-false (slot_of (q / bsize)) (slot_of (off / bsize)) (λ e. n (ground (arith, e))))
        (sym (overlay_out f off m src q (ground (arith, n))))
  | yes e ↦
      rw (e, ==-refl (slot_of (off / bsize)))
        (elim (overlay_cases off m q) [
          | inl (low, high) ↦
              overlay_in a (off % bsize) m src (q % bsize) (omega arith) (omega arith)
              ∙ ap src {x = q % bsize - off % bsize} {y = q - off} (omega arith)
              ∙ sym (overlay_in f off m src q low high)
          | inr out ↦
              overlay_out a (off % bsize) m src (q % bsize) (ground (arith, out))
              ∙ sym (same e)
              ∙ sym (overlay_out f off m src q out)
        ])
]
