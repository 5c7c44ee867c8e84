-- ===== src/Inode/Put.antt =====
-- The bytes of a disk inode of kernel/fs.c.
use xv6_riscv_labs.Prelude.{
  ℕ, zero, suc, ◌+◌, ◌*◌, ◌^◌, ◌≤◌, ◌<◌, ◌≡◌, refl, ◌∙◌, arith, ◌⊎◌, inl, ℕ_discrete, subst, lt→ltb,
}
use xv6_riscv_labs.Bits.{ByteArray, IsBytes}
use xv6_riscv_labs.Inode.Words.{
  le16, le32, put16, put32, put16-at, put32-at, put16-other, put32-other, put16-IsBytes,
  put32-IsBytes,
}
use xv6_riscv_labs.Inode.Defs.{Inode, put_addrs, put_dinode, get_dinode}

put_addrs-other :
    (k i o : ℕ) (addrs : ℕ → ℕ) (a : ByteArray) (q : ℕ)
    → (q < o + 12 + 4 * i) ⊎ (o + 12 + 4 * (i + k) ≤ q)
    → put_addrs k i o addrs a q ≡ a q
unfolding put_addrs
put_addrs-other zero i o addrs a q h = refl
put_addrs-other (suc k) i o addrs a q h =
    put_addrs-other k (i + 1) o addrs (put32 a (o + 12 + 4 * i) (addrs i)) q (ground (arith, h))
    ∙ put32-other a (o + 12 + 4 * i) (addrs i) q (ground (arith, h))

le32_same :
    (a b : ByteArray) (i : ℕ) → ((q : ℕ) → i ≤ q → q < i + 4 → a q ≡ b q) → le32 a i ≡ le32 b i
le32_same a b i h = omega (
  arith,
  h i (omega arith) (omega arith),
  h (i + 1) (omega arith) (omega arith),
  h (i + 2) (omega arith) (omega arith),
  h (i + 3) (omega arith) (omega arith),
)

pub le16_same :
    (a b : ByteArray) (i : ℕ) → ((q : ℕ) → i ≤ q → q < i + 2 → a q ≡ b q) → le16 a i ≡ le16 b i
le16_same a b i h =
    omega (arith, h i (omega arith) (omega arith), h (i + 1) (omega arith) (omega arith))

put_addrs-at :
    (k i o : ℕ) (addrs : ℕ → ℕ) (a : ByteArray) (j : ℕ)
    → ((x : ℕ) → x < i + k → addrs x < 2 ^ 32)
    → i ≤ j
    → j < i + k
    → le32 (put_addrs k i o addrs a) (o + 12 + 4 * j) ≡ addrs j
unfolding put_addrs
put_addrs-at zero i o addrs a j small h l = absurd (omega arith)
put_addrs-at (suc k) i o addrs a j small h l = elim (ℕ_discrete i j) [
  | yes e ↦
      subst
        (λ x.
          le32 (put_addrs k (i + 1) o addrs (put32 a (o + 12 + 4 * i) (addrs i))) (o + 12 + 4 * x)
          ≡ addrs x)
        e
        (le32_same _ (put32 a (o + 12 + 4 * i) (addrs i)) (o + 12 + 4 * i) (λ q low high.
            put_addrs-other k (i + 1) o addrs (put32 a (o + 12 + 4 * i) (addrs i)) q
              (inl (omega arith)))
          ∙ put32-at a (o + 12 + 4 * i) (addrs i) (small i (omega arith)))
  | no d ↦
      put_addrs-at k (i + 1) o addrs (put32 a (o + 12 + 4 * i) (addrs i)) j
        (λ x s. small x (omega arith)) (omega arith) (omega arith)
]

put_addrs-IsBytes :
    (k i o : ℕ) (addrs : ℕ → ℕ) (a : ByteArray) → IsBytes a → IsBytes (put_addrs k i o addrs a)
unfolding put_addrs
put_addrs-IsBytes zero i o addrs a h = h
put_addrs-IsBytes (suc k) i o addrs a h =
    put_addrs-IsBytes k (i + 1) o addrs _ (put32-IsBytes a (o + 12 + 4 * i) (addrs i) h)

pub put_dinode-IsBytes :
    (o : ℕ) (ip : Inode) (a : ByteArray) → IsBytes a → IsBytes (put_dinode o ip a)
unfolding put_dinode
put_dinode-IsBytes o ip a h = put_addrs-IsBytes 13 0 o ip.addrs _ (
    put32-IsBytes _ (o + 8) ip.size (
      put16-IsBytes _ (o + 6) ip.nlink (
        put16-IsBytes _ (o + 4) ip.minor
          (put16-IsBytes _ (o + 2) ip.major (put16-IsBytes a o ip.type h)))))

-- The fields fit their types.
pub record IsFitting (ip : Inode) : Type 0 where
  pub type : ip.type < 2 ^ 16
  pub major : ip.major < 2 ^ 16
  pub minor : ip.minor < 2 ^ 16
  pub nlink : ip.nlink < 2 ^ 16
  pub size : ip.size < 2 ^ 32
  pub addrs : (i : ℕ) → i < 13 → ip.addrs i < 2 ^ 32

-- Two inodes hold the same of what the disk keeps.
pub record SameOnDisk (ip ip' : Inode) : Type 0 where
  pub type : ip'.type ≡ ip.type
  pub major : ip'.major ≡ ip.major
  pub minor : ip'.minor ≡ ip.minor
  pub nlink : ip'.nlink ≡ ip.nlink
  pub size : ip'.size ≡ ip.size
  pub addrs : (i : ℕ) → i < 13 → ip'.addrs i ≡ ip.addrs i

module _ (o : ℕ) (ip : Inode) (a : ByteArray) where
  -- The bytes of the scalar fields.
  abbrev head4 : ByteArray
  head4 =
      put16 (put16 (put16 (put16 a o ip.type) (o + 2) ip.major) (o + 4) ip.minor) (o + 6) ip.nlink

  abbrev head5 : ByteArray
  head5 = put32 head4 (o + 8) ip.size

  pub put_dinode-other : (q : ℕ) → (q < o) ⊎ (o + 64 ≤ q) → put_dinode o ip a q ≡ a q
  unfolding put_dinode
  put_dinode-other q h =
      put_addrs-other 13 0 o ip.addrs head5 q (ground (arith, h))
      ∙ put32-other head4 (o + 8) ip.size q (ground (arith, h))
      ∙ put16-other _ (o + 6) ip.nlink q (ground (arith, h))
      ∙ put16-other _ (o + 4) ip.minor q (ground (arith, h))
      ∙ put16-other _ (o + 2) ip.major q (ground (arith, h))
      ∙ put16-other a o ip.type q (ground (arith, h))

  -- The scalar fields stand before the addresses.
  put_dinode-head : (q : ℕ) → q < o + 12 → put_dinode o ip a q ≡ head5 q
  unfolding put_dinode
  put_dinode-head q h = put_addrs-other 13 0 o ip.addrs head5 q (inl (omega arith))

  head5-head : (q : ℕ) → q < o + 8 → head5 q ≡ head4 q
  head5-head q h = put32-other head4 (o + 8) ip.size q (inl (omega arith))

  short_at : (i : ℕ) → i + 2 ≤ o + 8 → le16 (put_dinode o ip a) i ≡ le16 head4 i
  short_at i h =
      le16_same (put_dinode o ip a) head4 i
        (λ q low high. put_dinode-head q (omega arith) ∙ head5-head q (omega arith))

  module _ (f : IsFitting ip) where
    head4-type : le16 head4 o ≡ ip.type
    head4-type =
        le16_same head4 (put16 a o ip.type) o (λ q low high.
          put16-other _ (o + 6) ip.nlink q (inl (omega arith))
          ∙ put16-other _ (o + 4) ip.minor q (inl (omega arith))
          ∙ put16-other _ (o + 2) ip.major q (inl (omega arith)))
        ∙ put16-at a o ip.type f.type

    head4-major : le16 head4 (o + 2) ≡ ip.major
    head4-major =
        le16_same head4 (put16 (put16 a o ip.type) (o + 2) ip.major) (o + 2) (λ q low high.
          put16-other _ (o + 6) ip.nlink q (inl (omega arith))
          ∙ put16-other _ (o + 4) ip.minor q (inl (omega arith)))
        ∙ put16-at _ (o + 2) ip.major f.major

    head4-minor : le16 head4 (o + 4) ≡ ip.minor
    head4-minor =
        le16_same head4 (put16 (put16 (put16 a o ip.type) (o + 2) ip.major) (o + 4) ip.minor)
          (o + 4) (λ q low high. put16-other _ (o + 6) ip.nlink q (inl (omega arith)))
        ∙ put16-at _ (o + 4) ip.minor f.minor

    head4-nlink : le16 head4 (o + 6) ≡ ip.nlink
    head4-nlink = put16-at _ (o + 6) ip.nlink f.nlink

    pub get_put_dinode : (ip0 : Inode) → SameOnDisk ip (get_dinode o (put_dinode o ip a) ip0)
    unfolding put_dinode
    get_put_dinode ip0 = record {
      type = short_at o (omega arith) ∙ head4-type;
      major = short_at (o + 2) (omega arith) ∙ head4-major;
      minor = short_at (o + 4) (omega arith) ∙ head4-minor;
      nlink = short_at (o + 6) (omega arith) ∙ head4-nlink;
      size =
          le32_same (put_dinode o ip a) head5 (o + 8)
            (λ q low high. put_dinode-head q (omega arith))
          ∙ put32-at head4 (o + 8) ip.size f.size;
      addrs = λ i h. rw (lt→ltb i 13 h) (
          put_addrs-at 13 0 o ip.addrs head5 i (λ x l. f.addrs x (omega arith)) (omega arith)
            (omega arith));
    }
