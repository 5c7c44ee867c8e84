-- ===== src/Inode/Trunc.antt =====
-- `itrunc` of kernel/fs.c frees exactly the blocks of the file.
use xv6_riscv_labs.Prelude.{
  ℕ, zero, suc, ◌+◌, ◌*◌, ◌≤◌, ◌<◌, ◌≡◌, ◌≢◌, refl, ap, sym, ◌∙◌, Option, some, arith, ◌⊎◌, inl,
  ℕ_discrete, ==-false, update, update-at, update-other,
}
use xv6_riscv_labs.Fs.Bitmap.{Disk}
use xv6_riscv_labs.Inode.Words.{le32}
use xv6_riscv_labs.Inode.Defs.{Inode, free_direct, free_entries}
use xv6_riscv_labs.Inode.Blocks.{IsData, IsDisk}
use xv6_riscv_labs.Inode.Free.{
  freed_block, IsFreeable, IsFreed, IsFreed-none, IsFreed-skip, bfree-some, freed_content,
  rest-IsFreeable, first_used, first-IsFreeable, first-IsDisk, IsFreed-first,
}

-- Pointers `i` on, `k` of them, cleared and their blocks free.
pub record IsCleared (p : ℕ → ℕ) (i k : ℕ) (ip : Inode) (d : Disk) (r : Option (Inode × Disk))
    : Type 0 where
  pub ip' : Inode
  pub d' : Disk
  pub result : r ≡ some (ip', d')
  pub fields : ip' ≡ record ip { addrs = ip'.addrs }
  pub zeroes : (x : ℕ) → i ≤ x → x < i + k → ip'.addrs x ≡ 0
  pub others : (x : ℕ) → (x < i) ⊎ (i + k ≤ x) → ip'.addrs x ≡ ip.addrs x
  pub freed : IsFreed p i k d d'

module _ (p : ℕ → ℕ) where
  skip-IsCleared :
      (i k : ℕ) (ip : Inode) (d : Disk) (r : Option (Inode × Disk))
      → ip.addrs i ≡ 0
      → p i ≡ 0
      → IsCleared p (i + 1) k ip d r
      → IsCleared p i (suc k) ip d r
  skip-IsCleared i k ip d r z z' c = record {
    ip' = c.ip';
    d' = c.d';
    result = c.result;
    fields = c.fields;
    zeroes = λ x low high. elim (ℕ_discrete i x) [
      | yes e ↦ c.others x (inl (omega arith)) ∙ ap ip.addrs (sym e) ∙ z
      | no n ↦ c.zeroes x (omega arith) (omega arith)
    ];
    others = λ x h. c.others x (ground (arith, h));
    freed = IsFreed-skip p i k d c.d' z' c.freed;
  }

  abbrev without : ℕ → Inode → Inode
  without i ip = record ip { addrs = update ip.addrs i 0 }

  first-IsCleared :
      (i k : ℕ) (ip : Inode) (d : Disk) (r : Option (Inode × Disk))
      → IsDisk d
      → IsFreeable p i (suc k) d
      → p i ≢ 0
      → IsCleared p (i + 1) k (without i ip) (freed_block (p i) d) r
      → IsCleared p i (suc k) ip d r
  first-IsCleared i k ip d r disk f n c = record {
    ip' = c.ip';
    d' = c.d';
    result = c.result;
    fields = c.fields;
    zeroes = λ x low high. elim (ℕ_discrete i x) [
      | yes e ↦
          c.others x (inl (omega arith)) ∙ ap (update ip.addrs i 0) (sym e) ∙ update-at ip.addrs i 0
      | no n ↦ c.zeroes x (omega arith) (omega arith)
    ];
    others =
        λ x h. c.others x (ground (arith, h)) ∙ update-other ip.addrs i 0 x (ground (arith, h));
    freed = IsFreed-first p i k d disk f n c.d' c.freed;
  }

  pub free_direct_lem :
      (k i : ℕ) (ip : Inode) (d : Disk)
      → IsDisk d
      → IsFreeable p i k d
      → ((x : ℕ) → i ≤ x → x < i + k → ip.addrs x ≡ p x)
      → IsCleared p i k ip d (free_direct k i ip d)
  unfolding free_direct
  free_direct_lem zero i ip d disk f same = record {
    ip' = ip;
    d' = d;
    result = refl;
    fields = refl;
    zeroes = λ x low high. absurd (omega arith);
    others = λ x h. refl;
    freed = IsFreed-none p i d disk;
  }
  free_direct_lem (suc k) i ip d disk f same =
      let here : ip.addrs i ≡ p i = same i (omega arith) (omega arith) in
      elim (ℕ_discrete (p i) 0) [
        | yes z ↦
            rw (here, z)
              (skip-IsCleared i k ip d (free_direct k (i + 1) ip d) (here ∙ z) z (
                free_direct_lem k (i + 1) ip d disk (rest-IsFreeable p i k d disk f)
                  (λ x low high. same x (omega arith) (omega arith))))
        | no n ↦
            rw (here, ==-false (p i) 0 n, bfree-some (p i) d disk (first_used p i k d disk f n))
              (first-IsCleared i k ip d (free_direct k (i + 1) (without i ip) (freed_block (p i) d))
                disk f n
                (free_direct_lem k (i + 1) (without i ip) (freed_block (p i) d)
                  (first-IsDisk p i k d disk f n) (first-IsFreeable p i k d disk f n)
                  (λ x low high.
                    update-other ip.addrs i 0 x (λ e. absurd (omega arith))
                    ∙ same x (omega arith) (omega arith))))
      ]

  pub free_entries_lem :
      (k j b : ℕ) (d : Disk)
      → IsDisk d
      → IsFreeable p j k d
      → IsData d b
      → ((x : ℕ) → j ≤ x → x < j + k → le32 (d.block b) (4 * x) ≡ p x)
      → (d' : Disk) × (free_entries k j b d ≡ some d') × IsFreed p j k d d'
  unfolding free_entries
  free_entries_lem zero j b d disk f off same = (d, refl, IsFreed-none p j d disk)
  free_entries_lem (suc k) j b d disk f off same =
      let here : le32 (d.block b) (4 * j) ≡ p j = same j (omega arith) (omega arith) in
      elim (ℕ_discrete (p j) 0) [
        | yes z ↦
            let (d', e, g) =
              free_entries_lem k (j + 1) b d disk (rest-IsFreeable p j k d disk f) off
                (λ x low high. same x (omega arith) (omega arith)) in
            (d', rw (here, z) e, IsFreed-skip p j k d d' z g)
        | no n ↦
            let u = first_used p j k d disk f n in
            let kept =
              freed_content (p j) d disk u (f.small j (omega arith) (omega arith) n) n
                (f.off_map j (omega arith) (omega arith) n) b off in
            let (d', e, g) =
              free_entries_lem k (j + 1) b (freed_block (p j) d) (first-IsDisk p j k d disk f n)
                (first-IsFreeable p j k d disk f n) off
                (λ x low high.
                  ap (λ a. le32 a (4 * x)) kept ∙ same x (omega arith) (omega arith)) in
            (
              d',
              rw (here, ==-false (p j) 0 n, bfree-some (p j) d disk u) e,
              IsFreed-first p j k d disk f n d' g,
            )
      ]
