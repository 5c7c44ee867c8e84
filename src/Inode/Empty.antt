-- ===== src/Inode/Empty.antt =====
-- After `itrunc` of kernel/fs.c the file is empty and its blocks are free.
use xv6_riscv_labs.Prelude.{
  ℕ, ◌+◌, ◌-◌, ◌*◌, ◌≤◌, ◌<◌, ◌≡◌, ◌≢◌, refl, ap, sym, ◌∙◌, true, false, Option, some, arith,
  ℕ_discrete, subst, ==-refl, ==-false, update, update-at, update-other,
}
use xv6_riscv_labs.Bits.{ByteArray}
use xv6_riscv_labs.Fs.Bitmap.{Disk, bfree, used}
use xv6_riscv_labs.Inode.Words.{le32}
use xv6_riscv_labs.Inode.Defs.{Inode, ndirect, nindirect, free_entries, free_indirect}
use xv6_riscv_labs.Inode.Blocks.{IsData, IsDisk}
use xv6_riscv_labs.Inode.File.{ptr, IsFile}
use xv6_riscv_labs.Inode.Steps.{ptr_entry}
use xv6_riscv_labs.Inode.Free.{
  freed_block, IsFreeable, IsFreed, bfree-some, used-freed_block, freed-IsDisk, freed_content,
}
use xv6_riscv_labs.Inode.Trunc.{free_entries_lem}

module _ (p : ℕ → ℕ) (d : Disk) (disk : IsDisk d) (f : IsFreeable p 12 257 d) where
  -- The entries of the indirect block, counted from 0.
  abbrev entries : ℕ → ℕ
  entries x = p (13 + x)

  entries-IsFreeable : IsFreeable entries 0 256 d
  entries-IsFreeable = record {
    small = λ x low high. f.small (13 + x) (omega arith) (omega arith);
    in_use = λ x low high. f.in_use (13 + x) (omega arith) (omega arith);
    off_map = λ x low high. f.off_map (13 + x) (omega arith) (omega arith);
    apart = λ x y low high low' high' n e. omega (
      arith,
      f.apart (13 + x) (13 + y) (omega arith) (omega arith) (omega arith) (omega arith) n e,
    );
  }

  -- None of them, since there is no indirect block.
  all_zero : ((x : ℕ) → 12 ≤ x → x < 269 → p x ≡ 0) → IsFreed p 12 257 d d
  all_zero z = record {
    disk = disk;
    size = refl;
    bmapstart = refl;
    gone = λ x low high n. absurd (n (z x low high));
    stay = λ y h out. refl;
    content = λ y o. refl;
  }

  module _ (n : p 12 ≢ 0) (d' : Disk) (g : IsFreed entries 0 256 d d') where
    indirect_used : used d' (p 12) ≡ true
    indirect_used =
        g.stay (p 12) (f.small 12 (omega arith) (omega arith) n) (λ x low high m e. absurd (
          omega (
            arith,
            f.apart (13 + x) 12 (omega arith) (omega arith) (omega arith) (omega arith) m e,
          )))
        ∙ f.in_use 12 (omega arith) (omega arith) n

    indirect_small : p 12 < d'.size
    indirect_small = rw g.size (f.small 12 (omega arith) (omega arith) n)

    indirect_off : IsData d' (p 12)
    indirect_off y h =
        rw g.bmapstart (f.off_map 12 (omega arith) (omega arith) n y (subst (λ s. y < s) g.size h))

    -- The indirect block, after its entries.
    indirect-IsFreed : IsFreed p 12 257 d (freed_block (p 12) d')
    indirect-IsFreed = record {
      disk = freed-IsDisk (p 12) d' g.disk indirect_used indirect_small n indirect_off;
      size = g.size;
      bmapstart = g.bmapstart;
      gone = λ x low high m.
          used-freed_block (p 12) d' g.disk indirect_used (p x) ∙ elim (ℕ_discrete x 12) [
            | yes e ↦ rw (e, ==-refl (p 12)) refl
            | no ne ↦
                let at : 13 + (x - 13) ≡ x = omega arith in
                let late = g.gone (x - 13) (omega arith) (omega arith) in
                ground (arith, subst (λ y. p y ≢ 0 → used d' (p y) ≡ false) at late m)
          ];
      stay = λ y h out.
          used-freed_block (p 12) d' g.disk indirect_used y
          ∙ rw (==-false (p 12) y (out 12 (omega arith) (omega arith) n))
              (g.stay y h (λ x low high. out (13 + x) (omega arith) (omega arith)));
      content = λ y o.
          freed_content (p 12) d' g.disk indirect_used indirect_small n indirect_off y
            (λ z h. rw g.bmapstart (o z (subst (λ s. z < s) g.size h)))
          ∙ g.content y o;
    }

-- The file without its indirect block.
pub record IsDirect (p : ℕ → ℕ) (ip : Inode) (d : Disk) (r : Option (Inode × Disk)) : Type 0 where
  pub ip' : Inode
  pub d' : Disk
  pub result : r ≡ some (ip', d')
  pub fields : ip' ≡ record ip { addrs = ip'.addrs }
  pub zero_indirect : ip'.addrs ndirect ≡ 0
  pub others : (x : ℕ) → x < ndirect → ip'.addrs x ≡ ip.addrs x
  pub freed : IsFreed p 12 257 d d'

free_indirect_result :
    (ip : Inode) (d d' d'' : Disk)
    → ip.addrs ndirect ≢ 0
    → free_entries nindirect 0 (ip.addrs ndirect) d ≡ some d'
    → bfree (ip.addrs ndirect) d' ≡ some d''
    → free_indirect ip d ≡ some (record ip { addrs = update ip.addrs ndirect 0 }, d'')
unfolding free_indirect
free_indirect_result ip d d' d'' n e e' = rw (==-false (ip.addrs ndirect) 0 n, e, e') refl

pub free_indirect_lem :
    (p : ℕ → ℕ) (ip : Inode) (d : Disk)
    → IsDisk d
    → IsFreeable p 12 257 d
    → ip.addrs ndirect ≡ p 12
    → (p 12 ≡ 0 → (x : ℕ) → 13 ≤ x → x < 269 → p x ≡ 0)
    → (p 12 ≢ 0 → (x : ℕ) → x < 256 → le32 (d.block (p 12)) (4 * x) ≡ p (13 + x))
    → IsDirect p ip d (free_indirect ip d)
unfolding free_indirect
free_indirect_lem p ip d disk f same none_left some_left = elim (ℕ_discrete (p 12) 0) [
  | yes z ↦ record {
    ip' = ip;
    d' = d;
    result = rw (same, z) refl;
    fields = refl;
    zero_indirect = same ∙ z;
    others = λ x h. refl;
    freed = all_zero p d disk f (λ x low high. elim (ℕ_discrete 12 x) [
      | yes e ↦ ap p (sym e) ∙ z
      | no ne ↦ none_left z x (omega arith) high
    ]);
  }
  | no n ↦
      let (d', e, g) =
        free_entries_lem (entries p d disk f) 256 0 (p 12) d disk (entries-IsFreeable p d disk f)
          (f.off_map 12 (omega arith) (omega arith) n) (λ x low high. some_left n x high) in
      record {
        ip' = record ip { addrs = update ip.addrs ndirect 0 };
        d' = freed_block (p 12) d';
        result =
            free_indirect_result ip d d' (freed_block (p 12) d') (λ z. n (sym same ∙ z))
              (subst (λ b. free_entries nindirect 0 b d ≡ some d') (sym same) e)
              (ap (λ b. bfree b d') same
                ∙ bfree-some (p 12) d' g.disk (indirect_used p d disk f n d' g));
        fields = refl;
        zero_indirect = update-at ip.addrs ndirect 0;
        others = λ x h. update-other ip.addrs ndirect 0 x (λ e. absurd (omega arith));
        freed = indirect-IsFreed p d disk f n d' g;
      }
]

-- The file before `itrunc`, seen by its loops.
module _ (ip : Inode) (d : Disk) (file : IsFile ip d) where
  pub file-IsFreeable : IsFreeable (ptr ip d) 0 (12 + 257) d
  file-IsFreeable = record {
    small = λ x low high. file.small x high;
    in_use = λ x low high. file.in_use x high;
    off_map = λ x low high. file.off_map x high;
    apart = λ x y low high low' high'. file.apart x y high high';
  }

  pub none_left : (ip.addrs ndirect ≡ 0) → (x : ℕ) → 13 ≤ x → x < 269 → ptr ip d x ≡ 0
  none_left z x low high = ptr_entry ip d x low ∙ rw z refl

  pub some_left :
      (a : ByteArray)
      → ip.addrs ndirect ≢ 0
      → a ≡ d.block (ip.addrs ndirect)
      → (x : ℕ) → x < 256
      → le32 a (4 * x) ≡ ptr ip d (13 + x)
  some_left a n e x h =
      ap (λ b. le32 b (4 * x)) e
      ∙ ap (λ y. le32 (d.block (ip.addrs ndirect)) (4 * y)) {x = x} {y = 13 + x - 13} (omega arith)
      ∙ sym (ptr_entry ip d (13 + x) (omega arith) ∙ rw (==-false (ip.addrs ndirect) 0 n) refl)
