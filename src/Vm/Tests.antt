-- ===== src/Vm/Tests.antt =====
-- Runs of kernel/vm.c.
use xv6_riscv_labs.Prelude.{
  ◌↔◌, ℕ, true, ◌∷◌, inl, ◌+◌, ◌<◌, ◌≡◌, ◌∙◌, sym, refl, some, [], ◌==◌, if◌then◌else◌, arith,
}
use xv6_riscv_labs.Vm.Defs.{Tables, walk_from, walkaddr, writable, copyin, copyout}
use xv6_riscv_labs.Vm.Walk.{Walked, walk-Walked}
use xv6_riscv_labs.Vm.Copyin.{Apart, CopyinResult, copyin_lem, phys, phys-chunk}
use xv6_riscv_labs.Vm.Copyout.{Distinct, MayWrite, CopyoutResult, copyout_lem, target, frame-base}

-- One page of the process, at 20480, mapped at 0; the page tables stand at 4096, 8192 and 12288.
abbrev one_page : Tables
one_page = record {
  words =
      λ a. if a == 4096 then 2049 else if a == 8192 then 3073 else if a == 12288 then 5143 else 0;
  free = [];
}

walkaddr_run : walkaddr 4096 one_page 0 ≡ 20480
unfolding walkaddr walk_from
walkaddr_run = refl

walkaddr_unmapped : walkaddr 4096 one_page 4096 ≡ 0
unfolding walkaddr walk_from
walkaddr_unmapped = refl

writable_run : writable 4096 one_page 0 ≡ some 20480
unfolding writable walk_from
writable_run = refl

phys_run : (i : ℕ) → i < 3 → phys (walkaddr 4096 one_page) (8 + i) ≡ 20488 + i
phys_run i h =
    phys-chunk (walkaddr 4096 one_page) 8 3 i (omega arith) h ∙ rw walkaddr_run (omega arith)

target_run : (i : ℕ) → i < 3 → target (writable 4096 one_page) (8 + i) ≡ 20488 + i
target_run i h =
    frame-base (writable 4096 one_page) 8 3 20480 i writable_run (omega arith) h ∙ omega arith

three-Apart : Apart (walkaddr 4096 one_page) 100 8 3
three-Apart i j h l e = let same = sym (phys_run i h) ∙ e in omega arith

three-Distinct : Distinct (writable 4096 one_page) 8 100 3
three-Distinct = record {
  targets = λ i j h l e. let same = sym (target_run i h) ∙ e ∙ target_run j l in omega arith;
  apart = λ i j h l e. let same = sym (target_run i h) ∙ e in omega arith;
}

copyin_lem_example :
    CopyinResult
      (walkaddr 4096 one_page)
      100
      8
      3
      (λ a. a)
      (copyin 4096 one_page 100 8 3 (λ a. a)).0
      (copyin 4096 one_page 100 8 3 (λ a. a)).1
copyin_lem_example = copyin_lem 4096 one_page 100 8 3 (λ a. a) three-Apart

copyout_lem_example :
    CopyoutResult
      (writable 4096 one_page)
      8
      100
      3
      (λ a. a)
      (copyout 4096 one_page 8 100 3 (λ a. a)).0
      (copyout 4096 one_page 8 100 3 (λ a. a)).1
    × ((va0 pa0 : ℕ) → (writable 4096 one_page va0 ≡ some pa0) ↔ MayWrite 4096 one_page va0 pa0)
copyout_lem_example = copyout_lem 4096 one_page 8 100 3 (λ a. a) three-Distinct

-- No page table below the root, and two pages to make them from.
abbrev bare : Tables
bare = record { words = λ _. 0; free = 8192 ∷ 12288 ∷ [] }

walk-Walked_example : Walked 4096 5000 bare (walk_from 2 4096 5000 true bare)
walk-Walked_example =
    walk-Walked 4096 5000 bare (omega arith)
      ((inl (omega arith), (inl (omega arith), tt)), λ v. absurd (ground (arith, v)))
      (
        refl,
        omega arith,
        λ a low high. (inl (omega arith), tt),
        (refl, omega arith, (λ a low high. tt), tt),
      )
