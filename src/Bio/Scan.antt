-- ===== src/Bio/Scan.antt =====
-- The loops of `bget` of kernel/bio.c over the list of buffers.
use xv6_riscv_labs.Prelude.{
  ℕ, zero, suc, ◌+◌, ◌≤◌, ◌≡◌, ◌≢◌, refl, ap, sym, ◌∙◌, Bool, true, false, none, some, List, [],
  ◌∷◌, ◌++◌, arith, ◌⊎◌, inl, inr, Bool-cases, Absent, ==-false, length, subst,
}
use mathlib.Core.Bool.{false≢true}
use xv6_riscv_labs.Bio.Defs.{head, first_from}
use xv6_riscv_labs.Links.Seg.{Seg}

-- None of the list passes the test.
abbrev pub AllFail : (ℕ → Bool) → List ℕ → Type 0
AllFail test [] = Unit
AllFail test (x ∷ xs) = (test x ≡ false) × AllFail test xs

-- What a loop finds in the list: the first that passes.
pub record IsFirst (test : ℕ → Bool) (nodes : List ℕ) (b : ℕ) : Type 0 where
  pub pre : List ℕ
  pub post : List ℕ
  pub parts : nodes ≡ pre ++ b ∷ post
  pub passes : test b ≡ true
  pub before : AllFail test pre

module _ (step back : ℕ → ℕ) (test : ℕ → Bool) where
  pub first_from_lem :
      (k x : ℕ) (nodes : List ℕ)
      → Seg step back x nodes head
      → Absent head nodes
      → length nodes ≤ k
      → ((first_from step test k (step x) ≡ none) × AllFail test nodes)
        ⊎ ((b : ℕ) × (first_from step test k (step x) ≡ some b) × IsFirst test nodes b)
  unfolding first_from
  first_from_lem zero x [] s a h = inl (refl, tt)
  first_from_lem zero x (y ∷ ys) s a h = absurd (omega (arith, h))
  first_from_lem (suc k) x [] (n, p) a h = inl (rw n refl, tt)
  first_from_lem (suc k) x (y ∷ ys) (n, p, s) (m, a) h =
      rw (n, ==-false y head (λ e. m (sym e)))
        (elim (Bool-cases (test y)) [
          | inl t ↦
              inr (
                y,
                rw t refl,
                record { pre = []; post = ys; parts = refl; passes = t; before = tt },
              )
          | inr f ↦ elim (first_from_lem k y ys s a (omega (arith, h))) [
            | inl (e, all) ↦ inl (rw f e, (f, all))
            | inr (b, e, r) ↦ inr (
              b,
              rw f e,
              record {
                pre = y ∷ r.pre;
                post = r.post;
                parts = ap (λ l. y ∷ l) r.parts;
                passes = r.passes;
                before = (f, r.before);
              },
            )
          ]
        ])

-- The list from its other end.
abbrev pub reverse_onto : List ℕ → List ℕ → List ℕ
reverse_onto [] acc = acc
reverse_onto (x ∷ xs) acc = reverse_onto xs (x ∷ acc)

pub Seg-back :
    (next prev : ℕ → ℕ) (x : ℕ) (ys : List ℕ) (z : ℕ) (acc : List ℕ) (w : ℕ)
    → Seg next prev x ys z
    → Seg prev next x acc w
    → Seg prev next z (reverse_onto ys (x ∷ acc)) w
Seg-back next prev x [] z acc w (n, p) t = (p, n, t)
Seg-back next prev x (y ∷ ys) z acc w (n, p, s) t =
    Seg-back next prev y ys z (x ∷ acc) w s (p, n, t)

pub Seg-reverse :
    (next prev : ℕ → ℕ) (nodes : List ℕ)
    → Seg next prev head nodes head
    → Seg prev next head (reverse_onto nodes []) head
Seg-reverse next prev [] (n, p) = (p, n)
Seg-reverse next prev (y ∷ ys) (n, p, s) = Seg-back next prev y ys head [] head s (p, n)

pub Absent-reverse_onto :
    (q : ℕ) (xs acc : List ℕ) → Absent q xs → Absent q acc → Absent q (reverse_onto xs acc)
Absent-reverse_onto q [] acc a b = b
Absent-reverse_onto q (x ∷ xs) acc (n, a) b = Absent-reverse_onto q xs (x ∷ acc) a (n, b)

pub length-reverse_onto : (xs acc : List ℕ) → length (reverse_onto xs acc) ≡ length xs + length acc
length-reverse_onto [] acc = omega arith
length-reverse_onto (x ∷ xs) acc = omega (arith, length-reverse_onto xs (x ∷ acc))

-- What fails everywhere in a list and passes at `b` has no `b` in the list.
pub AllFail-Absent :
    (test : ℕ → Bool) (b : ℕ) (xs : List ℕ) → test b ≡ true → AllFail test xs → Absent b xs
AllFail-Absent test b [] t f = tt
AllFail-Absent test b (x ∷ xs) t (e, f) =
    ((λ h. false≢true (sym e ∙ ap test (sym h) ∙ t)), AllFail-Absent test b xs t f)

pub present_in : (xs : List ℕ) (b : ℕ) (ys : List ℕ) → Absent b (xs ++ b ∷ ys) → b ≢ b
present_in [] b ys (n, a) = n
present_in (x ∷ xs) b ys (n, a) = present_in xs b ys a

pub AllFail-back :
    (test : ℕ → Bool) (xs acc : List ℕ)
    → AllFail test (reverse_onto xs acc)
    → AllFail test xs × AllFail test acc
AllFail-back test [] acc f = (tt, f)
AllFail-back test (x ∷ xs) acc f = let r = AllFail-back test xs (x ∷ acc) f in ((r.1.0, r.0), r.1.1)

-- A node of the reversed list is one of the list.
pub reverse_present :
    (nodes xs : List ℕ) (b : ℕ) (ys : List ℕ)
    → reverse_onto nodes [] ≡ xs ++ b ∷ ys
    → (Absent b nodes)
    → b ≢ b
reverse_present nodes xs b ys e a =
    present_in xs b ys (subst (Absent b) e (Absent-reverse_onto b nodes [] a tt))
