-- ===== src/Links/Seg.antt =====
-- Nodes of kernel/list.c linked in a row.
use xv6_riscv_labs.Prelude.{
  ℕ, ◌≡◌, ◌≢◌, refl, sym, subst, ==-refl, ◌∙◌, List, [], ◌∷◌, ◌++◌, update, update-at, update-other,
  Absent, Absent-append, AllDistinct,
}

-- From node `x` over the nodes of the list to node `z`, by the links of both directions.
abbrev pub Seg : (ℕ → ℕ) → (ℕ → ℕ) → ℕ → List ℕ → ℕ → Type 0
Seg next prev x [] z = (next x ≡ z) × (prev z ≡ x)
Seg next prev x (y ∷ ys) z = (next x ≡ y) × (prev y ≡ x) × Seg next prev y ys z

-- Links of other nodes change.
pub Seg-next :
    (next prev : ℕ → ℕ) (q v x : ℕ) (ys : List ℕ) (z : ℕ)
    → Absent q (x ∷ ys)
    → Seg next prev x ys z
    → Seg (update next q v) prev x ys z
Seg-next next prev q v x [] z (n, a) (e, f) = (update-other next q v x n ∙ e, f)
Seg-next next prev q v x (y ∷ ys) z (n, a) (e, f, s) =
    (update-other next q v x n ∙ e, f, Seg-next next prev q v y ys z a s)

pub Seg-prev :
    (next prev : ℕ → ℕ) (q v x : ℕ) (ys : List ℕ) (z : ℕ)
    → Absent q ys
    → q ≢ z
    → Seg next prev x ys z
    → Seg next (update prev q v) x ys z
Seg-prev next prev q v x [] z a n (e, f) = (e, update-other prev q v z n ∙ f)
Seg-prev next prev q v x (y ∷ ys) z (m, a) n (e, f, s) =
    (e, update-other prev q v y m ∙ f, Seg-prev next prev q v y ys z a n s)

-- The node before the end is one of the row, and so is the node after the start.
pub before_end :
    (next prev : ℕ → ℕ) (q x : ℕ) (ys : List ℕ) (z : ℕ)
    → Absent q (x ∷ ys)
    → Seg next prev x ys z
    → q ≢ prev z
before_end next prev q x [] z (n, a) (e, f) h = n (h ∙ f)
before_end next prev q x (y ∷ ys) z (n, a) (e, f, s) h = before_end next prev q y ys z a s h

pub after_start :
    (next prev : ℕ → ℕ) (q x : ℕ) (ys : List ℕ) (z : ℕ)
    → Absent q ys
    → q ≢ z
    → Seg next prev x ys z
    → q ≢ next x
after_start next prev q x [] z a n (e, f) h = n (h ∙ e)
after_start next prev q x (y ∷ ys) z (m, a) n (e, f, s) h = m (h ∙ e)

-- Two rows that meet in `e` become one without it.
pub Seg-unlink :
    (next prev : ℕ → ℕ) (x : ℕ) (xs : List ℕ) (e : ℕ) (ys : List ℕ) (z : ℕ)
    → Absent x (xs ++ e ∷ ys)
    → Absent z (xs ++ e ∷ ys)
    → AllDistinct (xs ++ e ∷ ys)
    → Seg next prev x xs e
    → Seg next prev e ys z
    → Seg (update next (prev e) (next e)) (update prev (next e) (prev e)) x (xs ++ ys) z
Seg-unlink next prev x [] e [] z a b d (n, p) (n', p') =
    (rw (p, ==-refl x) n', rw (n', ==-refl z) p)
Seg-unlink next prev x [] e (y ∷ ys) z (m, a) (k, (k', b)) (d, (d', ds)) (n, p) (n', p', s) = (
  rw (p, ==-refl x) n',
  rw (n', ==-refl y) p,
  Seg-next next (update prev (next e) (prev e)) (prev e) (next e) y ys z
      (subst (λ q. Absent q (y ∷ ys)) (sym p) a)
      (Seg-prev next prev (next e) (prev e) y ys z (subst (λ q. Absent q ys) (sym n') d')
        (λ h. k' (sym h ∙ n')) s),
)
Seg-unlink next prev x (w ∷ ws) e ys z (m, a) (k, b) (d, ds) (n, p, s) s' =
    let x_out = Absent-append x ws (e ∷ ys) a in
    let w_out = Absent-append w ws (e ∷ ys) d in
    (
      update-other next (prev e) (next e) x
            (λ h. before_end next prev x w ws e (m, x_out.0) s (sym h))
          ∙ n,
      update-other prev (next e) (prev e) w
            (λ h. after_start next prev w e ys z (w_out.1.1) (λ g. k (sym g)) s' (sym h))
          ∙ p,
      Seg-unlink next prev w ws e ys z d b ds s s',
    )

-- A row of nodes is two that meet in one of them.
pub Seg-split :
    (next prev : ℕ → ℕ) (x : ℕ) (xs : List ℕ) (e : ℕ) (ys : List ℕ) (z : ℕ)
    → Seg next prev x (xs ++ e ∷ ys) z
    → Seg next prev x xs e × Seg next prev e ys z
Seg-split next prev x [] e ys z (n, p, s) = ((n, p), s)
Seg-split next prev x (w ∷ ws) e ys z (n, p, s) =
    ((n, p, (Seg-split next prev w ws e ys z s).0), (Seg-split next prev w ws e ys z s).1)

-- A node put between `x` and the row after it.
pub Seg-link :
    (next prev : ℕ → ℕ) (x q : ℕ) (ys : List ℕ) (z : ℕ)
    → Absent x ys
    → Absent z ys
    → AllDistinct ys
    → Absent q (x ∷ ys)
    → q ≢ z
    → Seg next prev x ys z
    → Seg (update (update next q (next x)) x q) (update (update prev q x) (next x) q) x (q ∷ ys) z
Seg-link next prev x q [] z a b d (m, c) k (n, p) = (
  update-at (update next q (next x)) x q,
  update-other (update prev q x) (next x) q q (λ h. k (sym h ∙ n)) ∙ update-at prev q x,
  (
    update-other (update next q (next x)) x q q (λ h. m (sym h)) ∙ update-at next q (next x) ∙ n,
    rw (n, ==-refl z) refl,
  ),
)
Seg-link next prev x q (y ∷ ys) z (a, a') (b, b') (d, ds) (m, (m', c)) k (n, p, s) = (
  update-at (update next q (next x)) x q,
  update-other (update prev q x) (next x) q q (λ h. m' (sym h ∙ n)) ∙ update-at prev q x,
  (
    update-other (update next q (next x)) x q q (λ h. m (sym h)) ∙ update-at next q (next x) ∙ n,
    rw (n, ==-refl y) refl,
    Seg-next (update next q (next x)) (update (update prev q x) (next x) q) x q y ys z (a, a')
        (Seg-next next (update (update prev q x) (next x) q) q (next x) y ys z (m', c)
          (Seg-prev next (update prev q x) (next x) q y ys z (subst (λ h. Absent h ys) (sym n) d)
            (λ h. b (sym h ∙ n)) (Seg-prev next prev q x y ys z c k s))),
  ),
)
