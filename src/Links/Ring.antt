-- ===== src/Links/Ring.antt =====
-- What the operations of kernel/list.c do to the nodes of a list.
use xv6_riscv_labs.Prelude.{
  ℕ, ◌≡◌, ◌≢◌, refl, sym, true, none, some, List, [], ◌∷◌, ◌++◌, update, update-at, update-other,
  ◌↔◌, arith, Absent, Absent-append, AllDistinct, ==-refl, ==-false, subst,
}
use xv6_riscv_labs.Links.Defs.{Links, lst_init, lst_empty, lst_remove, lst_pop, lst_push}
use xv6_riscv_labs.Links.Seg.{Seg, Seg-unlink, Seg-split, Seg-link, before_end, after_start}

-- The nodes of the list with head `lst`, in order, each one once.
pub record IsRing (m : Links) (lst : ℕ) (nodes : List ℕ) : Type 0 where
  pub linked : Seg m.next m.prev lst nodes lst
  pub apart : Absent lst nodes
  pub distinct : AllDistinct nodes

pub lst_init-IsRing : (lst : ℕ) (m : Links) → IsRing (lst_init lst m) lst []
unfolding lst_init
lst_init-IsRing lst m = record {
  linked = (update-at m.next lst lst, update-at m.prev lst lst);
  apart = tt;
  distinct = tt;
}

pub lst_push-IsRing :
    (lst p : ℕ) (nodes : List ℕ) (m : Links)
    → IsRing m lst nodes
    → Absent p (lst ∷ nodes)
    → IsRing (lst_push lst p m) lst (p ∷ nodes)
unfolding lst_push
lst_push-IsRing lst p nodes m r a = record {
  linked =
      subst
        (λ x.
          Seg (update (update m.next p (m.next lst)) lst p) (update (update m.prev p lst) x p) lst
            (p ∷ nodes) lst)
        (sym (update-other m.next p (m.next lst) lst (a.0)))
        (Seg-link m.next m.prev lst p nodes lst r.apart r.apart r.distinct a a.0 r.linked);
  apart = ((λ e. a.0 (sym e)), r.apart);
  distinct = (a.1, r.distinct);
}

pub Absent-without :
    (q : ℕ) (xs : List ℕ) (e : ℕ) (ys : List ℕ) → Absent q (xs ++ e ∷ ys) → Absent q (xs ++ ys)
Absent-without q [] e ys (n, a) = a
Absent-without q (x ∷ xs) e ys (n, a) = (n, Absent-without q xs e ys a)

AllDistinct-without :
    (xs : List ℕ) (e : ℕ) (ys : List ℕ) → AllDistinct (xs ++ e ∷ ys) → AllDistinct (xs ++ ys)
AllDistinct-without [] e ys (a, d) = d
AllDistinct-without (x ∷ xs) e ys (a, d) =
    (Absent-without x xs e ys a, AllDistinct-without xs e ys d)

-- The node is not among those before it.
Absent-before : (xs : List ℕ) (e : ℕ) (ys : List ℕ) → AllDistinct (xs ++ e ∷ ys) → Absent e xs
Absent-before [] e ys d = tt
Absent-before (x ∷ xs) e ys (a, d) =
    ((λ h. (Absent-append x xs (e ∷ ys) a).1.0 (sym h)), Absent-before xs e ys d)

Absent-after : (xs : List ℕ) (e : ℕ) (ys : List ℕ) → AllDistinct (xs ++ e ∷ ys) → Absent e ys
Absent-after [] e ys d = d.0
Absent-after (x ∷ xs) e ys d = Absent-after xs e ys d.1

module _ (lst e : ℕ) (xs ys : List ℕ) (m : Links) (r : IsRing m lst (xs ++ e ∷ ys)) where
  halves : Seg m.next m.prev lst xs e × Seg m.next m.prev e ys lst
  halves = Seg-split m.next m.prev lst xs e ys lst r.linked

  not_head : e ≢ lst
  not_head h = (Absent-append lst xs (e ∷ ys) r.apart).1.0 (sym h)

  -- A node of a list is not its own neighbour.
  pub prev_apart : e ≢ m.prev e
  prev_apart =
      before_end m.next m.prev e lst xs e (not_head, Absent-before xs e ys r.distinct) halves.0

  pub next_apart : e ≢ m.next e
  next_apart =
      after_start m.next m.prev e e ys lst (Absent-after xs e ys r.distinct) not_head halves.1

  -- Its neighbours linked to each other.
  pub unlinked-IsRing :
      IsRing
        (record {
          next = update m.next (m.prev e) (m.next e);
          prev = update m.prev (m.next e) (m.prev e);
        })
        lst
        (xs ++ ys)
  unlinked-IsRing = record {
    linked = Seg-unlink m.next m.prev lst xs e ys lst r.apart r.apart r.distinct halves.0 halves.1;
    apart = Absent-without lst xs e ys r.apart;
    distinct = AllDistinct-without xs e ys r.distinct;
  }

pub lst_remove-IsRing :
    (lst e : ℕ) (xs ys : List ℕ) (m : Links)
    → IsRing m lst (xs ++ e ∷ ys)
    → IsRing (lst_remove e m) lst (xs ++ ys)
unfolding lst_remove
lst_remove-IsRing lst e xs ys m r =
    subst
      (λ x.
        IsRing
          (record { next = update m.next (m.prev e) (m.next e); prev = update m.prev x (m.prev e) })
          lst (xs ++ ys))
      (sym (update-other m.next (m.prev e) (m.next e) e (λ h. prev_apart lst e xs ys m r (sym h))))
      (unlinked-IsRing lst e xs ys m r)

pub lst_empty_iff :
    (lst : ℕ) (nodes : List ℕ) (m : Links)
    → IsRing m lst nodes
    → (lst_empty lst m ≡ true) ↔ (nodes ≡ [])
unfolding lst_empty
lst_empty_iff lst [] m r = ((λ e. refl), (λ e. rw (r.linked.0, ==-refl lst) refl))
lst_empty_iff lst (x ∷ xs) m r =
    ((λ e. absurd (r.apart.0 (ground (arith, e, r.linked.0)))), (λ e. absurd (ground (arith, e))))

-- The first node of a list that is not empty.
pub lst_pop-IsRing :
    (lst p : ℕ) (nodes : List ℕ) (m : Links)
    → IsRing m lst (p ∷ nodes)
    → (lst_pop lst m ≡ some (p, lst_remove p m)) × IsRing (lst_remove p m) lst nodes
unfolding lst_pop
lst_pop-IsRing lst p nodes m r = (
  rw (r.linked.0, ==-false p lst (λ e. r.apart.0 (sym e))) refl,
  lst_remove-IsRing lst p [] nodes m r,
)

pub lst_pop-none : (lst : ℕ) (m : Links) → IsRing m lst [] → lst_pop lst m ≡ none
unfolding lst_pop
lst_pop-none lst m r = rw (r.linked.0, ==-refl lst) refl
