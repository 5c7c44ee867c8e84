-- ===== src/Links/Runs.antt =====
-- Calls of kernel/list.c on one list, against a sequence of nodes.
use xv6_riscv_labs.Prelude.{ℕ, ◌≡◌, subst, Option, none, some, List, [], ◌∷◌, ◌++◌, Absent}
use xv6_riscv_labs.Links.Defs.{Links, lst_remove, lst_pop, lst_push}
use xv6_riscv_labs.Links.Ring.{
  IsRing, lst_push-IsRing, lst_remove-IsRing, lst_pop-IsRing, lst_pop-none,
}

-- A call, and the node that it is about.
pub data Call : Type 0 where
  push : ℕ → Call
  pop : Call
  remove : (xs : List ℕ) (e : ℕ) (ys : List ℕ) → Call

-- What a call does to the links: the node popped, if any, and the links; none is the panic.
unfoldable pub exec : ℕ → Call → Links → Option (List ℕ × Links)
exec lst (push p) m = some ([], lst_push lst p m)
exec lst pop m = elim (lst_pop lst m) [ none ↦ none | some (p, m') ↦ some (p ∷ [], m') ]
exec lst (remove xs e ys) m = some ([], lst_remove e m)

-- What it does to the sequence of nodes.
unfoldable pub model : Call → List ℕ → Option (List ℕ × List ℕ)
model (push p) nodes = some ([], p ∷ nodes)
model pop [] = none
model pop (p ∷ nodes) = some (p ∷ [], nodes)
model (remove xs e ys) nodes = some ([], xs ++ ys)

-- A node is pushed only if it is not in the list, and removed only if it is.
unfoldable pub Allowed : ℕ → Call → List ℕ → Type 0
Allowed lst (push p) nodes = Absent p (lst ∷ nodes)
Allowed lst pop nodes = Unit
Allowed lst (remove xs e ys) nodes = nodes ≡ xs ++ e ∷ ys

-- Both panic, or both return the same nodes and the list still holds the sequence.
pub data Agree (lst : ℕ) : Option (List ℕ × Links) → Option (List ℕ × List ℕ) → Type 0 where
  both_panic : Agree lst none none
  both_return :
      (out : List ℕ) (m : Links) (nodes : List ℕ)
      → IsRing m lst nodes
      → Agree lst (some (out, m)) (some (out, nodes))

step_lem :
    (lst : ℕ) (c : Call) (nodes : List ℕ) (m : Links)
    → Allowed lst c nodes
    → IsRing m lst nodes
    → Agree lst (exec lst c m) (model c nodes)
unfolding exec model Allowed
step_lem lst (push p) nodes m a r =
    both_return [] (lst_push lst p m) (p ∷ nodes) (lst_push-IsRing lst p nodes m r a)
step_lem lst pop [] m a r = rw (lst_pop-none lst m r, exec) both_panic
step_lem lst pop (p ∷ nodes) m a r =
    let popped = lst_pop-IsRing lst p nodes m r in
    rw (popped.0, exec) (both_return (p ∷ []) (lst_remove p m) nodes popped.1)
step_lem lst (remove xs e ys) nodes m a r =
    both_return [] (lst_remove e m) (xs ++ ys)
      (lst_remove-IsRing lst e xs ys m (subst (IsRing m lst) a r))

-- What came before is put before what comes out later.
unfoldable pub add_out : {A : Type 0} → List ℕ → Option (List ℕ × A) → Option (List ℕ × A)
add_out out none = none
add_out out (some (outs, a)) = some (out ++ outs, a)

-- The calls one after the other, with all the nodes popped.
unfoldable pub exec_all : ℕ → List Call → Links → Option (List ℕ × Links)
exec_all lst [] m = some ([], m)
exec_all lst (c ∷ cs) m = elim (exec lst c m) [
  | none ↦ none
  | some (out, m') ↦ add_out out (exec_all lst cs m')
]

unfoldable pub model_all : List Call → List ℕ → Option (List ℕ × List ℕ)
model_all [] nodes = some ([], nodes)
model_all (c ∷ cs) nodes = elim (model c nodes) [
  | none ↦ none
  | some (out, nodes') ↦ add_out out (model_all cs nodes')
]

unfoldable pub AllAllowed : ℕ → List Call → List ℕ → Type 0
AllAllowed lst [] nodes = Unit
AllAllowed lst (c ∷ cs) nodes =
    Allowed lst c nodes
    × elim (model c nodes) [ none ↦ Unit | some (out, nodes') ↦ AllAllowed lst cs nodes' ]

add_out-Agree :
    (lst : ℕ) (out : List ℕ) (a : Option (List ℕ × Links)) (b : Option (List ℕ × List ℕ))
    → Agree lst a b
    → Agree lst (add_out out a) (add_out out b)
unfolding add_out
add_out-Agree lst out _ _ both_panic = both_panic
add_out-Agree lst out _ _ (both_return outs m nodes r) = both_return (out ++ outs) m nodes r

-- Any calls of kernel/list.c on a list, each node pushed only while it is not in the list and
-- removed only while it is, do what they do to the sequence of the list's nodes: a push puts the
-- node first, a pop takes the first node, a removal takes the node out. They return the same
-- nodes, panic exactly if the sequence is empty at a pop, and leave links of both directions that
-- hold the sequence.
pub exec_all-Agree :
    (lst : ℕ) (cs : List Call) (nodes : List ℕ) (m : Links)
    → AllAllowed lst cs nodes
    → IsRing m lst nodes
    → Agree lst (exec_all lst cs m) (model_all cs nodes)
unfolding exec_all model_all AllAllowed
exec_all-Agree lst [] nodes m a r = both_return [] m nodes r
exec_all-Agree lst (c ∷ cs) nodes m a r =
    go (λ nodes' m' a' r'. exec_all-Agree lst cs nodes' m' a' r') (exec lst c m) (model c nodes)
      (step_lem lst c nodes m a.0 r) a.1
  where
    go :
        ((nodes' : List ℕ) (m' : Links)
          → AllAllowed lst cs nodes'
          → IsRing m' lst nodes'
          → Agree lst (exec_all lst cs m') (model_all cs nodes'))
        → (x : Option (List ℕ × Links)) (y : Option (List ℕ × List ℕ)) → Agree lst x y
        → elim y as (λ _. Type 0) [ none ↦ Unit | some (out, nodes') ↦ AllAllowed lst cs nodes' ]
        → Agree lst
            (elim x [ none ↦ none | some (out, m') ↦ add_out out (exec_all lst cs m') ])
            (elim y [ none ↦ none | some (out, nodes') ↦ add_out out (model_all cs nodes') ])
    go later _ _ both_panic a = both_panic
    go later _ _ (both_return out m' nodes' r') a =
        add_out-Agree lst out (exec_all lst cs m') (model_all cs nodes') (later nodes' m' a r')
