-- ===== src/Links/Tests.antt =====
-- Runs of kernel/list.c.
use xv6_riscv_labs.Prelude.{◌≡◌, refl, arith, some, List, [], ◌∷◌}
use xv6_riscv_labs.Links.Defs.{Links, lst_init}
use xv6_riscv_labs.Links.Ring.{lst_init-IsRing}
use xv6_riscv_labs.Links.Runs.{
  Call, push, pop, remove, model, Allowed, Agree, exec_all, model_all, AllAllowed, add_out,
  exec_all-Agree,
}

abbrev fresh : Links
fresh = record { next = λ _. 0; prev = λ _. 0 }

abbrev calls : List Call
calls = push 100 ∷ push 200 ∷ push 300 ∷ remove (300 ∷ []) 200 (100 ∷ []) ∷ pop ∷ pop ∷ pop ∷ []

calls-AllAllowed : AllAllowed 50 calls []
unfolding AllAllowed Allowed model
calls-AllAllowed = (
  ((λ e. absurd (omega (arith, e))), tt),
  (
    ((λ e. absurd (omega (arith, e))), ((λ e. absurd (omega (arith, e))), tt)),
    (
      (
        (λ e. absurd (omega (arith, e))),
        ((λ e. absurd (omega (arith, e))), ((λ e. absurd (omega (arith, e))), tt)),
      ),
      (refl, (tt, (tt, (tt, tt)))),
    ),
  ),
)

popped : model_all (push 100 ∷ push 200 ∷ pop ∷ pop ∷ []) [] ≡ some (200 ∷ 100 ∷ [], [])
unfolding model_all model add_out
popped = refl

exec_all-Agree_example : Agree 50 (exec_all 50 calls (lst_init 50 fresh)) (model_all calls [])
exec_all-Agree_example =
    exec_all-Agree 50 calls [] (lst_init 50 fresh) calls-AllAllowed (lst_init-IsRing 50 fresh)
