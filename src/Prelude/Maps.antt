-- ===== src/Prelude/Maps.antt =====
-- Total maps from numbers: memories, disks, arrays and tables, changed at one place.
use Prim.Native.Nat.{ℕ}
use mathlib.Core.Path.{◌≡◌}
use mathlib.Core.Logic.{◌≢◌}
unfoldable use native.Mathlib.Decide.{ℕ_discrete}
use xv6_riscv_labs.Prelude.Tests.{◌==◌, if◌then◌else◌, ==-refl, ==-false}

abbrev pub update {ℓ} : {A : Type ℓ} → (ℕ → A) → ℕ → A → ℕ → A
update f k v j = if k == j then v else f j

pub update-at {ℓ} : {A : Type ℓ} → (f : ℕ → A) (k : ℕ) (v : A) → update f k v k ≡ v
update-at f k v = rw (==-refl k)

pub update-other {ℓ} :
    {A : Type ℓ} → (f : ℕ → A) (k : ℕ) (v : A) (j : ℕ) → k ≢ j → update f k v j ≡ f j
update-other f k v j d = rw (==-false k j d)

-- What holds of the new value and of the old ones holds after the change.
pub update_all {ℓ ℓ'} :
    {A : Type ℓ}
    → (P : A → Type ℓ') (f : ℕ → A) (k : ℕ) (v : A) (j : ℕ) → P v
    → P (f j)
    → P (update f k v j)
update_all P f k v j new old = elim (ℕ_discrete k j) [
  | yes e ↦ rw (e, ==-refl j) new
  | no d ↦ rw (==-false k j d) old
]
