-- ===== src/Prelude/Succeeding.antt =====
-- When a computation with a `Result` succeeds.
use mathlib.Core.Path.{◌≡◌, refl}
use mathlib.Core.Bool.{Bool, true, false}
use mathlib.Core.Logic.{◌⊎◌, ◌↔◌}
use native.Mathlib.Omega.{arith}
use dfdisk.Prelude.Tests.{if◌then◌else◌}
use dfdisk.Prelude.Results.{Result, ok, err, ◌>>=◌, ◌>>◌, refuse_if}

unfoldable pub Succeeds : {E A : Type 0} → Result E A → Type 0
Succeeds {E} {A} r = (a : A) × (r ≡ ok a)

pub Succeeds-ok : (E : Type 0) {A : Type 0} (a : A) → Succeeds {E = E} (ok a)
unfolding Succeeds
Succeeds-ok E a = (a, refl)

pub Succeeds-ok_iff : (E : Type 0) {A : Type 0} (a : A) → Succeeds {E = E} (ok a) ↔ Unit {0}
unfolding Succeeds
Succeeds-ok_iff E a = (λ _. tt, λ _. (a, refl))

pub Succeeds-err : {E : Type 0} (A : Type 0) (e : E) → ¬ Succeeds {A = A} (err e)
unfolding Succeeds
Succeeds-err A e = ground arith

pub Succeeds-if :
    {E A : Type 0} (b : Bool) (x y : Result E A)
    → Succeeds (if b then x else y) ↔ (((b ≡ true) × Succeeds x) ⊎ ((b ≡ false) × Succeeds y))
Succeeds-if true x y = ground arith
Succeeds-if false x y = ground arith

-- Where the rest succeeds under a condition that does not depend on the value before it.
pub Succeeds->>= :
    {E A B : Type 0} (m : Result E A) (k : A → Result E B) {C D : Type 0}
    → Succeeds m ↔ C
    → ((a : A) → Succeeds (k a) ↔ D)
    → Succeeds (m >>= k) ↔ (C × D)
unfolding Succeeds
Succeeds->>= (ok a) k c d = (λ s. (c.0 (a, refl), (d a).0 s), λ (_, y). (d a).1 y)
Succeeds->>= (err e) k c d = ground (arith, c)

pub Succeeds->> :
    {E B : Type 0} (m : Result E (Unit {0})) (k : Result E B) {C D : Type 0}
    → Succeeds m ↔ C
    → Succeeds k ↔ D
    → Succeeds (m >> k) ↔ (C × D)
Succeeds->> m k c d = Succeeds->>= m (λ _. k) c (λ _. d)

pub Succeeds-refuse_if : {E : Type 0} (b : Bool) (e : E) → Succeeds (refuse_if b e) ↔ (b ≡ false)
unfolding Succeeds
Succeeds-refuse_if true e = ground arith
Succeeds-refuse_if false e = ground arith
