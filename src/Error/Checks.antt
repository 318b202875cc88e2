-- ===== src/Error/Checks.antt =====
-- When checks succeed.
use myna_card.Prelude.{◌≡◌, refl, sym, subst, Bool, true, false, Option, none, some, ◌↔◌}
use mathlib.Core.Option.{some-injective}
use myna_card.Error.{Error, Result, ok, ◌>>=◌, ◌>>◌, guard, ok_or}

-- `guard` succeeds when the test does.
pub guard_iff : (b : Bool) (e : Error) → (guard b e ≡ ok tt) ↔ (b ≡ true)
guard_iff true e = (λ _. refl, λ _. refl)
guard_iff false e = (λ h. cc, λ h. cc)

-- Two checks, one after the other.
pub both-eq-ok : (m n : Result (Unit {0})) → m ≡ ok tt → n ≡ ok tt → (m >> n) ≡ ok tt
both-eq-ok m n h k = rw h k

-- A value that must be there, and a check of it.
pub ok_or_iff :
    {A : Type 0} {P : A → Type 0} (o : Option A) (check : A → Result (Unit {0})) (e : Error)
    → ((a : A) → (check a ≡ ok tt) ↔ P a)
    → ((ok_or o e >>= check) ≡ ok tt) ↔ ((a : A) × (o ≡ some a) × P a)
ok_or_iff none check e each = (λ h. cc, λ (a, h, t). cc)
ok_or_iff {A} {P} (some a) check e each =
    (λ h. (a, refl, (each a).0 h), λ (b, h, t). (each a).1 (subst P (sym (some-injective a b h)) t))

-- A step that succeeds, and what follows it.
pub bind-ok :
    {A B : Type 0} (m : Result A) (f : A → Result B) (a : A) {r : Result B}
    → m ≡ ok a
    → f a ≡ r
    → (m >>= f) ≡ r
bind-ok m f a h k = rw h k
