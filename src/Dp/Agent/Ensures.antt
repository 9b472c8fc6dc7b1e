-- ===== src/Dp/Agent/Ensures.antt =====
-- What holds of every result that is not a rejection.
use mathlib.Core.Path.{subst}
use barycenter.Prelude.{◌≡◌, ◌⊎◌, inl, inr, refl, Bool, true, false}
use barycenter.Dp.Agent.State.{Result, ok, err, ◌>>=◌, ◌>>◌, Rejection, reject_if}

abbrev pub Ensures : {A : Type 0} → (A → Type 0) → Result A → Type 0
Ensures P (ok a) = P a
Ensures P (err e) = Unit

-- A bind ensures what its second part ensures from what its first part does.
pub Ensures-bind :
    {A B : Type 0} (P : A → Type 0) (Q : B → Type 0) (m : Result A) (f : A → Result B)
    → Ensures P m
    → ((a : A) → m ≡ ok a → P a → Ensures Q (f a))
    → Ensures Q (m >>= f)
Ensures-bind P Q (ok a) f h k = k a refl h
Ensures-bind P Q (err e) f h k = tt

-- The same where nothing but the equation is known of the first part.
pub Ensures-step :
    {A B : Type 0} (Q : B → Type 0) (m : Result A) (f : A → Result B)
    → ((a : A) → m ≡ ok a → Ensures Q (f a))
    → Ensures Q (m >>= f)
Ensures-step Q (ok a) f k = k a refl
Ensures-step Q (err e) f k = tt

-- A test that did not reject has failed.
pub Ensures-reject_if :
    {B : Type 0} (Q : B → Type 0) (test : Bool) (e : Rejection) (m : Result B)
    → (test ≡ false → Ensures Q m)
    → Ensures Q (reject_if test e >> m)
Ensures-reject_if Q true e m k = tt
Ensures-reject_if Q false e m k = k refl

pub Ensures-result :
    {A : Type 0} (P : A → Type 0) (m : Result A) {a : A} → Ensures P m → m ≡ ok a → P a
Ensures-result P m h e = subst (Ensures P) e h

-- What is ensured may be weakened.
pub Ensures-map :
    {A : Type 0} (P Q : A → Type 0) (m : Result A)
    → Ensures P m
    → ((a : A) → m ≡ ok a → P a → Q a)
    → Ensures Q m
Ensures-map P Q (ok a) h k = k a refl h
Ensures-map P Q (err e) h k = tt

pub Ensures-of :
    {A : Type 0} (P : A → Type 0) (m : Result A) → ((a : A) → m ≡ ok a → P a) → Ensures P m
Ensures-of P (ok a) k = k a refl
Ensures-of P (err e) k = tt

pub Result-cases :
    {A : Type 0} (m : Result A) → ((e : Rejection) × (m ≡ err e)) ⊎ ((a : A) × (m ≡ ok a))
Result-cases (ok a) = inr (a, refl)
Result-cases (err e) = inl (e, refl)

-- Inversion of a bind that gave a result.
pub bind-ok :
    {First Last : Type 0} (start : Result First) (go_on : First → Result Last) {last : Last}
    → (start >>= go_on) ≡ ok last
    → (first : First) × (start ≡ ok first) × (go_on first ≡ ok last)
bind-ok (err why) go_on done = cc
bind-ok (ok first) go_on done = (first, refl, done)
