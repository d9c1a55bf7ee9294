-- ===== src/Common/Exec.antt =====
-- Handlers that read and write a state and may return an error. What was written before the error
-- stays written, so the state comes back beside the error too.
use mathlib.Core.Path.{◌≡◌, refl}
use mathlib.Core.Bool.{Bool, true, false}
use meltica_gateway.Common.Tests.{if◌then◌else◌}

pub data Result {ℓ} (E A : Type ℓ) : Type ℓ where
  ok : A → Result E A
  err : E → Result E A

abbrev pub Exec : Type 0 → Type 0 → Type 0 → Type 0
Exec S E A = S → Result E A × S

module _ {S E A B : Type 0} where
  abbrev continue : Result E A → (A → Exec S E B) → Exec S E B
  continue (ok a) f s = f a s
  continue (err e) f s = (err e, s)

  infixl 10 ◌>>=◌ ◌>>◌
  abbrev pub ◌>>=◌ : Exec S E A → (A → Exec S E B) → Exec S E B
  ◌>>=◌ m f s = let (r, s') = m s in continue r f s'

  abbrev pub ◌>>◌ : Exec S E A → Exec S E B → Exec S E B
  m >> n = m >>= λ _. n

module _ {S E A : Type 0} where
  abbrev pub pure : A → Exec S E A
  pure a s = (ok a, s)

  abbrev pub raise : E → Exec S E A
  raise e s = (err e, s)

  abbrev pub gets : (S → A) → Exec S E A
  gets f s = (ok (f s), s)

module _ {S E : Type 0} where
  -- if bad { return e }
  abbrev pub refuse : Bool → E → Exec S E (Unit {0})
  refuse true e s = (err e, s)
  refuse false e s = (ok tt, s)

  abbrev pub modify : (S → S) → Exec S E (Unit {0})
  modify f s = (ok tt, f s)

-- `Q` holds of the value that is returned and the state after it, `R` of the error and its state.
pub record Ensures {S E A : Type 0} (Q : A → S → Type 0) (R : E → S → Type 0) (r : Result E A × S)
    : Type 0 where
  pub on_ok : (a : A) (s : S) → r ≡ (ok a, s) → Q a s
  pub on_err : (e : E) (s : S) → r ≡ (err e, s) → R e s

module _ {S E A B : Type 0} (P : A → S → Type 0) (Q : B → S → Type 0) (R : E → S → Type 0) where
  Ensures-continue :
      (r : Result E A) (s : S) (f : A → Exec S E B)
      → Ensures P R (r, s)
      → ((a : A) (t : S) → P a t → Ensures Q R (f a t))
      → Ensures Q R (continue r f s)
  Ensures-continue (ok a) s f p q = q a s (p.on_ok a s refl)
  Ensures-continue (err e) s f p q = record {
    on_ok = λ a t h. cc;
    on_err = λ e' t h. p.on_err e' t (cc);
  }

  -- The rule of a `do` block's step.
  pub Ensures-bind :
      (m : Exec S E A) (f : A → Exec S E B) (s : S)
      → Ensures P R (m s)
      → ((a : A) (t : S) → P a t → Ensures Q R (f a t))
      → Ensures Q R ((m >>= f) s)
  Ensures-bind m f s p q = let (r, t) = m s in Ensures-continue r t f p q

-- A property of the value, where there is one.
unfoldable pub OnOk : {E A : Type 0} → (A → Type 0) → Result E A → Type 0
OnOk P (ok a) = P a
OnOk P (err e) = Unit

pub OnOk-bind :
    {E A B : Type 0} (P : A → Type 0) (Q : B → Type 0) (r : Result E A) (f : A → Result E B)
    → OnOk P r
    → ((a : A) → P a → OnOk Q (f a))
    → OnOk Q (elim r [ err e ↦ err e | ok a ↦ f a ])
unfolding OnOk
OnOk-bind P Q (ok a) f p q = q a p
OnOk-bind P Q (err e) f p q = tt

-- A property of both outcomes of a fallible step holds of what follows it.
pub result-both :
    {E A B : Type 0} (P : B → Type 0) (r : Result E A) {f : E → B} {g : A → B}
    → ((e : E) → r ≡ err e → P (f e))
    → ((a : A) → r ≡ ok a → P (g a))
    → P (elim r [ err e ↦ f e | ok a ↦ g a ])
result-both P (err e) p q = p e refl
result-both P (ok a) p q = q a refl

-- What does not depend on a test's branches, or on those of a result.
pub if-path :
    {A B : Type 0} (f : A → B) (c : Bool) {x y x' y' : A}
    → f x ≡ f x'
    → f y ≡ f y'
    → f (if c then x else y) ≡ f (if c then x' else y')
if-path f true p q = p
if-path f false p q = q

pub result-path :
    {E A B D : Type 0} (h : B → D) (r : Result E A) {f f' : E → B} {g g' : A → B}
    → ((e : E) → h (f e) ≡ h (f' e))
    → ((a : A) → h (g a) ≡ h (g' a))
    → h (elim r [ err e ↦ f e | ok a ↦ g a ]) ≡ h (elim r [ err e ↦ f' e | ok a ↦ g' a ])
result-path h (err e) p q = p e
result-path h (ok a) p q = q a
