-- ===== src/Base/State.antt =====
-- A step that may fail, over a state: what failed keeps the state that it had reached.
pub mod Keeps
use mathlib.Core.Path.{◌≡◌, refl}
use native.Mathlib.Omega.{arith}
use bbdb.Base.Errors.{Error, Result, ok, err}

abbrev pub St : Type 0 → Type 0 → Type 0
St S A = S → Result A × S

module _ {S : Type 0} where
  abbrev pub pure : {A : Type 0} → A → St S A
  pure a s = (ok a, s)

  abbrev pub fail : {A : Type 0} → Error → St S A
  fail e s = (err e, s)

  abbrev pub after : {A B : Type 0} → (A → St S B) → Result A × S → Result B × S
  after f (ok a, s) = f a s
  after f (err e, s) = (err e, s)

  -- Cleaning up behind an error, whatever becomes of the clean-up itself.
  abbrev pub clean_up : {A B : Type 0} → St S B → Result A × S → Result A × S
  clean_up c (ok a, s) = (ok a, s)
  clean_up c (err e, s) = (err e, (c s).1)

  infixl 5 ◌>>=◌ ◌>>◌ ◌or_else◌
  abbrev pub ◌>>=◌ : {A B : Type 0} → St S A → (A → St S B) → St S B
  ◌>>=◌ m f s = after f (m s)

  abbrev pub ◌>>◌ : {A B : Type 0} → St S A → St S B → St S B
  m >> k = m >>= λ _. k

  abbrev pub ◌or_else◌ : {A B : Type 0} → St S A → St S B → St S A
  ◌or_else◌ m c s = clean_up c (m s)

  abbrev pub lift : {A : Type 0} → Result A → St S A
  lift r s = (r, s)

  -- A chain that succeeds has steps that succeed.
  pub after-eq-ok :
      {A B : Type 0} (f : A → St S B) (p : Result A × S) (b : B) (s' : S)
      → after f p ≡ (ok b, s')
      → (a : A) × (s : S) × (p ≡ (ok a, s)) × (f a s ≡ (ok b, s'))
  after-eq-ok f (ok a, s) b s' h = (a, s, refl, h)
  after-eq-ok f (err e, s) b s' h = absurd (ground arith)
