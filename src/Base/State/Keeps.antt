-- ===== src/Base/State/Keeps.antt =====
-- Relations between the states before and after a step.
use mathlib.Core.Path.{◌≡◌, refl}
use native.Mathlib.Omega.{arith}
use bbdb.Base.Errors.{Error, Result, ok, err}
use bbdb.Base.State.{St, after, clean_up, ◌>>=◌, ◌>>◌, ◌or_else◌, pure, lift}

module _ {S : Type 0} (R : S → S → Type 0) where
  -- Whatever comes of the step.
  abbrev pub Keeps : {A : Type 0} → St S A → Type 0
  Keeps m = (s : S) → R s (m s).1

  -- Where the step fails.
  abbrev pub KeepsOnErr : {A : Type 0} → St S A → Type 0
  KeepsOnErr m = (s : S) (e : Error) → (m s).0 ≡ err e → R s (m s).1

  module _ (R_refl : (s : S) → R s s) (R_trans : (s t u : S) → R s t → R t u → R s u) where
    pub Keeps-bind :
        {A B : Type 0} (m : St S A) (f : A → St S B)
        → Keeps m
        → ((a : A) → Keeps (f a))
        → Keeps (m >>= f)
    Keeps-bind {A} m f k l s = go (m s) (k s)
      where
        go : (p : Result A × S) → R s p.1 → R s (after f p).1
        go (ok a, t) r = R_trans s t _ r (l a t)
        go (err e, t) r = r

    pub Keeps-then : {A B : Type 0} (m : St S A) (c : St S B) → Keeps m → Keeps c → Keeps (m >> c)
    Keeps-then m c k l = Keeps-bind m (λ a. c) k (λ a. l)

    pub Keeps-or_else :
        {A B : Type 0} (m : St S A) (c : St S B) → Keeps m → Keeps c → Keeps (m or_else c)
    Keeps-or_else {A} m c k l s = go (m s) (k s)
      where
        go : (p : Result A × S) → R s p.1 → R s (clean_up c p).1
        go (ok a, t) r = r
        go (err e, t) r = R_trans s t _ r (l t)

    pub Keeps-lift : {A : Type 0} (r : Result A) → Keeps (lift r)
    Keeps-lift r s = R_refl s

    pub KeepsOnErr-bind :
        {A B : Type 0} (m : St S A) (f : A → St S B)
        → Keeps m
        → ((a : A) → KeepsOnErr (f a))
        → KeepsOnErr (m >>= f)
    KeepsOnErr-bind {A} m f k l s = go (m s) (k s)
      where
        go : (p : Result A × S) → R s p.1 → (e : Error) → (after f p).0 ≡ err e → R s (after f p).1
        go (ok a, t) r e h = R_trans s t _ r (l a t e h)
        go (err x, t) r e h = r

    pub KeepsOnErr-pure :
        {A B : Type 0} (m : St S A) (b : B) → KeepsOnErr m → KeepsOnErr (m >> pure b)
    KeepsOnErr-pure {A} {B} m b k s = go (m s) (k s)
      where
        go :
            (p : Result A × S)
            → ((e : Error) → p.0 ≡ err e → R s p.1)
            → (e : Error) → (after (λ a. pure b) p).0 ≡ err e
            → R s (after (λ a. pure b) p).1
        go (ok a, t) l e h = absurd (ground (arith, h))
        go (err x, t) l e h = l x refl
