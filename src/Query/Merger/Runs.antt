-- ===== src/Query/Merger/Runs.antt =====
-- Runs of events in lists, cut and in another order.
use mathlib.Core.List.{Perm, Permᴰ, Pairwise, Pairwise-cons, perm_append_comm}
use mathlib.Core.List.Perm
use mathlib.Core.Logic.{∥∥₁_elim}
use native.Mathlib.Nat.{ℕ_set}
use bbdb.Base.{
  ℕ, zero, suc, ◌≤◌, ◌≡◌, refl, ap, ◌∙◌, subst, List, [], ◌∷◌, ◌++◌, some, arith, length, get_elem?,
  drop, append_assoc,
}
use bbdb.Block.Event.{Event, NotAfter}

length-Permᴰ {ℓ} : {A : Type ℓ} {xs ys : List A} → Permᴰ xs ys → length xs ≡ length ys
length-Permᴰ Permᴰ.nil = refl
length-Permᴰ (Permᴰ.cons e d) = ap suc (length-Permᴰ d)
length-Permᴰ (Permᴰ.swap e f) = refl
length-Permᴰ (Permᴰ.trans d f) = length-Permᴰ d ∙ length-Permᴰ f

pub length-Perm {ℓ} : {A : Type ℓ} {xs ys : List A} → Perm xs ys → length xs ≡ length ys
length-Perm h = ∥∥₁_elim h (ℕ_set _ _) length-Permᴰ

pub drop-get_elem? :
    (xs : List Event) (p q : ℕ) (e : Event)
    → get_elem? xs p ≡ some e
    → q ≡ suc p
    → drop p xs ≡ e ∷ drop q xs
drop-get_elem? [] p q e h k = cc
drop-get_elem? (x ∷ xs) p zero e h k = absurd (omega arith)
drop-get_elem? (x ∷ xs) zero (suc zero) e h k = ground (arith, h)
drop-get_elem? (x ∷ xs) zero (suc (suc q)) e h k = absurd (omega arith)
drop-get_elem? (x ∷ xs) (suc p) (suc q) e h k = drop-get_elem? xs p q e h (omega arith)

pub drop-Pairwise : (n : ℕ) (xs : List Event) → Pairwise NotAfter xs → Pairwise NotAfter (drop n xs)
drop-Pairwise zero xs s = s
drop-Pairwise (suc n) [] s = s
drop-Pairwise (suc n) (x ∷ xs) s = drop-Pairwise n xs (Pairwise-cons.0 s).1

pub drop_all : (n : ℕ) (xs : List Event) → length xs ≤ n → drop n xs ≡ []
drop_all zero [] h = refl
drop_all zero (x ∷ xs) h = absurd (omega arith)
drop_all (suc n) [] h = refl
drop_all (suc n) (x ∷ xs) h = drop_all n xs (omega arith)

-- Two runs change places.
pub runs-swap : (xs ys zs : List Event) → Perm (xs ++ (ys ++ zs)) (ys ++ (xs ++ zs))
runs-swap xs ys zs =
    subst (λ l. Perm l (ys ++ (xs ++ zs))) (append_assoc xs ys zs)
      (subst (λ l. Perm ((xs ++ ys) ++ zs) l) (append_assoc ys xs zs)
        (Perm.append_right zs (perm_append_comm xs ys)))
