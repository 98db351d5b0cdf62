-- ===== src/Query/Engine/Kept.antt =====
-- The rows that match, in another order and in order.
use mathlib.Core.List.{
  Mem, Perm, Permᴰ, Pairwise, Pairwise-cons, mem-cons, mem-cons_of_mem, Mem-prop, Perm-prop,
}
use mathlib.Core.List.Perm
use mathlib.Core.Logic.{∥∥₁_elim}
use mathlib.Core.Logic.Or
use bbdb.Base.{subst, inl, inr, List, [], ◌∷◌, Bool, Bool-cases}
use bbdb.Block.Event.{Event, NotAfter}
use bbdb.Query.BlockReader.Sealed.{keep_if}

module _ (p : Event → Bool) where
  keep_if-Permᴰ : {xs ys : List Event} → Permᴰ xs ys → Perm (keep_if p xs) (keep_if p ys)
  keep_if-Permᴰ Permᴰ.nil = Perm.nil
  keep_if-Permᴰ (Permᴰ.cons {a = a} {b = b} {l₁ = xs} {l₂ = ys} e d) =
      subst (λ y. Perm (keep_if p (a ∷ xs)) (keep_if p (y ∷ ys))) e
        (elim (Bool-cases (p a)) [
          | inl t ↦ rw t (Perm.cons a (keep_if-Permᴰ d))
          | inr f ↦ rw f (keep_if-Permᴰ d)
        ])
  keep_if-Permᴰ (Permᴰ.swap {a = a} {b = b} {a' = a'} {b' = b'} {l = xs} e f) =
      subst (λ x. Perm (keep_if p (a ∷ b ∷ xs)) (keep_if p (x ∷ b' ∷ xs))) f
        (subst (λ y. Perm (keep_if p (a ∷ b ∷ xs)) (keep_if p (b ∷ y ∷ xs))) e
          (elim (Bool-cases (p a)) [
            | inl t ↦ elim (Bool-cases (p b)) [
              | inl u ↦ rw (t, u) (Perm.swap b a (keep_if p xs))
              | inr u ↦ rw (t, u) (Perm.refl (a ∷ keep_if p xs))
            ]
            | inr t ↦ elim (Bool-cases (p b)) [
              | inl u ↦ rw (t, u) (Perm.refl (b ∷ keep_if p xs))
              | inr u ↦ rw (t, u) (Perm.refl (keep_if p xs))
            ]
          ]))
  keep_if-Permᴰ (Permᴰ.trans d f) = Perm.trans (keep_if-Permᴰ d) (keep_if-Permᴰ f)

  pub keep_if-Perm : {xs ys : List Event} → Perm xs ys → Perm (keep_if p xs) (keep_if p ys)
  keep_if-Perm h = ∥∥₁_elim h Perm-prop keep_if-Permᴰ

  keep_if-Mem : (xs : List Event) {e : Event} → Mem e (keep_if p xs) → Mem e xs
  keep_if-Mem [] m = m
  keep_if-Mem (x ∷ xs) m = elim (Bool-cases (p x)) [
    | inl t ↦
        Or.elim (Mem-prop) (mem-cons.0 (rw t at m)) (λ q. mem-cons.1 (Or.inl q))
          (λ n. mem-cons_of_mem x (keep_if-Mem xs n))
    | inr f ↦ mem-cons_of_mem x (keep_if-Mem xs (rw f at m))
  ]

  pub keep_if-IsSorted : (xs : List Event) → Pairwise NotAfter xs → Pairwise NotAfter (keep_if p xs)
  keep_if-IsSorted [] s = s
  keep_if-IsSorted (x ∷ xs) s = elim (Bool-cases (p x)) [
    | inl t ↦ rw t (
        Pairwise.cons (λ e m. (Pairwise-cons.0 s).0 e (keep_if-Mem xs m))
          (keep_if-IsSorted xs (Pairwise-cons.0 s).1))
    | inr f ↦ rw f (keep_if-IsSorted xs (Pairwise-cons.0 s).1)
  ]
