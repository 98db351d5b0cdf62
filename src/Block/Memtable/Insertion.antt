-- ===== src/Block/Memtable/Insertion.antt =====
-- Insertion sort, as an instance of the parameter for `sort.Slice`.
use mathlib.Core.List.{Perm, Pairwise, mem-cons, not-mem-nil, Pairwise-cons}
use mathlib.Core.List.Perm
use mathlib.Core.Logic.Or
use bbdb.Base.{
  ℕ, ◌≡◌, ap, ◌∙◌, Bool, true, false, List, [], ◌∷◌, if◌then◌else◌, Bool-cases, inl, inr,
}
use bbdb.Block.Event.{IsStrictWeak}
use bbdb.Block.Memtable.{SortSlice}

pub insert : {A : Type 0} → (A → A → Bool) → A → List A → List A
insert lt x [] = x ∷ []
insert lt x (y ∷ ys) = let rest = insert lt x ys in if lt y x then y ∷ rest else x ∷ y ∷ ys

unfoldable pub insertion_sort : (ℕ → ℕ → Bool) → List ℕ → List ℕ
unfolding insert
insertion_sort lt [] = []
insertion_sort lt (x ∷ xs) = insert lt x (insertion_sort lt xs)

pub insert-perm :
    {A : Type 0} (lt : A → A → Bool) (x : A) (ys : List A) → Perm (insert lt x ys) (x ∷ ys)
unfolding insert
insert-perm lt x [] = Perm.refl (x ∷ [])
insert-perm lt x (y ∷ ys) = elim (Bool-cases (lt y x)) [
  | inl t ↦ rw t (Perm.trans (Perm.cons y (insert-perm lt x ys)) (Perm.swap x y ys))
  | inr f ↦ rw f (Perm.refl (x ∷ y ∷ ys))
]

pub insertion_sort-perm : (lt : ℕ → ℕ → Bool) (xs : List ℕ) → Perm (insertion_sort lt xs) xs
unfolding insertion_sort
insertion_sort-perm lt [] = Perm.nil
insertion_sort-perm lt (x ∷ xs) =
    Perm.trans (insert-perm lt x (insertion_sort lt xs)) (Perm.cons x (insertion_sort-perm lt xs))

module _ {A : Type 0} (lt : A → A → Bool) (w : IsStrictWeak lt) where
  abbrev pub NotBelow : A → A → Type 0
  NotBelow a b = lt b a ≡ false

  asym : (a b : A) → lt a b ≡ true → lt b a ≡ false
  asym a b h = elim (Bool-cases (lt b a)) [ inl t ↦ cc (w.trans a b a h t, w.irrefl a) | inr f ↦ f ]

  pub insert-IsSorted :
      (x : A) (ys : List A) → Pairwise NotBelow ys → Pairwise NotBelow (insert lt x ys)
  unfolding insert
  insert-IsSorted x [] s = Pairwise.cons (λ z m. absurd (not-mem-nil m)) Pairwise.nil
  insert-IsSorted x (y ∷ ys) s = elim (Bool-cases (lt y x)) [
    | inl t ↦ rw t (
        Pairwise.cons
          (λ z m.
            Or.elim (hlevel) (mem-cons.0 ((Perm.mem_iff (insert-perm lt x ys)).0 m))
              (λ e. ap (λ q. lt q y) e ∙ asym y x t) ((Pairwise-cons.0 s).0 z))
          (insert-IsSorted x ys (Pairwise-cons.0 s).1))
    | inr f ↦ rw f (
        Pairwise.cons
          (λ z m.
            Or.elim (hlevel) (mem-cons.0 m) (λ e. ap (λ q. lt q x) e ∙ f)
              (λ m'. w.weak z y x ((Pairwise-cons.0 s).0 z m') f))
          s)
  ]

pub insertion_sort-IsSorted :
    (lt : ℕ → ℕ → Bool) (w : IsStrictWeak lt) (xs : List ℕ)
    → Pairwise (NotBelow lt w) (insertion_sort lt xs)
unfolding insertion_sort
insertion_sort-IsSorted lt w [] = Pairwise.nil
insertion_sort-IsSorted lt w (x ∷ xs) =
    insert-IsSorted lt w x (insertion_sort lt xs) (insertion_sort-IsSorted lt w xs)

abbrev pub insertion : SortSlice
unfolding insertion_sort
insertion = record {
  sort_slice = insertion_sort;
  sort_slice-perm = insertion_sort-perm;
  sort_slice-sorted = λ lt xs w. insertion_sort-IsSorted lt w xs;
}
