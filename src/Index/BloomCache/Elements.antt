-- ===== src/Index/BloomCache/Elements.antt =====
-- The elements of the list of a bloom cache.
use bbdb.Base.{
  ℕ, suc, ◌+◌, ◌≡◌, ◌≢◌, ◌⊎◌, refl, sym, ap, ◌∙◌, List, [], ◌∷◌, true, false, some, ◌==◌, arith,
  All, inl, inr, Bool-cases, length, subst, some-injective,
}
use bbdb.Index.BloomCache.{Element, remove_mark, has_mark, back}

module _ {F : Type 0} where
  abbrev pub total_size : List (Element F) → ℕ
  total_size [] = 0
  total_size (e ∷ es) = e.size + total_size es

  abbrev pub In : Element F → List (Element F) → Type 0
  In e [] = ⊥
  In e (x ∷ xs) = (x ≡ e) ⊎ In e xs

  -- No two elements have one address.
  abbrev pub Distinct : List (Element F) → Type 0
  Distinct [] = Unit
  Distinct (e ∷ es) = All (λ f. f.mark ≢ e.mark) es × Distinct es

  pub All-In :
      (P : Element F → Type 0) (e : Element F) (es : List (Element F)) → All P es → In e es → P e
  All-In P e [] a i = absurd i
  All-In P e (x ∷ xs) a (inl h) = subst P h a.0
  All-In P e (x ∷ xs) a (inr i) = All-In P e xs a.1 i

  pub All-remove_mark :
      (P : Element F → Type 0) (m : ℕ) (es : List (Element F)) → All P es → All P (remove_mark m es)
  unfolding remove_mark
  All-remove_mark P m [] a = tt
  All-remove_mark P m (e ∷ es) a = elim (Bool-cases (e.mark == m)) [
    | inl t ↦ rw t a.1
    | inr f ↦ rw f (a.0, All-remove_mark P m es a.1)
  ]

  pub Distinct-remove_mark :
      (m : ℕ) (es : List (Element F)) → Distinct es → Distinct (remove_mark m es)
  unfolding remove_mark
  Distinct-remove_mark m [] d = tt
  Distinct-remove_mark m (e ∷ es) d = elim (Bool-cases (e.mark == m)) [
    | inl t ↦ rw t d.1
    | inr f ↦ rw f (All-remove_mark _ m es d.0, Distinct-remove_mark m es d.1)
  ]

  pub remove_mark-ne :
      (m : ℕ) (es : List (Element F)) → Distinct es → All (λ f. f.mark ≢ m) (remove_mark m es)
  unfolding remove_mark
  remove_mark-ne m [] d = tt
  remove_mark-ne m (e ∷ es) d = elim (Bool-cases (e.mark == m)) [
    | inl t ↦ rw t (subst (λ n. All (λ f. f.mark ≢ n) es) (ground (arith, t)) d.0)
    | inr f ↦ rw f (ground (arith, f), remove_mark-ne m es d.1)
  ]

  pub In-remove_mark :
      (f : Element F) (m : ℕ) (es : List (Element F))
      → In f es
      → f.mark ≢ m
      → In f (remove_mark m es)
  unfolding remove_mark
  In-remove_mark f m [] i ne = absurd i
  In-remove_mark f m (e ∷ es) (inl h) ne =
      let g : (e.mark == m) ≡ false = ground (arith, ne, ap (λ x. x.mark) h) in rw g (inl h)
  In-remove_mark f m (e ∷ es) (inr i) ne = elim (Bool-cases (e.mark == m)) [
    | inl t ↦ rw t i
    | inr g ↦ rw g (inr (In-remove_mark f m es i ne))
  ]

  pub has_mark-In : (e : Element F) (es : List (Element F)) → In e es → has_mark e.mark es ≡ true
  unfolding has_mark
  has_mark-In e [] i = absurd i
  has_mark-In e (x ∷ xs) (inl h) = ground (arith, ap (λ y. y.mark) h)
  has_mark-In e (x ∷ xs) (inr i) = ground (arith, has_mark-In e xs i)

  -- One address, one element.
  pub In-unique :
      (e f : Element F) (es : List (Element F))
      → Distinct es
      → In e es
      → In f es
      → e.mark ≡ f.mark
      → e ≡ f
  In-unique e f [] d i j same = absurd i
  In-unique e f (x ∷ xs) d (inl h) (inl k) same = sym h ∙ k
  In-unique e f (x ∷ xs) d (inl h) (inr j) same =
      absurd (All-In _ f xs d.0 j (sym same ∙ sym (ap (λ y. y.mark) h)))
  In-unique e f (x ∷ xs) d (inr i) (inl k) same =
      absurd (All-In _ e xs d.0 i (same ∙ sym (ap (λ y. y.mark) k)))
  In-unique e f (x ∷ xs) d (inr i) (inr j) same = In-unique e f xs d.1 i j same

  pub total_size-remove_mark :
      (e : Element F) (es : List (Element F))
      → Distinct es
      → In e es
      → total_size es ≡ e.size + total_size (remove_mark e.mark es)
  unfolding remove_mark
  total_size-remove_mark e [] d i = absurd i
  total_size-remove_mark e (x ∷ xs) d (inl h) =
      ground (arith, ap (λ y. y.mark) h, ap (λ y. y.size) h)
  total_size-remove_mark e (x ∷ xs) d (inr i) =
      ground (arith, All-In _ e xs d.0 i, total_size-remove_mark e xs d.1 i)

  pub length-remove_mark :
      (e : Element F) (es : List (Element F))
      → In e es
      → length es ≡ suc (length (remove_mark e.mark es))
  unfolding remove_mark
  length-remove_mark e [] i = absurd i
  length-remove_mark e (x ∷ xs) (inl h) = ground (arith, ap (λ y. y.mark) h)
  length-remove_mark e (x ∷ xs) (inr i) = elim (Bool-cases (x.mark == e.mark)) [
    | inl t ↦ rw t refl
    | inr f ↦ rw f (ap suc (length-remove_mark e xs i))
  ]

  pub back-In : (e : Element F) (es : List (Element F)) → back es ≡ some e → In e es
  unfolding back
  back-In e [] h = absurd (ground (arith, h))
  back-In e (x ∷ []) h = inl (some-injective _ _ h)
  back-In e (x ∷ y ∷ es) h = inr (back-In e (y ∷ es) h)
