-- ===== src/Kv/Sorted.antt =====
-- Lists of entries in the order of their keys.
use bbdb.Base.{
  ◌≡◌, refl, sym, ap₂, ◌∙◌, inl, inr, Bool, true, false, not, ◌&&◌, List, [], ◌∷◌, ◌++◌, Option,
  none, some, if◌then◌else◌, Bool-cases, arith, some-injective, subst,
}
use bbdb.Base.Bytes.{
  Bytes, ltb_bytes, eq_bytes, eq_bytes→eq, eq_bytes_refl, ltb_bytes_trans, ltb_bytes_irrefl,
  ltb_bytes_total,
}

abbrev pub Entries : Type 0
Entries = List (Bytes × Bytes)

abbrev pub lookup : Bytes → Entries → Option Bytes
lookup q [] = none
lookup q ((k, v) ∷ es) = if eq_bytes k q then some v else lookup q es

-- lo ≤ k < hi
abbrev pub in_range : Bytes → Bytes → Bytes → Bool
in_range lo hi k = not (ltb_bytes k lo) && ltb_bytes k hi

-- Every key of the list is above `k`.
abbrev pub Above : Bytes → Entries → Type 0
Above k [] = Unit
Above k ((l, v) ∷ es) = (ltb_bytes k l ≡ true) × Above k es

abbrev pub IsSorted : Entries → Type 0
IsSorted [] = Unit
IsSorted ((k, v) ∷ es) = Above k es × IsSorted es

pub ltb→ne : (k l : Bytes) → ltb_bytes k l ≡ true → eq_bytes k l ≡ false
ltb→ne k l h = elim (Bool-cases (eq_bytes k l)) [
  | inl e ↦ cc (ltb_bytes_irrefl k, eq_bytes→eq k l e)
  | inr e ↦ e
]

pub eq_bytes_sym : (k l : Bytes) → eq_bytes k l ≡ false → eq_bytes l k ≡ false
eq_bytes_sym k l h = elim (Bool-cases (eq_bytes l k)) [
  | inl e ↦ cc (eq_bytes_refl k, eq_bytes→eq l k e)
  | inr e ↦ e
]

pub Above-trans : (k l : Bytes) (es : Entries) → ltb_bytes k l ≡ true → Above l es → Above k es
Above-trans k l [] h a = tt
Above-trans k l ((m, v) ∷ es) h a = (ltb_bytes_trans k l m h a.0, Above-trans k l es h a.1)

pub lookup-Above : (k : Bytes) (es : Entries) → Above k es → lookup k es ≡ none
lookup-Above k [] a = refl
lookup-Above k ((l, v) ∷ es) a = rw (eq_bytes_sym k l (ltb→ne k l a.0)) (lookup-Above k es a.1)

lookup_below :
    (q l : Bytes) (v : Bytes) (es : Entries)
    → ltb_bytes q l ≡ true
    → Above l es
    → lookup q ((l, v) ∷ es) ≡ none
lookup_below q l v es h a = lookup-Above q ((l, v) ∷ es) (h, Above-trans q l es h a)

lookup_head : (k v : Bytes) (es : Entries) → lookup k ((k, v) ∷ es) ≡ some v
lookup_head k v es = rw (eq_bytes_refl k)

-- Behind one head, two sorted lists that agree still agree.
lookup_tail :
    (k v w : Bytes) (es fs : Entries)
    → Above k es
    → Above k fs
    → ((q : Bytes) → lookup q ((k, v) ∷ es) ≡ lookup q ((k, w) ∷ fs))
    → (q : Bytes) → lookup q es ≡ lookup q fs
lookup_tail k v w es fs a b same q = elim (Bool-cases (eq_bytes k q)) [
  | inl e ↦ rw (← eq_bytes→eq k q e) (lookup-Above k es a ∙ sym (lookup-Above k fs b))
  | inr e ↦ ground (arith, same q)
]

-- A sorted list is determined by what it holds.
pub IsSorted-ext :
    (es fs : Entries)
    → IsSorted es
    → IsSorted fs
    → ((q : Bytes) → lookup q es ≡ lookup q fs)
    → es ≡ fs
IsSorted-ext [] [] s t same = refl
IsSorted-ext [] ((l, w) ∷ fs) s t same = cc (same l, lookup_head l w fs)
IsSorted-ext ((k, v) ∷ es) [] s t same = cc (same k, lookup_head k v es)
IsSorted-ext ((k, v) ∷ es) ((l, w) ∷ fs) s t same = elim (ltb_bytes_total k l) [
  | inl below ↦ cc (same k, lookup_head k v es, lookup_below k l w fs below t.0)
  | inr (inl e) ↦
      let same' =
        subst (λ x. (q : Bytes) → lookup q ((k, v) ∷ es) ≡ lookup q ((x, w) ∷ fs)) (sym e) same in
      let above = subst (λ x. Above x fs) (sym e) t.0 in
      ap₂ ◌∷◌
        (ap₂ (λ x y. (x, y)) e
          (some-injective v w (sym (lookup_head k v es) ∙ same' k ∙ lookup_head k w fs)))
        (IsSorted-ext es fs s.1 t.1 (lookup_tail k v w es fs s.0 above same'))
  | inr (inr below) ↦ cc (same l, lookup_head l w fs, lookup_below l k v es below s.0)
]

pub ltb_bytes_asym : (k l : Bytes) → ltb_bytes k l ≡ true → ltb_bytes l k ≡ false
ltb_bytes_asym k l h = elim (Bool-cases (ltb_bytes l k)) [
  | inl e ↦ cc (ltb_bytes_trans k l k h e, ltb_bytes_irrefl k)
  | inr e ↦ e
]

pub lookup-append :
    (q : Bytes) (es fs : Entries)
    → lookup q (es ++ fs) ≡ elim (lookup q es) [ none ↦ lookup q fs | some v ↦ some v ]
lookup-append q [] fs = refl
lookup-append q ((k, v) ∷ es) fs = ground (arith, lookup-append q es fs)

-- A property of every key that a list holds.
abbrev pub AllKeys {ℓ} : (Bytes → Type ℓ) → Entries → Type ℓ
AllKeys R es = (q v : Bytes) → lookup q es ≡ some v → R q

pub AllKeys-head {ℓ} :
    (R : Bytes → Type ℓ) (k v : Bytes) (es : Entries) → AllKeys R ((k, v) ∷ es) → R k
AllKeys-head R k v es h = h k v (lookup_head k v es)

pub AllKeys-tail {ℓ} :
    (R : Bytes → Type ℓ) (k v : Bytes) (es : Entries) → AllKeys R ((k, v) ∷ es) → AllKeys R es
AllKeys-tail R k v es h q w e = elim (Bool-cases (eq_bytes k q)) [
  | inl t ↦ h q v (rw t)
  | inr f ↦ h q w (rw f e)
]

Above-snoc :
    (k l v : Bytes) (es : Entries) → Above k es → ltb_bytes k l ≡ true → Above k (es ++ (l, v) ∷ [])
Above-snoc k l v [] a h = (h, tt)
Above-snoc k l v ((m, w) ∷ es) a h = (a.0, Above-snoc k l v es a.1 h)

-- An entry above all the others goes to the end.
pub snoc-IsSorted :
    (l v : Bytes) (es : Entries)
    → IsSorted es
    → AllKeys (λ q. ltb_bytes q l ≡ true) es
    → IsSorted (es ++ (l, v) ∷ [])
snoc-IsSorted l v [] s h = (tt, tt)
snoc-IsSorted l v ((k, w) ∷ es) s h = (
  Above-snoc k l v es s.0 (AllKeys-head (λ q. ltb_bytes q l ≡ true) k w es h),
  snoc-IsSorted l v es s.1 (AllKeys-tail (λ q. ltb_bytes q l ≡ true) k w es h),
)
