-- ===== src/Kv/Memory.antt =====
-- An engine in memory that never fails, as an instance of the parameter of Kv.
use bbdb.Base.{
  ◌≡◌, refl, sym, ap, fun_ext, ◌∙◌, ◌⊎◌, inl, inr, Bool, true, false, not, List, [], ◌∷◌, none,
  some, if◌then◌else◌, Bool-cases, arith, ok, subst, ok-injective, All,
}
use bbdb.Base.Bytes.{
  Bytes, IsByte, ltb_bytes, eq_bytes, eq_bytes→eq, eq_bytes_refl, ltb_bytes_total, ltb_bytes_irrefl,
}
use bbdb.Kv.Sorted.{Entries, lookup, in_range, Above, IsSorted, Above-trans, ltb→ne, ltb_bytes_asym}
use bbdb.Kv.{Mutation, set_key, delete_key, delete_range, apply, apply_all, Pebble}

pub insert : Bytes → Bytes → Entries → Entries
insert k v [] = (k, v) ∷ []
insert k v ((l, w) ∷ es) =
    if ltb_bytes l k
    then (l, w) ∷ insert k v es
    else if eq_bytes k l
    then (k, v) ∷ es
    else (k, v) ∷ (l, w) ∷ es

pub remove_if : (Bytes → Bool) → Entries → Entries
remove_if p [] = []
remove_if p ((l, w) ∷ es) = if p l then remove_if p es else (l, w) ∷ remove_if p es

-- `eq_bytes` on one side decides it on the other.
eq_cases : (k l : Bytes) → ((k ≡ l) × (eq_bytes k l ≡ true)) ⊎ (eq_bytes k l ≡ false)
eq_cases k l = elim (Bool-cases (eq_bytes k l)) [
  | inl e ↦ inl (eq_bytes→eq k l e, e)
  | inr e ↦ inr e
]

lookup-insert :
    (k v q : Bytes) (es : Entries)
    → lookup q (insert k v es) ≡ (if eq_bytes k q then some v else lookup q es)
unfolding insert
lookup-insert k v q [] = refl
lookup-insert k v q ((l, w) ∷ es) = elim (eq_cases k q) [
  | inl (e, t) ↦ elim (ltb_bytes_total l k) [
    | inl lt ↦ ground (arith, lt, t, ltb→ne l k lt, lookup-insert k v q es)
    | inr (inl le) ↦ rw (le, ltb_bytes_irrefl k, eq_bytes_refl k, t)
    | inr (inr gt) ↦ rw (ltb_bytes_asym k l gt, ltb→ne k l gt, t)
  ]
  | inr ne ↦ elim (ltb_bytes_total l k) [
    | inl lt ↦ ground (arith, lookup-insert k v q es, lt, ne)
    | inr (inl le) ↦ rw (le, ltb_bytes_irrefl k, eq_bytes_refl k, ne)
    | inr (inr gt) ↦ rw (ltb_bytes_asym k l gt, ltb→ne k l gt, ne)
  ]
]

Above-insert :
    (m k v : Bytes) (es : Entries) → ltb_bytes m k ≡ true → Above m es → Above m (insert k v es)
unfolding insert
Above-insert m k v [] h a = (h, tt)
Above-insert m k v ((l, w) ∷ es) h a = ground (arith, Above-insert m k v es h a.1)

pub insert-IsSorted : (k v : Bytes) (es : Entries) → IsSorted es → IsSorted (insert k v es)
unfolding insert
insert-IsSorted k v [] s = (tt, tt)
insert-IsSorted k v ((l, w) ∷ es) s = elim (ltb_bytes_total l k) [
  | inl lt ↦ rw lt (Above-insert l k v es lt s.0, insert-IsSorted k v es s.1)
  | inr (inl e) ↦ rw (e, ltb_bytes_irrefl k, eq_bytes_refl k) (subst (λ x. Above x es) e s.0, s.1)
  | inr (inr gt) ↦ rw (ltb_bytes_asym k l gt, ltb→ne k l gt) ((gt, Above-trans k l es gt s.0), s)
]

pub lookup-remove_if :
    (p : Bytes → Bool) (q : Bytes) (es : Entries)
    → lookup q (remove_if p es) ≡ (if p q then none else lookup q es)
unfolding remove_if
lookup-remove_if p q [] = ground arith
lookup-remove_if p q ((l, w) ∷ es) = elim (eq_cases l q) [
  | inl (e, t) ↦ rw (t, e) (ground (arith, lookup-remove_if p q es, eq_bytes_refl q))
  | inr ne ↦ ground (arith, lookup-remove_if p q es)
]

Above-remove_if :
    (p : Bytes → Bool) (m : Bytes) (es : Entries) → Above m es → Above m (remove_if p es)
unfolding remove_if
Above-remove_if p m [] a = tt
Above-remove_if p m ((l, w) ∷ es) a = ground (arith, Above-remove_if p m es a.1)

pub remove_if-IsSorted : (p : Bytes → Bool) (es : Entries) → IsSorted es → IsSorted (remove_if p es)
unfolding remove_if
remove_if-IsSorted p [] s = tt
remove_if-IsSorted p ((l, w) ∷ es) s =
    ground (arith, remove_if-IsSorted p es s.1, Above-remove_if p l es s.0)

pub record Table : Type 0 where
  pub entries : Entries
  pub sorted : IsSorted entries

pub run_one : Mutation → Table → Table
run_one (set_key k v) t = record {
  entries = insert k v t.entries;
  sorted = insert-IsSorted k v t.entries t.sorted;
}
run_one (delete_key k) t = record {
  entries = remove_if (eq_bytes k) t.entries;
  sorted = remove_if-IsSorted (eq_bytes k) t.entries t.sorted;
}
run_one (delete_range lo hi) t = record {
  entries = remove_if (in_range lo hi) t.entries;
  sorted = remove_if-IsSorted (in_range lo hi) t.entries t.sorted;
}

unfoldable pub run_all : List Mutation → Table → Table
unfolding run_one insert remove_if
run_all [] t = t
run_all (m ∷ ms) t = run_all ms (run_one m t)

lookup-run_one :
    (m : Mutation) (t : Table) (q : Bytes)
    → lookup q (run_one m t).entries ≡ apply m (λ k. lookup k t.entries) q
unfolding run_one
lookup-run_one (set_key k v) t q = lookup-insert k v q t.entries
lookup-run_one (delete_key k) t q = lookup-remove_if (eq_bytes k) q t.entries
lookup-run_one (delete_range lo hi) t q = lookup-remove_if (in_range lo hi) q t.entries

pub lookup-run_all :
    (ms : List Mutation) (t : Table) (q : Bytes)
    → lookup q (run_all ms t).entries ≡ apply_all ms (λ k. lookup k t.entries) q
unfolding run_all
lookup-run_all [] t q = refl
lookup-run_all (m ∷ ms) t q =
    lookup-run_all ms (run_one m t) q ∙ ap (λ f. apply_all ms f q) (fun_ext (lookup-run_one m t))

unfoldable pub scan_range : Table → Bytes → Bytes → Entries
unfolding remove_if
scan_range t lo hi = remove_if (λ k. not (in_range lo hi k)) t.entries

pub scan_range-IsSorted : (t : Table) (lo hi : Bytes) → IsSorted (scan_range t lo hi)
unfolding scan_range
scan_range-IsSorted t lo hi = remove_if-IsSorted (λ k. not (in_range lo hi k)) t.entries t.sorted

pub lookup-scan_range :
    (t : Table) (lo hi k : Bytes)
    → lookup k (scan_range t lo hi) ≡ (if in_range lo hi k then lookup k t.entries else none)
unfolding scan_range
lookup-scan_range t lo hi k =
    ground (arith, lookup-remove_if (λ k. not (in_range lo hi k)) k t.entries)

unfoldable pub empty_table : Table
empty_table = record { entries = []; sorted = tt }

abbrev pub memory : Pebble
memory = record {
  Db = Table;
  content = λ t k. lookup k t.entries;
  get = λ t k. ok (lookup k t.entries);
  scan = λ t lo hi. ok (scan_range t lo hi);
  commit = λ t ms. ok (run_all ms t);
  get_lem = λ t k o e. sym (ok-injective _ _ e);
  scan-IsSorted = λ t lo hi es e. subst IsSorted (ok-injective _ _ e) (scan_range-IsSorted t lo hi);
  scan_lem = λ t lo hi es e k.
      subst (λ x. lookup k x ≡ (if in_range lo hi k then lookup k t.entries else none))
        (ok-injective _ _ e) (lookup-scan_range t lo hi k);
  commit_lem = λ t ms t' e k.
      subst (λ x. lookup k x.entries ≡ apply_all ms (λ j. lookup j t.entries) k)
        (ok-injective _ _ e) (lookup-run_all ms t k);
}

-- The keys that a lookup finds are bytes if those of the entries are.
pub keys-AreBytes :
    (es : Entries)
    → All (λ e. All IsByte e.0) es
    → (q v : Bytes) → lookup q es ≡ some v
    → All IsByte q
keys-AreBytes [] h q v e = absurd (ground (arith, e))
keys-AreBytes ((k, w) ∷ es) h q v e = elim (Bool-cases (eq_bytes k q)) [
  | inl t ↦ subst (All IsByte) (eq_bytes→eq k q t) h.0
  | inr f ↦ keys-AreBytes es h.1 q v (rw f at e)
]
