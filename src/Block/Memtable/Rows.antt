-- ===== src/Block/Memtable/Rows.antt =====
-- The rows of a memtable under its operations.
use mathlib.Core.List.{Perm, Pairwise, Pairwise-map}
use mathlib.Core.List.Perm
use mathlib.Core.List.{Permᴰ}
use mathlib.Core.Logic.{∥∥₁_elim}
use native.Mathlib.Nat.{ℕ_set}
use bbdb.Base.{
  ℕ, zero, suc, ◌+◌, ◌≡◌, refl, sym, ap, ◌∙◌, List, [], ◌∷◌, ◌++◌, map, arith, length, get_or,
  range_from, length-append, length-map, subst,
}
use bbdb.Base.Int.{ℤ, pos}
use bbdb.Base.Bytes.{Bytes}
use bbdb.Block.Event.{Event, NotAfter, less_by-IsStrictWeak}
use bbdb.Block.Memtable.{
  Memtable, new_memtable, append, len, SortSlice, row_less, sort, row_at, rows,
}

abbrev pub row : ℕ → ℤ → Bytes → Event
row k t p = record { key_hash = k; timestamp = t; payload = p }

-- The three columns side by side.
abbrev pub zip_rows : List ℕ → List ℤ → List Bytes → List Event
zip_rows [] ts ps = []
zip_rows (k ∷ ks) [] ps = []
zip_rows (k ∷ ks) (t ∷ ts) [] = []
zip_rows (k ∷ ks) (t ∷ ts) (p ∷ ps) = row k t p ∷ zip_rows ks ts ps

abbrev pub payload_bytes : List Bytes → ℕ
payload_bytes [] = 0
payload_bytes (p ∷ ps) = 16 + length p + payload_bytes ps

-- The columns have one length, and the size estimate is the sum over the rows.
pub record IsMemtable (m : Memtable) : Type 0 where
  pub timestamps : length m.timestamps ≡ length m.key_hashes
  pub payloads : length m.payloads ≡ length m.key_hashes
  pub approx_bytes : m.approx_bytes ≡ payload_bytes m.payloads

payload_bytes-append :
    (ps : List Bytes) (p : Bytes)
    → payload_bytes (ps ++ p ∷ []) ≡ payload_bytes ps + (16 + length p)
payload_bytes-append [] p = omega arith
payload_bytes-append (q ∷ ps) p = omega (arith, payload_bytes-append ps p)

pub new_memtable-IsMemtable : IsMemtable new_memtable
unfolding new_memtable
new_memtable-IsMemtable = omega arith

pub append-IsMemtable : (m : Memtable) (e : Event) → IsMemtable m → IsMemtable (append m e)
unfolding append
append-IsMemtable m e v = omega (
  arith,
  length-append m.key_hashes (e.key_hash ∷ []),
  length-append m.timestamps (e.timestamp ∷ []),
  length-append m.payloads (e.payload ∷ []),
  payload_bytes-append m.payloads e.payload,
)

map-range_from-suc {ℓ} :
    {A : Type ℓ} (f : ℕ → A) (i n : ℕ)
    → map f (range_from (suc i) n) ≡ map (λ k. f (suc k)) (range_from i n)
map-range_from-suc f i zero = refl
map-range_from-suc f i (suc n) = ap (◌∷◌ (f (suc i))) (map-range_from-suc f (suc i) n)

zip_rows-eq :
    (ks : List ℕ) (ts : List ℤ) (ps : List Bytes)
    → length ts ≡ length ks
    → length ps ≡ length ks
    → map
        (λ i. row (get_or ks i 0) (get_or ts i (pos 0)) (get_or ps i []))
        (range_from 0 (length ks))
      ≡ zip_rows ks ts ps
zip_rows-eq [] ts ps h g = refl
zip_rows-eq (k ∷ ks) [] ps h g = absurd (omega arith)
zip_rows-eq (k ∷ ks) (t ∷ ts) [] h g = absurd (omega arith)
zip_rows-eq (k ∷ ks) (t ∷ ts) (p ∷ ps) h g =
    ap (◌∷◌ (row k t p))
      (map-range_from-suc _ 0 (length ks) ∙ zip_rows-eq ks ts ps (omega arith) (omega arith))

pub rows-zip_rows :
    (m : Memtable) → IsMemtable m → rows m ≡ zip_rows m.key_hashes m.timestamps m.payloads
unfolding rows
rows-zip_rows m v = zip_rows-eq m.key_hashes m.timestamps m.payloads v.timestamps v.payloads

zip_rows-append :
    (ks : List ℕ) (ts : List ℤ) (ps : List Bytes) (e : Event)
    → length ts ≡ length ks
    → length ps ≡ length ks
    → zip_rows (ks ++ e.key_hash ∷ []) (ts ++ e.timestamp ∷ []) (ps ++ e.payload ∷ [])
      ≡ zip_rows ks ts ps ++ e ∷ []
zip_rows-append [] [] [] e h g = refl
zip_rows-append [] [] (p ∷ ps) e h g = absurd (omega arith)
zip_rows-append [] (t ∷ ts) ps e h g = absurd (omega arith)
zip_rows-append (k ∷ ks) [] ps e h g = absurd (omega arith)
zip_rows-append (k ∷ ks) (t ∷ ts) [] e h g = absurd (omega arith)
zip_rows-append (k ∷ ks) (t ∷ ts) (p ∷ ps) e h g =
    ap (◌∷◌ (row k t p)) (zip_rows-append ks ts ps e (omega arith) (omega arith))

-- An appended event is the last row, the rows before it are as they were, and the columns stay
-- aligned with the size estimate.
pub rows-append :
    (m : Memtable) (e : Event)
    → IsMemtable m
    → (rows (append m e) ≡ rows m ++ e ∷ []) × IsMemtable (append m e)
unfolding append
rows-append m e v = (
  rows-zip_rows (append m e) (append-IsMemtable m e v)
      ∙ zip_rows-append m.key_hashes m.timestamps m.payloads e v.timestamps v.payloads
      ∙ ap (λ l. l ++ e ∷ []) (sym (rows-zip_rows m v)),
  append-IsMemtable m e v,
)

zip_rows-map :
    (f : ℕ → ℕ) (g : ℕ → ℤ) (h : ℕ → Bytes) (idx : List ℕ)
    → zip_rows (map f idx) (map g idx) (map h idx) ≡ map (λ i. row (f i) (g i) (h i)) idx
zip_rows-map f g h [] = refl
zip_rows-map f g h (i ∷ idx) = ap (◌∷◌ (row (f i) (g i) (h i))) (zip_rows-map f g h idx)

map-get_or {ℓ} :
    {A : Type ℓ} (xs : List A) (d : A) → map (λ i. get_or xs i d) (range_from 0 (length xs)) ≡ xs
map-get_or [] d = refl
map-get_or (x ∷ xs) d =
    ap (◌∷◌ x) (map-range_from-suc (λ i. get_or (x ∷ xs) i d) 0 (length xs) ∙ map-get_or xs d)

payload_bytes-Permᴰ : {ps qs : List Bytes} → Permᴰ ps qs → payload_bytes ps ≡ payload_bytes qs
payload_bytes-Permᴰ Permᴰ.nil = refl
payload_bytes-Permᴰ (Permᴰ.cons e d) = omega (arith, ap length e, payload_bytes-Permᴰ d)
payload_bytes-Permᴰ (Permᴰ.swap e f) = omega (arith, ap length e, ap length f)
payload_bytes-Permᴰ (Permᴰ.trans d f) = payload_bytes-Permᴰ d ∙ payload_bytes-Permᴰ f

pub payload_bytes-perm : {ps qs : List Bytes} → Perm ps qs → payload_bytes ps ≡ payload_bytes qs
payload_bytes-perm h = ∥∥₁_elim h (ℕ_set _ _) payload_bytes-Permᴰ

module _ (s : SortSlice) (m : Memtable) (v : IsMemtable m) where
  abbrev sorted_idx : List ℕ
  sorted_idx = s.sort_slice (row_less m) (range_from 0 (len m))

  idx-perm : Perm sorted_idx (range_from 0 (len m))
  idx-perm = s.sort_slice-perm (row_less m) (range_from 0 (len m))

  payloads-perm : Perm (map (λ i. get_or m.payloads i []) sorted_idx) m.payloads
  payloads-perm =
      subst (Perm (map (λ i. get_or m.payloads i []) sorted_idx))
        (ap (λ n. map (λ i. get_or m.payloads i []) (range_from 0 n)) (sym v.payloads)
          ∙ map-get_or m.payloads [])
        (Perm.map (λ i. get_or m.payloads i []) idx-perm)

  pub sort-IsMemtable : IsMemtable (sort s m)
  unfolding sort
  sort-IsMemtable = record {
    timestamps = length-map _ sorted_idx ∙ sym (length-map _ sorted_idx);
    payloads = length-map _ sorted_idx ∙ sym (length-map _ sorted_idx);
    approx_bytes = v.approx_bytes ∙ sym (payload_bytes-perm payloads-perm);
  }

  rows-sort : rows (sort s m) ≡ map (row_at m) sorted_idx
  unfolding sort
  rows-sort =
      rows-zip_rows (sort s m) sort-IsMemtable
      ∙ zip_rows-map (λ i. get_or m.key_hashes i 0) (λ i. get_or m.timestamps i (pos 0))
          (λ i. get_or m.payloads i []) sorted_idx

  -- Sorting keeps every row, as often as it was there, puts them in the order of key hash and
  -- timestamp, and keeps the columns aligned.
  pub sort_lem :
      Perm (rows (sort s m)) (rows m) × Pairwise NotAfter (rows (sort s m)) × IsMemtable (sort s m)
  unfolding rows
  sort_lem = (
    rw rows-sort (Perm.map (row_at m) idx-perm),
    rw rows-sort (
        (Pairwise-map (λ a b. hlevel) (row_at m)).1 (
          s.sort_slice-sorted (row_less m) (range_from 0 (len m)) (
            less_by-IsStrictWeak (λ i. get_or m.key_hashes i 0)
              (λ i. get_or m.timestamps i (pos 0))))),
    sort-IsMemtable,
  )
