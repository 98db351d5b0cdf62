-- ===== src/Block/Memtable.antt =====
-- internal/block/memtable.go: the columnar buffer of one shard. `sort.Slice` is a parameter, with
-- what its documentation promises: it sorts, and does not say how ties come out.
pub mod Rows
pub mod Insertion
use mathlib.Core.List.{Perm, Pairwise}
use bbdb.Base.{
  ℕ, ◌+◌, ◌≤◌, ◌<◌, ◌≡◌, refl, Bool, true, false, List, [], ◌∷◌, ◌++◌, map, arith, ◌==◌,
  if◌then◌else◌, length, get_or, range_from,
}
use bbdb.Base.Int.{ℤ, pos}
use bbdb.Base.Bytes.{Bytes}
use bbdb.Block.Event.{Event, less, IsStrictWeak}

pub record Memtable : Type 0 where
  pub key_hashes : List ℕ
  pub timestamps : List ℤ
  pub payloads : List Bytes
  pub approx_bytes : ℕ

unfoldable pub new_memtable : Memtable
new_memtable = record { key_hashes = []; timestamps = []; payloads = []; approx_bytes = 0 }

unfoldable pub append : Memtable → Event → Memtable
append m e = record {
  key_hashes = m.key_hashes ++ e.key_hash ∷ [];
  timestamps = m.timestamps ++ e.timestamp ∷ [];
  payloads = m.payloads ++ e.payload ∷ [];
  approx_bytes = m.approx_bytes + (8 + 8 + length e.payload);
}

abbrev pub len : Memtable → ℕ
len m = length m.key_hashes

-- Sorting an index slice by `less`: some permutation of it that is sorted.
pub record SortSlice : Type 0 where
  pub sort_slice : (ℕ → ℕ → Bool) → List ℕ → List ℕ
  pub sort_slice-perm : (lt : ℕ → ℕ → Bool) (xs : List ℕ) → Perm (sort_slice lt xs) xs
  pub sort_slice-sorted :
      (lt : ℕ → ℕ → Bool) (xs : List ℕ)
      → IsStrictWeak lt
      → Pairwise (λ a b. lt b a ≡ false) (sort_slice lt xs)

-- The comparison by the rows at two indices.
abbrev pub row_less : Memtable → ℕ → ℕ → Bool
row_less m ia ib =
    less (get_or m.key_hashes ia 0) (get_or m.timestamps ia (pos 0)) (get_or m.key_hashes ib 0)
      (get_or m.timestamps ib (pos 0))

unfoldable pub sort : SortSlice → Memtable → Memtable
sort s m =
    let idx = s.sort_slice (row_less m) (range_from 0 (len m)) in
    record {
      key_hashes = map (λ i. get_or m.key_hashes i 0) idx;
      timestamps = map (λ i. get_or m.timestamps i (pos 0)) idx;
      payloads = map (λ i. get_or m.payloads i []) idx;
      approx_bytes = m.approx_bytes;
    }

abbrev pub row_at : Memtable → ℕ → Event
row_at m i = record {
  key_hash = get_or m.key_hashes i 0;
  timestamp = get_or m.timestamps i (pos 0);
  payload = get_or m.payloads i [];
}

unfoldable pub rows : Memtable → List Event
rows m = map (row_at m) (range_from 0 (len m))

unfoldable pub contains : ℕ → List ℕ → Bool
contains h [] = false
contains h (x ∷ xs) = if x == h then true else contains h xs

-- The keys of the `seen` map, in the order in which they came. Go ranges over a map in any order.
unfoldable pub distinct : List ℕ → List ℕ → List ℕ
unfolding contains
distinct seen [] = seen
distinct seen (h ∷ hs) = distinct (if contains h seen then seen else seen ++ h ∷ []) hs

unfoldable pub unique_key_hashes : Memtable → List ℕ
unfolding distinct
unique_key_hashes m = distinct [] m.key_hashes

unfoldable pub reset : Memtable → Memtable
unfolding new_memtable
reset m = new_memtable
