-- ===== src/Kv.antt =====
-- The storage engine (cockroachdb/pebble), as the interface that internal/meta uses: point reads,
-- bounded scans, and batches that are applied whole.
pub mod Sorted
pub mod Memory
use bbdb.Base.{
  ℕ, ◌≡◌, Bool, true, false, not, ◌&&◌, List, [], ◌∷◌, Option, none, some, if◌then◌else◌, Result,
  ok, Error,
}
use bbdb.Base.Bytes.{Bytes, ltb_bytes, eq_bytes}
use Sorted.{Entries, lookup, in_range, IsSorted}

-- One entry of a write batch.
pub data Mutation : Type 0 where
  set_key : Bytes → Bytes → Mutation
  delete_key : Bytes → Mutation
  delete_range : Bytes → Bytes → Mutation

abbrev pub View : Type 0
View = Bytes → Option Bytes

abbrev pub apply : Mutation → View → View
apply (set_key k v) f q = if eq_bytes k q then some v else f q
apply (delete_key k) f q = if eq_bytes k q then none else f q
apply (delete_range lo hi) f q = if in_range lo hi q then none else f q

-- The entries of a batch take effect in order.
abbrev pub apply_all : List Mutation → View → View
apply_all [] f = f
apply_all (m ∷ ms) f = apply_all ms (apply m f)

-- `content` is what the engine holds. Every call may fail with an error of its own; a batch that
-- fails is not applied. A scan that succeeds lists what lies in [lo, hi), in the order of the keys.
pub record Pebble : Type 1 where
  pub Db : Type 0
  pub content : Db → View
  pub get : Db → Bytes → Result (Option Bytes)
  pub scan : Db → Bytes → Bytes → Result Entries
  pub commit : Db → List Mutation → Result Db
  pub get_lem : (db : Db) (k : Bytes) (o : Option Bytes) → get db k ≡ ok o → o ≡ content db k
  pub scan-IsSorted : (db : Db) (lo hi : Bytes) (es : Entries) → scan db lo hi ≡ ok es → IsSorted es
  pub scan_lem :
      (db : Db) (lo hi : Bytes) (es : Entries)
      → scan db lo hi ≡ ok es
      → (k : Bytes) → lookup k es ≡ (if in_range lo hi k then content db k else none)
  pub commit_lem :
      (db : Db) (ms : List Mutation) (db' : Db)
      → commit db ms ≡ ok db'
      → (k : Bytes) → content db' k ≡ apply_all ms (content db) k
