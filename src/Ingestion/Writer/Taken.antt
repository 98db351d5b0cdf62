-- ===== src/Ingestion/Writer/Taken.antt =====
-- internal/ingestion/writer.go: the rows of the memtable that drained events are appended to.
use mathlib.Core.List.{Mem, not-mem-nil}
use bbdb.Base.{
  ℕ, ◌==◌, ◌≡◌, ◌≢◌, refl, sym, ap, ◌∙◌, subst, List, [], ◌∷◌, ◌++◌, append_assoc, append-nil,
  arith, false, length,
}
use bbdb.Kv.{Pebble}
use bbdb.Block.Event.{Event}
use bbdb.Block.Columns.{Zstd}
use bbdb.Block.Memtable.{Memtable, SortSlice, rows, append, len}
use bbdb.Block.Memtable.Rows.{IsMemtable, rows-append}
use bbdb.Block.Bloom.{BloomLib}
use bbdb.Meta.Wal.{wal_append}
use bbdb.Ingestion.Json.{marshal}
use bbdb.Ingestion.Writer.{WriterConfig, append_events}

-- A memtable with a row is not empty, and an empty one has no row.
pub rows-len : (mt : Memtable) (e : Event) → Mem e (rows mt) → len mt == 0 ≡ false
unfolding rows
rows-len mt e m = by_keys mt.key_hashes refl
  where
    by_keys : (ks : List ℕ) → mt.key_hashes ≡ ks → len mt == 0 ≡ false
    by_keys (k ∷ ks) same = ground (arith, ap length same)
    by_keys [] same =
        absurd
          (not-mem-nil (subst (Mem e) (ap (λ ks. rows (record mt { key_hashes = ks })) same) m))

pub rows-empty : (mt : Memtable) → len mt ≡ 0 → rows mt ≡ []
unfolding rows
rows-empty mt none_held = by_keys mt.key_hashes refl
  where
    by_keys : (ks : List ℕ) → mt.key_hashes ≡ ks → rows mt ≡ []
    by_keys (k ∷ ks) same = absurd (ground (arith, none_held, ap length same))
    by_keys [] same = ap (λ ks. rows (record mt { key_hashes = ks })) same

pub rows-ne_empty : (mt : Memtable) → len mt == 0 ≡ false → rows mt ≢ []
unfolding rows
rows-ne_empty mt some_held none_held = by_keys mt.key_hashes refl
  where
    by_keys : (ks : List ℕ) → mt.key_hashes ≡ ks → ⊥
    by_keys (k ∷ ks) same =
        absurd
          (ground (arith, sym (ap (λ ks. rows (record mt { key_hashes = ks })) same) ∙ none_held))
    by_keys [] same = absurd (ground (arith, some_held, ap length same))

module _ (P : Pebble) (z : Zstd) (B : BloomLib) (S : SortSlice) (shard : ℕ)
    (cfg : WriterConfig B.Rate) where
  open P use {Db}

  -- The memtable that drained events are appended to, whatever becomes of the log.
  pub append_events-rows :
      (es : List Event) (db : Db) (mt : Memtable)
      → IsMemtable mt
      → IsMemtable (append_events P z B S shard cfg es db mt).1
        × (rows (append_events P z B S shard cfg es db mt).1 ≡ rows mt ++ es)
  unfolding append_events
  append_events-rows [] db mt v = (v, sym (append-nil (rows mt)))
  append_events-rows (e ∷ es) db mt v =
      let (rest, aligned) = rows-append mt e v in
      let (v', all) =
        append_events-rows es (wal_append P shard (marshal e) db).1 (append mt e) aligned in
      (v', all ∙ ap (λ l. l ++ es) rest ∙ append_assoc (rows mt) (e ∷ []) es)
