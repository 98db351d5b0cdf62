-- ===== src/Meta/Idx.antt =====
-- internal/meta/keys.go: the sparse index, from (event type, key hash) to blocks.
pub mod Lookup
use bbdb.Base.{ℕ, ◌≡◌, List, [], ◌∷◌, map, Result, ok, err, ◌>>=◌}
use bbdb.Base.Bytes.{Bytes}
use bbdb.Base.State.{St}
use bbdb.Kv.{Pebble, set_key}
use bbdb.Kv.Sorted.{Entries}
use bbdb.Meta.Engine.{commit_batch}
use bbdb.Meta.Keys.{BlockId, idx_key, idx_key_prefix, idx_key_upper, parse_idx_key}

-- The loop over a scan: a key that does not parse is passed over.
unfoldable pub block_ids : Entries → List BlockId
block_ids [] = []
block_ids ((k, v) ∷ es) = elim (parse_idx_key k) [
  | ok (et, kh, id) ↦ id ∷ block_ids es
  | err e ↦ block_ids es
]

module _ (P : Pebble) where
  open P use {Db, scan}

  unfoldable pub idx_lookup_blocks : Db → ℕ → ℕ → Result (List BlockId)
  idx_lookup_blocks db event_type key_hash = do
    es ← scan db (idx_key_prefix event_type key_hash) (idx_key_upper event_type key_hash)
    ok (block_ids es)

  unfoldable pub put_idx_batch : ℕ → List ℕ → BlockId → St Db (Unit {0})
  put_idx_batch event_type key_hashes id =
      commit_batch P (map (λ h. set_key (idx_key event_type h id) []) key_hashes)
