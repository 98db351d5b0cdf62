-- ===== src/Meta/Batches.antt =====
-- internal/meta/seal.go and ttl_batch.go: the two batches that are applied whole.
pub mod Effects
pub mod Emptied
use bbdb.Base.{ℕ, ◌≡◌, List, [], ◌∷◌, Result, ok, err}
use bbdb.Base.State.{St}
use bbdb.Kv.{Pebble, Mutation, set_key, delete_key, delete_range}
use bbdb.Meta.Engine.{commit_batch}
use bbdb.Meta.Keys.{BlockId, wal_key_start, wal_key_end, block_key, expiry_key}
use bbdb.Meta.Blocks.{BlockMeta, encode_block_meta}

unfoldable pub seal_mutations : ℕ → BlockId → BlockMeta → ℕ → List Mutation
seal_mutations shard id bm expiry_hour =
    delete_range (wal_key_start shard) (wal_key_end shard)
    ∷ set_key (block_key id) (encode_block_meta bm)
    ∷ set_key (expiry_key expiry_hour id) []
    ∷ []

unfoldable pub expire_mutations : ℕ → BlockId → List Mutation
expire_mutations unix_hour id =
    delete_key (block_key id) ∷ delete_key (expiry_key unix_hour id) ∷ []

module _ (P : Pebble) where
  open P use {Db}

  unfoldable pub seal_batch : ℕ → BlockId → BlockMeta → ℕ → St Db (Unit {0})
  unfolding seal_mutations
  seal_batch shard id bm expiry_hour = commit_batch P (seal_mutations shard id bm expiry_hour)

  unfoldable pub delete_block_and_expiry : ℕ → BlockId → St Db (Unit {0})
  unfolding expire_mutations
  delete_block_and_expiry unix_hour id = commit_batch P (expire_mutations unix_hour id)
