-- ===== src/Ttl/Tests.antt =====
-- A cycle of each worker at a concrete node.
use bbdb.Base.{ℕ, zero, suc, arith, ◌≡◌, refl, [], ◌∷◌, false, Option, none, some, ok}
use bbdb.Base.Int.{pos}
use bbdb.Base.Bytes.{Bytes, eq_bytes, put_be, ltb_bytes}
use bbdb.Files.{update}
use bbdb.Kv.Memory.{memory, Table, empty_table, run_all}
use bbdb.Meta.Keys.{BlockId, block_key, expiry_key}
use bbdb.Meta.Blocks.{BlockMeta, encode_block_meta, decode_block_meta}
use bbdb.Meta.Blocks.RoundTrip.{decode-encode_block_meta}
use bbdb.Meta.Batches.{seal_batch}
use bbdb.Meta.Expiry.{ExpiredEntry}
use bbdb.Tier.Local.{LocalStore, block_path}
use bbdb.Node.{Node}
use bbdb.Ttl.Reaper.{reaper_run}
use bbdb.Ttl.Reaper.Safety.{Safe, reaper_run-Safe}
use bbdb.Ttl.Janitor.{janitor_run}
use bbdb.Ttl.Janitor.Safety.{Present, janitor_run-Present}
use bbdb.Ttl.{Cycle}

abbrev expired_block : BlockId
expired_block = b'0' ∷ b'7' ∷ b':' ∷ b'T' ∷ []

abbrev its_meta : BlockMeta
its_meta = record {
  shard_id = 7;
  opened_at = pos 3_600;
  sealed_at = pos 7_200;
  tier = 0;
  size = 4096;
  checksum = 12345;
}

abbrev hot : LocalStore
hot = record { root = b'/' ∷ b'h' ∷ []; tier = 0 }

abbrev tiers : ℕ → Option LocalStore
tiers zero = some hot
tiers (suc t) = none

abbrev stored_meta : Bytes
stored_meta = encode_block_meta its_meta

abbrev sealed_db : Table
unfolding seal_batch
sealed_db = (seal_batch memory 7 expired_block its_meta 4 empty_table).1

abbrev node : Node Table
node = record {
  db = sealed_db;
  fs = record {
    content = update (λ p. none) (block_path hot expired_block) (some (1 ∷ []));
    fault = λ c p. false;
  };
}

decoded : decode_block_meta stored_meta ≡ ok its_meta
decoded = (decode-encode_block_meta its_meta (omega arith)).0

stored : memory.content sealed_db (block_key expired_block) ≡ some stored_meta
unfolding seal_batch empty_table run_all block_key expiry_key put_be eq_bytes ltb_bytes
stored = refl

-- The others rest between two turns.
abbrev turn_at : ℕ → Cycle (Node Table)
turn_at hour = record { meanwhile = λ n. n; done = λ i. false; now_hour = hour }

reaper_run-Safe_example :
    Safe memory tiers expired_block stored_meta its_meta hot decoded refl
      (λ db k. refl)
      (reaper_run memory tiers (turn_at 1) (turn_at 9 ∷ []) node)
reaper_run-Safe_example =
    reaper_run-Safe memory tiers expired_block stored_meta its_meta hot decoded refl (λ db k. refl)
      (turn_at 1) (turn_at 9 ∷ []) node (λ n s. s, (λ n s. s, tt)) stored

janitor_run-Present_example :
    Present memory tiers expired_block stored_meta its_meta hot
      (1 ∷ [])
      decoded
      refl
      (λ db k. refl)
      (janitor_run memory tiers (turn_at 1) (turn_at 9 ∷ []) node)
unfolding eq_bytes block_path
janitor_run-Present_example =
    janitor_run-Present memory tiers expired_block stored_meta its_meta hot (1 ∷ []) decoded refl
      (λ db k. refl) (turn_at 1) (turn_at 9 ∷ []) node (λ n s. s, (λ n s. s, tt)) stored refl

abbrev lost : ExpiredEntry
lost = record { id = b'x' ∷ []; hour = 4 }
