-- ===== src/Ingestion/Writer/Tests.antt =====
-- Writers at concrete rings and configurations.
use bbdb.Base.{
  ℕ, ◌≡◌, refl, List, [], ◌∷◌, ◌++◌, true, false, some, none, ok, some-injective, subst, arith,
}
use bbdb.Base.Int.{pos, negsuc}
use bbdb.Base.Bytes.{ltb_bytes, eq_bytes, put_be}
use bbdb.Kv.Memory.{memory, Table, empty_table, run_all}
use bbdb.Calendar.{Instant, civil_of}
use bbdb.Block.Event.{Event}
use bbdb.Block.Stored.{stored}
use bbdb.Block.Memtable.{new_memtable, append, rows}
use bbdb.Block.Memtable.Rows.{new_memtable-IsMemtable}
use bbdb.Block.Memtable.Insertion.{insertion}
use bbdb.Block.Bloom.Exact.{exact}
use bbdb.Tier.Local.{LocalStore}
use bbdb.Meta.Wal.{wal_append}
use bbdb.Block.Sealer.{seal}
use bbdb.Calendar.Digits.{decimal, hexadecimal}
use bbdb.Tier.Local.{put, bloom_path}
use bbdb.Block.Bloom.{serialize}
use bbdb.Block.Memtable.{unique_key_hashes, sort}
use bbdb.Block.Memtable.Insertion.{insertion_sort}
use bbdb.Block.Body.{write_block_body}
use bbdb.Meta.Batches.{seal_batch}
use bbdb.Meta.Idx.{put_idx_batch}
use bbdb.Block.Routing.{block_id_for_shard}
use bbdb.Meta.Keys.{wal_seq_key, wal_key, block_id_from_shard_and_hour}
use bbdb.Ingestion.RingBuf.{RingBuf}
use bbdb.Ingestion.RingBuf.Fifo.{IsRing, contents}
use bbdb.Ingestion.Json.{marshal}
use bbdb.Ingestion.Writer.{WriterConfig, ShardWriter, flush_and_maybe_seal, request_of, take_in}
use bbdb.Ingestion.Writer.Logged.{
  IsLogged, AppendsOk, SealOk, Outcome, drained, flush_and_maybe_seal_lem,
}
use bbdb.Ingestion.Writer.Write.{Wait, nothing, ticked, accepted, write}
use bbdb.Ingestion.Writer.Write.Progress.{write-accepted}

abbrev event : ℕ → Event
event k = record { key_hash = k; timestamp = negsuc 1; payload = 77 ∷ 97 ∷ [] }

-- {"KeyHash":25,"Timestamp":-2,"Payload":"TWE="}
json_text :
    marshal (event 25)
    ≡ b'{' ∷ b'"' ∷ b'K' ∷ b'e' ∷ b'y' ∷ b'H' ∷ b'a' ∷ b's' ∷ b'h' ∷ b'"' ∷ b':' ∷ b'2' ∷ b'5'
      ∷ b',' ∷ b'"' ∷ b'T' ∷ b'i' ∷ b'm' ∷ b'e' ∷ b's' ∷ b't' ∷ b'a' ∷ b'm' ∷ b'p' ∷ b'"' ∷ b':'
      ∷ b'-' ∷ b'2' ∷ b',' ∷ b'"' ∷ b'P' ∷ b'a' ∷ b'y' ∷ b'l' ∷ b'o' ∷ b'a' ∷ b'd' ∷ b'"' ∷ b':'
      ∷ b'"' ∷ b'T' ∷ b'W' ∷ b'E' ∷ b'=' ∷ b'"' ∷ b'}' ∷ []
unfolding marshal
json_text = refl

-- A ring of two places, both taken.
abbrev full : RingBuf
full = record { buf = event 1 ∷ event 2 ∷ []; mask = 1; head = 2; tail = 0 }

full-IsRing : IsRing 1 full
full-IsRing = omega arith

-- The 11th of June 2026, 14:30 UTC.
abbrev half_past_two : Instant
half_past_two = pos 1_781_188_200_000_000_000

abbrev manual : WriterConfig exact.Rate
manual = record {
  batch_interval = pos 2_000_000;
  ring_buf_size = pos 2;
  store = none;
  tmp_dir = [];
  retention = pos 0;
  max_block_bytes = pos 0;
  bloom_fpr = true;
  idx_chunk_size = pos 0;
}

abbrev hot : LocalStore
hot = record { root = b'h' ∷ []; tier = 0 }

-- With a store, so that blocks are sealed.
abbrev automatic : WriterConfig exact.Rate
automatic = record manual { store = some hot }

abbrev writer : ShardWriter Table
writer = record {
  node = record { db = empty_table; fs = record { content = λ p. none; fault = λ c p. false } };
  ring = full;
  memtable = new_memtable;
  opened_at = half_past_two;
}

-- Three events for a full ring of two: one tick makes room for two of them, and a second for the last.
write-accepted_example :
    (ws' : List Wait) × (w' : ShardWriter Table) × (write memory stored exact insertion 0x0a07
        manual
        (event 3 ∷ event 4 ∷ event 5 ∷ [])
        (nothing
          ∷ ticked half_past_two
          ∷ nothing
          ∷ ticked half_past_two
          ∷ ticked half_past_two
          ∷ [])
        writer
      ≡ accepted ws' w')
    × IsRing 1 w'.ring
write-accepted_example =
    write-accepted memory stored exact insertion 0x0a07 manual 1 (event 3 ∷ event 4 ∷ event 5 ∷ [])
      (nothing ∷ ticked half_past_two ∷ nothing ∷ ticked half_past_two ∷ ticked half_past_two ∷ [])
      writer full-IsRing (refl, (refl, (refl, (refl, (refl, tt))))) (omega arith)

-- A log and a memtable without events.
empty-IsLogged :
    IsLogged memory stored exact insertion 0x0a07 automatic (omega arith) 0 empty_table new_memtable
unfolding empty_table rows new_memtable
empty-IsLogged = record {
  memtable = new_memtable-IsMemtable;
  counter = record { counter = refl; below = λ k v i e. absurd (ground (arith, e)) };
  log = record { entries = []; listed = refl; sorted = tt; held = λ q. ground arith };
}

appends_ok :
    AppendsOk memory stored exact insertion 0x0a07 automatic
      (omega arith)
      (contents full)
      empty_table
unfolding wal_append marshal empty_table wal_seq_key run_all ltb_bytes wal_key eq_bytes put_be
appends_ok = (refl, (refl, tt))

abbrev behind : RingBuf → ShardWriter Table
unfolding drained
behind ring = drained memory stored exact insertion 0x0a07 automatic (omega arith) writer ring

seal_ran :
    (ring : RingBuf)
    → (seal memory stored exact insertion
        (request_of memory stored exact insertion 0x0a07 automatic hot (behind ring) half_past_two)
        (behind ring).node).0
      ≡ ok (block_id_for_shard 0x0a07 half_past_two)
unfolding seal write_block_body serialize put bloom_path unique_key_hashes sort insertion_sort
    seal_batch put_idx_batch eq_bytes block_id_for_shard block_id_from_shard_and_hour hexadecimal
    decimal civil_of behind take_in request_of append new_memtable
seal_ran ring = refl

seal_ok :
    (ring : RingBuf)
    → SealOk memory stored exact insertion 0x0a07 automatic
        (omega arith)
        true
        half_past_two
        (drained memory stored exact insertion 0x0a07 automatic (omega arith) writer ring)
unfolding drained behind
seal_ok ring store set due = (
  block_id_for_shard 0x0a07 half_past_two,
  subst
      (λ s.
        (seal memory stored exact insertion
          (request_of memory stored exact insertion 0x0a07 automatic s (behind ring) half_past_two)
          (behind ring).node).0
        ≡ ok (block_id_for_shard 0x0a07 half_past_two))
      (some-injective hot store set) (seal_ran ring),
)

flush_and_maybe_seal_lem_example :
    (w' : ShardWriter Table) × (ring : RingBuf) × (flush_and_maybe_seal memory stored exact
        insertion 0x0a07 automatic true half_past_two writer
      ≡ some w')
    × IsRing 1 w'.ring
    × (contents w'.ring ≡ [])
    × IsLogged memory stored exact insertion 0x0a07 automatic (omega arith) 2 w'.node.db w'.memtable
    × (rows
          (drained memory stored exact insertion 0x0a07 automatic
            (omega arith)
            writer
            ring).memtable
        ≡ rows new_memtable ++ event 1 ∷ event 2 ∷ [])
    × Outcome memory stored exact insertion 0x0a07 automatic
        (omega arith)
        half_past_two
        (drained memory stored exact insertion 0x0a07 automatic (omega arith) writer ring)
        w'
flush_and_maybe_seal_lem_example =
    flush_and_maybe_seal_lem memory stored exact insertion 0x0a07 automatic (omega arith) 1 0 true
      half_past_two writer full-IsRing (omega arith) empty-IsLogged appends_ok seal_ok
