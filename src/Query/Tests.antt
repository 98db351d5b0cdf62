-- ===== src/Query/Tests.antt =====
-- Queries at concrete files.
use bbdb.Base.{ℕ, zero, suc, ◌≡◌, refl, ap, ◌∙◌, All, List, [], ◌∷◌, some, ok, arith}
use bbdb.Base.Int.{pos, negsuc}
use bbdb.Base.Bytes.{put_be}
use bbdb.Block.Event.{Event, NotAfter, event_less}
use bbdb.Base.{sym, subst}
use bbdb.Block.Header.{BlockHeader, IsBlockHeader}
use bbdb.Block.Memtable.Rows.{IsMemtable}
use bbdb.Block.Memtable.Insertion.{insertion, insertion_sort}
use bbdb.Query.Engine.{merge_results}
use bbdb.Query.Engine.Blocks.{answers, AllSealable, merge_results_lem}
use mathlib.Core.List.{Mem, Perm, Pairwise, mem-cons, not-mem-nil}
use mathlib.Core.Logic.Or
use bbdb.Query.Merger.{merge_events}
use bbdb.Query.Merger.Listed.{listed}
use bbdb.Query.Merger.Sorted.{all_events, AllSorted, merge_events_lem}
use bbdb.Block.Memtable.{Memtable, rows, sort}
use bbdb.Block.Columns.{
  put_u64s, put_payloads, compress_uint64_column, compress_int64_column, compress_bytes_column,
}
use bbdb.Block.Stored.{stored, unwrap}
use bbdb.Query.BlockReader.{read_open_block}
use bbdb.Query.BlockReader.Sealed.{block_file, IsSealable, read_open_block_lem}

abbrev header : BlockHeader
header = record {
  shard_id = 0x0a07;
  event_type = 10;
  opened_at = pos 0;
  sealed_at = pos 50;
  row_count = 3;
}

abbrev sealed : Memtable
sealed = record {
  key_hashes = 7 ∷ 7 ∷ 9 ∷ [];
  timestamps = negsuc 3 ∷ pos 12 ∷ pos 15 ∷ [];
  payloads = [] ∷ (2 ∷ 3 ∷ []) ∷ (1 ∷ []) ∷ [];
  approx_bytes = 51;
}

sealed-IsSealable : IsSealable stored sealed
unfolding compress_uint64_column compress_int64_column compress_bytes_column put_u64s put_payloads
    put_be unwrap
sealed-IsSealable = omega arith

read_open_block_lem_example :
    read_open_block stored (block_file stored header sealed) 7 (pos 10) (pos 20)
    ≡ ok (record { key_hash = 7; timestamp = pos 12; payload = 2 ∷ 3 ∷ [] } ∷ [])
unfolding rows
read_open_block_lem_example =
    read_open_block_lem stored header sealed sealed-IsSealable (omega arith) 7 (pos 10) (pos 20)

abbrev event : ℕ → ℕ → Event
event k p = record { key_hash = k; timestamp = pos 5; payload = p ∷ [] }

-- Two blocks, with equal events in both.
abbrev slices : List (List Event)
slices = (event 1 0 ∷ event 4 0 ∷ []) ∷ (event 1 1 ∷ event 3 1 ∷ event 9 1 ∷ []) ∷ []

sorted-Pairwise :
    (x : Event) (es : List Event)
    → All (NotAfter x) es
    → Pairwise NotAfter es
    → Pairwise NotAfter (x ∷ es)
sorted-Pairwise x es a s = Pairwise.cons (λ e m. go es a m) s
  where
    go : (es : List Event) → All (NotAfter x) es → {e : Event} → Mem e es → NotAfter x e
    go [] a m = absurd (not-mem-nil m)
    go (y ∷ ys) (p, a) m =
        Or.elim (hlevel) (mem-cons.0 m) (λ q. ap (λ z. event_less z x) q ∙ p) (λ n. go ys a n)

slices-AllSorted : AllSorted slices
slices-AllSorted zero = sorted-Pairwise _ _ (refl, tt) (sorted-Pairwise _ _ tt Pairwise.nil)
slices-AllSorted (suc zero) =
    sorted-Pairwise _ _ (refl, (refl, tt))
      (sorted-Pairwise _ _ (refl, tt) (sorted-Pairwise _ _ tt Pairwise.nil))
slices-AllSorted (suc (suc i)) = Pairwise.nil

merge_events_lem_example :
    (out : List Event) × (merge_events listed slices ≡ some out)
    × Perm out (all_events slices)
    × Pairwise NotAfter out
merge_events_lem_example = merge_events_lem listed slices slices-AllSorted

sorted_same : sort insertion sealed ≡ sealed
unfolding sort insertion_sort
sorted_same = refl

-- The block above, twice.
abbrev two_blocks : List (BlockHeader × Memtable)
two_blocks = (header, sealed) ∷ (header, sealed) ∷ []

two_blocks-AllSealable : AllSealable stored insertion 7 (pos 10) (pos 20) two_blocks
two_blocks-AllSealable = (one, (one, tt))
  where
    one : IsBlockHeader header × IsMemtable sealed × IsSealable stored (sort insertion sealed)
    one = (omega arith, omega arith, subst (IsSealable stored) (sym sorted_same) sealed-IsSealable)

abbrev row_12 : Event
row_12 = record { key_hash = 7; timestamp = pos 12; payload = 2 ∷ 3 ∷ [] }

merge_results_lem_example :
    (out : List Event) × (merge_results listed
        (answers stored insertion 7 (pos 10) (pos 20) two_blocks)
      ≡ ok (some out))
    × Perm out (row_12 ∷ row_12 ∷ [])
    × Pairwise NotAfter out
unfolding rows
merge_results_lem_example =
    merge_results_lem stored insertion 7 (pos 10) (pos 20) listed two_blocks two_blocks-AllSealable
