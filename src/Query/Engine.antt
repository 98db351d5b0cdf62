-- ===== src/Query/Engine.antt =====
-- internal/query/query.go: requests, and what `Engine.Query` makes of the answers of the blocks.
pub mod Kept
pub mod Blocks
pub mod Plan
use bbdb.Base.{ℕ, List, [], ◌∷◌, Option, Result, ok, err, ◌>>=◌}
use bbdb.Base.Int.{ℤ}
use bbdb.Base.Bytes.{Bytes}
use bbdb.Block.Event.{Event}
use bbdb.Query.Merger.{Heap, HeapItem, item_less, merge_events}

-- `event_type` is none for all types. A query is for the instants from `from` on and before `to`.
pub record QueryRequest : Type 0 where
  pub partition_key : Bytes
  pub event_type : Option ℕ
  pub from : ℤ
  pub to : ℤ

-- A slice of events is kept if there is an event in it.
abbrev pub push_slice : List Event → List (List Event) → List (List Event)
push_slice [] slices = slices
push_slice (e ∷ es) slices = (e ∷ es) ∷ slices

-- The loop over the results, in the order of the tasks: the first error is the answer.
unfoldable pub collect : List (Result (List Event)) → Result (List (List Event))
collect [] = ok []
collect (err e ∷ rs) = err e
collect (ok es ∷ rs) = let rest = collect rs in rest >>= (λ slices. ok (push_slice es slices))

unfoldable pub merge_results :
    Heap HeapItem item_less → List (Result (List Event)) → Result (Option (List Event))
unfolding collect
merge_results heap results = collect results >>= (λ slices. ok (merge_events heap slices))
