-- ===== src/Query/Engine/Blocks.antt =====
-- A query over blocks that were sealed from memtables.
use mathlib.Core.List.{Perm, Pairwise}
use mathlib.Core.List.Perm
use bbdb.Base.{
  ℕ, zero, suc, ◌≡◌, refl, sym, ap, ◌∙◌, subst, List, [], ◌∷◌, ◌++◌, some, Result, ok, ◌>>=◌, All,
}
use bbdb.Base.Int.{ℤ}
use bbdb.Block.Event.{Event, NotAfter}
use bbdb.Block.Header.{BlockHeader, IsBlockHeader}
use bbdb.Block.Columns.{Zstd}
use bbdb.Block.Memtable.{Memtable, SortSlice, sort, rows}
use bbdb.Block.Memtable.Rows.{IsMemtable, sort_lem}
use bbdb.Query.BlockReader.{read_open_block}
use bbdb.Query.BlockReader.Sealed.{block_file, IsSealable, matches, keep_if, read_open_block_lem}
use bbdb.Query.Merger.{Heap, HeapItem, item_less, merge_events}
use bbdb.Query.Merger.Sorted.{all_events, AllSorted, merge_events_lem}
use bbdb.Query.Engine.{push_slice, collect, merge_results}
use bbdb.Query.Engine.Kept.{keep_if-Perm, keep_if-IsSorted}

all_events-push_slice :
    (es : List Event) (ss : List (List Event)) → all_events (push_slice es ss) ≡ es ++ all_events ss
all_events-push_slice [] ss = refl
all_events-push_slice (e ∷ es) ss = refl

push_slice-AllSorted :
    (es : List Event) (ss : List (List Event))
    → Pairwise NotAfter es
    → AllSorted ss
    → AllSorted (push_slice es ss)
push_slice-AllSorted [] ss s a i = a i
push_slice-AllSorted (e ∷ es) ss s a zero = s
push_slice-AllSorted (e ∷ es) ss s a (suc i) = a i

module _ (z : Zstd) (s : SortSlice) (key_hash : ℕ) (from to : ℤ) where
  -- What the reads of the blocks return: the file of each has its header and its sorted memtable.
  abbrev pub answers : List (BlockHeader × Memtable) → List (Result (List Event))
  answers [] = []
  answers ((hdr, mt) ∷ bs) =
      read_open_block z (block_file z hdr (sort s mt)) key_hash from to ∷ answers bs

  -- The rows of the memtables with the key and a time in the range.
  abbrev pub wanted : List (BlockHeader × Memtable) → List Event
  wanted [] = []
  wanted ((hdr, mt) ∷ bs) = keep_if (matches key_hash from to) (rows mt) ++ wanted bs

  abbrev pub AllSealable : List (BlockHeader × Memtable) → Type 0
  AllSealable = All (λ b. IsBlockHeader b.0 × IsMemtable b.1 × IsSealable z (sort s b.1))

  collect_lem :
      (bs : List (BlockHeader × Memtable))
      → AllSealable bs
      → (slices : List (List Event)) × (collect (answers bs) ≡ ok slices)
        × Perm (all_events slices) (wanted bs)
        × AllSorted slices
  unfolding collect
  collect_lem [] a = ([], refl, Perm.nil, λ i. Pairwise.nil)
  collect_lem ((hdr, mt) ∷ bs) ((h, m, v), a) =
      let (slices, p, q, r) = collect_lem bs a in
      let (mixed, ordered, w) = sort_lem s mt m in
      let es = keep_if (matches key_hash from to) (rows (sort s mt)) in
      let read = read_open_block_lem z hdr (sort s mt) v h key_hash from to in
      (
        push_slice es slices,
        after_read (read_open_block z (block_file z hdr (sort s mt)) key_hash from to) es slices bs
            read p,
        subst (λ l. Perm l (wanted ((hdr, mt) ∷ bs))) (sym (all_events-push_slice es slices))
            (Perm.append (keep_if-Perm (matches key_hash from to) mixed) q),
        push_slice-AllSorted es slices
            (keep_if-IsSorted (matches key_hash from to) (rows (sort s mt)) ordered) r,
      )
    where
      after_read :
          (x : Result (List Event)) (es : List Event) (slices : List (List Event))
          (bs : List (BlockHeader × Memtable))
          → x ≡ ok es
          → collect (answers bs) ≡ ok slices
          → collect (x ∷ answers bs) ≡ ok (push_slice es slices)
      after_read x es slices bs e p =
          ap (λ y. collect (y ∷ answers bs)) e ∙ ap (λ r. r >>= λ ss. ok (push_slice es ss)) p

  -- The answers of blocks that were sealed from memtables merge, without an error, to the rows of
  -- all these memtables that have the key and a time from the lower end of the range on and before
  -- its upper end, each as many times as it is there, and sorted by key hash and timestamp.
  pub merge_results_lem :
      (heap : Heap HeapItem item_less) (bs : List (BlockHeader × Memtable))
      → AllSealable bs
      → (out : List Event) × (merge_results heap (answers bs) ≡ ok (some out))
        × Perm out (wanted bs)
        × Pairwise NotAfter out
  unfolding merge_results
  merge_results_lem heap bs a =
      let (slices, p, q, r) = collect_lem bs a in
      let (out, e, t, u) = merge_events_lem heap slices r in
      (out, ap (λ x. x >>= λ ss. ok (merge_events heap ss)) p ∙ ap ok e, Perm.trans t q, u)
