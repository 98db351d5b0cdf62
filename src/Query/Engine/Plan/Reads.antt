-- ===== src/Query/Engine/Plan/Reads.antt =====
-- Events on their way through a query: from the rows of a block to the merged answer.
use mathlib.Core.List.{
  Mem, mem-cons, mem-cons_self, mem-cons_of_mem, not-mem-nil, mem-append, Mem-prop,
}
use mathlib.Core.List.Perm
use mathlib.Core.Logic.Or
use bbdb.Base.{
  Option, ℕ, ◌≡◌, sym, ap, ◌∙◌, subst, List, [], ◌∷◌, map, Bool, true, some, arith, Result, ok,
  Result-cases, inl, inr, Bool-cases, ◌>>=◌, ok-injective,
}
use bbdb.Base.Int.{ℤ}
use bbdb.Base.Bytes.{Bytes}
use bbdb.Block.Event.{Event}
use bbdb.Block.Memtable.{Memtable, rows, contains}
use bbdb.Block.Memtable.Rows.{IsMemtable, zip_rows, rows-zip_rows}
use bbdb.Files.{Fs, FilePath, Call}
use bbdb.Block.Columns.{Zstd}
use bbdb.Block.Bloom.{BloomLib, build_bloom_from_memtable, serialize, deserialize_bloom}
use bbdb.Block.Bloom.Sound.{build_bloom_from_memtable_lem}
use bbdb.Block.Header.{BlockHeader, IsBlockHeader}
use bbdb.Meta.Keys.{BlockId}
use bbdb.Tier.Local.{LocalStore, bloom_path}
use bbdb.Index.BloomCache.{load_from_disk, unless_missing}
use bbdb.Index.BloomCache.Transparent.{answer_of}
use bbdb.Query.BlockReader.{read_block}
use bbdb.Query.BlockReader.Sealed.{matches, block_file, IsSealable, read_open_block_lem, keep_if}
use bbdb.Query.Merger.{Heap, HeapItem, item_less, merge_events}
use bbdb.Query.Merger.Sorted.{all_events, merge_events-Perm}
use bbdb.Query.Engine.{push_slice, collect, merge_results}

zip_rows-contains :
    (e : Event) (ks : List ℕ) (ts : List ℤ) (ps : List Bytes)
    → Mem e (zip_rows ks ts ps)
    → contains e.key_hash ks ≡ true
unfolding contains
zip_rows-contains e [] ts ps m = absurd (not-mem-nil m)
zip_rows-contains e (k ∷ ks) [] ps m = absurd (not-mem-nil m)
zip_rows-contains e (k ∷ ks) (t ∷ ts) [] m = absurd (not-mem-nil m)
zip_rows-contains e (k ∷ ks) (t ∷ ts) (p ∷ ps) m =
    Or.elim (hlevel) (mem-cons.0 m) (λ same. ground (arith, ap (λ x. x.key_hash) same))
      (λ m'. ground (arith, zip_rows-contains e ks ts ps m'))

-- The key hash of a row is in the column.
pub rows-contains :
    (mt : Memtable) (e : Event)
    → IsMemtable mt
    → Mem e (rows mt)
    → contains e.key_hash mt.key_hashes ≡ true
rows-contains mt e v m =
    zip_rows-contains e mt.key_hashes mt.timestamps mt.payloads
      (subst (Mem e) (rows-zip_rows mt v) m)

pub keep_if-kept :
    (p : Event → Bool) (e : Event) (xs : List Event) → p e ≡ true → Mem e xs → Mem e (keep_if p xs)
keep_if-kept p e [] h m = absurd (not-mem-nil m)
keep_if-kept p e (x ∷ xs) h m =
    Or.elim (Mem-prop) (mem-cons.0 m) (λ same. rw (← same, h) mem-cons_self)
      (λ m'. elim (Bool-cases (p x)) [
        | inl t ↦ rw t (mem-cons_of_mem x (keep_if-kept p e xs h m'))
        | inr f ↦ rw f (keep_if-kept p e xs h m')
      ])

push_slice-first :
    (e : Event) (es : List Event) (ss : List (List Event))
    → Mem e es
    → Mem e (all_events (push_slice es ss))
push_slice-first e [] ss m = absurd (not-mem-nil m)
push_slice-first e (x ∷ xs) ss m = (mem-append {s = x ∷ xs} {t = all_events ss}).1 (Or.inl m)

push_slice-rest :
    (e : Event) (es : List Event) (ss : List (List Event))
    → Mem e (all_events ss)
    → Mem e (all_events (push_slice es ss))
push_slice-rest e [] ss m = m
push_slice-rest e (x ∷ xs) ss m = (mem-append {s = x ∷ xs} {t = all_events ss}).1 (Or.inr m)

-- What one of the reads returned is in the slices.
collect-Mem :
    {T : Type 0} (f : T → Result (List Event)) (t : T) (e : Event) (ts : List T)
    (slices : List (List Event))
    → collect (map f ts) ≡ ok slices
    → ((es : List Event) → f t ≡ ok es → Mem e es)
    → Mem t ts
    → Mem e (all_events slices)
unfolding collect
collect-Mem f t e [] slices run read m = absurd (not-mem-nil m)
collect-Mem f t e (u ∷ us) slices run read m = elim (Result-cases (f u)) [
  | inr (x, failed) ↦ absurd (ground (arith, failed, run))
  | inl (es, done) ↦ elim (Result-cases (collect (map f us))) [
    | inr (x, failed) ↦ absurd (ground (arith, done, failed, run))
    | inl (ss, rest) ↦
        let same : push_slice es ss ≡ slices = ok-injective _ _ (
          sym (
            ap (λ r. collect (r ∷ map f us)) done
            ∙ ap (λ r. r >>= λ ss. ok (push_slice es ss)) rest)
          ∙ run) in
        subst (λ l. Mem e (all_events l)) same
          (Or.elim (Mem-prop) (mem-cons.0 m)
            (λ here. push_slice-first e es ss (read es (ap f here ∙ done)))
            (λ m'. push_slice-rest e es ss (collect-Mem f t e us ss rest read m')))
  ]
]

-- An event that one of the reads returned is in the answer.
pub merge_results-Mem :
    {T : Type 0} (heap : Heap HeapItem item_less) (f : T → Result (List Event)) (t : T) (e : Event)
    (ts : List T) (out : Option (List Event))
    → merge_results heap (map f ts) ≡ ok out
    → ((es : List Event) → f t ≡ ok es → Mem e es)
    → Mem t ts
    → (all : List Event) × (out ≡ some all) × Mem e all
unfolding merge_results
merge_results-Mem heap f t e ts out run read m = elim (Result-cases (collect (map f ts))) [
  | inr (x, failed) ↦ absurd (ground (arith, failed, run))
  | inl (slices, done) ↦
      let (all, merged, p, q) = merge_events-Perm heap slices in
      let same : merge_events heap slices ≡ out =
        ok-injective _ _ (sym (ap (λ r. r >>= λ ss. ok (merge_events heap ss)) done) ∙ run) in
      (all, sym same ∙ merged, (Perm.mem_iff p).1 (collect-Mem f t e ts slices done read m))
]

module _ (B : BloomLib) (fs : Fs) (store : LocalStore) (name : BlockId) where
  -- The filter of a sealed block does not deny a key of the block.
  pub filter_lem :
      (mt : Memtable) (fpr : B.Rate) (file : Bytes) (key_hash : ℕ) (b : Bool)
      → fs.content (bloom_path store name) ≡ some file
      → serialize B (build_bloom_from_memtable B mt fpr) ≡ ok file
      → contains key_hash mt.key_hashes ≡ true
      → answer_of B fs key_hash (load_from_disk B store fs name) ≡ ok b
      → b ≡ true
  unfolding load_from_disk unless_missing
  filter_lem mt fpr file kh b here made key answer =
      let there = build_bloom_from_memtable_lem B mt fpr kh file key made in
      elim (Bool-cases (fs.fault Call.open_it (bloom_path store name))) [
        | inl t ↦ absurd (ground (arith, t, answer))
        | inr f ↦ elim (Result-cases (deserialize_bloom B file)) [
          | inr (x, g) ↦ absurd (ground (arith, g, there))
          | inl (bf, g) ↦ ground (arith, f, g, here, there, answer)
        ]
      ]

module _ (z : Zstd) (fs : Fs) (path : FilePath) where
  -- A read of a sealed block that succeeds returns the rows that are asked for.
  pub read_lem :
      (hdr : BlockHeader) (mt : Memtable) (key_hash : ℕ) (from to : ℤ) (e : Event) (es : List Event)
      → IsSealable z mt
      → IsBlockHeader hdr
      → fs.content path ≡ some (block_file z hdr mt)
      → Mem e (rows mt)
      → matches key_hash from to e ≡ true
      → read_block z fs path key_hash from to ≡ ok es
      → Mem e es
  unfolding read_block
  read_lem hdr mt kh from to e es v h here row wanted run =
      let read = read_open_block_lem z hdr mt v h kh from to in
      subst (Mem e) (ok-injective _ es (ground (arith, here, read, run)))
        (keep_if-kept (matches kh from to) e (rows mt) wanted row)
