-- ===== src/Block/Bloom.antt =====
-- internal/block/bloom.go: the filter over the key hashes of a block. The library
-- bits-and-blooms is a parameter: what was added is found, and a filter that was written is read
-- back as it was.
pub mod Sound
pub mod Exact
use bbdb.Base.{
  ℕ, ◌*◌, ◌/◌, ◌%◌, ◌^◌, ◌≡◌, List, [], ◌∷◌, Bool, true, Result, ok, err, ◌==◌, if◌then◌else◌,
  length, ◌>>=◌,
}
use bbdb.Base.Bytes.{Bytes}
use bbdb.Block.Memtable.{Memtable, unique_key_hashes}

-- Of a rate, a float64, only its sign is looked at.
pub record BloomLib : Type 1 where
  pub Filter : Type 0
  pub Rate : Type 0
  pub default_fpr : Rate
  pub not_positive : Rate → Bool
  pub new_with_estimates : ℕ → Rate → Filter
  pub add : Filter → Bytes → Filter
  pub test : Filter → Bytes → Bool
  pub write_to : Filter → Result Bytes
  pub read_from : Bytes → Result Filter
  pub test-add : (f : Filter) (b : Bytes) → test (add f b) b ≡ true
  pub test-add_other : (f : Filter) (b c : Bytes) → test f b ≡ true → test (add f c) b ≡ true
  pub read-write : (f : Filter) (b : Bytes) → write_to f ≡ ok b → read_from b ≡ ok f

unfoldable pub uint64_to_bytes : ℕ → Bytes
uint64_to_bytes v =
    v / 2 ^ 56 % 256
    ∷ v / 2 ^ 48 % 256
    ∷ v / 2 ^ 40 % 256
    ∷ v / 2 ^ 32 % 256
    ∷ v / 2 ^ 24 % 256
    ∷ v / 2 ^ 16 % 256
    ∷ v / 2 ^ 8 % 256
    ∷ v % 256
    ∷ []

module _ (B : BloomLib) where
  open B use {Filter, Rate, new_with_estimates, add, test, write_to, read_from}

  unfoldable pub add_hashes : Filter → List ℕ → Filter
  add_hashes f [] = f
  add_hashes f (h ∷ hs) = add_hashes (add f (uint64_to_bytes h)) hs

  unfoldable pub build_bloom : List ℕ → Rate → Filter
  unfolding add_hashes
  build_bloom key_hashes fpr =
      let fpr' = if B.not_positive fpr then B.default_fpr else fpr in
      let n = if length key_hashes == 0 then 1 else length key_hashes in
      add_hashes (new_with_estimates n fpr') key_hashes

  unfoldable pub build_bloom_from_memtable : Memtable → Rate → Filter
  unfolding build_bloom
  build_bloom_from_memtable mt fpr = build_bloom (unique_key_hashes mt) fpr

  unfoldable pub test_hash : Filter → ℕ → Bool
  unfolding uint64_to_bytes
  test_hash f key_hash = test f (uint64_to_bytes key_hash)

  unfoldable pub serialize : Filter → Result Bytes
  serialize f = write_to f

  unfoldable pub deserialize_bloom : Bytes → Result Filter
  deserialize_bloom bytes = read_from bytes
