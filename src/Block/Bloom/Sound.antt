-- ===== src/Block/Bloom/Sound.antt =====
-- Filters of internal/block/bloom.go and what was added to them.
use bbdb.Base.{
  ℕ, ◌≡◌, refl, sym, ap, ◌∙◌, inl, inr, List, [], ◌∷◌, ◌++◌, true, ok, ◌==◌, ==_iff, ==_refl,
  if◌then◌else◌, arith, Bool-cases, ◌>>=◌,
}
use bbdb.Base.Bytes.{Bytes}
use bbdb.Block.Memtable.{Memtable, contains, distinct, unique_key_hashes}
use bbdb.Block.Bloom.{
  BloomLib, uint64_to_bytes, add_hashes, build_bloom_from_memtable, test_hash, serialize,
  deserialize_bloom,
}

contains-append : (h : ℕ) (xs ys : List ℕ) → contains h xs ≡ true → contains h (xs ++ ys) ≡ true
unfolding contains
contains-append h [] ys e = absurd (ground (arith, e))
contains-append h (x ∷ xs) ys e = ground (arith, contains-append h xs ys)

contains-last : (h : ℕ) (xs : List ℕ) → contains h (xs ++ h ∷ []) ≡ true
unfolding contains
contains-last h [] = rw (==_refl h) refl
contains-last h (x ∷ xs) = ground (arith, contains-last h xs)

contains-distinct_seen :
    (h : ℕ) (seen hs : List ℕ) → contains h seen ≡ true → contains h (distinct seen hs) ≡ true
unfolding distinct
contains-distinct_seen h seen [] e = e
contains-distinct_seen h seen (x ∷ hs) e = elim (Bool-cases (contains x seen)) [
  | inl t ↦ rw t (contains-distinct_seen h seen hs e)
  | inr f ↦ rw f (contains-distinct_seen h (seen ++ x ∷ []) hs (contains-append h seen (x ∷ []) e))
]

pub contains-distinct :
    (h : ℕ) (seen hs : List ℕ) → contains h hs ≡ true → contains h (distinct seen hs) ≡ true
unfolding distinct contains
contains-distinct h seen [] e = absurd (ground (arith, e))
contains-distinct h seen (x ∷ hs) e = elim (Bool-cases (x == h)) [
  | inr f ↦
      contains-distinct h (if contains x seen then seen else seen ++ x ∷ []) hs
        (ground (arith, f, e))
  | inl t ↦
      let same : x ≡ h = (==_iff x h).0 t in
      elim (Bool-cases (contains x seen)) [
        | inl s ↦ rw s (contains-distinct_seen h seen hs (ap (λ y. contains y seen) (sym same) ∙ s))
        | inr s ↦ rw s (
            contains-distinct_seen h (seen ++ x ∷ []) hs
              (ap (λ y. contains h (seen ++ y ∷ [])) same ∙ contains-last h seen))
      ]
]

module _ (B : BloomLib) where
  open B use {Filter, Rate, new_with_estimates, add, test}

  add_hashes-kept :
      (f : Filter) (b : Bytes) (hs : List ℕ) → test f b ≡ true → test (add_hashes B f hs) b ≡ true
  unfolding add_hashes
  add_hashes-kept f b [] e = e
  add_hashes-kept f b (h ∷ hs) e =
      add_hashes-kept (add f (uint64_to_bytes h)) b hs (B.test-add_other f b (uint64_to_bytes h) e)

  add_hashes-test :
      (f : Filter) (k : ℕ) (hs : List ℕ)
      → contains k hs ≡ true
      → test (add_hashes B f hs) (uint64_to_bytes k) ≡ true
  unfolding add_hashes contains
  add_hashes-test f k [] e = absurd (ground (arith, e))
  add_hashes-test f k (h ∷ hs) e = elim (Bool-cases (h == k)) [
    | inr g ↦ add_hashes-test (add f (uint64_to_bytes h)) k hs (ground (arith, g, e))
    | inl t ↦
        let same : h ≡ k = (==_iff h k).0 t in
        add_hashes-kept (add f (uint64_to_bytes h)) (uint64_to_bytes k) hs (
          ap (λ x. test (add f (uint64_to_bytes x)) (uint64_to_bytes k)) same
          ∙ B.test-add f (uint64_to_bytes k))
  ]

  -- The bloom file of a memtable, read back, has a filter that finds the key hash of every row.
  pub build_bloom_from_memtable_lem :
      (mt : Memtable) (fpr : Rate) (key_hash : ℕ) (file : Bytes)
      → contains key_hash mt.key_hashes ≡ true
      → serialize B (build_bloom_from_memtable B mt fpr) ≡ ok file
      → (deserialize_bloom B file >>= (λ f. ok (test_hash B f key_hash))) ≡ ok true
  unfolding build_bloom_from_memtable test_hash unique_key_hashes serialize deserialize_bloom
  build_bloom_from_memtable_lem mt fpr key_hash file e w =
      rw (B.read-write (build_bloom_from_memtable B mt fpr) file w) (
        ap ok (
          add_hashes-test _ key_hash (unique_key_hashes mt)
            (contains-distinct key_hash [] mt.key_hashes e)))
