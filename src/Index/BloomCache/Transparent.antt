-- ===== src/Index/BloomCache/Transparent.antt =====
-- A bloom cache against reading the file of every filter anew.
use bbdb.Base.{
  ℕ, ◌≡◌, refl, sym, ap, ap₂, ◌∙◌, List, [], ◌∷◌, some, arith, inl, inr, Bool, Bool-cases,
  Option-cases, some-injective, length, Result, ok, err,
}
use bbdb.Base.Int.{ℤ}
use bbdb.Base.Bytes.{eq_bytes, eq_bytes→eq}
use bbdb.Files.{Fs}
use bbdb.Block.Bloom.{BloomLib, test_hash}
use bbdb.Meta.Keys.{BlockId}
use bbdb.Tier.Local.{LocalStore}
use bbdb.Index.BloomCache.{
  Element, BloomCache, new_bloom_cache, evict, insert, on_miss, test, load_from_disk,
  unless_missing,
}
use bbdb.Index.BloomCache.Invariant.{make_room_lem, evict-IsShrunk}
use bbdb.Index.BloomCache.Bounded.{IsGood, new_bloom_cache-IsGood, test-IsGood}

-- The calls that a process makes of its cache.
pub data Request : Type 0 where
  test_key : BlockId → ℕ → Request
  evict_block : BlockId → Request

module _ (B : BloomLib) (fs : Fs) where
  open B use {Filter}

  -- What the file of a filter answers.
  abbrev pub answer_of : ℕ → Result (Filter × ℕ) → Result Bool
  answer_of kh (ok (bf, size)) = ok (test_hash B bf kh)
  answer_of kh (err e) = unless_missing e

  -- The answers to the tests of a sequence of calls.
  unfoldable pub answers : List Request → BloomCache Filter → List (Result Bool)
  answers [] c = []
  answers (test_key id kh ∷ rs) c = let (r, c') = test B fs id kh c in r ∷ answers rs c'
  answers (evict_block id ∷ rs) c = answers rs (evict id c)

  -- The answers of the files.
  unfoldable pub file_answers : LocalStore → List Request → List (Result Bool)
  file_answers store [] = []
  file_answers store (test_key id kh ∷ rs) =
      answer_of kh (load_from_disk B store fs id) ∷ file_answers store rs
  file_answers store (evict_block id ∷ rs) = file_answers store rs

  -- What is cached is what the files hold.
  pub record IsFresh (store : LocalStore) (c : BloomCache Filter) : Type 0 where
    pub good : IsGood c
    pub here : c.store ≡ store
    pub loaded :
        (id : BlockId) (e : Element Filter)
        → c.items id ≡ some e
        → load_from_disk B store fs id ≡ ok (e.filter, e.size)

  evict-IsFresh :
      (store : LocalStore) (id : BlockId) (c : BloomCache Filter)
      → IsFresh store c
      → IsFresh store (evict id c)
  evict-IsFresh store id c v =
      let w = evict-IsShrunk id c v.good.0 in
      record {
        good = (test-IsGood B fs id 0 c v.good).1;
        here = w.store ∙ v.here;
        loaded = λ j e h. v.loaded j e (w.items j e h);
      }

  test-loaded :
      (store : LocalStore) (id : BlockId) (kh : ℕ) (c : BloomCache Filter)
      → IsFresh store c
      → ((test B fs id kh c).0 ≡ answer_of kh (load_from_disk B store fs id))
        × ((test B fs id kh c).1.store ≡ store)
        × ((j : BlockId) (e : Element Filter)
            → (test B fs id kh c).1.items j ≡ some e
            → load_from_disk B store fs j ≡ ok (e.filter, e.size))
  unfolding test
  test-loaded store id kh c v = elim (Option-cases (c.items id)) [
    | inr (e, h) ↦ rw (h, test) (sym (ap (answer_of kh) (v.loaded id e h)), v.here, v.loaded)
    | inl n ↦
        rw (n, test)
          (missed (load_from_disk B c.store fs id) (ap (λ s. load_from_disk B s fs id) v.here))
  ]
    where
      missed :
          (r : Result (Filter × ℕ))
          → r ≡ load_from_disk B store fs id
          → ((on_miss B id kh c r).0 ≡ answer_of kh (load_from_disk B store fs id))
            × ((on_miss B id kh c r).1.store ≡ store)
            × ((j : BlockId) (e : Element Filter)
                → (on_miss B id kh c r).1.items j ≡ some e
                → load_from_disk B store fs j ≡ ok (e.filter, e.size))
      missed (err x) same = unfold on_miss in (ap (answer_of kh) same, v.here, v.loaded)
      missed (ok (bf, size)) same =
          let w = (make_room_lem (length c.order) size c v.good.0 (omega arith)).0 in
          unfold on_miss insert in
          (
            ap (answer_of kh) same,
            w.store ∙ v.here,
            λ j e h. elim (Bool-cases (eq_bytes id j)) [
              | inl t ↦
                  let new = some-injective _ e (rw t at h) in
                  ap (load_from_disk B store fs) (sym (eq_bytes→eq id j t))
                  ∙ sym same
                  ∙ ap (λ x. ok (x.filter, x.size)) new
              | inr g ↦ v.loaded j e (w.items j e (rw g at h))
            ],
          )

  -- A test answers as the file does, and leaves a cache of what the files hold.
  pub test-IsFresh :
      (store : LocalStore) (id : BlockId) (kh : ℕ) (c : BloomCache Filter)
      → IsFresh store c
      → ((test B fs id kh c).0 ≡ answer_of kh (load_from_disk B store fs id))
        × IsFresh store (test B fs id kh c).1
  test-IsFresh store id kh c v =
      let (same, here, loaded) = test-loaded store id kh c v in
      (same, record { good = (test-IsGood B fs id kh c v.good).0; here = here; loaded = loaded })

  answers-IsFresh :
      (store : LocalStore) (rs : List Request) (c : BloomCache Filter)
      → IsFresh store c
      → answers rs c ≡ file_answers store rs
  unfolding answers file_answers
  answers-IsFresh store [] c v = refl
  answers-IsFresh store (evict_block id ∷ rs) c v =
      answers-IsFresh store rs (evict id c) (evict-IsFresh store id c v)
  answers-IsFresh store (test_key id kh ∷ rs) c v =
      let (same, w) = test-IsFresh store id kh c v in
      ap₂ ◌∷◌ same (answers-IsFresh store rs (test B fs id kh c).1 w)

  -- While the files do not change, a cache of any size answers each test as reading the file of the
  -- filter does: with the filter's answer, with no for a missing file, and with the error of a file that
  -- cannot be read.
  pub answers_lem :
      (store : LocalStore) (cap : ℤ) (rs : List Request)
      → answers rs (new_bloom_cache store cap) ≡ file_answers store rs
  answers_lem store cap rs = answers-IsFresh store rs (new_bloom_cache store cap) (record {
    good = new_bloom_cache-IsGood store cap;
    here = unfold new_bloom_cache in refl;
    loaded = λ id e h. unfold new_bloom_cache in absurd (ground (arith, h));
  })
