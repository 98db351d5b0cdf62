-- ===== src/Index/BloomCache.antt =====
-- internal/index/bloom_cache.go: bloom filters in memory, the one used last at the front. An element
-- of a container/list is its value and a mark, which stands for its address. The mutex makes each
-- operation one step. The sizes of what is in memory do not overflow an int64.
pub mod Elements
pub mod Invariant
pub mod Bounded
pub mod Transparent
use bbdb.Base.{
  ℕ, zero, suc, ◌+◌, ◌≡◌, List, [], ◌∷◌, Bool, true, false, Option, none, some, ◌==◌, ◌&&◌, ltb,
  if◌then◌else◌, length, Result, ok, err, Error, not_exist, ◌>>=◌,
}
use bbdb.Base.Int.{ℤ, pos, sub_ℕ, ◌+ℤ◌, ltb_ℤ}
use bbdb.Base.Bytes.{Bytes, eq_bytes}
use bbdb.Base.State.{St}
use bbdb.Files.{Fs, read_file}
use bbdb.Block.Bloom.{BloomLib, test_hash, deserialize_bloom}
use bbdb.Meta.Keys.{BlockId}
use bbdb.Tier.Local.{LocalStore, bloom_path}

pub record Element (Filter : Type 0) : Type 0 where
  pub mark : ℕ
  pub id : BlockId
  pub filter : Filter
  pub size : ℕ

-- `next_mark` is the address of the next element that is made.
pub record BloomCache (Filter : Type 0) : Type 0 where
  pub store : LocalStore
  pub max_mem : ℤ
  pub used_mem : ℤ
  pub items : BlockId → Option (Element Filter)
  pub order : List (Element Filter)
  pub next_mark : ℕ

module _ {F : Type 0} where
  unfoldable pub new_bloom_cache : LocalStore → ℤ → BloomCache F
  new_bloom_cache store max_mem_bytes = record {
    store = store;
    max_mem = max_mem_bytes;
    used_mem = pos 0;
    items = λ id. none;
    order = [];
    next_mark = 0;
  }

  -- `items[id] = v`, or `delete(items, id)`.
  abbrev pub set_item :
      (BlockId → Option (Element F)) → BlockId → Option (Element F) → BlockId → Option (Element F)
  set_item f id v j = if eq_bytes id j then v else f j

  -- `order.Remove(e)`
  unfoldable pub remove_mark : ℕ → List (Element F) → List (Element F)
  remove_mark m [] = []
  remove_mark m (e ∷ es) = let rest = remove_mark m es in if e.mark == m then es else e ∷ rest

  unfoldable pub has_mark : ℕ → List (Element F) → Bool
  has_mark m [] = false
  has_mark m (e ∷ es) = if e.mark == m then true else has_mark m es

  -- `order.MoveToFront(e)`
  unfoldable pub move_to_front : Element F → List (Element F) → List (Element F)
  unfolding has_mark remove_mark
  move_to_front e es = if has_mark e.mark es then e ∷ remove_mark e.mark es else es

  -- `order.Back()`
  unfoldable pub back : List (Element F) → Option (Element F)
  back [] = none
  back (e ∷ []) = some e
  back (e ∷ f ∷ es) = back (f ∷ es)

  unfoldable pub remove_elem : Element F → BloomCache F → BloomCache F
  unfolding remove_mark
  remove_elem e c = record c {
    order = remove_mark e.mark c.order;
    items = set_item c.items e.id none;
    used_mem = c.used_mem +ℤ sub_ℕ 0 e.size;
  }

  unfoldable pub evict_oldest : BloomCache F → BloomCache F
  unfolding remove_elem back
  evict_oldest c = elim (back c.order) [ none ↦ c | some e ↦ remove_elem e c ]

  unfoldable pub evict : BlockId → BloomCache F → BloomCache F
  unfolding remove_elem
  evict id c = elim (c.items id) [ none ↦ c | some e ↦ remove_elem e c ]

  -- The condition of the loop in `Test`.
  unfoldable pub no_room : ℕ → BloomCache F → Bool
  no_room size c =
      ltb_ℤ (pos 0) c.max_mem
      && (ltb_ℤ c.max_mem (c.used_mem +ℤ pos size) && ltb 0 (length c.order))

  -- Each turn removes an element: as many turns as there are elements are enough.
  unfoldable pub make_room : ℕ → ℕ → BloomCache F → BloomCache F
  unfolding no_room
  make_room zero size c = c
  make_room (suc fuel) size c =
      let next = make_room fuel size (evict_oldest c) in if no_room size c then next else c

  unfoldable pub insert : BlockId → F → ℕ → BloomCache F → BloomCache F
  insert id filter size c =
      let e : Element F = record { mark = c.next_mark; id = id; filter = filter; size = size } in
      record c {
        order = e ∷ c.order;
        items = set_item c.items id (some e);
        used_mem = c.used_mem +ℤ pos size;
        next_mark = suc c.next_mark;
      }

-- A block without a filter was deleted.
unfoldable pub unless_missing : Error → Result Bool
unless_missing not_exist = ok false
unless_missing e = err e

module _ (B : BloomLib) where
  open B use {Filter}

  unfoldable pub load_from_disk : LocalStore → Fs → BlockId → Result (Filter × ℕ)
  load_from_disk store fs id = do
    bytes ← read_file fs (bloom_path store id)
    bf ← deserialize_bloom B bytes
    ok (bf, length bytes)

  -- What follows a miss.
  unfoldable pub on_miss :
      BlockId → ℕ → BloomCache Filter → Result (Filter × ℕ) → Result Bool × BloomCache Filter
  unfolding make_room insert unless_missing
  on_miss id key_hash c (err e) = (unless_missing e, c)
  on_miss id key_hash c (ok (bf, size)) =
      (ok (test_hash B bf key_hash), insert id bf size (make_room (length c.order) size c))

  unfoldable pub test : Fs → BlockId → ℕ → St (BloomCache Filter) Bool
  unfolding on_miss load_from_disk move_to_front
  test fs id key_hash c = elim (c.items id) [
    | some e ↦ (ok (test_hash B e.filter key_hash), record c { order = move_to_front e c.order })
    | none ↦ on_miss id key_hash c (load_from_disk c.store fs id)
  ]
