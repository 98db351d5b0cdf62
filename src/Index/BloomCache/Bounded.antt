-- ===== src/Index/BloomCache/Bounded.antt =====
-- The invariant of a bloom cache through its operations.
use bbdb.Base.{
  ℕ, ◌≡◌, refl, sym, ap, ◌∙◌, List, false, none, some, ◌==◌, arith, inl, inr, Bool-cases,
  Option-cases, some-injective, length, Result, ok, err,
}
use bbdb.Base.Int.{ℤ, pos, ◌+ℤ◌}
use bbdb.Base.Bytes.{eq_bytes, eq_bytes_refl, eq_bytes→eq}
use bbdb.Files.{Fs}
use bbdb.Block.Bloom.{BloomLib}
use bbdb.Meta.Keys.{BlockId}
use bbdb.Tier.Local.{LocalStore}
use bbdb.Index.BloomCache.{
  Element, BloomCache, new_bloom_cache, set_item, move_to_front, evict, no_room, make_room, insert,
  on_miss, test, load_from_disk,
}
use bbdb.Index.BloomCache.Elements.{
  In, All-In, All-remove_mark, Distinct-remove_mark, remove_mark-ne, In-remove_mark, has_mark-In,
  In-unique, total_size-remove_mark, length-remove_mark,
}
use bbdb.Index.BloomCache.Invariant.{
  IsCache, IsBounded, IsShrunk, All-map, make_room_lem, evict-IsShrunk,
}

module _ {F : Type 0} where
  insert-IsCache :
      (id : BlockId) (bf : F) (size : ℕ) (c : BloomCache F)
      → IsCache c
      → c.items id ≡ none
      → IsCache (insert id bf size c)
  unfolding insert ◌+ℤ◌
  insert-IsCache id bf size c v miss = record {
    used = rw v.used (ground arith);
    distinct = (All-map _ _ c.order (λ f i h e. absurd (omega (arith, e))) v.marked, v.distinct);
    marked = (omega arith, All-map _ _ c.order (λ f i h. omega arith) v.marked);
    listed = (ground (arith, eq_bytes_refl id), All-map _ _ c.order (λ f i h. other f h) v.listed);
    backed = λ j f h. elim (Bool-cases (eq_bytes id j)) [
      | inl t ↦
          let same = some-injective _ f (rw t at h) in
          (ap (λ x. x.id) (sym same) ∙ eq_bytes→eq id j t, inl same)
      | inr g ↦ let (name, i) = v.backed j f (rw g at h) in (name, inr i)
    ];
  }
    where
      other :
          (f : Element F)
          → c.items f.id ≡ some f
          → set_item c.items id
              (some (record { mark = c.next_mark; id = id; filter = bf; size = size }))
              f.id
            ≡ some f
      other f h = elim (Bool-cases (eq_bytes id f.id)) [
        | inr g ↦ rw g h
        | inl t ↦ absurd (ground (arith, h, miss, ap c.items (eq_bytes→eq id f.id t)))
      ]

  insert-IsBounded :
      (id : BlockId) (bf : F) (size : ℕ) (c : BloomCache F)
      → no_room size c ≡ false
      → IsBounded (insert id bf size c)
  unfolding insert no_room
  insert-IsBounded id bf size c h = ground (arith, h)

  moved-IsCache :
      (e : Element F) (c : BloomCache F)
      → IsCache c
      → In e c.order
      → IsCache (record c { order = move_to_front e c.order })
  unfolding move_to_front
  moved-IsCache e c v i = rw (has_mark-In e c.order i) (record {
    used = v.used ∙ ap pos (total_size-remove_mark e c.order v.distinct i);
    distinct =
        (remove_mark-ne e.mark c.order v.distinct, Distinct-remove_mark e.mark c.order v.distinct);
    marked = (All-In _ e c.order v.marked i, All-remove_mark _ e.mark c.order v.marked);
    listed = (All-In _ e c.order v.listed i, All-remove_mark _ e.mark c.order v.listed);
    backed = λ id f h.
        let (name, j) = v.backed id f h in
        (
          name,
          elim (Bool-cases (f.mark == e.mark)) [
            | inl t ↦ inl (sym (In-unique f e c.order v.distinct j i (ground (arith, t))))
            | inr g ↦ inr (In-remove_mark f e.mark c.order j (ground (arith, g)))
          ],
        );
  })

  length-move_to_front :
      (e : Element F) (es : List (Element F)) → In e es → length (move_to_front e es) ≡ length es
  unfolding move_to_front
  length-move_to_front e es i = rw (has_mark-In e es i) (sym (length-remove_mark e es i))

-- The invariant.
abbrev pub IsGood : {F : Type 0} → BloomCache F → Type 0
IsGood c = IsCache c × IsBounded c

module _ (B : BloomLib) where
  open B use {Filter}

  on_miss-IsGood :
      (id : BlockId) (kh : ℕ) (c : BloomCache Filter) (r : Result (Filter × ℕ))
      → IsGood c
      → c.items id ≡ none
      → IsGood (on_miss B id kh c r).1
  unfolding on_miss
  on_miss-IsGood id kh c (ok (bf, size)) v miss =
      let (w, room) = make_room_lem (length c.order) size c v.0 (omega arith) in
      (
        insert-IsCache id bf size (make_room (length c.order) size c) w.cache still,
        insert-IsBounded id bf size (make_room (length c.order) size c) room,
      )
    where
      still : (make_room (length c.order) size c).items id ≡ none
      still = elim (Option-cases ((make_room (length c.order) size c).items id)) [
        | inl n ↦ n
        | inr (e, h) ↦ absurd (
            ground (
              arith,
              miss,
              ((make_room_lem (length c.order) size c v.0 (omega arith)).0).items id e h,
            ))
      ]
  on_miss-IsGood id kh c (err e) v miss = v

  -- The map and the list of a cache agree, the memory that is counted is that of its filters, and under
  -- a cap it is within the cap but for a single filter that is larger: a test of a key and the
  -- eviction of a block keep this, whatever the file of a filter holds.
  pub test-IsGood :
      (fs : Fs) (id : BlockId) (kh : ℕ) (c : BloomCache Filter)
      → IsGood c
      → IsGood (test B fs id kh c).1 × IsGood (evict id c)
  unfolding test
  test-IsGood fs id kh c v = (tested, shrunk (evict id c) (evict-IsShrunk id c v.0))
    where
      tested : IsGood (test B fs id kh c).1
      tested = elim (Option-cases (c.items id)) [
        | inl n ↦ rw (n, test) (on_miss-IsGood id kh c (load_from_disk B c.store fs id) v n)
        | inr (e, h) ↦
            let i = (v.0.backed id e h).1 in
            rw (h, test)
              (moved-IsCache e c v.0 i, λ p q. rw (length-move_to_front e c.order i) (v.1 p q))
      ]

      shrunk : (d : BloomCache Filter) → IsShrunk c d → IsGood d
      shrunk d w =
          (w.cache, ground (arith, v.1, v.0.used, w.cache.used, w.max_mem, w.smaller, w.shorter))

-- A new cache is empty.
pub new_bloom_cache-IsGood :
    {F : Type 0} (store : LocalStore) (cap : ℤ) → IsGood (new_bloom_cache {F = F} store cap)
unfolding new_bloom_cache
new_bloom_cache-IsGood store cap = (
  record {
    used = refl;
    distinct = tt;
    marked = tt;
    listed = tt;
    backed = λ id e h. absurd (ground (arith, h));
  },
  λ p q. omega arith,
)
