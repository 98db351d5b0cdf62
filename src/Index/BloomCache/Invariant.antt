-- ===== src/Index/BloomCache/Invariant.antt =====
-- The map and the list of a bloom cache agree, and its memory has a bound.
use bbdb.Base.{
  ℕ, zero, suc, ◌≤◌, ◌<◌, ◌≡◌, ◌≢◌, refl, sym, ap, ◌∙◌, List, [], ◌∷◌, true, false, none, some,
  arith, All, inl, inr, Bool-cases, Option-cases, some-injective, length,
}
use bbdb.Base.Int.{pos, ◌+ℤ◌, ltb_ℤ}
use bbdb.Base.Bytes.{eq_bytes, eq_bytes_refl, eq_bytes→eq}
use bbdb.Meta.Keys.{BlockId}
use bbdb.Index.BloomCache.{
  Element, BloomCache, set_item, remove_mark, back, remove_elem, evict_oldest, evict, no_room,
  make_room,
}
use bbdb.Index.BloomCache.Elements.{
  total_size, In, Distinct, All-In, All-remove_mark, Distinct-remove_mark, remove_mark-ne,
  In-remove_mark, In-unique, total_size-remove_mark, length-remove_mark, back-In,
}

module _ {F : Type 0} where
  -- The memory that is counted is that of the elements, which have addresses of their own, and the map
  -- leads to exactly these elements.
  pub record IsCache (c : BloomCache F) : Type 0 where
    pub used : c.used_mem ≡ pos (total_size c.order)
    pub distinct : Distinct c.order
    pub marked : All (λ e. e.mark < c.next_mark) c.order
    pub listed : All (λ e. c.items e.id ≡ some e) c.order
    pub backed : (id : BlockId) (e : Element F) → c.items id ≡ some e → (e.id ≡ id) × In e c.order

  -- Under a cap, the memory is within it, but for a single filter that is larger than it.
  abbrev pub IsBounded : BloomCache F → Type 0
  IsBounded c =
      ltb_ℤ (pos 0) c.max_mem ≡ true → ltb_ℤ c.max_mem c.used_mem ≡ true → length c.order ≤ 1

  pub All-map :
      (P Q : Element F → Type 0) (es : List (Element F))
      → ((e : Element F) → In e es → P e → Q e)
      → All P es
      → All Q es
  All-map P Q [] f a = tt
  All-map P Q (e ∷ es) f a = (f e (inl refl) a.0, All-map P Q es (λ x i. f x (inr i)) a.1)

  remove_elem-IsCache :
      (e : Element F) (c : BloomCache F) → IsCache c → In e c.order → IsCache (remove_elem e c)
  unfolding remove_elem ◌+ℤ◌
  remove_elem-IsCache e c v i = record {
    used = rw v.used (ground (arith, total_size-remove_mark e c.order v.distinct i));
    distinct = Distinct-remove_mark e.mark c.order v.distinct;
    marked = All-remove_mark _ e.mark c.order v.marked;
    listed =
        All-map (λ f. (c.items f.id ≡ some f) × (f.mark ≢ e.mark)) _ (remove_mark e.mark c.order)
          (λ f j p. kept f p.0 p.1)
          (both _ _ (remove_mark e.mark c.order) (All-remove_mark _ e.mark c.order v.listed)
            (remove_mark-ne e.mark c.order v.distinct));
    backed = λ id f h. elim (Bool-cases (eq_bytes e.id id)) [
      | inl t ↦ absurd (ground (arith, t, h))
      | inr g ↦
          let old : c.items id ≡ some f = ground (arith, g, h) in
          let (name, j) = v.backed id f old in
          (
            name,
            In-remove_mark f e.mark c.order j (λ same. absurd (
                ground (
                  arith,
                  g,
                  eq_bytes_refl id,
                  sym (ap (λ x. x.id) (In-unique f e c.order v.distinct j i same)) ∙ name,
                ))),
          )
    ];
  }
    where
      both :
          (P Q : Element F → Type 0) (es : List (Element F))
          → All P es
          → All Q es
          → All (λ x. P x × Q x) es
      both P Q [] a b = tt
      both P Q (x ∷ es) a b = ((a.0, b.0), both P Q es a.1 b.1)

      kept :
          (f : Element F)
          → c.items f.id ≡ some f
          → f.mark ≢ e.mark
          → set_item c.items e.id none f.id ≡ some f
      kept f p ne = elim (Bool-cases (eq_bytes e.id f.id)) [
        | inr g ↦ rw g p
        | inl t ↦ absurd (
            ne (
              ap (λ x. x.mark)
                (some-injective _ _ (
                  sym p
                  ∙ sym (ap c.items (eq_bytes→eq e.id f.id t))
                  ∙ All-In _ e c.order v.listed i))))
      ]

  -- What an eviction leaves of a cache: fewer entries, of the same store and under the same cap.
  pub record IsShrunk (c c' : BloomCache F) : Type 0 where
    pub cache : IsCache c'
    pub max_mem : c'.max_mem ≡ c.max_mem
    pub store : c'.store ≡ c.store
    pub items : (id : BlockId) (e : Element F) → c'.items id ≡ some e → c.items id ≡ some e
    pub smaller : total_size c'.order ≤ total_size c.order
    pub shorter : length c'.order ≤ length c.order

  pub IsShrunk-refl : (c : BloomCache F) → IsCache c → IsShrunk c c
  IsShrunk-refl c v = record {
    cache = v;
    max_mem = refl;
    store = refl;
    items = λ id e h. h;
    smaller = omega arith;
    shorter = omega arith;
  }

  IsShrunk-trans : (c d e : BloomCache F) → IsShrunk c d → IsShrunk d e → IsShrunk c e
  IsShrunk-trans c d e v w = record {
    cache = w.cache;
    max_mem = w.max_mem ∙ v.max_mem;
    store = w.store ∙ v.store;
    items = λ id x h. v.items id x (w.items id x h);
    smaller = omega (arith, v.smaller, w.smaller);
    shorter = omega (arith, v.shorter, w.shorter);
  }

  remove_elem-IsShrunk :
      (e : Element F) (c : BloomCache F) → IsCache c → In e c.order → IsShrunk c (remove_elem e c)
  remove_elem-IsShrunk e c v i = record {
    cache = remove_elem-IsCache e c v i;
    max_mem = unfold remove_elem in refl;
    store = unfold remove_elem in refl;
    items = λ id f h. unfold remove_elem in dropped id f h;
    smaller = unfold remove_elem in omega (arith, total_size-remove_mark e c.order v.distinct i);
    shorter = unfold remove_elem in omega (arith, length-remove_mark e c.order i);
  }
    where
      dropped :
          (id : BlockId) (f : Element F)
          → set_item c.items e.id none id ≡ some f
          → c.items id ≡ some f
      dropped id f h = elim (Bool-cases (eq_bytes e.id id)) [
        | inl t ↦ absurd (ground (arith, t, h))
        | inr g ↦ ground (arith, g, h)
      ]

  pub evict-IsShrunk : (id : BlockId) (c : BloomCache F) → IsCache c → IsShrunk c (evict id c)
  unfolding evict
  evict-IsShrunk id c v = elim (Option-cases (c.items id)) [
    | inl n ↦ rw (n, evict) (IsShrunk-refl c v)
    | inr (e, h) ↦ rw (h, evict) (remove_elem-IsShrunk e c v (v.backed id e h).1)
  ]

  back-none : (es : List (Element F)) → back es ≡ none → 0 < length es → ⊥
  unfolding back
  back-none [] h p = absurd (omega arith)
  back-none (e ∷ []) h p = absurd (ground (arith, h))
  back-none (e ∷ f ∷ es) h p = back-none (f ∷ es) h (omega arith)

  -- An eviction of the oldest removes one element, where there is one.
  evict_oldest-IsShrunk :
      (c : BloomCache F)
      → IsCache c
      → IsShrunk c (evict_oldest c)
        × (0 < length c.order → length (evict_oldest c).order < length c.order)
  unfolding evict_oldest
  evict_oldest-IsShrunk c v = elim (Option-cases (back c.order)) [
    | inl n ↦ rw (n, evict_oldest) (IsShrunk-refl c v, λ h. absurd (back-none c.order n h))
    | inr (e, h) ↦
        let i = back-In e c.order h in
        rw (h, evict_oldest)
          (
            remove_elem-IsShrunk e c v i,
            λ p. unfold remove_elem in omega (arith, length-remove_mark e c.order i),
          )
  ]

  -- The loop ends with room, or with an empty list.
  pub make_room_lem :
      (fuel size : ℕ) (c : BloomCache F)
      → IsCache c
      → length c.order ≤ fuel
      → IsShrunk c (make_room fuel size c) × (no_room size (make_room fuel size c) ≡ false)
  unfolding make_room no_room
  make_room_lem zero size c v h = (IsShrunk-refl c v, ground arith)
  make_room_lem (suc fuel) size c v h = elim (Bool-cases (no_room size c)) [
    | inr f ↦ rw f (IsShrunk-refl c v, f)
    | inl t ↦
        let (w, less) = evict_oldest-IsShrunk c v in
        let some_left : 0 < length c.order = ground (arith, t) in
        let (x, done) =
          make_room_lem fuel size (evict_oldest c) w.cache (omega (arith, less some_left)) in
        rw t (IsShrunk-trans c _ _ w x, done)
  ]
