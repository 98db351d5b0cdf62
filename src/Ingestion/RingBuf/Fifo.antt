-- ===== src/Ingestion/RingBuf/Fifo.antt =====
-- The ring of internal/ingestion/ringbuf.go seen as a bounded queue.
use Prim.Native.Nat.{bit_and}
use bbdb.Base.{
  ℕ, zero, suc, ◌+◌, ◌-◌, ◌%◌, ◌^◌, ◌≤◌, ◌<◌, ◌≡◌, refl, sym, ap, ◌∙◌, ◌≢◌, ◌⊎◌, inl, inr, Bool,
  List, [], ◌∷◌, ◌++◌, none, some, arith, ltb, ◌==◌, if◌then◌else◌, length, get_or, set, length-set,
  get_or-set_self, get_or-set_ne, Bool-cases,
}
use bbdb.Base.Bits.{bit_and-mask, mod-word, mod-ne, pow_positive}
use native.Mathlib.Nat.{mod-lt, pow-le-pow_right}
use bbdb.Block.Event.{Event, zero_event}
use bbdb.Ingestion.RingBuf.{
  RingBuf, sub_u64, next, pushed, stopped, again, push_turn, pop, drain_all,
}

-- A ring of 2 ^ k slots, no more of them in use than there are.
pub record IsRing (k : ℕ) (rb : RingBuf) : Type 0 where
  pub bits : k ≤ 63
  pub size : length rb.buf ≡ 2 ^ k
  pub mask : rb.mask ≡ 2 ^ k - 1
  pub head : rb.head < 2 ^ 64
  pub tail : rb.tail < 2 ^ 64
  pub used : sub_u64 rb.head rb.tail ≤ 2 ^ k

-- The `n` events from the counter `p` on.
abbrev pub items : List Event → ℕ → ℕ → ℕ → List Event
items buf mask zero p = []
items buf mask (suc n) p = get_or buf (bit_and p mask) zero_event ∷ items buf mask n (next p)

-- What the ring holds, the oldest event first.
abbrev pub contents : RingBuf → List Event
contents rb = items rb.buf rb.mask (sub_u64 rb.head rb.tail) rb.tail

pub items-snoc :
    (buf : List Event) (mask n p : ℕ)
    → p < 2 ^ 64
    → items buf mask (suc n) p
      ≡ items buf mask n p ++ get_or buf (bit_and ((p + n) % 2 ^ 64) mask) zero_event ∷ []
items-snoc buf mask zero p h = ap (λ x. get_or buf (bit_and x mask) zero_event ∷ []) (omega arith)
items-snoc buf mask (suc n) p h = ap (◌∷◌ (get_or buf (bit_and p mask) zero_event)) (
    items-snoc buf mask n (next p) (omega arith)
    ∙ ap (λ x. items buf mask n (next p) ++ get_or buf (bit_and x mask) zero_event ∷ [])
        (omega arith))

pub length-items : (buf : List Event) (mask n p : ℕ) → length (items buf mask n p) ≡ n
length-items buf mask zero p = refl
length-items buf mask (suc n) p = ap suc (length-items buf mask n (next p))

module _ (k : ℕ) (small : k ≤ 63) where
  pub slot-ne :
      (p d h : ℕ)
      → 0 < d
      → d < 2 ^ k
      → h ≡ (p + d) % 2 ^ 64
      → bit_and h (2 ^ k - 1) ≢ bit_and p (2 ^ k - 1)
  slot-ne p d h pos lt e q = mod-ne p d (2 ^ k) pos lt (
      sym (mod-word (p + d) k (omega arith))
      ∙ ap (λ x. x % 2 ^ k) (sym e)
      ∙ sym (bit_and-mask h k)
      ∙ q
      ∙ bit_and-mask p k)

  -- A write to the slot of a later counter, less than a lap ahead, leaves the items.
  pub items-set :
      (buf : List Event) (e : Event) (h n d p : ℕ)
      → n ≤ d
      → d < 2 ^ k
      → h ≡ (p + d) % 2 ^ 64
      → items (set buf (bit_and h (2 ^ k - 1)) e) (2 ^ k - 1) n p ≡ items buf (2 ^ k - 1) n p
  items-set buf e h zero d p le lt q = refl
  items-set buf e h (suc n) d p le lt q =
      rw
        (
          get_or-set_ne buf e zero_event (slot-ne p d h (omega arith) lt q),
          items-set buf e h n (d - 1) (next p) (omega arith) (omega arith) (omega arith),
        )
        refl

  pub slot_lt : (p : ℕ) → bit_and p (2 ^ k - 1) < 2 ^ k
  slot_lt p = rw (bit_and-mask p k) (mod-lt p (pow_positive k))

pub pow_bound : (k : ℕ) → k ≤ 63 → 2 ^ k ≤ 2 ^ 63
pow_bound k h = pow-le-pow_right {n = 2} (omega arith) h

module _ (k : ℕ) (rb : RingBuf) (v : IsRing k rb) where
  abbrev used : ℕ
  used = sub_u64 rb.head rb.tail

  abbrev stored : Event → RingBuf
  stored e = record rb { buf = set rb.buf (bit_and rb.head rb.mask) e; head = next rb.head }

  stored-IsRing : (e : Event) → used < 2 ^ k → IsRing k (stored e)
  stored-IsRing e room = record {
    bits = v.bits;
    size = length-set rb.buf (bit_and rb.head rb.mask) e ∙ v.size;
    mask = v.mask;
    head = omega arith;
    tail = v.tail;
    used = omega (arith, v.head, v.tail, pow_bound k v.bits);
  }

  stored-contents : (e : Event) → used < 2 ^ k → contents (stored e) ≡ contents rb ++ e ∷ []
  stored-contents e room =
      ap (λ n. items (stored e).buf rb.mask n rb.tail) grown
      ∙ items-snoc (stored e).buf rb.mask used rb.tail v.tail
      ∙ rw (here, older, written) refl
    where
      grown : sub_u64 (next rb.head) rb.tail ≡ suc used
      grown = omega (arith, v.head, v.tail, pow_bound k v.bits)

      here : (rb.tail + used) % 2 ^ 64 ≡ rb.head
      here = omega (arith, v.head, v.tail)

      older : items (stored e).buf rb.mask used rb.tail ≡ contents rb
      older =
          rw v.mask
            (items-set k v.bits rb.buf e rb.head used used rb.tail (omega arith) room (sym here))

      written : get_or (stored e).buf (bit_and rb.head rb.mask) zero_event ≡ e
      written =
          get_or-set_self rb.buf (bit_and rb.head rb.mask) e zero_event
            (rw (v.mask, v.size) (slot_lt k v.bits rb.head))

  -- A turn of the loop of `Push` puts the event behind the events that the ring holds if fewer
  -- than its size are there, and keeps the ring well-formed. If the ring is full it stores
  -- nothing: it stops if the context is done, and goes round again if not.
  pub push_turn_lem :
      (e : Event) (done : Bool)
      → ((length (contents rb) < 2 ^ k)
          × (rb' : RingBuf) × (push_turn rb e done ≡ pushed rb')
          × IsRing k rb'
          × (contents rb' ≡ contents rb ++ e ∷ []))
        ⊎ ((length (contents rb) ≡ 2 ^ k)
            × (push_turn rb e done ≡ (if done then stopped else again)))
  unfolding push_turn
  push_turn_lem e done = elim (Bool-cases (ltb used (length rb.buf))) [
    | inl t ↦
        let room : used < 2 ^ k = ground (arith, t, v.size) in
        inl (
          omega (arith, length-items rb.buf rb.mask used rb.tail, room),
          stored e,
          rw t refl,
          stored-IsRing e room,
          stored-contents e room,
        )
    | inr f ↦
        inr (ground (arith, f, v.size, v.used, length-items rb.buf rb.mask used rb.tail), rw f refl)
  ]

  -- `Pop` takes the oldest event and leaves the others, and says so if there is none.
  pub pop_lem :
      ((contents rb ≡ []) × (pop rb ≡ none))
      ⊎ ((e : Event) × (rb' : RingBuf) × (pop rb ≡ some (e, rb'))
          × IsRing k rb'
          × (contents rb ≡ e ∷ contents rb'))
  unfolding pop
  pop_lem = elim (Bool-cases (rb.tail == rb.head)) [
    | inl t ↦
        let none_used : used ≡ 0 = ground (arith, t, v.head, v.tail) in
        inl (ap (λ n. items rb.buf rb.mask n rb.tail) none_used, rw t refl)
    | inr f ↦
        let some_used : used ≡ suc (sub_u64 rb.head (next rb.tail)) =
          ground (arith, f, v.head, v.tail) in
        inr (
          get_or rb.buf (bit_and rb.tail rb.mask) zero_event,
          record rb { tail = next rb.tail },
          rw f refl,
          record {
            bits = v.bits;
            size = v.size;
            mask = v.mask;
            head = v.head;
            tail = omega arith;
            used = omega (arith, some_used, v.used);
          },
          ap (λ n. items rb.buf rb.mask n rb.tail) some_used,
        )
  ]

-- `DrainAll` returns all the events that the ring holds, the oldest first, and leaves it empty,
-- after one turn for each of them and one more.
pub drain_all_lem :
    (k : ℕ) (fuel : ℕ) (rb : RingBuf)
    → IsRing k rb
    → length (contents rb) < fuel
    → (rb' : RingBuf) × (drain_all fuel rb ≡ some (contents rb, rb'))
      × (contents rb' ≡ [])
      × IsRing k rb'
unfolding drain_all
drain_all_lem k zero rb v h = absurd (omega arith)
drain_all_lem k (suc fuel) rb v h = elim (pop_lem k rb v) [
  | inl (e, p) ↦ (rb, ground (arith, p, e), e, v)
  | inr (x, rb', p, w, e) ↦
      let (rb'', q, nil, w') = drain_all_lem k fuel rb' w (omega (arith, ap length e)) in
      (rb'', ground (arith, p, q, e), nil, w')
]
