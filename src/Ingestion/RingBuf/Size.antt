-- ===== src/Ingestion/RingBuf/Size.antt =====
-- The size that a new ring gets.
use bbdb.Base.{
  ℕ, zero, suc, ◌+◌, ◌-◌, ◌*◌, ◌%◌, ◌^◌, ◌≤◌, ◌<◌, ◌≡◌, refl, ap, ◌⊎◌, inl, inr, true, [], some,
  arith, ltb, replicate, length-replicate, Bool-cases,
}
use bbdb.Base.Int.{ℤ, pos, negsuc, ltb_ℤ, leb_ℤ, ◌+ℤ◌, of_u64}
use bbdb.Block.Event.{zero_event}
use bbdb.Ingestion.RingBuf.{RingBuf, double_until, next_pow2, new_ring_buf}
use bbdb.Ingestion.RingBuf.Fifo.{IsRing, contents, pow_bound}

top : (j : ℕ) → 62 ≤ j + 0 → j ≤ 62 → 2 ^ j ≡ 2 ^ 62
top j a b = ap (λ x. 2 ^ x) {y = 62} (omega arith)

empty : ℕ → RingBuf
empty k = record { buf = replicate (2 ^ k) zero_event; mask = 2 ^ k - 1; head = 0; tail = 0 }

empty-IsRing : (k : ℕ) → k ≤ 63 → IsRing k (empty k)
unfolding empty
empty-IsRing k h = record {
  bits = h;
  size = length-replicate (2 ^ k) zero_event;
  mask = refl;
  head = omega arith;
  tail = omega arith;
  used = omega arith;
}

-- From 2 ^ j on, with as many turns left as there are powers of two up to 2 ^ 62.
double_until_lem :
    (fuel j n : ℕ)
    → 62 ≤ j + fuel
    → j ≤ 62
    → n ≤ 2 ^ 62
    → (j ≡ 0) ⊎ (2 ^ j < 2 * n)
    → (k : ℕ) × (double_until (suc fuel) (2 ^ j) (pos n) ≡ some (2 ^ k))
      × (k ≤ 62)
      × (n ≤ 2 ^ k)
      × ((k ≡ 0) ⊎ (2 ^ k < 2 * n))
unfolding double_until of_u64
double_until_lem zero j n a b c d = elim (Bool-cases (ltb (2 ^ j) n)) [
  | inl t ↦ absurd (ground (arith, t, top j a b))
  | inr f ↦ (j, ground (arith, f, pow_bound j (omega arith)), b, ground (arith, f), d)
]
double_until_lem (suc fuel) j n a b c d = elim (Bool-cases (ltb (2 ^ j) n)) [
  | inl t ↦ elim (Bool-cases (ltb j 62)) [
    | inl u ↦
        let (k, p, q, r, s) =
          double_until_lem fuel (suc j) n (omega arith) (ground (arith, u)) c
            (inr (ground (arith, t))) in
        let wrap : (2 ^ j * 2) % 2 ^ 64 ≡ 2 ^ suc j = ground (arith, t) in
        (k, ground (arith, t, pow_bound j (omega arith), wrap, p), q, r, s)
    | inr u ↦ absurd (ground (arith, t, u, top j (ground (arith, u)) b))
  ]
  | inr f ↦ (j, ground (arith, f, pow_bound j (omega arith)), b, ground (arith, f), d)
]

-- A ring made for at most 2 ^ 62 events is empty and well-formed, and its size is a power of two
-- that holds them, less than twice as many where that is more than one.
pub new_ring_buf_lem :
    (capacity : ℤ)
    → leb_ℤ capacity (pos (2 ^ 62)) ≡ true
    → (k : ℕ) × (rb : RingBuf) × (new_ring_buf capacity ≡ some rb)
      × IsRing k rb
      × (contents rb ≡ [])
      × (leb_ℤ capacity (pos (2 ^ k)) ≡ true)
      × ((k ≡ 0) ⊎ (ltb_ℤ (pos (2 ^ k)) (capacity +ℤ capacity) ≡ true))
unfolding new_ring_buf next_pow2 empty ◌+ℤ◌
new_ring_buf_lem (negsuc n) h =
    (0, empty 0, ground arith, empty-IsRing 0 (omega arith), refl, ground arith, inl refl)
new_ring_buf_lem (pos n) h = elim (Bool-cases (ltb 1 n)) [
  | inl t ↦
      let (k, p, q, r, s) =
        double_until_lem 64 0 n (omega arith) (omega arith) (ground (arith, h)) (inl refl) in
      (
        k,
        empty k,
        ground (arith, t, p),
        empty-IsRing k (omega arith),
        refl,
        ground (arith, r),
        elim s [ inl z ↦ inl z | inr l ↦ inr (ground (arith, l, t)) ],
      )
  | inr f ↦ (
    0,
    empty 0,
    ground (arith, f),
    empty-IsRing 0 (omega arith),
    refl,
    ground (arith, f),
    inl refl,
  )
]
