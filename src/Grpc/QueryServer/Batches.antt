-- ===== src/Grpc/QueryServer/Batches.antt =====
-- The batches of the loop.
use bbdb.Base.{
  ℕ, zero, suc, ◌+◌, ◌-◌, ◌≤◌, ◌<◌, ◌≡◌, refl, sym, ap, ◌∙◌, inl, inr, List, [], ◌∷◌, ◌++◌, true,
  false, none, ok, arith, ltb, length, take, drop, take-append-drop, length-take, length-drop,
  take_all, append_assoc, append-nil, Bool-cases, ltb→le,
}
use bbdb.Grpc.QueryServer.{ProtoEvent, QueryResponse, Stream, end_of, batch_from, send_batches}

-- The events of all messages, one after the other.
abbrev pub all_sent : List QueryResponse → List ProtoEvent
all_sent [] = []
all_sent (r ∷ rs) = r.events ++ all_sent rs

-- An answer of `n` events: full batches of 256, and a last message that says so and has the total.
abbrev pub IsAnswer : ℕ → List QueryResponse → Type 0
IsAnswer n [] = true ≡ false
IsAnswer n (r ∷ []) =
    (r.is_last ≡ true) × (r.total ≡ n) × (r.error ≡ none) × (length r.events ≤ 256)
IsAnswer n (r ∷ s ∷ rs) =
    ((r.is_last ≡ false) × (r.total ≡ 0) × (r.error ≡ none) × (length r.events ≡ 256))
    × IsAnswer n (s ∷ rs)

IsAnswer-cons :
    (n : ℕ) (r : QueryResponse) (rs : List QueryResponse)
    → (r.is_last ≡ false) × (r.total ≡ 0) × (r.error ≡ none) × (length r.events ≡ 256)
    → IsAnswer n rs
    → IsAnswer n (r ∷ rs)
IsAnswer-cons n r [] h a = absurd (ground (arith, a))
IsAnswer-cons n r (s ∷ rs) h a = (h, a)

drop-drop {ℓ} : {A : Type ℓ} (m n k : ℕ) (xs : List A) → k ≡ m + n → drop n (drop m xs) ≡ drop k xs
drop-drop zero n k xs e = ap (λ j. drop j xs) {y = k} (omega arith)
drop-drop (suc m) zero zero [] e = refl
drop-drop (suc m) (suc n) zero [] e = refl
drop-drop (suc m) zero (suc k) [] e = refl
drop-drop (suc m) (suc n) (suc k) [] e = refl
drop-drop (suc m) n zero (x ∷ xs) e = absurd (omega arith)
drop-drop (suc m) n (suc k) (x ∷ xs) e = drop-drop m n k xs (omega arith)

-- A stream that takes every message.
abbrev pub Open : Stream → Type 0
Open st = (k : ℕ) → st.refuses k ≡ false

abbrev pub with_sent : Stream → List QueryResponse → Stream
with_sent st msgs = record st { sent = st.sent ++ msgs }

module _ (total : ℕ) (events : List ProtoEvent) where
  send_batches-done :
      (fuel start : ℕ) (st : Stream)
      → length events ≤ start
      → send_batches total events (suc fuel) start st ≡ (ok tt, st)
  unfolding send_batches
  send_batches-done fuel start st h = ground (arith, h)

  pub send_batches_lem :
      (fuel start : ℕ) (st : Stream)
      → Open st
      → start < length events
      → length events < fuel + start
      → (msgs : List QueryResponse) × (send_batches total events fuel start st
          ≡ (ok tt, with_sent st msgs))
        × (all_sent msgs ≡ drop start events)
        × IsAnswer total msgs
  unfolding send_batches
  send_batches_lem zero start st o h f = absurd (omega arith)
  send_batches_lem (suc zero) start st o h f = absurd (omega arith)
  send_batches_lem (suc (suc fuel)) start st o h f =
      elim (Bool-cases (ltb (start + 256) (length events))) [
        | inl t ↦
            let (msgs, p, q, a) =
              send_batches_lem (suc fuel) (start + 256) sent_one o (ground (arith, t))
                (omega arith) in
            let full : end_of total events start - start ≡ 256 = ground (arith, t) in
            (
              batch ∷ msgs,
              step
                  ∙ p
                  ∙ ap (λ l. (ok tt, record st { sent = l }))
                      (append_assoc st.sent (batch ∷ []) msgs),
              ap (λ l. batch.events ++ l) q ∙ seam full,
              IsAnswer-cons total batch msgs
                  (
                    ground (arith, t),
                    ground (arith, t),
                    refl,
                    omega (
                      arith,
                      full,
                      ground_lt t,
                      length-take (end_of total events start - start) (drop start events),
                      length-drop start events,
                    ),
                  )
                  a,
            )
        | inr g ↦
            let whole : end_of total events start ≡ length events = ground (arith, g) in
            (
              batch ∷ [],
              step ∙ send_batches-done fuel (start + 256) sent_one (ground (arith, g)),
              append-nil _
                  ∙ take_all (end_of total events start - start) (drop start events)
                      (omega (arith, whole, length-drop start events)),
              (
                ground (arith, whole),
                ground (arith, whole),
                refl,
                omega (
                  arith,
                  whole,
                  ltb→le (start + 256) (length events) g,
                  length-take (end_of total events start - start) (drop start events),
                  length-drop start events,
                ),
              ),
            )
      ]
    where
      batch : QueryResponse
      batch = batch_from total events start

      sent_one : Stream
      sent_one = with_sent st (batch_from total events start ∷ [])

      step :
          send_batches total events (suc (suc fuel)) start st
          ≡ send_batches total events
              (suc fuel)
              (start + 256)
              (with_sent st (batch_from total events start ∷ []))
      step = ground (arith, h, o (length st.sent))

      seam :
          end_of total events start - start ≡ 256
          → take (end_of total events start - start) (drop start events)
              ++ drop (start + 256) events
            ≡ drop start events
      seam full =
          ap (λ k. take k (drop start events) ++ drop (start + 256) events) full
          ∙ ap (λ l. take 256 (drop start events) ++ l)
              (sym (drop-drop start 256 (start + 256) events refl))
          ∙ take-append-drop 256 (drop start events)

      ground_lt : ltb (start + 256) (length events) ≡ true → start + 256 < length events
      ground_lt t = ground (arith, t)
