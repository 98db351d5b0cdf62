-- ===== src/Grpc/Interceptor.antt =====
-- internal/grpc/interceptor.go and internal/grpc/request_id.go: the interceptors give each call a request ID
-- and pass the answer of the handler on. Logging is left out.
use bbdb.Base.{ℕ, ◌^◌, ◌<◌, ◌≡◌, refl, Option, none, some, [], length, arith}
use bbdb.Base.Bytes.{Bytes}
use bbdb.Calendar.Digits.{hexadecimal, hexadecimal_injective}

-- `package context`: the values of keys of any type, of which the request ID is one. `rest` are the others.
pub record Context (R : Type 0) : Type 0 where
  pub request_id : Option Bytes
  pub rest : R

-- A random uint32 in eight hexadecimal digits.
unfoldable pub new_request_id : ℕ → Bytes
new_request_id random = hexadecimal 8 random

module _ {R : Type 0} where
  -- Without an ID, the empty text.
  unfoldable pub request_id_from_context : Context R → Bytes
  request_id_from_context ctx = elim ctx.request_id [ some id ↦ id | none ↦ [] ]

  -- A handler runs on a state and gives an answer, an error included.
  unfoldable pub unary_auth_interceptor :
      {S Request Answer : Type 0}
      → ℕ
      → Context R
      → Request
      → (Context R → Request → S → Answer × S)
      → S
      → Answer × S
  unfolding new_request_id
  unary_auth_interceptor random ctx req handler =
      handler (record ctx { request_id = some (new_request_id random) }) req

-- A stream with the context that `Context` returns.
pub record WrappedStream (Stream R : Type 0) : Type 0 where
  pub stream : Stream
  pub ctx : Context R

module _ {Stream R : Type 0} where
  unfoldable pub stream_auth_interceptor :
      {S Answer : Type 0}
      → ℕ
      → WrappedStream Stream R
      → (WrappedStream Stream R → S → Answer × S)
      → S
      → Answer × S
  unfolding new_request_id
  stream_auth_interceptor random ss handler =
      handler (record ss { ctx = record ss.ctx { request_id = some (new_request_id random) } })

-- What the handlers of two calls see as their request IDs: eight characters, and different ones where the
-- random numbers, which are uint32, are different.
pub new_request_id_injective :
    (n m : ℕ)
    → n < 2 ^ 32
    → m < 2 ^ 32
    → (length (new_request_id n) ≡ 8) × (new_request_id n ≡ new_request_id m → n ≡ m)
unfolding new_request_id hexadecimal
new_request_id_injective n m hn hm = (refl, hexadecimal_injective 8 n m (omega arith) (omega arith))
