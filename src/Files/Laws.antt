-- ===== src/Files/Laws.antt =====
-- Reads of a file that was put together from parts.
use bbdb.Base.{
  ℕ, ◌^◌, ◌<◌, ◌≡◌, [], ◌∷◌, ◌++◌, length, ok, arith, length-append, take-append, drop-append,
}
use bbdb.Base.Bytes.{Bytes}
use bbdb.Files.{read_at}

-- A read at the start of a part, for its length, gives the part.
pub read_at-append :
    (before part after : Bytes) (n off : ℕ)
    → n ≡ length part
    → off ≡ length before
    → off < 2 ^ 63
    → read_at (before ++ (part ++ after)) n off ≡ ok part
unfolding read_at
read_at-append before [] after n off e f h = ground arith
read_at-append before (b ∷ part) after n off e f h = ground (
  arith,
  length-append before ((b ∷ part) ++ after),
  length-append part after,
  drop-append before ((b ∷ part) ++ after) off f,
  take-append (b ∷ part) after n e,
)
