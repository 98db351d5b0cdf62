-- ===== src/Base/Errors.antt =====
-- Go's (value, error) pair as a value, and the errors of this program.
use Prim.Native.Nat.{ℕ}
use mathlib.Core.Path.{◌≡◌, refl}
use mathlib.Core.Bool.{Bool}
use bbdb.Base.Tests.{if◌then◌else◌}
use mathlib.Core.Logic.{◌⊎◌, inl, inr}

-- The errors that the functions of BBDB make themselves, and `io` for one that comes from the
-- storage engine, the file system or the compressor. `panic` is a read beyond a slice.
pub data Error : Type 0 where
  header_too_short footer_too_short block_too_small : ℕ → Error
  bad_header_magic bad_footer_magic : Error
  header_checksum : ℕ → ℕ → Error
  column_not_multiple truncated_prefix truncated_payload short_read : Error
  block_meta_too_short migration_meta_too_short : Error
  invalid_wal_key invalid_block_key invalid_idx_key invalid_expiry_key : Error
  invalid_migration_key missing_separator : Error
  invalid_block_id not_found empty_partition_key empty_range : Error
  cancelled panic not_exist : Error
  io : ℕ → Error

pub data Result {ℓ} (A : Type ℓ) : Type ℓ where
  ok : A → Result A
  err : Error → Result A

module _ {ℓ} {A : Type ℓ} where
  pub Result-cases : (r : Result A) → ((a : A) × (r ≡ ok a)) ⊎ ((e : Error) × (r ≡ err e))
  Result-cases (err e) = inr (e, refl)
  Result-cases (ok a) = inl (a, refl)

  pub ok-injective : (a b : A) → ok a ≡ ok b → a ≡ b
  ok-injective a b e = cc

  module _ {κ} {B : Type κ} where
    -- `if err != nil { return err }` behind a call.
    infixl 5 ◌>>=◌
    abbrev pub ◌>>=◌ : Result A → (A → Result B) → Result B
    ◌>>=◌ (err failure) next = err failure
    ◌>>=◌ (ok value) next = next value

    -- A chain that gives a result has a first step that gives one.
    pub >>=-eq-ok :
        (first : Result A) (next : A → Result B) {r : B}
        → (first >>= next) ≡ ok r
        → (x : A) × (first ≡ ok x) × (next x ≡ ok r)
    >>=-eq-ok (err failure) next h = cc
    >>=-eq-ok (ok x) next h = (x, refl, h)

-- An early return of an error.
abbrev pub guard : Bool → Error → Result (Unit {0})
guard holds failure = if holds then ok tt else err failure

-- A step of which only the error counts.
infixl 5 ◌>>◌
abbrev pub ◌>>◌ {κ} : {B : Type κ} → Result (Unit {0}) → Result B → Result B
◌>>◌ (err failure) next = err failure
◌>>◌ (ok done) next = next
