-- ===== src/Meta/Expiry.antt =====
-- internal/meta/expiry.go: the keys by which blocks expire.
pub mod Scan
use bbdb.Base.{
  ℕ, ◌≡◌, List, [], ◌∷◌, ◌++◌, Bool, true, false, if◌then◌else◌, length, take, Result, ok, err,
  Error, map, ◌>>=◌,
}
use bbdb.Base.Bytes.{Bytes, eq_bytes}
use bbdb.Base.State.{St}
use bbdb.Kv.{Pebble}
use bbdb.Kv.Sorted.{Entries}
use bbdb.Meta.Engine.{set_one, delete_one}
use bbdb.Meta.Keys.{BlockId, prefix_expiry, expiry_key, expiry_key_upper_bound, parse_expiry_key}

pub record ExpiredEntry : Type 0 where
  pub id : BlockId
  pub hour : ℕ

abbrev pub has_prefix : Bytes → Bytes → Bool
has_prefix key p = eq_bytes (take (length p) key) p

-- The loop of `ScanExpiredEntries`: it ends at the first key without the prefix, and passes over
-- a key that does not parse.
unfoldable pub expired_entries : Entries → List ExpiredEntry
expired_entries [] = []
expired_entries ((k, v) ∷ es) =
    let rest = expired_entries es in
    if has_prefix k prefix_expiry
    then elim (parse_expiry_key k) [
      | ok (h, id) ↦ record { id = id; hour = h } ∷ rest
      | err e ↦ rest
    ]
    else []

-- The loop of `ScanExpired`.
unfoldable pub expired_ids : Entries → List BlockId
expired_ids [] = []
expired_ids ((k, v) ∷ es) = elim (parse_expiry_key k) [
  | ok (h, id) ↦ id ∷ expired_ids es
  | err e ↦ expired_ids es
]

module _ (P : Pebble) where
  open P use {Db, scan}

  unfoldable pub scan_expired_entries : Db → ℕ → Result (List ExpiredEntry)
  scan_expired_entries db now_hour = do
    es ← scan db prefix_expiry (expiry_key_upper_bound now_hour)
    ok (expired_entries es)

  unfoldable pub put_expiry_key : ℕ → BlockId → St Db (Unit {0})
  put_expiry_key unix_hour id = set_one P (expiry_key unix_hour id) []

  unfoldable pub delete_expiry_key : ℕ → BlockId → St Db (Unit {0})
  delete_expiry_key unix_hour id = delete_one P (expiry_key unix_hour id)

  unfoldable pub scan_expired : Db → ℕ → Result (List BlockId)
  scan_expired db now_hour = do
    es ← scan db prefix_expiry (expiry_key_upper_bound now_hour)
    ok (expired_ids es)
