-- ===== src/Query/BlockReader.antt =====
-- internal/query/block_reader.go: the events of one block file for a key in a range of time.
pub mod Sealed
use bbdb.Base.{
  ℕ, suc, ◌+◌, ◌-◌, ◌≤◌, ◌<◌, ◌≡◌, List, [], ◌∷◌, ◌++◌, Bool, true, false, ◌&&◌, Option, none, some,
  ltb, leb, ◌==◌, if◌then◌else◌, length, get_or, get_elem?, Result, ok, err, Error, block_too_small,
  panic, ◌>>=◌, ◌>>◌, guard, not,
}
use bbdb.Base.Int.{ℤ, pos, ltb_ℤ, leb_ℤ}
use bbdb.Base.Bytes.{Bytes}
use bbdb.Files.{Fs, FilePath, Call, read_file, read_at, refused}
use bbdb.Block.Event.{Event}
use bbdb.Block.Header.{header_size, decode_header}
use bbdb.Block.Footer.{BlockFooter, footer_size, decode_footer}
use bbdb.Block.Columns.{Zstd, decompress_bytes_column}
use bbdb.Block.Body.{read_filter_columns}

-- from ≤ t < to
abbrev pub in_time : ℤ → ℤ → ℤ → Bool
in_time from to t = leb_ℤ from t && ltb_ℤ t to

module _ (key_hash : ℕ) (from to : ℤ) where
  -- The loop over `keyHashes[i:]`. An index beyond the timestamps panics.
  unfoldable pub match_from : ℕ → List ℕ → List ℤ → Result (List ℕ)
  match_from i [] timestamps = ok []
  match_from i (kh ∷ khs) timestamps =
      let rest = match_from (suc i) khs timestamps in
      if kh == key_hash
      then elim (get_elem? timestamps i) [
        | none ↦ err panic
        | some ts ↦ (if in_time from to ts then rest >>= (λ is. ok (i ∷ is)) else rest)
      ]
      else rest

-- The loop over the matching indices: one beyond the payloads is passed over.
unfoldable pub pick_events : List ℕ → List ℤ → List Bytes → List ℕ → List Event
pick_events khs tss pls [] = []
pick_events khs tss pls (i ∷ is) = elim (get_elem? pls i) [
  | none ↦ pick_events khs tss pls is
  | some p ↦
      record { key_hash = get_or khs i 0; timestamp = get_or tss i (pos 0); payload = p }
      ∷ pick_events khs tss pls is
]

module _ (z : Zstd) where
  -- The payload column is read only if some row matches.
  unfoldable pub read_matches : Bytes → BlockFooter → List ℕ → List ℤ → List ℕ → Result (List Event)
  read_matches file footer khs tss [] = ok []
  read_matches file footer khs tss (i ∷ is) = do
    payload_bytes ← read_at file footer.col_sizes.payload footer.col_offsets.payload
    payloads ← decompress_bytes_column z payload_bytes
    ok (pick_events khs tss payloads (i ∷ is))

  -- `ReadBlock` from the open file on.
  unfoldable pub read_open_block : Bytes → ℕ → ℤ → ℤ → Result (List Event)
  read_open_block file key_hash from to = do
    let file_size = length file
    guard (not (ltb file_size (header_size + footer_size))) (block_too_small file_size)
    footer_buf ← read_at file footer_size (file_size - footer_size)
    footer ← decode_footer footer_buf
    header_buf ← read_at file header_size 0
    header ← decode_header header_buf
    (key_hashes, timestamps) ← read_filter_columns z file footer
    match_idx ← match_from key_hash from to 0 key_hashes timestamps
    read_matches file footer key_hashes timestamps match_idx

  unfoldable pub read_block : Fs → FilePath → ℕ → ℤ → ℤ → Result (List Event)
  unfolding read_open_block
  read_block fs path key_hash from to = do
    file ← read_file fs path
    guard (not (fs.fault Call.stat path)) refused
    read_open_block file key_hash from to
