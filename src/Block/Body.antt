-- ===== src/Block/Body.antt =====
-- internal/block/format.go: the body of a block file, written column after column and read back.
pub mod Layout
use bbdb.Base.{ℕ, ◌+◌, ◌^◌, ◌≡◌, List, ◌++◌, length, Result, ok, err}
use bbdb.Base.Int.{ℤ}
use bbdb.Base.Bytes.{Bytes}
use bbdb.Base.State.{St, ◌>>=◌, ◌>>◌, pure}
use bbdb.Files.{Fs, FilePath, write_file, read_at}
use bbdb.Block.Crc.{crc32}
use bbdb.Block.Header.{BlockHeader, header_size, encode_header}
use bbdb.Block.Footer.{BlockFooter, Triple}
use bbdb.Block.Memtable.{Memtable}
use bbdb.Block.Columns.{
  Zstd, compress_uint64_column, compress_int64_column, compress_bytes_column,
  decompress_uint64_column, decompress_int64_column,
}

module _ (z : Zstd) where
  -- The three columns of a memtable, compressed.
  abbrev pub kh_col : Memtable → Bytes
  kh_col mt = compress_uint64_column z mt.key_hashes

  abbrev pub ts_col : Memtable → Bytes
  ts_col mt = compress_int64_column z mt.timestamps

  abbrev pub pl_col : Memtable → Bytes
  pl_col mt = compress_bytes_column z mt.payloads

  abbrev pub body_bytes : Memtable → Bytes
  body_bytes mt = kh_col mt ++ (ts_col mt ++ pl_col mt)

  -- The footer that the writer returns: where each column starts, how long it is, and the checksum.
  unfoldable pub body_footer : Memtable → BlockFooter
  body_footer mt =
      let off0 = header_size in
      let off1 = off0 + length (kh_col mt) in
      let off2 = off1 + length (ts_col mt) in
      record {
        col_offsets = record { key_hash = off0; timestamp = off1; payload = off2 };
        col_sizes = record {
          key_hash = length (kh_col mt);
          timestamp = length (ts_col mt);
          payload = length (pl_col mt);
        };
        body_checksum = crc32 (body_bytes mt);
      }

  -- Two writes, the header and the columns together.
  unfoldable pub write_block_body : FilePath → BlockHeader → Memtable → St Fs BlockFooter
  unfolding body_footer
  write_block_body path hdr mt = do
    write_file path (encode_header hdr)
    write_file path (body_bytes mt)
    pure (body_footer mt)

  unfoldable pub read_filter_columns : Bytes → BlockFooter → Result (List ℕ × List ℤ)
  read_filter_columns file footer =
      elim (read_at file footer.col_sizes.key_hash footer.col_offsets.key_hash) [
        | err e ↦ err e
        | ok kh_data ↦ elim (decompress_uint64_column z kh_data) [
          | err e ↦ err e
          | ok key_hashes ↦
              elim (read_at file footer.col_sizes.timestamp footer.col_offsets.timestamp) [
                | err e ↦ err e
                | ok ts_data ↦ elim (decompress_int64_column z ts_data) [
                  | err e ↦ err e
                  | ok timestamps ↦ ok (key_hashes, timestamps)
                ]
              ]
        ]
      ]
