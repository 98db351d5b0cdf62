-- ===== src/Block/Body/Layout.antt =====
-- What `WriteBlockBody` leaves in the file, and where its footer says the columns are.
use bbdb.Base.{◌+◌, ◌≡◌, refl, [], ◌++◌, true, false, some, length, ok, err, arith, length-append}
use bbdb.Base.Bytes.{Bytes, eq_bytes_refl}
use bbdb.Files.{Fs, FilePath, Call, update, refused}
use bbdb.Block.Header.{BlockHeader, encode_header, length-encode_header}
use bbdb.Block.Memtable.{Memtable}
use bbdb.Block.Columns.{Zstd}
use bbdb.Block.Crc.{crc32}
use bbdb.Block.Body.{kh_col, ts_col, pl_col, body_bytes, body_footer, write_block_body}

abbrev pub written : Fs → FilePath → Bytes → Fs
written fs p b = record fs { content = update fs.content p (some b) }

-- On an empty file that the system lets be written, the body is the header and the three columns;
-- the footer has the columns one behind the other from byte 64 to the end of the file, and the
-- checksum of exactly their bytes. On a file that it does not, the step fails and writes nothing.
pub write_block_body_lem :
    (z : Zstd) (fs : Fs) (path : FilePath) (hdr : BlockHeader) (mt : Memtable)
    → fs.content path ≡ some []
    → let bytes = encode_header hdr ++ body_bytes z mt in
      let (r, fs') = write_block_body z path hdr mt fs in
      let foot = body_footer z mt in
      (fs.fault Call.write_to path ≡ false → (r ≡ ok foot) × (fs'.content path ≡ some bytes))
      × (fs.fault Call.write_to path ≡ true → (r ≡ err refused) × (fs' ≡ fs))
      × (foot.col_offsets.key_hash ≡ 64)
      × (foot.col_offsets.timestamp ≡ foot.col_offsets.key_hash + foot.col_sizes.key_hash)
      × (foot.col_offsets.payload ≡ foot.col_offsets.timestamp + foot.col_sizes.timestamp)
      × (length bytes ≡ foot.col_offsets.payload + foot.col_sizes.payload)
      × (foot.body_checksum ≡ crc32 (body_bytes z mt))
unfolding write_block_body
write_block_body_lem z fs path hdr mt empty = (
  λ fine. (ground (arith, fine), ground (arith, fine, empty, eq_bytes_refl path)),
  λ refuses. (ground (arith, refuses), ground (arith, refuses)),
  refl,
  refl,
  refl,
  omega (
    arith,
    length-append (encode_header hdr) (body_bytes z mt),
    length-append (kh_col z mt) (ts_col z mt ++ pl_col z mt),
    length-append (ts_col z mt) (pl_col z mt),
    length-encode_header hdr,
  ),
  refl,
)
