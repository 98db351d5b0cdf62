-- ===== src/Block/Tests.antt =====
-- Block headers, footers, columns and memtables at concrete values.
use mathlib.Core.List.{Perm, Pairwise}
use bbdb.Base.{◌≡◌, refl, [], ◌∷◌, false, ok, err, arith}
use bbdb.Base.Int.{pos, negsuc}
use bbdb.Block.Event.{NotAfter}
use bbdb.Block.Header.{BlockHeader}
use bbdb.Block.Footer.{BlockFooter, encode_footer, decode_footer, decode-encode_footer}
use bbdb.Block.Columns.{compress_uint64_column, decompress_uint64_column, decompress_bytes_column}
use bbdb.Block.Columns.RoundTrip.{decompress-compress_uint64_column}
use bbdb.Base.{truncated_payload, some}
use bbdb.Base.Bytes.{Bytes, get_be}
use bbdb.Block.Columns.{get_payloads}
use bbdb.Block.Stored.{stored, unwrap}
use bbdb.Base.{◌>>=◌, true}
use bbdb.Block.Bloom.{build_bloom_from_memtable, test_hash, serialize, deserialize_bloom}
use bbdb.Block.Bloom.Sound.{build_bloom_from_memtable_lem}
use bbdb.Block.Bloom.Exact.{exact}
use bbdb.Block.Memtable.{contains, Memtable, rows, sort, unique_key_hashes}
use bbdb.Block.Memtable.Rows.{IsMemtable, sort_lem}
use bbdb.Block.Memtable.Insertion.{insertion, insertion_sort}
use bbdb.Files.{Fs, FilePath}

abbrev header : BlockHeader
header = record {
  shard_id = 0x0a07;
  event_type = 10;
  opened_at = pos 1_750_000_000;
  sealed_at = negsuc 5;
  row_count = 3;
}

abbrev footer : BlockFooter
footer = record {
  col_offsets = record { key_hash = 64; timestamp = 80; payload = 96 };
  col_sizes = record { key_hash = 16; timestamp = 16; payload = 9 };
  body_checksum = 0xcbf43926;
}

decode-encode_footer_example : decode_footer (encode_footer footer) ≡ ok footer
decode-encode_footer_example = decode-encode_footer footer (omega arith)

decompress-compress_uint64_column_example :
    decompress_uint64_column stored (compress_uint64_column stored (7 ∷ 1 ∷ [])) ≡ ok (7 ∷ 1 ∷ [])
decompress-compress_uint64_column_example =
    decompress-compress_uint64_column stored (7 ∷ 1 ∷ []) (omega arith)

bytes_column_truncated :
    decompress_bytes_column stored (0 ∷ 0 ∷ 0 ∷ 0 ∷ 3 ∷ 9 ∷ []) ≡ err truncated_payload
unfolding decompress_bytes_column get_payloads get_be unwrap
bytes_column_truncated = refl

abbrev unsorted : Memtable
unsorted = record {
  key_hashes = 9 ∷ 7 ∷ 7 ∷ [];
  timestamps = pos 1 ∷ pos 12 ∷ negsuc 3 ∷ [];
  payloads = (1 ∷ []) ∷ (2 ∷ 3 ∷ []) ∷ [] ∷ [];
  approx_bytes = 51;
}

unsorted-IsMemtable : IsMemtable unsorted
unsorted-IsMemtable = omega arith

sort_lem_example :
    Perm (rows (sort insertion unsorted)) (rows unsorted)
    × Pairwise NotAfter (rows (sort insertion unsorted))
    × IsMemtable (sort insertion unsorted)
sort_lem_example = sort_lem insertion unsorted unsorted-IsMemtable

sorted_keys : (sort insertion unsorted).timestamps ≡ negsuc 3 ∷ pos 12 ∷ pos 1 ∷ []
unfolding sort insertion_sort
sorted_keys = refl

distinct_keys : unique_key_hashes unsorted ≡ 9 ∷ 7 ∷ []
unfolding unique_key_hashes
distinct_keys = refl

abbrev a_file : FilePath
a_file = b'a' ∷ []

abbrev a_disk : Fs
a_disk = record { content = λ p. some []; fault = λ c p. false }

abbrev filter_file : Bytes
unfolding build_bloom_from_memtable
filter_file = build_bloom_from_memtable exact unsorted true

build_bloom_from_memtable_lem_example :
    (deserialize_bloom exact filter_file >>= (λ f. ok (test_hash exact f 7))) ≡ ok true
unfolding contains serialize filter_file build_bloom_from_memtable
build_bloom_from_memtable_lem_example =
    build_bloom_from_memtable_lem exact unsorted true 7 filter_file refl refl
