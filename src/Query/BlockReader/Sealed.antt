-- ===== src/Query/BlockReader/Sealed.antt =====
-- What a query reads from a block file that was sealed from a memtable.
use bbdb.Base.{
  ℕ, suc, ◌+◌, ◌-◌, ◌^◌, ◌<◌, ◌≡◌, refl, sym, ap, ◌∙◌, subst, List, [], ◌∷◌, ◌++◌, Bool, ◌&&◌, some,
  ◌==◌, if◌then◌else◌, length, get_or, get_elem?, ok, arith, append_assoc, append-nil,
  length-append, All,
}
use bbdb.Base.Int.{leb_ℤ, ltb_ℤ, ℤ, pos, IsI64}
use bbdb.Base.Bytes.{Bytes}
use bbdb.Files.{read_at}
use bbdb.Files.Laws.{read_at-append}
use bbdb.Block.Event.{Event}
use bbdb.Block.Crc.{crc32_lt}
use bbdb.Block.Header.{
  BlockHeader, IsBlockHeader, encode_header, decode-encode_header, length-encode_header,
}
use bbdb.Block.Footer.{
  IsBlockFooter, footer_size, encode_footer, decode-encode_footer, length-encode_footer,
}
use bbdb.Block.Columns.{Zstd}
use bbdb.Block.Columns.RoundTrip.{
  IsU64, decompress-compress_uint64_column, decompress-compress_int64_column,
  decompress-compress_bytes_column,
}
use bbdb.Block.Memtable.{Memtable, rows}
use bbdb.Block.Memtable.Rows.{IsMemtable, zip_rows, rows-zip_rows}
use bbdb.Block.Body.{kh_col, ts_col, pl_col, body_bytes, body_footer, read_filter_columns}
use bbdb.Query.BlockReader.{in_time, match_from, pick_events, read_matches, read_open_block}

-- Bytes written for a memtable: header, columns, footer.
abbrev pub block_file : Zstd → BlockHeader → Memtable → Bytes
block_file z hdr mt = encode_header hdr ++ (body_bytes z mt ++ encode_footer (body_footer z mt))

-- The values of the columns are those of their Go types, and the file has a size that Go can hold.
pub record IsSealable (z : Zstd) (mt : Memtable) : Type 0 where
  pub columns : IsMemtable mt
  pub key_hashes : All IsU64 mt.key_hashes
  pub timestamps : All IsI64 mt.timestamps
  pub payloads : All (λ p. length p < 2 ^ 32) mt.payloads
  pub size : length (body_bytes z mt) + 120 < 2 ^ 63

-- Rows of one key in a range of time.
abbrev pub matches : ℕ → ℤ → ℤ → Event → Bool
matches key_hash from to e =
    e.key_hash == key_hash && (leb_ℤ from e.timestamp && ltb_ℤ e.timestamp to)

abbrev pub keep_if : (Event → Bool) → List Event → List Event
keep_if p [] = []
keep_if p (e ∷ es) = let rest = keep_if p es in if p e then e ∷ rest else rest

get_elem?-append {ℓ} :
    {A : Type ℓ} (xs ys : List A) (y : A) → get_elem? (xs ++ y ∷ ys) (length xs) ≡ some y
get_elem?-append [] ys y = refl
get_elem?-append (x ∷ xs) ys y = get_elem?-append xs ys y

get_or-append {ℓ} :
    {A : Type ℓ} (xs ys : List A) (y d : A) → get_or (xs ++ y ∷ ys) (length xs) d ≡ y
get_or-append [] ys y d = refl
get_or-append (x ∷ xs) ys y d = get_or-append xs ys y d

pick_none : (khs : List ℕ) (tss : List ℤ) (pls : List Bytes) → pick_events khs tss pls [] ≡ []
unfolding pick_events
pick_none khs tss pls = refl

module _ (key_hash : ℕ) (from to : ℤ) where
  -- The indices that the loop finds, counted from `i`.
  abbrev hits : ℕ → List ℕ → List ℤ → List ℕ
  hits i [] tss = []
  hits i (kh ∷ khs) [] = []
  hits i (kh ∷ khs) (t ∷ tss) =
      let rest = hits (suc i) khs tss in
      if kh == key_hash && in_time from to t then i ∷ rest else rest

  match_from-hits :
      (before tss : List ℤ) (khs : List ℕ) (i : ℕ)
      → i ≡ length before
      → length tss ≡ length khs
      → match_from key_hash from to i khs (before ++ tss) ≡ ok (hits i khs tss)
  unfolding match_from
  match_from-hits before tss [] i e h = refl
  match_from-hits before [] (kh ∷ khs) i e h = absurd (omega arith)
  match_from-hits before (t ∷ tss) (kh ∷ khs) i e h =
      let rest =
        match_from-hits (before ++ t ∷ []) tss khs (suc i)
          (omega (arith, e, length-append before (t ∷ []))) (omega arith) in
      let rest' : match_from key_hash from to (suc i) khs (before ++ t ∷ tss)
          ≡ ok (hits (suc i) khs tss) =
        rw (append_assoc before (t ∷ []) tss) at rest in
      let here : get_elem? (before ++ t ∷ tss) i ≡ some t = rw e (get_elem?-append before tss t) in
      ground (arith, rest', here)

  pick_events-hits :
      (kb khs : List ℕ) (tb tss : List ℤ) (pb pls : List Bytes) (i : ℕ)
      → i ≡ length kb
      → i ≡ length tb
      → i ≡ length pb
      → length tss ≡ length khs
      → length pls ≡ length khs
      → pick_events (kb ++ khs) (tb ++ tss) (pb ++ pls) (hits i khs tss)
        ≡ keep_if (matches key_hash from to) (zip_rows khs tss pls)
  unfolding pick_events
  pick_events-hits kb [] tb tss pb pls i e f g h k = refl
  pick_events-hits kb (kh ∷ khs) tb [] pb pls i e f g h k = absurd (omega arith)
  pick_events-hits kb (kh ∷ khs) tb (t ∷ tss) pb [] i e f g h k = absurd (omega arith)
  pick_events-hits kb (kh ∷ khs) tb (t ∷ tss) pb (p ∷ pls) i e f g h k =
      let rest =
        pick_events-hits (kb ++ kh ∷ []) khs (tb ++ t ∷ []) tss (pb ++ p ∷ []) pls (suc i)
          (omega (arith, length-append kb (kh ∷ []))) (omega (arith, length-append tb (t ∷ [])))
          (omega (arith, length-append pb (p ∷ []))) (omega arith) (omega arith) in
      let rest' : pick_events (kb ++ kh ∷ khs) (tb ++ t ∷ tss) (pb ++ p ∷ pls)
            (hits (suc i) khs tss)
          ≡ keep_if (matches key_hash from to) (zip_rows khs tss pls) =
        rw
          (
            append_assoc kb (kh ∷ []) khs,
            append_assoc tb (t ∷ []) tss,
            append_assoc pb (p ∷ []) pls,
          )
          at rest in
      let a : get_elem? (pb ++ p ∷ pls) i ≡ some p = rw g (get_elem?-append pb pls p) in
      let b : get_or (kb ++ kh ∷ khs) i 0 ≡ kh = rw e (get_or-append kb khs kh 0) in
      let c : get_or (tb ++ t ∷ tss) i (pos 0) ≡ t = rw f (get_or-append tb tss t (pos 0)) in
      ground (arith, rest', a, b, c)

module _ (z : Zstd) (hdr : BlockHeader) (mt : Memtable) (v : IsSealable z mt) where
  abbrev file : Bytes
  file = block_file z hdr mt

  abbrev kh : Bytes
  kh = kh_col z mt

  abbrev ts : Bytes
  ts = ts_col z mt

  abbrev pl : Bytes
  pl = pl_col z mt

  abbrev foot : Bytes
  foot = encode_footer (body_footer z mt)

  body_length : length (body_bytes z mt) ≡ length kh + length ts + length pl
  body_length = omega (arith, length-append kh (ts ++ pl), length-append ts pl)

  file-length : length file ≡ length (body_bytes z mt) + 120
  file-length = omega (
    arith,
    length-append (encode_header hdr) (body_bytes z mt ++ foot),
    length-append (body_bytes z mt) foot,
    length-encode_header hdr,
    length-encode_footer (body_footer z mt),
  )

  body_footer-IsBlockFooter : IsBlockFooter (body_footer z mt)
  unfolding body_footer
  body_footer-IsBlockFooter = omega (arith, v.size, body_length, crc32_lt (body_bytes z mt))

  footer_read :
      (n off : ℕ) → n ≡ 56 → off ≡ length (body_bytes z mt) + 64 → read_at file n off ≡ ok foot
  footer_read n off e f =
      subst (λ x. read_at x n off ≡ ok foot) seam
        (read_at-append (encode_header hdr ++ body_bytes z mt) foot [] n off
          (omega (arith, length-encode_footer (body_footer z mt)))
          (omega
            (arith, length-append (encode_header hdr) (body_bytes z mt), length-encode_header hdr))
          (omega (arith, v.size)))
    where
      seam : (encode_header hdr ++ body_bytes z mt) ++ (foot ++ []) ≡ file
      seam = rw (append-nil foot) (append_assoc (encode_header hdr) (body_bytes z mt) foot)

  header_read : read_at file 64 0 ≡ ok (encode_header hdr)
  header_read =
      read_at-append [] (encode_header hdr) (body_bytes z mt ++ foot) 64 0
        (omega (arith, length-encode_header hdr)) (omega arith) (omega arith)

  kh_read : read_at file (length kh) 64 ≡ ok kh
  kh_read =
      subst (λ x. read_at x (length kh) 64 ≡ ok kh) seam
        (read_at-append (encode_header hdr) kh ((ts ++ pl) ++ foot) (length kh) 64 refl
          (omega (arith, length-encode_header hdr)) (omega arith))
    where
      seam : encode_header hdr ++ (kh ++ ((ts ++ pl) ++ foot)) ≡ file
      seam = ap (λ x. encode_header hdr ++ x) (sym (append_assoc kh (ts ++ pl) foot))

  ts_read : read_at file (length ts) (64 + length kh) ≡ ok ts
  ts_read =
      subst (λ x. read_at x (length ts) (64 + length kh) ≡ ok ts) seam
        (read_at-append (encode_header hdr ++ kh) ts (pl ++ foot) (length ts) (64 + length kh) refl
          (omega (arith, length-append (encode_header hdr) kh, length-encode_header hdr))
          (omega (arith, v.size, body_length)))
    where
      seam : (encode_header hdr ++ kh) ++ (ts ++ (pl ++ foot)) ≡ file
      seam = rw (
        append_assoc (encode_header hdr) kh (ts ++ (pl ++ foot)),
        append_assoc kh (ts ++ pl) foot,
        append_assoc ts pl foot,
      )

  pl_read : read_at file (length pl) (64 + length kh + length ts) ≡ ok pl
  pl_read =
      subst (λ x. read_at x (length pl) (64 + length kh + length ts) ≡ ok pl) seam
        (read_at-append (encode_header hdr ++ (kh ++ ts)) pl foot (length pl)
          (64 + length kh + length ts) refl
          (omega (
            arith,
            length-append (encode_header hdr) (kh ++ ts),
            length-append kh ts,
            length-encode_header hdr,
          ))
          (omega (arith, v.size, body_length)))
    where
      seam : (encode_header hdr ++ (kh ++ ts)) ++ (pl ++ foot) ≡ file
      seam = rw (
        append_assoc (encode_header hdr) (kh ++ ts) (pl ++ foot),
        append_assoc kh ts (pl ++ foot),
        append_assoc kh (ts ++ pl) foot,
        append_assoc ts pl foot,
      )

  -- The two filter columns of a sealed file are those of its memtable.
  pub read_filter_columns_lem :
      read_filter_columns z file (body_footer z mt) ≡ ok (mt.key_hashes, mt.timestamps)
  unfolding read_filter_columns body_footer
  read_filter_columns_lem = ground (
    arith,
    kh_read,
    ts_read,
    decompress-compress_uint64_column z mt.key_hashes v.key_hashes,
    decompress-compress_int64_column z mt.timestamps v.timestamps,
  )

  module _ (h : IsBlockHeader hdr) (key_hash : ℕ) (from to : ℤ) where
    picked :
        (is : List ℕ)
        → is ≡ hits key_hash from to 0 mt.key_hashes mt.timestamps
        → read_matches z file (body_footer z mt) mt.key_hashes mt.timestamps is
          ≡ ok (keep_if (matches key_hash from to) (rows mt))
    unfolding read_matches body_footer
    picked is e = go is (rw (e, rows-zip_rows mt v.columns) all)
      where
        all :
            pick_events mt.key_hashes mt.timestamps mt.payloads
              (hits key_hash from to 0 mt.key_hashes mt.timestamps)
            ≡ keep_if (matches key_hash from to) (zip_rows mt.key_hashes mt.timestamps mt.payloads)
        all =
            pick_events-hits key_hash from to [] mt.key_hashes [] mt.timestamps [] mt.payloads 0
              refl refl refl v.columns.timestamps v.columns.payloads

        go :
            (is : List ℕ)
            → pick_events mt.key_hashes mt.timestamps mt.payloads is
              ≡ keep_if (matches key_hash from to) (rows mt)
            → read_matches z file (body_footer z mt) mt.key_hashes mt.timestamps is
              ≡ ok (keep_if (matches key_hash from to) (rows mt))
        go [] a = ap ok (sym (pick_none mt.key_hashes mt.timestamps mt.payloads) ∙ a)
        go (i ∷ is) a =
            ground (arith, a, pl_read, decompress-compress_bytes_column z mt.payloads v.payloads)

    -- A query of a sealed file returns the rows of the memtable with the key, in the range of time
    -- that holds its lower end and not its upper, each once and in their order.
    pub read_open_block_lem :
        read_open_block z file key_hash from to ≡ ok (keep_if (matches key_hash from to) (rows mt))
    unfolding read_open_block
    read_open_block_lem = ground (
      arith,
      file-length,
      footer_read footer_size (length file - footer_size) refl (omega (arith, file-length)),
      header_read,
      decode-encode_header hdr h,
      decode-encode_footer (body_footer z mt) body_footer-IsBlockFooter,
      read_filter_columns_lem,
      match_from-hits key_hash from to [] mt.timestamps mt.key_hashes 0 refl v.columns.timestamps,
      picked (hits key_hash from to 0 mt.key_hashes mt.timestamps) refl,
    )
