-- ===== src/Transfer/Receive.antt =====
-- What a peer that receives a FILE_DATA message has afterwards.
use grintorrent.Base.{
  ℕ, ◌+◌, ◌*◌, ◌/◌, ◌^◌, ◌≤◌, ◌<◌, ◌≡◌, ◌≢◌, refl, sym, ◌∙◌, ap, Bool, true, false, ◌||◌, some,
  List, ◌++◌, arith, length, length-append, length-take, length-drop, take, drop, take-append,
  drop-append, get_or, get_or-set_self, le→leb, ok,
}
use grintorrent.Base.Int.{pos}
use grintorrent.System.{Md5, Os}
use grintorrent.Tfile.{Digest, Tfile, blank, num_chunks, zero_digest, same_digest}
use grintorrent.Htable.{Htable}
use grintorrent.Htable.Probe.{key, Occupied-lt}
use grintorrent.Htable.Invariant.{IsValid}
use grintorrent.Htable.Replace.{put, put-IsValid, get_elem?-entry}
use grintorrent.File.Chunks.{chunk, chunk_len}
use grintorrent.File.Verify.{region, is_chunk_verified, verify_tfile}
use grintorrent.File.Verify.Entry.{matches, region-slice}
use grintorrent.File.Verify.Table.{verify_tfile-mapped}
use grintorrent.File.Open.{Pointer}
use grintorrent.File.Open.Laws.{open_tfile-chunk, within_file}
use grintorrent.Share.Wire.{IsDigest}
use grintorrent.Transfer.{patch, write_chunk, receive_file_data}
use grintorrent.Transfer.Payload.{
  payload_size, encode_payload, length-encode_payload, decode_payload,
  decode_payload-encode_payload, slice-encode_payload,
}

or_true : (a b : Bool) → b ≡ true → (a || b) ≡ true
or_true a b e = ground arith

module _ (os : Os) {ht : Htable} (v : IsValid ht) (d : Digest) (i : ℕ) (nz : d ≢ zero_digest)
    (e : key ht i ≡ d) where
  abbrev entry : Tfile
  entry = get_or ht.table i blank

  present : i < length ht.table
  present = Occupied-lt ht i (λ z. nz (sym e ∙ z))

  module _ (m : Md5) (c : ℕ) (bytes chunk_data rest : List ℕ) (small : c < num_chunks)
      (mapped : entry.m_location ≡ some bytes) (size : entry.tdef.size ≡ pos (length bytes))
      (fits : length bytes < 2 ^ 32) (long : length chunk_data ≡ chunk_len (length bytes) c) where
    abbrev offset : ℕ
    offset = c * (length bytes / 8)

    -- The file with the chunk in its place
    abbrev pub patched : List ℕ
    patched = take offset bytes ++ (chunk_data ++ drop (offset + length chunk_data) bytes)

    abbrev pub stored : Htable
    stored = put ht i (record entry { m_location = some patched })

    within : offset + length chunk_data ≤ length bytes
    within = omega (arith, within_file (length bytes) c small, long)

    length-patched : length patched ≡ length bytes
    length-patched =
        let tail = drop (offset + length chunk_data) bytes in
        omega (
          arith,
          within,
          length-append (take offset bytes) (chunk_data ++ tail),
          length-append chunk_data tail,
          length-take offset bytes,
          length-drop (offset + length chunk_data) bytes,
        )

    chunk-patched : chunk patched (length bytes) c ≡ chunk_data
    chunk-patched =
        let tail = drop (offset + length chunk_data) bytes in
        rw
          (drop-append offset (take offset bytes) (chunk_data ++ tail)
            (omega (arith, length-take offset bytes, within)))
          (take-append (chunk_len (length bytes) c) chunk_data tail long)

    stored-IsValid : IsValid stored
    stored-IsValid = put-IsValid ht i (record entry { m_location = some patched }) refl v

    abbrev got : List ℕ
    got = encode_payload d (pos c) (length chunk_data) chunk_data ++ rest

    stored_entry : get_or stored.table i blank ≡ record entry { m_location = some patched }
    stored_entry =
        get_or-set_self ht.table i (record entry { m_location = some patched }) blank present

    read_back :
        IsDigest d
        → decode_payload got
          ≡ record { file_hash = d; chunk_index = pos c; chunk_size = length chunk_data }
    read_back two =
        decode_payload-encode_payload d (pos c) (length chunk_data) chunk_data rest two
          (omega arith, omega arith) (omega (arith, within))

    region-got : region got (pos payload_size) (length chunk_data) ≡ ok chunk_data
    region-got =
        let fits_in : payload_size + length chunk_data ≤ length got = omega (
          arith,
          length-append (encode_payload d (pos c) (length chunk_data) chunk_data) rest,
          length-encode_payload d (pos c) (length chunk_data) chunk_data,
        ) in
        region-slice got payload_size (length chunk_data) fits_in
        ∙ ap ok (slice-encode_payload d (pos c) (length chunk_data) chunk_data rest)

    write_chunk_lem :
        (p : Pointer)
        → p.slot ≡ i
        → p.offset ≡ pos offset
        → write_chunk ht (some p) chunk_data ≡ ok stored
    unfolding write_chunk patch
    write_chunk_lem p slot at =
        rw
          (
            slot,
            get_elem?-entry ht i present,
            mapped,
            at,
            le→leb (offset + length chunk_data) (length bytes) within,
          )
          refl

    -- When a valid table has a file that is mapped with its size, of fewer than 2^32 bytes, of
    -- which neither the whole nor a chunk matches its hash, and a FILE_DATA message brings as many
    -- bytes as the chunk has, the branch of readWorker writes them into the chunk's place and
    -- nothing else, and the table stays valid.
    pub receive_file_data_lem :
        (hash : Digest) (hashes : List Digest)
        → IsDigest d
        → length hashes ≡ num_chunks
        → matches m entry.tdef bytes (length bytes) c ≡ false
        → (receive_file_data m os ht got hash hashes ≡ ok stored) × IsValid stored
    unfolding receive_file_data
    receive_file_data_lem hash hashes two eight missing =
        let (chunks, run, all) =
          verify_tfile-mapped m os v d hash hashes i nz e bytes mapped size (omega arith) eight in
        let (p, opened, slot, at, bytes_at) =
          open_tfile-chunk os v d i nz e c bytes small mapped size (omega arith) in
        (
          rw (read_back two, run, all c small, missing, opened, region-got)
              (write_chunk_lem p slot at),
          stored-IsValid,
        )

    -- When a valid table has a file that is mapped with its size, of fewer than 2^32 bytes, of
    -- which neither the whole nor a chunk matches its hash, and a FILE_DATA message brings bytes of
    -- the chunk's length that have the chunk's hash, the branch of readWorker returns, and
    -- verify_tfile then reports the chunk as verified.
    pub receive_file_data-verified :
        (hash : Digest) (hashes : List Digest)
        → IsDigest d
        → length hashes ≡ num_chunks
        → matches m entry.tdef bytes (length bytes) c ≡ false
        → same_digest (m.md5 chunk_data) (get_or entry.tdef.c_hashes c zero_digest) ≡ true
        → (ht' : Htable) × (w : ℕ) × (receive_file_data m os ht got hash hashes ≡ ok ht')
          × (verify_tfile m os ht' d hash hashes ≡ ok w)
          × (is_chunk_verified w (pos c) ≡ true)
    receive_file_data-verified hash hashes two eight missing right =
        let (received, valid) = receive_file_data_lem hash hashes two eight missing in
        let same : key stored i ≡ d = ap (λ (t : Tfile). t.tdef.f_hash) stored_entry ∙ e in
        let (w, run, all) =
          verify_tfile-mapped m os valid d hash hashes i nz same patched
            (ap (λ (t : Tfile). t.m_location) stored_entry)
            (ap (λ (t : Tfile). t.tdef.size) stored_entry ∙ size ∙ ap pos (sym length-patched))
            (omega (arith, length-patched)) eight in
        (stored, w, received, run, all c small ∙ or_true _ _ right_there)
      where
        right_there :
            same_digest
              (m.md5 (chunk patched (length patched) c))
              (get_or (get_or stored.table i blank).tdef.c_hashes c zero_digest)
            ≡ true
        right_there =
            ap
              (λ (bs : List ℕ).
                same_digest (m.md5 bs)
                  (get_or (get_or stored.table i blank).tdef.c_hashes c zero_digest))
              (ap (λ (n : ℕ). chunk patched n c) length-patched ∙ chunk-patched)
            ∙ ap
                (λ (t : Tfile).
                  same_digest (m.md5 chunk_data) (get_or t.tdef.c_hashes c zero_digest))
                stored_entry
            ∙ right
