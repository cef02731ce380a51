-- ===== src/File/Generate/Laws.antt =====
-- A file that `generate_tfile` takes up is in the table afterwards and verifies.
use grintorrent.Base.{
  ℕ, suc, ◌+◌, ◌*◌, ◌≤◌, ◌<◌, ◌≡◌, ◌≢◌, sym, ◌∙◌, ap, Bool, true, false, inl, inr, some, none, List,
  arith, length, get_or, take, take-length, Run, ok, fault, out_of_bounds, le→leb, leb-eq-false,
  get_or-set_self, ◌⊎◌,
}
use grintorrent.Base.Int.{pos, negsuc, ltb_ℤ}
use grintorrent.System.{Md5, Md5Laws, Reads, Os, FileView}
use grintorrent.Tfile.{
  Digest, Tfile, TfileDef, Location, blank, name_len, zero_digest, verified_file,
}
use grintorrent.Htable.{Htable, home, write_def}
use grintorrent.Htable.Probe.{key}
use grintorrent.Htable.Invariant.{IsValid, Absent, vacancy}
use grintorrent.Htable.Search.{search_htable-key, search_htable-Absent}
use grintorrent.Htable.Insert.{
  add_htable_inserts, key-write_def_self, vacancy-lt, length-write_def, tdef-write_def,
}
use grintorrent.Htable.Replace.{put, key-put, put-IsValid, get_elem?-entry}
use grintorrent.File.Chunks.{chunk, filled}
use grintorrent.File.Hash.{md5_hash}
use grintorrent.File.Hash.Laws.{md5_hash_lem}
use grintorrent.File.Hash.Chunks.{hash_chunks_lem}
use grintorrent.File.Verify.{verify_tfile}
use grintorrent.File.Verify.Table.{verify_tfile-whole}
use grintorrent.File.Generate.{min_size, set_locations, generate_tfile}

module _ (calloc : ℕ → Bool) (f : ℕ) (m : Md5) (os : Os) (ht : Htable) (tdef : TfileDef)
    (path name : List ℕ) where
  open m use {md5}

  -- A file that cannot be opened, and one that is shorter than 256 bytes, is refused; nothing
  -- changes.
  pub generate_tfile-refused :
      (os.open_read path ≡ none)
        ⊎ ((file : FileView) × (os.open_read path ≡ some file)
            × (ltb_ℤ file.st_size min_size ≡ true))
      → generate_tfile calloc f m os ht tdef path name ≡ ok (negsuc 0, tdef, ht)
  unfolding generate_tfile
  generate_tfile-refused (inl closed) = rw (generate_tfile, closed)
  generate_tfile-refused (inr (file, opened, small)) = rw (generate_tfile, opened, small)

  module _ (laws : Md5Laws m) (file : FileView) (content : List ℕ)
      (opened : os.open_read path ≡ some file) (reads : Reads file.read content)
      (st : file.st_size ≡ pos (length content)) (big : 256 ≤ length content) where
    whole :
        (p : ℕ) (hash : Digest)
        → md5_hash m file.read p (pos 0) (pos (length content)) hash
          ≡ ok (0, md5 content, 0 + length content)
    whole p hash =
        md5_hash_lem m laws file.read content reads p 0 (length content) hash (omega arith)
        ∙ ap (λ (s : List ℕ). let r : Run (ℕ × Digest × ℕ) = ok (0, md5 s, 0 + length content) in r)
            (take-length (length content) content (omega arith))

    large : ltb_ℤ (pos (length content)) min_size ≡ false
    large = ground arith

    -- A regular file of 256 bytes at least whose digest is in the valid table already is refused,
    -- and the table stays as it was.
    pub generate_tfile-key :
        (i : ℕ)
        → IsValid ht
        → md5 content ≢ zero_digest
        → key ht i ≡ md5 content
        → generate_tfile calloc f m os ht tdef path name
          ≡ ok (negsuc 0, record tdef { f_hash = md5 content }, ht)
    unfolding generate_tfile
    generate_tfile-key i v nz e = rw (
      generate_tfile,
      opened,
      st,
      large,
      whole 0 tdef.f_hash,
      search_htable-key v (md5 content) i nz e,
    )

    -- The definition of the file.
    abbrev pub described : TfileDef
    described = record tdef {
      name = take name_len name;
      f_hash = md5 content;
      c_hashes = filled (λ i. md5 (chunk content (length content) i)) tdef.c_hashes;
      size = pos (length content);
    }

    -- The entry that stands in the table afterwards.
    abbrev pub taken_up : Tfile
    taken_up = record { tdef = described; f_location = Location.heap path; m_location = none }

    module _ (i : ℕ) (v : IsValid ht) (room : ht.size * 2 ≤ ht.capacity)
        (nz : md5 content ≢ zero_digest) (absent : Absent ht (md5 content))
        (free : vacancy ht.table (home ht (md5 content)) ≡ some i) where
      abbrev inserted : Htable
      inserted = write_def ht i described

      in_table : i < length inserted.table
      in_table = rw (length-write_def ht i described) (vacancy-lt ht.table _ i free)

      set_locations_lem :
          set_locations inserted i (Location.heap path) ≡ ok (put inserted i taken_up)
      set_locations_lem = rw (get_elem?-entry inserted i in_table) (
          ap
            (λ (t : TfileDef).
              let r : Run Htable = ok (
                put inserted i
                  (record { tdef = t; f_location = Location.heap path; m_location = none })) in
              r)
            (tdef-write_def ht i described (vacancy-lt ht.table _ i free)))

      -- A regular file of 256 bytes at least, whose digest is not zero, is not in the valid table
      -- with room and has an empty entry at or behind its home, is taken up when the name has 32
      -- bytes: generate_tfile returns 0 with the file's definition, and the table's entry has it
      -- and the path.
      pub generate_tfile_lem :
          name_len ≤ length name
          → generate_tfile calloc (suc f) m os ht tdef path name
            ≡ ok (pos 0, described, put inserted i taken_up)
      unfolding generate_tfile
      generate_tfile_lem long = rw (
        generate_tfile,
        opened,
        st,
        large,
        whole 0 tdef.f_hash,
        search_htable-Absent v (md5 content) absent,
        free,
        st,
        hash_chunks_lem m laws file.read content reads (0 + length content) (length content)
            tdef.c_hashes (omega arith),
        le→leb name_len (length name) long,
        (add_htable_inserts calloc f described i v room nz absent free).0,
        set_locations_lem,
      )

      -- When the name's buffer is shorter than 32 bytes, and the other conditions of
      -- generate_tfile_lem hold, generate_tfile reads past the buffer's end.
      pub generate_tfile_short_name :
          length name < name_len
          → generate_tfile calloc (suc f) m os ht tdef path name ≡ fault out_of_bounds
      unfolding generate_tfile
      generate_tfile_short_name short = rw (
        generate_tfile,
        opened,
        st,
        large,
        whole 0 tdef.f_hash,
        search_htable-Absent v (md5 content) absent,
        free,
        st,
        hash_chunks_lem m laws file.read content reads (0 + length content) (length content)
            tdef.c_hashes (omega arith),
        leb-eq-false name_len (length name) short,
      )

      pub taken_up-IsValid : IsValid (put inserted i taken_up)
      taken_up-IsValid =
          put-IsValid inserted i taken_up
            (sym (key-write_def_self ht i described (vacancy-lt ht.table _ i free)))
            (add_htable_inserts calloc f described i v room nz absent free).1

      -- What generate_tfile takes up, verify_tfile accepts: for a regular file of 256 bytes at
      -- least, whose digest is not zero, is not in the valid table with room and has an empty entry
      -- at or behind its home, and a name of 32 bytes, generate_tfile returns 0, the table that it
      -- leaves is valid, and verify_tfile for the digest that it returned reports the whole file
      -- there as verified.
      pub generate_tfile-verify_tfile :
          name_len ≤ length name
          → (hash : Digest) (hashes : List Digest)
          → (tdef' : TfileDef) × (ht' : Htable) × (generate_tfile calloc
                (suc f)
                m
                os
                ht
                tdef
                path
                name
              ≡ ok (pos 0, tdef', ht'))
            × IsValid ht'
            × (verify_tfile m os ht' tdef'.f_hash hash hashes ≡ ok verified_file)
      generate_tfile-verify_tfile long hash hashes = (
        described,
        put inserted i taken_up,
        generate_tfile_lem long,
        taken_up-IsValid,
        verify_tfile-whole m os taken_up-IsValid (md5 content) hash hashes i nz
            (key-put inserted i taken_up self i ∙ self_key) laws path content file
            (ap (λ (t : Tfile). t.m_location) entry_eq)
            (inl (ap (λ (t : Tfile). t.f_location) entry_eq)) opened reads st
            (ap (λ (t : Tfile). t.tdef.f_hash) entry_eq),
      )
        where
          self_key : key inserted i ≡ md5 content
          self_key = key-write_def_self ht i described (vacancy-lt ht.table _ i free)

          self : md5 content ≡ key inserted i
          self = sym self_key

          entry_eq : get_or (put inserted i taken_up).table i blank ≡ taken_up
          entry_eq = get_or-set_self inserted.table i taken_up blank in_table
