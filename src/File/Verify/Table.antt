-- ===== src/File/Verify/Table.antt =====
-- `verify_tfile` of a valid table.
use grintorrent.Base.{
  ℕ, ◌^◌, ◌≤◌, ◌<◌, ◌≡◌, ◌≢◌, refl, sym, ◌∙◌, ◌⊎◌, inl, inr, some, none, List, length, get_or, ok,
}
use grintorrent.Base.Int.{pos}
use grintorrent.System.{Md5, Md5Laws, Reads, Os, FileView}
use grintorrent.Tfile.{
  Digest, Tfile, Location, blank, num_chunks, zero_digest, unverified_file, verified_file,
}
use grintorrent.Htable.{Htable, home}
use grintorrent.Htable.Probe.{key, Occupied-lt}
use grintorrent.Htable.Invariant.{IsValid, Absent, vacancy}
use grintorrent.Htable.Search.{search_htable-key, search_htable-Absent}
use grintorrent.Htable.Replace.{get_elem?-entry}
use grintorrent.File.Verify.{c_str, verify_entry, verify_file, verify_tfile, verify_unmapped}
use grintorrent.File.Verify.Entry.{
  Verifies, verify_mapped-Verifies, verify_file-Verifies, verify_file_whole,
}

module _ (m : Md5) (os : Os) {ht : Htable} (v : IsValid ht) (d : Digest) (hash : Digest)
    (hashes : List Digest) where
  -- A search that finds no entry gives UNVERIFIED_FILE.
  pub verify_tfile-Absent :
      (i : ℕ)
      → Absent ht d
      → vacancy ht.table (home ht d) ≡ some i
      → verify_tfile m os ht d hash hashes ≡ ok unverified_file
  unfolding verify_tfile
  verify_tfile-Absent i absent free = rw (search_htable-Absent v d absent, free)

  module _ (i : ℕ) (nz : d ≢ zero_digest) (e : key ht i ≡ d) where
    abbrev entry : Tfile
    entry = get_or ht.table i blank

    verify_tfile-entry : verify_tfile m os ht d hash hashes ≡ verify_entry m os entry hash hashes
    unfolding verify_tfile
    verify_tfile-entry = rw (
      search_htable-key v d i nz e,
      get_elem?-entry ht i (Occupied-lt ht i (λ z. nz (sym e ∙ z))),
    )

    -- For a valid table and a file of fewer than 2^63 bytes that is mapped with its size,
    -- verify_tfile returns a byte in which exactly the chunks read as verified for which the whole
    -- file or the chunk has its hash.
    pub verify_tfile-mapped :
        (bytes : List ℕ)
        → entry.m_location ≡ some bytes
        → entry.tdef.size ≡ pos (length bytes)
        → length bytes < 2 ^ 63
        → length hashes ≡ num_chunks
        → Verifies m entry.tdef bytes (length bytes) (verify_tfile m os ht d hash hashes)
    unfolding verify_entry
    verify_tfile-mapped bytes mapped size small eight =
        rw (verify_tfile-entry, verify_entry, mapped)
          (verify_mapped-Verifies m entry.tdef bytes hashes size small eight)

    -- The string that `f_location` points to: one of its own, or the name inside the entry.
    abbrev pub IsAt : List ℕ → Type 0
    IsAt path =
        (entry.f_location ≡ Location.heap path)
        ⊎ ((entry.f_location ≡ Location.own_name) × (c_str entry.tdef.name ≡ ok path))

    verify_unmapped-IsAt :
        (path : List ℕ)
        → IsAt path
        → verify_unmapped m os entry.tdef entry.f_location hash hashes
          ≡ verify_file m os entry.tdef path hash hashes
    unfolding verify_unmapped
    verify_unmapped-IsAt path (inl own) = rw own refl
    verify_unmapped-IsAt path (inr (named, string)) = rw (named, string) refl

    -- For a valid table and an entry that is not mapped, with a regular file at its path or, once
    -- save_tfile has unmapped a downloaded file, under the name in its definition, at least as long
    -- as the definition says, verify_tfile returns a byte in which exactly the chunks read as
    -- verified for which the whole file or the chunk has its hash.
    pub verify_tfile-file :
        Md5Laws m
        → (path content : List ℕ) (file : FileView) (n : ℕ) → entry.m_location ≡ none
        → IsAt path
        → os.open_read path ≡ some file
        → Reads file.read content
        → file.st_size ≡ pos (length content)
        → entry.tdef.size ≡ pos n
        → n ≤ length content
        → length hashes ≡ num_chunks
        → Verifies m entry.tdef content n (verify_tfile m os ht d hash hashes)
    unfolding verify_entry
    verify_tfile-file laws path content file n unmapped at_path opened reads st size le eight =
        rw (verify_tfile-entry, verify_entry, unmapped, verify_unmapped-IsAt path at_path)
          (verify_file-Verifies m laws os entry.tdef path content file n hash hashes opened reads st
            size le eight)

    -- In a valid table, a file that is not mapped verifies fully when a regular file at the entry's
    -- path has the definition's hash as a whole.
    pub verify_tfile-whole :
        Md5Laws m
        → (path content : List ℕ) (file : FileView) → entry.m_location ≡ none
        → IsAt path
        → os.open_read path ≡ some file
        → Reads file.read content
        → file.st_size ≡ pos (length content)
        → entry.tdef.f_hash ≡ m.md5 content
        → verify_tfile m os ht d hash hashes ≡ ok verified_file
    unfolding verify_entry
    verify_tfile-whole laws path content file unmapped at_path opened reads st same =
        rw (verify_tfile-entry, verify_entry, unmapped, verify_unmapped-IsAt path at_path)
          (verify_file_whole m laws os entry.tdef path content file hash hashes opened reads st
            same)
