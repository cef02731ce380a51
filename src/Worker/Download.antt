-- ===== src/Worker/Download.antt =====
-- `download_file` of src/client.c. Other threads change the table and the peers meanwhile: both are
-- given for every round.
pub mod Laws
use grintorrent.Base.{
  ℕ, zero, suc, ◌+◌, Bool, Option, none, some, List, [], ◌∷◌, ◌++◌, if◌then◌else◌, ◌==◌, get_elem?,
  Run, ok, out_of_fuel, ◌>>=◌, in_bounds, deref,
}
use grintorrent.Base.Bytes.{bytes_of}
use grintorrent.Base.Int.{ℤ}
use grintorrent.System.{Md5, Os}
use grintorrent.Tfile.{Digest, num_chunks, verified_file}
use grintorrent.Htable.{Htable, search_htable}
use grintorrent.File.Verify.{c_str, verify_tfile}
use grintorrent.File.Open.{save_tfile}
use grintorrent.Message.{Kernel}
use grintorrent.Peers.{Peers}
use grintorrent.Share.{Sent}
use grintorrent.Worker.{request_loop}

-- "File '%s' downloaded!"
abbrev pub downloaded : List ℕ → List ℕ
downloaded name = bytes_of "File '" ++ (name ++ bytes_of "' downloaded!")

module _ (m : Md5) (os : Os) (write : ℕ → ℕ → ℕ → Kernel) (padding : List ℕ) (tables : ℕ → Htable)
    (peers : ℕ → Peers) (file_hash : Digest) (return_addr : List ℕ) (hash : Digest)
    (hashes : List Digest) where
  -- `while (true)` from round `k` on, with the rounds that it may make: the round that it ends in,
  -- and what went out
  pub download_loop : ℕ → ℕ → Sent → Run (ℕ × Sent)
  download_loop zero k sent = out_of_fuel
  download_loop (suc f) k sent =
      let next = λ (chunks : ℕ). (do
        (peers', sent') ←
            request_loop (write k) padding (peers k) file_hash return_addr chunks num_chunks 0 sent
        download_loop f (k + 1) sent') in
      do
        chunks ← verify_tfile m os (tables k) file_hash hash hashes
        if chunks == verified_file then ok (k, sent) else next chunks

  -- `server_fd` is what `server_socket_open` returns, `none` for -1. The table, what went out, and
  -- the text for the screen.
  pub download_file : (fuel : ℕ) → (server_fd : Option ℤ) → Run (Htable × Sent × Option (List ℕ))
  download_file fuel none = ok (tables 0, [], none)
  download_file fuel (some fd) = do
    (k, sent) ← download_loop fuel 0 []
    (status, ht) ← save_tfile os (tables k) file_hash
    found ← search_htable ht file_hash
    i ← deref found
    tf ← in_bounds (get_elem? ht.table i)
    name ← c_str tf.tdef.name
    ok (ht, sent, some (downloaded name))
