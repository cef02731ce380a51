-- ===== src/Ui/Input.antt =====
-- src/ui_adapter.c: the list of files for the screen, and what an input does.
pub mod Laws
pub mod Whole
use grintorrent.Base.{
  ℕ, Bool, true, false, ◌||◌, ◌&&◌, Option, none, some, List, [], ◌∷◌, ◌++◌, ◌==◌, if◌then◌else◌,
  length, Run, ok, fault, out_of_bounds, ◌>>=◌,
}
use grintorrent.Base.Bytes.{bytes_of}
use grintorrent.System.{Md5, Os}
use grintorrent.Tfile.{Digest, TfileDef, verified_file}
use grintorrent.Htable.{Htable}
use grintorrent.File.Listing.{list_tfiles}
use grintorrent.File.Verify.{c_str, verify_tfile}
use grintorrent.Ui.Queue.{Address, Nodes}
use grintorrent.Ui.Screen.{Screen, ui_display, ui_exit}

-- `strdup` of each name
pub names : List TfileDef → Run (List (List ℕ))
names [] = ok []
names (t ∷ tfiles) = do name ← c_str t.name; rest ← names tfiles; ok (name ∷ rest)

-- Whether `malloc` has memory for the array of `n` names. No names where the code returns 0.
pub ui_list_network_files : (malloc : ℕ → Bool) → Htable → Run (List (List ℕ))
ui_list_network_files malloc ht = do
  tfiles ← list_tfiles ht
  let count = length tfiles
  if count == 0 then ok [] else if malloc count then names tfiles else ok []

-- Whether `strcmp` of two strings is 0
abbrev pub same_text : (a b : List ℕ) → Bool
same_text [] [] = true
same_text (x ∷ a) (y ∷ b) = (x == y) && same_text a b
same_text _ _ = false

-- Whether `strcmp` of a buffer and a string is 0; it reads the buffer up to the first difference.
unfoldable pub same_str : (buffer text : List ℕ) → Run Bool
same_str [] text = fault out_of_bounds
same_str (b ∷ buffer) [] = ok (b == 0)
same_str (b ∷ buffer) (c ∷ text) =
    let rest = same_str buffer text in if b == c then rest else ok false

-- `ui_display("system", …)`
pub tell : (malloc : Nodes → Option Address) → List ℕ → Screen → Run Screen
tell malloc text s = ui_display (malloc s.queue.nodes) (bytes_of "system") text s

-- `hash` and `hashes` are what the stack of `verify_tfile` holds.
module _ (m : Md5) (os : Os) (malloc : Nodes → Option Address) (hash : Digest)
    (hashes : List Digest) where
  -- `for (int i = 0; i < count; i++)` over what is left of `tfiles`. The second result is the hash
  -- of the file for which a thread starts to run `download_file`, if any.
  pub input_loop : Htable → List ℕ → List TfileDef → Screen → Run (Screen × Option Digest)
  input_loop ht input [] s = do
    s' ← tell malloc (bytes_of "File not found in network") s
    ok (s', none)
  input_loop ht input (t ∷ tfiles) s =
      let rest = input_loop ht input tfiles s in
      do
        same ← same_str t.name input
        if same
            then (do
              status ← verify_tfile m os ht t.f_hash hash hashes
              if status == verified_file
                  then (do s' ← tell malloc (bytes_of "File already downloaded!") s; ok (s', none))
                  else (do
                    s' ← tell malloc (bytes_of "Starting download...") s
                    ok (s', some t.f_hash)))
            else rest

  -- `input` is NULL or a string.
  pub ui_input_handler : Htable → Option (List ℕ) → Screen → Run (Screen × Option Digest)
  ui_input_handler ht none s = ok (s, none)
  ui_input_handler ht (some input) s =
      let quits = same_text input (bytes_of ":quit") || same_text input (bytes_of ":q") in
      let search = (do
        s' ← (if quits then ui_exit s else ok s)
        tfiles ← list_tfiles ht
        input_loop ht input tfiles s') in
      if length input == 0 then ok (s, none) else search
