-- ===== src/Ui/Input/Laws.antt =====
-- What an input does.
use mathlib.Core.List.{append-nil}
use grintorrent.Base.{
  ℕ, ◌≡◌, refl, sym, ◌∙◌, ap, Bool, true, false, ◌||◌, Bool-cases, inl, inr, Option, none, some,
  List, [], ◌∷◌, ◌++◌, arith, ◌==◌, ==-eq-false, if◌then◌else◌, length, ok,
}
use grintorrent.Base.Bytes.{bytes_of}
use grintorrent.System.{Md5, Os}
use grintorrent.Tfile.{Digest, TfileDef, verified_file}
use grintorrent.Htable.{Htable}
use grintorrent.Htable.Invariant.{IsValid}
use grintorrent.File.Listing.Laws.{Blanks, listed, list_tfiles_lem}
use grintorrent.File.Verify.{c_str, verify_tfile}
use grintorrent.Ui.Queue.{Address, Nodes, Queue}
use grintorrent.Ui.Queue.Laws.{Cells, Message, Holds, insert_m-Holds}
use grintorrent.Ui.Screen.{Forms, Screen, ui_display, ui_exit}
use grintorrent.Ui.Input.{
  names, ui_list_network_files, same_text, same_str, tell, input_loop, ui_input_handler,
}

-- No name of the list is the input.
abbrev pub Others : List ℕ → List TfileDef → Type 0
Others input [] = Unit
Others input (t ∷ tfiles) = (same_str t.name input ≡ ok false) × Others input tfiles

-- The texts that the names hold
abbrev pub Named : List TfileDef → List (List ℕ) → Type 0
Named [] [] = Unit
Named (t ∷ tfiles) (n ∷ ns) = (c_str t.name ≡ ok n) × Named tfiles ns
Named _ _ = ⊥

names_lem : (tfiles : List TfileDef) (ns : List (List ℕ)) → Named tfiles ns → names tfiles ≡ ok ns
unfolding names
names_lem [] [] v = refl
names_lem [] (n ∷ ns) v = absurd v
names_lem (t ∷ tfiles) [] v = absurd v
names_lem (t ∷ tfiles) (n ∷ ns) (e, v) = rw (e, names_lem tfiles ns v) refl

module _ (m : Md5) (os : Os) (malloc : Nodes → Option Address) (hash : Digest)
    (hashes : List Digest) (ht : Htable) (input : List ℕ) where
  pub input_loop-Others :
      (before after : List TfileDef) (s : Screen)
      → Others input before
      → input_loop m os malloc hash hashes ht input (before ++ after) s
        ≡ input_loop m os malloc hash hashes ht input after s
  unfolding input_loop
  input_loop-Others [] after s v = refl
  input_loop-Others (t ∷ before) after s (e, v) = rw e (input_loop-Others before after s v)

pub ui_list_network_files_lem :
    (malloc : ℕ → Bool) (ht : Htable) (ns : List (List ℕ))
    → IsValid ht
    → Blanks ht
    → malloc (length (listed ht.table)) ≡ true
    → Named (listed ht.table) ns
    → ui_list_network_files malloc ht ≡ ok ns
unfolding ui_list_network_files
ui_list_network_files_lem malloc ht ns v blanks memory named =
    rw (list_tfiles_lem ht v blanks, memory) (go (listed ht.table) ns named)
  where
    go :
        (tfiles : List TfileDef) (ns : List (List ℕ))
        → Named tfiles ns
        → (if length tfiles == 0 then ok [] else names tfiles) ≡ ok ns
    go [] [] named = refl
    go [] (n ∷ ns) named = absurd named
    go (t ∷ tfiles) ns named =
        rw (==-eq-false (length (t ∷ tfiles)) 0 (omega arith)) (names_lem (t ∷ tfiles) ns named)

abbrev pub system_message : List ℕ → Message
system_message text = record { name = bytes_of "system"; message = text }

tell_lem :
    (malloc : Nodes → Option Address) (text : List ℕ) (s : Screen) (cells : Cells) (a : Address)
    → Holds s.queue cells
    → malloc s.queue.nodes ≡ some a
    → s.queue.nodes a ≡ none
    → (queue : Queue) × (tell malloc text s ≡ ok (record s { queue = queue }))
      × Holds queue (cells ++ (a, system_message text) ∷ [])
unfolding tell ui_display
tell_lem malloc text s cells a h memory unused =
    let (queue, inserted, h') = insert_m-Holds s.queue cells h a (system_message text) unused in
    (queue, rw (memory, inserted) refl, h')

-- The screen behind `ui_exit`
abbrev pub quit : Screen → Screen
quit s = record s { ui_running = false; forms = Forms.freed }

pub ui_exit-quit : (s : Screen) → s.forms ≡ Forms.made → ui_exit s ≡ ok (quit s)
unfolding ui_exit
ui_exit-quit s shown_forms = rw shown_forms refl

abbrev pub quits : List ℕ → Bool
quits input = same_text input (bytes_of ":quit") || same_text input (bytes_of ":q")

module _ (m : Md5) (os : Os) (malloc : Nodes → Option Address) (hash : Digest)
    (hashes : List Digest) (ht : Htable) (c : ℕ) (cs : List ℕ) (v : IsValid ht) (blanks : Blanks ht)
    (s : Screen) (cells : Cells) (a : Address) (h : Holds s.queue cells)
    (memory : malloc s.queue.nodes ≡ some a) (unused : s.queue.nodes a ≡ none) where
  abbrev input : List ℕ
  input = c ∷ cs

  -- When the valid table, whose empty entries have no size, lists a file that has the input as its
  -- name and the files listed before have other names, verify_tfile of it returns, the input is
  -- neither :quit nor :q, and malloc gives an address that is not in use, ui_input_handler shows
  -- one message: that the file is there, if it is verified, and else that the download starts, for
  -- that file's hash.
  pub ui_input_handler-found :
      (before after : List TfileDef) (t : TfileDef) (status : ℕ)
      → quits input ≡ false
      → listed ht.table ≡ before ++ t ∷ after
      → Others input before
      → same_str t.name input ≡ ok true
      → verify_tfile m os ht t.f_hash hash hashes ≡ ok status
      → (queue : Queue) × (ui_input_handler m os malloc hash hashes ht (some input) s
          ≡ ok
              (record s { queue = queue }, if status == verified_file then none else some t.f_hash))
        × Holds queue (
            cells
            ++ (
              a,
              system_message (
                  if status == verified_file
                  then bytes_of "File already downloaded!"
                  else bytes_of "Starting download..."),
            )
              ∷ [])
  unfolding ui_input_handler input_loop
  ui_input_handler-found before after t status stays split others same run =
      elim (Bool-cases (status == verified_file)) [
        | inl done ↦
            let (queue, told, h') =
              tell_lem malloc (bytes_of "File already downloaded!") s cells a h memory unused in
            (
              queue,
              rw
                  (
                    ==-eq-false (length input) 0 (omega arith),
                    stays,
                    list_tfiles_lem ht v blanks,
                    split,
                    input_loop-Others m os malloc hash hashes ht input before (t ∷ after) s others,
                    same,
                    run,
                    done,
                    told,
                  )
                  refl,
              rw done h',
            )
        | inr other ↦
            let (queue, told, h') =
              tell_lem malloc (bytes_of "Starting download...") s cells a h memory unused in
            (
              queue,
              rw
                  (
                    ==-eq-false (length input) 0 (omega arith),
                    stays,
                    list_tfiles_lem ht v blanks,
                    split,
                    input_loop-Others m os malloc hash hashes ht input before (t ∷ after) s others,
                    same,
                    run,
                    other,
                    told,
                  )
                  refl,
              rw other h',
            )
      ]

  -- When no file that the valid table lists, whose empty entries have no size, has a non-empty
  -- input as its name, ui_init has made the forms, and malloc gives an address that is not in use,
  -- ui_input_handler shows that the file is not found and starts no download; it does so for :quit
  -- and :q as well, which besides stop the screen and free its forms.
  pub ui_input_handler-Others :
      s.forms ≡ Forms.made
      → Others input (listed ht.table)
      → (queue : Queue) × (ui_input_handler m os malloc hash hashes ht (some input) s
          ≡ ok (
            record s {
              queue = queue;
              ui_running = if quits input then false else s.ui_running;
              forms = if quits input then Forms.freed else Forms.made;
            },
            none,
          ))
        × Holds queue (cells ++ (a, system_message (bytes_of "File not found in network")) ∷ [])
  unfolding ui_input_handler input_loop
  ui_input_handler-Others shown_forms others =
      let text = bytes_of "File not found in network" in
      let nonempty = ==-eq-false (length input) 0 (omega arith) in
      elim (Bool-cases (quits input)) [
        | inl stops ↦
            let (queue, told, h') = tell_lem malloc text (quit s) cells a h memory unused in
            (
              queue,
              rw
                  (
                    nonempty,
                    stops,
                    ui_exit-quit s shown_forms,
                    list_tfiles_lem ht v blanks,
                    all_others (quit s) others,
                    told,
                  )
                  refl,
              h',
            )
        | inr stays ↦
            let (queue, told, h') = tell_lem malloc text s cells a h memory unused in
            (
              queue,
              rw
                  (
                    nonempty,
                    stays,
                    list_tfiles_lem ht v blanks,
                    all_others s others,
                    told,
                    shown_forms,
                  )
                  refl,
              h',
            )
      ]
    where
      all_others :
          (s' : Screen)
          → Others input (listed ht.table)
          → input_loop m os malloc hash hashes ht input (listed ht.table) s'
            ≡ input_loop m os malloc hash hashes ht input [] s'
      all_others s' o =
          ap (λ (l : List TfileDef). input_loop m os malloc hash hashes ht input l s')
            (sym (append-nil (listed ht.table)))
          ∙ input_loop-Others m os malloc hash hashes ht input (listed ht.table) [] s' o
