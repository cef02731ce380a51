-- ===== src/Tests/Inputs.antt =====
-- The theorems on what is typed.
use grintorrent.Base.{
  ℕ, zero, suc, ◌≡◌, refl, inl, Bool, true, none, some, [], ◌∷◌, ◌==◌, replicate, ok,
}
use grintorrent.Base.Bytes.{bytes_of}
use grintorrent.Tfile.{Tfile, num_chunks, zero_digest, verified_file}
use grintorrent.Htable.{home}
use grintorrent.Htable.Invariant.{IsValid, occupied}
use grintorrent.File.Listing.Laws.{Blanks, listed}
use grintorrent.File.Verify.Table.{verify_tfile-whole}
use grintorrent.Ui.Queue.{Queue}
use grintorrent.Ui.Queue.Laws.{Holds}
use grintorrent.Ui.Screen.{Codes, Forms, Screen, Callback}
use grintorrent.Ui.Input.{same_str, ui_input_handler}
use grintorrent.Ui.Input.Laws.{system_message, ui_input_handler-found}
use grintorrent.Tests.Data.{
  one_file, one_file-IsValid, nonzero, sum_md5, sum_md5_laws, content, content_def, file_at_path,
  regular, regular-Reads, system, path,
}

abbrev pub codes : Codes
codes = record {
  req_new_line = 300;
  req_del_prev = 301;
  req_next_field = 302;
  req_clr_field = 303;
  key_backspace = 304;
  key_enter = 305;
}

abbrev pub isspace : ℕ → Bool
isspace c = c == 32

abbrev screen : Screen
screen = record {
  ui_running = true;
  forms = Forms.made;
  queue = record { head = none; tail = none; nodes = λ a. none };
  display = [];
  input = 104 ∷ [];
}

screen-Holds : Holds screen.queue []
screen-Holds = record { starts = refl; ends = refl; linked = tt }

abbrev ignore : Callback
ignore text s = ok (record s { display = text })

-- A file with the name "a", which is there.
abbrev named_file : Tfile
named_file = record file_at_path { tdef = record content_def { name = 97 ∷ replicate 31 0 } }

named-IsValid : IsValid (one_file named_file)
unfolding occupied home
named-IsValid = one_file-IsValid named_file refl refl

named-Blanks : Blanks (one_file named_file)
named-Blanks zero e = refl
named-Blanks (suc zero) e = absurd (nonzero content_def.f_hash refl e)
named-Blanks (suc (suc zero)) e = refl
named-Blanks (suc (suc (suc zero))) e = refl
named-Blanks (suc (suc (suc (suc i)))) e = refl

named-listed : listed (one_file named_file).table ≡ named_file.tdef ∷ []
unfolding listed
named-listed = refl

same_name : same_str named_file.tdef.name (97 ∷ []) ≡ ok true
unfolding same_str
same_name = refl

ui_input_handler-found_example :
    (queue : Queue) × (ui_input_handler sum_md5
        (system content)
        (λ nodes. some 3)
        zero_digest
        (replicate num_chunks zero_digest)
        (one_file named_file)
        (some (97 ∷ []))
        screen
      ≡ ok (record screen { queue = queue }, none))
    × Holds queue ((3, system_message (bytes_of "File already downloaded!")) ∷ [])
ui_input_handler-found_example =
    ui_input_handler-found sum_md5 (system content) (λ nodes. some 3) zero_digest
      (replicate num_chunks zero_digest) (one_file named_file) 97 [] named-IsValid named-Blanks
      screen [] 3 screen-Holds refl refl [] [] named_file.tdef verified_file refl named-listed tt
      same_name
      (verify_tfile-whole sum_md5 (system content) named-IsValid content_def.f_hash zero_digest
        (replicate num_chunks zero_digest) 1 (nonzero content_def.f_hash refl) refl sum_md5_laws
        path content (regular content) refl (inl refl) refl (regular-Reads content) refl refl)
