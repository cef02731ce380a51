-- ===== src/Tests/Displays.antt =====
-- The screen of `main` on terminals, from `ui_init` to `ui_exit`.
use grintorrent.Base.{
  ℕ, ◌+◌, ◌≤◌, ◌≡◌, refl, Bool, true, none, some, [], ◌∷◌, ◌++◌, arith, ltb, leb, ◌&&◌, replicate,
  ok, fault, bad_free,
}
use grintorrent.Base.Bytes.{bytes_of}
use grintorrent.Base.Int.{ℤ, pos_part, neg_part}
use grintorrent.Tfile.{num_chunks, zero_digest}
use grintorrent.File.Listing.Laws.{listed}
use grintorrent.Ui.Queue.{Queue, write, insert_m}
use grintorrent.Ui.Queue.Laws.{Holds}
use grintorrent.Ui.Screen.{Callback, ui_display}
use grintorrent.Ui.Screen.Keys.{ui_run_idle}
use grintorrent.Ui.Screen.Trim.{rstrip}
use grintorrent.Ui.Window.{Terminal, Ui, no_ui, ui_init, ui_register_file_list_callback}
use grintorrent.Ui.Window.Laws.{FieldLaws, inside, on_split, bit, ui_init_layout, ui_init_small}
use grintorrent.Ui.Input.{ui_list_network_files}
use grintorrent.Main.Display.{Console, on_input, opened, run_ui, run_screen, closing, port_message}
use grintorrent.Main.Display.Laws.{run_screen-Running, run_screen_frees_twice}
use grintorrent.Tests.Inputs.{codes, isspace}
use grintorrent.Tests.Screens.{empty, no_files-Blanks}
use grintorrent.Tests.Data.{no_files, no_files-IsValid, sum_md5, content, system}

-- `new_field` as ncurses has it
abbrev fits : ℤ → ℤ → ℤ → ℤ → Bool
fits h w r c = ltb 0 (pos_part h) && ltb 0 (pos_part w) && leb (neg_part r) 0 && leb (neg_part c) 0

abbrev terminal : ℕ → Terminal
terminal rows = record {
  rows = rows;
  cols = 80;
  has_colors = true;
  color_green = 2;
  color_red = 1;
  color_white = 7;
  new_field = fits;
}

terminal-FieldLaws : (rows : ℕ) → FieldLaws (terminal rows)
terminal-FieldLaws rows = record {
  makes = λ h w r c. ground arith;
  no_height = λ w r c. refl;
  negative_height = λ h w r c. refl;
  negative_row = λ h w r c. ground arith;
}

abbrev console : Console
console = record {
  term = terminal 24;
  codes = codes;
  isspace = isspace;
  -- ":q" is typed.
  field_buffer = λ typed. some (bytes_of ":q" ++ 0 ∷ []);
  decimal = λ n. 52 ∷ 50 ∷ [];
  malloc = λ nodes. some 0;
  has_memory = λ n. true;
  fuel = 2;
  os = system content;
  hash = zero_digest;
  hashes = replicate num_chunks zero_digest;
}

abbrev ignore : Callback
ignore text s = ok s

ui_init_layout_example :
    bit (inside (ui_init (terminal 24) ignore (no_ui empty)).display_field 20 7)
      + bit (inside (ui_init (terminal 24) ignore (no_ui empty)).input_field 20 7)
      + bit (on_split (ui_init (terminal 24) ignore (no_ui empty)).split 20 7)
    ≡ 1
ui_init_layout_example =
    ui_init_layout (terminal 24) (terminal-FieldLaws 24) ignore (no_ui empty) 20 7 (omega arith)
      (omega arith) (omega arith)

ui_init_small_example :
    ((ui_init (terminal 2) ignore (no_ui empty)).display_field ≡ none)
    × (2 ≤ 2 → (ui_init (terminal 2) ignore (no_ui empty)).input_field ≡ none)
ui_init_small_example =
    ui_init_small (terminal 2) (terminal-FieldLaws 2) ignore (no_ui empty) (omega arith)
      (omega arith)

-- The message about the port waits.
abbrev waiting : Queue
waiting = record {
  head = some 0;
  tail = some 0;
  nodes =
      write empty.nodes 0 (
        some (record { name = bytes_of "system"; message = port_message console 42; next = none }));
}

waiting-Holds :
    Holds waiting ((0, record { name = bytes_of "system"; message = port_message console 42 }) ∷ [])
unfolding write
waiting-Holds = record { starts = refl; ends = refl; linked = (refl, tt, tt) }

abbrev ui : Ui
ui =
    let begun = ui_init console.term (on_input console sum_md5 no_files) (no_ui empty) in
    ui_register_file_list_callback (ui_list_network_files console.has_memory no_files)
      (record begun { screen = record begun.screen { queue = waiting } })

begins : opened console sum_md5 no_files 42 empty ≡ ok ui
unfolding opened ui_display insert_m ui_init
begins = refl

idle : (n : ℕ) → run_ui console sum_md5 no_files (replicate n none) ui ≡ ok ui.screen
idle n =
    ui_run_idle codes isspace console.field_buffer ui.file_list_callback ui.input_callback 2 n
      ui.screen

waits : run_screen console sum_md5 no_files 42 empty (replicate 1 none) ≡ ok ui.screen
unfolding run_screen closing ui_init
waits = rw (begins, idle 1) refl

run_screen-Running_example : ui.screen.ui_running ≡ true
run_screen-Running_example =
    run_screen-Running console sum_md5 no_files 42 empty (replicate 1 none) ui.screen waits

run_screen_frees_twice_example :
    run_screen console sum_md5 no_files 42 empty (replicate 1 none ++ some 10 ∷ []) ≡ fault bad_free
unfolding rstrip listed ui_init
run_screen_frees_twice_example =
    run_screen_frees_twice console sum_md5 no_files 42 empty (replicate 1 none) ui ui.screen
      ((0, record { name = bytes_of "system"; message = port_message console 42 }) ∷ [])
      (bytes_of ":q") [] 58 (113 ∷ []) begins (idle 1) refl waiting-Holds (omega arith) refl refl
      ((λ e. omega (arith, e)), ((λ e. omega (arith, e)), tt)) refl refl no_files-IsValid
      no_files-Blanks tt
