-- ===== src/Main/Display.antt =====
-- The end of `main` of src/client.c: the screen, from `ui_init` to `ui_exit`, over a table that stays
-- as it is; `print_usage` and `free_args`.
pub mod Laws
use grintorrent.Base.{
  ℕ, Bool, Option, none, some, List, [], ◌∷◌, ◌++◌, if◌then◌else◌, take, Run, ok, ◌>>=◌,
}
use grintorrent.Base.Bytes.{bytes_of}
use grintorrent.System.{Md5, Os}
use grintorrent.Tfile.{Digest}
use grintorrent.Htable.{Htable}
use grintorrent.CommandLine.{CmdArgs}
use grintorrent.Ui.Queue.{Address, Nodes, Queue}
use grintorrent.Ui.Screen.{Codes, Screen, Callback, ui_run, ui_display, ui_exit}
use grintorrent.Ui.Input.{ui_list_network_files, ui_input_handler}
use grintorrent.Ui.Window.{Terminal, Ui, no_ui, ui_init, ui_register_file_list_callback}

-- The terminal and the C library: `decimal` is what "%d" prints, `fuel` bounds the messages that are
-- shown at a time, and `hash` and `hashes` stand on the stack of `verify_tfile`.
pub record Console : Type 0 where
  pub term : Terminal
  pub codes : Codes
  pub isspace : ℕ → Bool
  pub field_buffer : List ℕ → Option (List ℕ)
  pub decimal : ℕ → List ℕ
  pub malloc : Nodes → Option Address
  pub has_memory : ℕ → Bool
  pub fuel : ℕ
  pub os : Os
  pub hash : Digest
  pub hashes : List Digest

-- `snprintf` into `char message[256]`
abbrev pub port_message : Console → ℕ → List ℕ
port_message c network_port = take 255 (bytes_of "Running on port " ++ c.decimal network_port)

module _ (c : Console) (m : Md5) (ht : Htable) where
  -- `ui_input_handler` as the screen calls it; a download runs in a thread of its own.
  abbrev pub on_input : Callback
  on_input text s = do
    (s', started) ← ui_input_handler m c.os c.malloc c.hash c.hashes ht (some text) s
    ok s'

  -- The screen before the first key
  unfoldable pub opened : ℕ → Queue → Run Ui
  opened network_port waiting = do
    let ui = ui_init c.term on_input (no_ui waiting)
    s ←
        ui_display (c.malloc waiting.nodes) (bytes_of "system") (port_message c network_port)
          ui.screen
    ok (
        ui_register_file_list_callback (ui_list_network_files c.has_memory ht)
          (record ui { screen = s }))

  -- `ui_run` over the callbacks that are registered
  abbrev pub run_ui : List (Option ℕ) → Ui → Run Screen
  run_ui keys ui =
      ui_run c.codes c.isspace c.field_buffer ui.file_list_callback ui.input_callback c.fuel keys
        ui.screen

  -- `ui_exit` behind the loop; the loop waits for a key as long as the screen runs.
  unfoldable pub closing : Screen → Run Screen
  closing s = if s.ui_running then ok s else ui_exit s

  -- With the messages of other threads that wait at first, and what `getch` returns
  unfoldable pub run_screen : (network_port : ℕ) → Queue → List (Option ℕ) → Run Screen
  run_screen network_port waiting keys = do
    ui ← opened network_port waiting
    s ← run_ui keys ui
    closing s

-- What `print_usage` writes to `stderr`.
pub print_usage : (argv0 : List ℕ) → List ℕ
print_usage argv0 =
    bytes_of "Usage: "
    ++ (argv0 ++ (bytes_of " <-u username> [-p <peer> -n <port number>] [-f file]" ++ 10 ∷ []))

-- A line about an argument that is given, which is freed behind it
abbrev pub printed : List ℕ → Option (List ℕ) → List ℕ
printed label none = []
printed label (some s) = label ++ (s ++ 10 ∷ [])

-- What `free_args` prints. Nothing calls it.
pub free_args : CmdArgs → List ℕ
free_args args =
    printed (bytes_of "username: ") args.username_p
    ++ (printed (bytes_of "peer: ") args.peer_p
        ++ (printed (bytes_of "port: ") args.port_p ++ printed (bytes_of "filename: ") args.file_p))
