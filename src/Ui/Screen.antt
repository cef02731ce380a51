-- ===== src/Ui/Screen.antt =====
-- The screen of src/ui.c: `safe_trim`, `ui_run`, `ui_display`, `ui_exit`. A form of ncurses is the
-- codes that `form_driver` was given; what it makes of them is a parameter.
pub mod Trim
pub mod Drain
pub mod Keys
pub mod Whole
use grintorrent.Base.{
  ℕ, zero, suc, ◌+◌, Bool, true, false, ◌||◌, Option, none, some, List, [], ◌∷◌, ◌++◌, ◌==◌,
  if◌then◌else◌, length, get_or, set, Run, ok, fault, bad_free, out_of_fuel, ◌>>=◌, deref,
}
use grintorrent.Base.Bytes.{bytes_of}
use grintorrent.File.Verify.{c_str}
use grintorrent.Ui.Queue.{Address, Nodes, write, Queue, insert_m, remove_m}

-- `while (end >= str && isspace(*end))`, where `k` is `end + 1 - str`
pub trim_loop : (isspace : ℕ → Bool) → ℕ → List ℕ → List ℕ
trim_loop isspace zero str = str
trim_loop isspace (suc k) str =
    let rest = trim_loop isspace k (set str k 0) in if isspace (get_or str k 0) then rest else str

pub safe_trim : (isspace : ℕ → Bool) → List ℕ → Run (List ℕ)
safe_trim isspace str = do
  s ← c_str str
  if length s == 0 then ok str else ok (trim_loop isspace (length s) str)

-- The codes of curses.h and form.h
pub record Codes : Type 0 where
  pub req_new_line : ℕ
  pub req_del_prev : ℕ
  pub req_next_field : ℕ
  pub req_clr_field : ℕ
  pub key_backspace : ℕ
  pub key_enter : ℕ

-- `display_form` and `input_form`, with their fields: NULL before `ui_init`, then made by it, then freed.
-- Whether ncurses could post what was made does not matter to `ui_exit`.
pub data Forms : Type 0 where
  unset made freed : Forms

-- What `ui_run` keeps: the flag, the messages, and the two forms with what they were given.
pub record Screen : Type 0 where
  pub ui_running : Bool
  pub forms : Forms
  pub queue : Queue
  pub display : List ℕ
  pub input : List ℕ

-- A message on the display form
abbrev pub render : Codes → (name message : List ℕ) → List ℕ
render codes name message = codes.req_new_line ∷ (name ++ (b':' ∷ b' ' ∷ message))

module _ (codes : Codes) where
  -- `while ((message = remove_m()) != NULL)`, with the rounds that it may make
  unfoldable pub drain : ℕ → Queue → List ℕ → Run (Queue × List ℕ)
  drain zero q display = out_of_fuel
  drain (suc f) q display = do
    (top, q') ← remove_m q
    elim top [
      | none ↦ ok (q', display)
      | some a ↦ do
        n ← deref (q'.nodes a)
        drain f (record q' { nodes = write q'.nodes a none })
            (display ++ render codes n.name n.message)
    ]

  -- The names of the files, each on a line of its own
  pub file_lines : List (List ℕ) → List ℕ
  file_lines [] = []
  file_lines (f ∷ files) = codes.req_new_line ∷ (f ++ file_lines files)

abbrev pub Callback : Type 0
Callback = List ℕ → Screen → Run Screen

abbrev pub header : List ℕ
header = bytes_of "[ Network Files ]"

-- `field_buffer` reads the input field, `none` when ui_init could not make one and `strdup` gets NULL; the
-- callbacks are those that were registered, if any.
module _ (codes : Codes) (isspace : ℕ → Bool) (field_buffer : List ℕ → Option (List ℕ))
    (file_list_callback : Option (Run (List (List ℕ)))) (input_callback : Option Callback) where
  -- The branch of ENTER
  pub enter : Screen → Run Screen
  enter s = do
    let s' = record s { input = s.input ++ codes.req_next_field ∷ [] }
    buffer ← deref (field_buffer s'.input)
    copy ← safe_trim isspace buffer
    text ← c_str copy
    s'' ←
        (if length text == 0
          then elim file_list_callback [
            | none ↦ ok s'
            | some list ↦ do
              files ← list
              ok (record s' {
                display =
                    s'.display
                    ++ (codes.req_new_line
                        ∷ codes.req_new_line
                        ∷ (header ++ file_lines codes files));
              })
          ]
          else elim input_callback [ none ↦ ok s' | some callback ↦ callback text s' ])
    if s''.ui_running
        then ok (record s'' { input = s''.input ++ codes.req_clr_field ∷ [] })
        else ok s''

  -- What a round of `ui_run` does with what `getch` returns, `none` for -1. `fuel` bounds the messages it shows.
  pub key : (fuel : ℕ) → Option ℕ → Screen → Run Screen
  key fuel none s = ok s
  key fuel (some ch) s = do
    (queue, display) ← drain codes fuel s.queue s.display
    let s' = record s { queue = queue; display = display }
    if (ch == codes.key_backspace) || (ch == 127)
        then ok (record s' { input = s'.input ++ codes.req_del_prev ∷ [] })
        else if (ch == 10) || (ch == codes.key_enter)
        then enter s'
        else ok (record s' { input = s'.input ++ ch ∷ [] })

  -- `while (ui_running)`, over what `getch` returns from one round to the next
  pub ui_run : (fuel : ℕ) → List (Option ℕ) → Screen → Run Screen
  ui_run fuel [] s = ok s
  ui_run fuel (ch ∷ keys) s =
      let rest = (do s' ← key fuel ch s; ui_run fuel keys s') in if s.ui_running then rest else ok s

-- `ui_display` of a thread that the screen's loop does not wait for
unfoldable pub ui_display :
    (malloc : Option Address) → (username message : List ℕ) → Screen → Run Screen
ui_display malloc username message s = do
  queue ← insert_m malloc username message s.queue
  ok (record s { queue = queue })

-- The functions that unpost and free a form or a field refuse NULL, and `endwin` fails without a screen.
unfoldable pub ui_exit : Screen → Run Screen
ui_exit s = elim s.forms [
  | Forms.unset ↦ ok (record s { ui_running = false })
  | Forms.made ↦ ok (record s { ui_running = false; forms = Forms.freed })
  | Forms.freed ↦ fault bad_free
]
