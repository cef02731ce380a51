-- ===== src/Ui/Window.antt =====
-- `ui_init` of src/ui.c, and the registration of its callbacks: what the terminal is told, where the
-- two fields stand, and the line between them.
pub mod Laws
use grintorrent.Base.{
  ℕ, suc, zero, ◌+◌, Bool, true, false, Option, none, some, List, [], ◌∷◌, if◌then◌else◌, Run, ok,
}
use grintorrent.Base.Int.{ℤ, pos, ◌+ℤ◌, ◌-ℤ◌}
use grintorrent.Ui.Queue.{Queue}
use grintorrent.Ui.Screen.{Forms, Screen, Callback}

-- `INPUT_HEIGHT` and `INPUT_TIMEOUT_MS`
abbrev pub input_height : ℤ
input_height = pos 3

abbrev pub input_timeout_ms : ℕ
input_timeout_ms = 10

-- The terminal and ncurses: the size that `getmaxyx` gives, whether there are colours, their numbers,
-- and whether `new_field` makes a field of a height and a width at a row and a column.
pub record Terminal : Type 0 where
  pub rows : ℕ
  pub cols : ℕ
  pub has_colors : Bool
  pub color_green : ℕ
  pub color_red : ℕ
  pub color_white : ℕ
  pub new_field : (height width frow fcol : ℤ) → Bool

-- A field, with the options that `ui_init` puts off
pub record Field : Type 0 where
  pub height : ℤ
  pub width : ℤ
  pub frow : ℤ
  pub fcol : ℤ
  pub o_static : Bool
  pub o_autoskip : Bool
  pub o_wrap : Bool

-- A field has all options at first; `none` is NULL.
abbrev pub make_field : Terminal → (height width frow fcol : ℤ) → Option Field
make_field term height width frow fcol =
    if term.new_field height width frow fcol
    then some (record {
      height = height;
      width = width;
      frow = frow;
      fcol = fcol;
      o_static = true;
      o_autoskip = true;
      o_wrap = true;
    })
    else none

-- `field_opts_off`, which finds no field where there is none
abbrev pub static_off : Option Field → Option Field
static_off none = none
static_off (some f) = some (record f { o_static = false })

abbrev pub autoskip_off : Option Field → Option Field
autoskip_off none = none
autoskip_off (some f) = some (record f { o_autoskip = false })

abbrev pub wrap_off : Option Field → Option Field
wrap_off none = none
wrap_off (some f) = some (record f { o_wrap = false })

-- `for (int i = 0; i < cols; i++) mvprintw(display_height, i, "-");`, as the places of the line
pub split_loop : (display_height : ℤ) → (left i : ℕ) → List (ℤ × ℕ)
split_loop display_height zero i = []
split_loop display_height (suc k) i = (display_height, i) ∷ split_loop display_height k (i + 1)

-- How the terminal reads and shows.
pub record Modes : Type 0 where
  pub pairs : List (ℕ × ℕ × ℕ)
  pub line_buffering : Bool
  pub echo : Bool
  pub cursor : ℕ
  pub getch_timeout : ℕ
  pub keypad : Bool

-- The variables of src/ui.c
pub record Ui : Type 0 where
  pub modes : Option Modes
  pub display_field : Option Field
  pub input_field : Option Field
  pub split : List (ℤ × ℕ)
  pub recursive_lock : Bool
  pub input_callback : Option Callback
  pub file_list_callback : Option (Run (List (List ℕ)))
  pub screen : Screen

-- Before `ui_init`; messages may wait already.
abbrev pub no_ui : Queue → Ui
no_ui queue = record {
  modes = none;
  display_field = none;
  input_field = none;
  split = [];
  recursive_lock = false;
  input_callback = none;
  file_list_callback = none;
  screen = record {
    ui_running = false;
    forms = Forms.unset;
    queue = queue;
    display = [];
    input = [];
  };
}

module _ (term : Terminal) where
  abbrev pub color_pairs : List (ℕ × ℕ × ℕ)
  color_pairs =
      if term.has_colors
      then (1, term.color_green, term.color_white) ∷ (2, term.color_red, term.color_white) ∷ []
      else []

  unfoldable pub display_height : ℤ
  display_height = (pos term.rows -ℤ input_height) -ℤ pos 1

  unfoldable pub ui_init : Callback → Ui → Ui
  unfolding split_loop
  ui_init callback ui = record ui {
    modes = some (record {
      pairs = color_pairs;
      line_buffering = false;
      echo = false;
      cursor = 0;
      getch_timeout = input_timeout_ms;
      keypad = true;
    });
    display_field =
        wrap_off (static_off (make_field term display_height (pos term.cols) (pos 0) (pos 0)));
    input_field = wrap_off (
        autoskip_off
          (make_field term input_height (pos term.cols) (display_height +ℤ pos 1) (pos 0)));
    split = split_loop display_height term.cols 0;
    recursive_lock = true;
    input_callback = some callback;
    screen = record ui.screen { ui_running = true; forms = Forms.made; display = []; input = [] };
  }

abbrev pub ui_register_file_list_callback : Run (List (List ℕ)) → Ui → Ui
ui_register_file_list_callback cb ui = record ui { file_list_callback = some cb }
