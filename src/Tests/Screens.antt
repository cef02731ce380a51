-- ===== src/Tests/Screens.antt =====
-- The theorems on the screen and its messages.
use grintorrent.Base.{
  ℕ, zero, suc, ◌≡◌, refl, Bool, true, false, none, some, List, [], ◌∷◌, arith, ◌==◌, replicate, ok,
}
use grintorrent.Base.Bytes.{bytes_of}
use grintorrent.Tfile.{num_chunks, zero_digest}
use grintorrent.File.Verify.{c_str}
use grintorrent.File.Listing.Laws.{Blanks, listed}
use grintorrent.Ui.Queue.{Nodes, write, Queue, insert_m, remove_m}
use grintorrent.Ui.Queue.Laws.{Message, Cells, messages, Holds}
use grintorrent.Ui.Screen.{Codes, Forms, Screen, safe_trim, drain}
use grintorrent.Ui.Screen.Trim.{rstrip, safe_trim_lem}
use grintorrent.Ui.Screen.Drain.{
  rendered, Allocated, Call, run_calls, spec_calls, run_calls-spec_calls,
}
use grintorrent.Ui.Input.{ui_input_handler}
use grintorrent.Ui.Input.Laws.{system_message, ui_input_handler-Others}
use grintorrent.Tests.Data.{sum_md5, content, system, no_files, no_files-IsValid}

abbrev isspace : ℕ → Bool
isspace c = c == 32

safe_trim_lem_example :
    (out : List ℕ) × (safe_trim isspace (104 ∷ 105 ∷ 32 ∷ 32 ∷ 0 ∷ 7 ∷ []) ≡ ok out)
    × (c_str out ≡ ok (104 ∷ 105 ∷ []))
unfolding rstrip
safe_trim_lem_example = safe_trim_lem isspace (104 ∷ 105 ∷ 32 ∷ 32 ∷ []) (7 ∷ []) (
  λ e. omega (arith, e),
  (λ e. omega (arith, e), (λ e. omega (arith, e), (λ e. omega (arith, e), tt))),
)

abbrev codes : Codes
codes = record {
  req_new_line = 300;
  req_del_prev = 301;
  req_next_field = 302;
  req_clr_field = 303;
  key_backspace = 304;
  key_enter = 305;
}

abbrev hello : Message
hello = record { name = bytes_of "ann"; message = bytes_of "hello" }

abbrev bye : Message
bye = record { name = bytes_of "ann"; message = bytes_of "bye" }

abbrev nowhere : Nodes
nowhere a = none

abbrev pub empty : Queue
empty = record { head = none; tail = none; nodes = nowhere }

pub empty-Holds : Holds empty []
empty-Holds = record { starts = refl; ends = refl; linked = tt }

abbrev calls : List Call
calls = Call.show 3 hello ∷ Call.refresh ∷ Call.show 3 bye ∷ []

calls-Allocated : Allocated codes 4 calls empty []
unfolding Allocated insert_m remove_m drain write
calls-Allocated = (refl, (refl, tt))

run_calls-spec_calls_example :
    (q' : Queue) × (cells' : Cells) × (run_calls codes 4 calls empty []
      ≡ ok (q', rendered codes (hello ∷ [])))
    × Holds q' cells'
    × (messages cells' ≡ bye ∷ [])
unfolding spec_calls
run_calls-spec_calls_example =
    run_calls-spec_calls codes 4 calls empty [] [] empty-Holds calls-Allocated (omega arith)

pub no_files-Blanks : Blanks no_files
no_files-Blanks zero e = refl
no_files-Blanks (suc zero) e = refl
no_files-Blanks (suc (suc zero)) e = refl
no_files-Blanks (suc (suc (suc zero))) e = refl
no_files-Blanks (suc (suc (suc (suc i)))) e = refl

abbrev screen : Screen
screen = record { ui_running = true; forms = Forms.made; queue = empty; display = []; input = [] }

ui_input_handler-Others_example :
    (queue : Queue) × (ui_input_handler sum_md5
        (system content)
        (λ nodes. some 3)
        zero_digest
        (replicate num_chunks zero_digest)
        no_files
        (some (bytes_of ":q"))
        screen
      ≡ ok (record screen { queue = queue; ui_running = false; forms = Forms.freed }, none))
    × Holds queue ((3, system_message (bytes_of "File not found in network")) ∷ [])
unfolding listed
ui_input_handler-Others_example =
    ui_input_handler-Others sum_md5 (system content) (λ nodes. some 3) zero_digest
      (replicate num_chunks zero_digest) no_files 58 (113 ∷ []) no_files-IsValid no_files-Blanks
      screen [] 3 empty-Holds refl refl refl tt
