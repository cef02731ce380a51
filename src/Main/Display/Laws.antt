-- ===== src/Main/Display/Laws.antt =====
-- How the screen of `main` ends.
use grintorrent.Base.{
  ℕ, ◌<◌, ◌≡◌, refl, sym, ◌∙◌, subst, true, false, inl, inr, Option, none, some, List, [], ◌∷◌,
  ◌++◌, ◌==◌, length, Run, ok, fault, bad_free, Post, Post-bind,
}
use grintorrent.Base.Bytes.{bytes_of}
use grintorrent.System.{Md5}
use grintorrent.Htable.{Htable}
use grintorrent.Htable.Invariant.{IsValid}
use grintorrent.File.Listing.Laws.{Blanks, listed}
use grintorrent.Ui.Queue.{Queue}
use grintorrent.Ui.Queue.Laws.{Cells, messages, Holds}
use grintorrent.Ui.Screen.{Forms, Screen, Callback, key, ui_exit}
use grintorrent.Ui.Screen.Trim.{IsText, rstrip}
use grintorrent.Ui.Screen.Drain.{rendered}
use grintorrent.Ui.Screen.Keys.{ui_run-append, ui_run_once, key-enter}
use grintorrent.Ui.Screen.Whole.{IsWhole, ui_display-Post, ui_run-Post}
use grintorrent.Ui.Input.Laws.{Others, quit, quits}
use grintorrent.Ui.Input.Whole.{ui_input_handler-Post, ui_input_handler-quits}
use grintorrent.Ui.Window.{Ui, ui_init, no_ui}
use grintorrent.Main.Display.{Console, on_input, opened, run_ui, closing, run_screen, port_message}

abbrev calling : Option Callback → Callback
calling none text s = ok s
calling (some callback) text s = callback text s

module _ (c : Console) (m : Md5) (ht : Htable) where
  -- The screen is whole, and an input calls `ui_input_handler`.
  abbrev IsOpened : Ui → Type 0
  IsOpened ui = IsWhole ui.screen × (ui.input_callback ≡ some (on_input c m ht))

  on_input-Post : (text : List ℕ) (s : Screen) → IsWhole s → Post IsWhole (on_input c m ht text s)
  on_input-Post text s whole =
      Post-bind (λ out. IsWhole out.0) IsWhole _ _
        (ui_input_handler-Post m c.os c.malloc c.hash c.hashes ht text s whole) (λ out w. w)

  opened-Post :
      (network_port : ℕ) (waiting : Queue) → Post IsOpened (opened c m ht network_port waiting)
  unfolding opened ui_init
  opened-Post network_port waiting =
      Post-bind IsWhole IsOpened _ _
        (ui_display-Post (c.malloc waiting.nodes) (bytes_of "system") (port_message c network_port)
          (ui_init c.term (on_input c m ht) (no_ui waiting)).screen (inl (refl, refl)))
        (λ s w. (w, refl))

  run_ui-Post :
      (keys : List (Option ℕ)) (ui : Ui) → IsOpened ui → Post IsWhole (run_ui c m ht keys ui)
  run_ui-Post keys ui (whole, registered) =
      ui_run-Post c.codes c.isspace c.field_buffer ui.file_list_callback ui.input_callback
        (λ callback text s e w.
          subst (λ (o : Option Callback). Post IsWhole (calling o text s)) (sym registered ∙ e)
            (on_input-Post text s w))
        c.fuel keys ui.screen whole

  closing-Post :
      (s : Screen) → IsWhole s → Post (λ (s' : Screen). s'.ui_running ≡ true) (closing c m ht s)
  unfolding closing ui_exit
  closing-Post s (inl (runs, shown)) = rw runs refl
  closing-Post s (inr (stopped, freed)) = rw (stopped, freed) tt

  -- Whatever is typed, whichever messages wait and whatever the system answers: when the part of
  -- main from ui_init to ui_exit gets through what is typed without a fault, the screen still runs.
  -- So main never comes back from ui_exit behind the loop.
  pub run_screen-Running :
      (network_port : ℕ) (waiting : Queue) (keys : List (Option ℕ)) (s : Screen)
      → run_screen c m ht network_port waiting keys ≡ ok s
      → s.ui_running ≡ true
  unfolding run_screen
  run_screen-Running network_port waiting keys s e =
      subst (λ (r : Run Screen). Post (λ (s' : Screen). s'.ui_running ≡ true) r) e
        (Post-bind IsOpened _ _ _ (opened-Post network_port waiting)
          (λ ui o. Post-bind IsWhole _ _ _ (run_ui-Post keys ui o) (λ s' w. closing-Post s' w)))

  -- ENTER behind an input that quits
  enter_quits :
      (ui : Ui) (s : Screen) (cells : Cells) (text rest : List ℕ) (x : ℕ) (xs : List ℕ)
      → ui.input_callback ≡ some (on_input c m ht)
      → s.forms ≡ Forms.made
      → Holds s.queue cells
      → length cells < c.fuel
      → (10 == c.codes.key_backspace) ≡ false
      → c.field_buffer (s.input ++ c.codes.req_next_field ∷ []) ≡ some (text ++ 0 ∷ rest)
      → IsText text
      → rstrip c.isspace text ≡ x ∷ xs
      → quits (x ∷ xs) ≡ true
      → IsValid ht
      → Blanks ht
      → Others (x ∷ xs) (listed ht.table)
      → (s' : Screen) × (key c.codes c.isspace c.field_buffer ui.file_list_callback
            ui.input_callback c.fuel
            (some 10)
            s
          ≡ ok s')
        × (closing c m ht s' ≡ fault bad_free)
  unfolding closing ui_exit
  enter_quits ui s cells text rest x xs registered shown h enough other buffer t trimmed stops v
        blanks others =
      let (queue, entered, empty) =
        key-enter c.codes c.isspace c.field_buffer ui.file_list_callback ui.input_callback c.fuel s
          cells text rest (on_input c m ht) x xs h enough other buffer t trimmed registered in
      let asked : Screen = record {
        ui_running = s.ui_running;
        forms = s.forms;
        queue = queue;
        display = s.display ++ rendered c.codes (messages cells);
        input = s.input ++ c.codes.req_next_field ∷ [];
      } in
      let (queue', quitted) =
        ui_input_handler-quits m c.os c.malloc c.hash c.hashes ht x xs asked v blanks others stops
          shown empty in
      (record (quit asked) { queue = queue' }, entered ∙ rw quitted refl, refl)

  made_of : (s : Screen) → IsWhole s → s.ui_running ≡ true → s.forms ≡ Forms.made
  made_of s (inl (runs, shown)) running = shown
  made_of s (inr (stopped, freed)) running = absurd cc

  -- When the screen that main opens runs after any keys, with a queue in memory that holds fewer
  -- cells than the fuel, and then a newline is typed, which is not the code of backspace, behind a
  -- text that without the white space at its end is :quit or :q, and no file that the valid table
  -- lists, whose empty entries have no size, has that name, then main frees the forms twice:
  -- ui_input_handler calls ui_exit, and main calls it again behind ui_run.
  pub run_screen_frees_twice :
      (network_port : ℕ) (waiting : Queue) (keys : List (Option ℕ)) (ui : Ui) (s : Screen)
      (cells : Cells) (text rest : List ℕ) (x : ℕ) (xs : List ℕ)
      → opened c m ht network_port waiting ≡ ok ui
      → run_ui c m ht keys ui ≡ ok s
      → s.ui_running ≡ true
      → Holds s.queue cells
      → length cells < c.fuel
      → (10 == c.codes.key_backspace) ≡ false
      → c.field_buffer (s.input ++ c.codes.req_next_field ∷ []) ≡ some (text ++ 0 ∷ rest)
      → IsText text
      → rstrip c.isspace text ≡ x ∷ xs
      → quits (x ∷ xs) ≡ true
      → IsValid ht
      → Blanks ht
      → Others (x ∷ xs) (listed ht.table)
      → run_screen c m ht network_port waiting (keys ++ some 10 ∷ []) ≡ fault bad_free
  unfolding run_screen
  run_screen_frees_twice network_port waiting keys ui s cells text rest x xs starts runs running h
        enough other buffer t trimmed stops v blanks others =
      let begun =
        subst (λ (r : Run Ui). Post IsOpened r) starts (opened-Post network_port waiting) in
      let whole = subst (λ (r : Run Screen). Post IsWhole r) runs (run_ui-Post keys ui begun) in
      let (s', round, end) =
        enter_quits ui s cells text rest x xs begun.1 (made_of s whole running) h enough other
          buffer t trimmed stops v blanks others in
      let once =
        ui_run_once c.codes c.isspace c.field_buffer ui.file_list_callback ui.input_callback c.fuel
          (some 10) s s' running round in
      rw (starts, ui_run-append, runs, once) end
