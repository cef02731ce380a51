-- ===== src/Ui/Screen/Keys.antt =====
-- What a round of the screen's loop does with a key.
use grintorrent.Base.{
  ℕ, zero, suc, ◌<◌, ◌≡◌, refl, sym, ◌∙◌, ap, Bool, true, false, fault, out_of_fuel, bind_assoc,
  Option, none, some, List, [], ◌∷◌, ◌++◌, arith, ◌==◌, ==-eq-false, if◌then◌else◌, length,
  replicate, Run, ok, ◌>>=◌,
}
use grintorrent.Ui.Queue.{Queue}
use grintorrent.Ui.Queue.Laws.{Cells, messages, Holds}
use grintorrent.Ui.Screen.{Codes, Screen, Callback, enter, key, ui_run}
use grintorrent.Ui.Screen.Trim.{IsText, rstrip, safe_trim_lem}
use grintorrent.Ui.Screen.Drain.{rendered, drain_lem}

bind_cong {ℓ κ} :
    {A : Type ℓ} {B : Type κ} (r : Run A) {f g : A → Run B}
    → ((a : A) → f a ≡ g a)
    → r >>= f ≡ r >>= g
bind_cong (ok a) same = same a
bind_cong (fault e) same = refl
bind_cong out_of_fuel same = refl

if_bind :
    (x y : Run Screen) {x' y' : Run Screen} (k : Screen → Run Screen) (b : Bool)
    → x' ≡ x >>= k
    → (b ≡ false → y' ≡ y >>= k)
    → (if b then x' else y') ≡ ((if b then x else y) >>= k)
if_bind x y k true e f = e
if_bind x y k false e f = f refl

if_taken {ℓ} : {A : Type ℓ} (x y : A) (b : Bool) → b ≡ true → (if b then x else y) ≡ x
if_taken x y true e = refl
if_taken x y false e = absurd cc

if_same {ℓ} : {A : Type ℓ} {x y : A} (b : Bool) → x ≡ y → (if b then x else y) ≡ y
if_same true e = e
if_same false e = refl

module _ (codes : Codes) (isspace : ℕ → Bool) (field_buffer : List ℕ → Option (List ℕ))
    (file_list_callback : Option (Run (List (List ℕ)))) (input_callback : Option Callback) where
  ui_run_stopped :
      (fuel : ℕ) (keys : List (Option ℕ)) (s : Screen)
      → s.ui_running ≡ false
      → ui_run codes isspace field_buffer file_list_callback input_callback fuel keys s ≡ ok s
  unfolding ui_run
  ui_run_stopped fuel [] s stopped = refl
  ui_run_stopped fuel (ch ∷ keys) s stopped = rw stopped refl

  -- Nothing happens as long as no key comes, whatever messages wait.
  pub ui_run_idle :
      (fuel n : ℕ) (s : Screen)
      → ui_run codes isspace field_buffer file_list_callback input_callback fuel
          (replicate n none)
          s
        ≡ ok s
  unfolding ui_run key
  ui_run_idle fuel zero s = refl
  ui_run_idle fuel (suc n) s = if_same s.ui_running (ui_run_idle fuel n s)

  -- More keys go on where the others ended.
  pub ui_run-append :
      (fuel : ℕ) (keys more : List (Option ℕ)) (s : Screen)
      → ui_run codes isspace field_buffer file_list_callback input_callback fuel (keys ++ more) s
        ≡ (ui_run codes isspace field_buffer file_list_callback input_callback fuel keys s
            >>= ui_run codes isspace field_buffer file_list_callback input_callback fuel more)
  unfolding ui_run
  ui_run-append fuel [] more s = refl
  ui_run-append fuel (ch ∷ keys) more s =
      let at = key codes isspace field_buffer file_list_callback input_callback fuel ch s in
      if_bind _ _ _ s.ui_running
        (bind_cong at (λ s'. ui_run-append fuel keys more s') ∙ sym (bind_assoc at _ _))
        (λ stopped. sym (ui_run_stopped fuel more s stopped))

  -- A round of the loop
  pub ui_run_once :
      (fuel : ℕ) (ch : Option ℕ) (s s' : Screen)
      → s.ui_running ≡ true
      → key codes isspace field_buffer file_list_callback input_callback fuel ch s ≡ ok s'
      → ui_run codes isspace field_buffer file_list_callback input_callback fuel (ch ∷ []) s ≡ ok s'
  unfolding ui_run
  ui_run_once fuel ch s s' runs round =
      if_taken _ _ s.ui_running runs
      ∙ ap
          (λ (r : Run Screen).
            r >>= ui_run codes isspace field_buffer file_list_callback input_callback fuel [])
          round

  -- Behind the callback
  abbrev pub cleared : Screen → Run Screen
  cleared s' =
      if s'.ui_running
      then ok (record s' { input = s'.input ++ codes.req_clr_field ∷ [] })
      else ok s'

  module _ (s : Screen) (text rest : List ℕ)
      (buffer : field_buffer (s.input ++ codes.req_next_field ∷ []) ≡ some (text ++ 0 ∷ rest))
      (t : IsText text) where
    abbrev entered : Screen
    entered = record s { input = s.input ++ codes.req_next_field ∷ [] }

    enter-text :
        (callback : Callback) (c : ℕ) (cs : List ℕ)
        → input_callback ≡ some callback
        → rstrip isspace text ≡ c ∷ cs
        → enter codes isspace field_buffer file_list_callback input_callback s
          ≡ (callback (c ∷ cs) entered >>= cleared)
    unfolding enter
    enter-text callback c cs registered trimmed =
        let (out, trim, str) = safe_trim_lem isspace text rest t in
        rw
          (
            buffer,
            trim,
            str ∙ ap ok trimmed,
            ==-eq-false (length (c ∷ cs)) 0 (omega arith),
            registered,
          )
          refl

  -- When a newline is read, which is not the code of backspace, with fuel for the waiting messages
  -- of the queue, and the input field holds a string that is not only white space, then ui_run
  -- shows all waiting messages, leaves the queue empty, and calls the registered callback with the
  -- string without the white space at its end; the field is cleared if the screen still runs.
  pub key-enter :
      (fuel : ℕ) (s : Screen) (cells : Cells) (text rest : List ℕ) (callback : Callback) (c : ℕ)
      (cs : List ℕ)
      → Holds s.queue cells
      → length cells < fuel
      → (10 == codes.key_backspace) ≡ false
      → field_buffer (s.input ++ codes.req_next_field ∷ []) ≡ some (text ++ 0 ∷ rest)
      → IsText text
      → rstrip isspace text ≡ c ∷ cs
      → input_callback ≡ some callback
      → (queue : Queue) × (key codes isspace field_buffer file_list_callback input_callback fuel
            (some 10)
            s
          ≡ (callback (c ∷ cs) (record {
            ui_running = s.ui_running;
            forms = s.forms;
            queue = queue;
            display = s.display ++ rendered codes (messages cells);
            input = s.input ++ codes.req_next_field ∷ [];
          })
              >>= cleared))
        × Holds queue []
  unfolding key
  key-enter fuel s cells text rest callback c cs h lt other buffer t trimmed registered =
      let (queue, drained, empty, freed, kept) =
        drain_lem codes fuel s.queue cells s.display h lt in
      let shown = s.display ++ rendered codes (messages cells) in
      let s' : Screen = record s { queue = queue; display = shown } in
      (
        queue,
        rw (drained, other) (enter-text s' text rest buffer t callback c cs registered trimmed),
        empty,
      )
