-- ===== src/Ui/Screen/Whole.antt =====
-- The flag of the screen's loop and the forms go together.
use grintorrent.Base.{
  ℕ, ◌≡◌, refl, Bool, true, false, ◌⊎◌, inl, inr, Option, none, some, List, [], ◌∷◌, ◌++◌, ◌==◌,
  ◌||◌, length, if◌then◌else◌, Run, ok, ◌>>=◌, Post, Post-bind, Post-any, deref,
}
use grintorrent.File.Verify.{c_str}
use grintorrent.Ui.Queue.{Address, insert_m}
use grintorrent.Ui.Screen.{
  Codes, Forms, Screen, Callback, safe_trim, drain, enter, key, ui_run, ui_display, ui_exit, header,
  file_lines,
}

-- The screen runs with its forms made, or it is closed and they are freed.
abbrev pub IsWhole : Screen → Type 0
IsWhole s =
    ((s.ui_running ≡ true) × (s.forms ≡ Forms.made))
    ⊎ ((s.ui_running ≡ false) × (s.forms ≡ Forms.freed))

pub ui_exit-Post : (s : Screen) → IsWhole s → Post IsWhole (ui_exit s)
unfolding ui_exit
ui_exit-Post s (inl (runs, forms)) = rw forms (inr (refl, refl))
ui_exit-Post s (inr (stopped, forms)) = rw forms tt

pub ui_display-Post :
    (a : Option Address) (name message : List ℕ) (s : Screen)
    → IsWhole s
    → Post IsWhole (ui_display a name message s)
unfolding ui_display
ui_display-Post a name message s whole =
    Post-bind (λ q. Unit {0}) IsWhole (insert_m a name message s.queue) _ (Post-any _)
      (λ q u. whole)

if-Post :
    (b : Bool) (x y : Run Screen)
    → Post IsWhole x
    → Post IsWhole y
    → Post IsWhole (if b then x else y)
if-Post true x y p q = p
if-Post false x y p q = q

module _ (codes : Codes) (isspace : ℕ → Bool) (field_buffer : List ℕ → Option (List ℕ))
    (file_list_callback : Option (Run (List (List ℕ)))) (input_callback : Option Callback)
    (calls : (callback : Callback) (text : List ℕ) (s : Screen)
      → input_callback ≡ some callback
      → IsWhole s
      → Post IsWhole (callback text s)) where
  listed :
      (list : Option (Run (List (List ℕ)))) (s : Screen)
      → IsWhole s
      → Post IsWhole (elim list [
        | none ↦ ok s
        | some l ↦ do
          files ← l
          ok (record s {
            display =
                s.display
                ++ (codes.req_new_line ∷ codes.req_new_line ∷ (header ++ file_lines codes files));
          })
      ])
  listed none s whole = whole
  listed (some l) s whole =
      Post-bind (λ files. Unit {0}) IsWhole l _ (Post-any l) (λ files u. whole)

  called :
      (o : Option Callback) (text : List ℕ) (s : Screen)
      → input_callback ≡ o
      → IsWhole s
      → Post IsWhole (elim o [ none ↦ ok s | some callback ↦ callback text s ])
  called none text s e whole = whole
  called (some callback) text s e whole = calls callback text s e whole

  enter-Post :
      (s : Screen)
      → IsWhole s
      → Post IsWhole (enter codes isspace field_buffer file_list_callback input_callback s)
  unfolding enter
  enter-Post s whole =
      let s' : Screen = record s { input = s.input ++ codes.req_next_field ∷ [] } in
      Post-bind (λ buffer. Unit {0}) IsWhole (deref (field_buffer s'.input)) _ (Post-any _)
        (λ buffer y.
          Post-bind (λ copy. Unit {0}) IsWhole (safe_trim isspace buffer) _ (Post-any _)
            (λ copy u.
              Post-bind (λ text. Unit {0}) IsWhole (c_str copy) _ (Post-any _)
                (λ text v.
                  Post-bind IsWhole IsWhole _ _
                    (if-Post (length text == 0) _ _ (listed file_list_callback s' whole)
                      (called input_callback text s' refl whole))
                    (λ s'' z.
                      if-Post s''.ui_running
                        (ok (record s'' { input = s''.input ++ codes.req_clr_field ∷ [] })) (ok s'')
                        z z))))

  key-Post :
      (fuel : ℕ) (ch : Option ℕ) (s : Screen)
      → IsWhole s
      → Post IsWhole (key codes isspace field_buffer file_list_callback input_callback fuel ch s)
  unfolding key
  key-Post fuel none s whole = whole
  key-Post fuel (some ch) s whole =
      Post-bind (λ out. Unit {0}) IsWhole (drain codes fuel s.queue s.display) _ (Post-any _)
        (λ out u.
          let s' : Screen = record s { queue = out.0; display = out.1 } in
          if-Post ((ch == codes.key_backspace) || (ch == 127))
            (ok (record s' { input = s'.input ++ codes.req_del_prev ∷ [] })) _ whole
            (if-Post ((ch == 10) || (ch == codes.key_enter)) _
              (ok (record s' { input = s'.input ++ ch ∷ [] })) (enter-Post s' whole) whole))

  -- Whatever is typed, they stay together.
  pub ui_run-Post :
      (fuel : ℕ) (keys : List (Option ℕ)) (s : Screen)
      → IsWhole s
      → Post IsWhole
          (ui_run codes isspace field_buffer file_list_callback input_callback fuel keys s)
  unfolding ui_run
  ui_run-Post fuel [] s whole = whole
  ui_run-Post fuel (ch ∷ keys) s whole =
      if-Post s.ui_running _ (ok s)
        (Post-bind IsWhole IsWhole
          (key codes isspace field_buffer file_list_callback input_callback fuel ch s) _
          (key-Post fuel ch s whole) (λ s' w. ui_run-Post fuel keys s' w))
        whole
