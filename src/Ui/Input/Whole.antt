-- ===== src/Ui/Input/Whole.antt =====
-- What `ui_input_handler` does to the screen's flag and forms.
use mathlib.Core.List.{append-nil}
use grintorrent.Base.{
  sym, arith, ==-eq-false, ℕ, ◌≡◌, refl, Bool, true, false, ◌||◌, Option, none, some, List, [], ◌∷◌,
  ◌==◌, length, if◌then◌else◌, Run, ok, ◌>>=◌, Post, Post-bind, Post-any,
}
use grintorrent.Base.Bytes.{bytes_of}
use grintorrent.System.{Md5, Os}
use grintorrent.Tfile.{Digest, TfileDef, verified_file}
use grintorrent.Htable.{Htable}
use grintorrent.File.Listing.{list_tfiles}
use grintorrent.File.Verify.{verify_tfile}
use grintorrent.Ui.Queue.{Address, Nodes, Queue, insert_m, write}
use grintorrent.Ui.Queue.Laws.{Holds}
use grintorrent.Ui.Input.Laws.{Others, quit, quits, ui_exit-quit, input_loop-Others}
use grintorrent.Htable.Invariant.{IsValid}
use grintorrent.File.Listing.Laws.{Blanks, listed, list_tfiles_lem}
use grintorrent.Ui.Screen.{Forms, Screen, ui_display, ui_exit}
use grintorrent.Ui.Screen.Whole.{IsWhole, ui_exit-Post, ui_display-Post}
use grintorrent.Ui.Input.{same_text, same_str, tell, input_loop, ui_input_handler}

module _ (m : Md5) (os : Os) (malloc : Nodes → Option Address) (hash : Digest)
    (hashes : List Digest) (ht : Htable) where
  abbrev WholeOut : Screen × Option Digest → Type 0
  WholeOut out = IsWhole out.0

  told :
      (text : List ℕ) (d : Option Digest) (s : Screen)
      → IsWhole s
      → Post WholeOut (tell malloc text s >>= λ s'. ok (s', d))
  unfolding tell
  told text d s whole =
      Post-bind IsWhole WholeOut (tell malloc text s) _
        (ui_display-Post (malloc s.queue.nodes) _ text s whole) (λ s' w. w)

  if-WholeOut :
      (b : Bool) (x y : Run (Screen × Option Digest))
      → Post WholeOut x
      → Post WholeOut y
      → Post WholeOut (if b then x else y)
  if-WholeOut true x y p q = p
  if-WholeOut false x y p q = q

  input_loop-Post :
      (input : List ℕ) (tfiles : List TfileDef) (s : Screen)
      → IsWhole s
      → Post WholeOut (input_loop m os malloc hash hashes ht input tfiles s)
  unfolding input_loop
  input_loop-Post input [] s whole = told _ none s whole
  input_loop-Post input (t ∷ tfiles) s whole =
      let rest = input_loop-Post input tfiles s whole in
      Post-bind (λ same. Unit {0}) WholeOut (same_str t.name input) _ (Post-any _)
        (λ same u.
          if-WholeOut same _ _
            (Post-bind (λ status. Unit {0}) WholeOut (verify_tfile m os ht t.f_hash hash hashes) _
              (Post-any _)
              (λ status v.
                if-WholeOut (status == verified_file) _ _ (told _ none s whole)
                  (told _ (some t.f_hash) s whole)))
            rest)

  stopped : (b : Bool) (s : Screen) → IsWhole s → Post IsWhole (if b then ui_exit s else ok s)
  stopped true s whole = ui_exit-Post s whole
  stopped false s whole = whole

  -- The flag and the forms stay together.
  pub ui_input_handler-Post :
      (input : List ℕ) (s : Screen)
      → IsWhole s
      → Post WholeOut (ui_input_handler m os malloc hash hashes ht (some input) s)
  unfolding ui_input_handler
  ui_input_handler-Post input s whole =
      let quits = same_text input (bytes_of ":quit") || same_text input (bytes_of ":q") in
      if-WholeOut (length input == 0) (ok (s, none)) _ whole (
        Post-bind IsWhole WholeOut (if quits then ui_exit s else ok s) _ (stopped quits s whole)
          (λ s' w.
            Post-bind (λ tfiles. Unit {0}) WholeOut (list_tfiles ht) _ (Post-any _)
              (λ tfiles u. input_loop-Post input tfiles s' w)))

tell_any :
    (malloc : Nodes → Option Address) (text : List ℕ) (s : Screen)
    → Holds s.queue []
    → (queue : Queue) × (tell malloc text s ≡ ok (record s { queue = queue }))
unfolding tell ui_display insert_m
tell_any malloc text s h = go (malloc s.queue.nodes)
  where
    go :
        (a : Option Address)
        → (queue : Queue) × (ui_display a (bytes_of "system") text s
            ≡ ok (record s { queue = queue }))
    go none = (s.queue, refl)
    go (some a) =
        let nodes =
          write s.queue.nodes a
            (some (record { name = bytes_of "system"; message = text; next = none })) in
        (record { head = some a; tail = some a; nodes = nodes }, rw h.ends refl)

-- When no message waits, an input that quits stops the screen and frees its forms, whatever `malloc`
-- answers.
pub ui_input_handler-quits :
    (m : Md5) (os : Os) (malloc : Nodes → Option Address) (hash : Digest) (hashes : List Digest)
    (ht : Htable) (c : ℕ) (cs : List ℕ) (s : Screen)
    → IsValid ht
    → Blanks ht
    → Others (c ∷ cs) (listed ht.table)
    → quits (c ∷ cs) ≡ true
    → s.forms ≡ Forms.made
    → Holds s.queue []
    → (queue : Queue) × (ui_input_handler m os malloc hash hashes ht (some (c ∷ cs)) s
        ≡ ok (record (quit s) { queue = queue }, none))
unfolding ui_input_handler input_loop
ui_input_handler-quits m os malloc hash hashes ht c cs s v blanks others stops shown h =
    let (queue, told) = tell_any malloc (bytes_of "File not found in network") (quit s) h in
    (
      queue,
      rw
          (
            ==-eq-false (length (c ∷ cs)) 0 (omega arith),
            stops,
            ui_exit-quit s shown,
            list_tfiles_lem ht v blanks,
            sym (append-nil (listed ht.table)),
            input_loop-Others m os malloc hash hashes ht (c ∷ cs) (listed ht.table) [] (quit s)
                others,
            told,
          )
          refl,
    )
