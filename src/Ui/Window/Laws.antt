-- ===== src/Ui/Window/Laws.antt =====
-- Where `ui_init` of src/ui.c puts the fields and the line.
use grintorrent.Base.{
  ℕ, zero, suc, ◌+◌, ◌-◌, ◌≤◌, ◌<◌, ◌≡◌, refl, ap, Bool, true, false, ◌&&◌, ◌||◌, Option, none,
  some, List, [], ◌∷◌, arith, ◌==◌, ltb, leb, if◌then◌else◌, dec_le,
}
use grintorrent.Base.Int.{ℤ, pos, negsuc, pos_part, ◌+ℤ◌, ◌-ℤ◌, -ℤ-pos}
use grintorrent.Ui.Screen.{Callback}
use grintorrent.Ui.Window.{Terminal, Field, Ui, split_loop, display_height, ui_init}

-- A field is made where it has a height and a width and starts on the screen, and only there.
pub record FieldLaws (term : Terminal) : Type 0 where
  pub makes : (h w r c : ℕ) → term.new_field (pos (suc h)) (pos (suc w)) (pos r) (pos c) ≡ true
  pub no_height : (w r c : ℤ) → term.new_field (pos 0) w r c ≡ false
  pub negative_height : (h : ℕ) (w r c : ℤ) → term.new_field (negsuc h) w r c ≡ false
  pub negative_row : (h w : ℤ) (r : ℕ) (c : ℤ) → term.new_field h w (negsuc r) c ≡ false

-- The place is in the field.
abbrev pub inside : Option Field → (row col : ℕ) → Bool
inside none row col = false
inside (some f) row col =
    leb (pos_part f.frow) row
    && ltb row (pos_part f.frow + pos_part f.height)
    && (leb (pos_part f.fcol) col && ltb col (pos_part f.fcol + pos_part f.width))

-- The place is one of the line's.
unfoldable pub on_split : List (ℤ × ℕ) → (row col : ℕ) → Bool
on_split [] row col = false
on_split ((r, c) ∷ places) row col = ((pos_part r == row) && (c == col)) || on_split places row col

abbrev pub bit : Bool → ℕ
bit b = if b then 1 else 0

on_split-split_loop :
    (h k i row col : ℕ)
    → on_split (split_loop (pos h) k i) row col ≡ ((h == row) && (leb i col && ltb col (i + k)))
unfolding on_split split_loop
on_split-split_loop h zero i row col = ground arith
on_split-split_loop h (suc k) i row col = ground (arith, on_split-split_loop h k (i + 1) row col)

+ℤ-pos : (a b : ℕ) → pos a +ℤ pos b ≡ pos (a + b)
unfolding ◌+ℤ◌
+ℤ-pos a b = ground arith

negsuc-+ℤ : (n : ℕ) → negsuc (suc n) +ℤ pos 1 ≡ negsuc n
unfolding ◌+ℤ◌
negsuc-+ℤ n = ground arith

module _ (term : Terminal) where
  display_height-pos : 4 ≤ term.rows → display_height term ≡ pos (term.rows - 4)
  unfolding display_height
  display_height-pos enough =
      rw (-ℤ-pos term.rows 3 (omega arith), -ℤ-pos (term.rows - 3) 1 (omega arith))
        (ap pos (omega arith))

  display_height-negsuc : term.rows < 4 → display_height term ≡ negsuc (3 - term.rows)
  unfolding display_height ◌-ℤ◌
  display_height-negsuc few = ground arith

  module _ (laws : FieldLaws term) (callback : Callback) (ui : Ui) where
    made : (h w r c : ℕ) → 0 < h → 0 < w → term.new_field (pos h) (pos w) (pos r) (pos c) ≡ true
    made zero w r c high wide = absurd (omega arith)
    made (suc h) zero r c high wide = absurd (omega arith)
    made (suc h) (suc w) r c high wide = laws.makes h w r c

    -- On a terminal of more than four rows, where ncurses makes a field that has a height and a
    -- width and starts on the screen, each place of the screen is in exactly one of the display
    -- field, the input field and the line that ui_init draws.
    pub ui_init_layout :
        (row col : ℕ)
        → 4 < term.rows
        → row < term.rows
        → col < term.cols
        → bit (inside (ui_init term callback ui).display_field row col)
            + bit (inside (ui_init term callback ui).input_field row col)
            + bit (on_split (ui_init term callback ui).split row col)
          ≡ 1
    unfolding ui_init
    ui_init_layout row col enough r c =
        let h = term.rows - 4 in
        let height = display_height-pos (omega arith) in
        let display = made h term.cols 0 0 (omega arith) (omega arith) in
        let input = made 3 term.cols (h + 1) 0 (omega arith) (omega arith) in
        rw (height, +ℤ-pos h 1, display, input, on_split-split_loop h term.cols 0 row col)
          (ground arith)

    -- On a terminal of at most four rows and at least one column, where ncurses makes no field
    -- without a height or that starts above the screen, ui_init goes on without a display field,
    -- and with at most two rows without an input field as well.
    pub ui_init_small :
        term.rows ≤ 4
        → 0 < term.cols
        → ((ui_init term callback ui).display_field ≡ none)
          × (term.rows ≤ 2 → (ui_init term callback ui).input_field ≡ none)
    unfolding ui_init
    ui_init_small few some_cols = elim (dec_le 4 term.rows) [
      | yes four ↦
          let none_left : term.rows - 4 ≡ 0 = omega arith in
          (
            rw (display_height-pos four, none_left, laws.no_height) refl,
            λ two. absurd (omega arith),
          )
      | no fewer ↦
          let below = display_height-negsuc (omega arith) in
          (
            rw (below, laws.negative_height) refl,
            λ two.
                let above : 3 - term.rows ≡ suc (2 - term.rows) = omega arith in
                rw (below, above, negsuc-+ℤ, laws.negative_row) refl,
          )
    ]
