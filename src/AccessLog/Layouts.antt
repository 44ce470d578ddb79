-- ===== src/AccessLog/Layouts.antt =====
-- Layouts of the access log as pieces, and what src/taccesslog.cpp writes for them.
use tf.Base.{
  ℕ, ◌≡◌, refl, sym, ap, ◌∙◌, Bool, true, false, not, ◌&&◌, List, [], ◌∷◌, ◌++◌, none, some, ◌==◌,
  all, arith, append_assoc, append-nil, All,
}
use tf.Base.Text.{Text}
use tf.AccessLog.{AccessLog, Conversions, is_digit, directive, write_layout, to_byte_array}

-- A text, and a directive by its digits and its letter.
pub data Piece : Type 0 where
  text : Text → Piece
  letter : Text → ℕ → Piece

abbrev pub is_piece : Piece → Bool
is_piece (text t) = all (λ c. not (c == b'%')) t
is_piece (letter dig c) = all is_digit dig && (not (is_digit c) && not (c == b'%'))

abbrev pub layout_of : List Piece → Text
layout_of [] = []
layout_of (text t ∷ ps) = t ++ layout_of ps
layout_of (letter dig c ∷ ps) = b'%' ∷ (dig ++ c ∷ layout_of ps)

abbrev pub written : Conversions → AccessLog → Text → List Piece → Text
written q log format [] = []
written q log format (text t ∷ ps) = t ++ written q log format ps
written q log format (letter dig c ∷ ps) = directive q log format dig c ++ written q log format ps

module _ (q : Conversions) (log : AccessLog) (format : Text) where
  write_layout-text :
      (t layout : Text)
      → all (λ c. not (c == b'%')) t ≡ true
      → write_layout q log format none (t ++ layout) ≡ t ++ write_layout q log format none layout
  unfolding write_layout
  write_layout-text [] layout h = refl
  write_layout-text (c ∷ t) layout h =
      let plain : (c == b'%') ≡ false = ground arith in
      rw plain (ap (λ s. c ∷ s) (write_layout-text t layout (ground arith)))

  write_layout-letter :
      (before dig layout : Text) (c : ℕ)
      → all is_digit dig ≡ true
      → is_digit c ≡ false
      → (c == b'%') ≡ false
      → write_layout q log format (some before) (dig ++ c ∷ layout)
        ≡ directive q log format (before ++ dig) c ++ write_layout q log format none layout
  unfolding write_layout
  write_layout-letter before [] layout c h k l =
      rw (k, l)
        (ap (λ d. directive q log format d c ++ write_layout q log format none layout)
          (sym (append-nil before)))
  write_layout-letter before (d ∷ dig) layout c h k l =
      let first : is_digit d ≡ true = ground arith in
      rw first (
        write_layout-letter (before ++ d ∷ []) dig layout c (ground arith) k l
        ∙ ap (λ e. directive q log format e c ++ write_layout q log format none layout)
            (append_assoc before (d ∷ []) dig))

  -- A layout of texts without percent signs and of directives, of any digits and any letter, is
  -- written piece by piece.
  pub to_byte_array-layout_of :
      (ps : List Piece)
      → All (λ p. is_piece p ≡ true) ps
      → to_byte_array q log (layout_of ps) format ≡ written q log format ps
  unfolding to_byte_array write_layout
  to_byte_array-layout_of [] h = refl
  to_byte_array-layout_of (text t ∷ ps) (h, hs) =
      write_layout-text t (layout_of ps) h ∙ ap (λ s. t ++ s) (to_byte_array-layout_of ps hs)
  to_byte_array-layout_of (letter dig c ∷ ps) (h, hs) =
      write_layout-letter [] dig (layout_of ps) c (ground arith) (ground arith) (ground arith)
      ∙ ap (λ s. directive q log format dig c ++ s) (to_byte_array-layout_of ps hs)

  -- A doubled percent sign writes one, and the second sign still begins a directive with what
  -- follows it.
  pub to_byte_array-percent :
      (layout : Text)
      → to_byte_array q log (b'%' ∷ b'%' ∷ layout) format
        ≡ b'%' ∷ to_byte_array q log (b'%' ∷ layout) format
  unfolding to_byte_array write_layout
  to_byte_array-percent layout = refl
