-- ===== src/Erb/Trimming.antt =====
-- tools/tmake/erbparser.cpp: semicolonTrim() and the strong trimming of a template, with
-- THtmlParser::trim() of src/thtmlparser.cpp. QString::trimmed() and QChar::isSpace() are parameters.
use tf.Base.{
  ℕ, zero, suc, ◌-◌, Bool, false, not, ◌&&◌, List, [], ◌∷◌, ◌++◌, if◌then◌else◌, leb, length, take,
  Option, none, some,
}
use tf.Base.Text.{Text, is_empty, ends_with, split}
use mathlib.Core.List.{reverse}

-- chop(1)
abbrev pub chop : Text → Text
chop s = take (length s - 1) s

module _ (trimmed : Text → Text) where
  -- The loop of semicolonTrim(), with the rounds that are left: `none` where it has not ended.
  unfoldable pub semicolon_loop : ℕ → Text → Option Text
  semicolon_loop zero res = none
  semicolon_loop (suc fuel) res =
      let rest = semicolon_loop fuel (chop (trimmed res)) in
      if ends_with (trimmed res) (b';' ∷ []) then rest else some (trimmed res)

  -- semicolonTrim(), with a round for each character and one more.
  unfoldable pub semicolon_trim : Text → Option Text
  semicolon_trim str = semicolon_loop (suc (length str)) str

module _ (is_space : ℕ → Bool) where
  unfoldable pub trim_start : Text → Text
  trim_start [] = []
  trim_start (c ∷ s) = if is_space c && not (leb 128 c) then trim_start s else c ∷ s

  abbrev pub spaced : Text → Bool
  spaced [] = false
  spaced (c ∷ s) = is_space c

  -- THtmlParser::trim()
  unfoldable pub trim : Text → Text
  trim str =
      if not (spaced str) && not (spaced (reverse str))
      then str
      else reverse (trim_start (reverse (trim_start str)))

  unfoldable pub trimmed_lines : List Text → Text
  trimmed_lines [] = []
  trimmed_lines (line ∷ lines) =
      let trm = trim line in
      if is_empty trm then trimmed_lines lines else trm ++ 10 ∷ trimmed_lines lines

  unfoldable pub strong_trimmed : Text → Text
  strong_trimmed erb = trim (trimmed_lines (split 10 erb))
