-- ===== src/AccessLog.antt =====
-- src/taccesslog.cpp: TAccessLog::toByteArray(), which writes a record of the access log by a layout.
-- The conversions of numbers and dates are those of Qt, and are parameters: the text of a number,
-- that of a number filled up to a width, and that of the time stamp.
pub mod Layouts
use tf.Base.{
  ℕ, Bool, true, false, ◌&&◌, List, [], ◌∷◌, ◌++◌, Option, none, some, if◌then◌else◌, ◌==◌, leb,
}
use tf.Base.Text.{Text, is_empty}

pub record AccessLog : Type 0 where
  pub remote_host : Text
  pub request : Text
  pub status_code : ℕ
  pub response_bytes : ℕ

pub record Conversions : Type 0 where
  pub number : ℕ → Text
  pub arg : ℕ → Text → ℕ → Text
  pub timestamp : Text → Text

abbrev pub is_digit : ℕ → Bool
is_digit c = leb b'0' c && leb c b'9'

abbrev pub fill_char : Text → ℕ
fill_char [] = b' '
fill_char (d ∷ dig) = if d == b'0' then b'0' else b' '

-- What a letter behind a percent sign and digits appends.
unfoldable pub directive : Conversions → AccessLog → Text → Text → ℕ → Text
directive q log date_time_format dig c =
    if c == b'h'
    then log.remote_host
    else if c == b'd'
    then q.timestamp date_time_format
    else if c == b'r'
    then log.request
    else if c == b's'
    then q.number log.status_code
    else if c == b'O'
    then (if is_empty dig
        then q.number log.response_bytes
        else q.arg log.response_bytes dig (fill_char dig))
    else if c == b'n'
    then 10 ∷ []
    else b'%' ∷ (dig ++ c ∷ [])

-- The two loops over a layout: `none` is outside of a directive, and `some dig` behind a percent sign
-- with the digits `dig` so far.
unfoldable pub write_layout : Conversions → AccessLog → Text → Option Text → Text → Text
write_layout q log format none [] = []
write_layout q log format none (c ∷ layout) =
    if c == b'%'
    then write_layout q log format (some []) layout
    else c ∷ write_layout q log format none layout
write_layout q log format (some dig) [] = b'%' ∷ dig
write_layout q log format (some dig) (c ∷ layout) =
    let digit = write_layout q log format (some (dig ++ c ∷ [])) layout in
    let percent = b'%' ∷ (dig ++ write_layout q log format (some []) layout) in
    let rest = directive q log format dig c ++ write_layout q log format none layout in
    if is_digit c then digit else if c == b'%' then percent else rest

unfoldable pub to_byte_array : Conversions → AccessLog → Text → Text → Text
unfolding write_layout
to_byte_array q log layout date_time_format = write_layout q log date_time_format none layout
