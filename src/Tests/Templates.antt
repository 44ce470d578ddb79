-- ===== src/Tests/Templates.antt =====
-- Runs of the code of tools/tmake/erbparser.cpp.
use tf.Base.{
  true, false, List, All, ℕ, ◌≡◌, refl, Bool, ◌||◌, ◌&&◌, [], ◌∷◌, ◌++◌, Option, none, some, ◌==◌,
  leb, arith,
}
use tf.Base.Text.{Text, codes, eq, starts_with, ends_with, split}
use tf.Erb.{
  normal_trim, advance, parse_end_percent_tag, is_ascii_string, end_loop, read_content, read_char,
  end_tag, parse_quote, quote_loop, skip_loop, skip_white_spaces_and_new_line_code,
}
use tf.Erb.Cutting.{Shortens}
use tf.Erb.Rounds.{parse_template_total}
use tf.Erb.Literals.{read_literal, read_literal-escape_newline}
use tf.Erb.Rendering.{no_tag}
use tf.Erb.Templates.{Segment, IsSegment, render, emit, parse-render}
use tf.Erb.Tags.{escaped, echo}
use tf.Erb.Converter.{escape_newline}
use tf.Erb.Trimming.{semicolon_loop, semicolon_trim}
use tf.Erb.Tags.{
  Parser, parse, parse_loop, find_tag, parse_percent_tag, parse_tag, parse_value, parse_code,
  parse_comment, parse_include, text_code, value_code, code_of, code_with_default,
}

abbrev untrimmed : Text → Text
untrimmed s = s

untrimmed-Shortens : Shortens untrimmed
untrimmed-Shortens s = omega arith

abbrev is_blank : ℕ → Bool
is_blank c = c == 32 || (leb 9 c && leb c 13)

abbrev source_of : Option Parser → Option Text
source_of none = none
source_of (some p) = some p.src_code

parse-greeting :
    source_of (
      parse untrimmed is_blank normal_trim (codes "<b>\"<%= name; %>\"</b>\n<% if (x) { -%> \nyes"))
    ≡ some (
        codes
          "  responsebody += QStringLiteral(\"<b>\\\"\");\n  responsebody += THttpUtility::htmlEscape( name; );\n  responsebody += QStringLiteral(\"\\\"</b>\\n\");\n   if (x) { ;\n  responsebody += QStringLiteral(\"yes\");\n")
unfolding parse parse_loop find_tag parse_percent_tag parse_tag parse_value parse_code parse_comment
    parse_include text_code value_code code_of code_with_default advance parse_end_percent_tag
    is_ascii_string end_loop read_content read_char end_tag parse_quote quote_loop skip_loop
    skip_white_spaces_and_new_line_code escape_newline semicolon_loop semicolon_trim eq starts_with
    ends_with split
parse-greeting = refl

parse_template_total_example :
    (out : Parser) × (parse untrimmed is_blank normal_trim (codes "<% for (;;) { %>") ≡ some out)
parse_template_total_example =
    parse_template_total untrimmed is_blank normal_trim (codes "<% for (;;) { %>")
      untrimmed-Shortens

read_literal-escape_newline_example :
    read_literal false (escape_newline (codes "a\\b\n\"") ++ 34 ∷ codes ");")
    ≡ some (codes "a\\b\n\"", codes ");")
read_literal-escape_newline_example = read_literal-escape_newline (codes "a\\b\n\"") (codes ");")

abbrev greeting : Segment
greeting = record { text = codes "<p>"; tag = escaped; value = codes " name; " }

abbrev link : Segment
link = record { text = []; tag = echo; value = codes "url" }

abbrev greetings : List Segment
greetings = greeting ∷ link ∷ []

greetings-IsSegment : All IsSegment greetings
unfolding no_tag starts_with
greetings-IsSegment = (
  (refl, record { some_text = refl; plain = refl; ends = refl; starts = refl }),
  ((refl, record { some_text = refl; plain = refl; ends = refl; starts = refl }), tt),
)

last_text : no_tag (codes "</p>") ≡ true
unfolding no_tag starts_with
last_text = refl

parse-render_example :
    (end : Parser) × (parse untrimmed is_blank normal_trim (render greetings (codes "</p>"))
      ≡ some end)
    × (end.src_code ≡ emit untrimmed [] greetings (codes "</p>"))
parse-render_example =
    parse-render untrimmed is_blank normal_trim greetings (codes "</p>") untrimmed-Shortens refl
      greetings-IsSegment last_text

cut-semicolons : semicolon_trim untrimmed (codes "x;;") ≡ some (codes "x")
unfolding semicolon_trim semicolon_loop ends_with starts_with
cut-semicolons = refl
