-- ===== src/Tests/Logs.antt =====
-- Runs of the code of src/taccesslog.cpp.
use tf.Base.{◌≡◌, refl, List, [], ◌∷◌}
use tf.Base.Text.{codes}
use tf.AccessLog.{AccessLog, Conversions, directive, write_layout, to_byte_array}
use tf.AccessLog.Layouts.{Piece, text, letter, written, to_byte_array-layout_of}

-- Conversions that give fixed texts.
abbrev fixed : Conversions
fixed = record {
  number = λ n. codes "200";
  arg = λ n dig fill. fill ∷ codes "512";
  timestamp = λ format. codes "2019-10-01";
}

abbrev log : AccessLog
log = record {
  remote_host = codes "::1";
  request = codes "GET / HTTP/1.1";
  status_code = 200;
  response_bytes = 512;
}

to_byte_array-line :
    to_byte_array fixed log (codes "%h \"%r\" %s %04O %x%n%") []
    ≡ codes "::1 \"GET / HTTP/1.1\" 200 0512 %x\n%"
unfolding to_byte_array write_layout directive
to_byte_array-line = refl

-- A percent sign that is doubled does not stand for itself.
to_byte_array-doubled : to_byte_array fixed log (codes "100%%h") [] ≡ codes "100%::1"
unfolding to_byte_array write_layout directive
to_byte_array-doubled = refl

abbrev pieces : List Piece
pieces = letter [] b'h' ∷ text (codes " - ") ∷ letter (codes "04") b'O' ∷ []

to_byte_array-layout_of_example :
    to_byte_array fixed log (codes "%h - %04O") [] ≡ written fixed log [] pieces
to_byte_array-layout_of_example =
    to_byte_array-layout_of fixed log [] pieces (refl, (refl, (refl, tt)))
