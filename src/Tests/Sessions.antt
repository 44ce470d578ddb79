-- ===== src/Tests/Sessions.antt =====
-- Runs of the code of src/tsessionmanager.cpp and src/tsessioncookiestore.cpp. The encodings are simple
-- ones: a value stands before its key, and base 64 is a shift that leaves out the underscore.
use tf.Base.{
  ℕ, ◌+◌, ◌-◌, ◌≡◌, ◌≢◌, refl, true, false, List, [], ◌∷◌, Option, none, some, if◌then◌else◌, ◌==◌,
  ltb, arith, drop, take, length, ◌++◌, take-length-append,
}
use tf.Base.Text.{Text, codes, split, eq, is_empty}
use tf.Lz4.{
  Lz4, IsLz4, lz4_compress, lz4_uncompress, compress_blocks, blocks_from, le_bytes, uncompress_from,
}
use tf.Lz4.RoundTrip.{lz4_uncompress-lz4_compress}
use tf.Session.{Session, Store, has_no_vars, generate_id, find_session, generate_rounds}
use tf.Session.Cookie.{Codec, IsCodec, underscore, digest, cookie_of, find, find_parts}
use tf.Session.Cookie.Reading.{find-verified}
use tf.Session.Generating.{FirstFree, generate_id-FirstFree}

abbrev write_map : List (Text × ℕ) → Option Text
write_map ((k, v) ∷ []) = some (v ∷ k)
write_map _ = none

abbrev read_map : Text → Option (List (Text × ℕ))
read_map [] = none
read_map (v ∷ k) = some ((k, v) ∷ [])

abbrev shift : ℕ → ℕ
shift c = if ltb c 95 then c else c + 1

abbrev unshift : ℕ → ℕ
unshift c = if ltb c 95 then c else c - 1

-- A block is put behind a sign.
abbrev pub marking : Lz4
marking = record {
  compress_bound = λ n. n + 1;
  compress_fast = λ t. 1 ∷ t;
  decompress_safe = λ bytes n. drop 1 (take n bytes);
}

marked-read : (t rest : Text) → drop 1 (take (length (1 ∷ t)) (1 ∷ (t ++ rest))) ≡ t
marked-read t rest = take-length-append t rest (length t) refl

pub marking-IsLz4 : IsLz4 marking
marking-IsLz4 = record {
  bound_int = omega arith;
  bounded = λ t h. omega arith;
  compressed = λ t s h. refl;
  decompressed = λ t rest s h. marked-read t rest;
}

lz4_uncompress-lz4_compress_example :
    lz4_uncompress marking (lz4_compress marking (codes "session")) ≡ codes "session"
lz4_uncompress-lz4_compress_example =
    lz4_uncompress-lz4_compress marking marking-IsLz4 (codes "session") (omega arith)

-- Nothing is compressed into nothing, and an error leaves nothing of the blocks before.
compressed-nothing : lz4_compress marking [] ≡ []
unfolding lz4_compress compress_blocks blocks_from
compressed-nothing = refl

compressed-two : lz4_compress marking (codes "ab") ≡ 3 ∷ 0 ∷ 0 ∷ 0 ∷ 1 ∷ codes "ab"
unfolding lz4_compress compress_blocks blocks_from le_bytes
compressed-two = refl

cut_off : lz4_uncompress marking (3 ∷ 0 ∷ 0 ∷ 0 ∷ 1 ∷ 97 ∷ 98 ∷ 3 ∷ 0 ∷ []) ≡ []
unfolding lz4_uncompress uncompress_from
cut_off = refl

abbrev shift_all : Text → Text
shift_all [] = []
shift_all (c ∷ t) = shift c ∷ shift_all t

abbrev unshift_all : Text → Text
unshift_all [] = []
unshift_all (c ∷ t) = unshift c ∷ unshift_all t

abbrev pub plain : Codec ℕ
plain = record {
  write_map = write_map;
  read_map = read_map;
  lz4 = marking;
  sha1 = λ t. 7 ∷ t;
  to_base64 = shift_all;
  from_base64 = unshift_all;
  secret = codes "secret";
}

read_written : (m : List (Text × ℕ)) (t : Text) → write_map m ≡ some t → read_map t ≡ some m
read_written [] t e = cc
read_written ((k, v) ∷ []) t e = let same : v ∷ k ≡ t = cc in rw (← same) refl
read_written ((k, v) ∷ x ∷ m) t e = cc

unshift-shift : (t : Text) → unshift_all (shift_all t) ≡ t
unshift-shift [] = refl
unshift-shift (c ∷ t) =
    let same : unshift (shift c) ≡ c = ground arith in rw (same, unshift-shift t) refl

split-shift : (t : Text) → split underscore (shift_all t) ≡ shift_all t ∷ []
unfolding split
split-shift [] = refl
split-shift (c ∷ t) =
    let other : (shift c == underscore) ≡ false = ground arith in rw (other, split-shift t) refl

shift-some : (t : Text) → t ≢ [] → is_empty (shift_all t) ≡ false
shift-some [] h = absurd (h refl)
shift-some (c ∷ t) h = refl

written-some : (m : List (Text × ℕ)) (t : Text) → write_map m ≡ some t → t ≢ []
written-some [] t e = cc
written-some ((k, v) ∷ []) t e = let same : v ∷ k ≡ t = cc in rw (← same) (λ z. cc)
written-some ((k, v) ∷ x ∷ m) t e = cc

pub plain-IsCodec : IsCodec plain
plain-IsCodec = record {
  read_written = read_written;
  written_some = written-some;
  lz4_laws = marking-IsLz4;
  base64_read = unshift-shift;
  base64_split = split-shift;
  base64_some = shift-some;
  sha1_some = λ t e. cc;
}

abbrev pub csrf : Text × ℕ
csrf = (codes "_csrfId", 9)

abbrev pub cookie : Text
cookie = cookie_of plain (6 ∷ 0 ∷ 0 ∷ 0 ∷ 1 ∷ 5 ∷ codes "user")

found-cookie : find plain csrf cookie ≡ record { id = cookie; vars = (codes "user", 5) ∷ [] }
unfolding find find_parts split eq lz4_uncompress uncompress_from
found-cookie = refl

cookie-values : has_no_vars (find plain csrf cookie) ≡ false
unfolding find find_parts split eq lz4_uncompress uncompress_from
cookie-values = refl

find-verified_example :
    (part : Text) × (dgstr : Text) × (split underscore cookie ≡ part ∷ dgstr ∷ [])
    × (digest plain (plain.from_base64 part) ≡ plain.from_base64 dgstr)
find-verified_example = find-verified plain csrf cookie cookie-values

-- A store in which the first hash is the number of a session.
abbrev taken_store : Store ℕ ℕ
taken_store = record {
  find = λ id s. (record { id = id; vars = if eq id (codes "1") then csrf ∷ [] else [] }, s);
  store = λ session s. (true, session, s);
  remove_id = λ id s. (true, s);
  gc = λ expire s. s;
}

abbrev hashes : ℕ → Text
hashes k = (48 + k) ∷ []

generate_id-FirstFree_example :
    FirstFree (some taken_store) hashes 3 0 8 (generate_id (some taken_store) hashes 0 8)
generate_id-FirstFree_example = generate_id-FirstFree (some taken_store) hashes 0 8 (λ id s. refl)

second-hash : generate_id (some taken_store) hashes 0 8 ≡ tf.Session.generated (codes "2") 8 2
unfolding generate_id generate_rounds find_session eq
second-hash = refl
