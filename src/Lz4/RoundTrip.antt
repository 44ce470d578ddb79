-- ===== src/Lz4/RoundTrip.antt =====
-- What lz4Compress() of src/tglobal.cpp has written is read by lz4Uncompress().
use tf.Base.{
  ℕ, suc, ◌-◌, ◌/◌, ◌%◌, ◌^◌, ◌≤◌, ◌<◌, ◌≡◌, ◌≢◌, refl, sym, ap, ◌∙◌, false, List, [], ◌∷◌, ◌++◌,
  some, ◌==◌, ltb, length, All, arith, Bool-cases, inl, inr,
}
use tf.Base.Text.{Text, is_empty}
use tf.Lz4.{
  Lz4, IsLz4, block_size, le_bytes, le_value, on_first, blocks_from, framed, compress_blocks,
  cleared, lz4_compress, is_bad, joined, uncompress_from, lz4_uncompress,
}

abbrev pub joined_all : List Text → Text
joined_all [] = []
joined_all (t ∷ ts) = t ++ joined_all ts

abbrev IsBlock : ℕ → Text → Type 0
IsBlock room t = (t ≢ []) × (length t ≤ room)

abbrev AreBlocks : ℕ → List Text → Type 0
AreBlocks room [] = Unit {0}
AreBlocks room (t ∷ ts) = IsBlock room t × All (IsBlock block_size) ts

AreBlocks-All :
    (room : ℕ) (ts : List Text)
    → room ≤ block_size
    → AreBlocks room ts
    → All (IsBlock block_size) ts
AreBlocks-All room [] h b = tt
AreBlocks-All room (t ∷ ts) h ((some_text, fits), b) = ((some_text, omega arith), b)

on_first-AreBlocks :
    (c room : ℕ) (ts : List Text) → AreBlocks room ts → AreBlocks (suc room) (on_first c ts)
on_first-AreBlocks c room [] b = (((λ e. cc), omega arith), tt)
on_first-AreBlocks c room (t ∷ ts) ((some_text, fits), b) = (((λ e. cc), omega arith), b)

room_lem : (k : ℕ) → k < block_size → (suc k == block_size) ≡ false → suc k < block_size
room_lem k h e = ground arith

blocks_from-AreBlocks :
    (k : ℕ) (t : Text) → k < block_size → AreBlocks (block_size - k) (blocks_from k t)
unfolding blocks_from
blocks_from-AreBlocks k [] h = tt
blocks_from-AreBlocks k (c ∷ t) h = elim (Bool-cases (suc k == block_size)) [
  | inl q ↦ rw q (
    ((λ e. cc), omega arith),
    AreBlocks-All (block_size - 0) (blocks_from 0 t) (omega arith)
        (blocks_from-AreBlocks 0 t (omega arith)),
  )
  | inr q ↦
      let more = room_lem k h q in
      let room : suc (block_size - suc k) ≡ block_size - k = omega arith in
      rw (q, ← room)
        (on_first-AreBlocks c (block_size - suc k) (blocks_from (suc k) t)
          (blocks_from-AreBlocks (suc k) t more))
]

joined-on_first : (c : ℕ) (ts : List Text) → joined_all (on_first c ts) ≡ c ∷ joined_all ts
joined-on_first c [] = refl
joined-on_first c (t ∷ ts) = refl

joined-blocks_from : (k : ℕ) (t : Text) → joined_all (blocks_from k t) ≡ t
unfolding blocks_from
joined-blocks_from k [] = refl
joined-blocks_from k (c ∷ t) = elim (Bool-cases (suc k == block_size)) [
  | inl q ↦ rw q (ap (λ l. c ∷ l) (joined-blocks_from 0 t))
  | inr q ↦
      rw q
        (joined-on_first c (blocks_from (suc k) t) ∙ ap (λ l. c ∷ l) (joined-blocks_from (suc k) t))
]

le_value-le_bytes :
    (n : ℕ)
    → n < 2 ^ 32
    → le_value (n % 256) (n / 256 % 256) (n / 65536 % 256) (n / 16777216 % 256) ≡ n
le_value-le_bytes n h = omega arith

length-some : (t : Text) → is_empty t ≡ false → 0 < length t
length-some [] h = absurd (ground arith)
length-some (c ∷ t) h = omega arith

not_empty : (t : Text) → t ≢ [] → is_empty t ≡ false
not_empty [] h = absurd (h refl)
not_empty (c ∷ t) h = refl

module _ (lz4 : Lz4) where
  uncompress-nil : lz4_uncompress lz4 [] ≡ []
  unfolding lz4_uncompress uncompress_from
  uncompress-nil = refl

  skip-append :
      (t rest : Text) → uncompress_from lz4 (length t) (t ++ rest) ≡ uncompress_from lz4 0 rest
  unfolding uncompress_from
  skip-append [] rest = refl
  skip-append (c ∷ t) rest = skip-append t rest

module _ (lz4 : Lz4) (laws : IsLz4 lz4) where
  length_ok : (t : Text) → IsBlock block_size t → is_bad lz4 (length (lz4.compress_fast t)) ≡ false
  length_ok t (some_text, fits) =
      let bounded = laws.bounded t fits in
      let bound = laws.bound_int in
      let some_bytes : 0 < length (lz4.compress_fast t) =
        length-some (lz4.compress_fast t) (laws.compressed t some_text fits) in
      ground arith

  one_block :
      (t out : Text)
      → IsBlock block_size t
      → uncompress_from lz4 0
          (le_bytes (length (lz4.compress_fast t)) ++ (lz4.compress_fast t ++ out))
        ≡ joined lz4 t (uncompress_from lz4 0 out)
  unfolding uncompress_from le_bytes
  one_block t out (some_text, fits) =
      let n = length (lz4.compress_fast t) in
      let bounded = laws.bounded t fits in
      let bound = laws.bound_int in
      rw
        (
          le_value-le_bytes n (omega arith),
          length_ok t (some_text, fits),
          laws.decompressed t out some_text fits,
          not_empty t some_text,
        )
        (ap (joined lz4 t) (skip-append lz4 (lz4.compress_fast t) out))

  written_back :
      (ts : List Text)
      → All (IsBlock block_size) ts
      → (out : Text) × (compress_blocks lz4 ts ≡ some out)
        × (uncompress_from lz4 0 out ≡ some (joined_all ts))
  unfolding compress_blocks uncompress_from
  written_back [] h = ([], refl, refl)
  written_back (t ∷ ts) ((some_text, fits), h) =
      let (out, written, read) = written_back ts h in
      let buffer = lz4.compress_fast t in
      (
        le_bytes (length buffer) ++ (buffer ++ out),
        rw (laws.compressed t some_text fits) (ap (framed lz4 buffer) written),
        one_block t out (some_text, fits) ∙ ap (joined lz4 t) read,
      )

  -- A text of any length that LZ4 takes, in one block or many, is uncompressed as it was before it was
  -- compressed.
  pub lz4_uncompress-lz4_compress :
      (t : Text) → 0 < lz4.compress_bound (length t) → lz4_uncompress lz4 (lz4_compress lz4 t) ≡ t
  unfolding lz4_uncompress lz4_compress
  lz4_uncompress-lz4_compress t h =
      let blocks = blocks_from-AreBlocks 0 t (omega arith) in
      let (out, written, read) =
        written_back (blocks_from 0 t)
          (AreBlocks-All (block_size - 0) (blocks_from 0 t) (omega arith) blocks) in
      let taken : ltb (lz4.compress_bound (length t)) 1 ≡ false = ground arith in
      rw taken (
        ap (λ o. cleared lz4 (uncompress_from lz4 0 (cleared lz4 o))) written
        ∙ ap (cleared lz4) read
        ∙ joined-blocks_from 0 t)

  -- Some bytes are compressed into some bytes.
  pub lz4_compress-some :
      (t : Text) → t ≢ [] → 0 < lz4.compress_bound (length t) → lz4_compress lz4 t ≢ []
  lz4_compress-some t some_text h e =
      some_text
        (sym (lz4_uncompress-lz4_compress t h) ∙ ap (lz4_uncompress lz4) e ∙ uncompress-nil lz4)
