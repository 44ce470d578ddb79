-- ===== src/Lz4.antt =====
-- src/tglobal.cpp: lz4Compress() and lz4Uncompress() of Tf, which put the blocks of LZ4 behind their
-- lengths. The functions of LZ4 are a parameter.
pub mod RoundTrip
use tf.Base.{
  ℕ, zero, suc, ◌+◌, ◌*◌, ◌/◌, ◌%◌, ◌^◌, Bool, true, false, ◌||◌, List, [], ◌∷◌, ◌++◌, Option, none,
  some, if◌then◌else◌, ◌==◌, ltb, leb, length, ◌<◌, ◌≤◌, ◌≡◌, ◌≢◌,
}
use tf.Base.Text.{Text, is_empty}

-- LZ4_BLOCKSIZE
abbrev pub block_size : ℕ
block_size = 1024 * 1024

-- LZ4_compressBound(), LZ4_compress_fast() and LZ4_decompress_safe(). An empty result stands for one
-- that is not positive. The last one gets the bytes from a position on and the length of a block, which
-- can be more than the bytes that there are.
pub record Lz4 : Type 0 where
  pub compress_bound : ℕ → ℕ
  pub compress_fast : Text → Text
  pub decompress_safe : Text → ℕ → Text

-- An int as QDataStream writes it with the lowest byte first.
unfoldable pub le_bytes : ℕ → Text
le_bytes n = n % 256 ∷ n / 256 % 256 ∷ n / 65536 % 256 ∷ n / 16777216 % 256 ∷ []

abbrev pub le_value : ℕ → ℕ → ℕ → ℕ → ℕ
le_value a b c d = a + b * 256 + c * 65536 + d * 16777216

abbrev pub on_first : ℕ → List Text → List Text
on_first c [] = (c ∷ []) ∷ []
on_first c (t ∷ ts) = (c ∷ t) ∷ ts

-- The blocks of the loop: `datalen` bytes from `readlen` on, with how many bytes the first one has yet.
unfoldable pub blocks_from : ℕ → Text → List Text
blocks_from k [] = []
blocks_from k (c ∷ t) =
    let rest = blocks_from (if suc k == block_size then 0 else suc k) t in
    if suc k == block_size then (c ∷ []) ∷ rest else on_first c rest

module _ (lz4 : Lz4) where
  abbrev pub framed : Text → Option Text → Option Text
  framed buffer none = none
  framed buffer (some rest) = some (le_bytes (length buffer) ++ (buffer ++ rest))

  -- The loop of lz4Compress(): `none` where a block cannot be compressed.
  unfoldable pub compress_blocks : List Text → Option Text
  compress_blocks [] = some []
  compress_blocks (t ∷ ts) =
      let rest = compress_blocks ts in
      let buffer = lz4.compress_fast t in if is_empty buffer then none else framed buffer rest

  -- ret.clear()
  abbrev pub cleared : Option Text → Text
  cleared none = []
  cleared (some t) = t

  -- lz4Compress(data)
  unfoldable pub lz4_compress : Text → Text
  lz4_compress bytes =
      if ltb (lz4.compress_bound (length bytes)) 1
      then []
      else cleared (compress_blocks (blocks_from 0 bytes))

  -- The length of a block that cannot be one: an int that is not positive or too large.
  abbrev pub is_bad : ℕ → Bool
  is_bad srclen = srclen == 0 || leb (2 ^ 31) srclen || ltb (lz4.compress_bound block_size) srclen

  abbrev pub joined : Text → Option Text → Option Text
  joined buffer none = none
  joined buffer (some rest) = some (buffer ++ rest)

  -- The loop of lz4Uncompress(), with the bytes from readlen on, of which some are still to be skipped;
  -- `none` is an error. A length that is cut off is read as 0.
  unfoldable pub uncompress_from : ℕ → Text → Option Text
  uncompress_from skip [] = some []
  uncompress_from (suc skip) (x ∷ bytes) = uncompress_from skip bytes
  uncompress_from zero (a ∷ b ∷ c ∷ d ∷ bytes) =
      let srclen = le_value a b c d in
      let rest = uncompress_from srclen bytes in
      let buffer = lz4.decompress_safe bytes srclen in
      if is_bad srclen then none else if is_empty buffer then none else joined buffer rest
  uncompress_from zero (x ∷ bytes) = none

  -- lz4Uncompress(data)
  unfoldable pub lz4_uncompress : Text → Text
  lz4_uncompress bytes = cleared (uncompress_from 0 bytes)

-- What LZ4 says of its functions: a block is compressed into some bytes, no more than the bound, which
-- are decompressed into the block again.
pub record IsLz4 (lz4 : Lz4) : Type 0 where
  pub bound_int : lz4.compress_bound block_size < 2 ^ 31
  pub bounded :
      (t : Text)
      → length t ≤ block_size
      → length (lz4.compress_fast t) ≤ lz4.compress_bound block_size
  pub compressed :
      (t : Text) → t ≢ [] → length t ≤ block_size → is_empty (lz4.compress_fast t) ≡ false
  pub decompressed :
      (t rest : Text)
      → t ≢ []
      → length t ≤ block_size
      → lz4.decompress_safe (lz4.compress_fast t ++ rest) (length (lz4.compress_fast t)) ≡ t
