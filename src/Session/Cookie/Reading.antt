-- ===== src/Session/Cookie/Reading.antt =====
-- The cookies of src/tsessioncookiestore.cpp are read back, and no others are.
use tf.Base.{
  ◌<◌, length, ℕ, ◌≡◌, ◌≢◌, refl, ap, ◌∙◌, false, List, [], ◌∷◌, ◌++◌, some, ◌==◌, ◌&&◌, not, inl,
  inr, Bool-cases, ==_refl,
}
use tf.Base.Text.{Text, eq, is_empty, split, eq_sound, eq_refl, on_head}
use tf.Lz4.{lz4_compress}
use tf.Lz4.RoundTrip.{lz4_uncompress-lz4_compress, lz4_compress-some}
use tf.Session.{has_no_vars}
use tf.Session.Cookie.{Codec, IsCodec, underscore, digest, cookie_of, find_parts, find}

tail-one :
    (c : ℕ) (a : Text) (parts : List Text)
    → parts ≢ []
    → on_head c parts ≡ (c ∷ a) ∷ []
    → parts ≡ a ∷ []
tail-one c a [] ne e = absurd (ne refl)
tail-one c a (p ∷ ps) ne e = cc

on_head-some : (c : ℕ) (parts : List Text) → on_head c parts ≢ []
on_head-some c [] = λ e. cc
on_head-some c (p ∷ ps) = λ e. cc

split-some : (sep : ℕ) (a : Text) → split sep a ≢ []
unfolding split
split-some sep [] = λ e. cc
split-some sep (c ∷ a) = elim (Bool-cases (c == sep)) [
  | inl q ↦ rw q (λ e. cc)
  | inr q ↦ rw q (on_head-some c (split sep a))
]

-- Behind a text without separators stands a part of its own.
split-separated :
    (sep : ℕ) (a b : Text) → split sep a ≡ a ∷ [] → split sep (a ++ sep ∷ b) ≡ a ∷ split sep b
unfolding split
split-separated sep [] b e = rw (==_refl sep) refl
split-separated sep (c ∷ a) b e = elim (Bool-cases (c == sep)) [
  | inl q ↦ absurd (let e' : [] ∷ split sep a ≡ (c ∷ a) ∷ [] = rw q at e in cc)
  | inr q ↦ rw q (
      let e' : on_head c (split sep a) ≡ (c ∷ a) ∷ [] = rw q at e in
      ap (on_head c) (split-separated sep a b (tail-one c a (split sep a) (split-some sep a) e')))
]

pub is_empty-separated : (a b : Text) (sep : ℕ) → is_empty (a ++ sep ∷ b) ≡ false
is_empty-separated [] b sep = refl
is_empty-separated (c ∷ a) b sep = refl

module _ {V : Type 0} (c : Codec V) (csrf : Text × V) where
  -- Only what carries the digest of the secret has values.
  find_parts-verified :
      (id : Text) (parts : List Text)
      → has_no_vars (find_parts c csrf id parts) ≡ false
      → (part : Text) × (dgstr : Text) × (parts ≡ part ∷ dgstr ∷ [])
        × (digest c (c.from_base64 part) ≡ c.from_base64 dgstr)
  unfolding find_parts
  find_parts-verified id [] h = cc
  find_parts-verified id (part ∷ []) h = cc
  find_parts-verified id (part ∷ dgstr ∷ x ∷ rest) h = cc
  find_parts-verified id (part ∷ dgstr ∷ []) h =
      elim (Bool-cases (not (is_empty part) && not (is_empty dgstr))) [
        | inr q ↦ absurd (let h' = rw q at h in cc)
        | inl q ↦ elim (Bool-cases (eq (digest c (c.from_base64 part)) (c.from_base64 dgstr))) [
          | inl q' ↦
              (part, dgstr, refl, eq_sound (digest c (c.from_base64 part)) (c.from_base64 dgstr) q')
          | inr q' ↦ absurd (let h' = rw (q, q') at h in cc)
        ]
      ]

  -- A session that is found with values has come in a cookie whose second part is the digest of the
  -- first one and the secret.
  pub find-verified :
      (id : Text)
      → has_no_vars (find c csrf id) ≡ false
      → (part : Text) × (dgstr : Text) × (split underscore id ≡ part ∷ dgstr ∷ [])
        × (digest c (c.from_base64 part) ≡ c.from_base64 dgstr)
  unfolding find
  find-verified id h = elim (Bool-cases (is_empty id)) [
    | inl q ↦ absurd (let h' = rw q at h in cc)
    | inr q ↦ find_parts-verified id (split underscore id) (rw q at h)
  ]

module _ {V : Type 0} (c : Codec V) (laws : IsCodec c) (csrf : Text × V) where
  find_parts-written :
      (id : Text) (vars : List (Text × V)) (written : Text)
      → c.write_map vars ≡ some written
      → 0 < c.lz4.compress_bound (length written)
      → let ba = lz4_compress c.lz4 written in
        find_parts c csrf id (c.to_base64 ba ∷ c.to_base64 (digest c ba) ∷ [])
        ≡ record { id = id; vars = vars }
  unfolding find_parts
  find_parts-written id vars written e b =
      let ba = lz4_compress c.lz4 written in
      rw
        (
          laws.base64_some ba
              (lz4_compress-some c.lz4 laws.lz4_laws written (laws.written_some vars written e) b),
          laws.base64_some (digest c ba) (laws.sha1_some (ba ++ c.secret)),
          laws.base64_read ba,
          laws.base64_read (digest c ba),
          eq_refl (digest c ba),
          lz4_uncompress-lz4_compress c.lz4 laws.lz4_laws written b,
          laws.read_written vars written e,
        )
        refl

  split-cookie_of :
      (ba : Text)
      → split underscore (cookie_of c ba) ≡ c.to_base64 ba ∷ c.to_base64 (digest c ba) ∷ []
  split-cookie_of ba =
      split-separated underscore (c.to_base64 ba) (c.to_base64 (digest c ba)) (laws.base64_split ba)
      ∙ ap (λ ps. c.to_base64 ba ∷ ps) (laws.base64_split (digest c ba))

  pub find-cookie_of :
      (vars : List (Text × V)) (written : Text)
      → c.write_map vars ≡ some written
      → 0 < c.lz4.compress_bound (length written)
      → let id = cookie_of c (lz4_compress c.lz4 written) in
        find c csrf id ≡ record { id = id; vars = vars }
  unfolding find
  find-cookie_of vars written e b =
      let ba = lz4_compress c.lz4 written in
      rw
        (
          is_empty-separated (c.to_base64 ba) (c.to_base64 (digest c ba)) underscore,
          split-cookie_of ba,
        )
        (find_parts-written (cookie_of c ba) vars written e b)
