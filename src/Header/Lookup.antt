-- ===== src/Header/Lookup.antt =====
-- The fields of src/tinternetmessageheader.cpp as a map from keys to values.
use tf.Base.{
  ℕ, suc, ◌≡◌, ◌≢◌, refl, ap, ◌∙◌, Bool, true, false, [], ◌∷◌, ◌++◌, Option, none, some,
  if◌then◌else◌, Bool-cases, inl, inr, All, arith, append_assoc,
}
use tf.Base.Text.{Text}
use tf.Header.{Pair, Header, is_null, raw_header, has_raw_header, override, set_raw_header}

-- A comparison of keys that is an equivalence, as qstricmp() is.
pub record IsSameKey (same_key : Text → Text → Bool) : Type 0 where
  pub same-refl : (a : Text) → same_key a a ≡ true
  pub same-sym : (a b : Text) → same_key a b ≡ true → same_key b a ≡ true
  pub same-trans : (a b c : Text) → same_key a b ≡ true → same_key b c ≡ true → same_key a c ≡ true

-- An entry that is not null.
abbrev pub HasValue : Pair → Type 0
HasValue p = is_null p.1 ≡ false

abbrev pub count_of : (Text → Text → Bool) → Text → Header → ℕ
count_of same_key key [] = 0
count_of same_key key ((k, v) ∷ h) =
    if same_key k key then suc (count_of same_key key h) else count_of same_key key h

module _ (same_key : Text → Text → Bool) (laws : IsSameKey same_key) where
  -- Without null entries, a key that is not found has no entry.
  count_of-absent :
      (key : Text) (h : Header)
      → All HasValue h
      → has_raw_header same_key key h ≡ false
      → count_of same_key key h ≡ 0
  unfolding has_raw_header raw_header
  count_of-absent key [] vs e = refl
  count_of-absent key ((k, v) ∷ h) (v0, vs) e = ground (arith, count_of-absent key h vs)

  same_key-left : (a b c : Text) → same_key a b ≡ true → same_key a c ≡ same_key b c
  same_key-left a b c e =
      let back = laws.same-sym a b e in
      ground (arith, laws.same-trans a b c e, laws.same-trans b a c back)

  raw_header-append :
      (key k v : Text) (h : Header)
      → count_of same_key key h ≡ 0
      → raw_header same_key k (h ++ (key, some v) ∷ [])
        ≡ (if same_key key k then some v else raw_header same_key k h)
  unfolding raw_header
  raw_header-append key k v [] e = refl
  raw_header-append key k v ((k', w) ∷ h) e = elim (Bool-cases (same_key k' key)) [
    | inl hit ↦ absurd (ground arith)
    | inr miss ↦
        let rest = raw_header-append key k v h (ground arith) in
        ground (arith, rest, laws.same-trans k' k key, laws.same-sym key k)
  ]

  -- Removing the entries of a key leaves those of any other.
  override-none :
      (key k : Text) (h : Header)
      → same_key key k ≡ false
      → raw_header same_key k (override same_key key none h) ≡ raw_header same_key k h
  unfolding raw_header override
  override-none key k [] e = refl
  override-none key k ((k', w) ∷ h) e = elim (Bool-cases (same_key k' key)) [
    | inl hit ↦
        let rest = override-none key k h e in ground (arith, rest, same_key-left k' key k hit)
    | inr miss ↦ let rest = override-none key k h e in ground (arith, rest)
  ]

  raw_header-override :
      (key k v : Text) (h : Header)
      → count_of same_key key h ≢ 0
      → raw_header same_key k (override same_key key (some v) h)
        ≡ (if same_key key k then some v else raw_header same_key k h)
  unfolding raw_header override
  raw_header-override key k v [] e = absurd (e refl)
  raw_header-override key k v ((k', w) ∷ h) e = elim (Bool-cases (same_key k' key)) [
    | inl hit ↦ ground (arith, override-none key k h, same_key-left k' key k hit)
    | inr miss ↦
        let rest = raw_header-override key k v h (ground arith) in
        ground (arith, rest, laws.same-trans k' k key, laws.same-sym key k)
  ]

  has_raw_header-count_of :
      (key : Text) (h : Header) → has_raw_header same_key key h ≡ true → count_of same_key key h ≢ 0
  unfolding has_raw_header raw_header
  has_raw_header-count_of key [] e = absurd (cc)
  has_raw_header-count_of key ((k, v) ∷ h) e = ground (arith, has_raw_header-count_of key h)

  -- A header without null entries is a map: after setRawHeader() with a value that is not null, the
  -- key and those that differ from it in case only have that value, and every other key has the
  -- value it had.
  pub raw_header-set_raw_header :
      (key k v : Text) (h : Header)
      → All HasValue h
      → raw_header same_key k (set_raw_header same_key key (some v) h)
        ≡ (if same_key key k then some v else raw_header same_key k h)
  unfolding set_raw_header
  raw_header-set_raw_header key k v h vs = elim (Bool-cases (has_raw_header same_key key h)) [
    | inl e ↦ rw e (raw_header-override key k v h (has_raw_header-count_of key h e))
    | inr e ↦ rw e (raw_header-append key k v h (count_of-absent key h vs e))
  ]

  count_of-override-none :
      (key : Text) (h : Header) → count_of same_key key (override same_key key none h) ≡ 0
  unfolding override
  count_of-override-none key [] = refl
  count_of-override-none key ((k, v) ∷ h) = ground (arith, count_of-override-none key h)

  count_of-override :
      (key v : Text) (h : Header)
      → count_of same_key key h ≢ 0
      → count_of same_key key (override same_key key (some v) h) ≡ 1
  unfolding override
  count_of-override key v [] e = absurd (e refl)
  count_of-override key v ((k, w) ∷ h) e =
      ground (arith, count_of-override key v h, count_of-override-none key h)

  count_of-append :
      (key v : Text) (h : Header)
      → count_of same_key key (h ++ (key, some v) ∷ []) ≡ suc (count_of same_key key h)
  count_of-append key v [] = rw (laws.same-refl key)
  count_of-append key v ((k, w) ∷ h) = ground (arith, count_of-append key v h)

  -- After setRawHeader() with a value that is not null, a header without null entries has exactly
  -- one entry of the key, however many it had.
  pub count_of-set_raw_header :
      (key v : Text) (h : Header)
      → All HasValue h
      → count_of same_key key (set_raw_header same_key key (some v) h) ≡ 1
  unfolding set_raw_header
  count_of-set_raw_header key v h vs = elim (Bool-cases (has_raw_header same_key key h)) [
    | inl e ↦ rw e (count_of-override key v h (has_raw_header-count_of key h e))
    | inr e ↦ rw e (omega (arith, count_of-append key v h, count_of-absent key h vs e))
  ]

  raw_header-null :
      (key : Text) (h t : Header)
      → count_of same_key key h ≡ 0
      → raw_header same_key key (h ++ ((key, none) ∷ t)) ≡ none
  unfolding raw_header
  raw_header-null key [] t e = rw (laws.same-refl key)
  raw_header-null key ((k, v) ∷ h) t e = ground (arith, raw_header-null key h t)

  raw_header-absent :
      (key : Text) (h : Header) → count_of same_key key h ≡ 0 → raw_header same_key key h ≡ none
  unfolding raw_header
  raw_header-absent key [] e = refl
  raw_header-absent key ((k, v) ∷ h) e = ground (arith, raw_header-absent key h)

  set_raw_header-absent :
      (key : Text) (value : Option Text) (h : Header)
      → raw_header same_key key h ≡ none
      → set_raw_header same_key key value h ≡ h ++ (key, value) ∷ []
  unfolding set_raw_header has_raw_header
  set_raw_header-absent key value h e = rw e

  -- Setting a key that has no entry to a null value adds a null entry, and the key cannot be set
  -- any more: each value that follows goes behind that entry, which rawHeader() finds first.
  pub raw_header-after_null :
      (key v : Text) (h : Header)
      → count_of same_key key h ≡ 0
      → raw_header same_key key
          (set_raw_header same_key key (some v) (set_raw_header same_key key none h))
        ≡ none
  raw_header-after_null key v h e =
      ap (λ x. raw_header same_key key (set_raw_header same_key key (some v) x))
        (set_raw_header-absent key none h (raw_header-absent key h e))
      ∙ ap (λ x. raw_header same_key key x)
          (set_raw_header-absent key (some v) (h ++ (key, none) ∷ []) (raw_header-null key h [] e)
            ∙ append_assoc h ((key, none) ∷ []) ((key, some v) ∷ []))
      ∙ raw_header-null key h ((key, some v) ∷ []) e
