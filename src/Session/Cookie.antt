-- ===== src/Session/Cookie.antt =====
-- src/tsessioncookiestore.cpp: sessions that are kept in the cookie itself, with a digest.
pub mod Reading
use tf.Base.{
  ℕ, ◌≡◌, ◌≢◌, refl, Bool, true, false, List, [], ◌∷◌, ◌++◌, Option, none, some, if◌then◌else◌,
  ◌==◌, ◌&&◌, not, arith, inl, inr, Bool-cases,
}
use tf.Base.Text.{Text, eq, is_empty, split, eq_iff, eq_refl, on_head}
use tf.Lz4.{Lz4, IsLz4, lz4_compress, lz4_uncompress}
use tf.Session.{Session, Store, insert, has_no_vars, new}

-- The functions of other projects that the store calls: QDataStream with its status, those of LZ4, SHA-1 and
-- base 64; the secret is one of the settings.
pub record Codec (V : Type 0) : Type 0 where
  pub write_map : List (Text × V) → Option Text
  pub read_map : Text → Option (List (Text × V))
  pub lz4 : Lz4
  pub sha1 : Text → Text
  pub to_base64 : Text → Text
  pub from_base64 : Text → Text
  pub secret : Text

abbrev pub underscore : ℕ
underscore = b'_'

module _ {V : Type 0} (c : Codec V) where
  abbrev pub digest : Text → Text
  digest ba = c.sha1 (ba ++ c.secret)

  abbrev pub cookie_of : Text → Text
  cookie_of ba = c.to_base64 ba ++ underscore ∷ c.to_base64 (digest ba)

  abbrev pub stored : {S : Type 0} → Session V → S → Option Text → Bool × Session V × S
  stored session s none = (false, session, s)
  stored session s (some written) =
      (true, record session { id = cookie_of (lz4_compress c.lz4 written) }, s)

  -- TSessionCookieStore::store()
  unfoldable pub store : {S : Type 0} → Session V → S → Bool × Session V × S
  store session s =
      if has_no_vars session
      then (true, record session { id = [] }, s)
      else stored session s (c.write_map session.vars)

  -- reset() of a session gets a key and a value against CSRF from the caller.
  abbrev pub loaded : Text × V → Text → Option (List (Text × V)) → Session V
  loaded (key, v) id none = record { id = id; vars = insert key v [] }
  loaded (key, v) id (some vars) = record { id = id; vars = vars }

  unfoldable pub find_parts : Text × V → Text → List Text → Session V
  find_parts csrf id (part ∷ dgstr ∷ []) =
      if not (is_empty part) && not (is_empty dgstr)
      then if eq (digest (c.from_base64 part)) (c.from_base64 dgstr)
        then loaded csrf id (c.read_map (lz4_uncompress c.lz4 (c.from_base64 part)))
        else new id
      else new id
  find_parts csrf id _ = new id

  -- TSessionCookieStore::find()
  unfoldable pub find : Text × V → Text → Session V
  find csrf id = if is_empty id then new id else find_parts csrf id (split underscore id)

  -- TSessionCookieStore: remove() and gc() do nothing.
  unfoldable pub cookie_store : {S : Type 0} → Text × V → Store V S
  cookie_store csrf = record {
    find = λ id s. (find csrf id, s);
    store = store;
    remove_id = λ id s. (true, s);
    gc = λ expire s. s;
  }

-- What the documentation says of these functions: what is written is some bytes
-- and is read back, LZ4 gives back what it has compressed, and base 64 has no
-- underscores and gives a text for a text.
pub record IsCodec {V : Type 0} (c : Codec V) : Type 0 where
  pub read_written :
      (m : List (Text × V)) (t : Text) → c.write_map m ≡ some t → c.read_map t ≡ some m
  pub written_some : (m : List (Text × V)) (t : Text) → c.write_map m ≡ some t → t ≢ []
  pub lz4_laws : IsLz4 c.lz4
  pub base64_read : (t : Text) → c.from_base64 (c.to_base64 t) ≡ t
  pub base64_split : (t : Text) → split underscore (c.to_base64 t) ≡ c.to_base64 t ∷ []
  pub base64_some : (t : Text) → t ≢ [] → is_empty (c.to_base64 t) ≡ false
  pub sha1_some : (t : Text) → c.sha1 t ≢ []
