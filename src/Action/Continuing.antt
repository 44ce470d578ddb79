-- ===== src/Action/Continuing.antt =====
-- How sessions go on from one request to the next, with src/tsessioncookiestore.cpp behind
-- src/tactioncontext.cpp.
use tf.Base.{◌<◌, length, ◌≡◌, refl, ap, true, false, some}
use tf.Base.Text.{Text, is_empty}
use tf.Lz4.{lz4_compress}
use tf.Session as Session
use tf.Session.{Session, Store, has_no_vars, find_session}
use tf.Session.Cookie as Cookie
use tf.Session.Cookie.{Codec, IsCodec, cookie_of, cookie_store}
use tf.Session.Cookie.Reading.{find-cookie_of, is_empty-separated}
use tf.Action.Controller as Controller
use tf.Action.Controller.{Work, Cookie, forbidden_in_name}
use tf.Action.Steps.{
  Request, Handlers, Surroundings, store_session, load_session, after_store, session_cookie,
}

module _ {V S : Type 0} (e : Surroundings V S) (h : Handlers V S) (c : Codec V)
    (csrf : Text × V) where
  -- The session as it is written into the cookie.
  abbrev kept_session : Text → Work V S → Session V
  kept_session written w = record {
    id = cookie_of c (lz4_compress c.lz4 written);
    vars = w.controller.session.vars;
  }

  stored_lem :
      (w : Work V S) (written : Text)
      → e.factory ≡ some (cookie_store c csrf)
      → is_empty w.controller.session.id ≡ false
      → has_no_vars w.controller.session ≡ false
      → c.write_map w.controller.session.vars ≡ some written
      → Session.store e.factory w.controller.session w.shared
        ≡ (true, kept_session written w, w.shared)
  unfolding Session.store cookie_store Cookie.store
  stored_lem w written f i v q = rw (f, i, v, q) refl

  store_session_lem :
      (w : Work V S) (written : Text)
      → e.factory ≡ some (cookie_store c csrf)
      → h.session_enabled ≡ true
      → is_empty w.controller.session.id ≡ false
      → has_no_vars w.controller.session ≡ false
      → c.write_map w.controller.session.vars ≡ some written
      → store_session e h w ≡ after_store e h w (true, kept_session written w, w.shared)
  unfolding store_session
  store_session_lem w written f on i v q =
      let stored = stored_lem w written f i v q in rw on (ap (after_store e h w) stored)

  add_cookie_lem :
      (cookie : Cookie) (k : Controller.Controller V)
      → forbidden_in_name cookie.name ≡ false
      → (Controller.add_cookie cookie k).1
        ≡ record k { cookie_jar = Controller.add_to_jar cookie k.cookie_jar }
  unfolding Controller.add_cookie
  add_cookie_lem cookie k name = rw name refl

  found_lem :
      (w later : Work V S) (written : Text)
      → IsCodec c
      → e.factory ≡ some (cookie_store c csrf)
      → c.write_map w.controller.session.vars ≡ some written
      → 0 < c.lz4.compress_bound (length written)
      → find_session e.factory (kept_session written w).id later.shared
        ≡ (kept_session written w, later.shared)
  unfolding find_session cookie_store
  found_lem w later written laws f q b =
      let ba = lz4_compress c.lz4 written in
      rw
        (
          f,
          is_empty-separated (c.to_base64 ba) (c.to_base64 (Cookie.digest c ba)) Cookie.underscore,
          find-cookie_of c laws csrf w.controller.session.vars written q b,
        )
        refl

  -- A session with values, not too long for LZ4, that a request has stored is put into a cookie, and
  -- a later request with that cookie finds it as it was, but for its flash values.
  pub load_session-store_session :
      (w later : Work V S) (req : Request) (written : Text)
      → IsCodec c
      → e.factory ≡ some (cookie_store c csrf)
      → h.session_enabled ≡ true
      → forbidden_in_name e.settings.session_name ≡ false
      → is_empty w.controller.session.id ≡ false
      → has_no_vars w.controller.session ≡ false
      → c.write_map w.controller.session.vars ≡ some written
      → 0 < c.lz4.compress_bound (length written)
      → let stored = store_session e h w in
        let id = stored.controller.session.id in
        (stored.controller.cookie_jar
          ≡ Controller.add_to_jar (session_cookie e h id) w.controller.cookie_jar)
        × ((load_session e h (record req { session_cookie = id }) later).controller.session
            ≡ record {
              id = id;
              vars = Session.remove Controller.flash_vars_session_key w.controller.session.vars;
            })
  unfolding load_session Controller.export_all_flash_variants
  load_session-store_session w later req written laws f on name i v q b =
      let kept = store_session_lem w written f on i v q in
      let named =
        add_cookie_lem (session_cookie e h (kept_session written w).id)
          (record w.controller { session = kept_session written w }) name in
      rw (kept, named) (refl, rw (found_lem w later written laws f q b) refl)
