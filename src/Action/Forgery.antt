-- ===== src/Action/Forgery.antt =====
-- What execute() of src/tactioncontext.cpp does with a request that does not carry the token of the
-- session.
use tf.Base.{
  ◌≡◌, ◌≢◌, refl, subst, sym, arith, ◌∙◌, Bool, true, false, not, ◌&&◌, List, [], ◌∷◌, ◌++◌, some,
  if◌then◌else◌, inl, inr, Bool-cases, ◌⊎◌,
}
use tf.Base.Text.{Text, eq, eq_sound, is_empty}
use tf.Session as Session
use tf.Action.Exceptions.{Result, ok, failure, modify, zoom, ◌>>=◌}
use tf.Action.Response.{closed}
use tf.Action.Controller.{
  Controller, Settings, Values, Work, verify_request, authenticity_token, bytes_of,
}
use tf.Action.Steps.{
  Request, State, Handlers, Surroundings, put, set_work, load_session, is_protected, accepted,
  verify, prepare, run_controller,
}
use tf.Action.{Site, too_large, route_of, run_route, try_execute, handle, write_log, execute}

module _ {V : Type 0} (settings : Settings) (values : Values V) where
  -- The token of a form is that of the session: the value in a session that is kept in the cookie,
  -- and otherwise the hash of its number and the secret.
  abbrev pub Genuine : Text → Controller V → Type 0
  Genuine token c =
      (token ≢ [])
      × (settings.session_store_is_cookie ≡ true
          → bytes_of values (Session.value settings.session_csrf_protection_key c.session.vars)
            ≡ token)
      × (settings.session_store_is_cookie ≡ false
          → (c.session.id ≢ [])
            × (values.sha1_hex (c.session.id ++ settings.session_secret) ≡ token))

  is_empty-false : (t : Text) → is_empty t ≡ false → t ≢ []
  is_empty-false [] h = λ e. cc
  is_empty-false (c ∷ t) h = λ e. cc

  -- What verifyRequest() gives: the request is accepted with a genuine token only.
  abbrev Verdict : Text → Controller V → Result Bool → Type 0
  Verdict token c r = ((r ≡ ok true) × Genuine token c) ⊎ ((r ≡ ok false) ⊎ (r ≡ failure))

  compared :
      (token expected : Text) (c : Controller V)
      → (token ≡ expected → Genuine token c)
      → Verdict token c (ok (eq token expected))
  compared token expected c genuine = elim (Bool-cases (eq token expected)) [
    | inl q ↦ rw q (inl (refl, genuine (eq_sound token expected q)))
    | inr q ↦ rw q (inr (inl refl))
  ]

  -- The token that a session is compared with, if it gets so far.
  compared_with :
      (token : Text) (c : Controller V) (r : Result Bool) (expected : Text)
      → r ≡ ok (eq token expected)
      → (token ≡ expected → Genuine token c)
      → Verdict token c r
  compared_with token c r expected q genuine =
      subst (Verdict token c) (sym q) (compared token expected c genuine)

  of_cookie :
      (token : Text) (c : Controller V)
      → settings.session_store_is_cookie ≡ true
      → is_empty token ≡ false
      → Verdict token c (verify_request settings values true token c)
  unfolding verify_request authenticity_token
  of_cookie token c q t =
      let bytes =
        bytes_of values (Session.value settings.session_csrf_protection_key c.session.vars) in
      elim (Bool-cases (is_empty bytes)) [
        | inl b ↦ inr (inr (rw (q, t, b) refl))
        | inr b ↦
            compared_with token c (verify_request settings values true token c) bytes
              (rw (q, t, b) refl)
              (λ same. (
                is_empty-false token t,
                λ _. sym same,
                λ k. absurd (let w : true ≡ false = sym q ∙ k in cc),
              ))
      ]

  of_store :
      (token : Text) (c : Controller V)
      → settings.session_store_is_cookie ≡ false
      → is_empty token ≡ false
      → Verdict token c (verify_request settings values true token c)
  unfolding verify_request authenticity_token
  of_store token c q t =
      let hash = values.sha1_hex (c.session.id ++ settings.session_secret) in
      elim (Bool-cases (is_empty c.session.id)) [
        | inl b ↦ inr (inr (rw (q, b) refl))
        | inr b ↦
            compared_with token c (verify_request settings values true token c) hash
              (rw (q, b, t) refl)
              (λ same. (
                is_empty-false token t,
                λ k. absurd (let w : false ≡ true = sym q ∙ k in cc),
                λ _. (is_empty-false c.session.id b, sym same),
              ))
      ]

  verify_request-Verdict :
      (token : Text) (c : Controller V)
      → Verdict token c (verify_request settings values true token c)
  unfolding verify_request
  verify_request-Verdict token c = elim (Bool-cases (is_empty token)) [
    | inl t ↦ elim (Bool-cases (not settings.session_store_is_cookie && is_empty c.session.id)) [
      | inl q ↦ inr (inr (rw q refl))
      | inr q ↦ inr (inr (rw (q, t) refl))
    ]
    | inr t ↦ elim (Bool-cases settings.session_store_is_cookie) [
      | inl q ↦ of_cookie token c q t
      | inr q ↦ of_store token c q t
    ]
  ]

module _ {V S : Type 0} (e : Surroundings V S) (site : Site V S) (h : Handlers V S) where
  -- The session that the action of a request would work with.
  abbrev pub loaded : Request → State V S → Work V S
  loaded req s = if h.session_enabled then load_session e h req s.work else s.work

  rejected :
      (req : Request) (c : Controller V) (r : Result Bool)
      → ¬ (Genuine e.settings e.values req.authenticity_token c)
      → Verdict e.settings e.values req.authenticity_token c r
      → accepted e h r ≡ failure
  rejected req c r forged (inl (q, genuine)) = absurd (forged genuine)
  rejected req c r forged (inr (inl q)) = rw q refl
  rejected req c r forged (inr (inr q)) = rw q refl

  csrf_enabled :
      (req : Request) (action : Text)
      → is_protected e h req action ≡ true
      → h.csrf_protection_enabled ≡ true
  csrf_enabled req action p = ground arith

  run_controller-forged :
      (req : Request) (action : Text) (params : List Text) (s : State V S)
      → is_protected e h req action ≡ true
      → ¬ (Genuine e.settings e.values req.authenticity_token (loaded req s).controller)
      → run_controller e h req action params s ≡ (failure, set_work (loaded req s) s)
  unfolding run_controller prepare ◌>>=◌ zoom modify verify load_session
  run_controller-forged req action params s p forged =
      let c = (loaded req s).controller in
      let enabled = csrf_enabled req action p in
      let r =
        verify_request e.settings e.values h.csrf_protection_enabled req.authenticity_token c in
      let no : accepted e h r ≡ failure = rw enabled (
        rejected req c (verify_request e.settings e.values true req.authenticity_token c) forged
          (verify_request-Verdict e.settings e.values req.authenticity_token c)) in
      rw (p, no) refl

  -- A request that changes the state, is not too large and protected, has a controller and does not
  -- carry the token of its session, runs no function of the controller: the session is looked up, the
  -- socket is closed, and 500 is logged.
  pub execute-forged :
      (req : Request) (s : State V S)
      → site.controllers (route_of e site req).controller ≡ some h
      → too_large e site req ≡ false
      → is_protected e h req (route_of e site req).action ≡ true
      → ¬ (Genuine e.settings e.values req.authenticity_token (loaded req s).controller)
      → execute e site req s ≡ write_log e site (put 500 closed (set_work (loaded req s) s))
  unfolding execute try_execute run_route handle
  execute-forged req s known small p forged =
      rw
        (
          small,
          known,
          run_controller-forged req (route_of e site req).action (route_of e site req).params s p
              forged,
        )
        refl
