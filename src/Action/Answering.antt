-- ===== src/Action/Answering.antt =====
-- How often execute() of src/tactioncontext.cpp answers a request.
use tf.Base.{
  ℕ, ◌≡◌, refl, ap, sym, append-nil, length, ◌||◌, Bool, true, false, List, [], ◌∷◌, ◌++◌, Option,
  none, some, if◌then◌else◌, ◌==◌, inl, inr, Bool-cases,
}
use tf.Base.Text.{Text}
use tf.Action.Exceptions.{
  Effect, Result, ok, client_error, failure, Done, throw, modify, zoom, ◌>>=◌, Maintains,
  Maintains-pure, Maintains-if, Maintains-when, Maintains-bind, continue,
}
use tf.Action.Response as Response
use tf.Action.Response.{Output, closed}
use tf.Action.Controller.{Controller, Work}
use tf.Action.Steps.{
  Request, State, Handlers, Surroundings, put, on_work, keep_files, send_tasks, after_action,
  dispatch, run_action, answer, answer_with, default_status, body_output, with_charset, conclude,
  run_controller,
}
use tf.Action.{
  Site, too_large, run_public, get_output, run_route, run_found, try_execute, handle, write_log,
  execute, route_of,
}

module _ {V S : Type 0} (x : List Output) (y : List ℕ) where
  -- What has been sent and logged.
  abbrev Silent : State V S → Type 0
  Silent s = (s.sent ≡ x) × (s.logged ≡ y)

  on_work-Silent : {A : Type 0} (m : Effect (Work V S) A) → Maintains Silent (on_work m)
  unfolding zoom
  on_work-Silent m = record { kept = λ s h. h }

  -- The state after code that answers where it returns.
  abbrev Answers : Result Done × State V S → Type 0
  Answers (ok a, s) = ((o : Output) × (s.sent ≡ x ++ o ∷ [])) × (s.logged ≡ y)
  Answers (client_error code, s) = Silent s
  Answers (failure, s) = Silent s

  put-Answers :
      (status : ℕ) (o : Output) (s : State V S) → Silent s → Answers (ok tt, put status o s)
  put-Answers status o s k = ((o, ap (λ l. l ++ o ∷ []) k.0), k.1)

  continue-Answers :
      {A : Type 0} (r : Result A × State V S) (f : A → Effect (State V S) Done)
      → Silent r.1
      → ((a : A) (s : State V S) → Silent s → Answers (f a s))
      → Answers (continue r f)
  continue-Answers (ok a, s) f h k = k a s h
  continue-Answers (client_error code, s) f h k = h
  continue-Answers (failure, s) f h k = h

  bind-Answers :
      {A : Type 0} (m : Effect (State V S) A) (f : A → Effect (State V S) Done) (s : State V S)
      → Maintains Silent m
      → ((a : A) (s : State V S) → Silent s → Answers (f a s))
      → Silent s
      → Answers ((m >>= f) s)
  unfolding ◌>>=◌
  bind-Answers m f s km kf h = continue-Answers (m s) f (km.kept s h) kf

  module _ (e : Surroundings V S) (h : Handlers V S) where
    after_action-Silent : Maintains Silent (after_action e h)
    unfolding after_action modify keep_files send_tasks
    after_action-Silent =
        Maintains-bind _ _ (record { kept = λ s k. k })
          (λ a. Maintains-bind _ _ (on_work-Silent _) (λ b. record { kept = λ s k. k }))

    dispatch-Silent :
        (action : Text) (params : List Text) → Maintains Silent (dispatch e h action params)
    unfolding dispatch
    dispatch-Silent action params =
        Maintains-bind _ _ (on_work-Silent (h.invoke action params))
          (λ b. Maintains-bind _ _ (Maintains-when b _ after_action-Silent) (λ d. Maintains-pure b))

    run_action-Silent :
        (action : Text) (params : List Text) → Maintains Silent (run_action e h action params)
    unfolding run_action
    run_action-Silent action params =
        Maintains-bind _ _ (on_work-Silent h.pre_filter)
          (λ b. Maintains-if b _ _ (dispatch-Silent action params) (Maintains-pure false))

    answer_with-Answers :
        (dispatched : Bool) (c : Controller V) (body : Option Text) (s : State V S)
        → Silent s
        → Answers (ok tt, answer_with e h dispatched c body s)
    answer_with-Answers dispatched c none s k =
        put-Answers (default_status e h dispatched)
          (Response.write_status e.site (default_status e h dispatched) Response.new) s k
    answer_with-Answers dispatched c (some body) s k =
        put-Answers c.stat_code (body_output e h c body) s k

    conclude-Answers :
        (dispatched : Bool) (s : State V S) → Silent s → Answers (conclude e h dispatched s)
    unfolding conclude ◌>>=◌ modify zoom answer
    conclude-Answers dispatched s k =
        let c = with_charset e h s.work.controller in
        answer_with-Answers dispatched c c.body
          (record s { work = record s.work { controller = c } }) k

    run_controller-Answers :
        (req : Request) (action : Text) (params : List Text) (s : State V S)
        → Silent s
        → Answers (run_controller e h req action params s)
    unfolding run_controller
    run_controller-Answers req action params s k =
        bind-Answers _ _ s (on_work-Silent _)
          (λ a s' k'. bind-Answers _ _ s' (run_action-Silent action params) conclude-Answers k') k

-- How many answers a request gets: none where there is no controller for it, and the method is
-- not GET.
module _ {V S : Type 0} (e : Surroundings V S) (site : Site V S) where
  abbrev is_controller : Option (Handlers V S) → Bool
  is_controller none = false
  is_controller (some h) = true

  abbrev has_controller : Request → Bool
  has_controller req = is_controller (site.controllers (route_of e site req).controller)

  abbrev pub is_answered : Request → Bool
  is_answered req = too_large e site req || (has_controller req || req.method == 1)

  -- What a request adds to what is sent and to the log.
  pub record Answered (b : Bool) (s s' : State V S) : Type 0 where
    pub outputs : List Output
    pub sent : s'.sent ≡ s.sent ++ outputs
    pub count : length outputs ≡ (if b then 1 else 0)
    pub logged : s'.logged ≡ s.logged ++ s'.status ∷ []

  handle-Answered :
      (s : State V S) (r : Result Done × State V S)
      → Answers s.sent s.logged r
      → Answered true s (write_log e site (handle e site r))
  unfolding handle
  handle-Answered s (ok a, s') h = record {
    outputs = h.0.0 ∷ [];
    sent = h.0.1;
    count = refl;
    logged = ap (λ l. l ++ s'.status ∷ []) h.1;
  }
  handle-Answered s (client_error code, s') h = record {
    outputs = Response.write_status e.site code Response.new ∷ [];
    sent = ap (λ l. l ++ Response.write_status e.site code Response.new ∷ []) h.0;
    count = refl;
    logged = ap (λ l. l ++ code ∷ []) h.1;
  }
  handle-Answered s (failure, s') h = record {
    outputs = closed ∷ [];
    sent = ap (λ l. l ++ closed ∷ []) h.0;
    count = refl;
    logged = ap (λ l. l ++ 500 ∷ []) h.1;
  }

  found-Answered :
      (req : Request) (o : Option (Handlers V S)) (s : State V S)
      → Answered
          (is_controller o || req.method == 1)
          s
          (write_log e site (handle e site (run_found e site req (route_of e site req) o s)))
  unfolding modify run_public handle
  found-Answered req none s = elim (Bool-cases (req.method == 1)) [
    | inl q ↦ rw q (record {
      outputs = get_output e site req (route_of e site req) ∷ [];
      sent = refl;
      count = refl;
      logged = refl;
    })
    | inr q ↦
        rw q (record { outputs = []; sent = sym (append-nil s.sent); count = refl; logged = refl })
  ]
  found-Answered req (some h) s =
      let route = route_of e site req in
      handle-Answered s (run_controller e h req route.action route.params s)
        (run_controller-Answers s.sent s.logged e h req route.action route.params s (refl, refl))

  -- Whatever the functions of the controllers do and throw, a request is answered by just one
  -- response or by closing the socket, and it is not answered at all where there is no controller
  -- for it, its method is not GET and its body is not too large; its status is logged once.
  pub execute-Answered :
      (req : Request) (s : State V S) → Answered (is_answered req) s (execute e site req s)
  unfolding execute try_execute run_route throw
  execute-Answered req s = elim (Bool-cases (too_large e site req)) [
    | inl q ↦ rw q (handle-Answered s (client_error 413, s) (refl, refl))
    | inr q ↦ rw q (found-Answered req (site.controllers (route_of e site req).controller) s)
  ]
