-- ===== src/Session.antt =====
-- src/tsession.h, src/tsession.cpp and src/tsessionmanager.cpp: the values of a session, and the
-- session manager over a store of sessions, which is one of several classes behind an interface.
pub mod Cookie
pub mod Generating
use tf.Base.{
  ℕ, zero, suc, ◌+◌, ◌-◌, Bool, true, false, not, ◌&&◌, List, [], ◌∷◌, ◌≡◌, Option, none, some,
  if◌then◌else◌, ◌==◌, ltb,
}
use tf.Base.Text.{Text, eq, is_empty}

-- A QVariantMap, whose order plays no part here.
module _ {V : Type 0} where
  unfoldable pub insert : Text → V → List (Text × V) → List (Text × V)
  insert key v [] = (key, v) ∷ []
  insert key v ((k, w) ∷ rest) = if eq k key then (key, v) ∷ rest else (k, w) ∷ insert key v rest

  unfoldable pub value : Text → List (Text × V) → Option V
  value key [] = none
  value key ((k, v) ∷ rest) = if eq k key then some v else value key rest

  unfoldable pub remove : Text → List (Text × V) → List (Text × V)
  remove key [] = []
  remove key ((k, v) ∷ rest) = if eq k key then rest else (k, v) ∷ remove key rest

-- class TSession
pub record Session (V : Type 0) : Type 0 where
  pub id : Text
  pub vars : List (Text × V)

abbrev pub new : {V : Type 0} → Text → Session V
new id = record { id = id; vars = [] }

-- isEmpty() of QVariantMap
abbrev pub has_no_vars : {V : Type 0} → Session V → Bool
has_no_vars s = elim s.vars [ [] ↦ true | _ ∷ _ ↦ false ]

-- class TSessionStore: the functions of a store, which act on what all requests share. store() can
-- change the session.
pub record Store (V S : Type 0) : Type 0 where
  pub find : Text → S → Session V × S
  pub store : Session V → S → Bool × Session V × S
  pub remove_id : Text → S → Bool × S
  pub gc : ℕ → S → S

-- generateId() can throw an exception.
pub data Generated (S : Type 0) : Type 0 where
  generated : Text → S → ℕ → Generated S
  thrown : S → ℕ → Generated S

-- The store that the settings name, if there is one.
module _ {V S : Type 0} (factory : Option (Store V S)) where
  -- findSession(id)
  unfoldable pub find_session : Text → S → Session V × S
  find_session id s =
      if is_empty id
      then (new [], s)
      else elim factory [ none ↦ (new [], s) | some st ↦ st.find id s ]

  -- store(session)
  unfoldable pub store : Session V → S → Bool × Session V × S
  store session s =
      if is_empty session.id
      then (false, session, s)
      else elim factory [ none ↦ (false, session, s) | some st ↦ st.store session s ]

  -- remove(id)
  unfoldable pub remove_session : Text → S → Bool × S
  remove_session id s =
      if is_empty id
      then (false, s)
      else elim factory [ none ↦ (false, s) | some st ↦ st.remove_id id s ]

  -- collectGarbage(), with Tf::random() and the current time: a life time is counted back.
  unfoldable pub collect_garbage : ℕ → ℕ → ℕ → ℕ → S → S
  collect_garbage prob random now gc_lifetime s =
      if ltb 0 prob && random == 0
      then elim factory [ none ↦ s | some st ↦ st.gc (now - gc_lifetime) s ]
      else s

-- createHash() by the number of the call.
module _ {V S : Type 0} (factory : Option (Store V S)) (create_hash : ℕ → Text) where
  -- The loop of generateId() with a number of rounds left and the number of calls of createHash().
  unfoldable pub generate_rounds : ℕ → ℕ → S → Generated S
  generate_rounds zero seq s = thrown s seq
  generate_rounds (suc n) seq s =
      let id = create_hash (suc seq) in
      let found = find_session factory id s in
      let rest = generate_rounds n (suc seq) found.1 in
      if has_no_vars found.0 then generated id found.1 (suc seq) else rest

  unfoldable pub generate_id : ℕ → S → Generated S
  unfolding generate_rounds
  generate_id = generate_rounds 3
