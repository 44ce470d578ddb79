-- ===== src/Dispatcher.antt =====
-- src/tdispatcher.h: TDispatcher::invoke(), which chooses among the slots of an action by the number of
-- their parameters. The meta-object of Qt is a function that says which of them there are.
pub mod Choice
use tf.Base.{
  ℕ, zero, suc, ◌+◌, ◌-◌, min, Bool, true, false, List, [], ◌∷◌, Option, none, some, if◌then◌else◌,
  length, get_or,
}
use tf.Base.Text.{Text}

-- NUM_PARAMS
abbrev pub num_params : ℕ
num_params = 11

-- The loop from a number of parameters down to none.
unfoldable pub find_down : (ℕ → Bool) → ℕ → Option ℕ
find_down has_slot zero = if has_slot 0 then some 0 else none
find_down has_slot (suc i) =
    let rest = find_down has_slot i in if has_slot (suc i) then some (suc i) else rest

-- The loop from a number of parameters up, with how many numbers are left.
unfoldable pub find_up : (ℕ → Bool) → ℕ → ℕ → Option ℕ
find_up has_slot zero i = none
find_up has_slot (suc n) i =
    let rest = find_up has_slot n (i + 1) in if has_slot i then some i else rest

abbrev pub or_else : Option ℕ → Option ℕ → Option ℕ
or_else none o = o
or_else (some k) o = some k

-- The number of parameters of the slot that is invoked.
unfoldable pub find_method : (ℕ → Bool) → List Text → Option ℕ
find_method has_slot args =
    let narg = min (length args) (num_params - 1) in
    or_else (find_down has_slot narg) (find_up has_slot (num_params - 2 - narg) (narg + 1))

-- args.value(i) for each parameter, empty where there is no argument.
unfoldable pub arguments : ℕ → ℕ → List Text → List Text
arguments zero i args = []
arguments (suc n) i args = get_or args i [] ∷ arguments n (i + 1) args

-- invoke(): the arguments that the slot gets, or `none` where there is no such method.
unfoldable pub invoke : (ℕ → Bool) → List Text → Option (List Text)
invoke has_slot args = elim (find_method has_slot args) [
  | none ↦ none
  | some argcnt ↦ some (arguments argcnt 0 args)
]
