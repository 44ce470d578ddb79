-- ===== src/Base/Text.antt =====
-- Texts and byte arrays are lists of code units. The functions carry out what the documentation
-- of QString and QByteArray says of the methods of the same names.
use Prim.Native.Nat.{ℕ, suc}
use Prim.Native.Char.{code}
use Prim.Native.String.{String}
use mathlib.Core.Path.{◌≡◌, refl}
use mathlib.Core.Logic.{◌↔◌}
use mathlib.Core.Bool.{Bool, true, false, ◌&&◌, ◌||◌}
use mathlib.Core.Option
use mathlib.Core.Option.{Option, none, some}
use mathlib.Core.List.{List, [], ◌∷◌, ◌++◌, reverse}
use native.Mathlib.Omega.{arith}
use tf.Base.Tests.{◌==◌, if◌then◌else◌}
use tf.Base.Lists.{take, drop}

abbrev pub Text : Type 0
Text = List ℕ

-- The code units of a literal of the source.
abbrev pub codes : String → Text
codes String.[] = []
codes (String.◌∷◌ c s) = code c ∷ codes s

-- operator== on texts.
unfoldable pub eq : Text → Text → Bool
eq [] [] = true
eq [] (b ∷ bs) = false
eq (a ∷ as') [] = false
eq (a ∷ as') (b ∷ bs) = a == b && eq as' bs

pub eq_refl : (s : Text) → eq s s ≡ true
unfolding eq
eq_refl [] = refl
eq_refl (c ∷ s) = ground (arith, eq_refl s)

pub eq_sound : (s t : Text) → eq s t ≡ true → s ≡ t
unfolding eq
eq_sound [] [] h = refl
eq_sound [] (b ∷ bs) h = cc
eq_sound (a ∷ s) [] h = cc
eq_sound (a ∷ s) (b ∷ t) h = ground (arith, eq_sound s t)

pub eq_iff : (s t : Text) → (eq s t ≡ true) ↔ (s ≡ t)
eq_iff s t = (eq_sound s t, λ e. rw e (eq_refl t))

abbrev pub is_empty : Text → Bool
is_empty [] = true
is_empty (c ∷ s) = false

unfoldable pub starts_with : Text → Text → Bool
starts_with s [] = true
starts_with [] (p ∷ ps) = false
starts_with (c ∷ s) (p ∷ ps) = c == p && starts_with s ps

unfoldable pub ends_with : Text → Text → Bool
unfolding starts_with
ends_with s p = starts_with (reverse s) (reverse p)

unfoldable pub contains : Text → Text → Bool
unfolding starts_with
contains [] p = is_empty p
contains (c ∷ s) p = starts_with (c ∷ s) p || contains s p

-- mid(pos, len).
abbrev pub mid : Text → ℕ → ℕ → Text
mid s pos len = take len (drop pos s)

-- The text up to the first separator, and what follows it if there is one.
unfoldable pub split_at : ℕ → Text → Text × Option Text
split_at sep [] = ([], none)
split_at sep (c ∷ s) =
    if c == sep then ([], some s) else let (a, rest) = split_at sep s in (c ∷ a, rest)

abbrev pub on_head : ℕ → List Text → List Text
on_head c [] = (c ∷ []) ∷ []
on_head c (p ∷ ps) = (c ∷ p) ∷ ps

-- split(sep), keeping empty parts: there is always one part more than separators.
unfoldable pub split : ℕ → Text → List Text
split sep [] = [] ∷ []
split sep (c ∷ s) = if c == sep then [] ∷ split sep s else on_head c (split sep s)

unfoldable pub join : Text → List Text → Text
join sep [] = []
join sep (p ∷ []) = p
join sep (p ∷ q ∷ ps) = p ++ (sep ++ join sep (q ∷ ps))

-- The position of the first occurrence of a byte.
unfoldable pub index_of : ℕ → Text → Option ℕ
index_of c [] = none
index_of c (d ∷ s) = if d == c then some 0 else Option.map suc (index_of c s)

-- The position of the first occurrence of a text.
unfoldable pub index_of_text : Text → Text → Option ℕ
index_of_text p [] = if is_empty p then some 0 else none
index_of_text p (c ∷ s) =
    if starts_with (c ∷ s) p then some 0 else Option.map suc (index_of_text p s)
