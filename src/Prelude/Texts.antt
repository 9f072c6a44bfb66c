-- ===== src/Prelude/Texts.antt =====
-- Texts cut at the first character of a given number: strings.SplitN with a separator of one
-- character and two parts.
use Prim.Native.Nat.{ℕ}
use Prim.Native.Char.{code}
use Prim.Native.String.{String, [], ◌∷◌, ◌++◌}
use mathlib.Core.Path.{◌≡◌, ap, ◌∙◌}
use mathlib.Core.Bool.{Bool, false, ◌||◌}
use mathlib.Core.Option.{Option, none, some}
use native.Mathlib.Omega.{arith}
use text.Mathlib.TextLemmas.{nil-append, cons-append}
use stone_server.Prelude.Tests.{◌==◌, if◌then◌else◌}

-- `none` is a text without the separator.
unfoldable pub split_once : ℕ → String → Option (String × String)
split_once sep [] = none
split_once sep (c ∷ s) =
    let rest = split_once sep s in
    if code c == sep
    then some ([], s)
    else elim rest [ none ↦ none | some (before, after) ↦ some (c ∷ before, after) ]

unfoldable pub has_char : ℕ → String → Bool
has_char sep [] = false
has_char sep (c ∷ s) = code c == sep || has_char sep s

-- A text is cut where the separator first stands.
pub split_once-append :
    (sep : ℕ) (s t u : String)
    → has_char sep s ≡ false
    → split_once sep t ≡ some ([], u)
    → split_once sep (s ++ t) ≡ some (s, u)
unfolding split_once has_char
split_once-append sep [] t u h e = ap (split_once sep) (nil-append t) ∙ e
split_once-append sep (c ∷ s) t u h e =
    let ih = split_once-append sep s t u in rw (cons-append c s t) (ground (arith, h, ih, e))
