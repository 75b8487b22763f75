-- ===== src/Common/Search.antt =====
-- Python's `in`, `find` and slices on texts, and the pieces of the regular expressions that the
-- program searches with.
use Prim.Native.Nat.{ℕ, ◌+◌}
use mathlib.Core.Bool.{Bool, true, false, ◌&&◌}
use mathlib.Core.Option.{Option, none, some}
use mathlib.Core.List.{[], ◌∷◌}
use nsysu_crs.Common.Tests.{leb, ◌==◌, if◌then◌else◌}
use nsysu_crs.Common.Characters.{Text}

-- What follows the prefix, if the text begins with it; `same` compares characters.
abbrev prefix_by : (ℕ → ℕ → Bool) → Text → Text → Option Text
prefix_by same [] t = some t
prefix_by same (p ∷ ps) [] = none
prefix_by same (p ∷ ps) (c ∷ t) = let rest = prefix_by same ps t in if same p c then rest else none

abbrev same_code : ℕ → ℕ → Bool
same_code a b = a == b

abbrev pub to_lower : ℕ → ℕ
to_lower c = if leb b'A' c && leb c b'Z' then c + 32 else c

abbrev same_letter : ℕ → ℕ → Bool
same_letter a b = to_lower a == to_lower b

unfoldable pub after_prefix : Text → Text → Option Text
after_prefix p t = prefix_by same_code p t

-- The same, in either case of the ASCII letters.
unfoldable pub after_prefix_ci : Text → Text → Option Text
after_prefix_ci p t = prefix_by same_letter p t

-- The text from the first occurrence on: `t[t.find(p):]`.
unfoldable pub from_first : Text → Text → Option Text
unfolding after_prefix
from_first p [] = elim (after_prefix p []) [ none ↦ none | some r ↦ some [] ]
from_first p (c ∷ t) =
    let later = from_first p t in
    elim (after_prefix p (c ∷ t)) [ none ↦ later | some r ↦ some (c ∷ t) ]

-- `p in t`
unfoldable pub occurs : Text → Text → Bool
occurs p t = elim (from_first p t) [ none ↦ false | some r ↦ true ]

-- What stands before the first `>`, and what stands behind it.
unfoldable pub to_bracket : Text → Option (Text × Text)
to_bracket [] = none
to_bracket (c ∷ t) =
    let rest = to_bracket t in
    if c == b'>'
    then some ([], t)
    else elim rest [ none ↦ none | some (before, after) ↦ some (c ∷ before, after) ]

abbrev pub ascii_digit : ℕ → Bool
ascii_digit c = leb b'0' c && leb c b'9'

-- The longest prefix whose characters pass, and the rest.
unfoldable pub span : (ℕ → Bool) → Text → Text × Text
span test [] = ([], [])
span test (c ∷ t) =
    let (inside, rest) = span test t in if test c then (c ∷ inside, rest) else ([], c ∷ t)
