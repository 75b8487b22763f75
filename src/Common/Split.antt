-- ===== src/Common/Split.antt =====
-- Python's `str.split(sep)`, `sep.join(parts)` and `str.partition(sep)` for a separator of one
-- character, and that they undo one another.
use mathlib.Core.Path.{◌≡◌, refl, ap}
use mathlib.Core.Bool.{Bool, true, false}
use mathlib.Core.List.{List, [], ◌∷◌, ◌++◌}
use native.Mathlib.Omega.{arith}
use Prim.Native.Nat.{ℕ}
use nsysu_crs.Common.Tests.{◌==◌, if◌then◌else◌}
use nsysu_crs.Common.Lists.{All}
use nsysu_crs.Common.Characters.{Text, contains}

abbrev onto_first : ℕ → List Text → List Text
onto_first c [] = (c ∷ []) ∷ []
onto_first c (w ∷ ws) = (c ∷ w) ∷ ws

unfoldable pub split_on : ℕ → Text → List Text
split_on sep [] = [] ∷ []
split_on sep (c ∷ t) =
    let rest = split_on sep t in if c == sep then [] ∷ rest else onto_first c rest

unfoldable pub join : ℕ → List Text → Text
join sep [] = []
join sep (w ∷ []) = w
join sep (w ∷ v ∷ vs) = w ++ (sep ∷ join sep (v ∷ vs))

-- What stands before the separator, whether there is one, and what stands behind it.
unfoldable pub partition : ℕ → Text → Text × Bool × Text
partition sep [] = ([], false, [])
partition sep (c ∷ t) =
    let (before, found, after) = partition sep t in
    if c == sep then ([], true, t) else (c ∷ before, found, after)

pub contains-append :
    (c : ℕ) (x y : Text) → contains c x ≡ false → contains c y ≡ false → contains c (x ++ y) ≡ false
unfolding contains
contains-append c [] y h k = k
contains-append c (d ∷ x) y h k = ground (arith, contains-append c x y)

module _ (sep : ℕ) where
  abbrev pub IsFree : Text → Type 0
  IsFree w = contains sep w ≡ false

  split_free : (w : Text) → IsFree w → split_on sep w ≡ w ∷ []
  unfolding split_on contains
  split_free [] h = refl
  split_free (c ∷ w) h = ground (arith, split_free w)

  split_first : (w t : Text) → IsFree w → split_on sep (w ++ (sep ∷ t)) ≡ w ∷ split_on sep t
  unfolding split_on contains
  split_first [] t h = ground arith
  split_first (c ∷ w) t h = ground (arith, split_first w t)

  -- A list of texts without the separator is got back from its join.
  pub split-join :
      (w : Text) (ws : List Text)
      → IsFree w
      → All IsFree ws
      → split_on sep (join sep (w ∷ ws)) ≡ w ∷ ws
  unfolding join
  split-join w [] h hs = split_free w h
  split-join w (v ∷ vs) h hs =
      rw (split_first w (join sep (v ∷ vs)) h) (ap (◌∷◌ w) (split-join v vs hs.0 hs.1))

  pub partition_first : (w t : Text) → IsFree w → partition sep (w ++ (sep ∷ t)) ≡ (w, true, t)
  unfolding partition contains
  partition_first [] t h = ground arith
  partition_first (c ∷ w) t h = ground (arith, partition_first w t)
