-- ===== src/Common/Characters.antt =====
-- Python's `str` as the list of its code points: equality, the order of `<`, `split`, `join` and
-- `partition`.
use Prim.Native.Nat.{ℕ}
use Prim.Native.Char.{code}
use Prim.Native.String.{String}
use mathlib.Core.Path.{◌≡◌, refl}
use mathlib.Core.Logic.{◌↔◌}
use mathlib.Core.Bool.{Bool, true, false, ◌&&◌, ◌||◌}
use mathlib.Core.List.{List, [], ◌∷◌}
use native.Mathlib.Omega.{arith}
use nsysu_crs.Common.Tests.{ltb, ◌==◌}
use nsysu_crs.Common.Lists.{any}

abbrev pub Text : Type 0
Text = List ℕ

abbrev pub codes : String → Text
codes String.[] = []
codes (String.◌∷◌ c s) = code c ∷ codes s

-- `a == b` on strings.
unfoldable pub text_eq : Text → Text → Bool
text_eq [] [] = true
text_eq (a ∷ x) (b ∷ y) = a == b && text_eq x y
text_eq _ _ = false

-- `a < b` on strings, and on tuples that begin with a number.
unfoldable pub text_lt : Text → Text → Bool
text_lt [] [] = false
text_lt [] (b ∷ y) = true
text_lt (a ∷ x) [] = false
text_lt (a ∷ x) (b ∷ y) = ltb a b || (a == b && text_lt x y)

pub text_eq_refl : (x : Text) → text_eq x x ≡ true
unfolding text_eq
text_eq_refl [] = refl
text_eq_refl (a ∷ x) = ground (arith, text_eq_refl x)

eq_of_text_eq : (x y : Text) → text_eq x y ≡ true → x ≡ y
unfolding text_eq
eq_of_text_eq [] [] h = refl
eq_of_text_eq [] (b ∷ y) h = cc
eq_of_text_eq (a ∷ x) [] h = cc
eq_of_text_eq (a ∷ x) (b ∷ y) h = ground (arith, eq_of_text_eq x y)

pub text_eq_iff : (x y : Text) → (text_eq x y ≡ true) ↔ (x ≡ y)
text_eq_iff x y = (eq_of_text_eq x y, λ e. rw e (text_eq_refl y))

pub text_lt_irrefl : (x : Text) → text_lt x x ≡ false
unfolding text_lt
text_lt_irrefl [] = refl
text_lt_irrefl (a ∷ x) = ground (arith, text_lt_irrefl x)

pub text_lt_trans : (x y z : Text) → text_lt x y ≡ true → text_lt y z ≡ true → text_lt x z ≡ true
unfolding text_lt
text_lt_trans [] [] z h k = cc
text_lt_trans [] (b ∷ y) [] h k = cc
text_lt_trans [] (b ∷ y) (c ∷ z) h k = refl
text_lt_trans (a ∷ x) [] z h k = cc
text_lt_trans (a ∷ x) (b ∷ y) [] h k = cc
text_lt_trans (a ∷ x) (b ∷ y) (c ∷ z) h k = ground (arith, text_lt_trans x y z)

pub text_lt_total : (x y : Text) → text_lt x y ≡ false → text_lt y x ≡ false → x ≡ y
unfolding text_lt
text_lt_total [] [] h k = refl
text_lt_total [] (b ∷ y) h k = cc
text_lt_total (a ∷ x) [] h k = cc
text_lt_total (a ∷ x) (b ∷ y) h k = ground (arith, text_lt_total x y)

unfoldable pub contains : ℕ → Text → Bool
contains c t = any (λ d. c == d) t
