-- ===== src/Base/Text.antt =====
-- Python's text as its code points, with `str.strip` and the reasons' and questions' lengths.
use Prim.Native.Nat.{ℕ}
use mathlib.Core.Path.{◌≡◌, refl}
use mathlib.Core.Bool.{Bool, true, false, ◌&&◌, ◌||◌}
use mathlib.Core.List.{List, [], ◌∷◌, reverse}
use mathlib.Core.Option.{Option, none, some}
use native.Mathlib.Omega.{arith}
use cs.Base.Tests.{ltb, leb, ◌==◌, if◌then◌else◌}

abbrev pub Text : Type 0
Text = List ℕ

-- The code points that `str.isspace` accepts, which `str.strip` takes off both ends.
unfoldable pub is_space : ℕ → Bool
is_space c =
    (leb 9 c && leb c 13)
    || (leb 28 c && leb c 32)
    || (c == 133)
    || (c == 160)
    || (c == 5760)
    || (leb 8192 c && leb c 8202)
    || (c == 8232)
    || (c == 8233)
    || (c == 8239)
    || (c == 8287)
    || (c == 12288)

unfoldable pub strip_left : Text → Text
unfolding is_space
strip_left [] = []
strip_left (c ∷ cs) = if is_space c then strip_left cs else c ∷ cs

unfoldable pub strip : Text → Text
unfolding strip_left
strip t = reverse (strip_left (reverse (strip_left t)))

-- `not text`
abbrev pub is_empty : Text → Bool
is_empty [] = true
is_empty (c ∷ cs) = false

-- `value or ""`
abbrev pub or_empty : Option Text → Text
or_empty none = []
or_empty (some t) = t

unfoldable pub text_eq : Text → Text → Bool
text_eq [] [] = true
text_eq [] (d ∷ ds) = false
text_eq (c ∷ cs) [] = false
text_eq (c ∷ cs) (d ∷ ds) = (c == d) && text_eq cs ds

pub strip_example : strip (32 ∷ 10 ∷ 104 ∷ 32 ∷ 105 ∷ 9 ∷ []) ≡ 104 ∷ 32 ∷ 105 ∷ []
unfolding strip
strip_example = refl

-- `t <= u`, by code points
unfoldable pub leb_text : Text → Text → Bool
leb_text [] u = true
leb_text (c ∷ cs) [] = false
leb_text (c ∷ cs) (d ∷ ds) = ltb c d || ((c == d) && leb_text cs ds)

pub text_eq→eq : (t u : Text) → text_eq t u ≡ true → t ≡ u
unfolding text_eq
text_eq→eq [] [] h = refl
text_eq→eq [] (d ∷ ds) h = absurd cc
text_eq→eq (c ∷ cs) [] h = absurd cc
text_eq→eq (c ∷ cs) (d ∷ ds) h = ground (arith, text_eq→eq cs ds)

pub text_eq_refl : (t : Text) → text_eq t t ≡ true
unfolding text_eq
text_eq_refl [] = refl
text_eq_refl (c ∷ cs) = ground (arith, text_eq_refl cs)
