-- ===== src/Common/Texts.antt =====
-- JavaScript text. A `Text` is the list of its UTF-16 code units, for what the program walks; a
-- native `String` stands for what it only compares or shows.
use Prim.Native.Nat.{ℕ, ◌+◌, ◌-◌, ◌/◌, ◌%◌}
use Prim.Native.Char.{code}
use Prim.Native.String.{String}
use mathlib.Core.Path.{◌≡◌}
use mathlib.Core.Bool.{Bool, true, false, not, ◌&&◌}
use mathlib.Core.Logic.{◌↔◌}
use mathlib.Core.List.{List, [], ◌∷◌}
use native.Mathlib.Omega.{arith}
use text.Mathlib.Text.{◌==◌}
use infra_orch_studio.Common.Tests.{◌==◌ as num_eq, ltb, if◌then◌else◌}

abbrev pub Text : Type 0
Text = List ℕ

abbrev pub str_eq : String → String → Bool
str_eq s t = s == t

-- The UTF-16 encoding: a surrogate pair above the basic plane.
abbrev pub units : String → Text
units String.[] = []
units (String.◌∷◌ c s) =
    let rest = units s in
    if ltb (code c) 0x10000
    then code c ∷ rest
    else (0xd800 + (code c - 0x10000) / 0x400) ∷ (0xdc00 + (code c - 0x10000) % 0x400) ∷ rest

unfoldable pub text_eq : Text → Text → Bool
text_eq [] [] = true
text_eq [] (_ ∷ _) = false
text_eq (_ ∷ _) [] = false
text_eq (c ∷ s) (d ∷ t) = num_eq c d && text_eq s t

pub text_eq_iff : (s t : Text) → (text_eq s t ≡ true) ↔ (s ≡ t)
unfolding text_eq
text_eq_iff [] [] = ground arith
text_eq_iff [] (_ ∷ _) = ground arith
text_eq_iff (_ ∷ _) [] = ground arith
text_eq_iff (c ∷ s) (d ∷ t) = ground (arith, text_eq_iff s t)

-- A JavaScript text is true in a condition when it is not empty.
abbrev pub truthy : Text → Bool
truthy [] = false
truthy (_ ∷ _) = true

abbrev pub given : String → Bool
given s = not (s == "")
