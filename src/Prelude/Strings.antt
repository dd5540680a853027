-- ===== src/Prelude/Strings.antt =====
-- C strings as lists of bytes, without the null byte, and `strcmp` as a test of equality.
use Prim.Native.Nat.{ℕ}
use mathlib.Core.Path.{◌≡◌, refl}
use mathlib.Core.Logic.{◌↔◌}
use mathlib.Core.Bool.{Bool, true, false, ◌&&◌}
use mathlib.Core.List.{List, [], ◌∷◌}
use native.Mathlib.Omega.{arith}
use winzsh.Prelude.Tests.{◌==◌}

abbrev pub Str : Type 0
Str = List ℕ

-- `!strcmp(s, t)`
unfoldable pub str_eq : Str → Str → Bool
str_eq [] [] = true
str_eq [] (y ∷ t) = false
str_eq (x ∷ s) [] = false
str_eq (x ∷ s) (y ∷ t) = x == y && str_eq s t

str_eq→eq : (s t : Str) → str_eq s t ≡ true → s ≡ t
unfolding str_eq
str_eq→eq [] [] h = refl
str_eq→eq [] (y ∷ t) h = cc
str_eq→eq (x ∷ s) [] h = cc
str_eq→eq (x ∷ s) (y ∷ t) h = ground (arith, str_eq→eq s t)

pub str_eq_refl : (s : Str) → str_eq s s ≡ true
unfolding str_eq
str_eq_refl [] = refl
str_eq_refl (x ∷ s) = ground (arith, str_eq_refl s)

pub str_eq_iff : (s t : Str) → (str_eq s t ≡ true) ↔ (s ≡ t)
str_eq_iff s t = (str_eq→eq s t, λ e. ground (arith, str_eq_refl s))
