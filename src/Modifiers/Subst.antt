-- ===== src/Modifiers/Subst.antt =====
-- The modifiers that replace a string, `subst` and `convamps` of Src/hist.c.
pub mod Laws
use winzsh.Prelude.{
  ℕ, zero, suc, List, [], ◌∷◌, ◌++◌, Bool, true, false, ◌==◌, Option, none, some, if◌then◌else◌,
}
use winzsh.Prelude.Lists.{length}
use winzsh.Prelude.Runs.{Run, ran, stuck, unfinished, and_then}
use winzsh.Prelude.Strings.{Str}

abbrev pub prepend : Str → Run Str → Run Str
prepend a r = and_then r λ s. ran (a ++ s)

-- What stands behind `inn`, where the string begins with it.
unfoldable pub strip : (inn s : Str) → Option Str
strip [] s = some s
strip (c ∷ inn) [] = none
strip (c ∷ inn) (x ∷ s) = let rest = strip inn s in if x == c then rest else none

-- The string from the byte `c` on, by what `strip` gives there and by the first place behind it.
abbrev pub or_later : ℕ → Option Str → Option (Str × Str) → Option (Str × Str)
or_later c (some b) later = some ([], b)
or_later c none none = none
or_later c none (some (a, b)) = some (c ∷ a, b)

-- The bytes before the first place of `inn`, and those behind it.
unfoldable pub strstr : (s inn : Str) → Option (Str × Str)
strstr [] inn = or_later 0 (strip inn []) none
strstr (c ∷ s) inn = or_later c (strip inn (c ∷ s)) (strstr s inn)

-- Behind a backslash at its end the source goes on behind the string.
unfoldable pub convamps : (out inn : Str) → Run Str
convamps [] inn = ran []
convamps (c ∷ []) inn =
    if c == b'\\' then stuck else prepend (if c == b'&' then inn else c ∷ []) (ran [])
convamps (c ∷ d ∷ out) inn =
    let quoted = convamps out inn in
    let onward = convamps (d ∷ out) inn in
    if c == b'\\'
    then prepend (d ∷ []) quoted
    else prepend (if c == b'&' then inn else c ∷ []) onward

-- The rounds of `do ... while` after the first one, on the bytes behind what was put in.
unfoldable pub subst_loop : ℕ → (sptr inn s : Str) → Run Str
subst_loop zero sptr inn s = unfinished
subst_loop (suc fuel) sptr inn s = elim (strstr s inn) [
  | none ↦ ran s
  | some (a, b) ↦ prepend (a ++ sptr) (subst_loop fuel sptr inn b)
]

unfoldable pub subst_in : (str inn out : Str) → Bool → Run Str
subst_in str inn out gbal = elim (strstr str inn) [
  | none ↦ ran str
  | some (a, b) ↦
      and_then (convamps out inn)
        λ sptr. prepend (a ++ sptr) (if gbal then subst_loop (suc (length b)) sptr inn b else ran b)
]

-- An empty `inn` stands for the whole string.
unfoldable pub subst : (str inn out : Str) → Bool → Run Str
subst str [] out gbal = subst_in str str out false
subst str (c ∷ inn) out gbal = subst_in str (c ∷ inn) out gbal
