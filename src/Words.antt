-- ===== src/Words.antt =====
-- Splitting and joining with a separator that is given, Src/utils.c `findsep`, `wordcount`,
-- `sepsplit` and `sepjoin`.
pub mod RoundTrip
use winzsh.Prelude.{
  ℕ, zero, suc, ◌+◌, List, [], ◌∷◌, ◌++◌, Bool, true, false, not, ◌==◌, ◌&&◌, ◌||◌, Option, none,
  some, if◌then◌else◌,
}
use winzsh.Prelude.Lists.{length, drop}
use winzsh.Prelude.Runs.{Run, ran, stuck, unfinished, and_then}
use winzsh.Prelude.Strings.{Str}
use winzsh.Chars.{meta}

-- What `findsep` returns, `none` for -1, the bytes that it passes, and the string where it stops.
abbrev pub Sep : Type 0
Sep = Option ℕ × Str × Str

abbrev pub passing : Str → Run Sep → Run Sep
passing a r = and_then r λ (i, before, s). ran (i, a ++ before, s)

-- The string begins with the separator.
unfoldable pub begins : (sep s : Str) → Bool
begins [] s = true
begins (c ∷ sep) [] = false
begins (c ∷ sep) (x ∷ s) = let rest = begins sep s in x == c && rest

-- The loop over characters. Behind a `Meta` at the end the source goes on behind the string.
unfoldable pub findsep_loop : (i : ℕ) (sep s : Str) → Run Sep
findsep_loop i sep [] = ran (none, [], [])
findsep_loop i sep (c ∷ []) =
    if begins sep (c ∷ [])
    then ran (some i, [], c ∷ [])
    else if c == meta
    then stuck
    else ran (none, c ∷ [], [])
findsep_loop i sep (c ∷ d ∷ s) =
    let two = findsep_loop (i + 1) sep s in
    let one = findsep_loop (i + 1) sep (d ∷ s) in
    if begins sep (c ∷ d ∷ s)
    then ran (some i, [], c ∷ d ∷ s)
    else if c == meta
    then passing (c ∷ d ∷ []) two
    else passing (c ∷ []) one

-- An empty separator stands behind every character.
unfoldable pub findsep : (sep s : Str) → Run Sep
findsep [] [] = ran (none, [], [])
findsep [] (c ∷ []) = if c == meta then stuck else ran (some 1, c ∷ [], [])
findsep [] (c ∷ d ∷ s) =
    if c == meta then ran (some 1, c ∷ d ∷ [], s) else ran (some 1, c ∷ [], d ∷ s)
findsep (c ∷ sep) s = findsep_loop 0 (c ∷ sep) s

abbrev is_end : Str → Bool
is_end [] = true
is_end (c ∷ s) = false

-- The loop of `wordcount`; `mul` is whether that is not 0.
unfoldable pub wordcount_loop : ℕ → (r : ℕ) (sep : Str) (mul : Bool) (s : Str) → Run ℕ
wordcount_loop zero r sep mul s = unfinished
wordcount_loop (suc fuel) r sep mul s = and_then (findsep sep s) λ (c, before, at). elim c [
  | none ↦ ran r
  | some i ↦
      let after = drop (length sep) at in
      wordcount_loop fuel (if not (i == 0) && not (is_end after) || mul then r + 1 else r) sep mul
        after
]

unfoldable pub wordcount : (s sep : Str) (mul : Bool) → Run ℕ
wordcount s sep mul = wordcount_loop (suc (length s)) 1 sep mul s

-- `for (t = s; n--;)`
unfoldable pub sepsplit_loop : (n : ℕ) (sep t : Str) → Run (List Str)
sepsplit_loop zero sep t = ran []
sepsplit_loop (suc n) sep t = and_then (findsep sep t) λ (c, before, at).
    and_then (sepsplit_loop n sep (drop (length sep) at)) λ words. ran (before ∷ words)

unfoldable pub sepsplit : (s sep : Str) → Run (List Str)
sepsplit s sep = and_then (wordcount s sep true) λ n. sepsplit_loop n sep s

unfoldable pub sepjoin : (words : List Str) (sep : Str) → Str
sepjoin [] sep = []
sepjoin (w ∷ []) sep = w
sepjoin (w ∷ v ∷ words) sep = w ++ (sep ++ sepjoin (v ∷ words) sep)
