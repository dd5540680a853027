-- ===== src/Modifiers.antt =====
-- The modifiers of Src/hist.c, `:h`, `:r`, `:e`, `:t`, `:u`, `:l`, `:q` and `:x` of history words and
-- parameters: `remtpath`, `remtext`, `rembutext`, `remlpaths`, `makeuppercase`, `makelowercase`,
-- `makecapitals`, `upcase`, `downcase`, `quote` and `quotebreak`.
pub mod Laws
pub mod Subst
pub mod Quotes
use winzsh.Prelude.{
  ℕ, suc, ◌+◌, List, [], ◌∷◌, ◌++◌, map, Bool, true, false, not, ◌==◌, ◌&&◌, Option, none, some,
  if◌then◌else◌,
}
use winzsh.Prelude.Lists.{update}
use winzsh.Prelude.Strings.{Str}
use winzsh.Chars.{ialnum, inblank, tulower, tuupper}

-- `strrchr`: the strings before and behind the last `c`.
unfoldable pub strrchr : ℕ → Str → Option (Str × Str)
strrchr c [] = none
strrchr c (x ∷ s) = elim (strrchr c s) [
  | some (a, b) ↦ some (x ∷ a, b)
  | none ↦ if x == c then some ([], s) else none
]

-- The result is the string and what the function returns.
unfoldable pub remtpath : Str → Str × Bool
remtpath s = elim (strrchr b'/' s) [
  | none ↦ (s, false)
  | some ([], b) ↦ (b'/' ∷ [], true)
  | some (x ∷ a, b) ↦ (x ∷ a, true)
]

unfoldable pub remtext : Str → Str × Bool
remtext s = elim (strrchr b'.' s) [
  | none ↦ (s, false)
  | some ([], b) ↦ (s, false)
  | some (x ∷ a, b) ↦ (x ∷ a, true)
]

unfoldable pub rembutext : Str → Str × Bool
rembutext s = elim (strrchr b'.' s) [
  | none ↦ (s, false)
  | some ([], b) ↦ (s, false)
  | some (x ∷ a, b) ↦ (b, true)
]

unfoldable pub remlpaths : Str → Str × Bool
remlpaths s = elim (strrchr b'/' s) [ none ↦ (s, false) | some (a, b) ↦ (b, true) ]

-- Also `upcase` and `downcase`.
unfoldable pub makeuppercase : Str → Str
makeuppercase = map tuupper

unfoldable pub makelowercase : Str → Str
makelowercase = map tulower

-- The loop of `makecapitals`; `inside` says that a letter or digit of the word has been passed.
unfoldable pub capitals : Bool → Str → Str
capitals inside [] = []
capitals false (c ∷ s) =
    let word = capitals true s in
    let gap = capitals false s in if ialnum c then tuupper c ∷ word else c ∷ gap
capitals true (c ∷ s) =
    let word = capitals true s in
    let gap = capitals false s in if ialnum c then tulower c ∷ word else c ∷ gap

unfoldable pub makecapitals : Str → Str
makecapitals s = capitals false s

abbrev pub apostrophe : ℕ
apostrophe = b'\''

abbrev pub quote_escape : Str
quote_escape = apostrophe ∷ 92 ∷ apostrophe ∷ apostrophe ∷ []

-- A blank that `quote` leaves outside its quotes, `prev` being the byte before it.
abbrev pub breaks : Bool → ℕ → ℕ → Bool
breaks inquotes prev c = inblank c && not inquotes && not (prev == 92)

-- The first loop of `quote`: what it adds to `len`, and `inquotes` at its end. The byte before the
-- string is read too; it is an argument.
unfoldable pub quote_len : ℕ → Bool → Str → ℕ × Bool
quote_len prev inquotes [] = (0, inquotes)
quote_len prev inquotes (c ∷ s) =
    let (n, q) = quote_len c (not inquotes) s in
    let (n', q') = quote_len c inquotes s in
    if c == apostrophe
    then (4 + n, q)
    else if breaks inquotes prev c
    then (3 + n', q')
    else (suc n', q')

-- The second loop.
unfoldable pub quote_copy : ℕ → Bool → Str → Str
quote_copy prev inquotes [] = []
quote_copy prev inquotes (c ∷ s) =
    let opened = quote_copy c (not inquotes) s in
    let rest = quote_copy c inquotes s in
    if c == apostrophe
    then quote_escape ++ opened
    else if breaks inquotes prev c
    then apostrophe ∷ c ∷ apostrophe ∷ rest
    else c ∷ rest

-- How many bytes `quote` allocates.
unfoldable pub quote_size : ℕ → Str → ℕ
quote_size prev s = 3 + (quote_len prev false s).0

-- What `quote` writes. The second loop goes on with `inquotes` as the first one left it.
unfoldable pub quote_text : ℕ → Str → Str
quote_text prev s = apostrophe ∷ (quote_copy prev (quote_len prev false s).1 s ++ (apostrophe ∷ []))

-- What a `char **` points into: one pointer behind the other, `none` a null pointer.
abbrev pub Pointers : Type 0
Pointers = ℕ → Option Str

-- The pointer at `tr` is set to the copy, and the one behind it, `str[1]`, to a null pointer.
-- `none`: a null pointer is followed.
unfoldable pub quote : (prev tr : ℕ) → Pointers → Option Pointers
quote prev tr ps = elim (ps tr) [
  | none ↦ none
  | some s ↦ some (update (update ps tr (some (quote_text prev s))) (tr + 1) none)
]

unfoldable pub break_len : Str → ℕ
break_len [] = 0
break_len (c ∷ s) =
    let n = break_len s in if c == apostrophe then 4 + n else if inblank c then 3 + n else suc n

unfoldable pub break_copy : Str → Str
break_copy [] = []
break_copy (c ∷ s) =
    let rest = break_copy s in
    if c == apostrophe
    then quote_escape ++ rest
    else if inblank c
    then apostrophe ∷ c ∷ apostrophe ∷ rest
    else c ∷ rest

unfoldable pub quotebreak_size : Str → ℕ
quotebreak_size s = 3 + break_len s

unfoldable pub quotebreak : Str → Str
quotebreak s = apostrophe ∷ (break_copy s ++ (apostrophe ∷ []))
