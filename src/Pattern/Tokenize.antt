-- ===== src/Pattern/Tokenize.antt =====
-- `tokenize` of Src/glob.c, which turns a string into a pattern without the lexer.
pub mod Quoted
use winzsh.Prelude.{
  ℕ, zero, suc, ◌+◌, List, [], ◌∷◌, ◌++◌, Bool, true, false, not, ◌==◌, ◌&&◌, ◌||◌, Option, none,
  some, if◌then◌else◌,
}
use winzsh.Prelude.Lists.{length}
use winzsh.Prelude.Runs.{Run, ran, stuck, unfinished, and_then}
use winzsh.Prelude.Strings.{Str}
use winzsh.Chars.{idigit}
use winzsh.Pattern.{pound, inbrack, outbrack, inang, outang, bnull, ztokens, Options}
use winzsh.Pattern.Scan.{skip_digits}

-- Bytes before the result. `stuck`: the source goes on behind the end of the string.
abbrev pub prepend : Str → Run Str → Run Str
prepend a r = and_then r λ s. ran (a ++ s)

-- `s[-1]` where `bslash` is set: the byte is written when it is known whether it becomes `Bnull`.
abbrev pub held_byte : Option ℕ → Str
held_byte none = []
held_byte (some c) = c ∷ []

abbrev pub is_held : Option ℕ → Bool
is_held none = false
is_held (some c) = true

-- The bytes before the first `]`, and those behind it.
unfoldable pub until_bracket : Str → Option (Str × Str)
until_bracket [] = none
until_bracket (c ∷ s) =
    let rest = until_bracket s in
    if c == b']' then some ([], s) else elim rest [ none ↦ none | some (a, b) ↦ some (c ∷ a, b) ]

-- Behind `[`: the first byte, and a `^` or `!` before it, are not looked at.
abbrev pub one_in : Str → Option (Str × Str)
one_in [] = none
one_in (c ∷ s) = elim (until_bracket s) [ none ↦ none | some (a, b) ↦ some (c ∷ a, b) ]

abbrev pub in_brackets : Str → Option (Str × Str)
in_brackets [] = none
in_brackets (c ∷ s) =
    if c == b'^' || c == b'!'
    then elim (one_in s) [ none ↦ none | some (a, b) ↦ some (c ∷ a, b) ]
    else one_in (c ∷ s)

unfoldable pub take_digits : Str → Str
take_digits [] = []
take_digits (c ∷ s) = let rest = take_digits s in if idigit c then c ∷ rest else []

-- `t - ztokens`, where the byte is found.
unfoldable pub index_in : Str → ℕ → ℕ
index_in [] c = 0
index_in (x ∷ t) c = if x == c then 0 else 1 + index_in t c

-- `(`, `|` and `)`.
abbrev pub is_group : ℕ → Bool
is_group c = c == b'(' || c == b'|' || c == b')'

abbrev pub is_operator : ℕ → Bool
is_operator c = c == b'^' || c == b'#' || c == b'~' || c == b'*' || c == b'?'

-- `[`, which is not quoted: without its `]` nothing more is changed.
unfoldable pub bracket_case : (Str → Run Str) → Str → Run Str
bracket_case again s = elim (in_brackets s) [
  | none ↦ ran (b'[' ∷ s)
  | some (a, b) ↦ prepend (inbrack ∷ a ++ (outbrack ∷ [])) (again b)
]

-- The second number of `<...>`, behind `-`; `a` are the bytes from behind `<` to there.
unfoldable pub upper_case : (Str → Run Str) → (a s : Str) → Run Str
upper_case again a s =
    let bytes = a ++ take_digits s in
    elim (skip_digits s) [
      | [] ↦ stuck
      | c ∷ rest ↦
          if c == b'>'
          then prepend (inang ∷ bytes ++ (outang ∷ [])) (again rest)
          else prepend (b'<' ∷ bytes) (again (c ∷ rest))
    ]

-- `<`, which is not quoted. `goto cont` looks at the byte that is there, be it the null byte.
unfoldable pub angle_case : (Str → Run Str) → Str → Run Str
angle_case again s = elim (skip_digits s) [
  | [] ↦ stuck
  | c ∷ rest ↦
      if c == b'-'
      then upper_case again (take_digits s ++ (b'-' ∷ [])) rest
      else prepend (b'<' ∷ take_digits s) (again (c ∷ rest))
]

-- One round, at the byte `c`; `again` is the loop from a later place on.
unfoldable pub tokenize_step : Options → (Option ℕ → Str → Run Str) → Option ℕ → ℕ → Str → Run Str
tokenize_step o again held c s =
    let kept = prepend (held_byte held ++ (c ∷ [])) (again none s) in
    let quoted = prepend (bnull ∷ c ∷ []) (again none s) in
    if c == bnull || c == b'\\'
    then (if is_held held then quoted else again (some c) s)
    else if c == b'['
    then (if is_held held then quoted else bracket_case (again none) s)
    else if c == b'<'
    then (if o.shglob then kept else if is_held held then quoted else angle_case (again none) s)
    else if is_group c && not o.shglob || is_operator c
    then (if is_held held
        then quoted
        else prepend ((pound + index_in ztokens c) ∷ []) (again none s))
    else kept

-- Every round takes a byte.
unfoldable pub tokenize_loop : Options → ℕ → Option ℕ → Str → Run Str
tokenize_loop o zero held s = unfinished
tokenize_loop o (suc fuel) held [] = ran (held_byte held)
tokenize_loop o (suc fuel) held (c ∷ s) = tokenize_step o (tokenize_loop o fuel) held c s

unfoldable pub tokenize : Options → Str → Run Str
tokenize o s = tokenize_loop o (suc (length s)) none s
