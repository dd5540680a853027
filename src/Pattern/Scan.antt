-- ===== src/Pattern/Scan.antt =====
-- The loop of `doesmatch` of Src/glob.c over the bytes of one piece of a pattern, which calls
-- nothing but itself.
use winzsh.Prelude.{
  ℕ, zero, suc, ◌+◌, ◌-◌, ◌/◌, [], ◌∷◌, Bool, true, false, not, ltb, leb, ◌==◌, ◌&&◌, ◌||◌, Option,
  none, some, if◌then◌else◌,
}
use winzsh.Prelude.Int.{pos}
use winzsh.Prelude.Lists.{length}
use winzsh.Prelude.Strings.{Str}
use winzsh.Chars.{idigit, meta}
use winzsh.Meta.{flip}
use winzsh.Number.{zstrtol}
use winzsh.Pattern.{
  hat, star, inbrack, outbrack, inang, outang, quest, untok, Options, Place, place, next_char,
}

abbrev pub is_end : Str → Bool
is_end [] = true
is_end _ = false

abbrev digit_ahead : Str → Bool
digit_ahead [] = false
digit_ahead (c ∷ s) = idigit c

-- How the loop ends: the piece fails there, it has matched and the string goes on, `Star` has
-- taken the rest, `Hat` wants the following pattern to fail, or the source reads where it may not.
pub data Scan : Type 0 where
  fails : Place → Scan
  passes : Place → Scan
  succeeds : Place → Scan
  negates : Place → Scan
  goes_astray : Scan

abbrev head_is : Str → ℕ → Bool
head_is [] c = false
head_is (x ∷ s) c = x == c

-- `PAT(0)`
abbrev pat_char : Str → ℕ
pat_char [] = 0
pat_char (c ∷ []) = if c == meta then 32 else untok c
pat_char (c ∷ d ∷ s) = if c == meta then flip d else untok c

-- `PPAT(-1)`, the bytes before the place being `before` and `prev`.
abbrev prev_char : ℕ → ℕ → ℕ
prev_char before prev = if before == meta then flip prev else untok prev

-- The loops over the bytes of `[...]`: `none` if they find the end, or where they stop because
-- `ch` is in the group; `start` is the byte before the first one.
unfoldable pub in_group : (start before prev ch : ℕ) → Str → Option Str
in_group start before prev ch [] = none
in_group start before prev ch (c ∷ []) =
    if c == outbrack || c == b'-' && not (prev == start)
    then none
    else if ch == pat_char (c ∷ [])
    then some (c ∷ [])
    else none
in_group start before prev ch (c ∷ d ∷ s) =
    let after_meta = in_group start c d ch s in
    let onward = in_group start prev c ch (d ∷ s) in
    let step = if c == meta then after_meta else onward in
    if c == outbrack
    then none
    else if c == b'-' && not (prev == start) && not (d == outbrack)
    then (if leb (prev_char before prev) ch && leb ch (pat_char (d ∷ s))
        then some (c ∷ d ∷ s)
        else step)
    else if ch == pat_char (c ∷ d ∷ s)
    then some (c ∷ d ∷ s)
    else step

-- The place behind `Outbrack`.
unfoldable pub behind_group : Str → Option Str
behind_group [] = none
behind_group (c ∷ s) = let rest = behind_group s in if c == outbrack then some s else rest

-- Where the negated loop ends that has not found `ch`: at `Outbrack`, or at the end of the pattern.
unfoldable pub end_of_group : Str → Option Str
end_of_group [] = none
end_of_group (c ∷ []) = if c == outbrack then some [] else none
end_of_group (c ∷ d ∷ s) =
    let after_meta = end_of_group s in
    let onward = end_of_group (d ∷ s) in
    if c == outbrack then some (d ∷ s) else if c == meta then after_meta else onward

-- A group: whether it matches, and the pattern behind it.
pub data Group : Type 0 where
  holds : Str → Group
  misses : Group
  runs_off : Group

abbrev is_not : ℕ → Bool
is_not c = c == hat || c == b'^' || c == b'!'

abbrev group_behind : Option Str → Group
group_behind none = runs_off
group_behind (some p) = holds p

abbrev group_not_in : Option Str → Option Str → Group
group_not_in (some p) q = misses
group_not_in none none = misses
group_not_in none (some q) = holds q

-- Of a positive group without its `Outbrack` the source runs off the end.
abbrev group_in : Option Str → Option Str → Group
group_in (some p) q = group_behind (behind_group p)
group_in none (some q) = misses
group_in none none = runs_off

-- The pattern is what stands behind `Inbrack`.
unfoldable pub group : ℕ → Str → Group
group ch [] = runs_off
group ch (c ∷ p) =
    if is_not c
    then group_not_in (in_group hat c hat ch p) (end_of_group p)
    else group_in (in_group inbrack 0 inbrack ch (c ∷ p)) (end_of_group (c ∷ p))

unfoldable pub skip_digits : Str → Str
skip_digits [] = []
skip_digits (c ∷ s) = let rest = skip_digits s in if idigit c then rest else c ∷ s

-- The digits at the start, the last one first, onto those that are there.
unfoldable pub digits_back : Str → Str → Str
digits_back acc [] = acc
digits_back acc (c ∷ s) = let rest = digits_back (c ∷ acc) s in if idigit c then rest else acc

-- `while (!not3 && t1 > t3 && pptr > opptr+1) { pptr--; t1 /= 10; }`: the digits that are passed
-- are `taken`, the last one first.
unfoldable pub shorten : (t3 t1 : ℕ) (taken s : Str) → ℕ × Str
shorten t3 t1 [] s = (t1, s)
shorten t3 t1 (c ∷ []) s = (t1, s)
shorten t3 t1 (c ∷ d ∷ taken) s =
    let rest = shorten t3 (t1 / 10) (d ∷ taken) (c ∷ s) in if ltb t3 t1 then rest else (t1, s)

-- Behind the lower limit, `ptr`: the upper limit, whether there is none, and the pattern at
-- `Outang`.
unfoldable pub upper_limit : ℕ → Str → ℕ × Bool × Str
upper_limit t2 [] = (t2, false, [])
upper_limit t2 (c ∷ []) =
    if c == b'-' then (let (t3, p) = zstrtol (pos 10) [] in (t3, false, p)) else (t2, false, c ∷ [])
upper_limit t2 (c ∷ d ∷ p) =
    if c == b'-'
    then (if d == outang
        then (t2, true, d ∷ p)
        else (let (t3, q) = zstrtol (pos 10) (d ∷ p) in (t3, false, q)))
    else (t2, false, c ∷ d ∷ p)

-- `<a-b>`, behind `Inang`: the pattern behind `Outang`, or `none` if the number fails it, and the
-- string behind the digits that are taken.
unfoldable pub in_range : (pat s : Str) → Option Str × Str
in_range pat s =
    let (t1, s₁) = zstrtol (pos 10) s in
    let (t2, ptr) = if digit_ahead pat then zstrtol (pos 10) pat else (0, pat) in
    let (t3, not3, end) = upper_limit t2 ptr in
    let (t, s₂) = if not3 then (t1, s₁) else shorten t3 t1 (digits_back [] s) s₁ in
    if ltb t t2 || not not3 && ltb t3 t then (none, s₂) else (some (tail_of end), s₂)
  where
    tail_of : Str → Str
    tail_of [] = []
    tail_of (c ∷ p) = p

-- The case of `Inang`, behind it, where the string begins with a digit.
unfoldable pub numeric : (pat s : Str) → Option Str × Str
numeric [] s = in_range [] s
numeric (c ∷ []) s = if c == outang then (some [], skip_digits s) else in_range (c ∷ []) s
numeric (c ∷ d ∷ pat) s =
    if c == outang
    then (some (d ∷ pat), skip_digits s)
    else if c == b'-' && d == outang
    then (some pat, skip_digits s)
    else in_range (c ∷ d ∷ pat) s

-- `tolower`
abbrev pub tolower : ℕ → ℕ
tolower c = if leb b'A' c && leb c b'Z' then c + 32 else c

abbrev pub same_byte : Bool → ℕ → ℕ → Bool
same_byte ignorecase x c = if ignorecase then tolower x == tolower c else x == c

-- The byte at `*pptr` is compared with the last case's `c`.
abbrev pub take_plain : Bool → ℕ → Str → Option Str
take_plain ignorecase c [] = none
take_plain ignorecase c (x ∷ s) = if same_byte ignorecase x c then some s else none

abbrev pub dot_ahead : Place → Bool
dot_ahead l = l.first && head_is l.pptr b'.'

abbrev ahead : Str → Str → ℕ
ahead pat rest = length pat - length rest

-- The loop, on the bytes of the piece behind the first `skip`.
unfoldable pub scan : Options → (skip : ℕ) → Str → Place → Scan
scan o k [] l = passes l
scan o (suc k) (c ∷ pat) l = scan o k pat l
scan o zero (c ∷ pat) l =
    let char = next_char l.pptr in
    let onward = λ (k : ℕ) (s : Str). scan o k pat (place s false) in
    if dot_ahead l && not (c == b'.')
    then fails l
    else if c == star
    then succeeds (place [] l.first)
    else if c == quest && not (is_end l.pptr)
    then elim char [ none ↦ goes_astray | some (ch, s) ↦ onward 0 s ]
    else if c == hat
    then negates (place l.pptr false)
    else if c == inbrack
    then (if is_end l.pptr then fails (place [] false) else elim char [
      | none ↦ goes_astray
      | some (ch, s) ↦ elim (group ch pat) [
        | holds rest ↦ onward (ahead pat rest) s
        | misses ↦ fails (place l.pptr false)
        | runs_off ↦ goes_astray
      ]
    ])
    else if c == inang
    then (if digit_ahead l.pptr
        then (let (rest, s) = numeric pat l.pptr in
            elim rest [ none ↦ fails (place s false) | some q ↦ onward (ahead pat q) s ])
        else fails (place l.pptr false))
    else elim (take_plain o.ignorecase c l.pptr) [
      | none ↦ fails (place l.pptr false)
      | some s ↦ onward 0 s
    ]
