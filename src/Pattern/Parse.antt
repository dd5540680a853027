-- ===== src/Pattern/Parse.antt =====
-- The parser of patterns, Src/glob.c: `parsecomp`, `parsecompsw`, `parsereg`, and `remnulargs`. The
-- bytes that the source changes in place are those of the strings that it copies.
use winzsh.Prelude.{
  ℕ, zero, suc, [], ◌∷◌, ◌++◌, Bool, true, false, not, leb, ◌==◌, ◌&&◌, ◌||◌, Option, none, some,
  if◌then◌else◌,
}
use winzsh.Prelude.Strings.{Str}
use winzsh.Prelude.Lists.{length}
use winzsh.Chars.{idigit, itok}
use winzsh.Parens.{skipparens}
use winzsh.Pattern.{
  pound, hat, star, inpar, outpar, bar, inbrack, outbrack, inang, outang, quest, tilde, nularg,
  untok, Comp, null, comp, Stat, no_stat, piece, is_null, Options,
}
use winzsh.Pattern.Scan.{is_end}

-- A compiled pattern and the rest of the string, a null pointer, with or without `errflag`, or too
-- little fuel.
pub data Parsed : Type 0 where
  parsed : Comp → Str → Parsed
  refused : (errflag : Bool) → Parsed
  no_fuel : Parsed

abbrev pub then_parse : Parsed → (Comp → Str → Parsed) → Parsed
then_parse (parsed c s) k = k c s
then_parse (refused e) k = refused e
then_parse no_fuel k = no_fuel

-- `gflag`, GF_PATHADD and GF_TOPLEV; `mode`; and `tail`, null or what follows a group.
pub record Context : Type 0 where
  pub pathadd : Bool
  pub toplev : Bool
  pub mode : Bool
  pub tail : Comp

-- `*s` is the null byte, or one of two.
abbrev ends_or : ℕ → ℕ → Str → Bool
ends_or a b [] = true
ends_or a b (c ∷ s) = c == a || c == b

-- Where the loop of `parsecomp` ends.
unfoldable pub separates : Options → Context → Str → Bool
separates o k [] = true
separates o k (c ∷ s) =
    not k.mode && c == b'/'
    || c == bar
    || o.extendedglob && c == tilde && not (ends_or outpar bar s)
    || c == outpar

-- `Star` with something behind it.
unfoldable pub star_goes_on : Options → Context → Str → Bool
star_goes_on o k [] = false
star_goes_on o k (c ∷ s) =
    (not o.extendedglob || not (c == tilde) || ends_or bar outpar s) && (k.mode || not (c == b'/'))

-- The number of the bytes `Pound` at the start, two at most, and what is behind them.
unfoldable pub pounds : Str → ℕ × Str
pounds [] = (0, [])
pounds (c ∷ []) = if c == pound then (1, []) else (0, c ∷ [])
pounds (c ∷ d ∷ s) =
    if c == pound then (if d == pound then (2, s) else (1, d ∷ s)) else (0, c ∷ d ∷ s)

-- A byte before those of the copy.
abbrev onto : ℕ → Option (Str × Str) → Option (Str × Str)
onto c none = none
onto c (some (a, b)) = some (c ∷ a, b)

-- The bytes of `<...>`, behind `Inang`, up to `Outang`, and what is behind; `none` if something
-- else stands there. `dshct` says that no `-` may follow.
unfoldable pub angles : Bool → Str → Option (Str × Str)
angles dshct [] = none
angles dshct (c ∷ s) =
    let dash = angles true s in
    let onward = angles dshct s in
    if c == outang
    then some (c ∷ [], s)
    else if c == b'-' && not dshct
    then onto c dash
    else if idigit c
    then onto c onward
    else none

abbrev pub first_outang : Str → Bool
first_outang [] = false
first_outang (c ∷ s) = c == outang

-- The bytes of `[...]`, behind `Inbrack`, without tokens, up to `Outbrack`, and what is behind.
unfoldable pub brackets : Str → Option (Str × Str)
brackets [] = none
brackets (c ∷ s) =
    let rest = brackets s in if c == outbrack then some (c ∷ [], s) else onto (untok c) rest

-- A token by itself. `Nularg`, which `remnulargs` leaves only as the whole of a string, becomes the
-- null byte, which ends the copy.
abbrev pub untokened : ℕ → Str
untokened c = if c == nularg then [] else untok c ∷ []

-- What the end of the loop parses: a group of bytes, or one that is no token but `Star` or `Quest`.
-- The bytes for the copy, and the rest of the string.
unfoldable pub item : ℕ → Str → Option (Str × Str)
item c s =
    if c == inang
    then onto c (angles (first_outang s) s)
    else if c == inbrack
    then onto c (brackets s)
    else if itok c && not (c == star) && not (c == quest)
    then some (untokened c, s)
    else some (c ∷ [], s)

abbrev pub onehash_stat : Stat
onehash_stat = record no_stat { onehash = true }

abbrev pub hash_stat : ℕ → Stat
hash_stat n = if n == 2 then record no_stat { twohash = true } else onehash_stat

-- `c->stat |= C_LAST` at the end of the loop.
unfoldable pub end_stat : Options → Context → Str → Stat
end_stat o k [] = record no_stat { last = true }
end_stat o k (c ∷ s) =
    if c == b'/' || o.extendedglob && c == tilde && k.toplev
    then record no_stat { last = true }
    else no_stat

-- The depth of the calls. `self` and `switch` are the calls of `parsecomp` and `parsecompsw`.
abbrev pub Parser : Type 0
Parser = Context → Str → Parsed

abbrev pub joined : Str → Option Str → Str
joined before none = before
joined before (some ls) = before ++ ls

abbrev pub begins_with : ℕ → Str → Bool
begins_with a [] = false
begins_with a (c ∷ s) = c == a

abbrev pub behind : Str → Str
behind [] = []
behind (c ∷ s) = s

-- `INULL`
abbrev pub inull : ℕ → Bool
inull c = leb 0x98 c && leb c 0x9b

unfoldable pub chuck_nulls : Str → Str
chuck_nulls [] = []
chuck_nulls (c ∷ s) = let rest = chuck_nulls s in if inull c then rest else c ∷ rest

unfoldable pub remnulargs : Str → Str
remnulargs [] = []
remnulargs (c ∷ s) = elim (chuck_nulls (c ∷ s)) [ [] ↦ nularg ∷ [] | d ∷ t ↦ d ∷ t ]

module _ (o : Options) where
  -- `Hat`; `before` is the string of the piece so far, from `cstr` to `pptr`.
  unfoldable pub parse_hat : Parser → Context → (before s : Str) → Parsed
  parse_hat self k before s =
      then_parse (self k s) λ next rest. parsed (piece (before ++ (hat ∷ [])) no_stat next) rest

  -- `Star` that is not the last.
  unfoldable pub parse_star : Parser → Context → (before s : Str) → Parsed
  parse_star self k before s =
      then_parse (self k s)
        λ c₂ rest. parsed (piece before no_stat (piece (quest ∷ []) onehash_stat c₂)) rest

  -- A group. `s` is the string behind `Inpar`. What follows the group is parsed first.
  unfoldable pub parse_group : Parser → Parser → Context → (before s : Str) → Parsed
  parse_group self switch k before s = elim (skipparens inpar outpar (inpar ∷ s)) [
    | none ↦ refused true
    | some (suc level, behind) ↦ refused true
    | some (zero, behind) ↦
        let (n, after) = if o.extendedglob then pounds behind else (0, behind) in
        then_parse (self k after) λ c₁ rest.
          let inside = record k {
            pathadd = false;
            toplev = false;
            tail = if n == 0 then c₁ else null;
          } in
          then_parse (switch inside s) λ left ignored.
            let stat = if n == 0 then no_stat else hash_stat n in
            let next = if n == 0 then piece [] no_stat null else c₁ in
            parsed (piece before no_stat (comp left null next null [] stat)) rest
  ]

  -- `Pound`: `ls` is the item before it, and `before` the piece up to that; `s` is the string from
  -- `Pound` on.
  unfoldable pub parse_pound : Parser → Context → (before : Str) → Option Str → Str → Parsed
  parse_pound self k before none s = refused false
  parse_pound self k before (some ls) s =
      let (n, rest) = pounds s in
      then_parse (self k rest) λ next rest'.
        let c₂ = piece ls onehash_stat next in
        let c₁ = if n == 2 then piece ls no_stat c₂ else c₂ in
        parsed (piece before no_stat c₁) rest'

  -- The loop of `parsecomp`. The piece so far is `before` and the item `ls`.
  unfoldable pub comp_loop : ℕ → Parser → Parser → Context → Str → Option Str → Str → Parsed
  comp_loop zero self switch k before ls s = no_fuel
  comp_loop (suc fuel) self switch k before ls [] =
      parsed (piece (joined before ls) (end_stat o k []) k.tail) []
  comp_loop (suc fuel) self switch k before ls (c ∷ s) =
      let so_far = joined before ls in
      let rest : Parsed = elim (item c s) [
        | none ↦ refused false
        | some (bytes, s') ↦ comp_loop fuel self switch k so_far (some bytes) s'
      ] in
      if separates o k (c ∷ s)
      then parsed (piece so_far (end_stat o k (c ∷ s)) k.tail) (c ∷ s)
      else if c == hat && o.extendedglob
      then parse_hat self k so_far s
      else if c == star && star_goes_on o k s
      then parse_star self k so_far s
      else if c == inpar
      then parse_group self switch k so_far s
      else if c == pound && o.extendedglob
      then parse_pound self k before ls (c ∷ s)
      else rest

  -- `parsecompsw`, behind its first call: an exclusion, and the next alternative.
  unfoldable pub exclusion : Parser → Context → Str → Parsed
  exclusion comp_call k s =
      if o.extendedglob && begins_with tilde s
      then comp_call (record k { mode = true }) (behind s)
      else parsed null s

  unfoldable pub alternative : Parser → Context → (c₁ excl : Comp) → Str → Parsed
  alternative switch k c₁ excl s =
      let stat = record no_stat { pathadd = k.pathadd } in
      if begins_with bar s
      then (then_parse (switch k (behind s)) λ c₃ rest. parsed (comp c₁ c₃ null excl [] stat) rest)
      else if is_null excl
      then parsed c₁ s
      else parsed
          (comp c₁ null null excl [] (record stat { last = begins_with b'/' s || is_end s })) s

  -- `parsecomp` (on `false`) and `parsecompsw` (on `true`). Every loop goes at most to the end of
  -- the string.
  unfoldable pub parse : ℕ → Bool → Parser
  parse zero b k s = no_fuel
  parse (suc fuel) false k s =
      comp_loop (suc (length s)) (parse fuel false) (parse fuel true) k [] none s
  parse (suc fuel) true k s = then_parse (parse fuel false k s) λ c₁ s₁.
      then_parse (exclusion (parse fuel false) k s₁)
        λ excl s₂. alternative (parse fuel true) k c₁ excl s₂

  unfoldable pub parsereg : ℕ → Str → Parsed
  parsereg fuel s =
      parse fuel true (record { pathadd = false; toplev = true; mode = true; tail = null })
        (remnulargs s)
