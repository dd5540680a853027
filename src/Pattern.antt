-- ===== src/Pattern.antt =====
-- Pattern matching, Src/glob.c: the compiled patterns `struct comp`, the tokens of Src/zsh.h, and
-- the options that the code tests.
pub mod Scan
pub mod Match
pub mod Parse
pub mod Tokenize
pub mod Glob
use winzsh.Prelude.{
  ℕ, ◌-◌, List, [], ◌∷◌, Bool, true, false, ◌==◌, ◌||◌, Option, none, some, if◌then◌else◌,
}
use winzsh.Prelude.Lists.{get_or}
use winzsh.Prelude.Strings.{Str}
use winzsh.Chars.{itok, meta}
use winzsh.Meta.{flip}

abbrev pub pound : ℕ
pound = 0x84

abbrev pub hat : ℕ
hat = 0x86

abbrev pub star : ℕ
star = 0x87

abbrev pub inpar : ℕ
inpar = 0x88

abbrev pub outpar : ℕ
outpar = 0x89

abbrev pub bar : ℕ
bar = 0x8c

abbrev pub inbrack : ℕ
inbrack = 0x8f

abbrev pub outbrack : ℕ
outbrack = 0x90

abbrev pub inang : ℕ
inang = 0x92

abbrev pub outang : ℕ
outang = 0x93

abbrev pub quest : ℕ
quest = 0x94

abbrev pub tilde : ℕ
tilde = 0x95

abbrev pub bnull : ℕ
bnull = 0x9a

abbrev pub nularg : ℕ
nularg = 0x9b

-- `ztokens`, "#$^*()$=|{}[]`<>?~`,'\"\\"
abbrev pub ztokens : Str
ztokens =
    b'#' ∷ b'$' ∷ b'^' ∷ b'*' ∷ b'(' ∷ b')' ∷ b'$' ∷ b'=' ∷ b'|' ∷ b'{' ∷ b'}' ∷ b'[' ∷ b']' ∷ b'`'
    ∷ b'<' ∷ b'>' ∷ b'?' ∷ b'~' ∷ b'`' ∷ b',' ∷ b'\'' ∷ b'"' ∷ 92 ∷ []

-- Behind the last token there is the null byte.
unfoldable pub untok : ℕ → ℕ
untok c = if itok c then get_or ztokens (c - pound) 0 else c

-- The pointers and flags of `struct comp`. A null pointer is `null`, and a `str` that is null is
-- empty.
pub record Stat : Type 0 where
  pub onehash : Bool
  pub twohash : Bool
  pub last : Bool
  pub pathadd : Bool

pub data Comp : Type 0 where
  null : Comp
  comp : (left right next exclude : Comp) (str : Str) (stat : Stat) → Comp

abbrev pub no_stat : Stat
no_stat = record { onehash = false; twohash = false; last = false; pathadd = false }

-- A piece with no alternatives.
abbrev pub piece : Str → Stat → Comp → Comp
piece s t next = comp null null next null s t

abbrev pub is_null : Comp → Bool
is_null null = true
is_null _ = false

abbrev pub closurep : Stat → Bool
closurep t = t.onehash || t.twohash

-- The options EXTENDEDGLOB, SHGLOB and WINNTIGNORECASE, `errflag`, and the path in `pathbuf`, of
-- which `pathpos` is the length.
pub record Options : Type 0 where
  pub extendedglob : Bool
  pub shglob : Bool
  pub ignorecase : Bool
  pub errflag : Bool
  pub pathbuf : Str

-- `pptr` and `first`.
pub record Place : Type 0 where
  pub pptr : Str
  pub first : Bool

abbrev pub place : Str → Bool → Place
place s f = record { pptr = s; first = f }

-- The character at the start of a metafied string, and what is behind it. `none`: the string ends,
-- or it ends in Meta, where the source reads behind its end.
unfoldable pub next_char : Str → Option (ℕ × Str)
next_char [] = none
next_char (c ∷ []) = if c == meta then none else some (c, [])
next_char (c ∷ d ∷ s) = if c == meta then some (flip d, s) else some (c, d ∷ s)
