-- ===== src/Chars.antt =====
-- The character classes that `inittyptab` of Src/utils.c sets up, and its case mappings `tulower`
-- and `tuupper` (for the C locale of `isupper` and `islower`). A class is a Boolean test in place
-- of a bit of `typtab`.
use winzsh.Prelude.{
  ℕ, ◌+◌, ◌-◌, ◌%◌, Bool, false, List, [], ◌∷◌, ◌&&◌, ◌||◌, leb, ◌==◌, if◌then◌else◌,
}

-- `t0 <= c && c <= t1`, the range of one of the loops of `inittyptab`.
abbrev pub between : ℕ → ℕ → ℕ → Bool
between t0 t1 c = leb t0 c && leb c t1

unfoldable pub idigit : ℕ → Bool
idigit c = between b'0' b'9' c

unfoldable pub ialpha : ℕ → Bool
ialpha c = between b'a' b'z' c || between b'A' b'Z' c || between 0xa0 0xff c

unfoldable pub ialnum : ℕ → Bool
unfolding idigit ialpha
ialnum c = idigit c || ialpha c

unfoldable pub iident : ℕ → Bool
unfolding idigit ialpha
iident c = idigit c || ialpha c || c == b'_'

unfoldable pub iblank : ℕ → Bool
iblank c = c == b' ' || c == b'\t'

unfoldable pub inblank : ℕ → Bool
unfolding iblank
inblank c = iblank c || c == b'\n'

-- The tokens `Pound` to `Nularg`.
unfoldable pub itok : ℕ → Bool
itok c = between 0x84 0x9b c

abbrev pub meta : ℕ
meta = 0x83

abbrev pub marker : ℕ
marker = 0x9c

unfoldable pub imeta : ℕ → Bool
unfolding itok
imeta c = c == 0 || c == meta || c == marker || itok c

contains : List ℕ → ℕ → Bool
contains [] c = false
contains (x ∷ xs) c = x == c || contains xs c

-- `wordchars` is the value of the parameter WORDCHARS, unmetafied.
unfoldable pub iword : List ℕ → ℕ → Bool
unfolding idigit ialpha contains
iword wordchars c = idigit c || ialpha c || contains wordchars c

unfoldable pub tulower : ℕ → ℕ
tulower c = let b = c % 256 in if between b'A' b'Z' b then b + 32 else b

unfoldable pub tuupper : ℕ → ℕ
tuupper c = let b = c % 256 in if between b'a' b'z' b then b - 32 else b

-- The tests of a word that the editor's motions use; `iword` depends on WORDCHARS.
pub record Classes : Type 0 where
  pub is_word : ℕ → Bool
  pub is_ident : ℕ → Bool
  pub is_blank : ℕ → Bool

unfoldable pub inittyptab : List ℕ → Classes
unfolding iword iident iblank
inittyptab wordchars = record { is_word = iword wordchars; is_ident = iident; is_blank = iblank }
