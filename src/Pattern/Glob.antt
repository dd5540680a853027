-- ===== src/Pattern/Glob.antt =====
-- Simple patterns and what it means that a string matches one, for the matcher of Src/glob.c.
pub mod Reads
pub mod Compiles
pub mod Pieces
pub mod Steps
pub mod Closures
pub mod Decides
pub mod Loops
use winzsh.Prelude.{ℕ, List, [], ◌∷◌, ◌++◌, map, Bool, true, false, not, ◌==◌, ◌&&◌, ◌≡◌}
use winzsh.Prelude.Strings.{Str}
use winzsh.Chars.{itok, meta}
use winzsh.Pattern.{star, quest, pound, Comp, null, Stat, no_stat, piece}
use winzsh.Pattern.Scan.{same_byte}
use winzsh.Pattern.Parse.{onehash_stat}

-- A character by itself, or `?`.
pub data Test : Type 0 where
  byte : ℕ → Test
  any : Test

-- A test, `t#`, `t##` and `*`.
pub data Item : Type 0 where
  once many plus : Test → Item
  anything : Item

abbrev pub symbol : Test → ℕ
symbol (byte c) = c
symbol any = quest

-- The tokens of a pattern.
unfoldable pub written : List Item → Str
written [] = []
written (once t ∷ p) = symbol t ∷ written p
written (many t ∷ p) = symbol t ∷ pound ∷ written p
written (plus t ∷ p) = symbol t ∷ pound ∷ pound ∷ written p
written (anything ∷ p) = star ∷ written p

-- A byte that is no token and begins no metafied character.
abbrev pub plain : ℕ → Bool
plain c = not (itok c) && not (c == meta)

unfoldable pub all_plain : Str → Bool
all_plain [] = true
all_plain (c ∷ s) = plain c && all_plain s

abbrev pub plain_test : Test → Bool
plain_test (byte c) = plain c
plain_test any = true

unfoldable pub plain_tests : List Test → Bool
plain_tests [] = true
plain_tests (t ∷ ts) = plain_test t && plain_tests ts

abbrev pub plain_item : Item → Bool
plain_item (once t) = plain_test t
plain_item (many t) = plain_test t
plain_item (plus t) = plain_test t
plain_item anything = true

unfoldable pub plain_items : List Item → Bool
plain_items [] = true
plain_items (i ∷ p) = plain_item i && plain_items p

abbrev pub accepts : Bool → Test → ℕ → Bool
accepts ignorecase (byte c) x = same_byte ignorecase x c
accepts ignorecase any x = true

-- The strings that match.
pub data Matches (ignorecase : Bool) : List Item → Str → Type 0 where
  none_left : Matches ignorecase [] []
  take_one :
      (t : Test) (c : ℕ) (p : List Item) (s : Str)
      → accepts ignorecase t c ≡ true
      → Matches ignorecase p s
      → Matches ignorecase (once t ∷ p) (c ∷ s)
  leave_many :
      (t : Test) (p : List Item) (s : Str)
      → Matches ignorecase p s
      → Matches ignorecase (many t ∷ p) s
  take_many :
      (t : Test) (c : ℕ) (p : List Item) (s : Str)
      → accepts ignorecase t c ≡ true
      → Matches ignorecase (many t ∷ p) s
      → Matches ignorecase (many t ∷ p) (c ∷ s)
  take_plus :
      (t : Test) (c : ℕ) (p : List Item) (s : Str)
      → accepts ignorecase t c ≡ true
      → Matches ignorecase (many t ∷ p) s
      → Matches ignorecase (plus t ∷ p) (c ∷ s)
  leave_all :
      (p : List Item) (s : Str) → Matches ignorecase p s → Matches ignorecase (anything ∷ p) s
  take_all :
      (c : ℕ) (p : List Item) (s : Str)
      → Matches ignorecase (anything ∷ p) s
      → Matches ignorecase (anything ∷ p) (c ∷ s)

abbrev pub symbols : List Test → Str
symbols = map symbol

abbrev pub last_stat : Stat
last_stat = record no_stat { last = true }

-- A closure of one test.
abbrev pub closure : Test → Comp → Comp
closure t next = piece (symbol t ∷ []) onehash_stat next

-- The compiled pattern, the tests `ts` standing before it in its first piece.
unfoldable pub compiled : List Test → List Item → Comp
compiled ts [] = piece (symbols ts) last_stat null
compiled ts (once t ∷ p) = compiled (ts ++ (t ∷ [])) p
compiled ts (many t ∷ p) = piece (symbols ts) no_stat (closure t (compiled [] p))
compiled ts (plus t ∷ p) =
    piece (symbols ts) no_stat (piece (symbol t ∷ []) no_stat (closure t (compiled [] p)))
compiled ts (anything ∷ []) = piece (symbols ts ++ (star ∷ [])) last_stat null
compiled ts (anything ∷ i ∷ p) = piece (symbols ts) no_stat (closure any (compiled [] (i ∷ p)))
