-- ===== src/Tests/Words.antt =====
-- The modifiers of words at concrete inputs.
use winzsh.Prelude.{
  ◌==◌, if◌then◌else◌, suc, ◌+◌, ◌*◌, ◌%◌, ◌≡◌, ◌⊎◌, refl, [], ◌∷◌, ◌++◌, map, true, false, some,
}
use winzsh.Prelude.Lists.{length}
use winzsh.Prelude.Strings.{Str}
use winzsh.Zle.Quote.Laws.{bare}
use winzsh.Modifiers.{
  remtpath, remlpaths, quote, quote_size, quotebreak, quotebreak_size, apostrophe, Pointers,
}
use winzsh.Modifiers.Laws.{has, remtpath-remlpaths}
use winzsh.Modifiers.Quotes.{
  Leaves, apostrophes, quote-fits, open_blanks, quote_overflows, unquote, marked,
  unquote-quotebreak,
}

-- `/a/b.c`
abbrev path : Str
path = b'/' ∷ b'a' ∷ b'/' ∷ b'b' ∷ b'.' ∷ b'c' ∷ []

remtpath-remlpaths_example :
    ((has b'/' path ≡ false) × (remtpath path ≡ (path, false)) × (remlpaths path ≡ (path, false)))
    ⊎ (((remtpath path).1 ≡ true)
        × ((remlpaths path).1 ≡ true)
        × (has b'/' (remlpaths path).0 ≡ false)
        × ((path ≡ (remtpath path).0 ++ (b'/' ∷ (remlpaths path).0))
            ⊎ ((path ≡ b'/' ∷ (remlpaths path).0) × ((remtpath path).0 ≡ b'/' ∷ []))))
remtpath-remlpaths_example = remtpath-remlpaths path

-- `a 'b c'`
abbrev phrase : Str
phrase = b'a' ∷ b' ' ∷ b'\'' ∷ b'b' ∷ b' ' ∷ b'c' ∷ b'\'' ∷ []

-- A pointer at 0, and another variable behind it.
abbrev two_pointers : Str → Pointers
two_pointers s i = if i == 0 then some s else some path

quote-fits_example :
    (t : Str) × Leaves (two_pointers phrase) 0 t (quote 0 0 (two_pointers phrase))
    × (suc (length t) ≡ quote_size 0 phrase)
    × (suc (length (quotebreak phrase)) ≡ quotebreak_size phrase)
quote-fits_example = quote-fits 0 0 phrase (two_pointers phrase) refl even
  where
    even : apostrophes phrase % 2 ≡ 0
    even = unfold apostrophes in refl

unquote-quotebreak_example : unquote bare (quotebreak phrase) ≡ some (map marked phrase)
unquote-quotebreak_example = unquote-quotebreak phrase

-- `s a b`
abbrev suffix : Str
suffix = b's' ∷ b' ' ∷ b'a' ∷ b' ' ∷ b'b' ∷ []

quote_overflows_example :
    (t : Str) × Leaves
      (two_pointers (apostrophe ∷ suffix))
      0
      t
      (quote 0 0 (two_pointers (apostrophe ∷ suffix)))
    × (suc (length t) ≡ quote_size 0 (apostrophe ∷ suffix) + 2 * open_blanks apostrophe suffix)
quote_overflows_example = quote_overflows 0 0 suffix (two_pointers (apostrophe ∷ suffix)) refl plain
  where
    plain : has apostrophe suffix ≡ false
    plain = unfold has in refl
