-- ===== src/Modifiers/Quotes.antt =====
-- The quotes that `quote` and `quotebreak` of Src/hist.c put.
use winzsh.Prelude.{
  ℕ, suc, ◌+◌, ◌*◌, ◌%◌, ◌≡◌, ◌∙◌, refl, sym, ap, List, [], ◌∷◌, ◌++◌, map, Bool, true, false, not,
  ◌==◌, ==_iff, ◌&&◌, Option, none, some, Bool-cases, inl, inr, if◌then◌else◌, arith,
}
use winzsh.Prelude.Lists.{update, length, length-append}
use winzsh.Prelude.Strings.{Str}
use winzsh.Chars.{inblank, iblank}
use winzsh.Zle.Quote.Laws.{Reading, bare, escaped, quoted}
use winzsh.Modifiers.{
  apostrophe, quote_len, quote_copy, quote_size, quote_text, Pointers, quote, break_len, break_copy,
  quotebreak_size, quotebreak,
}
use winzsh.Modifiers.Laws.{has}

length-break_copy : (s : Str) → length (break_copy s) ≡ break_len s
unfolding break_copy break_len
length-break_copy [] = refl
length-break_copy (c ∷ s) = ground (arith, length-break_copy s)

length-quote_copy :
    (prev : ℕ) (q : Bool) (s : Str) → length (quote_copy prev q s) ≡ (quote_len prev q s).0
unfolding quote_copy quote_len
length-quote_copy prev q [] = refl
length-quote_copy prev q (c ∷ s) =
    ground (arith, length-quote_copy c q s, length-quote_copy c (not q) s)

unfoldable pub apostrophes : Str → ℕ
apostrophes [] = 0
apostrophes (c ∷ s) = if c == apostrophe then suc (apostrophes s) else apostrophes s

-- Two quotes inside leave `inquotes` as it was.
quote_len_even :
    (prev : ℕ) (q : Bool) (s : Str)
    → (quote_len prev q s).1 ≡ (if apostrophes s % 2 == 0 then q else not q)
unfolding quote_len apostrophes
quote_len_even prev q [] = refl
quote_len_even prev q (c ∷ s) = ground (arith, quote_len_even c q s, quote_len_even c (not q) s)

length-quote_text :
    (prev : ℕ) (s : Str)
    → length (quote_text prev s) ≡ 2 + (quote_len prev (quote_len prev false s).1 s).0
unfolding quote_text
length-quote_text prev s =
    let q = (quote_len prev false s).1 in
    omega (arith, length-append (quote_copy prev q s) (apostrophe ∷ []), length-quote_copy prev q s)

-- The pointers afterwards: `t` at `tr`, a null pointer behind it, and all others as they were.
abbrev pub Leaves : Pointers → (tr : ℕ) → Str → Option Pointers → Type 0
Leaves ps tr t none = ⊥
Leaves ps tr t (some new) =
    (i : ℕ) → new i ≡ (if i == tr then some t else if i == tr + 1 then none else ps i)

quote-Leaves :
    (prev tr : ℕ) (s : Str) (ps : Pointers)
    → ps tr ≡ some s
    → Leaves ps tr (quote_text prev s) (quote prev tr ps)
unfolding quote
quote-Leaves prev tr s ps e = rw (e, quote) (λ i. stores (quote_text prev s) i)
  where
    stores :
        (t : Str) (i : ℕ)
        → update (update ps tr (some t)) (tr + 1) none i
          ≡ (if i == tr then some t else if i == tr + 1 then none else ps i)
    stores t i = ground arith

-- For a pointer to a word with an even number of apostrophes, whatever byte stands before the
-- word, `quote` sets the pointer to a string that takes as many bytes, the null byte with them,
-- as `quote` allocates, sets the pointer behind it to a null pointer, and changes no other; and
-- `quotebreak` writes as many bytes as it allocates.
pub quote-fits :
    (prev tr : ℕ) (s : Str) (ps : Pointers)
    → ps tr ≡ some s
    → apostrophes s % 2 ≡ 0
    → (t : Str) × Leaves ps tr t (quote prev tr ps)
      × (suc (length t) ≡ quote_size prev s)
      × (suc (length (quotebreak s)) ≡ quotebreak_size s)
unfolding quote_size quotebreak quotebreak_size
quote-fits prev tr s ps e even = (
  quote_text prev s,
  quote-Leaves prev tr s ps e,
  omega (arith, length-quote_text prev s, ap (λ (q : Bool). (quote_len prev q s).0) closed),
  omega (arith, length-append (break_copy s) (apostrophe ∷ []), length-break_copy s),
)
  where
    closed : (quote_len prev false s).1 ≡ false
    closed = quote_len_even prev false s ∙ (ground (arith, even))

-- The blanks that are not behind a backslash.
unfoldable pub open_blanks : ℕ → Str → ℕ
open_blanks prev [] = 0
open_blanks prev (c ∷ s) =
    if inblank c && not (prev == 92) then suc (open_blanks c s) else open_blanks c s

quote_len-open_blanks :
    (prev : ℕ) (s : Str)
    → has apostrophe s ≡ false
    → (quote_len prev false s).0 ≡ (quote_len prev true s).0 + 2 * open_blanks prev s
unfolding quote_len open_blanks has
quote_len-open_blanks prev [] h = refl
quote_len-open_blanks prev (c ∷ s) h = ground (arith, h, quote_len-open_blanks c s)

no_apostrophes : (s : Str) → has apostrophe s ≡ false → apostrophes s ≡ 0
unfolding has apostrophes
no_apostrophes [] h = refl
no_apostrophes (c ∷ s) h = ground (arith, h, no_apostrophes s)

-- For a pointer to a word that begins with an apostrophe and has no other, `quote` sets the
-- pointer to a string that takes two bytes more than `quote` allocates for every blank that no
-- backslash stands before, sets the pointer behind it to a null pointer, and changes no other.
pub quote_overflows :
    (prev tr : ℕ) (s : Str) (ps : Pointers)
    → ps tr ≡ some (apostrophe ∷ s)
    → has apostrophe s ≡ false
    → (t : Str) × Leaves ps tr t (quote prev tr ps)
      × (suc (length t) ≡ quote_size prev (apostrophe ∷ s) + 2 * open_blanks apostrophe s)
unfolding quote_size quote_len
quote_overflows prev tr s ps e h = (
  quote_text prev (apostrophe ∷ s),
  quote-Leaves prev tr (apostrophe ∷ s) ps e,
  omega (
    arith,
    length-quote_text prev (apostrophe ∷ s),
    ap (λ (q : Bool). (quote_len prev q (apostrophe ∷ s)).0) left_open,
    quote_len-open_blanks apostrophe s h,
  ),
)
  where
    left_open : (quote_len prev false (apostrophe ∷ s)).1 ≡ true
    left_open = quote_len_even apostrophe true s ∙ ground (arith, no_apostrophes s h)

-- What the shell reads: the bytes, and whether they are quoted.
unfoldable pub unquote : Reading → Str → Option (List (ℕ × Bool))
unquote bare [] = some []
unquote escaped [] = none
unquote quoted [] = none
unquote bare (c ∷ s) =
    let inside = unquote quoted s in
    let behind = unquote escaped s in
    let rest : Option (List (ℕ × Bool)) = elim (unquote bare s) [
      | none ↦ none
      | some r ↦ some ((c, false) ∷ r)
    ] in
    if c == apostrophe then inside else if c == 92 then behind else rest
unquote escaped (c ∷ s) = elim (unquote bare s) [ none ↦ none | some r ↦ some ((c, true) ∷ r) ]
unquote quoted (c ∷ s) =
    let outside = unquote bare s in
    let inside : Option (List (ℕ × Bool)) = elim (unquote quoted s) [
      | none ↦ none
      | some r ↦ some ((c, true) ∷ r)
    ] in
    if c == apostrophe then outside else inside

abbrev pub marked : ℕ → ℕ × Bool
marked c = (c, not (inblank c))

not_backslash : (c : ℕ) → inblank c ≡ true → (c == 92) ≡ false
unfolding inblank iblank
not_backslash c h = ground (arith, h)

unquote-break_copy :
    (s : Str) → unquote quoted (break_copy s ++ (apostrophe ∷ [])) ≡ some (map marked s)
unfolding unquote break_copy
unquote-break_copy [] = refl
unquote-break_copy (c ∷ s) = elim (Bool-cases (c == apostrophe)) [
  | inl a ↦
      rw (a, unquote-break_copy s)
        (ap (λ (p : ℕ × Bool). some (p ∷ map marked s))
          (unfold inblank iblank in ap marked (sym ((==_iff c apostrophe).0 a))))
  | inr a ↦ elim (Bool-cases (inblank c)) [
    | inl b ↦ rw (a, b, a, not_backslash c b, unquote-break_copy s) refl
    | inr b ↦ rw (a, b, a, unquote-break_copy s) refl
  ]
]

-- The shell reads the result of `quotebreak` as the bytes that were given, the blanks among them
-- bare and all others quoted.
pub unquote-quotebreak : (s : Str) → unquote bare (quotebreak s) ≡ some (map marked s)
unfolding unquote quotebreak
unquote-quotebreak s = unquote-break_copy s
