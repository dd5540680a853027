-- ===== src/Zle/Quote/Laws.antt =====
-- What the shell reads when it reads quoted bytes.
use winzsh.Prelude.{
  ℕ, ◌+◌, ◌-◌, ◌*◌, ◌≤◌, ◌≡◌, ◌∙◌, refl, sym, ap, List, [], ◌∷◌, ◌++◌, Option, none, some,
  Bool-cases, ==_iff, inl, inr, ◌==◌, if◌then◌else◌, arith,
}
use winzsh.Prelude.Lists.{slice, length, length-append, slice-write}
use winzsh.Zle.Text.{Text, contents, foredel}
use winzsh.Zle.Kill.Yank.{contents-insert-shiftchars}
use winzsh.Zle.Quote.{
  single_quote, backslash, quote_count, quoted_length, quote_bytes, makequote, quoteline, region,
  quoteregion,
}

-- How the shell reads a word that is all quoted: outside quotes, behind a backslash there, or in
-- single quotes, where a backslash stands for itself.
pub data Reading : Type 0 where
  bare : Reading
  escaped : Reading
  quoted : Reading

-- The bytes of the word. `none`: it ends inside a quote, or has a byte that is not quoted.
unfoldable pub dequote : Reading → List ℕ → Option (List ℕ)
dequote bare [] = some []
dequote escaped [] = none
dequote quoted [] = none
dequote bare (c ∷ s) =
    let inside = dequote quoted s in
    let behind = dequote escaped s in
    if c == single_quote then inside else if c == backslash then behind else none
dequote escaped (c ∷ s) = elim (dequote bare s) [ none ↦ none | some r ↦ some (c ∷ r) ]
dequote quoted (c ∷ s) =
    let outside = dequote bare s in
    let inside : Option (List ℕ) = elim (dequote quoted s) [
      | none ↦ none
      | some r ↦ some (c ∷ r)
    ] in
    if c == single_quote then outside else inside

dequote-quote_bytes : (s : List ℕ) → dequote quoted (quote_bytes s ++ (single_quote ∷ [])) ≡ some s
unfolding dequote quote_bytes
dequote-quote_bytes [] = refl
dequote-quote_bytes (c ∷ s) = elim (Bool-cases (c == single_quote)) [
  | inl t ↦
      rw (t, dequote-quote_bytes s)
        (ap (λ (d : ℕ). some (d ∷ s)) (sym ((==_iff c single_quote).0 t)))
  | inr f ↦ rw (f, f, dequote-quote_bytes s) refl
]

-- The shell reads the result of `makequote` as the bytes that were quoted, none of them bare.
pub dequote-makequote : (s : List ℕ) → dequote bare (makequote s) ≡ some s
unfolding dequote makequote
dequote-makequote s = dequote-quote_bytes s

-- `makequote` writes as many bytes as it says.
length-quote_bytes : (s : List ℕ) → length (quote_bytes s) ≡ length s + quote_count s * 3
unfolding quote_bytes quote_count
length-quote_bytes [] = refl
length-quote_bytes (c ∷ s) = ground (arith, length-quote_bytes s)

pub length-makequote : (s : List ℕ) → length (makequote s) ≡ quoted_length s
unfolding makequote quoted_length
length-makequote s =
    omega (arith, length-append (quote_bytes s) (single_quote ∷ []), length-quote_bytes s)

-- The shell reads the line that `quoteline` leaves as the line that it was, none of its bytes
-- unquoted; the cursor is at its end, and it is as long as `makequote` says.
pub dequote-quoteline :
    (t : Text)
    → (dequote bare (contents (quoteline t)) ≡ some (contents t))
      × ((quoteline t).cs ≡ (quoteline t).ll)
      × ((quoteline t).ll ≡ quoted_length (contents t))
unfolding quoteline
dequote-quoteline t = (
  ap (dequote bare) (slice-write t.line 0 (makequote (contents t)))
      ∙ dequote-makequote (contents t),
  refl,
  length-makequote (contents t),
)

region-inside :
    (t : Text) → t.cs ≤ t.ll → ((region t).cs ≤ (region t).mark) × ((region t).mark ≤ (region t).ll)
unfolding region
region-inside t inside = (ground (arith, inside), ground (arith, inside))

-- With the cursor in the line, `quoteregion` puts bytes in the place of the region that the shell
-- reads as those that stood there, and changes no other byte.
pub contents-quoteregion :
    (t : Text)
    → t.cs ≤ t.ll
    → (q : List ℕ) × (contents (quoteregion t)
        ≡ slice (region t).line 0 (region t).cs
          ++ (q ++ slice (region t).line (region t).mark ((region t).ll - (region t).mark)))
      × (dequote bare q
          ≡ some (slice (region t).line (region t).cs ((region t).mark - (region t).cs)))
unfolding quoteregion foredel
contents-quoteregion t inside =
    let r = region t in
    let n = r.mark - r.cs in
    let q = makequote (slice r.line r.cs n) in
    let (low, high) = region-inside t inside in
    let up : r.cs + n ≡ r.mark = omega (arith, low) in
    (
      q,
      contents-insert-shiftchars q n r (omega (arith, up, high))
          ∙ ap (λ j. slice r.line 0 r.cs ++ (q ++ slice r.line j (r.ll - j))) up,
      dequote-makequote (slice r.line r.cs n),
    )
