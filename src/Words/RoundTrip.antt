-- ===== src/Words/RoundTrip.antt =====
-- `sepsplit` and `sepjoin` of Src/utils.c.
use winzsh.Prelude.{
  ℕ, zero, suc, ◌+◌, ◌<◌, ◌≡◌, ◌∙◌, refl, sym, ap, List, [], ◌∷◌, ◌++◌, Bool, true, false, not,
  ◌==◌, ◌||◌, Bool-cases, inl, inr, none, some, if◌then◌else◌, arith,
}
use mathlib.Core.Path.{ap₂}
use mathlib.Core.List.{append_assoc}
use winzsh.Prelude.Lists.{length, drop, length-append}
use winzsh.Prelude.Runs.{Run, ran, stuck, unfinished, and_then}
use winzsh.Prelude.Strings.{Str}
use winzsh.Chars.{meta}
use winzsh.Words.{
  Sep, passing, begins, findsep_loop, findsep, wordcount_loop, wordcount, sepsplit_loop, sepsplit,
  sepjoin,
}

-- No character is cut off at the end.
unfoldable pub whole_chars : Str → Bool
whole_chars [] = true
whole_chars (c ∷ []) = not (c == meta)
whole_chars (c ∷ d ∷ s) =
    let two = whole_chars s in let one = whole_chars (d ∷ s) in if c == meta then two else one

begins_lem : (sep s : Str) → begins sep s ≡ true → s ≡ sep ++ drop (length sep) s
unfolding begins
begins_lem [] s h = refl
begins_lem (c ∷ sep) [] h = absurd (cc h)
begins_lem (c ∷ sep) (x ∷ s) h =
    ap₂ (λ (a : ℕ) (t : Str). a ∷ t) (ground (arith, h)) (begins_lem sep s (ground (arith, h)))

whole_chars_rest :
    (a b : Str) → whole_chars a ≡ true → whole_chars (a ++ b) ≡ true → whole_chars b ≡ true
unfolding whole_chars
whole_chars_rest [] b h k = k
whole_chars_rest (c ∷ []) [] h k = refl
whole_chars_rest (c ∷ []) (d ∷ b) h k = ground (arith, h, k)
whole_chars_rest (c ∷ d ∷ a) b h k = elim (Bool-cases (c == meta)) [
  | inl e ↦ whole_chars_rest a b (ground (arith, h, e)) (ground (arith, k, e))
  | inr e ↦ whole_chars_rest (d ∷ a) b (ground (arith, h, e)) (ground (arith, k, e))
]

-- How `findsep` stops in `s`.
abbrev Stops : (sep s : Str) → Run Sep → Type 0
Stops sep s (ran (none, before, at)) = s ≡ before
Stops sep s (ran (some i, before, at)) =
    (s ≡ before ++ at) × (begins sep at ≡ true) × (whole_chars at ≡ true)
Stops sep s stuck = ⊥
Stops sep s unfinished = ⊥

passing-Stops : (a sep s : Str) (r : Run Sep) → Stops sep s r → Stops sep (a ++ s) (passing a r)
passing-Stops a sep s (ran (none, before, at)) h = ap (λ (t : Str). a ++ t) h
passing-Stops a sep s (ran (some i, before, at)) (e, b, w) =
    (ap (λ (t : Str). a ++ t) e ∙ sym (append_assoc a before at), b, w)
passing-Stops a sep s stuck h = absurd h
passing-Stops a sep s unfinished h = absurd h

findsep_loop-Stops :
    (i : ℕ) (sep s : Str) → whole_chars s ≡ true → Stops sep s (findsep_loop i sep s)
unfolding findsep_loop whole_chars
findsep_loop-Stops i sep [] h = refl
findsep_loop-Stops i sep (c ∷ []) h = elim (Bool-cases (begins sep (c ∷ []))) [
  | inl e ↦ rw (e, findsep_loop) (refl, e, h)
  | inr e ↦
      let no_meta : (c == meta) ≡ false = ground (arith, h) in rw (e, no_meta, findsep_loop) refl
]
findsep_loop-Stops i sep (c ∷ d ∷ s) h = elim (Bool-cases (begins sep (c ∷ d ∷ s))) [
  | inl e ↦ rw (e, findsep_loop) (refl, e, h)
  | inr e ↦ elim (Bool-cases (c == meta)) [
    | inl k ↦
        rw (e, k, findsep_loop)
          (passing-Stops (c ∷ d ∷ []) sep s (findsep_loop (i + 1) sep s)
            (findsep_loop-Stops (i + 1) sep s (ground (arith, h, k))))
    | inr k ↦
        rw (e, k, findsep_loop)
          (passing-Stops (c ∷ []) sep (d ∷ s) (findsep_loop (i + 1) sep (d ∷ s))
            (findsep_loop-Stops (i + 1) sep (d ∷ s) (ground (arith, h, k))))
  ]
]

or_true : (b : Bool) → (b || true) ≡ true
or_true true = refl
or_true false = refl

module _ (x : ℕ) (y : Str) (sep_whole : whole_chars (x ∷ y) ≡ true) where
  abbrev sep : Str
  sep = x ∷ y

  -- `wordcount` and `sepsplit` go together, and `sepjoin` undoes them.
  abbrev Splits : (fuel : ℕ) → Str → Type 0
  Splits fuel s =
      (w : Str) × (ws : List Str) × ((r : ℕ)
        → wordcount_loop fuel r sep true s ≡ ran (r + length ws))
      × (sepsplit_loop (suc (length ws)) sep s ≡ ran (w ∷ ws))
      × (sepjoin (w ∷ ws) sep ≡ s)

  shorter :
      (before at s : Str)
      → s ≡ before ++ at
      → begins sep at ≡ true
      → length (drop (length sep) at) < length s
  shorter before at s e b = omega (
    arith,
    ap length e,
    length-append before at,
    ap length (begins_lem sep at b),
    length-append y (drop (length sep) at),
  )

  step-Splits :
      (fuel : ℕ) (s : Str) (q : Run Sep)
      → Stops sep s q
      → findsep sep s ≡ q
      → ((t : Str) → whole_chars t ≡ true → length t < length s → Splits fuel t)
      → Splits (suc fuel) s
  unfolding wordcount_loop sepsplit_loop sepjoin
  step-Splits fuel s (ran (none, before, at)) h e ih = (
    before,
    [],
    λ r. rw (e, wordcount_loop) (ap ran (omega arith)),
    rw (e, sepsplit_loop) refl,
    sym h,
  )
  step-Splits fuel s (ran (some i, before, at)) (es, b, w) e ih =
      let after = drop (length sep) at in
      let (v, ws, counts, splits, joins) =
        ih after
          (whole_chars_rest sep after sep_whole (ap whole_chars (sym (begins_lem sep at b)) ∙ w))
          (shorter before at s es b) in
      (
        before,
        v ∷ ws,
        λ r. rw (e, wordcount_loop) (rw (or_true _) (counts (r + 1) ∙ ap ran (omega arith))),
        rw (e, sepsplit_loop) (rw splits refl),
        ap (λ (t : Str). before ++ (sep ++ t)) joins
            ∙ ap (λ (t : Str). before ++ t) (sym (begins_lem sep at b))
            ∙ sym es,
      )
  step-Splits fuel s stuck h e ih = absurd h
  step-Splits fuel s unfinished h e ih = absurd h

  splits : (fuel : ℕ) (s : Str) → whole_chars s ≡ true → length s < fuel → Splits fuel s
  splits zero s h hf = absurd (omega (arith, hf))
  splits (suc fuel) s h hf =
      step-Splits fuel s (findsep sep s) (unfold findsep in findsep_loop-Stops 0 sep s h) refl
        (λ t ht lt. splits fuel t ht (omega (arith, hf, lt)))

-- Where neither the string nor the separator, which is not empty, ends within a metafied
-- character, `sepsplit` has a result, with as many words as `wordcount`, given a `mul` that is
-- not 0, counts, and `sepjoin` gives back the string.
pub sepjoin-sepsplit :
    (c : ℕ) (t s : Str)
    → whole_chars (c ∷ t) ≡ true
    → whole_chars s ≡ true
    → (words : List Str) × (wordcount s (c ∷ t) true ≡ ran (length words))
      × (sepsplit s (c ∷ t) ≡ ran words)
      × (sepjoin words (c ∷ t) ≡ s)
unfolding wordcount sepsplit
sepjoin-sepsplit c t s ht hs =
    let (w, ws, counts, split, joins) = splits c t ht (suc (length s)) s hs (omega arith) in
    let counted = counts 1 ∙ ap ran (omega arith) in
    (
      w ∷ ws,
      counted,
      ap (λ (r : Run ℕ). and_then r λ n. sepsplit_loop n (c ∷ t) s) counted ∙ split,
      joins,
    )
