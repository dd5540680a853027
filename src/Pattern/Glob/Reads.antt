-- ===== src/Pattern/Glob/Reads.antt =====
-- The steps of `comp_loop` on a written pattern, `parsecomp` of Src/glob.c.
use winzsh.Prelude.{
  ℕ, suc, ◌≡◌, refl, List, [], ◌∷◌, Bool, true, false, not, ◌==◌, ◌||◌, Bool-cases, Option, some,
  inl, inr, arith,
}
use winzsh.Prelude.Strings.{Str}
use winzsh.Chars.{itok}
use winzsh.Pattern.{pound, hat, star, inpar, quest, tilde, null, piece, Options}
use winzsh.Pattern.Parse.{
  parsed, Context, Parser, separates, star_goes_on, pounds, item, end_stat, parse_star, parse_pound,
  joined, comp_loop,
}
use winzsh.Pattern.Glob.{
  Test, byte, any, Item, once, many, plus, anything, symbol, written, plain_test, plain_item,
  plain_items, last_stat,
}

module _ (o : Options) (ext : o.extendedglob ≡ true) where
  abbrev pub whole : Context
  whole = record { pathadd = false; toplev = true; mode = true; tail = null }

  -- A byte that is copied as it is.
  copied : ℕ → Bool
  copied c = not (itok c) || c == quest

  test-copied : (t : Test) → plain_test t ≡ true → copied (symbol t) ≡ true
  unfolding copied itok
  test-copied (byte c) h = ground (arith, h)
  test-copied any h = refl

  item-copied : (c : ℕ) (s : Str) → copied c ≡ true → item c s ≡ some (c ∷ [], s)
  unfolding copied item itok
  item-copied c s h = ground (arith, h)

  not_separator : (c : ℕ) (s : Str) → copied c ≡ true → separates o whole (c ∷ s) ≡ false
  unfolding copied separates itok
  not_separator c s h = ground (arith, h)

  no_token : (c k : ℕ) → copied c ≡ true → copied k ≡ false → (c == k) ≡ false
  unfolding copied itok
  no_token c k h n = elim (Bool-cases (c == k)) [
    | inl e ↦ absurd (ground (arith, h, n, e))
    | inr e ↦ e
  ]

  is_hat : copied hat ≡ false
  unfolding copied itok
  is_hat = refl

  is_star : copied star ≡ false
  unfolding copied itok
  is_star = refl

  is_inpar : copied inpar ≡ false
  unfolding copied itok
  is_inpar = refl

  is_pound : copied pound ≡ false
  unfolding copied itok
  is_pound = refl

  -- A test is read, and becomes the last item.
  pub read_test :
      (fuel : ℕ) (self switch : Parser) (before : Str) (ls : Option Str) (t : Test) (s : Str)
      → plain_test t ≡ true
      → comp_loop o (suc fuel) self switch whole before ls (symbol t ∷ s)
        ≡ comp_loop o fuel self switch whole (joined before ls) (some (symbol t ∷ [])) s
  unfolding comp_loop
  read_test fuel self switch before ls t s h =
      let c = test-copied t h in
      let x = symbol t in
      rw
        (
          not_separator x s c,
          no_token x hat c is_hat,
          no_token x star c is_star,
          no_token x inpar c is_inpar,
          no_token x pound c is_pound,
          item-copied x s c,
          comp_loop,
        )
        refl

  -- One `Pound`, or two, behind an item.
  pub read_pound :
      (fuel : ℕ) (self switch : Parser) (before ls : Str) (s : Str)
      → comp_loop o (suc fuel) self switch whole before (some ls) (pound ∷ s)
        ≡ parse_pound o self whole before (some ls) (pound ∷ s)
  unfolding comp_loop separates
  read_pound fuel self switch before ls s = rw (ext, comp_loop, separates) refl

  star_inside : (s : Str) → separates o whole (star ∷ s) ≡ false
  unfolding separates
  star_inside s = rw ext refl

  pub read_star :
      (fuel : ℕ) (self switch : Parser) (before : Str) (ls : Option Str) (s : Str)
      → star_goes_on o whole s ≡ true
      → comp_loop o (suc fuel) self switch whole before ls (star ∷ s)
        ≡ parse_star o self whole (joined before ls) s
  unfolding comp_loop
  read_star fuel self switch before ls s h = rw (star_inside s, h, comp_loop) refl

  pub read_last_star :
      (fuel : ℕ) (self switch : Parser) (before : Str) (ls : Option Str)
      → comp_loop o (suc fuel) self switch whole before ls (star ∷ [])
        ≡ comp_loop o fuel self switch whole (joined before ls) (some (star ∷ [])) []
  unfolding comp_loop separates item star_goes_on itok
  read_last_star fuel self switch before ls = rw (ext, comp_loop, separates) refl

  pub at_end :
      (fuel : ℕ) (self switch : Parser) (before : Str) (ls : Option Str)
      → comp_loop o (suc fuel) self switch whole before ls []
        ≡ parsed (piece (joined before ls) last_stat null) []
  unfolding comp_loop end_stat
  at_end fuel self switch before ls = refl

  is_tilde : copied tilde ≡ false
  unfolding copied itok
  is_tilde = refl

  -- A byte behind `Star` that is not a tilde.
  goes_on : (c : ℕ) (s : Str) → (c == tilde) ≡ false → star_goes_on o whole (c ∷ s) ≡ true
  unfolding star_goes_on
  goes_on c s h = rw (ext, h, star_goes_on) refl

  test-goes_on :
      (t : Test) (s : Str) → plain_test t ≡ true → star_goes_on o whole (symbol t ∷ s) ≡ true
  test-goes_on t s h = goes_on (symbol t) s (no_token (symbol t) tilde (test-copied t h) is_tilde)

  pub star_goes_on_lem :
      (i : Item) (p : List Item)
      → plain_item i ≡ true
      → star_goes_on o whole (written (i ∷ p)) ≡ true
  unfolding written
  star_goes_on_lem (once t) p h = test-goes_on t _ h
  star_goes_on_lem (many t) p h = test-goes_on t _ h
  star_goes_on_lem (plus t) p h = test-goes_on t _ h
  star_goes_on_lem anything p h = goes_on star _ refl

  -- One `Pound` is not taken for two.
  single : (c : ℕ) (s : Str) → (c == pound) ≡ false → pounds (pound ∷ c ∷ s) ≡ (1, c ∷ s)
  unfolding pounds
  single c s h = rw (h, pounds) refl

  test-single :
      (t : Test) (s : Str) → plain_test t ≡ true → pounds (pound ∷ symbol t ∷ s) ≡ (1, symbol t ∷ s)
  test-single t s h = single (symbol t) s (no_token (symbol t) pound (test-copied t h) is_pound)

  pub plain_head : (i : Item) (p : List Item) → plain_items (i ∷ p) ≡ true → plain_item i ≡ true
  unfolding plain_items
  plain_head i p h = ground (arith, h)

  pub plain_tail : (i : Item) (p : List Item) → plain_items (i ∷ p) ≡ true → plain_items p ≡ true
  unfolding plain_items
  plain_tail i p h = ground (arith, h)

  pub pounds_one :
      (p : List Item) → plain_items p ≡ true → pounds (pound ∷ written p) ≡ (1, written p)
  unfolding written
  pounds_one [] h = unfold pounds in refl
  pounds_one (once t ∷ p) h = test-single t _ (plain_head (once t) p h)
  pounds_one (many t ∷ p) h = test-single t _ (plain_head (many t) p h)
  pounds_one (plus t ∷ p) h = test-single t _ (plain_head (plus t) p h)
  pounds_one (anything ∷ p) h = single star _ refl

  pub pounds_two : (s : Str) → pounds (pound ∷ pound ∷ s) ≡ (2, s)
  unfolding pounds
  pounds_two s = refl
