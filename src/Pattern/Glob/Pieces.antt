-- ===== src/Pattern/Glob/Pieces.antt =====
-- The loop of `doesmatch` of Src/glob.c on the tests of one piece.
use winzsh.Prelude.{
  ℕ, ◌+◌, ◌≡◌, ◌∙◌, ◌⊎◌, ◌↔◌, refl, List, [], ◌∷◌, ◌++◌, map, true, false, ◌==◌, Bool-cases, none,
  some, inl, inr, if◌then◌else◌, arith,
}
use winzsh.Prelude.Lists.{length}
use winzsh.Prelude.Strings.{Str}
use winzsh.Chars.{itok}
use winzsh.Pattern.{hat, star, inbrack, inang, quest, Options, Place, place, next_char}
use winzsh.Pattern.Scan.{same_byte, take_plain, Scan, fails, scan}
use winzsh.Pattern.Glob.{
  Test, byte, any, Item, once, Matches, take_one, symbol, plain, all_plain, plain_test, plain_tests,
  accepts, symbols,
}

plain_no_token : (c k : ℕ) → plain c ≡ true → plain k ≡ false → (c == k) ≡ false
unfolding itok
plain_no_token c k h n = elim (Bool-cases (c == k)) [
  | inl e ↦ absurd (ground (arith, h, n, e))
  | inr e ↦ e
]

is_token : (k : ℕ) → itok k ≡ true → plain k ≡ false
is_token k h = rw h refl

next_char-plain : (x : ℕ) (s : Str) → plain x ≡ true → next_char (x ∷ s) ≡ some (x, s)
unfolding next_char itok
next_char-plain x [] h = ground (arith, h)
next_char-plain x (y ∷ s) h = ground (arith, h)

module _ (o : Options) where
  -- A test at the start of a piece, where leading dots are not special.
  unfoldable pub after_test : Test → Str → Str → Scan
  after_test t [] pat = fails (place [] false)
  after_test t (x ∷ s) pat =
      if accepts o.ignorecase t x then scan o 0 pat (place s false) else fails (place (x ∷ s) false)

  pub scan-byte :
      (c : ℕ) (pat s : Str)
      → plain c ≡ true
      → scan o 0 (c ∷ pat) (place s false) ≡ after_test (byte c) s pat
  unfolding scan after_test itok
  scan-byte c pat s h =
      rw
        (
          plain_no_token c star h refl,
          plain_no_token c quest h refl,
          plain_no_token c hat h refl,
          plain_no_token c inbrack h refl,
          plain_no_token c inang h refl,
          scan,
        )
        (by_string s)
    where
      by_string :
          (s : Str)
          → (elim (take_plain o.ignorecase c s) [
            | none ↦ fails (place s false)
            | some r ↦ scan o 0 pat (place r false)
          ])
            ≡ after_test (byte c) s pat
      by_string [] = refl
      by_string (x ∷ s) = elim (Bool-cases (same_byte o.ignorecase x c)) [
        | inl e ↦ rw e refl
        | inr e ↦ rw e refl
      ]

  scan-any :
      (pat s : Str)
      → all_plain s ≡ true
      → scan o 0 (quest ∷ pat) (place s false) ≡ after_test any s pat
  unfolding scan after_test all_plain
  scan-any pat [] h = refl
  scan-any pat (x ∷ s) h = rw (next_char-plain x s (ground (arith, h)), scan) refl

  scan-test :
      (t : Test) (pat s : Str)
      → plain_test t ≡ true
      → all_plain s ≡ true
      → scan o 0 (symbol t ∷ pat) (place s false) ≡ after_test t s pat
  scan-test (byte c) pat s h hs = scan-byte c pat s h
  scan-test any pat s h hs = scan-any pat s hs

  -- The loop on tests: it fails, and no string of the pattern begins so, or it comes behind them.
  pub record Misses (ts : List Test) (pat s : Str) : Type 0 where
    pub where_left : Place
    pub stops : scan o 0 (symbols ts ++ pat) (place s false) ≡ fails where_left
    pub no_match : (p : List Item) → Matches o.ignorecase (map once ts ++ p) s → ⊥

  pub record Takes (ts : List Test) (pat s : Str) : Type 0 where
    pub rest : Str
    pub shorter : length rest + length ts ≡ length s
    pub rest_plain : all_plain rest ≡ true
    pub goes_on : scan o 0 (symbols ts ++ pat) (place s false) ≡ scan o 0 pat (place rest false)
    pub match_on :
        (p : List Item) → Matches o.ignorecase (map once ts ++ p) s ↔ Matches o.ignorecase p rest

  one_inv :
      (t : Test) (c : ℕ) (p : List Item) (s : Str)
      → Matches o.ignorecase (once t ∷ p) (c ∷ s)
      → (accepts o.ignorecase t c ≡ true) × Matches o.ignorecase p s
  one_inv t c p s (take_one _ _ _ _ h m) = (h, m)

  pub scan-tests :
      (ts : List Test) (pat s : Str)
      → plain_tests ts ≡ true
      → all_plain s ≡ true
      → Misses ts pat s ⊎ Takes ts pat s
  unfolding plain_tests after_test all_plain
  scan-tests [] pat s h hs = inr (record {
    rest = s;
    shorter = omega arith;
    rest_plain = hs;
    goes_on = refl;
    match_on = λ p. (λ m. m, λ m. m);
  })
  scan-tests (t ∷ ts) pat [] h hs = inl (record {
    where_left = place [] false;
    stops = scan-test t (symbols ts ++ pat) [] (ground (arith, h)) hs;
    no_match = λ p m. elim m [ ];
  })
  scan-tests (t ∷ ts) pat (c ∷ s) h hs = elim (Bool-cases (accepts o.ignorecase t c)) [
    | inl e ↦
        let step : scan o 0 (symbol t ∷ symbols ts ++ pat) (place (c ∷ s) false)
            ≡ scan o 0 (symbols ts ++ pat) (place s false) =
          scan-test t (symbols ts ++ pat) (c ∷ s) (ground (arith, h)) hs ∙ rw e refl in
        elim (scan-tests ts pat s (ground (arith, h)) (ground (arith, hs))) [
          | inl m ↦ inl (record {
            where_left = m.where_left;
            stops = step ∙ m.stops;
            no_match = λ p d. m.no_match p (one_inv t c (map once ts ++ p) s d).1;
          })
          | inr k ↦ inr (record {
            rest = k.rest;
            shorter = omega (arith, k.shorter);
            rest_plain = k.rest_plain;
            goes_on = step ∙ k.goes_on;
            match_on = λ p. (
              λ d. (k.match_on p).0 (one_inv t c (map once ts ++ p) s d).1,
              λ d. take_one t c (map once ts ++ p) s e ((k.match_on p).1 d),
            );
          })
        ]
    | inr e ↦ inl (record {
      where_left = place (c ∷ s) false;
      stops = scan-test t (symbols ts ++ pat) (c ∷ s) (ground (arith, h)) hs ∙ rw e refl;
      no_match = λ p d. absurd (cc (e, (one_inv t c (map once ts ++ p) s d).0));
    })
  ]
