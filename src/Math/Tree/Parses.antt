-- ===== src/Math/Tree/Parses.antt =====
-- `mathparse` of Src/math.c on a written expression.
use winzsh.Prelude.{
  ℕ, zero, suc, ◌+◌, ◌%◌, ◌≤◌, ◌<◌, ◌≡◌, ◌∙◌, refl, ap, List, [], ◌∷◌, ◌++◌, map, Bool, true, false,
  if◌then◌else◌, arith,
}
use mathlib.Core.List.{append_assoc}
use winzsh.Prelude.Lists.{length, length-append}
use winzsh.Number.{word_mod}
use winzsh.Math.Token.{Token, prec, top_prec}
use winzsh.Math.State.{Shell, MathValue, Math}
use winzsh.Math.Op.{zerr}
use winzsh.Prelude.Runs.{Run, ran, and_then}
use winzsh.Math.Parse.{
  next_token, parse_with, switch, read_value, in_parens, kind, argument_prec, mathparse_loop,
  is_outpar,
}
use winzsh.Math.Tree.{Binary, token, digit, decimal}
use winzsh.Math.Tree.Numeral.{reading, next_token_num}
use winzsh.Math.Tree.Lexed.{Next, Next-close, next_token_open}
use winzsh.Math.Tree.Rounds.{just, push_room, loop_stops, loop_round, parse_with_lem}
use winzsh.Math.Tree.Levels.{argument_prec-le}

-- The token `t` ends an expression of the precedence `q`.
pub record Closes (q : ℕ) (t : Token) : Type 0 where
  pub past : (o : Binary) → prec (token o) ≤ q → argument_prec (token o) < prec t
  pub tight : 2 < prec t

module _ {P : Type 0} (sh : Shell P) where
  abbrev pub done : Math P → List ℕ → Bool → List MathValue → ℕ → Token → Math P
  done m rest u st y t = record (reading m rest u st y) { mtok = t }

  -- The rounds of the loop from `m` on come to the state `r`, with fuel for `n` bytes left.
  abbrev pub Comes : ℕ → ℕ → Run (Math P) → Math P → Type 0
  Comes n pc run r = (g : ℕ) × (n < g) × (run ≡ mathparse_loop sh g pc r)

  -- From the bytes `s`, whatever stands behind them, the parser gets the value `v`, on a stack that
  -- has room for `d` more, and reads the next token.
  pub record Parses (s : List ℕ) (q v d y : ℕ) : Type 0 where
    pub run :
        (m : Math P) (pc fuel : ℕ) (u : Bool) (st : List MathValue) (x : ℕ) (s' rest : List ℕ)
        (t : Token) (u' : Bool)
        → q ≤ pc
        → Next sh s' t u' rest
        → Closes q t
        → length st + d ≤ 100
        → length (s ++ s') < fuel
        → Comes
            (length s')
            pc
            (and_then (next_token sh (reading m (s ++ s') u st x)) (mathparse_loop sh fuel pc))
            (done m rest u' (just v ∷ st) y t)

  pub after :
      (n pc : ℕ) (run run' : Run (Math P)) (r : Math P)
      → run ≡ run'
      → Comes n pc run' r
      → Comes n pc run r
  after n pc run run' r e k = (k.0, k.1, e ∙ k.2)

  -- One round, on a token that has been read.
  pub round :
      (pc fuel : ℕ) (m r : Math P) (n : ℕ)
      → prec m.mtok ≤ pc
      → m.errflag ≡ false
      → n < fuel
      → ((f : ℕ) → fuel ≡ suc f → Comes n pc (switch sh (mathparse_loop sh f) pc m (kind m.mtok)) r)
      → Comes n pc (mathparse_loop sh fuel pc m) r
  round pc zero m r n hp he le k = absurd (omega (arith, le))
  round pc (suc f) m r n hp he le k = after n pc _ _ r (loop_round sh f pc m hp he) (k f refl)

  pub num-Parses :
      (d : ℕ) (ds : List ℕ) (q : ℕ)
      → Parses
          (map digit (d ∷ ds))
          q
          (decimal 0 (d ∷ ds) % word_mod)
          1
          (decimal 0 (d ∷ ds) % word_mod)
  unfolding switch kind read_value prec
  num-Parses d ds q = record {
    run = λ m pc fuel u st x s' rest t u' hq nx cl room le.
        let v = decimal 0 (d ∷ ds) % word_mod in
        let m₁ = record (reading m s' false st v) { mtok = Token.num } in
        let m₂ = record m { mtok = Token.num } in
        let size = length-append (map digit ds) s' in
        after (length s') pc _ (mathparse_loop sh fuel pc m₁) _
          (ap (λ (o : Run (Math P)). and_then o (mathparse_loop sh fuel pc))
            (next_token_num sh m d ds s' u st x nx.numeral_ends))
          (round pc fuel m₁ _ (length s') (omega arith) refl (omega (arith, size, le)) (λ f e. (
            f,
            omega (arith, e, size, le),
            ap (λ (z : Math P). and_then (next_token sh z) (mathparse_loop sh f pc))
                  (push_room (just v) m₁ (omega (arith, room)))
                ∙ ap (λ (o : Run (Math P)). and_then o (mathparse_loop sh f pc))
                    (nx.lexes m₂ (just v ∷ st) v),
          )));
  }

  outpar-Closes : (q : ℕ) → q ≤ 16 → Closes q Token.m_outpar
  unfolding prec
  outpar-Closes q hq = record {
    past = λ o h. omega (arith, h, hq, argument_prec-le o);
    tight = omega arith;
  }

  in_parens_lem :
      (s : List ℕ) (q v d y : ℕ)
      → q ≤ 16
      → Parses s q v d y
      → (m : Math P) (pc f : ℕ) (st : List MathValue) (x : ℕ) (s' rest : List ℕ) (t : Token)
        (u' : Bool)
      → Next sh s' t u' rest
      → length st + d ≤ 100
      → length (s ++ (b')' ∷ s')) < f
      → in_parens sh
          (mathparse_loop sh f)
          pc
          (record (reading m (s ++ (b')' ∷ s')) true st x) { mtok = Token.m_inpar })
        ≡ mathparse_loop sh f pc (done m rest u' (just v ∷ st) y t)
  unfolding in_parens prec
  in_parens_lem s q v d y hq h m pc f st x s' rest t u' nx room le =
      let loop = mathparse_loop sh f in
      let m₁ = record m { mtok = Token.m_inpar } in
      let r = done m s' false (just v ∷ st) y Token.m_outpar in
      let inner =
        h.run m₁ 16 f true st x (b')' ∷ s') s' Token.m_outpar false hq (Next-close sh s')
          (outpar-Closes q hq) room le in
      let whole : parse_with sh loop top_prec (reading m₁ (s ++ (b')' ∷ s')) true st x) ≡ ran r =
        parse_with_lem sh loop top_prec (reading m₁ (s ++ (b')' ∷ s')) true st x) refl
        ∙ inner.2
        ∙ loop_stops sh inner.0 16 r (omega arith) (omega (arith, inner.1)) in
      ap
        (λ (o : Run (Math P)).
          and_then o
            λ z. if is_outpar z.mtok then and_then (next_token sh z) (loop pc) else ran (zerr z))
        whole
      ∙ ap (λ (o : Run (Math P)). and_then o (loop pc))
          (nx.lexes (record m { mtok = Token.m_outpar }) (just v ∷ st) y)

  pub parens-Parses :
      (s : List ℕ) (q q' v d y : ℕ)
      → q ≤ 16
      → 1 ≤ q'
      → Parses s q v d y
      → Parses (b'(' ∷ s ++ (b')' ∷ [])) q' v d y
  unfolding switch kind prec
  parens-Parses s q q' v d y hq hq' h = record {
    run = λ m pc fuel u st x s' rest t u' le_pc nx cl room le.
        let whole = (s ++ (b')' ∷ [])) ++ s' in
        let assoc : whole ≡ s ++ (b')' ∷ s') = append_assoc s (b')' ∷ []) s' in
        let size = length-append s (b')' ∷ s') in
        let size' = ap (λ (l : List ℕ). length l) assoc in
        let m₁ = λ (l : List ℕ). record (reading m l true st x) { mtok = Token.m_inpar } in
        after (length s') pc _ (mathparse_loop sh fuel pc (m₁ (s ++ (b')' ∷ s')))) _
          (ap (λ (o : Run (Math P)). and_then o (mathparse_loop sh fuel pc))
              (next_token_open sh m whole u st x)
            ∙ ap (λ (l : List ℕ). mathparse_loop sh fuel pc (m₁ l)) assoc)
          (round pc fuel (m₁ (s ++ (b')' ∷ s'))) _ (length s') (omega (arith, le_pc, hq')) refl
            (omega (arith, size, size', le))
            (λ f e. (
              f,
              omega (arith, e, size, size', le),
              in_parens_lem s q v d y hq h m pc f st x s' rest t u' nx room
                  (omega (arith, e, size', le)),
            )));
  }
