-- ===== src/Math/Lex/Shorter.antt =====
-- A token of `zzlex` takes at least a byte, unless it is EOI, and what else the lexer leaves alone.
use winzsh.Prelude.{
  if_both, ℕ, suc, ◌≤◌, ◌≡◌, ◌⊎◌, inl, inr, refl, List, [], ◌∷◌, Bool, true, false, Option, none,
  some, Bool-cases, Option-cases, subst, ◌==◌, arith,
}
use winzsh.Prelude.Lists.{length}
use winzsh.Chars.{idigit, iident, meta}
use winzsh.Meta.{flip}
use winzsh.Math.Token.{Token}
use winzsh.Math.State.{Shell, Math}
use winzsh.Math.Lex.{
  Punct, Numeral, punct, skip_space, char_code, lv_count, number, numeral, lex_identifier, lex_hash,
  hex_prefix, lex_other, lex_byte, zzlex,
}
use winzsh.Math.Lex.Rest.{
  Within, AllWithin, punct-Within, identifier-lt, skip_space-le, bracket_number-le, plain_number-le,
  hex_number-le,
}

unfoldable pub is_eoi : Token → Bool
is_eoi Token.eoi = true
is_eoi _ = false

module _ {P : Type 0} where
  -- After a token `t` was read in the state `m`, with `n` bytes left: the token is EOI or at most
  -- `n` bytes are left, and no more than before in any case. The lexer leaves the stack, `noeval`
  -- and the parameters alone, and does not take an error back.
  pub record Read (m : Math P) (n : ℕ) (t : Token) (r : Math P) : Type 0 where
    pub shorter : (is_eoi t ≡ true) ⊎ (length r.ptr ≤ n)
    pub within : length r.ptr ≤ suc n
    pub same_stack : r.stack ≡ m.stack
    pub same_noeval : r.noeval ≡ m.noeval
    pub same_params : r.params ≡ m.params
    pub keeps_error : m.errflag ≡ true → r.errflag ≡ true

  unfoldable pub AllRead : Math P → ℕ → Option (Token × Math P) → Type 0
  AllRead m n none = Unit
  AllRead m n (some (t, r)) = Read m n t r

  module _ (sh : Shell P) where
    number-Read :
        (m : Math P) (v n : ℕ) (rest : List ℕ) → length rest ≤ n → AllRead m n (number sh m v rest)
    unfolding AllRead
    number-Read m v n rest le = record {
      shorter = inr le;
      within = omega (arith, le);
      same_stack = refl;
      same_noeval = refl;
      same_params = refl;
      keeps_error = λ e. e;
    }

    numeral-Read :
        (m : Math P) (n : ℕ) (x : Numeral) → length x.1 ≤ n → AllRead m n (numeral sh m x)
    unfolding AllRead
    numeral-Read m n x le = record {
      shorter = inr le;
      within = omega (arith, le);
      same_stack = refl;
      same_noeval = refl;
      same_params = refl;
      keeps_error = λ e. e;
    }

    lex_identifier-Read :
        (t : Token) (m : Math P) (c : ℕ) (p : List ℕ) (n : ℕ)
        → iident c ≡ true
        → length p ≤ n
        → AllRead m n (lex_identifier sh t m (c ∷ p))
    unfolding lex_identifier AllRead is_eoi
    lex_identifier-Read t m c p n h le =
        let size = identifier-lt c p h in
        if_both (AllRead m n) (length m.lvals == lv_count)
          (λ e. record {
            shorter = inl refl;
            within = omega (arith, le);
            same_stack = refl;
            same_noeval = refl;
            same_params = refl;
            keeps_error = λ e. refl;
          })
          (λ e. record {
            shorter = inr (omega (arith, size, le));
            within = omega (arith, size, le);
            same_stack = refl;
            same_noeval = refl;
            same_params = refl;
            keeps_error = λ e. e;
          })

    char_code-Read :
        (m : Math P) (p : List ℕ) (n : ℕ)
        → length p ≤ n
        → AllRead m n (elim (char_code p) [ none ↦ none | some (v, rest) ↦ number sh m v rest ])
    unfolding char_code AllRead
    char_code-Read m [] n le = tt
    char_code-Read m (c ∷ []) n le = elim (Bool-cases (c == meta)) [
      | inl e ↦ rw e tt
      | inr e ↦ rw e (number-Read m c n [] (omega (arith, le)))
    ]
    char_code-Read m (c ∷ d ∷ p) n le = elim (Bool-cases (c == meta)) [
      | inl e ↦ rw e (number-Read m (flip d) n p (omega (arith, le)))
      | inr e ↦ rw e (number-Read m c n (d ∷ p) (omega (arith, le)))
    ]

    lex_hash-Read : (m : Math P) (p : List ℕ) (n : ℕ) → length p ≤ n → AllRead m n (lex_hash sh m p)
    unfolding lex_hash
    lex_hash-Read m [] n le = number-Read m sh.positionals n [] le
    lex_hash-Read m (c ∷ p) n le =
        if_both (AllRead m n) (c == 92) (λ e. char_code-Read m p n (omega (arith, le)))
          (λ e.
            if_both (AllRead m n) (iident c)
              (λ h. lex_identifier-Read Token.cid m c p n h (omega (arith, le)))
              (λ h. number-Read m sh.positionals n (c ∷ p) le))

    lex_other-Read :
        (m : Math P) (c : ℕ) (p : List ℕ) (n : ℕ) → length p ≤ n → AllRead m n (lex_other sh m c p)
    unfolding lex_other
    lex_other-Read m c p n le =
        if_both Q (c == 36) (λ e. number-Read m sh.mypid n p le)
          λ e.
            if_both Q (c == 63) (λ e. number-Read m sh.lastval n p le)
              λ e.
                if_both Q (c == 91)
                  (λ e. numeral-Read m n _ (omega (arith, bracket_number-le p, le)))
                  λ e.
                    if_both Q (hex_prefix c p)
                      (λ e. numeral-Read m n _ (omega (arith, hex_number-le p, le)))
                      λ e.
                        if_both Q (idigit c)
                          (λ h.
                            numeral-Read m n _
                              (omega (arith, plain_number-le m.lastbase c p h, le)))
                          λ e.
                            if_both Q (c == 35) (λ e. lex_hash-Read m p n le)
                              λ e.
                                if_both Q (iident c)
                                  (λ h. lex_identifier-Read Token.id m c p n h le) λ e. illegal
      where
        Q : Option (Token × Math P) → Type 0
        Q = AllRead m n

        illegal : AllRead m n (some (Token.eoi, record m { ptr = c ∷ p }))
        illegal =
            unfold AllRead is_eoi in
            record {
              shorter = inl refl;
              within = omega (arith, le);
              same_stack = refl;
              same_noeval = refl;
              same_params = refl;
              keeps_error = λ e. e;
            }

    punct-Read :
        (m : Math P) (c : ℕ) (p : List ℕ) (n : ℕ) (r : Punct)
        → length p ≤ n
        → Within p r
        → Read m n r.0 (record m { ptr = r.2; unary = r.1 })
    punct-Read m c p n r le w = record {
      shorter = inr (omega (arith, w, le));
      within = omega (arith, w, le);
      same_stack = refl;
      same_noeval = refl;
      same_params = refl;
      keeps_error = λ e. e;
    }

    lex_byte-Read :
        (m : Math P) (p : List ℕ) (n : ℕ) → length p ≤ suc n → AllRead m n (lex_byte sh m p)
    unfolding lex_byte AllRead
    lex_byte-Read m [] n le = record {
      shorter = inl (unfold is_eoi in refl);
      within = omega arith;
      same_stack = refl;
      same_noeval = refl;
      same_params = refl;
      keeps_error = λ e. e;
    }
    lex_byte-Read m (c ∷ p) n le = elim (Option-cases (punct m.unary c p)) [
      | inl e ↦ rw (e, lex_byte) (lex_other-Read m c p n (omega (arith, le)))
      | inr (r, e) ↦
          rw (e, lex_byte)
            (punct-Read m c p n r (omega (arith, le))
              (subst (AllWithin p) e (punct-Within m.unary c p)))
    ]

    -- `zzlex` in a state with `n + 1` bytes left at most.
    pub zzlex-Read : (m : Math P) (n : ℕ) → length m.ptr ≤ suc n → AllRead m n (zzlex sh m)
    unfolding zzlex
    zzlex-Read m n le =
        lex_byte-Read m (skip_space m.ptr) n (omega (arith, skip_space-le m.ptr, le))

    -- At the end of the string it reads EOI, and stays there.
    pub zzlex_nil :
        (m : Math P)
        → m.ptr ≡ []
        → zzlex sh m ≡ some (Token.eoi, record m { ptr = []; unary = true })
    unfolding zzlex skip_space lex_byte
    zzlex_nil m e = rw e refl
