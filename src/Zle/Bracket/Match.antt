-- ===== src/Zle/Bracket/Match.antt =====
-- Bracket matching: the match of a match is the bracket one came from.
use winzsh.Prelude.{
  ℕ, zero, suc, ◌+◌, ◌-◌, ◌<◌, ◌≡◌, ◌≢◌, ◌∙◌, ◌⊎◌, inl, inr, refl, sym, true, false, Option, none,
  some, ◌==◌, if◌then◌else◌, Bool-cases, arith, ap,
}
use winzsh.Prelude.Int.{ℤ, pos}
use winzsh.Zle.Text.{Text}
use winzsh.Zle.Move.{Result, moved, at}
use winzsh.Zle.Bracket.{
  Bracket, bracket, count_by, match_up, match_down, matching, find_bracket, finish, negate,
  vimatchbracket,
}

module _ (m : ℕ → ℕ) (oth me : ℕ) (distinct : oth ≢ me) where
  -- The upward loop at `c` with the count `ct` is to end in `r`: the downward loop from `r`, with
  -- the two brackets exchanged, comes to `c + 1` with the same count.
  record Returns (c ct r : ℕ) : Type 0 where
    past : c < r
    open_still : 0 < ct
    byte : m r ≡ oth
    path : match_down m me oth r 1 ≡ match_down m me oth (suc c) ct

  count_by_inverse : (x ct : ℕ) → 0 < ct → count_by me oth x (count_by oth me x ct) ≡ ct
  count_by_inverse x ct h = ground arith

  -- One round back.
  match_down-suc :
      (c ct : ℕ)
      → 0 < ct
      → match_down m me oth (suc c) ct ≡ match_down m me oth c (count_by me oth (m c) ct)
  unfolding match_down
  match_down-suc c ct h = ground arith

  step_back :
      (c ct r : ℕ)
      → 0 < ct
      → ((suc c ≡ r) × (count_by oth me (m (suc c)) ct ≡ 0))
        ⊎ Returns (suc c) (count_by oth me (m (suc c)) ct) r
      → Returns c ct r
  step_back c ct r h (inl (e, z)) =
      let one : ct ≡ 1 = ground arith in
      let here : m (suc c) ≡ oth = ground arith in
      record { past = omega arith; open_still = h; byte = ground (arith, here); path = cc (e, one) }
  step_back c ct r h (inr s) = record {
    past = omega (arith, s.past);
    open_still = h;
    byte = s.byte;
    path =
        s.path
        ∙ match_down-suc (suc c) _ s.open_still
        ∙ ap (match_down m me oth (suc c)) (count_by_inverse (m (suc c)) ct h);
  }

  up_down :
      (n c ct r : ℕ)
      → match_up m oth me n c ct ≡ some r
      → (r < c + n) × (((c ≡ r) × (ct ≡ 0)) ⊎ Returns c ct r)
  unfolding match_up
  up_down zero c ct r h = cc h
  up_down (suc n) c ct r h = elim (Bool-cases (ct == 0)) [
    | inl z ↦
        let e : some c ≡ some r = rw z at h in (ground arith, inl (ground arith, ground arith))
    | inr nz ↦
        let e : match_up m oth me n (c + 1) (count_by oth me (m (c + 1)) ct) ≡ some r =
          rw nz at h in
        let s : c + 1 ≡ suc c = omega arith in
        let ih = up_down n (suc c) (count_by oth me (m (suc c)) ct) r (rw s at e) in
        (omega (arith, ih.0), inr (step_back c ct r (ground arith) ih.1))
  ]

find_here :
    (t : Text) (n c : ℕ) (b : Bracket)
    → 0 < n
    → bracket (t.line c) ≡ some b
    → find_bracket t n c ≡ some (c, b)
unfolding find_bracket bracket
find_here t zero c b h e = elim h [ ]
find_here t (suc n) c b h e = ground arith

opposite :
    (me : ℕ) (b : Bracket)
    → bracket me ≡ some b
    → b.up ≡ true
    → (bracket b.oth ≡ some (record { oth = me; up = false })) × (b.oth ≢ me)
unfolding bracket
opposite me b e up = (ground arith, ground arith)

finish_open :
    (t : Text) (b : Bracket) (o : Option ℕ) (r : ℕ)
    → finish t (pos 0) b o ≡ moved (at t r)
    → o ≡ some r
unfolding finish
finish_open t b none r e = cc
finish_open t b (some q) r e = ground (arith, ap (λ (x : Result). x.text.cs) e)

at_bracket :
    (t : Text) (flag : ℤ) (b : Bracket)
    → t.cs < t.ll
    → bracket (t.line t.cs) ≡ some b
    → (vimatchbracket flag t).0
      ≡ finish t (if b.up then flag else negate flag) b (matching t t.cs b)
unfolding vimatchbracket
at_bracket t flag b inside e = rw (find_here t (t.ll - t.cs) t.cs b (omega arith) e, vimatchbracket)

module _ (m : ℕ → ℕ) (oth me c r : ℕ) (distinct : oth ≢ me) where
  down_to : m c ≡ me → Returns m oth me distinct c 1 r → match_down m me (m r) r 1 ≡ some c
  down_to here s =
      let first : match_down m me (m r) r 1 ≡ match_down m me oth r 1 =
        ap (λ (x : ℕ). match_down m me x r 1) s.byte in
      let last : match_down m me oth c (count_by me oth (m c) 1) ≡ some c = rw here (stop c) in
      first ∙ s.path ∙ match_down-suc m oth me distinct c 1 (omega arith) ∙ last
    where
      stop : (c : ℕ) → match_down m me oth c (count_by me oth me 1) ≡ some c
      stop zero = unfold match_down in ground arith
      stop (suc c) = unfold match_down in ground arith

-- Where the cursor stands in the line on an opening bracket and the command, with no range, goes
-- to a place without a beep, that place lies behind it in the line and the command comes back
-- from there.
pub vimatchbracket-vimatchbracket :
    (t : Text) (b : Bracket) (r : ℕ)
    → t.cs < t.ll
    → bracket (t.line t.cs) ≡ some b
    → b.up ≡ true
    → (vimatchbracket (pos 0) t).0 ≡ moved (at t r)
    → (t.cs < r) × (r < t.ll) × ((vimatchbracket (pos 0) (at t r)).0 ≡ moved t)
vimatchbracket-vimatchbracket t b r inside e up found =
    let me = t.line t.cs in
    let other = opposite me b e up in
    let hit : match_up t.line b.oth me (t.ll - t.cs) t.cs 1 ≡ some r =
      finish_open t b _ r (sym (at_pos up) ∙ found) in
    let back = up_down t.line b.oth me other.1 (t.ll - t.cs) t.cs 1 r hit in
    let ret : Returns t.line b.oth me other.1 t.cs 1 r = not_here back.1 in
    let there : (vimatchbracket (pos 0) (at t r)).0 ≡ moved t =
      at_bracket (at t r) (pos 0) (record { oth = me; up = false }) (omega (arith, back.0))
        (ap bracket ret.byte ∙ other.0)
      ∙ (unfold matching finish in rw (down_to t.line b.oth me t.cs r other.1 refl ret)) in
    (ret.past, omega (arith, back.0), there)
  where
    at_pos :
        (u : b.up ≡ true)
        → (vimatchbracket (pos 0) t).0
          ≡ finish t (pos 0) b (match_up t.line b.oth (t.line t.cs) (t.ll - t.cs) t.cs 1)
    at_pos u = at_bracket t (pos 0) b inside e ∙ (unfold matching in rw u)

    not_here : {A : Type 0} → ((t.cs ≡ r) × (◌≡◌ {A = ℕ} 1 0)) ⊎ A → A
    not_here (inl (a, z)) = absurd (omega arith)
    not_here (inr a) = a
