-- ===== src/Modifiers/Subst/Laws.antt =====
-- What `subst` of Src/hist.c replaces.
use winzsh.Prelude.{
  ℕ, zero, suc, ◌≤◌, ◌<◌, ◌≡◌, ◌∙◌, refl, ap, List, [], ◌∷◌, ◌++◌, Bool, true, false, ◌==◌, ◌||◌,
  Bool-cases, inl, inr, Option, none, some, if◌then◌else◌, arith,
}
use mathlib.Core.Path.{ap₂}
use mathlib.Core.List.{append_assoc}
use winzsh.Prelude.Lists.{length, length-append}
use winzsh.Prelude.Runs.{ran}
use winzsh.Prelude.Strings.{Str}
use winzsh.Modifiers.Subst.{prepend, strip, or_later, strstr, convamps, subst_loop, subst_in, subst}

abbrev Begins : (inn s : Str) → Option Str → Type 0
Begins inn s none = (y : Str) → s ≡ inn ++ y → ⊥
Begins inn s (some b) = s ≡ inn ++ b

abbrev tail : Str → Str
tail [] = []
tail (c ∷ s) = s

abbrev head : Str → ℕ
head [] = 0
head (c ∷ s) = c

strip-Begins : (inn s : Str) → Begins inn s (strip inn s)
unfolding strip
strip-Begins [] s = refl
strip-Begins (c ∷ inn) [] = λ y e. absurd (cc e)
strip-Begins (c ∷ inn) (x ∷ s) = elim (Bool-cases (x == c)) [
  | inl e ↦ rw (e, strip) (longer c x inn s (strip inn s) (ground (arith, e)) (strip-Begins inn s))
  | inr e ↦ rw (e, strip) (λ y p. absurd (ground (arith, e, ap head p)))
]
  where
    longer :
        (c x : ℕ) (inn s : Str) (r : Option Str)
        → x ≡ c
        → Begins inn s r
        → Begins (c ∷ inn) (x ∷ s) r
    longer c x inn s none e h = λ y p. h y (ap tail p)
    longer c x inn s (some b) e h = ap₂ (λ (a : ℕ) (t : Str). a ∷ t) e h

-- `inn` stands in `s` between `a` and `b`, and at no place before that.
pub record First (inn s a b : Str) : Type 0 where
  pub whole : s ≡ a ++ (inn ++ b)
  pub leftmost : (x y : Str) → s ≡ x ++ (inn ++ y) → length a ≤ length x

abbrev pub Nowhere : (inn s : Str) → Type 0
Nowhere inn s = (x y : Str) → s ≡ x ++ (inn ++ y) → ⊥

abbrev Found : (inn s : Str) → Option (Str × Str) → Type 0
Found inn s none = Nowhere inn s
Found inn s (some (a, b)) = First inn s a b

at_once : (inn s b : Str) → s ≡ inn ++ b → First inn s [] b
at_once inn s b e = record { whole = e; leftmost = λ x y p. omega arith }

or_later-Found :
    (c : ℕ) (inn s : Str) (r : Option Str) (q : Option (Str × Str))
    → Begins inn (c ∷ s) r
    → Found inn s q
    → Found inn (c ∷ s) (or_later c r q)
or_later-Found c inn s (some b) q h k = at_once inn (c ∷ s) b h
or_later-Found c inn s none none h k = nowhere
  where
    nowhere : Nowhere inn (c ∷ s)
    nowhere [] y p = h y p
    nowhere (x ∷ xs) y p = k xs y (ap tail p)
or_later-Found c inn s none (some (a, b)) h k = record {
  whole = ap (λ (t : Str). c ∷ t) k.whole;
  leftmost = later;
}
  where
    later : (x y : Str) → c ∷ s ≡ x ++ (inn ++ y) → length (c ∷ a) ≤ length x
    later [] y p = absurd (h y p)
    later (x ∷ xs) y p = omega (arith, k.leftmost xs y (ap tail p))

strstr-Found : (s inn : Str) → Found inn s (strstr s inn)
unfolding strstr
strstr-Found [] inn = in_nothing (strip inn []) (strip-Begins inn [])
  where
    in_nothing : (r : Option Str) → Begins inn [] r → Found inn [] (or_later 0 r none)
    in_nothing (some b) h = at_once inn [] b h
    in_nothing none h = nowhere
      where
        nowhere : Nowhere inn []
        nowhere [] y p = h y p
        nowhere (x ∷ xs) y p = absurd (cc p)
strstr-Found (c ∷ s) inn =
    or_later-Found c inn s (strip inn (c ∷ s)) (strstr s inn) (strip-Begins inn (c ∷ s))
      (strstr-Found s inn)

-- `r` is `s` with `new` for `inn`, at the first place or, where `gbal`, at one place after the other,
-- each the first behind the last.
pub data Replaced (inn new : Str) : (gbal : Bool) → (s r : Str) → Type 0 where
  nowhere_left : (gbal : Bool) (s : Str) → Nowhere inn s → Replaced inn new gbal s s
  once_only : (s a b : Str) → First inn s a b → Replaced inn new false s (a ++ (new ++ b))
  once_more :
      (s a b r : Str)
      → First inn s a b
      → Replaced inn new true b r
      → Replaced inn new true s (a ++ (new ++ r))

-- The right side of `s/inn/out/`: bytes, and the place of what was found.
pub data Part : Type 0 where
  char : ℕ → Part
  whole_match : Part

abbrev pub is_special : ℕ → Bool
is_special c = c == b'\\' || c == b'&'

unfoldable pub written_parts : List Part → Str
written_parts [] = []
written_parts (char c ∷ p) =
    let rest = written_parts p in if is_special c then b'\\' ∷ c ∷ rest else c ∷ rest
written_parts (whole_match ∷ p) = b'&' ∷ written_parts p

unfoldable pub put_together : Str → List Part → Str
put_together inn [] = []
put_together inn (char c ∷ p) = c ∷ put_together inn p
put_together inn (whole_match ∷ p) = inn ++ put_together inn p

convamps_plain :
    (c : ℕ) (o inn : Str)
    → (c == b'\\') ≡ false
    → convamps (c ∷ o) inn ≡ prepend (if c == b'&' then inn else c ∷ []) (convamps o inn)
unfolding convamps
convamps_plain c [] inn e = rw (e, convamps) refl
convamps_plain c (d ∷ o) inn e = rw (e, convamps) refl

convamps_special :
    (c : ℕ) (o inn : Str) → convamps (b'\\' ∷ c ∷ o) inn ≡ prepend (c ∷ []) (convamps o inn)
unfolding convamps
convamps_special c o inn = refl

convamps_char :
    (c : ℕ) (o inn m : Str)
    → convamps o inn ≡ ran m
    → convamps (if is_special c then b'\\' ∷ c ∷ o else c ∷ o) inn ≡ ran (c ∷ m)
convamps_char c o inn m h = elim (Bool-cases (is_special c)) [
  | inl e ↦ rw e (convamps_special c o inn ∙ ap (prepend (c ∷ [])) h)
  | inr e ↦
      let amp : (c == b'&') ≡ false = ground (arith, e) in
      rw e (
        convamps_plain c o inn (ground (arith, e))
        ∙ ap (λ (b : Bool). prepend (if b then inn else c ∷ []) (convamps o inn)) amp
        ∙ ap (prepend (c ∷ [])) h)
]

convamps-written :
    (p : List Part) (inn : Str) → convamps (written_parts p) inn ≡ ran (put_together inn p)
unfolding written_parts put_together
convamps-written [] inn = unfold convamps in refl
convamps-written (char c ∷ p) inn =
    convamps_char c (written_parts p) inn (put_together inn p) (convamps-written p inn)
convamps-written (whole_match ∷ p) inn =
    convamps_plain b'&' (written_parts p) inn refl ∙ ap (prepend inn) (convamps-written p inn)

module _ (c : ℕ) (i new : Str) where
  abbrev inn : Str
  inn = c ∷ i

  shorter : (s a b : Str) → First inn s a b → length b < length s
  shorter s a b h = omega (arith, ap length h.whole, length-append a (inn ++ b), length-append i b)

  -- The rounds on `s` have a result.
  abbrev Replaces : (fuel : ℕ) → Str → Type 0
  Replaces fuel s = (r : Str) × (subst_loop fuel new inn s ≡ ran r) × Replaced inn new true s r

  next_round :
      (f : ℕ) (s : Str) (q : Option (Str × Str))
      → Found inn s q
      → strstr s inn ≡ q
      → ((b : Str) → length b < length s → Replaces f b)
      → Replaces (suc f) s
  unfolding subst_loop
  next_round f s none h e ih = (s, rw (e, subst_loop) refl, nowhere_left true s h)
  next_round f s (some (a, b)) h e ih =
      let (r, ran_r, done) = ih b (shorter s a b h) in
      (
        a ++ (new ++ r),
        rw (e, ran_r, subst_loop) (ap ran (append_assoc a new r)),
        once_more s a b r h done,
      )

  subst_loop-Replaced : (fuel : ℕ) (s : Str) → length s < fuel → Replaces fuel s
  subst_loop-Replaced zero s hf = absurd (omega (arith, hf))
  subst_loop-Replaced (suc f) s hf =
      next_round f s (strstr s inn) (strstr-Found s inn) refl
        (λ b lt. subst_loop-Replaced f b (omega (arith, hf, lt)))

  subst_in-Replaced :
      (s out : Str) (gbal : Bool) (q : Option (Str × Str))
      → convamps out inn ≡ ran new
      → Found inn s q
      → strstr s inn ≡ q
      → (r : Str) × (subst_in s inn out gbal ≡ ran r) × Replaced inn new gbal s r
  unfolding subst_in
  subst_in-Replaced s out gbal none conv h e = (s, rw (e, subst_in) refl, nowhere_left gbal s h)
  subst_in-Replaced s out false (some (a, b)) conv h e =
      (a ++ (new ++ b), rw (e, conv, subst_in) (ap ran (append_assoc a new b)), once_only s a b h)
  subst_in-Replaced s out true (some (a, b)) conv h e =
      let (r, ran_r, done) = subst_loop-Replaced (suc (length b)) b (omega arith) in
      (
        a ++ (new ++ r),
        rw (e, conv, ran_r, subst_in) (ap ran (append_assoc a new r)),
        once_more s a b r h done,
      )

-- `subst` of a string that is not empty has a result, whatever bytes and places of the match its
-- replacement, written with backslashes and `&`, is made of: with the replacement at the first
-- place where the string stands, or, with `gbal`, at one place after the other, each the first
-- behind the last, and the rest as it was.
pub subst-Replaced :
    (str : Str) (c : ℕ) (i : Str) (p : List Part) (gbal : Bool)
    → (r : Str) × (subst str (c ∷ i) (written_parts p) gbal ≡ ran r)
      × Replaced (c ∷ i) (put_together (c ∷ i) p) gbal str r
unfolding subst
subst-Replaced str c i p gbal =
    subst_in-Replaced c i (put_together (c ∷ i) p) str (written_parts p) gbal (strstr str (c ∷ i))
      (convamps-written p (c ∷ i)) (strstr-Found str (c ∷ i)) refl
