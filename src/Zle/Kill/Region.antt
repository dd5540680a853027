-- ===== src/Zle/Kill/Region.antt =====
-- Backward kills, and what `killregion` and `copyregionaskill` take.
use winzsh.Prelude.{
  ℕ, ◌+◌, ◌-◌, ◌≤◌, ◌≡◌, ◌∙◌, refl, sym, ap, ◌++◌, true, false, some, ltb, if◌then◌else◌,
  Bool-cases, inl, inr, arith,
}
use winzsh.Prelude.Lists.{slice}
use winzsh.Zle.Text.{Text, contents, shiftchars}
use winzsh.Zle.Text.Space.{contents-shiftchars, cs-shiftchars}
use winzsh.Zle.Move.{at}
use winzsh.Zle.Kill.{
  Editor, filled, cut, forekill, backkill, clip_mark, killregion, copyregionaskill,
}
use winzsh.Zle.Kill.Cut.{base, text-cut, text-forekill, cutbuf-cut, cutbuf-forekill}

-- `backkill` of what stands between `i` and the cursor.
unfoldable pub killed_back : ℕ → Editor → Editor
killed_back i e =
    let c = cut i (e.cs - i) true (record e { text = at e.text i }) in
    record c { text = shiftchars i (e.cs - i) c.text }

pub backkill-some :
    (i : ℕ) (e : Editor) → i ≤ e.cs → backkill (e.cs - i) true e ≡ some (killed_back i e)
unfolding backkill killed_back
backkill-some i e h =
    let back : e.cs - (e.cs - i) ≡ i = omega arith in
    let fits : ltb e.cs (e.cs - i) ≡ false = ground arith in rw (fits, back) refl

pub text-killed_back :
    (i : ℕ) (e : Editor) → (killed_back i e).text ≡ shiftchars i (e.cs - i) (at e.text i)
unfolding killed_back
text-killed_back i e = ap (shiftchars i (e.cs - i)) (text-cut i (e.cs - i) true _)

pub cutbuf-killed_back :
    (i : ℕ) (e : Editor)
    → e.gotvibufspec ≡ false
    → (killed_back i e).cutbuf ≡ filled (slice e.line i (e.cs - i) ++ base e) e.vilinerange
unfolding killed_back
cutbuf-killed_back i e g = cutbuf-cut i (e.cs - i) true (record e { text = at e.text i }) g

-- The two ends of the region.
abbrev pub region_low : Editor → ℕ
region_low e = let c = clip_mark e in if ltb c.cs c.mark then c.cs else c.mark

abbrev pub region_high : Editor → ℕ
region_high e = let c = clip_mark e in if ltb c.cs c.mark then c.mark else c.cs

-- With the cursor in the line and no buffer named, `killregion` succeeds, takes exactly the bytes
-- between the cursor and the mark out of the line, leaves the cursor where they began and in the
-- cut buffer what `copyregionaskill` leaves there, which leaves the line alone.
killregion-copyregionaskill :
    (e : Editor)
    → e.gotvibufspec ≡ false
    → e.cs ≤ e.ll
    → (r : Editor) × (killregion e ≡ some r)
      × (r.cs ≡ region_low e)
      × (contents r.text
          ≡ slice e.line 0 (region_low e) ++ slice e.line (region_high e) (e.ll - region_high e))
      × (r.cutbuf ≡ (copyregionaskill e).cutbuf)
      × (contents (copyregionaskill e).text ≡ contents e.text)
unfolding killregion copyregionaskill
killregion-copyregionaskill e g inside =
    let c = clip_mark e in
    elim (Bool-cases (ltb c.cs c.mark)) [
      | inl t ↦
          let n = c.mark - c.cs in
          let up : c.cs + n ≡ c.mark = ground (arith, t) in
          let text = text-forekill n false c in
          rw t (
            forekill n false c,
            refl,
            ap (λ (x : Text). x.cs) text ∙ cs-shiftchars c.cs n c.text,
            ap (λ (x : Text). contents x) text
                ∙ contents-shiftchars c.cs n c.text (ground (arith, up))
                ∙ ap (λ j. slice e.line 0 c.cs ++ slice e.line j (e.ll - j)) up,
            cutbuf-forekill n false c g ∙ sym (cutbuf-cut c.cs n false c g),
            ap (λ (x : Text). contents x) (text-cut c.cs n false c),
          )
      | inr f ↦
          let i = c.mark in
          let le : i ≤ c.cs = ground (arith, f) in
          let up : i + (c.cs - i) ≡ c.cs = omega (arith, le) in
          let text = text-killed_back i c in
          rw f (
            killed_back i c,
            backkill-some i c le,
            ap (λ (x : Text). x.cs) text ∙ cs-shiftchars i (c.cs - i) (at c.text i),
            ap (λ (x : Text). contents x) text
                ∙ contents-shiftchars i (c.cs - i) (at c.text i) (omega (arith, inside, up))
                ∙ ap (λ j. slice e.line 0 i ++ slice e.line j (e.ll - j)) up,
            cutbuf-killed_back i c g ∙ sym (cutbuf-cut i (c.cs - i) true c g),
            ap (λ (x : Text). contents x) (text-cut i (c.cs - i) true c),
          )
    ]
