-- ===== src/Zle/Undo/RoundTrip.antt =====
-- `undo` after `addundo`.
use winzsh.Prelude.{
  ℕ, zero, suc, ◌+◌, ◌-◌, ◌%◌, ◌≤◌, ◌<◌, ◌≡◌, ◌≢◌, ◌∙◌, min, refl, sym, ap, List, ◌++◌, Bool, true,
  false, some, ◌==◌, ◌&&◌, inl, inr, Bool-cases, arith, zero-add,
}
use mathlib.Core.Path.{ap₂}
use mathlib.Core.List.{append_assoc}
use winzsh.Prelude.Lists.{
  update, slice, write, length, length-slice, slice_congr, slice-injective, split_three,
  slice-write_upto,
}
use winzsh.Zle.Scan.{skip_up-le, Run-skip_up, StopsUp, skip_up-StopsUp}
use winzsh.Zle.Text.{Text, contents}
use winzsh.Zle.Undo.{
  UndoEnt, History, prefix, suffix_loop, suffix, addundo, restored, undo, undo_size,
}

abbrev pub last_contents : History → List ℕ
last_contents u = slice u.lastline 0 u.lastll

-- What the two loops find: the lines agree on the first `pf` and on the last `sf` bytes, and
-- these do not overlap in either.
record Agrees (u : History) (pf sf : ℕ) : Type 0 where
  fits : pf + sf ≤ u.ll
  last_fits : pf + sf ≤ u.lastll
  front : (j : ℕ) → j < pf → u.line j ≡ u.lastline j
  back : (k : ℕ) → k < sf → u.line (u.ll - sf + k) ≡ u.lastline (u.lastll - sf + k)

prefix-le : (u : History) → prefix u ≤ min u.ll u.lastll
unfolding prefix
prefix-le u = skip_up-le (λ j. u.line j == u.lastline j) (min u.ll u.lastll) 0 (omega arith)

suffix_loop_stops : (u : History) (n : ℕ) → suffix_loop u n 0 ≡ 0
unfolding suffix_loop
suffix_loop_stops u zero = refl
suffix_loop_stops u (suc n) = ground (arith, prefix-le u)

-- The second loop makes no round.
suffix_zero : (u : History) → suffix u ≡ 0
unfolding suffix
suffix_zero u = suffix_loop_stops u u.ll

loops-Agrees : (u : History) → Agrees u (prefix u) (suffix u)
loops-Agrees u = rw (suffix_zero u) (record {
  fits = omega (arith, prefix-le u);
  last_fits = omega (arith, prefix-le u);
  front = λ j h. ground (arith, run j);
  back = λ k h. absurd (omega arith);
})
  where
    run : (j : ℕ) → 0 ≤ j → j < prefix u → (u.line j == u.lastline j) ≡ true
    run = unfold prefix in Run-skip_up (λ j. u.line j == u.lastline j) (min u.ll u.lastll) 0

contents-restored :
    (u : History) (ue : UndoEnt)
    → Agrees u ue.pref ue.suff
    → contents (restored ue (slice u.lastline ue.pref (u.lastll - ue.suff - ue.pref)) u.text)
      ≡ last_contents u
unfolding restored
contents-restored u ue a =
    ap (slice (write (write m pf change) (pf + length change) s) 0) size
    ∙ slice-write_upto (write m pf change) (pf + length change) s
    ∙ ap₂ (λ (x y : List ℕ). x ++ y) (slice-write_upto m pf change) tail
    ∙ ap (λ (x : List ℕ). (x ++ change) ++ slice u.lastline (u.lastll - sf) sf) head
    ∙ append_assoc _ change _
    ∙ sym whole
  where
    pf : ℕ
    pf = ue.pref

    sf : ℕ
    sf = ue.suff

    n : ℕ
    n = u.lastll - sf - pf

    change : List ℕ
    change = slice u.lastline pf n

    m : ℕ → ℕ
    m = update u.line u.ll 0

    s : List ℕ
    s = slice m (u.ll - sf) sf

    size : pf + sf + length change ≡ pf + length change + length s
    size = omega (arith, length-slice m (u.ll - sf) sf)

    head : slice m 0 pf ≡ slice u.lastline 0 pf
    head = slice_congr m u.lastline 0 0 pf (λ k h. ground (arith, a.front (0 + k), a.fits))

    tail : s ≡ slice u.lastline (u.lastll - sf) sf
    tail =
        slice_congr m u.lastline (u.ll - sf) (u.lastll - sf) sf
          (λ k h. ground (arith, a.back k, a.fits))

    ends : (pf + n ≡ u.lastll - sf) × (u.lastll - (pf + n) ≡ sf)
    ends = omega (arith, a.last_fits)

    whole :
        last_contents u ≡ slice u.lastline 0 pf ++ (change ++ slice u.lastline (u.lastll - sf) sf)
    whole =
        split_three u.lastline pf n u.lastll (omega (arith, a.last_fits))
        ∙ ap₂ (λ i k. slice u.lastline 0 pf ++ (change ++ slice u.lastline i k)) ends.0 ends.1

-- The test of `addundo`.
abbrev unchanged : History → Bool
unchanged u = prefix u == u.ll && prefix u == u.lastll

same→unchanged : (u : History) → contents u.text ≡ last_contents u → unchanged u ≡ true
same→unchanged u e = ground (arith, stops.stop, at_stop, lengths, stops.upto)
  where
    p : ℕ → Bool
    p j = u.line j == u.lastline j

    stops : StopsUp p (min u.ll u.lastll) 0 (prefix u)
    stops = unfold prefix in skip_up-StopsUp p (min u.ll u.lastll) 0 (omega arith)

    lengths : u.ll ≡ u.lastll
    lengths =
        sym (length-slice u.line 0 u.ll)
        ∙ ap (λ (x : List ℕ). length x) e
        ∙ length-slice u.lastline 0 u.lastll

    cells : slice u.line 0 u.ll ≡ slice u.lastline 0 u.ll
    cells = e ∙ ap (slice u.lastline 0) (sym lengths)

    at_stop : prefix u < u.ll → u.line (prefix u) ≡ u.lastline (prefix u)
    at_stop h = rw zero-add at (slice-injective u.line u.lastline 0 u.ll (prefix u) cells h)

unchanged→same : (u : History) → unchanged u ≡ true → contents u.text ≡ last_contents u
unchanged→same u t =
    let a = loops-Agrees u in
    let lengths : (prefix u ≡ u.ll) × (u.ll ≡ u.lastll) = ground arith in
    slice_congr u.line u.lastline 0 0 u.ll (λ k h. ground (arith, a.front (0 + k), lengths.0))
    ∙ ap (slice u.lastline 0) lengths.1

undo-some :
    (u : History) (ue : UndoEnt) (change : List ℕ)
    → u.undos u.undoct ≡ ue
    → ue.change ≡ some change
    → ((undo u).text ≡ restored ue change u.text)
      × ((undo u).undoct ≡ (u.undoct + undo_size - 1) % undo_size)
unfolding undo
undo-some u ue change e c = (ground arith, ground arith)

-- The entry that `addundo` makes.
abbrev entry : History → UndoEnt
entry u = record {
  pref = prefix u;
  suff = suffix u;
  cs = u.lastcs;
  change = some (slice u.lastline (prefix u) (u.lastll - suffix u - prefix u));
}

addundo-entry :
    (u : History)
    → unchanged u ≡ false
    → ((addundo u).undos (addundo u).undoct ≡ entry u)
      × ((addundo u).undoct ≡ (u.undoct + 1) % undo_size)
      × ((addundo u).text ≡ u.text)
unfolding addundo
addundo-entry u t = rw t (ground arith, refl, refl)

-- Where the line is the last one, `addundo` changes nothing.
pub addundo_same : (u : History) → contents u.text ≡ last_contents u → addundo u ≡ u
addundo_same u e = unfold addundo in rw (same→unchanged u e)

-- Where the line is not the last one and the place in the ring of entries is one of the ring,
-- `undo` after `addundo` gives back the contents of the last line, its cursor and the place.
pub undo-addundo :
    (u : History)
    → u.undoct < undo_size
    → contents u.text ≢ last_contents u
    → (contents (undo (addundo u)).text ≡ last_contents u)
      × ((undo (addundo u)).text.cs ≡ u.lastcs)
      × ((undo (addundo u)).undoct ≡ u.undoct)
undo-addundo u h ne = elim (Bool-cases (unchanged u)) [
  | inl t ↦ absurd (ne (unchanged→same u t))
  | inr f ↦
      let a = addundo-entry u f in
      let r = undo-some (addundo u) (entry u) _ a.0 refl in
      let text = r.0 ∙ ap (restored (entry u) _) a.2 in
      (
        ap (λ (t : Text). contents t) text ∙ contents-restored u (entry u) (loops-Agrees u),
        ap (λ (t : Text). t.cs) text ∙ (unfold restored in refl),
        omega (arith, r.1, a.1),
      )
]

-- Where the line is not the last one, the entry that `addundo` records has no suffix, and its
-- bytes are all those of the last line behind the prefix.
pub addundo_suff :
    (u : History)
    → contents u.text ≢ last_contents u
    → (((addundo u).undos (addundo u).undoct).suff ≡ 0)
      × (((addundo u).undos (addundo u).undoct).change
          ≡ some (slice u.lastline (prefix u) (u.lastll - prefix u)))
addundo_suff u ne = elim (Bool-cases (unchanged u)) [
  | inl t ↦ absurd (ne (unchanged→same u t))
  | inr f ↦
      let e = (addundo-entry u f).0 in
      (
        ap (λ (x : UndoEnt). x.suff) e ∙ suffix_zero u,
        ap (λ (x : UndoEnt). x.change) e
            ∙ ap (λ n. some (slice u.lastline (prefix u) n)) (omega (arith, suffix_zero u)),
      )
]
