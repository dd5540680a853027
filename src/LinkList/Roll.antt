-- ===== src/LinkList/Roll.antt =====
-- `rolllist` of Src/linklist.c on the list that a heap holds.
use winzsh.Prelude.{
  ℕ, ◌≡◌, ◌∙◌, refl, sym, ap, List, [], ◌∷◌, ◌++◌, true, false, ◌==◌, ◌&&◌, subst, arith,
}
use winzsh.Prelude.Lists.{update}
use mathlib.Core.List.{append-nil}
use winzsh.LinkList.{Heap, set_next, set_last, rolllist}
use winzsh.LinkList.Nodes.{
  away, distinct, all_below, before, away_append, away-before, away_swap, all_below_append,
  distinct_swap, distinct_middle,
}
use winzsh.LinkList.Seg.{
  Seg, IsList, Seg-next, Seg-last, Seg-append, Seg-split, with_end, end-apart, end_away, end_before,
}

module _ {A : Type 0} where
  -- The first node before is `f`, the last one `q`, and the last one now is `v`.
  abbrev cut_open : Heap A → (l nd f q : ℕ) → Heap A
  cut_open h l nd f q = set_next (set_last (set_next h q f) f q) l nd

  abbrev closed : Heap A → (l nd v : ℕ) → Heap A
  closed h l nd v = set_last (set_last h l v) nd l

  abbrev rolled : Heap A → (l nd f q v : ℕ) → Heap A
  rolled h l nd f q v = set_next (closed (cut_open h l nd f q) l nd v) v 0

  rolllist-rolled :
      (h : Heap A) (l nd f q v : ℕ)
      → h.next l ≡ f
      → h.last l ≡ q
      → (l == q) ≡ false
      → (l == nd) ≡ false
      → update h.last f q nd ≡ v
      → rolllist l nd h ≡ rolled h l nd f q v
  unfolding rolllist
  rolllist-rolled h l nd f q v ef eq lq ln ev =
      ap (λ (x : ℕ). all_of (set_next h x (h.next l))) eq
      ∙ ap (λ (x : ℕ). all_of (set_next h q x)) ef
      ∙ ap (λ (x : ℕ). from_first (set_next h q f) x (h.last l)) (ground (arith, ef, lq))
      ∙ ap (λ (x : ℕ). from_first (set_next h q f) f x) eq
      ∙ ap (from_node (cut_open h l nd f q)) ev
      ∙ ap (from_end (closed (cut_open h l nd f q) l nd v)) (ground (arith, ln))
    where
      from_end : Heap A → ℕ → Heap A
      from_end g x = set_next g x 0

      from_node : Heap A → ℕ → Heap A
      from_node g x = let k = closed g l nd x in from_end k (k.last l)

      from_first : Heap A → ℕ → ℕ → Heap A
      from_first g x y = let k = set_next (set_last g x y) l nd in from_node k (k.last nd)

      all_of : Heap A → Heap A
      all_of g = from_first g (g.next l) (g.last l)

  -- A part of the old list that the writes leave alone.
  kept :
      (h : Heap A) (l nd f q v p r : ℕ) (ns : List ℕ)
      → Seg h.next h.last p ns r
      → away q (before p ns) ≡ true
      → away l (p ∷ ns) ≡ true
      → away v (before p ns) ≡ true
      → away f ns ≡ true
      → away nd ns ≡ true
      → Seg (rolled h l nd f q v).next (rolled h l nd f q v).last p ns r
  unfolding away
  kept h l nd f q v p r ns s hq hl hv hf hn =
      let s₁ = Seg-next h.next h.last q f p r ns hq s in
      let s₂ = Seg-next _ h.last l nd p r ns (away-before l p ns hl) s₁ in
      let s₃ = Seg-next _ h.last v 0 p r ns hv s₂ in
      let s₄ = Seg-last _ h.last f q p r ns hf s₃ in
      let s₅ = Seg-last _ _ l v p r ns (ground (arith, hl)) s₄ in Seg-last _ _ nd l p r ns hn s₅

  module _ (h : Heap A) (l nd : ℕ) (a b : List ℕ) (is : IsList h l (a ++ (nd ∷ b))) where
    turned_apart : distinct (l ∷ ((nd ∷ b) ++ a)) ≡ true
    unfolding distinct
    turned_apart = ground (
      arith,
      away_swap l a (nd ∷ b) (ground (arith, is.apart)),
      distinct_swap a (nd ∷ b) (ground (arith, is.apart)),
    )

    turned_real : away 0 (l ∷ ((nd ∷ b) ++ a)) ≡ true
    unfolding away
    turned_real = ground (arith, is.real, away_swap 0 a (nd ∷ b) (ground (arith, is.real)))

    turned_below : all_below h.free (l ∷ ((nd ∷ b) ++ a)) ≡ true
    unfolding all_below
    turned_below =
        ground (
          arith,
          is.in_heap,
          all_below_append h.free a (nd ∷ b),
          all_below_append h.free (nd ∷ b) a,
        )

  at_first :
      (h : Heap A) (l nd : ℕ) (b : List ℕ)
      → IsList h l (nd ∷ b)
      → IsList (rolllist l nd h) l ((nd ∷ b) ++ [])
  unfolding Seg away distinct
  at_first h l nd b is =
      let q = h.last l in
      let (e, k, s) = is.linked in
      let out : away l (nd ∷ b) ≡ true = ground (arith, is.apart) in
      let lq : (l == q) ≡ false = end-apart h.next h.last l nd q b s out in
      let ln : (l == nd) ≡ false = ground (arith, out) in
      let q_before : away q (before nd b) ≡ true =
        end_before h.next h.last nd q b [] s
          (ap distinct (append-nil (nd ∷ b)) ∙ ground (arith, is.apart)) in
      let inner =
        kept h l nd nd q q nd q b s q_before out q_before (ground (arith, is.apart))
          (ground (arith, is.apart)) in
      subst (λ (g : Heap A). IsList g l ((nd ∷ b) ++ []))
        (sym (rolllist-rolled h l nd nd q q e refl lq ln (ground arith)))
        (subst (IsList (rolled h l nd nd q q) l) (sym (append-nil (nd ∷ b))) (
          with_end (rolled h l nd nd q q) l q (nd ∷ b) (ground (arith, ln))
            (ground (arith, lq), ground arith, inner) (ground arith) is.apart is.real is.in_heap))

  further_on :
      (h : Heap A) (l nd f : ℕ) (a b : List ℕ)
      → IsList h l (f ∷ (a ++ (nd ∷ b)))
      → IsList (rolllist l nd h) l ((nd ∷ b) ++ (f ∷ a))
  unfolding Seg away distinct
  further_on h l nd f a b is =
      let q = h.last l in
      let (e, k, whole) = is.linked in
      let (m, s, (e', k', r)) = Seg-split h.next h.last f q a (nd ∷ b) whole in
      let apart = turned_apart h l nd (f ∷ a) b is in
      let out : away l (f ∷ (a ++ (nd ∷ b))) ≡ true = ground (arith, is.apart) in
      let out_a : away l (f ∷ a) ≡ true = ground (arith, out, away_append l a (nd ∷ b)) in
      let out_b : away l (nd ∷ b) ≡ true = ground (arith, out, away_append l a (nd ∷ b)) in
      let q_away : away q (f ∷ a) ≡ true =
        end_away h.next h.last nd q b (f ∷ a) r (ground (arith, apart)) in
      let q_before : away q (before nd b) ≡ true =
        end_before h.next h.last nd q b (f ∷ a) r (ground (arith, apart)) in
      let m_away : away m (nd ∷ b) ≡ true =
        end_away h.next h.last f m a (nd ∷ b) s (ground (arith, is.apart)) in
      let m_before : away m (before f a) ≡ true =
        end_before h.next h.last f m a (nd ∷ b) s (ground (arith, is.apart)) in
      let n_away : (away nd (f ∷ a) && away nd b) ≡ true =
        distinct_middle nd (f ∷ a) b (ground (arith, is.apart)) in
      let f_away : (away f (nd ∷ b) && away f a) ≡ true =
        distinct_middle f (nd ∷ b) a (ground (arith, apart)) in
      let lm : (l == m) ≡ false = end-apart h.next h.last l f m a s out_a in
      let lq : (l == q) ≡ false = end-apart h.next h.last l nd q b r out_b in
      let mq : (m == q) ≡ false = end-apart h.next h.last m nd q b r m_away in
      let g = rolled h l nd f q m in
      let first_part =
        kept h l nd f q m nd q b r q_before out_b (away-before m nd b m_away)
          (ground (arith, f_away)) (ground (arith, n_away)) in
      let second_part =
        kept h l nd f q m f m a s (away-before q f a q_away) out_a m_before (ground (arith, f_away))
          (ground (arith, n_away)) in
      let links : Seg g.next g.last l ((nd ∷ b) ++ (f ∷ a)) m = (
        ground (arith, lm),
        ground arith,
        Seg-append g.next g.last nd q m b (f ∷ a) first_part
            (ground (arith, lq, mq), ground (arith, f_away, out_a), second_part),
      ) in
      subst (λ (x : Heap A). IsList x l ((nd ∷ b) ++ (f ∷ a)))
        (sym (
          rolllist-rolled h l nd f q m e refl lq (ground (arith, out_b))
            (ground (arith, f_away, k'))))
        (with_end g l m ((nd ∷ b) ++ (f ∷ a)) (ground (arith, out_b)) links (ground arith) apart
          (turned_real h l nd (f ∷ a) b is) (turned_below h l nd (f ∷ a) b is))

  -- Where a heap holds a list with the node, `rolllist` leaves the list that begins at that node,
  -- with the nodes before it behind all others, and changes no datum.
  pub rolllist-IsList :
      (h : Heap A) (l nd : ℕ) (a b : List ℕ)
      → IsList h l (a ++ (nd ∷ b))
      → IsList (rolllist l nd h) l ((nd ∷ b) ++ a) × ((rolllist l nd h).dat ≡ h.dat)
  rolllist-IsList h l nd [] b is = (at_first h l nd b is, unfold rolllist in refl)
  rolllist-IsList h l nd (f ∷ a) b is = (further_on h l nd f a b is, unfold rolllist in refl)
