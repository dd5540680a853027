-- ===== src/LinkList/Splice/Parts.antt =====
-- The parts of the two lists that `insertlinklist` of Src/linklist.c joins.
use winzsh.Prelude.{
  ℕ, ◌≡◌, ◌∙◌, refl, sym, ap, List, ◌∷◌, ◌++◌, Bool, true, false, ◌==◌, ◌&&◌, if◌then◌else◌, arith,
}
use winzsh.Prelude.Lists.{update}
use mathlib.Core.List.{append_assoc}
use winzsh.LinkList.{Heap, is_null, set_next, set_last, insertlinklist}
use winzsh.LinkList.Nodes.{
  away, distinct, all_below, before, away_append, away-before, all_below_append, distinct_turn,
  distinct_remove, distinct_swap, distinct_middle,
}
use winzsh.LinkList.Seg.{
  Seg, IsList, Seg-next, Seg-last, Seg-append, end-apart, end_away, end_before,
}

module _ {A : Type 0} where
  -- `f` and `e` are the ends of the other list; the last write is at `w`.
  abbrev pub spliced : Heap A → (place f e w : ℕ) → Heap A
  spliced h place f e w =
      set_last (set_last (set_next (set_next h place f) e (h.next place)) f place) w e

  insertlinklist-spliced :
      (h : Heap A) (l place x f e : ℕ) (b : Bool)
      → h.next l ≡ f
      → h.last l ≡ e
      → (f == 0) ≡ false
      → (l == place) ≡ false
      → (l == e) ≡ false
      → (l == f) ≡ false
      → is_null (h.next place) ≡ b
      → insertlinklist l place x h
        ≡ (if b then spliced h place f e x else spliced h place f e (h.next place))
  unfolding insertlinklist
  insertlinklist-spliced h l place x f e b ef ee fz lp le lf eb =
      let second : update (update h.next place f) e (h.next place) l ≡ f =
        ground (arith, ef, lp, le) in
      let end : update h.last f place l ≡ e = ground (arith, ee, lf) in
      ap (λ (y : ℕ). from_first y (h.next l)) ef
      ∙ ap (λ (y : ℕ). from_first f y) ef
      ∙ ap (λ (y : ℕ). from_end f y (set_next h place f)) ee
      ∙ ap (λ (y : ℕ). from_second f (set_next (set_next h place f) e (h.next place)) y) second
      ∙ ap
          (λ (y : ℕ).
            at_last f (set_last (set_next (set_next h place f) e (h.next place)) f place) y)
          end
      ∙ ap
          (λ (y : Bool).
            if y
            then h
            else if is_null (h.next place)
            then spliced h place f e x
            else spliced h place f e (h.next place))
          fz
      ∙ ap (λ (y : Bool). if y then spliced h place f e x else spliced h place f e (h.next place))
          eb
    where
      at_last : ℕ → Heap A → ℕ → Heap A
      at_last first g y =
          if is_null first
          then h
          else if is_null (h.next place)
          then set_last g x y
          else set_last g (h.next place) y

      from_second : ℕ → Heap A → ℕ → Heap A
      from_second first g y = let k = set_last g y place in at_last first k (k.last l)

      from_end : ℕ → ℕ → Heap A → Heap A
      from_end first y g = let k = set_next g y (h.next place) in from_second first k (k.next l)

      from_first : ℕ → ℕ → Heap A
      from_first y first = let k = set_next h place y in from_end first (k.last l) k

  -- A part of the old lists that the writes leave alone.
  pub kept :
      (h : Heap A) (place f e w p r : ℕ) (ns : List ℕ)
      → Seg h.next h.last p ns r
      → away place (before p ns) ≡ true
      → away e (before p ns) ≡ true
      → away f ns ≡ true
      → away w ns ≡ true
      → Seg (spliced h place f e w).next (spliced h place f e w).last p ns r
  kept h place f e w p r ns s hp he hf hw =
      let s₁ = Seg-next h.next h.last place f p r ns hp s in
      let s₂ = Seg-next _ h.last e (h.next place) p r ns he s₁ in
      let s₃ = Seg-last _ h.last f place p r ns hf s₂ in Seg-last _ _ w e p r ns hw s₃

  -- The list at `l`, its first node `f`, goes into the list at `x` behind the end of `a`.
  module _ (h : Heap A) (l x place f : ℕ) (a b ns : List ℕ) (into : IsList h x (a ++ b))
      (from : IsList h l (f ∷ ns)) (s : Seg h.next h.last x a place)
      (apart : distinct ((x ∷ (a ++ b)) ++ (l ∷ f ∷ ns)) ≡ true) where
    -- Without the head of the inserted list.
    pub without_head : distinct (((x ∷ a) ++ b) ++ (f ∷ ns)) ≡ true
    without_head = distinct_remove l ((x ∷ a) ++ b) (f ∷ ns) apart

    pub spliced_apart : distinct (x ∷ (a ++ ((f ∷ ns) ++ b))) ≡ true
    spliced_apart =
        distinct_turn (x ∷ a) b (f ∷ ns)
          (ap distinct (sym (append_assoc (x ∷ a) b (f ∷ ns))) ∙ without_head)

    pub spliced_real : away 0 (x ∷ (a ++ ((f ∷ ns) ++ b))) ≡ true
    unfolding away
    spliced_real = ground (
      arith,
      into.real,
      from.real,
      away_append 0 a b,
      away_append 0 a ((f ∷ ns) ++ b),
      away_append 0 (f ∷ ns) b,
    )

    pub spliced_in_heap : all_below h.free (x ∷ (a ++ ((f ∷ ns) ++ b))) ≡ true
    unfolding all_below
    spliced_in_heap = ground (
      arith,
      into.in_heap,
      from.in_heap,
      all_below_append h.free a b,
      all_below_append h.free a ((f ∷ ns) ++ b),
      all_below_append h.free (f ∷ ns) b,
    )

    turned : distinct (f ∷ (ns ++ ((x ∷ a) ++ b))) ≡ true
    turned = distinct_swap ((x ∷ a) ++ b) (f ∷ ns) without_head

    pub e_away : away (h.last l) ((x ∷ a) ++ b) ≡ true
    unfolding Seg
    e_away = end_away h.next h.last f (h.last l) ns ((x ∷ a) ++ b) (from.linked.2) turned

    e_before : away (h.last l) (before f ns) ≡ true
    unfolding Seg
    e_before = end_before h.next h.last f (h.last l) ns ((x ∷ a) ++ b) (from.linked.2) turned

    place-away : away place ((f ∷ ns) ++ b) ≡ true
    place-away = end_away h.next h.last x place a ((f ∷ ns) ++ b) s spliced_apart

    pub f_away : (away f (x ∷ a) && away f (ns ++ b)) ≡ true
    f_away = distinct_middle f (x ∷ a) (ns ++ b) spliced_apart

    -- The inserted list's own links.
    l_apart : ((l == place) ≡ false) × ((l == h.last l) ≡ false) × ((l == f) ≡ false)
    unfolding Seg away distinct
    l_apart =
        let l_out = distinct_middle l ((x ∷ a) ++ b) (f ∷ ns) apart in
        (
          end-apart h.next h.last l x place a s (ground (arith, l_out, away_append l (x ∷ a) b)),
          end-apart h.next h.last l f (h.last l) ns (from.linked.2) (ground (arith, l_out)),
          ground (arith, l_out),
        )

    pub insertlinklist-cases :
        (n : Bool)
        → is_null (h.next place) ≡ n
        → insertlinklist l place x h ≡ (
            if n
            then spliced h place f (h.last l) x
            else spliced h place f (h.last l) (h.next place))
    unfolding Seg away
    insertlinklist-cases n e =
        let (lp, le, lf) = l_apart in
        insertlinklist-spliced h l place x f (h.last l) n from.linked.0 refl
          (ground (arith, from.real)) lp le lf e

    -- The first two parts, the last write being at `w`.
    pub first_parts :
        (w : ℕ)
        → away w a ≡ true
        → away w (f ∷ ns) ≡ true
        → Seg
            (spliced h place f (h.last l) w).next
            (spliced h place f (h.last l) w).last
            x
            (a ++ (f ∷ ns))
            (h.last l)
    unfolding Seg away
    first_parts w hw hf =
        let e = h.last l in
        let g = spliced h place f e w in
        let p_away : away place (f ∷ ns) ≡ true =
          ground (arith, place-away, away_append place (f ∷ ns) b) in
        let pe : (place == e) ≡ false =
          end-apart h.next h.last place f e ns (from.linked.2) p_away in
        let f_ns : away f ns ≡ true = ground (arith, f_away, away_append f ns b) in
        let front =
          kept h place f e w x place a s
            (end_before h.next h.last x place a ((f ∷ ns) ++ b) s spliced_apart)
            (away-before e x a (ground (arith, e_away, away_append e (x ∷ a) b)))
            (ground (arith, f_away)) hw in
        let middle =
          kept h place f e w f e ns (from.linked.2) (away-before place f ns p_away) e_before f_ns
            (ground (arith, hf)) in
        Seg-append g.next g.last x place e a (f ∷ ns) front
          (ground (arith, pe), ground (arith, hf), middle)
