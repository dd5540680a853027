-- ===== src/LinkList/Splice.antt =====
-- `insertlinklist` of Src/linklist.c on the two lists that a heap holds.
pub mod Parts
use winzsh.Prelude.{
  ℕ, ◌≡◌, ◌∙◌, refl, sym, ap, List, [], ◌∷◌, ◌++◌, Bool, true, false, ◌==◌, ◌&&◌, Bool-cases, subst,
  inl, inr, if◌then◌else◌, arith,
}
use winzsh.Prelude.Lists.{update}
use mathlib.Core.List.{append-nil, append_assoc}
use winzsh.LinkList.{Heap, is_null, set_next, set_last, insertlinklist}
use winzsh.LinkList.Nodes.{
  away, distinct, all_below, before, away_append, away-before, all_below_append, distinct_turn,
  distinct_remove, distinct_swap, distinct_middle,
}
use winzsh.LinkList.Seg.{
  Seg, IsList, Seg-next, Seg-last, Seg-append, Seg-rest, with_end, end-apart, end_away, end_before,
}
use winzsh.LinkList.Splice.Parts.{
  spliced, kept, spliced_apart, spliced_real, spliced_in_heap, without_head, e_away, f_away,
  first_parts, insertlinklist-cases,
}

module _ {A : Type 0} where
  at_end :
      (h : Heap A) (l x place f : ℕ) (a ns : List ℕ)
      → IsList h x (a ++ [])
      → IsList h l (f ∷ ns)
      → Seg h.next h.last x a place
      → distinct ((x ∷ (a ++ [])) ++ (l ∷ f ∷ ns)) ≡ true
      → IsList (insertlinklist l place x h) x (a ++ ((f ∷ ns) ++ []))
  unfolding Seg away distinct
  at_end h l x place f a ns into from s apart =
      let e = h.last l in
      let g = spliced h place f e x in
      let q : place ≡ h.last x = Seg-rest h.next h.last x place (h.last x) a [] into.linked s in
      let z : h.next place ≡ 0 = ap h.next q ∙ into.ended in
      let sp = spliced_apart h l x place f a [] ns into from s apart in
      let x_a : away x a ≡ true = ground (arith, sp, away_append x a ((f ∷ ns) ++ [])) in
      let x_f : away x (f ∷ ns) ≡ true =
        ground (arith, sp, away_append x a ((f ∷ ns) ++ []), away_append x ns []) in
      let links = first_parts h l x place f a [] ns into from s apart x x_a x_f in
      subst (λ (k : Heap A). IsList k x (a ++ ((f ∷ ns) ++ [])))
        (sym
          (insertlinklist-cases h l x place f a [] ns into from s apart true (ground (arith, z))))
        (with_end g x e (a ++ ((f ∷ ns) ++ [])) (ground arith)
          (subst (λ (t : List ℕ). Seg g.next g.last x (a ++ t) e) (sym (append-nil (f ∷ ns))) links)
          (ground (arith, z)) sp (spliced_real h l x place f a [] ns into from s apart)
          (spliced_in_heap h l x place f a [] ns into from s apart))

  inside :
      (h : Heap A) (l x place f n : ℕ) (a b ns : List ℕ)
      → IsList h x (a ++ (n ∷ b))
      → IsList h l (f ∷ ns)
      → Seg h.next h.last x a place
      → distinct ((x ∷ (a ++ (n ∷ b))) ++ (l ∷ f ∷ ns)) ≡ true
      → IsList (insertlinklist l place x h) x (a ++ ((f ∷ ns) ++ (n ∷ b)))
  unfolding Seg away distinct
  inside h l x place f n a b ns into from s apart =
      let e = h.last l in
      let q = h.last x in
      let g = spliced h place f e n in
      let (nx, pn, r) = Seg-rest h.next h.last x place q a (n ∷ b) into.linked s in
      let z : (n == 0) ≡ false = ground (arith, into.real, away_append 0 a (n ∷ b)) in
      let sp = spliced_apart h l x place f a (n ∷ b) ns into from s apart in
      let n_out : (away n (x ∷ a) && away n (b ++ (f ∷ ns))) ≡ true =
        distinct_middle n (x ∷ a) (b ++ (f ∷ ns)) (
          ap distinct (sym (append_assoc (x ∷ a) (n ∷ b) (f ∷ ns)))
          ∙ without_head h l x place f a (n ∷ b) ns into from s apart) in
      let n_a : away n a ≡ true = ground (arith, n_out) in
      let n_b : (away n b && away n (f ∷ ns)) ≡ true =
        ground (arith, n_out, away_append n b (f ∷ ns)) in
      let e_out : away e (n ∷ b) ≡ true = ground (
        arith,
        e_away h l x place f a (n ∷ b) ns into from s apart,
        away_append e (x ∷ a) (n ∷ b),
      ) in
      let p_out : away place (n ∷ b) ≡ true =
        end_away h.next h.last x place a (n ∷ b) s into.apart in
      let f_out : (away f (x ∷ a) && away f b) ≡ true =
        ground
          (arith, f_away h l x place f a (n ∷ b) ns into from s apart, away_append f ns (n ∷ b)) in
      let links =
        first_parts h l x place f a (n ∷ b) ns into from s apart n n_a (ground (arith, n_b)) in
      let behind =
        kept h place f e n n q b r (away-before place n b p_out) (away-before e n b e_out)
          (ground (arith, f_out)) (ground (arith, n_b)) in
      let eq : (e == q) ≡ false = end-apart h.next h.last e n q b r e_out in
      let pq : (place == q) ≡ false = end-apart h.next h.last place n q b r p_out in
      let all : Seg g.next g.last x ((a ++ (f ∷ ns)) ++ (n ∷ b)) q =
        Seg-append g.next g.last x e q (a ++ (f ∷ ns)) (n ∷ b) links
          (ground (arith, nx), ground arith, behind) in
      subst (λ (k : Heap A). IsList k x (a ++ ((f ∷ ns) ++ (n ∷ b))))
        (sym (
          insertlinklist-cases h l x place f a (n ∷ b) ns into from s apart false
            (ground (arith, nx, z))
          ∙ ap (spliced h place f e) nx))
        (with_end g x q (a ++ ((f ∷ ns) ++ (n ∷ b))) (ground (arith, f_out, n_out))
          (subst (λ (t : List ℕ). Seg g.next g.last x t q) (append_assoc a (f ∷ ns) (n ∷ b)) all)
          (ground (arith, eq, pq, into.ended)) sp
          (spliced_real h l x place f a (n ∷ b) ns into from s apart)
          (spliced_in_heap h l x place f a (n ∷ b) ns into from s apart))

  -- The inserted list is empty.
  of_nothing : (h : Heap A) (l place x : ℕ) → IsList h l [] → insertlinklist l place x h ≡ h
  unfolding insertlinklist Seg
  of_nothing h l place x from =
      let z : h.next l ≡ 0 = ap h.next from.linked ∙ from.ended in rw (z, insertlinklist) refl

  insertlinklist_dat : (h : Heap A) (l place x : ℕ) → (insertlinklist l place x h).dat ≡ h.dat
  unfolding insertlinklist
  insertlinklist_dat h l place x = elim (Bool-cases (is_null (h.next l))) [
    | inl e ↦ rw (e, insertlinklist) refl
    | inr e ↦ elim (Bool-cases (is_null (h.next place))) [
      | inl k ↦ rw (e, k, insertlinklist) refl
      | inr k ↦ rw (e, k, insertlinklist) refl
    ]
  ]

  -- Where a heap holds two lists with no node in common, and a node of the second, the list
  -- itself being one, ends its first part, `insertlinklist` of the first list behind that node
  -- leaves at the second a list of the nodes of its first part, those of the first list and the
  -- rest, and changes no datum.
  pub insertlinklist-IsList :
      (h : Heap A) (l x place : ℕ) (a b ns : List ℕ)
      → IsList h x (a ++ b)
      → IsList h l ns
      → Seg h.next h.last x a place
      → distinct ((x ∷ (a ++ b)) ++ (l ∷ ns)) ≡ true
      → IsList (insertlinklist l place x h) x (a ++ (ns ++ b))
        × ((insertlinklist l place x h).dat ≡ h.dat)
  insertlinklist-IsList h l x place a b [] into from s apart = (
    subst (λ (k : Heap A). IsList k x (a ++ b)) (sym (of_nothing h l place x from)) into,
    insertlinklist_dat h l place x,
  )
  insertlinklist-IsList h l x place a [] (f ∷ ns) into from s apart =
      (at_end h l x place f a ns into from s apart, insertlinklist_dat h l place x)
  insertlinklist-IsList h l x place a (n ∷ b) (f ∷ ns) into from s apart =
      (inside h l x place f n a b ns into from s apart, insertlinklist_dat h l place x)
