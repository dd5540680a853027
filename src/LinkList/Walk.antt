-- ===== src/LinkList/Walk.antt =====
-- `newlinklist`, `countlinknodes` and `freelinklist` of Src/linklist.c on the list that a heap
-- holds.
use winzsh.Prelude.{
  ℕ, zero, suc, ◌+◌, ◌<◌, ◌≡◌, ◌∙◌, refl, ap, List, [], ◌∷◌, map, true, false, ◌==◌, arith,
}
use winzsh.Prelude.Lists.{length}
use winzsh.Prelude.Runs.{Run, ran, and_then}
use winzsh.LinkList.{
  Heap, zfree, newlinklist, countlinknodes_loop, countlinknodes, freelinklist_loop, freelinklist,
}
use winzsh.LinkList.Nodes.{away, distinct, all_below}
use winzsh.LinkList.Seg.{Seg, IsList}

-- Freed one after the other.
unfoldable pub back_onto : List ℕ → List ℕ → List ℕ
back_onto [] freed = freed
back_onto (n ∷ ns) freed = back_onto ns (n ∷ freed)

module _ {A : Type 0} (h : Heap A) where
  pub newlinklist-IsList : 0 < h.free → IsList (newlinklist h).1 (newlinklist h).0 []
  unfolding newlinklist Seg away distinct all_below
  newlinklist-IsList pos = record {
    linked = ground arith;
    ended = ground arith;
    apart = refl;
    real = ground (arith, pos);
    in_heap = ground arith;
  }

  count_from :
      (fuel p q ct : ℕ) (ns : List ℕ)
      → Seg h.next h.last p ns q
      → h.next q ≡ 0
      → away 0 ns ≡ true
      → length ns < fuel
      → countlinknodes_loop fuel (h.next p) ct h ≡ ran (ct + length ns)
  unfolding Seg away countlinknodes_loop
  count_from zero p q ct ns s z r hf = absurd (omega (arith, hf))
  count_from (suc f) p q ct [] s z r hf =
      rw (ap h.next s ∙ z, countlinknodes_loop) (ap ran (omega arith))
  count_from (suc f) p q ct (n ∷ ns) (e, k, s) z r hf =
      let some_node : (n == 0) ≡ false = ground (arith, r) in
      rw (e, some_node, countlinknodes_loop)
        (count_from f n q (ct + 1) ns s z (ground (arith, r)) (omega (arith, hf))
          ∙ ap ran (omega arith))

  abbrev pub with_freed : List ℕ → Heap A
  with_freed freed = record h { freed = freed }

  free_from :
      (fuel p q : ℕ) (ns freed : List ℕ)
      → Seg h.next h.last p ns q
      → h.next q ≡ 0
      → away 0 ns ≡ true
      → length ns < fuel
      → freelinklist_loop fuel (h.next p) (with_freed freed)
        ≡ ran (map h.dat ns, with_freed (back_onto ns freed))
  unfolding Seg away freelinklist_loop back_onto
  free_from zero p q ns freed s z r hf = absurd (omega (arith, hf))
  free_from (suc f) p q [] freed s z r hf = rw (ap h.next s ∙ z, freelinklist_loop) refl
  free_from (suc f) p q (n ∷ ns) freed (e, k, s) z r hf =
      let some_node : (n == 0) ≡ false = ground (arith, r) in
      rw (e, some_node, freelinklist_loop)
        (ap (λ (x : Run (List A × Heap A)). and_then x λ (ds, g). ran (h.dat n ∷ ds, g))
          (free_from f n q ns (n ∷ freed) s z (ground (arith, r)) (omega (arith, hf))))

  module _ (l : ℕ) (ns : List ℕ) (is : IsList h l ns) where
    all_real : away 0 ns ≡ true
    unfolding away
    all_real = ground (arith, is.real)

    -- x
    pub countlinknodes-length :
        (fuel : ℕ) → length ns < fuel → countlinknodes fuel l h ≡ ran (length ns)
    unfolding countlinknodes
    countlinknodes-length fuel hf =
        count_from fuel l (h.last l) 0 ns is.linked is.ended all_real hf ∙ ap ran (omega arith)

    pub freelinklist-IsList :
        (fuel : ℕ)
        → length ns < fuel
        → freelinklist fuel l h ≡ ran (map h.dat ns, with_freed (l ∷ back_onto ns h.freed))
    unfolding freelinklist
    freelinklist-IsList fuel hf =
        ap (λ (x : Run (List A × Heap A)). and_then x λ (ds, g). ran (ds, zfree g l))
          (free_from fuel l (h.last l) ns h.freed is.linked is.ended all_real hf)
