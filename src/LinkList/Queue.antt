-- ===== src/LinkList/Queue.antt =====
-- A linked list as a queue: `newlinklist`, `addlinknode` and `getlinknode` of Src/linklist.c.
use winzsh.Prelude.{
  ℕ, zero, suc, ◌<◌, ◌≡◌, ◌∙◌, refl, sym, ap, List, [], ◌∷◌, ◌++◌, map, Option, some, subst,
}
use mathlib.Core.Path.{ap₂}
use mathlib.Core.List.{append_assoc, append-nil}
use winzsh.Prelude.Lists.{length}
use winzsh.Prelude.Runs.{ran}
use winzsh.LinkList.{Heap, newlinklist, addlinknode, getlinknode, countlinknodes, freelinklist}
use winzsh.LinkList.Seg.{IsList}
use winzsh.LinkList.Insert.{insertlinknode-refines}
use winzsh.LinkList.Remove.{top, getlinknode-top}
use winzsh.LinkList.Walk.{
  newlinklist-IsList, back_onto, with_freed, countlinknodes-length, freelinklist-IsList,
}

module _ {A : Type 0} where
  -- `addlinknode` for each, and `getlinknode` again and again.
  unfoldable pub fill : List A → (l : ℕ) → Heap A → Heap A
  fill [] l h = h
  fill (d ∷ ds) l h = fill ds l (addlinknode l d h)

  unfoldable pub drain : (times l : ℕ) → Heap A → List (Option A)
  drain zero l h = []
  drain (suc n) l h = (getlinknode l h).0 ∷ drain n l (getlinknode l h).1

  abbrev behind_top : List A → List A
  behind_top [] = []
  behind_top (d ∷ ds) = ds

  length-map : (f : ℕ → A) (ns : List ℕ) → length (map f ns) ≡ length ns
  length-map f [] = refl
  length-map f (n ∷ ns) = ap suc (length-map f ns)

  -- The list at `l` holds the data `ds`.
  pub record Holds (h : Heap A) (l : ℕ) (ds : List A) : Type 0 where
    pub nodes : List ℕ
    pub is_list : IsList h l nodes
    pub data_are : map h.dat nodes ≡ ds

  addlinknode-Holds :
      (h : Heap A) (l : ℕ) (ds : List A) (d : A)
      → Holds h l ds
      → Holds (addlinknode l d h) l (ds ++ (d ∷ []))
  addlinknode-Holds h l ds d w =
      let ns = w.nodes in
      let (ms, is, e) =
        insertlinknode-refines h l (h.last l) d ns []
          (subst (λ (x : List ℕ). IsList h l x) (sym (append-nil ns)) w.is_list) w.is_list.linked in
      record {
        nodes = ms;
        is_list = is;
        data_are = e ∙ ap (λ (x : List A). x ++ (d ∷ [])) w.data_are;
      }

  fill-Holds :
      (h : Heap A) (l : ℕ) (ds es : List A) → Holds h l ds → Holds (fill es l h) l (ds ++ es)
  unfolding fill
  fill-Holds h l ds [] w = subst (Holds h l) (sym (append-nil ds)) w
  fill-Holds h l ds (e ∷ es) w =
      subst (Holds (fill es l (addlinknode l e h)) l) (append_assoc ds (e ∷ []) es)
        (fill-Holds (addlinknode l e h) l (ds ++ (e ∷ [])) es (addlinknode-Holds h l ds e w))

  newlinklist-Holds : (h : Heap A) → 0 < h.free → Holds (newlinklist h).1 (newlinklist h).0 []
  newlinklist-Holds h pos = record {
    nodes = [];
    is_list = newlinklist-IsList h pos;
    data_are = refl;
  }

  getlinknode-Holds :
      (h : Heap A) (l : ℕ) (d : A) (ds : List A)
      → Holds h l (d ∷ ds)
      → ((getlinknode l h).0 ≡ some d) × Holds (getlinknode l h).1 l ds
  getlinknode-Holds h l d ds w = by_nodes w.nodes w.is_list w.data_are
    where
      by_nodes :
          (ns : List ℕ)
          → IsList h l ns
          → map h.dat ns ≡ d ∷ ds
          → ((getlinknode l h).0 ≡ some d) × Holds (getlinknode l h).1 l ds
      by_nodes [] is e = absurd (cc e)
      by_nodes (n ∷ ns) is e =
          let (got, left, same) = getlinknode-top h l (n ∷ ns) is in
          (
            got ∙ ap top e,
            record {
              nodes = ns;
              is_list = left;
              data_are = ap (λ (f : ℕ → A). map f ns) same ∙ ap behind_top e;
            },
          )

  drain-Holds :
      (h : Heap A) (l : ℕ) (ds : List A) → Holds h l ds → drain (length ds) l h ≡ map some ds
  unfolding drain
  drain-Holds h l [] w = refl
  drain-Holds h l (d ∷ ds) w =
      let (got, left) = getlinknode-Holds h l d ds w in
      ap₂ (λ (x : Option A) (xs : List (Option A)). x ∷ xs) got
        (drain-Holds (getlinknode l h).1 l ds left)

  countlinknodes-Holds :
      (h : Heap A) (l : ℕ) (ds : List A) (fuel : ℕ)
      → Holds h l ds
      → length ds < fuel
      → countlinknodes fuel l h ≡ ran (length ds)
  countlinknodes-Holds h l ds fuel w hf =
      let e : length w.nodes ≡ length ds = sym (length-map h.dat w.nodes) ∙ ap length w.data_are in
      countlinknodes-length h l w.nodes w.is_list fuel (subst (λ (n : ℕ). n < fuel) (sym e) hf)
      ∙ ap ran e

  freelinklist-Holds :
      (h : Heap A) (l : ℕ) (ds : List A) (fuel : ℕ)
      → Holds h l ds
      → length ds < fuel
      → (g : Heap A) × (freelinklist fuel l h ≡ ran (ds, g))
  freelinklist-Holds h l ds fuel w hf =
      let e : length w.nodes ≡ length ds = sym (length-map h.dat w.nodes) ∙ ap length w.data_are in
      let freed =
        freelinklist-IsList h l w.nodes w.is_list fuel (subst (λ (n : ℕ). n < fuel) (sym e) hf) in
      let g = with_freed h (l ∷ back_onto w.nodes h.freed) in
      (g, freed ∙ ap (λ (x : List A). ran (x, g)) w.data_are)

  -- In every heap whose next free address is not null, a list from `newlinklist` that
  -- `addlinknode` gives data one by one has, with more fuel than there are data, as many nodes
  -- for `countlinknodes`; `getlinknode` returns the data in that order; and `freelinklist` passes
  -- them to its function in that order.
  pub drain-fill :
      (h : Heap A) (ds : List A) (fuel : ℕ)
      → 0 < h.free
      → length ds < fuel
      → (countlinknodes fuel (newlinklist h).0 (fill ds (newlinklist h).0 (newlinklist h).1)
          ≡ ran (length ds))
        × (drain (length ds) (newlinklist h).0 (fill ds (newlinklist h).0 (newlinklist h).1)
            ≡ map some ds)
        × ((g : Heap A) × (freelinklist fuel
                (newlinklist h).0
                (fill ds (newlinklist h).0 (newlinklist h).1)
              ≡ ran (ds, g)))
  drain-fill h ds fuel pos hf =
      let (l, h₁) = newlinklist h in
      let w = fill-Holds h₁ l [] ds (newlinklist-Holds h pos) in
      (
        countlinknodes-Holds (fill ds l h₁) l ds fuel w hf,
        drain-Holds (fill ds l h₁) l ds w,
        freelinklist-Holds (fill ds l h₁) l ds fuel w hf,
      )
