-- ===== src/Tests/Lists.antt =====
-- Linked lists at concrete inputs.
use winzsh.Prelude.{ℕ, ◌≡◌, refl, List, [], ◌∷◌, ◌++◌, map, some, arith}
use winzsh.Prelude.Runs.{ran}
use winzsh.LinkList.{
  Heap, newlinklist, insertlinknode, insertlinklist, uremnode, remnode, rolllist, countlinknodes,
  freelinklist,
}
use winzsh.LinkList.Nodes.{away, distinct, all_below}
use winzsh.LinkList.Seg.{Seg, IsList}
use winzsh.LinkList.Insert.{insertlinknode-refines}
use winzsh.LinkList.Remove.{Removed, remnode-Removed}
use winzsh.LinkList.Roll.{rolllist-IsList}
use winzsh.LinkList.Splice.{insertlinklist-IsList}
use winzsh.LinkList.Queue.{fill, drain, drain-fill}

abbrev nothing : Heap ℕ
nothing = record { next = λ x. 0; last = λ x. 0; dat = λ x. 0; free = 1; freed = [] }

abbrev numbers : List ℕ
numbers = 7 ∷ 8 ∷ 9 ∷ []

-- The list at 1, its nodes at 2, 3 and 4.
abbrev three : Heap ℕ
three = fill numbers 1 (newlinklist nothing).1

three-IsList : IsList three 1 (2 ∷ 3 ∷ 4 ∷ [])
unfolding fill newlinklist insertlinknode Seg away distinct all_below
three-IsList = record {
  linked = (refl, refl, (refl, refl, (refl, refl, refl)));
  ended = refl;
  apart = refl;
  real = refl;
  in_heap = refl;
}

insertlinknode-refines_example :
    (ns : List ℕ) × IsList (insertlinknode 1 3 5 three) 1 ns
    × (map (insertlinknode 1 3 5 three).dat ns
        ≡ map three.dat (2 ∷ 3 ∷ []) ++ (5 ∷ map three.dat (4 ∷ [])))
insertlinknode-refines_example =
    insertlinknode-refines three 1 3 5 (2 ∷ 3 ∷ []) (4 ∷ []) three-IsList
      (unfold fill newlinklist insertlinknode Seg in (refl, refl, (refl, refl, refl)))

remnode-Removed_example :
    Removed three 1 3 (2 ∷ []) (4 ∷ []) three.freed (uremnode 1 3 three)
    × Removed three 1 3 (2 ∷ []) (4 ∷ []) (3 ∷ three.freed) (remnode 1 3 three)
remnode-Removed_example = remnode-Removed three 1 3 (2 ∷ []) (4 ∷ []) three-IsList

rolllist-IsList_example :
    IsList (rolllist 1 3 three) 1 ((3 ∷ 4 ∷ []) ++ (2 ∷ []))
    × ((rolllist 1 3 three).dat ≡ three.dat)
rolllist-IsList_example = rolllist-IsList three 1 3 (2 ∷ []) (4 ∷ []) three-IsList

drain-fill_example :
    (countlinknodes 4
        (newlinklist nothing).0
        (fill numbers (newlinklist nothing).0 (newlinklist nothing).1)
      ≡ ran 3)
    × (drain 3
          (newlinklist nothing).0
          (fill numbers (newlinklist nothing).0 (newlinklist nothing).1)
        ≡ map some numbers)
    × ((g : Heap ℕ) × (freelinklist 4
            (newlinklist nothing).0
            (fill numbers (newlinklist nothing).0 (newlinklist nothing).1)
          ≡ ran (numbers, g)))
drain-fill_example = drain-fill nothing numbers 4 (omega arith) (omega arith)

-- A second list at 5, its nodes at 6 and 7.
abbrev both : Heap ℕ
both = fill (1 ∷ 2 ∷ []) 5 (newlinklist three).1

first-IsList : IsList both 1 (2 ∷ 3 ∷ 4 ∷ [])
unfolding fill newlinklist insertlinknode Seg away distinct all_below
first-IsList = record {
  linked = (refl, refl, (refl, refl, (refl, refl, refl)));
  ended = refl;
  apart = refl;
  real = refl;
  in_heap = refl;
}

second-IsList : IsList both 5 (6 ∷ 7 ∷ [])
unfolding fill newlinklist insertlinknode Seg away distinct all_below
second-IsList = record {
  linked = (refl, refl, (refl, refl, refl));
  ended = refl;
  apart = refl;
  real = refl;
  in_heap = refl;
}

insertlinklist-IsList_example :
    IsList (insertlinklist 5 3 1 both) 1 ((2 ∷ 3 ∷ []) ++ ((6 ∷ 7 ∷ []) ++ (4 ∷ [])))
    × ((insertlinklist 5 3 1 both).dat ≡ both.dat)
insertlinklist-IsList_example =
    insertlinklist-IsList both 5 1 3 (2 ∷ 3 ∷ []) (4 ∷ []) (6 ∷ 7 ∷ []) first-IsList second-IsList
      (unfold fill newlinklist insertlinknode Seg in (refl, refl, (refl, refl, refl)))
      (unfold distinct away in refl)
