-- ===== src/LinkList.antt =====
-- The doubly linked lists of Src/linklist.c, on a heap. An address is a number, and 0 the null
-- pointer. A list is read as a node, as the source casts it: `first` is its `next`.
pub mod Nodes
pub mod Seg
pub mod Insert
pub mod Remove
pub mod Walk
pub mod Queue
pub mod Roll
pub mod Splice
use winzsh.Prelude.{
  ℕ, zero, suc, ◌+◌, List, [], ◌∷◌, Bool, true, false, ◌==◌, Option, none, some, if◌then◌else◌,
}
use winzsh.Prelude.Lists.{update}
use winzsh.Prelude.Runs.{Run, ran, stuck, unfinished, and_then}

-- `free` is the address that `alloc` returns next, and `freed` what `zfree` got, the last one first.
-- What is freed is not allocated again.
pub record Heap (A : Type 0) : Type 0 where
  pub next : ℕ → ℕ
  pub last : ℕ → ℕ
  pub dat : ℕ → A
  pub free : ℕ
  pub freed : List ℕ

abbrev pub is_null : ℕ → Bool
is_null x = x == 0

module _ {A : Type 0} where
  abbrev pub set_next : Heap A → ℕ → ℕ → Heap A
  set_next h x v = record h { next = update h.next x v }

  abbrev pub set_last : Heap A → ℕ → ℕ → Heap A
  set_last h x v = record h { last = update h.last x v }

  abbrev pub set_dat : Heap A → ℕ → A → Heap A
  set_dat h x d = record h { dat = update h.dat x d }

  abbrev pub alloc : Heap A → Heap A
  alloc h = record h { free = suc h.free }

  abbrev pub zfree : Heap A → ℕ → Heap A
  zfree h x = record h { freed = x ∷ h.freed }

  -- The list, and the heap.
  unfoldable pub newlinklist : Heap A → ℕ × Heap A
  newlinklist h = (h.free, set_last (set_next (alloc h) h.free 0) h.free h.free)

  unfoldable pub insertlinknode : (list node : ℕ) → A → Heap A → Heap A
  insertlinknode list node dat h =
      let tmp = h.next node in
      let new = h.free in
      let h₁ =
        set_next (set_dat (set_last (set_next (alloc h) node new) new node) new dat) new tmp in
      if is_null tmp then set_last h₁ list new else set_last h₁ tmp new

  abbrev pub addlinknode : (list : ℕ) → A → Heap A → Heap A
  addlinknode list dat h = insertlinknode list (h.last list) dat h

  -- The list `l` behind the node `place` of the list `x`.
  unfoldable pub insertlinklist : (l place x : ℕ) → Heap A → Heap A
  insertlinklist l place x h =
      let nx = h.next place in
      let h₁ = set_next h place (h.next l) in
      let h₂ = set_next h₁ (h₁.last l) nx in
      let h₃ = set_last h₂ (h₂.next l) place in
      if is_null (h.next l)
      then h
      else if is_null nx
      then set_last h₃ x (h₃.last l)
      else set_last h₃ nx (h₃.last l)

  -- A node is taken out; `uremnode` is this and `dat`.
  unfoldable pub uremnode : (list nd : ℕ) → Heap A → A × Heap A
  uremnode list nd h =
      let h₁ = set_next h (h.last nd) (h.next nd) in
      let h₂ =
        if is_null (h₁.next nd)
        then set_last h₁ list (h₁.last nd)
        else set_last h₁ (h₁.next nd) (h₁.last nd) in
      (h₂.dat nd, h₂)

  unfoldable pub remnode : (list nd : ℕ) → Heap A → A × Heap A
  remnode list nd h = let (d, h') = uremnode list nd h in (d, zfree h' nd)

  -- The top node; `none` is the null pointer.
  unfoldable pub ugetnode : (list : ℕ) → Heap A → Option A × Heap A
  ugetnode list h =
      let node = h.next list in
      let h₁ = set_next h list (h.next node) in
      let h₂ =
        if is_null (h₁.next node) then set_last h₁ list list else set_last h₁ (h₁.next node) list in
      if is_null node then (none, h) else (some (h.dat node), h₂)

  abbrev pub with_zfree : Option A × Heap A → ℕ → Option A × Heap A
  with_zfree (none, h) x = (none, h)
  with_zfree (some d, h) x = (some d, zfree h x)

  unfoldable pub getlinknode : (list : ℕ) → Heap A → Option A × Heap A
  getlinknode list h = with_zfree (ugetnode list h) (h.next list)

  -- The loop of `freelinklist`: what is passed to `freefunc`, and the heap.
  unfoldable pub freelinklist_loop : (fuel node : ℕ) → Heap A → Run (List A × Heap A)
  freelinklist_loop zero node h = unfinished
  freelinklist_loop (suc fuel) node h =
      let rest =
        and_then (freelinklist_loop fuel (h.next node) (zfree h node))
          λ (ds, h'). ran (h.dat node ∷ ds, h') in
      if is_null node then ran ([], h) else rest

  unfoldable pub freelinklist : (fuel list : ℕ) → Heap A → Run (List A × Heap A)
  freelinklist fuel list h =
      and_then (freelinklist_loop fuel (h.next list) h) λ (ds, h'). ran (ds, zfree h' list)

  unfoldable pub countlinknodes_loop : (fuel nd ct : ℕ) → Heap A → Run ℕ
  countlinknodes_loop zero nd ct h = unfinished
  countlinknodes_loop (suc fuel) nd ct h =
      let rest = countlinknodes_loop fuel (h.next nd) (ct + 1) h in
      if is_null nd then ran ct else rest

  unfoldable pub countlinknodes : (fuel list : ℕ) → Heap A → Run ℕ
  countlinknodes fuel list h = countlinknodes_loop fuel (h.next list) 0 h

  -- The list begins at the node `nd`, and what was before comes last.
  unfoldable pub rolllist : (l nd : ℕ) → Heap A → Heap A
  rolllist l nd h =
      let h₁ = set_next h (h.last l) (h.next l) in
      let h₂ = set_last h₁ (h₁.next l) (h₁.last l) in
      let h₃ = set_next h₂ l nd in
      let h₄ = set_last h₃ l (h₃.last nd) in let h₅ = set_last h₄ nd l in set_next h₅ (h₅.last l) 0
