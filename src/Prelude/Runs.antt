-- ===== src/Prelude/Runs.antt =====
-- The result of code whose loops or calls run on fuel.
use mathlib.Core.Option.{Option, none, some}

-- A run has a result, or it does what C does not define, or its fuel is too small.
pub data Run (A : Type 0) : Type 0 where
  ran : A → Run A
  stuck : Run A
  unfinished : Run A

abbrev pub and_then : {A B : Type 0} → Run A → (A → Run B) → Run B
and_then (ran a) k = k a
and_then stuck k = stuck
and_then unfinished k = unfinished

abbrev pub defined : {A : Type 0} → Option A → Run A
defined none = stuck
defined (some a) = ran a
