-- ===== src/Prelude/Table.antt =====
-- A `HashMap<String, V>` as the function that looks a key up.
use otdel.Prelude.Tests.{if◌then◌else◌}
use otdel.Prelude.Text.{Text, text_eq}
use mathlib.Core.Option.{Option, none, some}
use mathlib.Core.Bool.{Bool}

abbrev pub Table : Type 0 → Type 0
Table V = Text → Option V

module _ {V : Type 0} where
  abbrev pub empty : Table V
  empty key = none

  abbrev pub insert : Text → V → Table V → Table V
  insert k v m key = if text_eq k key then some v else m key

  abbrev pub remove : Text → Table V → Table V
  remove k m key = if text_eq k key then none else m key

  -- An entry stays if the test holds of it.
  abbrev pub retain : (V → Bool) → Table V → Table V
  retain keep m key = elim (m key) [ none ↦ none | some v ↦ if keep v then some v else none ]
