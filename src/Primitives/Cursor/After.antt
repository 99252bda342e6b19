-- ===== src/Primitives/Cursor/After.antt =====
-- The methods of `CursorChoiceAfter`: pkg/primitives/src/pagination.rs.
use tempo_zk_rollup.Primitives.Cursor.{CursorChoiceAfter, Bound, included, excluded}

abbrev pub inner : {Pos : Type 0} → CursorChoiceAfter Pos → Pos
inner (CursorChoiceAfter.after pos) = pos
inner (CursorChoiceAfter.after_inclusive pos) = pos

abbrev pub inclusive : {Pos : Type 0} → CursorChoiceAfter Pos → CursorChoiceAfter Pos
inclusive (CursorChoiceAfter.after pos) = CursorChoiceAfter.after_inclusive pos
inclusive (CursorChoiceAfter.after_inclusive pos) = CursorChoiceAfter.after_inclusive pos

abbrev pub to_bound : {Pos : Type 0} → CursorChoiceAfter Pos → Bound Pos
to_bound (CursorChoiceAfter.after pos) = excluded pos
to_bound (CursorChoiceAfter.after_inclusive pos) = included pos

abbrev pub map_pos :
    {Pos NewPos : Type 0} → (Pos → NewPos) → CursorChoiceAfter Pos → CursorChoiceAfter NewPos
map_pos f (CursorChoiceAfter.after pos) = CursorChoiceAfter.after (f pos)
map_pos f (CursorChoiceAfter.after_inclusive pos) = CursorChoiceAfter.after_inclusive (f pos)
