-- ===== src/Primitives/Cursor/Before.antt =====
-- The methods of `CursorChoiceBefore`: pkg/primitives/src/pagination.rs.
use tempo_zk_rollup.Primitives.Cursor.{CursorChoiceBefore, Bound, included, excluded}

abbrev pub inner : {Pos : Type 0} → CursorChoiceBefore Pos → Pos
inner (CursorChoiceBefore.before pos) = pos
inner (CursorChoiceBefore.before_inclusive pos) = pos

abbrev pub inclusive : {Pos : Type 0} → CursorChoiceBefore Pos → CursorChoiceBefore Pos
inclusive (CursorChoiceBefore.before pos) = CursorChoiceBefore.before_inclusive pos
inclusive (CursorChoiceBefore.before_inclusive pos) = CursorChoiceBefore.before_inclusive pos

abbrev pub to_bound : {Pos : Type 0} → CursorChoiceBefore Pos → Bound Pos
to_bound (CursorChoiceBefore.before pos) = excluded pos
to_bound (CursorChoiceBefore.before_inclusive pos) = included pos

abbrev pub map_pos :
    {Pos NewPos : Type 0} → (Pos → NewPos) → CursorChoiceBefore Pos → CursorChoiceBefore NewPos
map_pos f (CursorChoiceBefore.before pos) = CursorChoiceBefore.before (f pos)
map_pos f (CursorChoiceBefore.before_inclusive pos) = CursorChoiceBefore.before_inclusive (f pos)
