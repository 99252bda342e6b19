-- ===== src/Primitives/Cursor/Choice.antt =====
-- The methods of `CursorChoice`: pkg/primitives/src/pagination.rs.
use tempo_zk_rollup.Primitives.Cursor.{CursorChoice}
use tempo_zk_rollup.Primitives.Cursor.After
use tempo_zk_rollup.Primitives.Cursor.Before

abbrev pub inner : {Pos : Type 0} → CursorChoice Pos → Pos
inner (CursorChoice.after a) = After.inner a
inner (CursorChoice.before b) = Before.inner b

abbrev pub map_pos : {Pos NewPos : Type 0} → (Pos → NewPos) → CursorChoice Pos → CursorChoice NewPos
map_pos f (CursorChoice.after a) = CursorChoice.after (After.map_pos f a)
map_pos f (CursorChoice.before b) = CursorChoice.before (Before.map_pos f b)

abbrev pub inclusive : {Pos : Type 0} → CursorChoice Pos → CursorChoice Pos
inclusive (CursorChoice.after a) = CursorChoice.after (After.inclusive a)
inclusive (CursorChoice.before b) = CursorChoice.before (Before.inclusive b)
