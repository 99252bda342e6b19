-- ===== src/Primitives/Cursor.antt =====
-- Cursors: pkg/primitives/src/pagination.rs, less their encoding.
pub mod After
pub mod Before
pub mod Choice
use tempo_zk_rollup.Base.{Option}

pub data CursorChoiceAfter (Pos : Type 0) : Type 0 where
  after : Pos → CursorChoiceAfter Pos
  after_inclusive : Pos → CursorChoiceAfter Pos

pub data CursorChoiceBefore (Pos : Type 0) : Type 0 where
  before : Pos → CursorChoiceBefore Pos
  before_inclusive : Pos → CursorChoiceBefore Pos

-- `Cursor`: the choices after and before.
pub record Cursor (Pos : Type 0) : Type 0 where
  pub after : Option (CursorChoiceAfter Pos)
  pub before : Option (CursorChoiceBefore Pos)

pub data CursorChoice (Pos : Type 0) : Type 0 where
  after : CursorChoiceAfter Pos → CursorChoice Pos
  before : CursorChoiceBefore Pos → CursorChoice Pos

-- `std::ops::Bound`.
pub data Bound (Pos : Type 0) : Type 0 where
  included : Pos → Bound Pos
  excluded : Pos → Bound Pos
  unbounded : Bound Pos
