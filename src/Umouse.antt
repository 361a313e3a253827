-- ===== src/Umouse.antt =====
-- umouse/: the maze-solving mouse.
pub mod Map
pub mod FloodFill
pub mod PositionLog
pub mod SubMove
