-- ===== src/Tools.antt =====
-- The subtools of `Executor` (src/executor.cpp): `clean`, `emit_commands`, `emit_compdb` and
-- `emit_graph`. What they print to the terminal on the way is left out, except for what is asked for.
pub mod Clean
pub mod Listing
pub mod Once
pub mod Dot
