-- ===== src/Fields.antt =====
-- The loop over the comma-separated inputs of a step, as it stands in `BuildGraph::add_step`
-- (src/graph.cpp) and in `parse_bin` (src/binary.cpp): what is done with a field is a parameter.
mod Loop
unfoldable pub use Loop.*
