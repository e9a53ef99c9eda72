-- ===== src/Tools/Once.antt =====
-- Every step of the graph stands once in what the listings print (src/executor.cpp).
use mathlib.Core.List.Memᴰ
use catalyst_build_executor.Base.{ℕ, List, ltb, if◌then◌else◌, Memᴰ}
use catalyst_build_executor.Builder.{Builder}

-- One where `s` is an index below `n`, and zero elsewhere.
abbrev pub one_below : (n s : ℕ) → ℕ
one_below n s = if ltb s n then 1 else 0
