-- ===== src/Lang.antt =====
-- deps/common/lang: the comparisons of values, and the binary search over a sorted range.
pub mod Comparator
pub mod LowerBound
mod Tests
