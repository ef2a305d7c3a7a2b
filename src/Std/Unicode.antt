-- ===== src/Std/Unicode.antt =====
-- unicode.IsPrint, whose tables the Go release fixes: any test on code points.
use stream_hive.Common.{ℕ, Bool}

pub record Unicode : Type 0 where
  pub is_print : ℕ → Bool
