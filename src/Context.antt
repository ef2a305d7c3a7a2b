-- ===== src/Context.antt =====
-- context.Context, as its holders see it: the answer of each `ctx.Err()` that a call makes, in the
-- order of the source. `none` is nil.
use stream_hive.Common.{ℕ, ◌+◌, Option, none}
use stream_hive.Errors.{Error}

abbrev pub Ctx : Type 0
Ctx = ℕ → Option Error

-- the context of a callee that is entered after `n` answers
abbrev pub later : ℕ → Ctx → Ctx
later n ctx = λ k. ctx (n + k)

-- a context that is never cancelled
abbrev pub background : Ctx
background = λ k. none
