-- ===== src/Base/Contexts.antt =====
-- Go's context.Context as the code sees it: the nil interface, or what each look at `ctx.Err()`
-- (or at the channel of `ctx.Done()`) finds, in order. Time may pass between two looks.
use Prim.Native.Nat.{ℕ}
use mathlib.Core.Option.{Option, none}

pub data ContextError : Type 0 where
  canceled deadline_exceeded : ContextError

pub data Context : Type 0 where
  nil_context : Context
  context : (ℕ → Option ContextError) → Context

-- context.Background()
abbrev pub background : Context
background = context (λ _. none)
