-- ===== src/DataMemory/Output.antt =====
-- src/data_memory/mod.rs: the output channel, and how a handler ends.
use the_swarm.Common.{Bool, true, false, Option, List}
use the_swarm.Common.Channel.{Channel, send}
use the_swarm.Types.{Shard}
use the_swarm.DataMemory.State.{OutEvent, Memory}

abbrev pub Output : Type 0
Output = Channel OutEvent

pub record World : Type 0 where
  pub memory : Memory
  pub output : Output
  -- the responses to the reads from the memory bus, oldest first
  pub answered : List (Option Shard)

pub data HandleResult : Type 0 where
  ok abort : HandleResult
  -- the handler panicked
  unwound : HandleResult

pub data Exit : Type 0 where
  running : Exit
  -- `run` returned
  returned : Exit
  -- `run` cancelled the shutdown token and returned
  cancelled : Exit
  panicked : Exit

abbrev on_error : {E : Type 0} → World → E → E → Output × Bool → World × E
on_error w fine failed (o, true) = (record w { output = o }, fine)
on_error w fine failed (o, false) = (record w { output = o }, failed)

-- `if send(e).await.is_err() { return; }`.
unfoldable pub send_or_return : OutEvent → World → World × Exit
unfolding send
send_or_return e w = on_error w running returned (send e w.output)

-- `if send(e).await.is_err() { return HandleResult::Abort; }`, and `HandleResult::Ok` after it.
unfoldable pub send_or_abort : OutEvent → World → World × HandleResult
unfolding send
send_or_abort e w = on_error w ok abort (send e w.output)

-- The loop's match on a `HandleResult`.
abbrev pub or_cancel : World × HandleResult → World × Exit
or_cancel (w, ok) = (w, running)
or_cancel (w, abort) = (w, cancelled)
or_cancel (w, unwound) = (w, panicked)

-- The next statement, unless the loop was left.
abbrev pub and_then : World × Exit → (World → World × Exit) → World × Exit
and_then (w, running) f = f w
and_then (w, returned) f = (w, returned)
and_then (w, cancelled) f = (w, cancelled)
and_then (w, panicked) f = (w, panicked)
