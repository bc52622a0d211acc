-- ===== src/Behaviour/Timer.antt =====
-- src/behaviour/gossip_timer.rs: `DynamicTimer`. A moment and a duration are numbers; the clock is
-- a function from the number of times that it was read.
use the_swarm.Common.{ℕ, suc, ◌+◌, ◌-◌, Option, none, some, ltb, if◌then◌else◌}

pub record DynamicTimer : Type 0 where
  -- when the sleep ends
  pub deadline : ℕ
  pub last_reset : ℕ
  pub min_duration : ℕ
  pub max_duration : ℕ

-- The floating-point arithmetic: what the sigmoid gives of a span after some time, and the sum as
-- a duration, if it is one.
pub record Floats : Type 0 where
  pub sigmoid : ℕ → ℕ → ℕ
  pub try_from_secs : ℕ → Option ℕ

abbrev pub unwrap_or : Option ℕ → ℕ → ℕ
unwrap_or none d = d
unwrap_or (some a) d = a

module _ (clock : ℕ → ℕ) (floats : Floats) where
  -- The count of readings goes along. `none` is a panic.
  unfoldable pub new : ℕ → ℕ → ℕ → DynamicTimer × ℕ
  new min_duration max_duration ticks = (
    record {
      deadline = clock ticks + min_duration;
      last_reset = clock (suc ticks);
      min_duration = min_duration;
      max_duration = max_duration;
    },
    suc (suc ticks),
  )

  -- The difference of the durations panics below 0.
  unfoldable pub next_duration : DynamicTimer → ℕ → Option (ℕ × ℕ)
  next_duration t ticks =
      let passed = clock ticks - t.last_reset in
      let span = t.max_duration - t.min_duration in
      let duration = t.min_duration + floats.sigmoid span passed in
      if ltb t.max_duration t.min_duration
      then none
      else some (unwrap_or (floats.try_from_secs duration) t.max_duration, suc ticks)

  abbrev pub sleep : DynamicTimer → Option (ℕ × ℕ) → Option (DynamicTimer × ℕ)
  sleep t none = none
  sleep t (some (duration, ticks)) =
      some (record t { deadline = clock ticks + duration }, suc ticks)

  unfoldable pub start_next : DynamicTimer → ℕ → Option (DynamicTimer × ℕ)
  unfolding next_duration
  start_next t ticks = sleep t (next_duration t ticks)

  abbrev pub restart : DynamicTimer → ℕ → Option (ℕ × ℕ) → Option (DynamicTimer × ℕ)
  restart t now none = none
  restart t now (some (duration, ticks)) =
      if ltb (now + duration) t.deadline then start_next t ticks else some (t, ticks)

  unfoldable pub reset_full : DynamicTimer → ℕ → Option (DynamicTimer × ℕ)
  unfolding start_next next_duration
  reset_full t ticks =
      let t' = record t { last_reset = clock ticks } in
      restart t' (clock (suc ticks)) (next_duration t' (suc (suc ticks)))
