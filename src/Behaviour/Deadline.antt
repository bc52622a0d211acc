-- ===== src/Behaviour/Deadline.antt =====
-- src/behaviour/gossip_timer.rs: when the timer of the gossip ends.
use the_swarm.Common.{
  ltb→lt, false, ltb, inl, inr, Bool-cases, ℕ, suc, ◌+◌, ◌-◌, ◌<◌, ◌≤◌, ◌≡◌, refl, ◌⊎◌, Option,
  none, some, arith,
}
use the_swarm.Behaviour.Timer.{
  DynamicTimer, Floats, unwrap_or, next_duration, start_next, reset_full,
}

-- A later reading of the clock is not below an earlier one.
abbrev pub IsMonotone : (ℕ → ℕ) → Type 0
IsMonotone clock = (i j : ℕ) → i ≤ j → clock i ≤ clock j

-- The sigmoid stays below its span, and a number of seconds becomes that duration if it becomes
-- one.
pub record IsExact (floats : Floats) : Type 0 where
  pub sigmoid_le : (span passed : ℕ) → floats.sigmoid span passed ≤ span
  pub from_secs : (d : ℕ) → (floats.try_from_secs d ≡ none) ⊎ (floats.try_from_secs d ≡ some d)

module _ (clock : ℕ → ℕ) (floats : Floats) where
  -- The two durations are kept, and are in order.
  abbrev pub SameSpan : DynamicTimer → DynamicTimer → Type 0
  SameSpan t t' = (t'.min_duration ≡ t.min_duration) × (t'.max_duration ≡ t.max_duration)

  -- A new timer or the same, which the clock was read for.
  abbrev pub Goes : DynamicTimer → ℕ → Option (DynamicTimer × ℕ) → Type 0
  Goes t ticks none = ⊥
  Goes t ticks (some (t', later)) = SameSpan t t' × (ticks ≤ later)

  pub start_next-Goes :
      (t : DynamicTimer) (ticks : ℕ)
      → t.min_duration ≤ t.max_duration
      → Goes t ticks (start_next clock floats t ticks)
  unfolding start_next next_duration
  start_next-Goes t ticks h = ground arith

  pub reset_full-Goes :
      (t : DynamicTimer) (ticks : ℕ)
      → t.min_duration ≤ t.max_duration
      → Goes t ticks (reset_full clock floats t ticks)
  unfolding reset_full start_next next_duration
  reset_full-Goes t ticks h = ground arith

  module _ (monotone : IsMonotone clock) (exact : IsExact floats) where
    -- The durations are in order, and the sleep ends no later than the longest one from now.
    abbrev pub IsTimed : DynamicTimer → ℕ → Type 0
    IsTimed t ticks =
        (t.min_duration ≤ t.max_duration) × (t.deadline ≤ clock ticks + t.max_duration)

    -- It ends in the span of the durations from a time between these two readings.
    abbrev pub Restarts : DynamicTimer → ℕ → Option (DynamicTimer × ℕ) → Type 0
    Restarts t ticks none = ⊥
    Restarts t ticks (some (t', later)) =
        SameSpan t t'
        × (ticks ≤ later)
        × (clock ticks + t.min_duration ≤ t'.deadline)
        × (t'.deadline ≤ clock later + t.max_duration)
        × (t'.last_reset ≡ t.last_reset)

    pub start_next-Restarts :
        (t : DynamicTimer) (ticks : ℕ)
        → t.min_duration ≤ t.max_duration
        → Restarts t ticks (start_next clock floats t ticks)
    unfolding start_next next_duration
    start_next-Restarts t ticks h = ground (
      arith,
      monotone ticks (suc ticks),
      monotone (suc ticks) (suc (suc ticks)),
      exact.sigmoid_le (t.max_duration - t.min_duration) (clock ticks - t.last_reset),
      exact.from_secs (
          t.min_duration
          + floats.sigmoid (t.max_duration - t.min_duration) (clock ticks - t.last_reset)),
    )

    -- The duration that is drawn so long after a reset, or the longest if it is no duration.
    abbrev drawn : DynamicTimer → ℕ → ℕ
    drawn t passed =
        unwrap_or
          (floats.try_from_secs
            (t.min_duration + floats.sigmoid (t.max_duration - t.min_duration) passed))
          t.max_duration

    -- When a sleep would end that starts at the second reading, drawn at the third.
    abbrev candidate : DynamicTimer → ℕ → ℕ
    candidate t ticks = clock (suc ticks) + drawn t (clock (suc (suc ticks)) - clock ticks)

    -- The time counts from now, and the sleep is replaced by one that lasts at least the shortest
    -- duration if the one that was drawn would end earlier, and is kept otherwise.
    abbrev pub Resets : DynamicTimer → ℕ → Option (DynamicTimer × ℕ) → Type 0
    Resets t ticks none = ⊥
    Resets t ticks (some (t', later)) =
        SameSpan t t'
        × (t'.last_reset ≡ clock ticks)
        × (ticks ≤ later)
        × IsTimed t' later
        × (((t.deadline ≤ candidate t ticks) × (t'.deadline ≡ t.deadline))
            ⊎ ((candidate t ticks < t.deadline)
                × (clock (suc ticks) + t.min_duration ≤ t'.deadline)))

    restarted-Resets :
        (t t' : DynamicTimer) (ticks : ℕ) (r : Option (DynamicTimer × ℕ))
        → IsTimed t ticks
        → SameSpan t t'
        → t'.last_reset ≡ clock ticks
        → candidate t ticks < t.deadline
        → Restarts t' (suc (suc (suc ticks))) r
        → Resets t ticks r
    restarted-Resets t t' ticks none timed same last earlier h = h
    restarted-Resets t t' ticks (some (t'', later)) timed same last earlier h =
        ground (arith, monotone (suc ticks) (suc (suc (suc ticks))))

    -- Where the shortest duration is not above the longest and the sleep ends no later than the
    -- longest duration from now, a reset does not panic and keeps the two durations, and the time
    -- since the last reset counts from now. A duration is drawn for no time passed but that of the
    -- call: if a sleep of it would end before the one that runs, a new sleep takes its place that
    -- ends not before the shortest duration from then; otherwise the sleep ends when it did before.
    -- Again it ends no later than the longest duration from the end of the call. The clock is
    -- monotone, the sigmoid stays below its span, and a number of seconds becomes that duration if
    -- it becomes one.
    pub reset_full-Resets :
        (t : DynamicTimer) (ticks : ℕ)
        → IsTimed t ticks
        → Resets t ticks (reset_full clock floats t ticks)
    unfolding reset_full next_duration
    reset_full-Resets t ticks h =
        let t' = record t { last_reset = clock ticks } in
        let again = start_next-Restarts t' (suc (suc (suc ticks))) h.0 in
        elim (Bool-cases (ltb (candidate t ticks) t.deadline)) [
          | inl e ↦
              rw (ordered, e)
                (restarted-Resets t t' ticks _ h (refl, refl) refl (ltb→lt _ _ e) again)
          | inr e ↦
              rw (ordered, e)
                (
                  (refl, refl),
                  refl,
                  omega arith,
                  (h.0, omega (arith, h.1, monotone ticks (suc (suc (suc ticks))) (omega arith))),
                  inl (ground arith, refl),
                )
        ]
      where
        ordered : ltb t.max_duration t.min_duration ≡ false
        ordered = ground (arith, h.0)
