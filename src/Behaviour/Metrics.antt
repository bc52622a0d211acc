-- ===== src/Behaviour/Metrics.antt =====
-- src/behaviour/metrics.rs: what the node measures of itself. A moment is a number, in the unit of
-- the clock; a difference of moments stops at 0, as that of `Instant` does.
use the_swarm.Common.{ℕ, ◌+◌, ◌-◌, List, [], ◌∷◌, ◌++◌, leb, if◌then◌else◌}

pub data EventStatus : Type 0 where
  in_progress : ℕ → EventStatus
  not_started : EventStatus

pub record PeriodicEvent : Type 0 where
  pub status : EventStatus
  pub event_timings : List (ℕ × ℕ)

unfoldable pub new_event : PeriodicEvent
new_event = record { status = not_started; event_timings = [] }

abbrev pub start_from : PeriodicEvent → ℕ → EventStatus → PeriodicEvent
start_from e now (in_progress _) = e
start_from e now not_started = record e { status = in_progress now }

unfoldable pub record_start : ℕ → PeriodicEvent → PeriodicEvent
record_start now e = start_from e now e.status

abbrev pub end_from : PeriodicEvent → ℕ → EventStatus → PeriodicEvent
end_from e now not_started = e
end_from e now (in_progress start) = record {
  status = not_started;
  event_timings = e.event_timings ++ ((start, now - start) ∷ []);
}

unfoldable pub record_end : ℕ → PeriodicEvent → PeriodicEvent
record_end now e = end_from e now e.status

pub record Gauge (V : Type 0) : Type 0 where
  pub values : List (ℕ × V)

unfoldable pub new_gauge : {V : Type 0} → Gauge V
new_gauge = record { values = [] }

unfoldable pub record_value : {V : Type 0} → ℕ → V → Gauge V → Gauge V
record_value now v g = record { values = g.values ++ ((now, v) ∷ []) }

pub record Metrics : Type 0 where
  pub sync : PeriodicEvent
  pub consensus_queue_size : Gauge ℕ

unfoldable pub new_metrics : Metrics
unfolding new_event new_gauge
new_metrics = record { sync = new_event; consensus_queue_size = new_gauge }

-- The capacity of a channel, and how much of it is free. The difference is checked.
unfoldable pub update_queue_size : ℕ → ℕ → ℕ → Gauge ℕ → Gauge ℕ
unfolding record_value
update_queue_size now total free metric =
    if leb free total then record_value now (total - free) metric else metric

-- The points of a step function that is 0 at the start of an event and 1 at its end, with times
-- from the first start on.
unfoldable pub step_points : ℕ → List (ℕ × ℕ) → List (ℕ × ℕ)
step_points t_start [] = []
step_points t_start ((t, y) ∷ timings) =
    (t - t_start, 0) ∷ (t - t_start + y, 1) ∷ step_points t_start timings

abbrev pub current_points : ℕ → ℕ → EventStatus → List (ℕ × ℕ)
current_points t_start now (in_progress triggered) =
    (triggered - t_start, 0) ∷ (now - t_start, 1) ∷ []
current_points t_start now not_started = (now - t_start, 0) ∷ []

abbrev pub points_from : ℕ → PeriodicEvent → List (ℕ × ℕ) → List (ℕ × ℕ)
points_from now e [] = []
points_from now e ((t_start, y) ∷ timings) =
    step_points t_start ((t_start, y) ∷ timings) ++ current_points t_start now e.status

-- `PeriodicEvent::generate_data_for_step`, before the times are turned into seconds.
unfoldable pub generate_data_for_step : ℕ → PeriodicEvent → List (ℕ × ℕ)
unfolding step_points
generate_data_for_step now e = points_from now e e.event_timings

abbrev gauge_points : {V : Type 0} → ℕ → ℕ → V → List (ℕ × V) → List (ℕ × V)
gauge_points t_start now v [] = (now - t_start, v) ∷ []
gauge_points t_start now v ((t, w) ∷ values) = (t - t_start, v) ∷ gauge_points t_start now w values

-- `Gauge::generate_data_for_step`, before the times are turned into seconds: each value stands at
-- the time of the next one, and the default value at the start.
unfoldable pub gauge_data_for_step : {V : Type 0} → V → ℕ → Gauge V → List (ℕ × V)
gauge_data_for_step default now g = elim g.values [
  | [] ↦ []
  | (t_start, v) ∷ values ↦ (0, default) ∷ gauge_points t_start now v values
]
