-- ===== src/Behaviour/Timeline.antt =====
-- src/behaviour/metrics.rs: the points that are drawn of the syncs.
use the_swarm.Common.{ℕ, ◌+◌, ◌-◌, ◌≤◌, subst, List, [], ◌∷◌, ◌++◌, arith}
use the_swarm.Behaviour.Metrics.{
  EventStatus, in_progress, not_started, PeriodicEvent, step_points, current_points, points_from,
  generate_data_for_step,
}
use the_swarm.Behaviour.Log.{Status, IsLog}

-- The times of the points do not go back.
abbrev pub Rising : ℕ → List (ℕ × ℕ) → Type 0
Rising since [] = Unit {0}
Rising since ((time, y) ∷ points) = (since ≤ time) × Rising time points

current-Rising :
    (t_start now since : ℕ) (status : EventStatus)
    → Status since [] now status
    → Rising (since - t_start) (current_points t_start now status)
current-Rising t_start now since not_started h = (omega arith, tt)
current-Rising t_start now since (in_progress start) h = (omega arith, (omega arith, tt))

Status-tail :
    (since t y : ℕ) (ts : List (ℕ × ℕ)) (now : ℕ) (status : EventStatus)
    → Status since ((t, y) ∷ ts) now status
    → (since ≤ t) × Status (t + y) ts now status
Status-tail since t y ts now not_started h = h
Status-tail since t y ts now (in_progress start) h = (h.0.0, (h.0.1, h.1))

Status-start :
    (since t y : ℕ) (ts : List (ℕ × ℕ)) (now : ℕ) (status : EventStatus)
    → Status since ((t, y) ∷ ts) now status
    → Status t ((t, y) ∷ ts) now status
Status-start since t y ts now not_started h = (omega arith, h.1)
Status-start since t y ts now (in_progress start) h = ((omega arith, h.0.1), h.1)

points-Rising :
    (t_start now since : ℕ) (status : EventStatus) (ts : List (ℕ × ℕ))
    → t_start ≤ since
    → Status since ts now status
    → Rising (since - t_start) (step_points t_start ts ++ current_points t_start now status)
unfolding step_points
points-Rising t_start now since status [] le h = current-Rising t_start now since status h
points-Rising t_start now since status ((t, y) ∷ ts) le h =
    let (first, rest) = Status-tail since t y ts now status h in
    let later = points-Rising t_start now (t + y) status ts (omega arith) rest in
    (
      omega arith,
      (
        omega arith,
        subst (λ from. Rising from (step_points t_start ts ++ current_points t_start now status))
            (omega arith) later,
      ),
    )

-- The points that are drawn of the syncs do not go back in time, where the log of the syncs is in
-- order and before now.
pub generate_data_for_step-Rising :
    (e : PeriodicEvent) (now : ℕ) → IsLog e now → Rising 0 (generate_data_for_step now e)
unfolding generate_data_for_step step_points
generate_data_for_step-Rising e now h = drawn e.event_timings h
  where
    drawn :
        (timings : List (ℕ × ℕ))
        → Status 0 timings now e.status
        → Rising 0 (points_from now e timings)
    drawn [] h = tt
    drawn ((t_start, y) ∷ timings) h =
        subst
          (λ from.
            Rising from
              (step_points t_start ((t_start, y) ∷ timings) ++ current_points t_start now e.status))
          (omega arith)
          (points-Rising t_start now t_start e.status ((t_start, y) ∷ timings) (omega arith)
            (Status-start 0 t_start y timings now e.status h))
