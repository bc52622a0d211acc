-- ===== src/Behaviour/Log.antt =====
-- src/behaviour/metrics.rs: logs of syncs and of sizes that are in order.
use the_swarm.Common.{ℕ, ◌+◌, ◌-◌, ◌≤◌, ◌≡◌, List, [], ◌∷◌, ◌++◌, arith, subst, sym}
use the_swarm.Behaviour.Metrics.{
  EventStatus, in_progress, not_started, PeriodicEvent, start_from, end_from, Gauge, record_value,
  update_queue_size,
}

-- One after the other from a time on, each over before the next starts, and the last before `now`.
abbrev pub Ordered : ℕ → List (ℕ × ℕ) → ℕ → Type 0
Ordered since [] now = since ≤ now
Ordered since ((start, duration) ∷ timings) now =
    (since ≤ start) × Ordered (start + duration) timings now

abbrev pub Status : ℕ → List (ℕ × ℕ) → ℕ → EventStatus → Type 0
Status since timings now not_started = Ordered since timings now
Status since timings now (in_progress start) = Ordered since timings start × (start ≤ now)

abbrev pub IsLog : PeriodicEvent → ℕ → Type 0
IsLog e now = Status 0 e.event_timings now e.status

-- The values of a gauge were recorded in this order, before `now`.
abbrev pub InOrder : {V : Type 0} → ℕ → List (ℕ × V) → ℕ → Type 0
InOrder since [] now = since ≤ now
InOrder since ((time, v) ∷ values) now = (since ≤ time) × InOrder time values now

pub Ordered-le :
    (since : ℕ) (ts : List (ℕ × ℕ)) (now later : ℕ)
    → now ≤ later
    → Ordered since ts now
    → Ordered since ts later
Ordered-le since [] now later le h = omega arith
Ordered-le since ((start, duration) ∷ ts) now later le h =
    (h.0, Ordered-le (start + duration) ts now later le h.1)

pub Ordered-append :
    (since : ℕ) (ts : List (ℕ × ℕ)) (start now : ℕ)
    → start ≤ now
    → Ordered since ts start
    → Ordered since (ts ++ ((start, now - start) ∷ [])) now
Ordered-append since [] start now le h = (h, omega arith)
Ordered-append since ((s, d) ∷ ts) start now le h =
    (h.0, Ordered-append (s + d) ts start now le h.1)

pub IsLog-le : (e : PeriodicEvent) (now later : ℕ) → now ≤ later → IsLog e now → IsLog e later
IsLog-le e now later le h =
    elim e.status as (λ s. Status 0 e.event_timings now s → Status 0 e.event_timings later s) [
      | not_started ↦ Ordered-le 0 e.event_timings now later le
      | in_progress start ↦ λ h. (h.0, omega arith)
    ]
      h

pub started-IsLog :
    (e : PeriodicEvent) (now : ℕ) (status : EventStatus)
    → e.status ≡ status
    → Status 0 e.event_timings now status
    → IsLog (start_from e now status) now
started-IsLog e now not_started same h = (h, omega arith)
started-IsLog e now (in_progress start) same h = subst (Status 0 e.event_timings now) (sym same) h

pub ended-IsLog :
    (e : PeriodicEvent) (now : ℕ) (status : EventStatus)
    → e.status ≡ status
    → Status 0 e.event_timings now status
    → IsLog (end_from e now status) now
ended-IsLog e now not_started same h = subst (Status 0 e.event_timings now) (sym same) h
ended-IsLog e now (in_progress start) same h = Ordered-append 0 e.event_timings start now h.1 h.0

module _ {V : Type 0} where
  pub InOrder-le :
      (since : ℕ) (values : List (ℕ × V)) (now later : ℕ)
      → now ≤ later
      → InOrder since values now
      → InOrder since values later
  InOrder-le since [] now later le h = omega arith
  InOrder-le since ((time, v) ∷ values) now later le h =
      (h.0, InOrder-le time values now later le h.1)

  pub InOrder-append :
      (since : ℕ) (values : List (ℕ × V)) (v : V) (now : ℕ)
      → InOrder since values now
      → InOrder since (values ++ ((now, v) ∷ [])) now
  InOrder-append since [] v now h = (h, omega arith)
  InOrder-append since ((time, w) ∷ values) v now h = (h.0, InOrder-append time values v now h.1)

pub updated-InOrder :
    (now total free : ℕ) (g : Gauge ℕ)
    → InOrder 0 g.values now
    → InOrder 0 (update_queue_size now total free g).values now
unfolding update_queue_size record_value
updated-InOrder now total free g h = ground (arith, InOrder-append 0 g.values (total - free) now)
