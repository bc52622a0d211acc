-- ===== src/InstructionStorage/History.antt =====
-- src/instruction_storage/mod.rs: what any history of events lets the memory report.
use native.Mathlib.Nat.{le_trans}
use the_swarm.Common.{
  ℕ, ◌+◌, ◌≤◌, ◌≡◌, refl, sym, subst, inl, inr, ◌∙◌, ite, Bool, true, false, Option, none, some,
  List, [], ◌∷◌, ◌++◌, arith, Option-cases,
}
use the_swarm.Common.Map.{nat_key, get, add, get-insert}
use the_swarm.Common.Channel.{Channel, send}
use the_swarm.Types.{Vid, PeerId}
use the_swarm.Processor.Program.{
  Instructions, Program, ProgramIdentifier, identifier_key, identifier_discrete,
}
use the_swarm.InstructionStorage.{
  ExecutionState, executing, finished, ProgramMetadata, InstructionMemory, OutEvent, next_program,
  finished_execution, peer_shards_actualized, InEvent, finalized_program, executed_program, new,
  confirm, confirmed, notify_executed, notify_finalized, new_started_executing,
  compute_affected_data_ids, World, announce_updates, announce_finished, while_running, handle, run,
}

-- How often the program was reported as finished.
unfoldable pub reported : ProgramIdentifier → List OutEvent → ℕ
reported program [] = 0
reported program (finished_execution other ∷ sent) =
    ite (identifier_discrete other program) 1 0 + reported program sent
reported program (next_program _ ∷ sent) = reported program sent
reported program (peer_shards_actualized _ _ _ ∷ sent) = reported program sent

reported-append :
    (program : ProgramIdentifier) (xs ys : List OutEvent)
    → reported program (xs ++ ys) ≡ reported program xs + reported program ys
unfolding reported
reported-append program [] ys = omega arith
reported-append program (finished_execution other ∷ xs) ys =
    omega (arith, reported-append program xs ys)
reported-append program (next_program _ ∷ xs) ys = reported-append program xs ys
reported-append program (peer_shards_actualized _ _ _ ∷ xs) ys = reported-append program xs ys

-- 1 for a program that is finished, and 0 otherwise.
abbrev done_count : Option ProgramMetadata → ℕ
done_count none = 0
done_count (some metadata) = elim metadata.state [ executing _ ↦ 0 | finished ↦ 1 ]

abbrev pub Bounded : InstructionMemory → List OutEvent → Type 0
Bounded m sent =
    (program : ProgramIdentifier)
    → reported program sent ≤ done_count (get m.currently_executed program)

-- A send adds at most the event.
reported-send :
    (program : ProgramIdentifier) (e : OutEvent) (o : Channel OutEvent)
    → reported program (send e o).0.sent ≤ reported program o.sent + reported program (e ∷ [])
unfolding send
reported-send program e o = ground (arith, reported-append program o.sent (e ∷ []))

finalized-Bounded :
    (m : InstructionMemory) (program : ProgramIdentifier) (instructions : Instructions)
    (sent : List OutEvent)
    → Bounded m sent
    → Bounded (notify_finalized program instructions m) sent
unfolding notify_finalized new_started_executing
finalized-Bounded m program instructions sent b other =
    elim (Option-cases (get m.currently_executed program)) [
      | inl e ↦ rw e (
          ground (
            arith,
            get-insert m.currently_executed program
                (record {
                  state = executing [];
                  affected_data_ids = compute_affected_data_ids instructions;
                })
                other,
            b other,
          ))
      | inr (metadata, e) ↦ rw e (b other)
    ]

-- What a notification adds: a report only where a program becomes finished.
abbrev news : Bool → ProgramIdentifier → ProgramIdentifier → ℕ
news true program other = ite (identifier_discrete program other) 1 0
news false program other = 0

confirmed-Bounded :
    (m : InstructionMemory) (who : PeerId) (program : ProgramIdentifier)
    (metadata : ProgramMetadata) (state : ExecutionState) (other : ProgramIdentifier)
    → get m.currently_executed program ≡ some metadata
    → metadata.state ≡ state
    → done_count (get m.currently_executed other)
        + news (confirm m.accept_threshold who state).1 program other
      ≤ done_count (
          get
            (confirmed m program metadata
              (confirm m.accept_threshold who state)).0.currently_executed
            other)
unfolding confirm
confirmed-Bounded m who program metadata (executing peers) other known e = ground (
  arith,
  get-insert m.currently_executed program (record metadata { state = finished }) other,
  get-insert m.currently_executed program (record metadata { state = executing (add peers who) })
      other,
)
confirmed-Bounded m who program metadata finished other known e =
    ground
      (arith, get-insert m.currently_executed program (record metadata { state = finished }) other)

notify-Bounded :
    (m : InstructionMemory) (who : PeerId) (program : ProgramIdentifier) (other : ProgramIdentifier)
    → done_count (get m.currently_executed other)
        + news (notify_executed who program m).1 program other
      ≤ done_count (get (notify_executed who program m).0.currently_executed other)
unfolding notify_executed
notify-Bounded m who program other = elim (Option-cases (get m.currently_executed program)) [
  | inl e ↦ rw e (omega arith)
  | inr (metadata, e) ↦ rw e (confirmed-Bounded m who program metadata metadata.state other e refl)
]

reported-finished :
    (program other : ProgramIdentifier)
    → reported other (finished_execution program ∷ []) ≡ news true program other
unfolding reported
reported-finished program other = omega arith

reported-next :
    (program : Program) (other : ProgramIdentifier) → reported other (next_program program ∷ []) ≡ 0
unfolding reported
reported-next program other = refl

reported-updates :
    (program : ProgramIdentifier) (peer : PeerId) (ids : List Vid) (other : ProgramIdentifier)
    → reported other (peer_shards_actualized program peer ids ∷ []) ≡ 0
unfolding reported
reported-updates program peer ids other = refl

finished-sent :
    (program : ProgramIdentifier) (m : InstructionMemory) (done : Bool) (o : Channel OutEvent)
    (other : ProgramIdentifier)
    → reported other (announce_finished program m done o).output.sent
      ≤ reported other o.sent + news done program other
finished-sent program m true o other =
    omega
      (arith, reported-send other (finished_execution program) o, reported-finished program other)
finished-sent program m false o other = omega arith

finished-memory :
    (program : ProgramIdentifier) (m : InstructionMemory) (done : Bool) (o : Channel OutEvent)
    → (announce_finished program m done o).memory ≡ m
finished-memory program m true o = refl
finished-memory program m false o = refl

-- The last part of a notification reports nothing, and leaves the memory alone.
updates-sent :
    (on : Bool) (peer : PeerId) (program : ProgramIdentifier) (found : Option ProgramMetadata)
    (w : World) (other : ProgramIdentifier)
    → (reported other (while_running on w (announce_updates peer program found w)).output.sent
        ≤ reported other w.output.sent)
      × ((while_running on w (announce_updates peer program found w)).memory ≡ w.memory)
updates-sent true peer program none w other = (omega arith, refl)
updates-sent true peer program (some metadata) w other = (
  omega (
    arith,
    reported-send other (peer_shards_actualized program peer metadata.affected_data_ids) w.output,
    reported-updates program peer metadata.affected_data_ids other,
  ),
  refl,
)
updates-sent false peer program found w other = (omega arith, refl)

handle-Bounded :
    (e : InEvent) (w : World)
    → Bounded w.memory w.output.sent
    → Bounded (handle e w).memory (handle e w).output.sent
unfolding handle
handle-Bounded (finalized_program program) w b other = omega (
  arith,
  finalized-Bounded w.memory program.identifier program.instructions w.output.sent b other,
  reported-send other (next_program program) w.output,
  reported-next program other,
)
handle-Bounded (executed_program peer program) w b other =
    let (m, done) = notify_executed peer program w.memory in
    let first = announce_finished program m done w.output in
    let found = get m.currently_executed program in
    let (silent, same) = updates-sent first.running peer program found first other in
    subst
      (λ (m' : InstructionMemory).
        reported other
          (while_running first.running first
            (announce_updates peer program found first)).output.sent
        ≤ done_count (get m'.currently_executed other))
      (sym (same ∙ finished-memory program m done w.output))
      (omega (
        arith,
        silent,
        finished-sent program m done w.output other,
        b other,
        notify-Bounded w.memory peer program other,
      ))

while_running-Bounded :
    (on : Bool) (w rest : World)
    → Bounded w.memory w.output.sent
    → Bounded rest.memory rest.output.sent
    → Bounded (while_running on w rest).memory (while_running on w rest).output.sent
while_running-Bounded true w rest b c = c
while_running-Bounded false w rest b c = b

run-Bounded :
    (events : List (Option InEvent)) (w : World)
    → Bounded w.memory w.output.sent
    → Bounded (run events w).memory (run events w).output.sent
unfolding run
run-Bounded [] w b = b
run-Bounded (none ∷ events) w b = b
run-Bounded (some e ∷ events) w b =
    while_running-Bounded (handle e w).running (handle e w) (run events (handle e w))
      (handle-Bounded e w b) (run-Bounded events (handle e w) (handle-Bounded e w b))

done_count-le : (found : Option ProgramMetadata) → done_count found ≤ 1
done_count-le none = omega arith
done_count-le (some metadata) = ground arith

-- The memory at the start.
abbrev pub fresh : ℕ → Option ℕ → World
fresh threshold room = record {
  memory = new threshold;
  output = record { sent = []; room = room };
  running = true;
}

-- Over any history of events, whenever the output channel closes, no program is reported as
-- finished twice.
pub run-reports_once :
    (threshold : ℕ) (room : Option ℕ) (events : List (Option InEvent)) (program : ProgramIdentifier)
    → reported program (run events (fresh threshold room)).output.sent ≤ 1
unfolding new reported
run-reports_once threshold room events program =
    le_trans (run-Bounded events (fresh threshold room) (λ other. omega arith) program)
      (done_count-le _)
