-- ===== src/Behaviour/Delivery.antt =====
-- src/behaviour/handlers.rs: what a sequence of transactions leaves in the inputs of the
-- modules.
use the_swarm.Common.{
  ℕ, zero, suc, ◌≤◌, ◌≡◌, refl, sym, ap, ◌∙◌, Bool, true, false, Option, none, some, List, [], ◌∷◌,
  ◌++◌, arith, length,
}
use mathlib.Core.List.{append_assoc, append-nil}
use the_swarm.Types.{PeerId, Hash}
use the_swarm.Processor.Program.{Instructions, Program, calculate_hash, program_new}
use the_swarm.InstructionStorage
use the_swarm.DataMemory.State
use the_swarm.Consensus.Transaction.{
  Transaction, initialize_storage, storage_request, stored, execute, executed,
}
use the_swarm.Behaviour.Handlers.{
  Modules, HandleResult, ok, abort, deliver, result_of, poll_send, to_data_memory,
  to_instruction_memory, finalize, handle_tx, handle_storage_request_tx, handle_stored_ts,
  handle_executed_tx, handle_initialize_storage_tx, handle_execute_tx,
}

-- A transaction, with its author and the hash of its event.
abbrev pub OrderedTx : Type 0
OrderedTx = PeerId × Transaction × Hash

-- The inputs as lists, and what one transaction adds to them.
abbrev pub Queues : Type 0
Queues = List State.InEvent × List InstructionStorage.InEvent

abbrev pub to_first : State.InEvent → Queues
to_first e = (e ∷ [], [])

abbrev pub to_second : InstructionStorage.InEvent → Queues
to_second e = ([], e ∷ [])

abbrev pub join : Queues → Queues → Queues
join p q = (p.0 ++ q.0, p.1 ++ q.1)

abbrev pub queues : Modules → Queues
queues m = (m.data_memory.queued, m.instruction_memory.queued)

module _ (serialize : Instructions → Option (List ℕ)) (digest : List ℕ → List ℕ) where
  abbrev pub of_program : Option Program → Queues
  of_program none = ([], [])
  of_program (some program) = to_second (InstructionStorage.InEvent.finalized_program program)

  -- What a transaction means to the modules.
  abbrev pub events_of : OrderedTx → Queues
  events_of (from, storage_request data_id, hash) =
      to_first (State.InEvent.storage_request_tx data_id from)
  events_of (from, stored data_id shard_id, hash) =
      to_first (State.InEvent.store_confirmed (data_id, shard_id) from)
  events_of (from, execute instructions, hash) =
      of_program (program_new serialize digest instructions hash)
  events_of (from, executed program_id, hash) =
      to_second (InstructionStorage.InEvent.executed_program from program_id)
  events_of (from, initialize_storage distribution, hash) =
      to_first (State.InEvent.initialize distribution)

  abbrev pub events_of_all : List OrderedTx → Queues
  events_of_all [] = ([], [])
  events_of_all (tx ∷ txs) = join (events_of tx) (events_of_all txs)

  abbrev continue :
      (Modules → Modules × HandleResult) → Modules × HandleResult → Modules × HandleResult
  continue rest (m, ok) = rest m
  continue rest (m, abort) = (m, abort)

  -- A driver of these proofs: transactions that are handled one after the other, until one is not.
  -- `poll` handles each with the event of the consensus that brings it.
  unfoldable pub handle_all : List OrderedTx → Modules → Modules × HandleResult
  handle_all [] m = (m, ok)
  handle_all ((from, tx, hash) ∷ txs) m =
      continue (handle_all txs) (handle_tx serialize digest from tx hash m)

  -- Handled, a transaction has added its events; not handled, it has changed nothing.
  abbrev pub Delivers : Queues → Modules → Modules × HandleResult → Type 0
  Delivers es m (m', ok) = queues m' ≡ join (queues m) es
  Delivers es m (m', abort) = m' ≡ m

  data-Delivers :
      (e : State.InEvent) (m : Modules) (open_still : Bool) (free : ℕ)
      → let (inbox, polled) = deliver e m.data_memory open_still free in
        Delivers (to_first e) m (record m { data_memory = inbox }, result_of polled)
  data-Delivers e m false free = refl
  data-Delivers e m true zero = refl
  data-Delivers e m true (suc free) =
      ap (λ l. (m.data_memory.queued ++ (e ∷ []), l)) (sym (append-nil m.instruction_memory.queued))

  instruction-Delivers :
      (e : InstructionStorage.InEvent) (m : Modules) (open_still : Bool) (free : ℕ)
      → let (inbox, polled) = deliver e m.instruction_memory open_still free in
        Delivers (to_second e) m (record m { instruction_memory = inbox }, result_of polled)
  instruction-Delivers e m false free = refl
  instruction-Delivers e m true zero = refl
  instruction-Delivers e m true (suc free) =
      ap (λ l. (l, m.instruction_memory.queued ++ (e ∷ []))) (sym (append-nil m.data_memory.queued))

  finalize-Delivers :
      (program : Option Program) (m : Modules)
      → Delivers (of_program program) m (finalize serialize digest program m)
  unfolding to_instruction_memory poll_send
  finalize-Delivers none m = refl
  finalize-Delivers (some program) m = instruction-Delivers _ m _ _

  pub handle_tx-Delivers :
      (from : PeerId) (tx : Transaction) (hash : Hash) (m : Modules)
      → Delivers (events_of (from, tx, hash)) m (handle_tx serialize digest from tx hash m)
  unfolding handle_tx handle_storage_request_tx handle_stored_ts handle_execute_tx
      handle_executed_tx handle_initialize_storage_tx to_data_memory to_instruction_memory poll_send
  handle_tx-Delivers from (storage_request data_id) hash m = data-Delivers _ m _ _
  handle_tx-Delivers from (stored data_id shard_id) hash m = data-Delivers _ m _ _
  handle_tx-Delivers from (execute instructions) hash m = finalize-Delivers _ m
  handle_tx-Delivers from (executed program_id) hash m = instruction-Delivers _ m _ _
  handle_tx-Delivers from (initialize_storage distribution) hash m = data-Delivers _ m _ _

  pub join_assoc : (p q r : Queues) → join (join p q) r ≡ join p (join q r)
  join_assoc p q r =
      ap (λ l. (l, (p.1 ++ q.1) ++ r.1)) (append_assoc p.0 q.0 r.0)
      ∙ ap (λ l. (p.0 ++ (q.0 ++ r.0), l)) (append_assoc p.1 q.1 r.1)

  -- The transactions that were handled: all of them, or those before the one that was not.
  abbrev pub Handled : List OrderedTx → Modules → Modules × HandleResult → Type 0
  Handled txs m (m', ok) = queues m' ≡ join (queues m) (events_of_all txs)
  Handled txs m (m', abort) =
      (before : List OrderedTx) × (tx : OrderedTx) × (after : List OrderedTx) × (txs
        ≡ before ++ (tx ∷ after))
      × (queues m' ≡ join (queues m) (events_of_all before))

  -- Transactions that are handled in turn reach the inputs of the data memory and of the
  -- instruction memory each as the one event that it means, in the order of the transactions and
  -- behind what was queued before. If the behaviour aborts, this is so for the transactions
  -- before the one at which it does, and nothing of that one is queued.
  pub handle_all-Handled : (txs : List OrderedTx) (m : Modules) → Handled txs m (handle_all txs m)
  unfolding handle_all
  handle_all-Handled [] m =
      ap (λ l. (l, m.instruction_memory.queued)) (sym (append-nil m.data_memory.queued))
      ∙ ap (λ l. (m.data_memory.queued ++ [], l)) (sym (append-nil m.instruction_memory.queued))
  handle_all-Handled ((from, tx, hash) ∷ txs) m =
      handled (handle_all-Handled txs) (handle_tx serialize digest from tx hash m)
        (handle_tx-Delivers from tx hash m)
    where
      later :
          (m' : Modules) (r : Modules × HandleResult)
          → queues m' ≡ join (queues m) (events_of (from, tx, hash))
          → Handled txs m' r
          → Handled ((from, tx, hash) ∷ txs) m r
      later m' (m'', ok) first rest =
          rest
          ∙ ap (λ q. join q (events_of_all txs)) first
          ∙ join_assoc (queues m) (events_of (from, tx, hash)) (events_of_all txs)
      later m' (m'', abort) first (before, next, after, split, rest) = (
        (from, tx, hash) ∷ before,
        next,
        after,
        ap (◌∷◌ (from, tx, hash)) split,
        rest
            ∙ ap (λ q. join q (events_of_all before)) first
            ∙ join_assoc (queues m) (events_of (from, tx, hash)) (events_of_all before),
      )

      handled :
          ((m : Modules) → Handled txs m (handle_all txs m))
          → (r : Modules × HandleResult) → Delivers (events_of (from, tx, hash)) m r
          → Handled ((from, tx, hash) ∷ txs) m (continue (handle_all txs) r)
      handled rest (m', ok) first = later m' (handle_all txs m') first (rest m')
      handled rest (m', abort) first = (
        [],
        (from, tx, hash),
        txs,
        refl,
        ap queues first
            ∙ ap (λ l. (l, m.instruction_memory.queued)) (sym (append-nil m.data_memory.queued))
            ∙ ap (λ l. (m.data_memory.queued ++ [], l))
                (sym (append-nil m.instruction_memory.queued)),
      )

  -- Both inputs are open and take so many events.
  abbrev pub Ready : ℕ → Modules → Type 0
  Ready n m =
      (m.data_memory.open_still ≡ true)
      × (m.instruction_memory.open_still ≡ true)
      × (n ≤ m.data_memory.free)
      × (n ≤ m.instruction_memory.free)

  data-Ready :
      (n : ℕ) (e : State.InEvent) (m : Modules)
      → Ready (suc n) m
      → ((to_data_memory e m).1 ≡ ok) × Ready n (to_data_memory e m).0
  unfolding to_data_memory poll_send
  data-Ready n e m ready = ground arith

  instruction-Ready :
      (n : ℕ) (e : InstructionStorage.InEvent) (m : Modules)
      → Ready (suc n) m
      → ((to_instruction_memory e m).1 ≡ ok) × Ready n (to_instruction_memory e m).0
  unfolding to_instruction_memory poll_send
  instruction-Ready n e m ready = ground arith

  module _
      (serializes : (instructions : Instructions)
        → (bytes : List ℕ) × (serialize instructions ≡ some bytes)) where
    pub program-some :
        (instructions : Instructions) (hash : Hash)
        → (program : Program) × (program_new serialize digest instructions hash ≡ some program)
    unfolding program_new calculate_hash
    program-some instructions hash =
        let (bytes, e) = serializes instructions in
        (
          record {
            instructions = instructions;
            identifier = record { hash = record { inner = digest bytes }; event_hash = hash };
          },
          rw e refl,
        )

    handle_tx-Ready :
        (n : ℕ) (from : PeerId) (tx : Transaction) (hash : Hash) (m : Modules)
        → Ready (suc n) m
        → ((handle_tx serialize digest from tx hash m).1 ≡ ok)
          × Ready n (handle_tx serialize digest from tx hash m).0
    unfolding handle_tx handle_storage_request_tx handle_stored_ts handle_execute_tx
        handle_executed_tx handle_initialize_storage_tx
    handle_tx-Ready n from (storage_request data_id) hash m ready = data-Ready n _ m ready
    handle_tx-Ready n from (stored data_id shard_id) hash m ready = data-Ready n _ m ready
    handle_tx-Ready n from (execute instructions) hash m ready =
        let (program, e) = program-some instructions hash in rw e (instruction-Ready n _ m ready)
    handle_tx-Ready n from (executed program_id) hash m ready = instruction-Ready n _ m ready
    handle_tx-Ready n from (initialize_storage distribution) hash m ready = data-Ready n _ m ready

    all_handled :
        (txs : List OrderedTx) (m : Modules) → Ready (length txs) m → (handle_all txs m).1 ≡ ok
    unfolding handle_all
    all_handled [] m ready = refl
    all_handled ((from, tx, hash) ∷ txs) m ready =
        let (done, rest) = handle_tx-Ready (length txs) from tx hash m ready in
        after (handle_tx serialize digest from tx hash m) done (all_handled txs _ rest)
      where
        after :
            (r : Modules × HandleResult)
            → r.1 ≡ ok
            → (handle_all txs r.0).1 ≡ ok
            → (continue (handle_all txs) r).1 ≡ ok
        after (m', ok) e h = h
        after (m', abort) e h = e

    -- Where every program can be serialized and both inputs are open and have room for as many
    -- events as there are transactions, all of the transactions are handled, and the inputs hold
    -- the events that they mean, in their order and behind what was queued before.
    pub handle_all-ok :
        (txs : List OrderedTx) (m : Modules)
        → Ready (length txs) m
        → ((handle_all txs m).1 ≡ ok)
          × (queues (handle_all txs m).0 ≡ join (queues m) (events_of_all txs))
    handle_all-ok txs m ready =
        let done = all_handled txs m ready in
        (done, of_ok (handle_all txs m) done (handle_all-Handled txs m))
      where
        of_ok :
            (r : Modules × HandleResult)
            → r.1 ≡ ok
            → Handled txs m r
            → queues r.0 ≡ join (queues m) (events_of_all txs)
        of_ok (m', ok) e h = h
        of_ok (m', abort) e h = absurd (cc)
