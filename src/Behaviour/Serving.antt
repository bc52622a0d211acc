-- ===== src/Behaviour/Serving.antt =====
-- src/behaviour/mod.rs and data_memory/mod.rs: a request of another peer on its way to the data
-- memory and back.
use the_swarm.Common.{
  ℕ, zero, suc, ◌<◌, ◌≤◌, ◌≡◌, refl, sym, ap, ◌∙◌, Bool, true, false, Option, none, some, List, [],
  ◌∷◌, ◌++◌, arith, length, length-append, subst,
}
use the_swarm.Common.Map.{get, insert, get-insert_self, Distinct, insert-Distinct}
use the_swarm.Types.{Shard}
use the_swarm.Encoding.ReedSolomon.{ErasureCode}
use the_swarm.DataMemory.State
use the_swarm.DataMemory.State.{Memory}
use the_swarm.DataMemory.Output.{World}
use the_swarm.DataMemory.Storage
use the_swarm.DataMemory.Handlers.{on_serve_shard_request, on_assigned_request}
use the_swarm.DataMemory.Recollection.{send_or_return_open}
use the_swarm.DataMemory.Run.{handle}
use the_swarm.Protocol.{
  Request, get_shard, serve_shard, request_key, RequestId, ResponseChannel, incoming_request,
}
use the_swarm.Behaviour.Handlers.{poll_send, deliver}
use the_swarm.Behaviour.State.{Node, Outside, Polling, and_then, fail_fast, to_memory}
use the_swarm.Behaviour.Memory.{waiters, on_memory_event}
use the_swarm.Behaviour.Exchange.{on_network_event, ask_memory, enlist}
use the_swarm.Behaviour.Answering.{memory_queue, waiting_for}
use the_swarm.Behaviour.Responding.{answer_event, response_of, responses, on_memory_event-Served}

-- What the memory has for a request.
abbrev pub held : Request → Memory → Option Shard
held (get_shard fid) m = Storage.get_shard m fid
held (serve_shard fid) m = Storage.serve_shard m fid

abbrev pub memory_event : Request → State.InEvent
memory_event (get_shard fid) = State.InEvent.assigned_request fid
memory_event (serve_shard fid) = State.InEvent.serve_shard_request fid

handle-answers :
    (inner : ErasureCode) (request : Request) (w : World)
    → w.output.room ≡ none
    → (handle inner (memory_event request) w).0.output.sent
      ≡ w.output.sent ++ (answer_event request (held request w.memory) ∷ [])
unfolding handle on_serve_shard_request on_assigned_request
handle-answers inner (get_shard fid) w is_open =
    ap (λ r. r.0.output.sent) (send_or_return_open _ w is_open)
handle-answers inner (serve_shard fid) w is_open =
    ap (λ r. r.0.output.sent) (send_or_return_open _ w is_open)

module _ {J : Type 0} where
  -- The event reaches the data memory, and nothing else that a response needs changes.
  abbrev Passed : Node J → State.InEvent → Polling J → Type 0
  Passed n e p =
      (p.1 ≡ none)
      × (memory_queue p.0 ≡ memory_queue n ++ (e ∷ []))
      × (p.0.request_response ≡ n.request_response)
      × (p.0.processed_requests ≡ n.processed_requests)

  to_memory-Passed :
      (e : State.InEvent) (n : Node J)
      → n.modules.data_memory.open_still ≡ true
      → 0 < n.modules.data_memory.free
      → Passed n e (to_memory e n)
  unfolding to_memory poll_send
  to_memory-Passed e n is_open room =
      polled n.modules.data_memory.open_still n.modules.data_memory.free is_open room
    where
      polled :
          (open_still : Bool) (free : ℕ)
          → open_still ≡ true
          → 0 < free
          → Passed n e (
              let (inbox, p) = deliver e n.modules.data_memory open_still free in
              (record n { modules = record n.modules { data_memory = inbox } }, fail_fast p))
      polled false free o r = absurd (cc)
      polled true zero o r = absurd (omega arith)
      polled true (suc free) o r = (refl, refl, refl, refl)

  ask_memory-Passed :
      (request : Request) (n : Node J)
      → n.modules.data_memory.open_still ≡ true
      → 0 < n.modules.data_memory.free
      → Passed n (memory_event request) (ask_memory request n)
  unfolding ask_memory
  ask_memory-Passed (get_shard fid) n = to_memory-Passed _ n
  ask_memory-Passed (serve_shard fid) n = to_memory-Passed _ n

  module _ (request_id : RequestId) (request : Request) (channel : ResponseChannel) where
    abbrev now_waiting : Node J → List (RequestId × ResponseChannel)
    now_waiting n = waiting_for request n ++ ((request_id, channel) ∷ [])

    abbrev Enlisted : Node J → Polling J → Type 0
    Enlisted n p =
        (p.1 ≡ none)
        × (memory_queue p.0 ≡ memory_queue n ++ (memory_event request ∷ []))
        × (p.0.request_response ≡ n.request_response)
        × (p.0.processed_requests ≡ insert n.processed_requests request (now_waiting n))

    incoming-Enlisted :
        (n : Node J) (p : Polling J)
        → Passed n (memory_event request) p
        → Enlisted n (and_then p (λ n. (enlist request_id request channel n, none)))
    unfolding enlist
    incoming-Enlisted n (n', some r) (ends, queued, network, processed) = absurd (cc)
    incoming-Enlisted n (n', none) (ends, queued, network, processed) = (
      refl,
      queued,
      network,
      ap (λ m. insert m request (waiters (get m request) ++ ((request_id, channel) ∷ [])))
          processed,
    )

    -- Where the requests that peers wait for have one entry each, the data memory runs with an
    -- open output and its input has room, and the input of the network has room for a response to
    -- everybody who waits for the same and to one more: a request of another peer is passed to the
    -- data memory, whose handler sends what it holds, and what the behaviour then does with that
    -- answer is to send it to all who wait, at the end to the peer that asked.
    pub request-served :
        (outside : Outside) (inner : ErasureCode) (n : Node J) (w : World)
        → Distinct n.processed_requests
        → n.modules.data_memory.open_still ≡ true
        → 0 < n.modules.data_memory.free
        → n.request_response.open_still ≡ true
        → length (waiting_for request n) < n.request_response.free
        → w.output.room ≡ none
        → let (n', r) = on_network_event (incoming_request request_id request channel) n in
          let answer = answer_event request (held request w.memory) in
          (memory_queue n' ≡ memory_queue n ++ (memory_event request ∷ []))
          × ((handle inner (memory_event request) w).0.output.sent ≡ w.output.sent ++ (answer ∷ []))
          × ((on_memory_event outside answer n').0.request_response.queued
              ≡ n.request_response.queued
                ++ responses (response_of request (held request w.memory)) (now_waiting n))
    unfolding on_network_event
    request-served outside inner n w distinct memory_open memory_room network_open network_room
          memory_runs =
        let (_, queued, network, processed) =
          incoming-Enlisted n (ask_memory request n)
            (ask_memory-Passed request n memory_open memory_room) in
        let n' = (on_network_event (incoming_request request_id request channel) n).0 in
        let shard = held request w.memory in
        let waiting =
          ap (λ m. waiters (get m request)) processed
          ∙ ap waiters (get-insert_self n.processed_requests request (now_waiting n)) in
        let (_, answered, _, _) =
          on_memory_event-Served outside request shard n'
            (subst (λ m. Distinct m) (sym processed)
              (insert-Distinct n.processed_requests request (now_waiting n) distinct))
            (ap (λ i. i.open_still) network ∙ network_open)
            (room n' waiting (ap (λ i. i.free) network)) in
        (
          queued,
          handle-answers inner request w memory_runs,
          answered
              ∙ ap (λ i. i.queued ++ responses (response_of request shard) (waiting_for request n'))
                  network
              ∙ ap (λ ws. n.request_response.queued ++ responses (response_of request shard) ws)
                  waiting,
        )
      where
        room :
            (n' : Node J)
            → waiting_for request n' ≡ now_waiting n
            → n'.request_response.free ≡ n.request_response.free
            → length (waiting_for request n') ≤ n'.request_response.free
        room n' waiting same = omega (
          arith,
          ap length waiting,
          length-append (waiting_for request n) ((request_id, channel) ∷ []),
          same,
          network_room,
        )
