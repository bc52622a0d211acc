-- ===== src/Behaviour/Answering.antt =====
-- src/behaviour/mod.rs: requests of other peers and the responses to them, and the responses to
-- the own requests.
use the_swarm.Common.{
  ℕ, zero, suc, ◌≡◌, refl, sym, ap, ◌∙◌, Bool, true, false, Option, none, some, List, [], ◌∷◌, ◌++◌,
}
use mathlib.Core.List.{append_assoc, append-nil}
use the_swarm.Common.Map.{nat_key, get}
use the_swarm.DataMemory.State
use the_swarm.Protocol.{
  Request, get_shard, serve_shard, Response, shard_got, shard_served, request_key, RequestId,
  ResponseChannel, OutEvent, assigned_request_id, response, incoming_request,
}
use the_swarm.Behaviour.Handlers.{poll_send, deliver}
use the_swarm.Behaviour.State.{Node, Polling, and_then, to_memory, fail_fast, drain}
use the_swarm.Behaviour.Memory.{waiters}
use the_swarm.Behaviour.Exchange.{accept_response, ask_memory, enlist, on_network_event}
use the_swarm.Behaviour.Trace.{OneStep, Drained, drain-Drained}
use the_swarm.Behaviour.Heard.{
  askers, answered, asked_for, heard, heard-cons, askers-cons, enlisted_one,
}

module _ {J : Type 0} where
  abbrev pub memory_queue : Node J → List State.InEvent
  memory_queue n = n.modules.data_memory.queued

  abbrev pub waiting_for : Request → Node J → List (RequestId × ResponseChannel)
  waiting_for request n = waiters (get n.processed_requests request)

  pub record Exchanged (n : Node J) (es : List OutEvent) (n' : Node J) : Type 0 where
    pub sent_on : memory_queue n' ≡ memory_queue n ++ (heard n.pending_response es).0
    pub pending : n'.pending_response ≡ (heard n.pending_response es).1
    pub enlisted :
        (request : Request) → waiting_for request n' ≡ waiting_for request n ++ askers request es

  start : (n : Node J) → Exchanged n [] n
  unfolding heard askers
  start n = record {
    sent_on = sym (append-nil (memory_queue n));
    pending = refl;
    enlisted = λ request. sym (append-nil (waiting_for request n));
  }

  continued :
      (n n' n'' : Node J) (e : OutEvent) (es : List OutEvent)
      → Exchanged n (e ∷ []) n'
      → Exchanged n' es n''
      → Exchanged n (e ∷ es) n''
  continued n n' n'' e es first later = record {
    sent_on =
        later.sent_on
        ∙ ap (λ l. l ++ (heard n'.pending_response es).0) first.sent_on
        ∙ append_assoc (memory_queue n) (heard n.pending_response (e ∷ [])).0
            (heard n'.pending_response es).0
        ∙ ap (λ m. memory_queue n ++ ((heard n.pending_response (e ∷ [])).0 ++ (heard m es).0))
            first.pending
        ∙ ap (λ h. memory_queue n ++ h.0) (sym (heard-cons n.pending_response e es));
    pending =
        later.pending
        ∙ ap (λ m. (heard m es).1) first.pending
        ∙ ap (λ h. h.1) (sym (heard-cons n.pending_response e es));
    enlisted = λ request.
        later.enlisted request
        ∙ ap (λ l. l ++ askers request es) (first.enlisted request)
        ∙ append_assoc (waiting_for request n) (askers request (e ∷ [])) (askers request es)
        ∙ ap (◌++◌ (waiting_for request n)) (sym (askers-cons request e es));
  }

  -- What a send to the data memory leaves.
  abbrev Sends : Node J → List State.InEvent → Polling J → Type 0
  Sends n l (n', none) =
      (memory_queue n' ≡ memory_queue n ++ l)
      × (n'.pending_response ≡ n.pending_response)
      × (n'.processed_requests ≡ n.processed_requests)
  Sends n l (n', some r) =
      (memory_queue n' ≡ memory_queue n)
      × (n'.pending_response ≡ n.pending_response)
      × (n'.processed_requests ≡ n.processed_requests)

  to_memory-Sends : (e : State.InEvent) (n : Node J) → Sends n (e ∷ []) (to_memory e n)
  unfolding to_memory poll_send
  to_memory-Sends e n = polled n.modules.data_memory.open_still n.modules.data_memory.free
    where
      polled :
          (open_still : Bool) (free : ℕ)
          → Sends n (e ∷ []) (
              let (inbox, p) = deliver e n.modules.data_memory open_still free in
              (record n { modules = record n.modules { data_memory = inbox } }, fail_fast p))
      polled false free = (refl, refl, refl)
      polled true zero = (refl, refl, refl)
      polled true (suc free) = (refl, refl, refl)

  accept_response-Sends :
      (request : Option Request) (answer : Response) (n : Node J)
      → Sends n (answered request answer) (accept_response request answer n)
  unfolding accept_response
  accept_response-Sends (some (get_shard fid)) (shard_got s) n = to_memory-Sends _ n
  accept_response-Sends (some (get_shard fid)) (shard_served s) n =
      (sym (append-nil (memory_queue n)), refl, refl)
  accept_response-Sends (some (serve_shard fid)) (shard_got s) n =
      (sym (append-nil (memory_queue n)), refl, refl)
  accept_response-Sends (some (serve_shard fid)) (shard_served s) n = to_memory-Sends _ n
  accept_response-Sends none answer n = (sym (append-nil (memory_queue n)), refl, refl)

  ask_memory-Sends :
      (request : Request) (n : Node J) → Sends n (asked_for request) (ask_memory request n)
  unfolding ask_memory
  ask_memory-Sends (get_shard fid) n = to_memory-Sends _ n
  ask_memory-Sends (serve_shard fid) n = to_memory-Sends _ n

  response-OneStep :
      (n : Node J) (request_id : RequestId) (answer : Response) (p : Polling J)
      → Sends n (answered (get n.pending_response request_id) answer) p
      → OneStep on_network_event Exchanged n (response request_id answer) p
  unfolding heard askers
  response-OneStep n request_id answer (n', none) (sent_on, pending, processed) = record {
    sent_on = sent_on ∙ ap (◌++◌ (memory_queue n)) (sym (append-nil _));
    pending = pending;
    enlisted = λ request.
        ap (λ m. waiters (get m request)) processed ∙ sym (append-nil (waiting_for request n));
  }
  response-OneStep n request_id answer (n', some r) (sent_on, pending, processed) = record {
    sent_on = sent_on ∙ sym (append-nil (memory_queue n));
    pending = pending;
    enlisted = λ request.
        ap (λ m. waiters (get m request)) processed ∙ sym (append-nil (waiting_for request n));
  }

  incoming-OneStep :
      (n : Node J) (request_id : RequestId) (asked : Request) (channel : ResponseChannel)
      (p : Polling J)
      → Sends n (asked_for asked) p
      → OneStep on_network_event Exchanged n
          (incoming_request request_id asked channel)
          (and_then p (λ n. (enlist request_id asked channel n, none)))
  unfolding heard askers enlist
  incoming-OneStep n request_id asked channel (n', some r) (sent_on, pending, processed) = record {
    sent_on = sent_on ∙ sym (append-nil (memory_queue n));
    pending = pending;
    enlisted = λ request.
        ap (λ m. waiters (get m request)) processed ∙ sym (append-nil (waiting_for request n));
  }
  incoming-OneStep n request_id asked channel (n', none) (sent_on, pending, processed) = record {
    sent_on = sent_on ∙ ap (◌++◌ (memory_queue n)) (sym (append-nil _));
    pending = pending;
    enlisted = λ request.
        enlisted_one n'.processed_requests request_id asked channel request
        ∙ ap
            (λ m.
              waiters (get m request)
              ++ askers request (incoming_request request_id asked channel ∷ []))
            processed;
  }

  event-OneStep :
      (n : Node J) (e : OutEvent) → OneStep on_network_event Exchanged n e (on_network_event e n)
  unfolding on_network_event heard askers
  event-OneStep n (assigned_request_id request_id request) = record {
    sent_on = sym (append-nil (memory_queue n));
    pending = refl;
    enlisted = λ request. sym (append-nil (waiting_for request n));
  }
  event-OneStep n (response request_id answer) =
      response-OneStep n request_id answer _ (accept_response-Sends _ answer n)
  event-OneStep n (incoming_request request_id request channel) =
      incoming-OneStep n request_id request channel _ (ask_memory-Sends request n)

  -- The loop over the events of the network sends the data memory every request of another peer,
  -- and of the responses those whose id was assigned to a request of the same kind, with the shard
  -- id of that request, in order; and it lists who asks for what behind those who already wait for
  -- it. If an event stops the loop, this is so for those before it.
  pub drain-Exchanged :
      (es : List OutEvent) (n : Node J)
      → Drained on_network_event Exchanged n es (drain on_network_event es n)
  drain-Exchanged = drain-Drained on_network_event Exchanged start continued event-OneStep
