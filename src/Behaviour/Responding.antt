-- ===== src/Behaviour/Responding.antt =====
-- src/behaviour/mod.rs: the responses to the requests of other peers.
use the_swarm.Common.{
  ℕ, zero, suc, ◌≤◌, ◌≡◌, ◌≢◌, refl, sym, ap, ◌∙◌, Bool, true, false, Option, none, List, [], ◌∷◌,
  ◌++◌, arith, length,
}
use mathlib.Core.List.{append_assoc, append-nil}
use the_swarm.Common.Map.{get, remove, Distinct, get-remove_self, get-remove_ne}
use the_swarm.Types.{Shard}
use the_swarm.DataMemory.State
use the_swarm.Protocol
use the_swarm.Protocol.{
  Request, get_shard, serve_shard, Response, shard_got, shard_served, request_key, RequestId,
  ResponseChannel,
}
use the_swarm.Behaviour.Handlers.{poll_send, deliver}
use the_swarm.Behaviour.State.{Node, Outside, Polling, and_then, to_network, fail_fast}
use the_swarm.Behaviour.Memory.{waiters, take_waiters, respond_all, respond_to, on_memory_event}
use the_swarm.Behaviour.Answering.{waiting_for}

-- One response to each, in order.
abbrev pub responses : Response → List (RequestId × ResponseChannel) → List Protocol.InEvent
responses answer [] = []
responses answer ((request_id, channel) ∷ ws) =
    Protocol.InEvent.respond request_id channel answer ∷ responses answer ws

-- The answers of the data memory, and the responses that they become.
abbrev pub answer_event : Request → Option Shard → State.OutEvent
answer_event (get_shard fid) shard = State.OutEvent.assigned_response fid shard
answer_event (serve_shard fid) shard = State.OutEvent.serve_shard_response fid shard

abbrev pub response_of : Request → Option Shard → Response
response_of (get_shard fid) shard = shard_got shard
response_of (serve_shard fid) shard = shard_served shard

module _ {J : Type 0} where
  abbrev pub Responded : Node J → Response → List (RequestId × ResponseChannel) → Polling J → Type 0
  Responded n answer ws p =
      (p.1 ≡ none)
      × (p.0.request_response.queued ≡ n.request_response.queued ++ responses answer ws)
      × (p.0.processed_requests ≡ n.processed_requests)

  respond_all-Responded :
      (answer : Response) (ws : List (RequestId × ResponseChannel)) (n : Node J)
      → n.request_response.open_still ≡ true
      → length ws ≤ n.request_response.free
      → Responded n answer ws (respond_all answer ws n)
  unfolding respond_all to_network poll_send
  respond_all-Responded answer [] n is_open room = (refl, sym (append-nil _), refl)
  respond_all-Responded answer ((request_id, channel) ∷ ws) n is_open room =
      sent_one n.request_response.open_still n.request_response.free is_open room
        (respond_all-Responded answer ws)
    where
      e : Protocol.InEvent
      e = Protocol.InEvent.respond request_id channel answer

      sent_one :
          (open_still : Bool) (free : ℕ)
          → open_still ≡ true
          → suc (length ws) ≤ free
          → ((n : Node J)
              → n.request_response.open_still ≡ true
              → length ws ≤ n.request_response.free
              → Responded n answer ws (respond_all answer ws n))
          → Responded n answer ((request_id, channel) ∷ ws) (
              and_then
                (let (inbox, p) = deliver e n.request_response open_still free in
                  (record n { request_response = inbox }, fail_fast p))
                (respond_all answer ws))
      sent_one false free o r rest = absurd (cc)
      sent_one true zero o r rest = absurd (omega arith)
      sent_one true (suc free) o r rest =
          let (ends, queued, processed) =
            rest
              (record n {
                request_response = record n.request_response {
                  queued = n.request_response.queued ++ (e ∷ []);
                  free = free;
                };
              })
              is_open (omega arith) in
          (
            ends,
            queued ∙ append_assoc n.request_response.queued (e ∷ []) (responses answer ws),
            processed,
          )

  abbrev pub Served : Node J → Request → Option Shard → Polling J → Type 0
  Served n request shard p =
      (p.1 ≡ none)
      × (p.0.request_response.queued
          ≡ n.request_response.queued
            ++ responses (response_of request shard) (waiting_for request n))
      × (waiting_for request p.0 ≡ [])
      × ((other : Request) → request ≢ other → waiting_for other p.0 ≡ waiting_for other n)

  respond_to-Served :
      (request : Request) (shard : Option Shard) (n : Node J)
      → Distinct n.processed_requests
      → n.request_response.open_still ≡ true
      → length (waiting_for request n) ≤ n.request_response.free
      → Served n request shard (respond_to request (response_of request shard) n)
  unfolding respond_to take_waiters
  respond_to-Served request shard n distinct is_open room =
      let (ends, queued, processed) =
        respond_all-Responded (response_of request shard) (waiting_for request n)
          (record n { processed_requests = remove n.processed_requests request }) is_open room in
      (
        ends,
        queued,
        ap (λ m. waiters (get m request)) processed
            ∙ ap waiters (get-remove_self n.processed_requests request distinct),
        λ other different.
            ap (λ m. waiters (get m other)) processed
            ∙ ap waiters (get-remove_ne n.processed_requests request other different),
      )

  -- Where the requests that peers wait for have one entry each, and the input of the network is
  -- open and has room for as many responses as peers wait for: an answer of the data memory to a
  -- request is sent to all of those who wait for it, in the order in which they asked, and to each
  -- once; nobody waits for it afterwards, and those who wait for anything else still do.
  pub on_memory_event-Served :
      (outside : Outside) (request : Request) (shard : Option Shard) (n : Node J)
      → Distinct n.processed_requests
      → n.request_response.open_still ≡ true
      → length (waiting_for request n) ≤ n.request_response.free
      → Served n request shard (on_memory_event outside (answer_event request shard) n)
  unfolding on_memory_event
  on_memory_event-Served outside (get_shard fid) shard n = respond_to-Served (get_shard fid) shard n
  on_memory_event-Served outside (serve_shard fid) shard n =
      respond_to-Served (serve_shard fid) shard n
