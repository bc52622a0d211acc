-- ===== src/Behaviour/Heard.antt =====
-- src/behaviour/mod.rs: what the events of the network mean to the data memory, and who asks for
-- what in them.
use the_swarm.Common.{
  ◌≡◌, refl, sym, ap, ◌∙◌, ite, if_pos, if_neg, Option, none, some, List, [], ◌∷◌, ◌++◌,
}
use mathlib.Core.List.{append-nil}
use the_swarm.Common.Map.{Map, nat_key, get, insert, get-insert}
use the_swarm.DataMemory.State
use the_swarm.Protocol.{
  Request, get_shard, serve_shard, Response, shard_got, shard_served, request_discrete, request_key,
  RequestId, ResponseChannel, OutEvent, assigned_request_id, response, incoming_request,
}
use the_swarm.Behaviour.Memory.{waiters}

-- Who asks for what, in order.
unfoldable pub askers : Request → List OutEvent → List (RequestId × ResponseChannel)
askers request [] = []
askers request (assigned_request_id request_id asked ∷ es) = askers request es
askers request (response request_id answer ∷ es) = askers request es
askers request (incoming_request request_id asked channel ∷ es) =
    ite (request_discrete asked request) ((request_id, channel) ∷ askers request es)
      (askers request es)

-- What a response means to the data memory, given the request that it answers.
abbrev pub answered : Option Request → Response → List State.InEvent
answered (some (get_shard fid)) (shard_got s) = State.InEvent.assigned_response fid s ∷ []
answered (some (get_shard fid)) (shard_served s) = []
answered (some (serve_shard fid)) (shard_got s) = []
answered (some (serve_shard fid)) (shard_served s) = State.InEvent.serve_shard_response fid s ∷ []
answered none answer = []

abbrev pub asked_for : Request → List State.InEvent
asked_for (get_shard fid) = State.InEvent.assigned_request fid ∷ []
asked_for (serve_shard fid) = State.InEvent.serve_shard_request fid ∷ []

-- The events that the data memory is sent, and the own requests by their ids, while these events
-- arrive.
unfoldable pub heard :
    Map RequestId Request → List OutEvent → List State.InEvent × Map RequestId Request
unfolding get insert
heard pending [] = ([], pending)
heard pending (assigned_request_id request_id request ∷ es) =
    heard (insert pending request_id request) es
heard pending (response request_id answer ∷ es) =
    let (rest, pending') = heard pending es in
    (answered (get pending request_id) answer ++ rest, pending')
heard pending (incoming_request request_id request channel ∷ es) =
    let (rest, pending') = heard pending es in (asked_for request ++ rest, pending')

pub heard-cons :
    (pending : Map RequestId Request) (e : OutEvent) (es : List OutEvent)
    → heard pending (e ∷ es) ≡ (
      (heard pending (e ∷ [])).0 ++ (heard (heard pending (e ∷ [])).1 es).0,
      (heard (heard pending (e ∷ [])).1 es).1,
    )
unfolding heard
heard-cons pending (assigned_request_id request_id request) es = refl
heard-cons pending (response request_id answer) es =
    ap (λ l. (l ++ (heard pending es).0, (heard pending es).1))
      (sym (append-nil (answered (get pending request_id) answer)))
heard-cons pending (incoming_request request_id request channel) es =
    ap (λ l. (l ++ (heard pending es).0, (heard pending es).1))
      (sym (append-nil (asked_for request)))

pub askers-cons :
    (request : Request) (e : OutEvent) (es : List OutEvent)
    → askers request (e ∷ es) ≡ askers request (e ∷ []) ++ askers request es
unfolding askers
askers-cons request (assigned_request_id _ _) es = refl
askers-cons request (response _ _) es = refl
askers-cons request (incoming_request id asked channel) es = elim (request_discrete asked request) [
  | yes p ↦ rw (if_pos _ p, if_pos _ p) refl
  | no p ↦ rw (if_neg _ p, if_neg _ p) refl
]

pub enlisted_one :
    (m : Map Request (List (RequestId × ResponseChannel))) (request_id : RequestId)
    (asked : Request) (channel : ResponseChannel) (request : Request)
    → waiters (get (insert m asked (waiters (get m asked) ++ ((request_id, channel) ∷ []))) request)
      ≡ waiters (get m request) ++ askers request (incoming_request request_id asked channel ∷ [])
unfolding askers
enlisted_one m request_id asked channel request =
    ap waiters (get-insert m asked _ request) ∙ elim (request_discrete asked request) [
      | yes p ↦
          rw
            (
              if_pos (request_discrete asked request) p,
              if_pos (request_discrete asked request) p,
              p,
            )
            refl
      | no p ↦
          rw (if_neg (request_discrete asked request) p, if_neg (request_discrete asked request) p)
            (sym (append-nil _))
    ]
