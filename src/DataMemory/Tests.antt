-- ===== src/DataMemory/Tests.antt =====
-- src/data_memory/mod.rs: runs of a peer of three, over a small code.
use the_swarm.Common.{
  map, ◌≡◌, ◌↔◌, refl, true, none, some, List, [], ◌∷◌, arith, ◌&&◌, ◌||◌, ◌==◌, if◌then◌else◌,
  ℕ_discrete,
}
use the_swarm.Common.Map.{Map, nat_key, get, insert, remove, collect_into}
use the_swarm.Common.Result.{ok, done}
use the_swarm.Types.{Vid, Sid, Shard}
use the_swarm.Encoding.ReedSolomon.{encode}
use the_swarm.Encoding.ReedSolomon.Sample.{sample_code, sample_code-IsErasureCode}
use the_swarm.Encoding.ReedSolomon.Tests.{
  sample_data, sample_data-IsData, shard0, shard1, shard2, sample_shards, encode_sample,
}
use the_swarm.DataMemory.State.{InEvent, OutEvent, Wake, input, read, write, Memory}
use the_swarm.DataMemory.Output.{World, HandleResult, running}
use the_swarm.DataMemory.Storage.{get_shard, store_shard, serve_shard}
use the_swarm.DataMemory.Uninitialized
use the_swarm.DataMemory.Uninitialized.{verify_distribution}
use the_swarm.DataMemory.Handlers.{
  on_prepare_service_request, on_store_confirmed, handle_assigned_response, on_recollect_request,
}
use the_swarm.DataMemory.Run.{run}
use the_swarm.DataMemory.Invariant.{IsValid}
use the_swarm.DataMemory.Invariant.Events.{run-IsValid}
use the_swarm.DataMemory.Distribution.{
  on_prepare_service_request-serves, on_store_confirmed-reports,
}
use the_swarm.DataMemory.Responses.{Response, to_wake, gathered, Genuine}
use the_swarm.DataMemory.Retrieval.{Ends, run-recollects}
use the_swarm.DataMemory.Rewriting.{put_again-unserved}
use the_swarm.DataMemory.Recollection.{
  handle_assigned_response-completes, on_recollect_request_starts,
}
use the_swarm.DataMemory.Access.{get_shard-store_shard}
use the_swarm.DataMemory.Acceptance.{Covers, Starts, run-Starts, verify_distribution_iff}

-- Data 7 is spread over the peers, and its first shard is there for an assembly.
abbrev memory : Memory
memory = record {
  local_storage = (7, (0, shard0) ∷ []) ∷ [];
  to_distribute = (7, (2, shard2) ∷ []) ∷ [];
  currently_assembled = (7, (0, shard0) ∷ []) ∷ [];
  distribution = (10, 0) ∷ (11, 1) ∷ (12, 2) ∷ [];
  data_known_locations = (7, (0, 10) ∷ (1, 11) ∷ []) ∷ (8, (1, 11) ∷ (2, 12) ∷ []) ∷ [];
  local_id = 10;
}

abbrev world : World
world = record { memory = memory; output = record { sent = []; room = none }; answered = [] }

memory-IsValid : IsValid 2 memory
memory-IsValid = record {
  stored = ((tt, tt), ((tt, tt), tt));
  served = ((tt, tt), ((tt, tt), tt));
  assembling = ((tt, tt), ((tt, tt), tt));
  located = (
    ((omega arith, tt), (tt, tt)),
    (((omega arith, tt), (tt, tt)), (((omega arith, tt), (tt, tt)), tt)),
  );
  incomplete = (omega arith, tt);
}

abbrev wakes : List Wake
wakes =
    input (some (InEvent.store_confirmed (7, 2) 12))
    ∷ write (some (9, shard1))
    ∷ input (some (InEvent.recollect_request 8))
    ∷ input (some (InEvent.assigned_response (8, 1) (some shard1)))
    ∷ []

run-IsValid_example : IsValid 2 (run sample_code wakes world).0.memory
run-IsValid_example = run-IsValid sample_code (omega arith) wakes world memory-IsValid

on_prepare_service_request-serves_example :
    let r = on_prepare_service_request sample_code 5 sample_data world in
    (all : Map Sid Shard) × (encode sample_code sample_data ≡ done all)
    × (r.1 ≡ running)
    × (r.0.output.sent ≡ OutEvent.prepared_service_response 5 ∷ [])
    × ((other : Vid) (sid : Sid)
        → serve_shard r.0.memory (other, sid)
          ≡ (if 5 == other then get all sid else serve_shard memory (other, sid)))
on_prepare_service_request-serves_example =
    on_prepare_service_request-serves sample_code sample_code-IsErasureCode refl world 5 sample_data
      sample_data-IsData refl

on_store_confirmed-reports_example :
    let r = on_store_confirmed sample_code (7, 2) 12 world in
    (r.1 ≡ running)
    × (r.0.output.sent ≡ OutEvent.distribution_full 7 ∷ [])
    × (r.0.memory.data_known_locations
        ≡ (7, (0, 10) ∷ (1, 11) ∷ (2, 12) ∷ []) ∷ (8, (1, 11) ∷ (2, 12) ∷ []) ∷ [])
    × ((other : Vid) (osid : Sid)
        → serve_shard r.0.memory (other, osid) ≡ (
            if (7 == other) && ((2 == osid) || true)
            then none
            else serve_shard memory (other, osid)))
unfolding insert get ℕ_discrete
on_store_confirmed-reports_example =
    on_store_confirmed-reports sample_code world 7 2 12 memory-IsValid refl

first_only :
    (j : Sid) (s : Shard) → get ((0, shard0) ∷ []) j ≡ some s → get sample_shards j ≡ some s
unfolding get ℕ_discrete
first_only j s e = ground arith

handle_assigned_response-completes_example :
    handle_assigned_response sample_code (7, 1) (some shard1) world ≡ (
      record {
        memory = record memory { currently_assembled = [] };
        output = record {
          sent = OutEvent.recollect_response (ok (7, sample_data)) ∷ [];
          room = none;
        };
        answered = [];
      },
      HandleResult.ok,
    )
unfolding get remove ℕ_discrete
handle_assigned_response-completes_example =
    handle_assigned_response-completes sample_code sample_code-IsErasureCode refl world 7 1 shard1
      sample_data sample_shards ((0, shard0) ∷ []) sample_data-IsData encode_sample refl (tt, tt)
      first_only refl refl refl refl

on_recollect_request_starts_example : on_recollect_request sample_code 8 world ≡ (
  record {
    memory = record memory { currently_assembled = (7, (0, shard0) ∷ []) ∷ (8, []) ∷ [] };
    output = record {
      sent = OutEvent.assigned_request (8, 1) 11 ∷ OutEvent.assigned_request (8, 2) 12 ∷ [];
      room = none;
    };
    answered = [];
  },
  running,
)
unfolding get insert ℕ_discrete
on_recollect_request_starts_example =
    on_recollect_request_starts sample_code world 8 ((1, 11) ∷ (2, 12) ∷ []) refl (omega arith) refl
      (omega arith, (omega arith, tt)) refl

-- One response is empty, and one comes twice.
abbrev responses : List Response
responses =
    (2, none) ∷ (1, some shard1) ∷ (1, some shard1) ∷ (2, some shard2) ∷ (2, some shard2) ∷ []

responses-Genuine : Genuine sample_shards responses
unfolding get ℕ_discrete
responses-Genuine = (refl, (refl, (refl, (refl, tt))))

run-recollects_example :
    Ends sample_code sample_code-IsErasureCode refl 8 sample_data sample_shards sample_data-IsData
      encode_sample
      (OutEvent.assigned_request (8, 1) 11 ∷ OutEvent.assigned_request (8, 2) 12 ∷ [])
      (gathered [] responses)
      (run sample_code
        (input (some (InEvent.recollect_request 8)) ∷ map (to_wake 8) responses)
        world)
unfolding get ℕ_discrete
run-recollects_example =
    run-recollects sample_code sample_code-IsErasureCode refl 8 sample_data sample_shards
      sample_data-IsData encode_sample world ((1, 11) ∷ (2, 12) ∷ []) responses refl (omega arith)
      ((λ e. omega (arith, e)), ((λ e. omega (arith, e)), tt)) refl (tt, tt) refl responses-Genuine

get_shard-store_shard_example : get_shard (store_shard memory (9, 1) shard1).0 (9, 1) ≡ some shard1
get_shard-store_shard_example = get_shard-store_shard memory 9 1 shard1 9 1

verify_distribution_iff_example :
    (verify_distribution sample_code (collect_into [] ((10, 0) ∷ (11, 2) ∷ (12, 1) ∷ [])) ≡ true)
    ↔ Covers 3 (collect_into [] ((10, 0) ∷ (11, 2) ∷ (12, 1) ∷ []))
verify_distribution_iff_example =
    verify_distribution_iff sample_code ((10, 0) ∷ (11, 2) ∷ (12, 1) ∷ [])

abbrev start_wakes : List Wake
start_wakes =
    read (some 7)
    ∷ input (some (InEvent.initialize ((10, 0) ∷ (11, 1) ∷ [])))
    ∷ input (some (InEvent.initialize ((10, 0) ∷ (11, 2) ∷ (12, 1) ∷ [])))
    ∷ input (some (InEvent.recollect_request 7))
    ∷ []

run-Starts_example :
    Starts sample_code 10
      (Uninitialized.run sample_code 10 start_wakes (record { sent = []; room = none })).1
run-Starts_example = run-Starts sample_code 10 start_wakes (record { sent = []; room = none })

-- The same peer, when it knows where all the shards of data 7 are.
abbrev distributed_memory : Memory
distributed_memory = record memory {
  data_known_locations = (7, (0, 10) ∷ (1, 11) ∷ (2, 12) ∷ []) ∷ [];
}

distributed_memory-IsValid : IsValid 2 distributed_memory
distributed_memory-IsValid = record {
  stored = ((tt, tt), ((tt, tt), tt));
  served = ((tt, tt), ((tt, tt), tt));
  assembling = ((tt, tt), ((tt, tt), tt));
  located = ((tt, tt), (((omega arith, (omega arith, tt)), ((omega arith, tt), (tt, tt))), tt));
  incomplete = (omega arith, tt);
}

abbrev distributed_world : World
distributed_world = record world { memory = distributed_memory }

put_again-unserved_example :
    serve_shard
      (on_store_confirmed sample_code
        (7, 0)
        10
        (on_prepare_service_request sample_code 7 sample_data distributed_world).0).0.memory
      (7, 1)
    ≡ none
unfolding get ℕ_discrete
put_again-unserved_example =
    put_again-unserved sample_code sample_code-IsErasureCode refl distributed_world 7 0 10 10
      sample_data ((0, 10) ∷ (1, 11) ∷ (2, 12) ∷ []) 1 sample_data-IsData distributed_memory-IsValid
      refl refl refl refl
