-- ===== src/Consensus/Loop.antt =====
-- src/consensus/graph.rs: the stream of ordered transactions, and the event loop.
use the_swarm.Common.{ℕ, Bool, true, false, Option, none, some, List, [], ◌∷◌}
use the_swarm.Common.Channel.{Channel, send}
use the_swarm.Types.{PeerId}
use the_swarm.Consensus.Graph.{
  GraphApi, Wrapper, TxBuffer, NextTxData, NextTx, recognized, finalized, ApplySyncError,
  generate_sync_response, known_peers_response, finalized_transaction, recognized_transaction,
  InEvent, generate_sync_request, known_peers_request, apply_sync, schedule_tx, create_standalone,
  OutEvent, ready, busy, next_tx, World, sync_with, create_standalone_event, push_tx,
}

-- How one round of the loop ends.
pub data Exit : Type 0 where
  running returned panicked : Exit

-- What wakes the `select!`: the stream, or the input channel, which may be closed.
pub data Wake (J : Type 0) : Type 0 where
  stream : Wake J
  input : Option (InEvent J) → Wake J

abbrev pub to_out : {J : Type 0} → NextTx → OutEvent J
to_out (recognized (from, tx, hash)) = recognized_transaction from hash tx
to_out (finalized (from, tx, hash)) = finalized_transaction from hash tx

module _ {G J : Type 0} (api : GraphApi G J) (rounds : ℕ) where
  abbrev pub with_recognized :
      Wrapper G → Option (G × TxBuffer × Option NextTxData) → Option (Wrapper G × Option NextTx)
  with_recognized w none = none
  with_recognized w (some (g, buffer, none)) =
      some (record w { inner = g; recognized_transaction_buffer = buffer }, none)
  with_recognized w (some (g, buffer, some tx)) =
      some (record w { inner = g; recognized_transaction_buffer = buffer }, some (recognized tx))

  abbrev pub with_finalized :
      Wrapper G → Option (G × TxBuffer × Option NextTxData) → Option (Wrapper G × Option NextTx)
  with_finalized w none = none
  with_finalized w (some (g, buffer, none)) =
      with_recognized (record w { inner = g; finalized_transaction_buffer = buffer })
        (next_tx api.next_recognized_event rounds g w.recognized_transaction_buffer)
  with_finalized w (some (g, buffer, some tx)) =
      some (record w { inner = g; finalized_transaction_buffer = buffer }, some (finalized tx))

  -- `poll_next`: pending is `none` as the next transaction, and running out of rounds is `none`.
  -- The notification is used up.
  unfoldable pub poll_next : Wrapper G → Option (Wrapper G × Option NextTx)
  poll_next w =
      with_finalized (record w { state_updated = false })
        (next_tx api.next_finalized_event rounds w.inner w.finalized_transaction_buffer)

  abbrev on_error : World G J → Channel (OutEvent J) × Bool → World G J × Exit
  on_error w (o, true) = (record w { output = o }, running)
  on_error w (o, false) = (record w { output = o }, returned)

  -- `if send(e).await.is_err() { return; }`.
  unfoldable pub send_or_return : OutEvent J → World G J → World G J × Exit
  unfolding send
  send_or_return e w = on_error w (send e w.output)

  abbrev pub generated : PeerId → World G J → Option (List J) → World G J × Exit
  generated to w none = (record w { state = busy }, returned)
  generated to w (some sync) =
      send_or_return (generate_sync_response to sync) (record w { state = ready })

  abbrev pub standalone : World G J → Option (Wrapper G × Option ApplySyncError) → World G J × Exit
  standalone w none = (w, panicked)
  standalone w (some (wrapper, _)) = (record w { wrapper = wrapper }, running)

  unfoldable pub handle : InEvent J → World G J → World G J × Exit
  handle (generate_sync_request to) w = generated to w (api.generate_sync_for w.wrapper.inner to)
  handle known_peers_request w = send_or_return (known_peers_response (api.peers w.wrapper.inner)) w
  handle (apply_sync from sync) w =
      (record w { wrapper = (sync_with api from sync w.wrapper).0; state = ready }, running)
  handle (schedule_tx tx) w = (record w { wrapper = push_tx api tx w.wrapper }, running)
  handle create_standalone w = standalone w (create_standalone_event api w.wrapper)

  -- The stream has no item yet, or it has one.
  abbrev pub forward : World G J → Wrapper G × Option NextTx → World G J × Exit
  forward w (wrapper, none) = (record w { wrapper = wrapper }, running)
  forward w (wrapper, some tx) = send_or_return (to_out tx) (record w { wrapper = wrapper })

  abbrev pub streamed : World G J → Option (Wrapper G × Option NextTx) → Option (World G J × Exit)
  streamed w none = none
  streamed w (some r) = some (forward w r)

  -- One round of the `select!`; `none` is to run out of rounds in the stream.
  unfoldable pub round : Wake J → World G J → Option (World G J × Exit)
  unfolding poll_next handle
  round stream w = streamed w (poll_next w.wrapper)
  round (input none) w = some (w, returned)
  round (input (some e)) w = some (handle e w)

  abbrev pub continue :
      (World G J → Option (World G J × Exit))
      → Option (World G J × Exit)
      → Option (World G J × Exit)
  continue rest none = none
  continue rest (some (w, running)) = rest w
  continue rest (some (w, returned)) = some (w, returned)
  continue rest (some (w, panicked)) = some (w, panicked)

  -- The loop of `run`, over what wakes it.
  unfoldable pub run : List (Wake J) → World G J → Option (World G J × Exit)
  unfolding round
  run [] w = some (w, running)
  run (wake ∷ wakes) w = continue (run wakes) (round wake w)
