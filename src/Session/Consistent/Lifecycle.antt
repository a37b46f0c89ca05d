-- ===== src/Session/Consistent/Lifecycle.antt =====
-- The invariant from the start of a session on: the first write, the loop of the actor and its
-- shutdown (crates/duragent/src/session/actor.rs).
use agnx.Session.Store.{Failure}
use agnx.Session.Replay.{replay_payload}
use agnx.Session.Actor.{queue_event}
use agnx.Session.Event.{SessionEventPayload}
use agnx.Session.Persist.{World, write_session_start}
use agnx.Session.Recover.{ActorConfig, spawn, new_actor}
use agnx.Session.Commands.{
  loop_tick, SessionCommand, loop_command, shutdown, drain_commands, command_loop, loop_round,
  Round,
}
use agnx.Common.{if_both, All, ℕ, String, refl, sym, Option, none, List, [], ◌∷◌, append-nil, arith}
use agnx.Session.Store.Finished.{Clean}
use agnx.Session.Consistent.{IsSound, IsConsistent, IsSound-join, IsConsistent-forget}
use agnx.Session.Consistent.Commands.{IsCurrent, handle_command-IsSound}
use agnx.Session.Consistent.Memory.{IsSound-touch}
use agnx.Session.Consistent.Queue.{keeps, queue_event-IsSound}
use agnx.Session.Consistent.Writes.{flush_events-Flushes, flush_and_snapshot-SoundSnapshots}

abbrev pub IsCurrentRound : {V : Type 0} → Round V → Type 0
IsCurrentRound (Round.command _ c) = IsCurrent c
IsCurrentRound (Round.tick _) = Unit

module _ {V : Type 0} (to_json : V → Option String) where
  new_actor-IsSound :
      (now : ℕ) (c : ActorConfig) (outcomes : List (Option Failure))
      → All Clean outcomes
      → IsSound to_json (record {
        actor = new_actor now c;
        disk = record { log = []; archive = []; snapshot = none; outcomes = outcomes };
      })
  unfolding new_actor
  new_actor-IsSound now c outcomes q = record {
    base = 0;
    log_numbered = refl;
    queue_numbered = refl;
    above_base = omega arith;
    checkpoint_le = omega arith;
    snapshot_le = omega arith;
    pending = refl;
    status = refl;
    saved = tt;
    finished = refl;
    clean = q;
  }

  write_session_start-IsSound :
      (now : ℕ) (w : World V) → IsSound to_json w → IsSound to_json (write_session_start now w)
  unfolding write_session_start queue_event replay_payload
  write_session_start-IsSound now w c =
      (flush_and_snapshot-SoundSnapshots to_json now _ (
        IsSound-touch to_json w.actor.updated_at w.actor.pending_approval _ (
          rw (append-nil w.actor.pending_messages) at (
            queue_event-IsSound to_json now
              (SessionEventPayload.session_start w.actor.agent w.actor.on_disconnect w.actor.gateway
                w.actor.gateway_chat_id)
              [] w.actor.silent_buffer w.actor.status w (λ ms. sym (append-nil ms))
              (keeps (λ x. refl) refl) c)))).0

  spawn-IsSound :
      (now : ℕ) (c : ActorConfig) (outcomes : List (Option Failure))
      → All Clean outcomes
      → IsSound to_json (spawn now c outcomes)
  unfolding spawn
  spawn-IsSound now c outcomes q =
      write_session_start-IsSound now _ (new_actor-IsSound now c outcomes q)

  loop_round-IsSound :
      (r : Round V) (w : World V)
      → IsCurrentRound r
      → IsSound to_json w
      → IsSound to_json (loop_round to_json r w)
  unfolding loop_round loop_command loop_tick
  loop_round-IsSound (Round.command now cmd) w h c =
      let k = handle_command-IsSound to_json now cmd w h c in
      if_both (λ (x : World V). IsSound to_json x) _ (flush_events-Flushes to_json now _ k).0 k
  loop_round-IsSound (Round.tick now) w h c =
      if_both (λ (x : World V). IsSound to_json x) _ c (flush_events-Flushes to_json now w c).0

  command_loop-IsSound :
      (rs : List (Round V)) (w : World V)
      → All IsCurrentRound rs
      → IsSound to_json w
      → IsSound to_json (command_loop to_json rs w)
  unfolding command_loop
  command_loop-IsSound [] w h c = c
  command_loop-IsSound (r ∷ rs) w h c =
      command_loop-IsSound rs (loop_round to_json r w) h.1 (loop_round-IsSound r w h.0 c)

  drain_commands-IsSound :
      (now : ℕ) (cs : List (SessionCommand V)) (w : World V)
      → All IsCurrent cs
      → IsSound to_json w
      → IsSound to_json (drain_commands to_json now cs w)
  unfolding drain_commands
  drain_commands-IsSound now [] w h c = c
  drain_commands-IsSound now (x ∷ cs) w h c =
      drain_commands-IsSound now cs _ h.1 (handle_command-IsSound to_json now x w h.0 c)

  shutdown-IsSound :
      (now : ℕ) (cs : List (SessionCommand V)) (w : World V)
      → All IsCurrent cs
      → IsSound to_json w
      → IsSound to_json (shutdown to_json now cs w)
  unfolding shutdown
  shutdown-IsSound now cs w h c =
      (flush_and_snapshot-SoundSnapshots to_json now _ (drain_commands-IsSound now cs w h c)).0

  -- A new session is consistent, whichever of its first writes the file system reports to have failed,
  -- if an append that fails has written nothing: log and queue are numbered without gaps, and a recovery
  -- from the snapshot, if there is one, and the whole journal would rebuild the messages, status and
  -- settings of the actor.
  pub spawn-IsConsistent :
      (now : ℕ) (c : ActorConfig) (outcomes : List (Option Failure))
      → All Clean outcomes
      → IsConsistent to_json (spawn now c outcomes)
  spawn-IsConsistent now c outcomes q = IsConsistent-forget to_json (spawn-IsSound now c outcomes q)

  -- The loop of the actor keeps a consistent session consistent through every sequence of
  -- commands and ticks without a legacy tool call, whichever calls of the file system fail meanwhile, if
  -- an append that fails has written nothing: the log and the queue stay numbered without gaps, and a
  -- recovery from the snapshot, if there is one, and the whole journal would rebuild the messages,
  -- status and settings of the actor.
  pub command_loop-IsConsistent :
      (rs : List (Round V)) (w : World V)
      → All IsCurrentRound rs
      → All Clean w.disk.outcomes
      → IsConsistent to_json w
      → IsConsistent to_json (command_loop to_json rs w)
  command_loop-IsConsistent rs w h q c =
      IsConsistent-forget to_json (command_loop-IsSound rs w h (IsSound-join to_json w q c))

  -- Shutdown, with the commands that it still drains and that are no legacy tool calls, keeps a
  -- consistent session consistent, also where its last writes fail, if an append that fails has
  -- written nothing.
  pub shutdown-IsConsistent :
      (now : ℕ) (cs : List (SessionCommand V)) (w : World V)
      → All IsCurrent cs
      → All Clean w.disk.outcomes
      → IsConsistent to_json w
      → IsConsistent to_json (shutdown to_json now cs w)
  shutdown-IsConsistent now cs w h q c =
      IsConsistent-forget to_json (shutdown-IsSound now cs w h (IsSound-join to_json w q c))
