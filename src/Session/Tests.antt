-- ===== src/Session/Tests.antt =====
-- Runs of a session (crates/duragent/src/session), and the theorems at concrete sessions.
use agnx.Session.Message.{assistant, user, text}
use agnx.Session.Store.Finished.{Clean}
use agnx.Session.Store.{write_lines, Failure, nothing, save_snapshot, next_outcome, append_events}
use agnx.Session.Recover.Lossless.{outstanding_calls}
use agnx.Session.Consistent.Lifecycle.{
  command_loop-IsConsistent, spawn-IsConsistent, shutdown-IsConsistent,
}
use agnx.Session.Consistent.{IsConsistent}
use agnx.Session.Recover.Again.{recover-IsConsistent}
use agnx.Session.Consistent.Writes.{flush_and_snapshot-Snapshots, Snapshots}
use agnx.Session.Recover.Lossless.{replayed, revived}
use agnx.Session.Actor.{
  all_messages, queue_event, maybe_trim_history, maybe_roll_checkpoint, add_assistant_response,
  Actor, add_user_message,
}
use agnx.Session.Replay.{replay, replay_payload}
use agnx.Common.{All, String, ◌≡◌, Option, none, some, List, [], ◌∷◌, refl}
use agnx.Session.Event.{assistant_response_to_message, active, SessionSnapshot, pause, discard}
use agnx.Session.Persist.{
  World, compact, after_save, write_snapshot, flush_and_snapshot, after_append, flush_events,
  write_session_start,
}
use agnx.Session.Commands.{
  loop_tick, loop_command, loop_round, SessionCommand, Round, command_loop, handle_command,
  shutdown,
}
use agnx.Session.Recover.{final_status, new_actor, ActorConfig, spawn}

abbrev config : ActorConfig
config = record {
  id = "s1";
  agent = "helper";
  on_disconnect = pause;
  gateway = none;
  gateway_chat_id = none;
  silent_buffer_cap = 2;
  actor_message_limit = 100;
  compaction_mode = discard;
}

abbrev json : String → Option String
json = some

abbrev rounds : List (Round String)
rounds =
    Round.command 2 (SessionCommand.add_user_message "hi" none none)
    ∷ Round.command 3 (SessionCommand.add_assistant_response "hello" [] none)
    ∷ Round.tick 4
    ∷ []

-- A session that has said hello and has been flushed.
greeted : World String
unfolding command_loop loop_round loop_command loop_tick handle_command add_user_message
    add_assistant_response assistant_response_to_message maybe_roll_checkpoint maybe_trim_history
    flush_events after_append append_events next_outcome spawn new_actor write_session_start
    queue_event flush_and_snapshot write_snapshot save_snapshot after_save compact all_messages
    final_status
greeted = command_loop json rounds (spawn 1 config [])

-- What the start of the session saved.
abbrev start_snapshot : SessionSnapshot String
start_snapshot = record {
  schema_version = "2";
  session_id = "s1";
  agent = "helper";
  status = active;
  created_at = 1;
  snapshot_at = 1;
  last_event_seq = 1;
  checkpoint_seq = 0;
  conversation = [];
  config = record {
    on_disconnect = pause;
    gateway = none;
    gateway_chat_id = none;
    pending_approval = none;
    silent_buffer_cap = some 2;
    actor_message_limit = some 100;
  };
}

greeted_messages : all_messages greeted.actor ≡ text user "hi" ∷ text assistant "hello" ∷ []
unfolding greeted
greeted_messages = refl

greeted_is_saved : greeted.disk.snapshot ≡ some start_snapshot
unfolding greeted
greeted_is_saved = refl

greeted-Clean : All Clean greeted.disk.outcomes
unfolding greeted
greeted-Clean = tt

-- The first append finds the disk full.
abbrev disk_full : Failure
disk_full = record { message = "disk full"; whole = 0; begun = nothing }

spawn-IsConsistent_example : IsConsistent json (spawn 1 config (some disk_full ∷ []))
spawn-IsConsistent_example =
    spawn-IsConsistent json 1 config (some disk_full ∷ []) ((refl, refl), tt)

command_loop-IsConsistent_example : IsConsistent json greeted
unfolding greeted
command_loop-IsConsistent_example =
    command_loop-IsConsistent json rounds (spawn 1 config []) (tt, (tt, (tt, tt))) tt
      (spawn-IsConsistent json 1 config [] tt)

greeted-IsConsistent : IsConsistent json greeted
unfolding greeted
greeted-IsConsistent =
    command_loop-IsConsistent json rounds (spawn 1 config []) (tt, (tt, (tt, tt))) tt
      (spawn-IsConsistent json 1 config [] tt)

greeted_outstanding : outstanding_calls json start_snapshot greeted.disk ≡ []
unfolding greeted replay replay_payload write_lines
greeted_outstanding = refl

greeted_replayed :
    final_status start_snapshot.config.on_disconnect
      (replayed json start_snapshot greeted.disk).status
    ≡ some active
unfolding greeted replay replay_payload write_lines
greeted_replayed = refl

recover-IsConsistent_example : IsConsistent json (record {
  actor = revived json 9 discard start_snapshot greeted.disk active;
  disk = greeted.disk;
})
recover-IsConsistent_example =
    recover-IsConsistent json 9 discard greeted start_snapshot active greeted-IsConsistent
      greeted_is_saved greeted_outstanding greeted_replayed

flush_and_snapshot-Snapshots_example : Snapshots json 9 (flush_and_snapshot 9 greeted)
flush_and_snapshot-Snapshots_example =
    flush_and_snapshot-Snapshots json 9 greeted greeted-Clean greeted-IsConsistent

shutdown-IsConsistent_example :
    IsConsistent json
      (shutdown json 9 (SessionCommand.add_user_message "bye" none none ∷ []) greeted)
shutdown-IsConsistent_example =
    shutdown-IsConsistent json 9 (SessionCommand.add_user_message "bye" none none ∷ []) greeted
      (tt, tt) greeted-Clean greeted-IsConsistent
