-- ===== src/Lib.antt =====
-- Duragent runs agents as durable sessions. Clients and chat gateways send messages to the server;
-- each session is an actor that keeps the conversation in memory, appends its events to a log, and
-- writes snapshots from which it is recovered after a crash. A queue per session orders the messages
-- of a chat, a policy decides which tools an agent may call, and access rules decide who is heard.
--
-- The parts, and the files that model them:
--
-- - Session: the actor of a session (crates/duragent/src/session/actor.rs, actor_types.rs) and its
--   recovery (crates/duragent/src/session/registry.rs) over the files of a session
--   (crates/duragent/src/store/file/session.rs).
--     Session/Message and Session/Event are the data (crates/duragent-types/src).
--     Session/Store is the disk: the log, the archive and the snapshot, with load_events,
--     append_events, save_snapshot and compact_events. The file system is no part of the program: a
--     list of outcomes says which of its next calls fail, and what a failed append has written all
--     the same. Finished is about logs that end with a line end and appends that fail cleanly.
--     Session/Actor holds the state and the operations in memory, Session/Persist those that reach
--     the files, Session/Commands the commands, the loop and the shutdown (handle_command,
--     command_loop, drain_commands).
--     Session/Replay and Session/Recover are recover_single_session; Session/Journal has the
--     numbering of events.
--     Session/Consistent is the invariant between memory and disk, and the files below it take the
--     operations one by one, with the assumption that failed appends write nothing; Unsynced is about
--     the case without it; Session/Recover/Lossless, Crash and Again are about recoveries.
-- - Policy: tool policies (crates/duragent/src/agent/policy_eval.rs). Policy/Glob describes patterns,
--   Policy/Decisions the decisions of check, Policy/Changes what merge, add_allow_pattern and a longer
--   invocation do to them.
-- - Access: check_access and resolve_sender_disposition (crates/duragent/src/agent/access_eval.rs).
--   Access/Disposition has the loop over the overrides, Access/Order the description.
-- - Gateway: the message queue of a session (crates/duragent/src/gateway/queue.rs). Gateway/Queue has
--   the state and the plain operations, Gateway/Queue/Debounce the buffers per sender,
--   Gateway/Queue/Marks the marks. Gateway/Queue/Tasks runs the tasks of
--   crates/duragent/src/gateway/handler.rs on it, one action for each section under the lock, so that
--   a list of actions is an interleaving; Exclusive, Capacity and Bounded have its invariants, and
--   Gateway/Queue/Order the order of the messages. Gateway/Routing has the rules of
--   crates/duragent/src/gateway/routing.rs, its child FirstMatch what it is to be the first that serves.
-- - Client: the parser of server-sent events (crates/duragent-client/src/sse_parser.rs). Client/Sse is
--   the stream of lines, Client/Sse/Events that of events; Lines and RoundTrip relate them to the text.
-- - Context: the context window. Context has the token estimates (crates/duragent/src/context/tokens.rs),
--   Context/Truncation the masking of tool results by their indices
--   (crates/duragent/src/context/truncation.rs), Context/Masking the same in one pass,
--   Context/Dropping the dropping of the oldest iteration groups, Context/Groups and Context/Budget
--   what they are and what is left. The scan for groups has the number of messages as fuel, which is
--   enough since each turn passes a message.
-- - ChatSessions: the cache from chats to sessions
--   (crates/duragent/src/session/chat_session_cache.rs), with Keys about its keys and Agreement about
--   what its callers are told.
-- - Agentic: the loop between the model and the tools (crates/duragent/src/session/agentic_loop.rs).
--   Agentic has its data, Agentic/Calls the tool calls of a response (execute_tool_call and the loop
--   that calls it, inject_steered_messages), Agentic/Model the round trip to the model with its
--   retries, Agentic/Loop the iterations (run_agentic_loop, resume_agentic_loop). Answers says which
--   calls of a conversation want a result; Outcomes and Pairing follow the calls of a response, Masked,
--   Dropped and Drained the context window, Requests and Conversation the requests. Counters has what
--   an iteration keeps, for Termination and Safety. The loop runs on fuel, one turn more than the
--   limit of iterations, which is enough since each turn counts one.
-- - Tools: the hooks before and after a tool (crates/duragent/src/tools/hooks.rs) in Tools/Hooks,
--   Tools/Guards and Tools/Steering, and the executor (crates/duragent/src/tools/executor.rs) in
--   Tools/Executor. HookPatterns describes the patterns, Verdicts and Rejections the guards, with
--   Identity and SameCalls about the arguments that they compare. Tools/Json
--   is what they use of serde_json, Common/Entries has maps with texts as keys.
-- - Scheduler: crates/duragent-types/src/scheduler.rs and crates/duragent/src/scheduler. Scheduler/Timing
--   has the times and the delays, with the libraries for cron and times as a record, Scheduler/Cache the cache of schedule_cache.rs over what its store
--   holds, Scheduler/Service the handle, the timers and the commands of service.rs,
--   Scheduler/Execution one run of a schedule. A timer is a task that sleeps and the number of its
--   sender. What other tasks do while a run awaits is a function on the service.
-- - Common: Boolean tests, lists over the native numbers, texts as lists of code points, results.
--
-- How the parts meet: the handler of a gateway asks Access, puts the message into the queue of
-- Gateway, and the task that drains it sends commands to the actor of Session; a tool call of the
-- agent is judged by the guards of Tools and by Policy, and an approval reaches the actor as a
-- command. The agentic loop keeps its messages in the context window and sends what happens to the
-- actor as commands.
--
-- Modelling. A time is a number, and the moment that an operation reads is its argument. A JSON value
-- is an element of a type V, and what serde makes of it is a parameter. Sequence numbers are u64 in
-- the program and do not wrap in the model, since a session would need 2 ^ 64 events; the counter of
-- the queue is a usize and saturates as in the program. Maps are association lists without two equal
-- keys. Texts that are only compared are native strings; texts that are searched are lists of code
-- points. Loops are structural recursion, except for the consumer of a stream, which polls at most as
-- often as its fuel says: more polls than the text has lines are enough.
--
-- Not modelled: the maps and channels of the session registry, the rest of the context window,
-- the payloads of the scheduler, the work of the tools, the language models, processes, the HTTP server and
-- client, the command line, and the gateways' input and output.
pub mod Access
pub mod Agentic
pub mod ChatSessions
pub mod Client
pub mod Common
pub mod Context
pub mod Gateway
pub mod Policy
pub mod Scheduler
pub mod Session
pub mod Tools
