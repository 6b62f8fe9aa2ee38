-- ===== src/Lib.antt =====
-- A verification library for picoclaw, a personal agent in Go: the parts that keep its state and decide
-- what it does next.
--
-- The parts and how they meet. The agent answers each message with calls of a language model and of
-- tools. The failover manager chooses the model of each call, and keeps its mode in the state manager,
-- which writes it to a file. The session manager keeps the conversations. The cron service starts
-- scheduled messages. A channel passes the messages of those it allows to the bus. The tool registry
-- runs the tools that a model asks for, and the tool loop repeats calls until the model has answered.
-- The usage store counts the tokens of the calls, the attachment store keeps the records of the files
-- that users send. The agent loop joins these parts: it reads the bus,
-- builds a conversation from the session, calls the model by the route of the failover manager, runs
-- the tools, and keeps, sums up and sends what comes of it.
--
-- Which file models what:
-- - Prelude: native numbers with 64-bit wrap-around (Int), Go's maps as association lists (Dict), the
--   functions of the package strings on the native String (Text, Strings), lists and tests.
-- - Llm: pkg/providers/types.go, the messages, tool calls and responses.
-- - State: pkg/state/state.go. A save is a list of disk operations (save_ops), so that a crash is a
--   prefix of it; new_manager reads the files back. State/Crash and State/Updates hold the proofs.
-- - Failover: pkg/failover/manager.go. Failover/Chain is NewManager and the fallback chain, Hints the
--   next probe that the headers of an error name, Ops the reports of calls and the routes, Probe the
--   probes of the primary model, Switchback the conversation with the user. Machine takes the
--   operations as the steps of one machine; Sound, Invariant, Chains, Latest, Probing, Routing,
--   Approval, Prompts and Restart hold the proofs.
-- - Session: pkg/session/manager.go. Session/Files is Save and loadSessions, with the operations on
--   files in their order; History, Saving, Names, Directory and Reload hold the proofs.
-- - Cron: pkg/cron/service.go. Cron/Jobs are the operations on jobs, Cron/Run is checkJobs and
--   executeJobByID with a handler that may itself change the service; Next, Store, Claim, Once and
--   Missed hold the proofs. Cron/CronTool is pkg/tools/cron.go, with its arguments in Cron/Arguments and
--   the run of a due job in Cron/JobRun; Commands holds its proofs.
-- - Usage: pkg/usage/store.go; Usage/Sums and Usage/Queries hold the proofs.
-- - Tools: pkg/tools/base.go, result.go and registry.go; Tools/Loop is toolloop.go, Tools/MessageTool
--   is message.go, Tools/Files is filesystem.go and edit.go, Tools/Subtask and
--   Tools/Subagent are subagent.go and spawn.go, Tools/Shell is shell.go; Runs, Pairing, Paths, Guards,
--   Subtasks and Shell/Guard hold the proofs.
-- - Channels: pkg/channels/base.go; Channels/Access holds the proof about the allow list.
--   Channels/Manager is manager.go; its Dispatch has the dispatcher beside those who publish, and Wanted
--   the channels that a configuration gives.
-- - Heartbeat: pkg/heartbeat/service.go, with the handler that cmd/picoclaw/main.go gives it; Targets and
--   Interval hold the proofs. Devices: pkg/devices/service.go and events/events.go, with its Targets.
-- - Auth: pkg/auth/store.go and token.go; Auth/Reload holds the proofs.
-- - Providers: the choice of a provider by pkg/providers/http_provider.go; Providers/Request
--   and Providers/Chat are its HTTPProvider, Providers/Keys and Providers/Prefixes hold the proofs.
-- - Attachments: pkg/attachments/store.go; Attachments/Reload holds the proof.
-- - Utils: Truncate of pkg/utils/string.go and pkg/constants/channels.go.
-- - Bus: pkg/bus/bus.go and types.go. A call on a channel goes through, waits or panics; Bus/Fifo
--   states the queue that the bus promises, with the proof.
-- - Agent: pkg/agent. Plan, Parsing and PlanFile are plan.go, Planner is planner.go and the options of a turn;
--   World (the state of the loop and what lies outside), Calls (one call of the model), Turn
--   (runLLMIteration), Summary (maybeSummarize and summarizeSession), Notices (processSystemMessage),
--   Loop (runAgentLoop and processMessage) and Serving (Run) are loop.go; Context is
--   BuildMessages of context.go and what loop.go does before a turn. Steps is a step relation: what
--   happens to the agent while it serves. Orphans, Sessions, Growth, Histories, AllReady, Readiness,
--   ChatCalls, BatchCalls, TurnCalls, Outside, Interrupted, Stopping and Forgetting hold the proofs. Visibility is visibility.go, with the summaries
--   in Visibility/Format and the descriptions of commands in Visibility/Commands; Visibility/Updates and Visibility/Commands/Sudo hold the
--   proofs. Memory is memory.go.
-- The modules named Examples apply the theorems to concrete values, the agent's at those of Agent/Fixtures.
--
-- A method on a struct is a function from the record before to the record after, and its other results.
-- Names are those of the source in snake case; a helper stands for a branch or the body of a loop.
-- Mutexes are not modelled: an operation that holds the lock throughout is one step, and the two parts
-- of checkJobs and executeJobByID that hold it apart are composed with the handler between them.
--
-- A turn of the agent is one step, and so is the end of a summary or of a probe, which run beside the
-- loop: what a goroutine does between the steps of a turn is not modelled. The world outside the agent
-- is a type of states that the records `Host` (the providers, the bus, the clock, files, encoders) and
-- `Desk` (the prompt, images, paths, the stream of actions, the text that answers
-- /usage) read and change; the theorems hold for all of them. The tools on files take a `FileHost`, the
-- file system and the functions on paths.
--
-- Parameters of the model: the answers of providers (and in the failover manager their construction), regular
-- expressions, the local format and parse
-- of dates, gronx.NextTickAfter, json.Marshal of tool arguments, the verb %q, the names of temporary
-- files, identifiers, the conversion of a JSON number to an int64, what a due job does with the shell tool
-- and the agent, the readings of the clock, and whether each call of the operating system succeeds.
-- White space and letter case are those of ASCII. A file that is written as JSON holds a value that
-- decodes to what was encoded, or is torn and does not decode.
--
-- A Go string is a native String; indices and lengths are in bytes, as in Go.
--
-- Bounds. An `int` or `int64` is an integer whose sums wrap around at 64 bits. The tool loop recurses on
-- MaxIterations less the iterations made, which is exactly the number of turns it may still take, and so does
-- the loop of a turn of the agent on maxIterations; the description of a command recurses
-- on the number of its characters, and all other loops recurse on the list they read.
--
-- Not modelled: handleUsageCommand and the wiring in NewAgentLoop and cmd/picoclaw/main.go, the texts for
-- the log, the adapters of the messengers, the other providers, OAuth, the tools on the network and on
-- hardware, skills, migration and the logger, which are input and output for the most part. The text of
-- an error of ResolveRoute is left out of the error that wraps it. The managers of the state that the
-- agent, the heartbeat and the devices open on one file are separate here as they are in the program.
pub mod Prelude
pub mod Llm
pub mod State
pub mod Failover
pub mod Session
pub mod Cron
pub mod Usage
pub mod Tools
pub mod Channels
pub mod Utils
pub mod Bus
pub mod Agent
pub mod Attachments
pub mod Heartbeat
pub mod Devices
pub mod Auth
pub mod Providers
