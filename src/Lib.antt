-- ===== src/Lib.antt =====
-- HaiCode: what a tool call of the agent may do and who approves it, what the tools do to files and
-- commands, how prompts are queued and run, what the agent reads from the network, how the history of
-- a session is shortened and sent, and what goes into the system prompt.
--
-- The agent's engine calls tools by name. `ToolRegistry` decides each call: the mode of the session
-- and being offline bound what there is, plan mode bounds git, then trusted system roots, the rules
-- of `PermissionGate` and the built-in exemptions decide, and where nobody does the gate asks. The
-- question goes to `PermissionRequestBroker`, where the engine's worker waits until the user answers,
-- the run is cancelled or the window cannot be reached.
--
-- The tools that run commands quote what the model gives them, start a shell with `run_subprocess` and
-- report how it ended. The tools that write end in `atomic_write_file`. Each session has a runner, which
-- runs a turn for each prompt in its queue; submitting, interrupting and deleting come from other
-- threads at any time. Before a request is sent, `assemble_messages` gives each tool call its result.
--
-- A provider sends the conversation through `HttpClient`, which cuts the stream of bytes that comes
-- back into events and reports how the request ended; the engine reads a retry delay back out of the
-- report. Where the conversation outgrows the context, `split_history` finds the part to summarize and
-- `apply_checkpoint` puts the summary in its place. Files are replaced by `atomic_write_file`.
--
-- Files and code:
--   Base, Base/*                   shared lists, texts as bytes, ordered maps, Boolean tests
--   Util/Utf8, Util/Base64         lib/src/util/util.cpp: sanitize_utf8, base64_encode, base64_decode
--   Util/Truncate                  the same file: truncate_utf8
--   Util/AtomicWrite               the same file: atomic_write_file
--   Util/ProviderError             lib/src/util/provider_error.cpp
--   Util/Capabilities              lib/src/util/model_capabilities.cpp
--   Permission/Types               lib/include/haicode/types.h and tool.h
--   Permission/Path                lib/src/permission/permission.cpp: normalize_path,
--                                  is_path_within, path_resolves_within and the readable roots
--   Permission/Bash                the same file: bash_pattern_authorizes
--   Permission/Mode                the same file: tool_allowed_in_mode, tool_available
--   Permission/Git                 the same file: git_invocation_is_readonly and its helpers
--   Permission/Gate                the same file: PermissionGate
--   Permission/Registry            the same file: ToolRegistry
--   Permission/Broker              lib/src/permission/permission_requests.cpp
--   Session/Events                 lib/src/session/events.cpp
--   Http/Sse, Http/Body            lib/src/util/util.cpp: RequestState and BodySink, which take what
--                                  libcurl receives
--   Http/Redirects, Http/Client    the same file: HttpClient::get and HttpClient::post_sse
--   Util/Subprocess                lib/src/util/subprocess.cpp: the parent's side of run_subprocess
--   Tool/Shell, Tool/Run           lib/src/tool/tools.cpp: the commands of the tools bash, grep, find
--                                  and git, and what is made of their ends
--   Tool/Paths                     the same file: resolve_path, missing_field, make_parent_dirs
--   Tool/Read, Tool/Edit           the same file: ReadTool, EditTool and WriteTool
--   Tool/Symbols                   the same file: strip_non_code
--   Engine/Repair                  lib/src/engine/engine.cpp: the second half of assemble_messages, and
--                                  append_status_block
--   Engine/Runner                  the same file: the queue and the runner of a session
--   Compaction, Compaction/*       lib/src/compaction/compaction.cpp
--   Skills, Skills/*               lib/src/skills/skills.cpp
-- The children of a module hold its lemmas, by what they prove, and Examples its tests.
--
-- A `std::string` is the list of its bytes, a `std::map` an association list in key order, and an
-- object under one mutex a record that its operations take and return. Where `submit` of the broker
-- lets go of the mutex, the steps of other threads stand between its blocks. An exception is a value
-- of `Attempt`. `fnmatch` and `realpath` of the C library, the JSON library, the tools and the
-- callbacks are parameters; a callback is a function of its arguments.
--
-- libcurl is the sequence of the calls that it makes of the request's state, the system calls of
-- `atomic_write_file` and `run_subprocess` are their answers, and the directories of skills are the skills they list.
--
-- Loops are recursion on the text or the list. Some things count: the digits of a request's id, at
-- most 16, and of a size, at most 20, since they have 64 bits; `match_down`, the rules that are left;
-- `count` and `replace` of the edit tool, one more than the bytes of the file, since each round takes
-- one at least; the rounds of `run_subprocess`, what each of them sees;
-- `copy` of sanitize_utf8, the bytes of a sequence that are still to be copied; `walk_back`, the three
-- rounds that the loop's condition allows; `hops`, the five redirects that are followed at most; and
-- `walk` of split_history, the messages, since each round takes one at least. `rule_index` does not
-- overflow an `int` while a layer has fewer than 2^31 rules.
--
-- A step of a session's runner is what one thread does under the engine's mutex at a time; the turn
-- itself is one step, and whether the row of its prompt can be stored is an input of that step: where it
-- cannot, no turn is begun and the next prompt is taken. The shell is modelled by how it reads words,
-- quotes and escapes, up to the first zero byte of a command; a command with a byte that means more to
-- it has no words.
--
-- Not modelled: providers, the database, the configuration and the windows, since they are input and
-- output by other libraries; of the engine what a turn does, `compact_now` and the end of
-- `delete_session`; of the tools glob, ls, symbols but for `strip_non_code`, plans, todos, processes,
-- screenshots and the web; of `run_subprocess` the child. `match_rules` of the gate has no
-- caller. Of the HTTP client the set of the requests that run and `post_json` are left out, of
-- compaction the prompts, the estimate of a whole request and the budget in floating point, and of the
-- skills the search of the directories. JSON members of another type than the code reads, at which the
-- JSON library throws, are left out in compaction.
pub mod Base
pub mod Compaction
pub mod Engine
pub mod Http
pub mod Permission
pub mod Session
pub mod Skills
pub mod Tool
pub mod Util
