-- ===== src/Lib.antt =====
-- OmniCursor: hooks and a library that guard the shell commands of the Cursor editor, redact what
-- leaves the machine, and learn patterns from the outcomes of sessions. All paths below are those of
-- the repository.
--
-- The parts and how they interact. Every hook first asks the mask whether it runs. The hook
-- beforeShellExecution asks `guard_command`; the hook beforeSubmitPrompt scores the agents for a
-- prompt, keeps the session files, ensures the emit daemon, fetches the learned patterns and emits
-- what it found; the hooks of a session's start and of a tool inject the patterns into the
-- conversation, the first behind a sync with the service; the stop hook reads the
-- event log of its session back, derives the outcome, writes a summary and a recap, updates the
-- learned patterns by it, and hands a payload to the outbox. Texts pass the redaction on their way.
--
-- The files:
--   Prelude, Prelude/*: the library names that all files share, lists on native numbers, tests.
--   Text, Text/*: `str` as a list of code points, with the methods that the program calls.
--   Regex, Regex/*: the part of `re` that the program's patterns use, as a backtracking matcher, a
--     relation of matches, and the proof that the matcher decides it.
--   Json, Json/Update, Event: parsed documents, and the lines of ~/.omnicursor/events.jsonl.
--   Keywords: the tokeniser `extract_keywords` of src/omnicursor/prompt_pattern_selection.py, of
--     which scoring.py and pattern_writer.py hold copies.
--   ShellGuard, ShellGuard/*: src/omnicursor/shell_guard.py, one function for each tier.
--   ShellHook, ShellHook/*: .cursor/hooks/scripts/shell-guard.py, the hook around the guard.
--   Redaction, Redaction/*: .cursor/hooks/lib/redaction.py.
--   Learned, Learned/*: src/omnicursor/pattern_writer.py. Steps holds the operations on a list of
--     patterns, Session the file, the extraction and `write_session_patterns`.
--   SessionOutcome, SessionOutcome/*: src/omnicursor/session_outcome.py.
--   Stop, Stop/*: .cursor/hooks/scripts/stop.py; `stop_main` gives the list of what the hook does.
--   Selection, Selection/*: src/omnicursor/prompt_pattern_selection.py.
--   Hooks, Hooks/*: .cursor/hooks/lib/_common.py: the mask of hooks and the session files.
--   Prompt, Prompt/*: .cursor/hooks/scripts/user-prompt-submit.py; `prompt_main` gives the list of
--     what the hook does, and threads the session files of Hooks.
--   SmallHooks, SmallHooks/*: session-end.py and post-tool-use.py of .cursor/hooks/scripts; Starting
--     is session-start.py, Edits is src/omnicursor/file_edit.py with post-edit.py.
--   Context, Context/*: .cursor/hooks/lib/context_injection.py, and src/omnicursor/pattern_cache.py
--     in Context/Cache.
--   Sync, Sync/*: src/omnicursor/sync/pattern_sync.py.
--   Emit, Emit/*: .cursor/hooks/lib/emit_client.py, canonical_event.py and measurement_emitter.py.
--   Daemon, Daemon/*: .cursor/hooks/lib/daemon_ensure.py. Daemon/Stamp is the claim of the stamp as
--     a step relation of any number of callers, a system call at a time.
--   Scoring, Scoring/*: src/omnicursor/scoring.py. Agents, Agents/*: src/omnicursor/agents.py.
--   Skills, Skills/*: the names of src/omnicursor/skills.py.
--   Compliance, Compliance/*: src/omnicursor/compliance.py with its whole registry.
-- A file Tests holds runs of a part and its theorems at inputs.
--
-- Bounds and fuel. A matcher of `r*` gets the length of the text as fuel: each round consumes a
-- character, and Regex/Complete shows that no match is lost. The rewriting of a secret pattern gets
-- the length of the text as well, since no pattern of the table matches the empty text. The walk
-- over the lines that end in FAILED and the decimal digits of a number consume likewise.
-- Numbers are natural. A weight is in thousandths, a routing score in ten-thousandths, a time in
-- microseconds, the age of a stamp in milliseconds, a relevance and an agent's score an exact
-- fraction; the rounding of floats beyond `round(…, 3)` is not modelled. Case, white space and word
-- characters are those of ASCII.
--
-- Parameters stand for what is not in the repository or only called: the environment, files and
-- claims (`World`), regular expressions of a configuration, SHA-1, the parsers of timestamps and
-- UUIDs, the ratio of difflib's matcher, shlex.quote and pathlib's `suffix`, the service and the
-- daemon with what they reply, the output of linters, and the formats of floats. A file is what
-- reading it gives: not there, not readable, no JSON, no UTF-8, or a value.
--
-- Not modelled: the MCP server and the bridge to omnimarket, the spool of the outbox, a "patterns"
-- that is no list, a shell command that is no text, an agent whose category is a number or a truth
-- value, the running of linters, installation, the checks of the repository and its evaluation
-- scripts.
pub mod Agents
pub mod Compliance
pub mod Context
pub mod Daemon
pub mod Emit
pub mod Event
pub mod Hooks
pub mod Json
pub mod Keywords
pub mod Learned
pub mod Prelude
pub mod Prompt
pub mod Redaction
pub mod Regex
pub mod Scoring
pub mod Selection
pub mod SessionOutcome
pub mod ShellGuard
pub mod ShellHook
pub mod Skills
pub mod SmallHooks
pub mod Stop
pub mod Sync
pub mod Text
