-- ===== src/Lib.antt =====
-- Hacker Typer for Omarchy: a desktop plugin that reveals prepared source code as one types.
--
-- The program and the files that model it.
-- * HackerTyperModel.js, the helpers. Progress.antt has `clamp`, `advance` and `retreat` over the
--   numbers of Number.antt (NaN, the infinities and integers; all callers pass integers).
--   Prepare.antt has `prepareSource` and Preview.antt `preview`, over the string methods of
--   Lines.antt. Sources.antt has `sourceById`. Payload.antt has `parsePayload`.
-- * SourceCatalog.js. Catalog.antt has the fourteen entries.
-- * SyntaxHighlight.js. Highlight/Config.antt has `buildKeywordSet` and `langConfig`,
--   Highlight/Languages.antt `LANGUAGES` and `FALLBACK`, Highlight/Scanner.antt `escapeRegExp`,
--   `buildScanner`, `scannerFor` and `classify`, Highlight/Tokenize.antt `tokenize`.
--   `buildScanner` writes a pattern as a text; Highlight/Pattern.antt reads it as `RegExp` does, for
--   the syntax that the program uses, and Highlight/Regex.antt matches by backtracking with the
--   priorities of ECMAScript. Highlight/Lexer.antt describes the same tokens without regular
--   expressions: it models no code, and is what `tokenize` is compared with.
-- * Service.qml. Service.antt has the selection, the signals of the file view, `launch`,
--   `statusObject` and the handlers of the command line.
-- * HackerTyper.qml. Markup.antt has `escapeMarkup`, `colorForTokenType` and
--   `buildHighlightedMarkup`; Screen.antt has `resolveScreen`; Overlay.antt has the state of the
--   terminal, `open`, `close`, `dismiss`, `toggle`, the cursor's timer and `handleKey`.
-- * Panel.qml. Panel.antt has the list of languages, the cursor, the button, `screenName` and the
--   delayed launch; Panel/Dropdown.antt has the value that the list shows.
-- * BarWidget.qml. BarWidget.antt has `hacker`, `opened`, `injectPanel`, the handlers that call it,
--   `open`, `close`, `togglePanel` and the tooltip. A notice of a changed bar and the evaluation of a
--   binding are steps of their own, which may come in any order.
-- * sources/task-orchestrator.ts, a bundled sample with a program of its own: queues with priorities,
--   leases, retries and a journal. Orchestrator/Queue.antt has `PriorityQueue`,
--   Orchestrator/Task.antt the types, `MemoryJournal` and `ShardRouter`, Orchestrator/Machine.antt
--   `TaskTable` and the state with the exceptions, Orchestrator/Events.antt `assertOwner`, `release`
--   and `record`, Orchestrator/Admission.antt `submit`, `registerWorker`, `heartbeat`, `drain`,
--   `snapshot` and `recentEvents`, Orchestrator/Leasing.antt `lease`, Orchestrator/Finishing.antt
--   `begin`, `complete` and `fail`, Orchestrator/Reclaiming.antt
--   `reclaimExpired`, Orchestrator/Demo.antt the last statements.
--   A queue holds references to tasks, which are the keys of the table here, so that a queue reads the
--   task that a later call changed. What `clock.now()` and `Date.now()` answer are arguments.
--   Priorities are integers; capacities and the readings of the clocks are natural numbers.
--   Orchestrator/Steps.antt has the step relation of the state, Orchestrator/Simulation.antt relates
--   the methods to it; a program is a list of calls (Orchestrator/Calls.antt). An exception here is a
--   result of its own, with the state that it leaves.
--   The plugin shows the text of this file and does not run it.
-- The panel and the command line call the service; the service summons the overlay by a JSON payload;
-- the overlay reads the service's text and builds its markup by the tokenizer; Panel/Terminal.antt
-- follows all of them from a file to the screen. State is passed explicitly; what a handler asks of the desktop is a list of effects or a returned request.
--
-- Texts are lists of UTF-16 code units. Elsewhere than in the orchestrator an exception is `none`,
-- and so are `null` and `undefined`; a missing text is empty where the code reads it
-- by `String(x || "")`.
--
-- Parameters: `JSON` and `String(...)` on other values than texts (Payload.antt, `Engine`, with
-- what is relied on in `IsEngine`), the shell's answer to `summon`, the services that it knows,
-- the files, the screens, what the panel reads of the desktop, and the colours of the theme
-- (`IsTheme`: a colour holds no `>`; `IsColored`: the muted one holds no quote either).
-- Markup/Reader.antt and Markup/Painter.antt say how the toolkit is taken to read a styled text.
--
-- Bounds: a repetition of a regular expression makes at most as many rounds as there are code units
-- left, which is all that can match since an empty round is none; the tokenizer's loop makes at most
-- two rounds more than the text has code units, one for each position and one that finds nothing. A
-- number n is written by at most n + 1 divisions by ten.
--
-- Not modelled: the visual tree, and the other bundled samples, which are data in other languages.
-- Fractions and negative zero do not occur. `lastIndex` is not kept in the cache, since
-- `scannerFor` resets it at each use. What an object inherits is a case of its own (`Property` in
-- Highlight/Config.antt); the inherited values are not distinguished. A keyword set's own properties are a list of words.
pub mod Base
pub mod Number
pub mod Progress
pub mod Lines
pub mod Prepare
pub mod Preview
pub mod Sources
pub mod Catalog
pub mod Highlight
pub mod Payload
pub mod Service
pub mod Markup
pub mod Overlay
pub mod Screen
pub mod Panel
pub mod BarWidget
pub mod Orchestrator
pub mod Tests
