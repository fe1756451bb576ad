-- ===== src/Lib.antt =====
-- Verification of lcl-fastapi: a Python library that runs FastAPI services configured in LCL, with
-- the playground example and its JavaScript. Paths are from the repository's root.
--
-- Prelude      shared names, Boolean tests, texts as lists of code points, decimals, lists split by
--              a test.
-- Highlight    examples/playground/playground_service/static/lcl-highlight.js. Match has the
--              combinators of a regular expression that takes as much as it can; Strings and
--              Pattern are the groups of `pattern` in their order; Lexer is `tokenize`, Markup is
--              `highlight`, Editor is `render`, `attach`, `sync`, `update` and `destroy` on a page,
--              with the listeners as a step on events. Markup.Reader is an independent reader of
--              markup. The tables ID_Start and ID_Continue of Unicode are the parameter CharTables.
-- Playback     examples/playground/playground_service/static/app.js: the trace player (`stop`,
--              `step`, `evaluation` and the listeners), a step on events.
-- Workbench    the rest of app.js. Api is `api`, Tabs is `tab`, Tree is `astNode`, Graph is
--              `drawGraph`; Workbench itself has `display`, `evaluation` and what follows the answers
--              to Parse and Evaluate; Events has the samples, `start` and the listeners, with two
--              Highlight editors and a Playback player inside. What follows an await is an event of
--              its own; the service's answers are the events' contents. Turns is about the buttons,
--              Views about what is shown.
-- Inventory    examples/directory_monitor/directory_service/static/app.js: `render` with the filter
--              and the table; Events has `refresh`, the upload and the stream of events; Encode is
--              `split("/").map(encodeURIComponent).join("/")`, and Encode.Decode an independent
--              reader of percent signs and UTF-8. The browser's toLowerCase, toLocaleString and the
--              message of a URIError are the parameter Engine.
-- Background   src/lcl_fastapi/background. In journal.py, Writer is BackgroundJournal (`emit`,
--              `flush`), Journal the controller's reading of one journal (`read` of
--              BackgroundEvents), Removal the end of `read`, Journals its loop over
--              the directory with an OSError at the opening of a journal, Expiry `expired` and
--              `terminate_background_process`; what json.dumps and json.loads give are the
--              parameters `encode` and `decode`. Worker is
--              `WorkerThread.run` of thread.py with `transition`; what the entry, its resources and
--              the stop event do in each attempt is the argument of type Attempt, and a list of
--              attempts that ends leaves the thread waiting for the next.
-- Runtime      src/lcl_fastapi/runtime. State: state.py, with what the system calls report as
--              parameters (`read_state`, `atomic_write`, `process_identity`, `is_live`); Lease:
--              lease.py and the part of service.py that cleans up leases; Controller: `retire`
--              and `background_tick` of controller.py, with the processes and clocks of a tick as the
--              parameter World; Observer: `live_workers` and the rest of controller.py's `tick`;
--              Reload: `accept_change` and `tick` of reload.py, with what is reported during a tick
--              as the parameter Poll.
--              Service: `service_runtime`, `cleanup_stale` and `shutdown_requested` of service.py,
--              as lists of operations on the state directory of which any may fail.
--              `Lease.Ownership` lets any processes acquire, release, clean up, start and end in any
--              order.
-- Verbose      src/lcl_fastapi/verbose: the revisioned target that all processes of one start share
--              (`read_target`, `write_target`, `observe`, `update`). `Steps` interleaves starts, reads,
--              late observations and updates, the failing ones included.
--              Observations is `process_observations` and `status`, with the files of `observe`.
--              Process has `refresh_warning` and the slot of `use_file_control`.
-- Render       src/lcl_fastapi/render: the checks of validation.py, the quoting and the lines of
--              nginx.py and systemd.py. `Reader` describes, independently of the quoting, how Nginx
--              and systemd read an argument in quotation marks, and `Directives`, independently of
--              the renderers, how the directives and entries of a file are found.
-- Settings     src/lcl_fastapi/config.py: the checks on the number of workers and their range of
--              Snowflake numbers, which Lease takes.
-- Tests        the theorems at concrete inputs.
--
-- How the parts interact: the controller reads the journals of Background, and Reload and Observer
-- take their workers from `live_workers`. Lease and Verbose keep their files with `read_state` and
-- `atomic_write`. `atomic_write` shows other processes the old or the new content only, and so one
-- step of their relations reads or writes one whole dictionary. The file locks leases.lock and
-- logging-control.lock make `acquire`, `release`, `cleanup_stale` and `update` one step each. The target
-- that Service's entry writes is where Verbose's steps begin, the lines that Writer appends are what
-- Journal reads, and the deadlines in them are what Controller acts on.
--
-- Fuel: `exec_loop` takes one more than the length of the source and the loop of `read` one more
-- than the bytes left, since each round takes a character at least; the loops of `read_state` and
-- `atomic_write` take three rounds, since the third attempt returns or raises.
--
-- Numbers are natural numbers; -1 of the player's cursor is of an integer type. A time is a count of
-- 2 ^ -22 seconds. Sizes in the directory monitor are numbers whose sum a double holds exactly. Texts
-- of diagnostics are left out. The values of a journal's record have the types that the writer gives
-- them; what `read` raises for other values is not modelled.
--
-- Not modelled: the rest of the library (worker processes, the rest of the controller and of the
-- background workers, health, the other settings, logging, command line, middleware), the paths of the
-- playground's requests, the vendored swagger-ui, the examples in Python, the scripts and tests. The
-- operating system, psutil, the DOM and json are parameters or are described by what the calls report.
pub mod Prelude
pub mod Background
pub mod Highlight
pub mod Inventory
pub mod Playback
pub mod Render
pub mod Runtime
pub mod Settings
pub mod Verbose
pub mod Workbench
pub mod Tests
