-- ===== src/Lib.antt =====
-- The YYR4 controller for Linux, package src/yyr4_linux_control: a macro keyboard with twelve buttons
-- and four encoders, whose key events become presses of controls, which a layered configuration binds
-- to actions, which a daemon runs. The files here model the parts that decide what happens; each
-- definition has the name of the Python function or class it translates.
--
-- Parts and files
--   Base            names shared by all: equality tests by instance, lists, Python's dict as an
--                   association list in insertion order (Base/Dict), exceptions as `Result`
--                   (Base/Raising), integers (Base/Int), `str` operations (Base/Text, Base/Substring), and
--                   what a TOML or JSON text holds (Base/Value).
--   Domain          src/yyr4_linux_control/domain/controls.py and events.py: physical controls and
--                   events, with the checks of their constructors.
--   Transport       transport/codebook.py (Transport/Codebook) and transport/parser.py
--                   (Transport/Parser). The parser takes a raw key event and its own state and returns
--                   the new state and the events that it emits. `reset` takes the time as an argument.
--   Control         control/models.py (Control/Models), and of control/actions.py the actions
--                   (Control/Actions), `_flatten_action` (Control/Flatten), the two resolvers and the
--                   dry run (Control/Resolver); control/config.py (Control/Config).
--   Execution       execution/engine.py and execution/models.py (Execution/Engine); of
--                   execution/command.py the policy and the reading of output (Execution/Command), and
--                   the method `run` (Execution/Runner).
--   Daemon          daemon/queue.py (Daemon/Queue), daemon/context.py (Daemon/Context) and
--                   daemon/runtime.py (Daemon/Runtime). The runtime's tasks are cut at their awaits:
--                   Executor, Reloader and Main have a function for each piece, Steps has the
--                   interleavings as a step relation `Reach` on the state of the daemon.
--   Device          device/identity.py (Device/Identity) and device/discovery.py (Device/Discovery).
--   Observation     observation/pipeline.py (Observation; its loop in Observation/Loop).
--   Management      management/protocol.py (Management/Protocol) and management/server.py
--                   (Management/Server): the checks of a request and what it does to the runtime.
--   Configurator    configurator/draft.py (Configurator/Draft; its `validate` in
--                   Configurator/Validation), configurator/action_spec.py (Configurator/ActionSpec),
--                   configurator/serializer.py (Configurator/Serializer), `diff_configs` of
--                   configurator/diff.py (Configurator/Diff), configurator/save.py
--                   (Configurator/Save, Configurator/Save/Restore), and of configurator/web/ the files
--                   security.py (Web/Security), session.py (Web/Session), api.py (Web/Api) and server.py
--                   (Web/Request, Web/Server).
--
-- How they interact: the discovery picks the device whose keys are read; the observation pipeline runs
-- the parser over these and resets it at their end; the parser asks the codebook for the control of a
-- key; its events pass through the queue; the layered resolver turns an event, the profile and the
-- layer of the runtime context into a plan; the engine runs the plan's steps on the backends, some of
-- which change the context. The runtime loads a configuration with the parser of Control/Config, moves
-- events from the session over the queue to the executor, and answers requests for a reload or a
-- change of the context; the management server passes such requests on. The draft edits the
-- configuration that the resolver and the context read. The editor's server finds the session of a
-- request, whose API edits the draft, and saves it as the text that the serializer writes, once the
-- configuration's parser has read that text.
--
-- Conventions
--   - A method that changes its object takes the object last and returns the new one. An exception is
--     `err`, or `none` where only one can occur. A class with checks in `__post_init__` is a record
--     with a function that makes the checks.
--   - A Python int is a native natural where the code or a check makes it one, and an integer where it
--     can be negative. There is no overflow, since Python's integers are unbounded.
--   - The digits of a number (Configurator/Serializer/Strings) are written on fuel, one more than the
--     number, which is enough since each digit divides it by ten (Configurator/Serializer/Decimal). Every
--     other loop is structural recursion on the list it goes over, without fuel. The loop that
--     reads a process's output goes over the chunks that the stream delivers; a stream that never ends
--     has no model. Macros are finite trees, so their flattening ends without its limits too.
--   - The lock of the runtime context makes each method one step. The loops of the runtime's tasks are
--     steps too, one round at a time, so they may go on for ever; what bounds them after a stop is a
--     rank of the main task's phases.
--   - Log lines are left out. Error messages that contain the offending value are shortened to their
--     fixed part, or are data. In Config and ActionSpec the steps of a macro are parsed on the way to
--     their field, so that the recursion is structural; the result counts only where the code asks for
--     it.
--   - Values of another type than the code intends: a TOML true becomes the number 1 (Base/Value), a
--     hotkey's key that is no text is an error (Control/Config/Actions), and JSON's NaN and Infinity are
--     refused by the test of their type (Configurator/ActionSpec), where the code keeps or raises.
--
-- Parameters: the clock's type and readings (Daemon/Context), the backends of the engine, with the
-- world that they change (Execution/Engine), what becomes of a process (Execution/Runner), what a
-- configuration file holds when it is loaded, how sessions and executions end, and whether the power
-- in the reconnect delay overflows (Daemon/Runtime), how a stream of raw events ends
-- (Observation), the TOML parser and the hash of a text (Configurator/Validation), what other
-- processes do to the files during a save (Configurator/Save), and what a cookie header holds
-- (Configurator/Web/Request).
--
-- Not modelled: the daemon's signals and command line, the TOML parser, the desktop backends, the
-- enumeration of devices, the sockets of the management server, its client, the other diffs and the
-- pages of the configurator, the files of an editing session and its recovery, the draft's `from_recovery`, and the
-- probes under tools/ and integration/. These are input and output, or wait for a later extension.
pub mod Base
pub mod Domain
pub mod Transport
pub mod Control
pub mod Execution
pub mod Observation
pub mod Daemon
pub mod Device
pub mod Management
pub mod Configurator
