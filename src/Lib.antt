-- ===== src/Lib.antt =====
-- A model of godoo-py, a family of async Python libraries for Odoo's RPC: of its client, in
-- packages/godoo-client/src/godoo/client (paths below are relative to it), and of its introspection, in
-- packages/godoo-introspection/src/godoo/introspection.
--
-- Base: names of the libraries, lists, dicts in insertion order, unbounded integers, results.
-- Value: the JSON-like values that the source types as `Any`, with Python's tests on them. A double is a
--   mantissa and an exponent, an infinity or not a number.
-- Faults: the exception classes of errors.py and services/properties/types.py, without message texts.
-- Safety: safety/__init__.py.
-- Config: config.py, over the environment as an argument; a failure is the list of the missing names.
-- Transport: rpc/transport.py. What httpx makes of a POST is a value of `Exchange`; Faulted says what a
--   call makes of it, and Sessions follows the session and the password over logins and logouts.
--   `str.lower` is the argument `Letters`.
-- Client: client.py over the guard of the transport. A client is a record of its session, its safety
--   contexts, the context variables of the running task and a log of what was awaited; a method takes it
--   to a result or an exception and a new record. What the server answers, what `confirm` says and what
--   other tasks do to the session during an await are functions of the log, so that theorems hold for
--   every such outside. Session objects carry a number for Python's `is`.
--   Client.Call has the guard, `call`, scoped calls and context blocks; Client.Guarded, Client.Scoped
--   and Client.Context prove them. Client.Traces are the rules by which a method's additions to the log
--   follow from those of its steps; Client.Reads and Client.Once are the two sorts of calls, those that
--   read and those that send one request; Client.Replies says what a read returns, and Client.Counts
--   counts what is sent.
--   Client.Crud has the CRUD helpers on model names (Safe: under the safety guard; Ref: external IDs),
--   Client.Refs `read` on references (Grouped, Resolved, Batches). Client.Pages is `iter_search_read`,
--   over what `search_read` gives for the arguments of each round (Queries), with the rows that are
--   yielded before an exception left out. Its fuel is a bound on the rounds.
-- Properties: services/properties. Types are definitions and lookups, Codec the parsing and the values on
--   the wire (Values, Parse, Records, Legacy), with what they promise (RoundTrip, Shape, ParseSound,
--   ParseComplete, Preflight, PatchPreflight, Complete). Receipts and Mutations are writes and their
--   bounded dispatch: a step relation in which any worker may move. Scope has the captured scopes and
--   the checked reads, Functions the reads, patches and legacy updates; Patches, Targets, Leads and
--   Writes say what these send, and where. Binding is binding.py: Declare, Aliases, Rows and Calls the code, Select, Bound,
--   Drift, RoundTrip and Sends what it promises. `date.fromisoformat` and `datetime.fromisoformat` are
--   the argument `Calendar`, `str.isidentifier` is the argument `Lexicon`.
-- Cdc: services/cdc, of which the resolver of tracked values and the cache of field metadata, a dict of
--   the module that is passed on explicitly. `str` of what is no text is the argument `Printer`.
-- Attendance: services/attendance, of which the status, clocking in and clocking out.
-- Modules: services/modules/module_manager.py. What `_is_ir_cron_error` says of an exception, and what
--   other tasks do while the client sleeps, is the argument `Waiting`. The fuel of the attempts is their
--   number, which the source fixes.
-- Typed: _pydantic_transform.py, and from client.py `_validate_typed` and the writes of an instance. The
--   module itself has annotations as trees, Wire the transforms, Instances what tracks the user's fields
--   and writes an instance (Payload, Tracked, Edited, Refused, RoundTrip), Partial the models that are
--   derived for a list of fields, and their cache (Fresh, Unguarded, Reads). What pydantic does is the
--   argument `Pydantic`, or `create_model` over numbered classes; `fromisoformat` and `isoformat` are the
--   argument `Calendar` of Wire.
-- Introspection: introspector.py and types.py of the introspection: Columns and Rows are what is made of
--   the rows, Fetch the requests and the cache, which is passed on explicitly; Cached, Partial and
--   Projected say what comes of them. `int` and `str` of a value and `str.strip` are the argument
--   `Builtins`.
-- Codegen: type_mapper.py (the module itself) and codegen.py (Modules the loop over the fields, Lines the
--   text) of the introspection. Bound, Imported, Emitted, Names and Importing are about the names that a
--   generated module uses and imports; Typing, Reads and Typed join the mapper with the transforms of Typed. What Python
--   says of a text is the argument `Texts`.
--
-- Not modelled: texts of messages and logging; deep copies, since values do not change in place; HTTP;
-- pydantic, which is an argument where typed records are read; writing the generated files and the
-- command line; the scripts and the test containers; and the parts of the client that the files above
-- do not name.
pub mod Attendance
pub mod Base
pub mod Cdc
pub mod Client
pub mod Codegen
pub mod Config
pub mod Faults
pub mod Introspection
pub mod Typed
pub mod Modules
pub mod Properties
pub mod Safety
pub mod Transport
pub mod Value
