-- ===== src/Lib.antt =====
-- The client library for the Snowflake SQL API, snowflake_sql_api, as a model and its proofs.
--
-- A client signs requests (auth.py), sends statements with retries (transport.py), polls running
-- ones and fetches result partitions (client.py, pagination.py), and inserts rows in batches that
-- fit row and byte limits (batches.py, with bindings.py and escaping.py). All paths are under
-- snowflake_sql_api/.
--
--   Escaping      escaping.py: quote_identifier, quote_name. Escaping/Lexer reads quoted names as a
--                 SQL lexer does, independently of the code.
--   Bindings      bindings.py: _bind_one, to_bindings. A text is the list of its code points.
--   Errors        exceptions.py, and the JSON values of the bodies.
--   Batches       batches.py: Encode is _encode, Progress the records, Planner and Planner/Step are
--                 _BatchPlanner, Execution is _BatchExecution.
--   Transport     transport.py: _interpret and _json_body, Send is _send, Calls its callers,
--                 Async is AsyncTransport with the loop of its own _send, Reading describes
--                 what a response is read as.
--   Client        client.py and _client_base.py: Affected is _rows_affected, Poll is _poll, Batching
--                 is insert_batches, Insert is _insert_statement, Payload is _build_payload, Run is
--                 execute and the submission of a statement, Results is the query surface and
--                 QueryHandle.result, Chunks is query_batches.
--   Types         types.py: the columns of a result and coerce_value. Spans are timedelta values.
--   Pagination    pagination.py: fetch_all_partitions; Streaming is the generator iter_result_rows.
--   Testing       testing.py: Wire is the cell encoding, Bodies the response bodies, Registry the
--                 building of a result from rows, State the state of FakeSnowflake and Server its
--                 handling of requests. RoundTrip reads with Types what Wire writes; the modules
--                 below Server let the client of Client and Transport run over the fake.
--   Retry         retry.py: the delays; Limits states what bounds them.
--   Auth          auth.py: the account names and the token cache.
--   AsyncClient   aclient.py: _poll and _cancel_after_task_cancel, with what asyncio does as a
--                 parameter; Queries is the query surface, Handles AsyncQueryHandle.
--   Exports       exports.py, and export_csv and export_jsonl of client.py.
--   Common        shared helpers.
--
-- A method returns the state that it leaves. An exception is an err; what the HTTP client, the
-- authenticator, the sleeping, the clock and the hook do is the environment, a record of functions
-- on a world of any type. The source of rows is the list of what its iterator gives, an exception
-- included. Times are whole microseconds or nanoseconds instead of floats.
--
-- Fuel. The loop of next_batch runs max_rows rounds, which is its own bound. The retry loop runs
-- max_attempts rounds. The polling gives none when its fuel is used up; the wait in clock ticks, and
-- one more, is enough if each pause takes a tick. The insert loop needs a round for each row of the
-- source and one more. Draining the generator of a result needs a step for each row and one more.
-- The slices of _split take at most a step for each row.
--
-- Not modelled: the insert loop, the streaming and the exports of the asynchronous client; the
-- overflow of a float power; json, float and Decimal, which are parameters; the client factories
-- and fixtures of testing.py; the command line and the scripts, which are input and output; a sink
-- of an export that raises. Exceptions that are no Exception subclass, such as KeyboardInterrupt,
-- pass through the code and are left out, but for a task cancellation in AsyncClient, which the
-- transport's GET and cancel pass on as it is; the model of a submission sets its attributes on
-- one, too, where the code sets none. The authenticator raises no TransportError of the HTTP
-- client, which the code would retry. A cell is a text or null. Column names are texts, and texts
-- are ASCII where int() or strip() reads them.
pub mod Common
pub mod Errors
pub mod Escaping
pub mod Bindings
pub mod Batches
pub mod Transport
pub mod Client
pub mod Auth
pub mod Pagination
pub mod Retry
pub mod Types
pub mod Testing
pub mod AsyncClient
pub mod Exports
