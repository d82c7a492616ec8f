-- ===== src/Lib.antt =====
-- opc-cli is a terminal interface to OPC DA servers (opc-cli/) on a client library
-- (opc-da-client/). The interface keeps one state, `App`, and a loop, `run_app`, which draws it,
-- polls the four background tasks (server listing, browse, read, write), starts an automatic
-- refresh and handles at most one key event a round. The tasks call the library's provider, whose
-- COM side enumerates names by `StringIterator`; errors carry HRESULTs that are explained and
-- classified by errors.rs. A worker keeps browse sessions, each with a server that it browses page
-- by page: in OPC DA 3.0 by the server's own pages, in OPC DA 2.x by moving the server's browse
-- position and reading its iterators of names. An inventory traverses a server on its own
-- connection and sends each item over a channel; it is steered by `InventoryControl`, and its
-- native operations are timed by the telemetry collector.
--
-- The parts and their files:
-- - App.antt and App/: opc-cli/src/app.rs and the loop of opc-cli/src/main.rs. State is `App` with
--   `new` and the message log; Select the cursor, the toggle and `go_back`; Search the search
--   mode; Parse `parse_opc_value`; Tasks what starts the tasks and what each answers; Poll the
--   polls of their receivers; Keys `handle_key_event` with one function per screen; Run a round of
--   `run_app` and the loop. Invariant and its children hold the invariant of the state and its
--   preservation by each operation; Messages, Selection, SearchLaws, SearchCycle, ParseLaws, Flow,
--   Outcome, Reads and Exit hold the theorems about those parts; Fixtures, Tests and TaskTests
--   runs at concrete inputs.
-- - Provider.antt: the values of opc-da-client/src/provider.rs that the interface and the browse
--   sessions exchange.
-- - Act.antt: methods on `&mut self` that return an `OpcResult`, with Act/Rules and Act/Returns on
--   what they keep and that they return, Act/Total on those without a loop, and Act/Triple on what
--   holds before and after.
-- - Server.antt and Server/Guard: the trait `ConnectedServer` of
--   opc-da-client/src/backend/connector.rs as far as it browses, `classify_da2_branch`, and
--   `GuardedBrowseIterator`.
-- - Browse.antt and Browse/: opc-da-client/src/native_browse.rs and native_browse/. Buffer is the
--   names of a branch with one looked ahead; State a session and its tokens; Path
--   `move_to_da2_path`; Da3 and Da2 a page of each kind of server; Capabilities what a server can
--   browse; Sessions `BrowseSessions` with open, page and close. Tokens, Sound, SoundPages,
--   SoundSessions, Limits and Serve lead to the limits of the sessions after any requests;
--   Consumed, Closed, PageSize, Levels and Cursor hold the theorems on continuations, closing, the
--   page size and the browse position; Finite, Termination and PageReturns that pages end; Tests
--   runs on a small server.
-- - Values.antt and Values/: opc-da-client/src/helpers.rs: the texts of VARIANTs, arrays,
--   qualities and times, and the VARIANT of a value to write. Numbers is signed machine integers
--   and the texts of numbers.
-- - Worker.antt and Worker/: opc-da-client/src/com_worker.rs and com_worker/. Groups is what the
--   worker uses of a server's groups; Read, Write and Browse are `handle_read`, `handle_write` and
--   `handle_browse`; Connection is `dispatch_with_retry` on the pool of connections; Requests is
--   `ComRequest` and the loop over the requests, which also serves the browse sessions. Values,
--   Cleanup, LeftGroup, Names, Sink, Position, Restored, Asked, Ends, Again and Retry hold the
--   theorems on those operations, Undelivered and Limits those on the loop; Tests runs on the
--   server of Depot.
-- - Errors.antt: opc-da-client/src/errors.rs, with Errors/Classify on its error classes.
-- - Iterator.antt and Iterator/: `StringIterator` of opc-da-client/src/opc_da/client/iterator.rs.
--   Strings is the iterator, one function per phase of a call; Progress its termination; Repeats
--   the limit on repeated values; Ownership which strings are still to be freed.
-- - Telemetry.antt and Telemetry/: the latency histogram of opc-da-client/src/provider.rs
--   (Histogram) and the collector of opc-da-client/src/inventory/telemetry.rs (Collector), with
--   Buckets, Ranks and Accounting on what they hold.
-- - Control.antt: `InventoryControl` of opc-da-client/src/provider.rs, Control/Steps what holds
--   after any sequence of its operations.
-- - Inventory.antt and Inventory/: the traversal of opc-da-client/src/inventory.rs. State is the
--   branches to visit, the pages and the errors; Progress the events; Da3 a page of an OPC DA 3.0
--   branch; Nodes what is done with the nodes of a page; Walk a turn of the loop and the loop; Run
--   `run_inventory_at_root` around it. Entries, Once and Items show what is sent, Complete, Turned
--   and Reported what the last event says; Taken and Continuations are on the continuation tokens
--   of a branch. Boundary is the gate before each native operation, with Pacing on what it lets
--   start. Capabilities, Context, Navigation, Da2 and Da2/Names are the detection of capabilities
--   and a page of an OPC DA 2.x branch, through the gate; Moved, MovedTo, Synced and SyncedPages
--   follow the browse position during such a page, PageTotal, PageNames and PageReturns its end.
--   Tests and PageTests hold runs.
-- - Platform.antt: what is used of the standard library and cannot be computed here: the lower
--   case of a text, its `{:?}` form and the parse of an f64, the fields of a parameter.
-- - Prelude.antt and Prelude/: shared names, lists and texts.
--
-- How the code is read: a `String` is the list of its code points; an f64 is its bits; a duration
-- or a time is a number of nanoseconds; saturating and checked operations are written out. A
-- oneshot receiver is the task that answers it and what `try_recv` finds is an input, so a theorem
-- about a poll holds for every answer and every order of answers. A COM enumerator is a function
-- from the number of the call to its reply, and so are the closures for cancellation and for the
-- refill gate. The loop of the iterator runs on fuel, 16,705 for one call: the 256 slots that the
-- cache may hold, and 64 refills of 256 slots each, since the 64th empty batch ends the call. A
-- round of `run_app` is a structural recursion on the list of the rounds' inputs. An `Arc` of
-- atomics is a record, and an operation on it one step. A server is a state with the methods of
-- the trait as functions to a result and the next state, so that a theorem holds for every server;
-- a theorem that needs more of it says so (that a failed call does not move the browse position,
-- or that iterators end). A UUID is the value of a function at the number of its draw; where
-- tokens must differ the function is injective. A hash map is an association list. The loop that
-- fills a DA 2.x page runs on fuel, since a server may repeat merged names without end; one turn
-- for each name that is left and one more are enough. A VARIANT is its type word with the bits of
-- its union and what it points at; a result of `none` is a panic. Operations of the worker act on
-- the server and on what they share with their caller. The loops of `handle_browse` over names run
-- on fuel, more than an iterator has names, and its recursion on the 51 levels that the source
-- allows. The loop of a traversal takes a list of inputs, one for each turn: what the server
-- answers to a request, the batch size, the clock and the counters, and the result of a DA 2.x
-- page, so that its theorems hold for every such page; the readings of the control and the answers
-- of the channel are functions of their number.
--
-- What drawing makes of the selections of the two widgets is an input of a round. A lock is not
-- poisoned.
--
-- Not modelled: what is drawn, the terminal and the log (output only); COM calls and unsafe
-- wrappers of them (opc-da-client/src/opc_da/, bindings/); the backend provider and the receiving
-- end of an inventory; the start of the worker's thread and the caller's end of its channels;
-- cancellation and pacing inside the guard of name iterators; the iterators of GUIDs, groups and
-- item attributes, which have the shape of the string iterator without its checks.
pub mod Prelude
pub mod Provider
pub mod Act
pub mod Server
pub mod Browse
pub mod Errors
pub mod Platform
pub mod App
pub mod Iterator
pub mod Telemetry
pub mod Control
pub mod Inventory
pub mod Values
pub mod Worker
