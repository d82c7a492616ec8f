-- ===== src/Worker/Tests.antt =====
-- Runs of the worker on a small server, and the theorems applied to them.
use opc_cli.Prelude.{
  ℕ, suc, ◌≡◌, ◌≢◌, refl, ap, true, false, none, some, List, [], ◌∷◌, ◌++◌, Text, codes, drop,
  is_empty, text_eq, arith, if◌then◌else◌,
}
use opc_cli.Errors.{ok, err, internal}
use opc_cli.Provider.{OpcValue}
use opc_cli.Act.{Act, done, failed, exhausted, return, get, try, update, invoke, ◌>>=◌}
use opc_cli.Act.Triple.{EndsWith, Triple}
use opc_cli.Browse.State.{lookup}
use opc_cli.Browse.Tokens.{Injective}
use opc_cli.Browse.Limits.{IsWithinLimits}
use opc_cli.Browse.Serve.{no_sessions}
use opc_cli.Browse.PageReturns.{HasFiniteNames}
use opc_cli.Browse.Sessions.{open_session, cleanup_expired}
use opc_cli.Worker.Groups.{GroupServer, HoldsGroups, item_defs, is_success}
use opc_cli.Worker.Read.{semantic, handle_read, finish_read, accepted}
use opc_cli.Worker.Write.{handle_write}
use opc_cli.Worker.Cleanup.{Holds, KeptByRead, KeptOrLeft, read_removes_group, write_removes_group}
use opc_cli.Worker.LeftGroup.{
  FailsToRead, no_items, no_read, failed_read_leaves_group, failed_write_leaves_group,
}
use opc_cli.Worker.Values.{merged, handle_read-merged, handle_read_short}
use opc_cli.Worker.Connection.{Connector, Pool, find, dispatch_with_retry, is_connection_error}
use opc_cli.Worker.Retry.{stale_connection_replaced, other_connections_kept}
use opc_cli.Worker.Browse.{TagSink, handle_browse}
use opc_cli.Worker.Sink.{Shown, ShownSome, handle_browse-Shown}
use opc_cli.Worker.Restored.{IsBack, handle_browse-IsBack}
use opc_cli.Worker.Again.{retried_browse_shows_both}
use opc_cli.Worker.Ends.{handle_browse-Returns}
use opc_cli.Worker.Requests.{list_servers, open_browse_session, Serving, ComWorker, serve, work}
use opc_cli.Worker.Undelivered.{undelivered_session_closes}
use opc_cli.Worker.Limits.{work-IsWithinLimits}
use opc_cli.Worker.Depot.{
  refused, lost, depot, seven, stock, stock-HoldsGroups, depot-GoesUp, formats, debug, empty_depot,
  broken_depot, no_tags, two_tags, nine, with_group, Depot,
}

handle_read-merged_example :
    handle_read formats (stock 2) two_tags semantic empty_depot
    ≡ finish_read formats
        (stock 2)
        9
        (merged formats semantic two_tags (0 ∷ 0 ∷ []) (seven ∷ seven ∷ []) (0 ∷ 0 ∷ []))
        with_group
unfolding accepted is_empty item_defs is_success
handle_read-merged_example =
    handle_read-merged formats semantic (stock 2) two_tags nine (5 ∷ 5 ∷ []) (0 ∷ 0 ∷ [])
      (seven ∷ seven ∷ []) (0 ∷ 0 ∷ []) empty_depot with_group with_group with_group refl refl refl
      refl refl refl

handle_read_short_example :
    handle_read formats (stock 1) two_tags semantic empty_depot ≡ (done none, with_group)
unfolding accepted is_empty item_defs is_success
handle_read_short_example =
    handle_read_short formats semantic (stock 1) two_tags nine (5 ∷ 5 ∷ []) (0 ∷ 0 ∷ [])
      (seven ∷ []) (0 ∷ []) empty_depot with_group with_group with_group refl refl refl refl refl
      refl (omega arith)

read_removes_group_example :
    Triple
      (Holds (λ w. w.groups) [])
      (KeptByRead (λ w. w.groups) [])
      (KeptOrLeft (λ w. w.groups) [])
      (handle_read formats (stock 2) two_tags semantic)
read_removes_group_example =
    read_removes_group (stock 2) (λ w. w.groups) (stock-HoldsGroups 2) [] formats two_tags semantic

write_removes_group_example :
    Triple
      (Holds (λ w. w.groups) [])
      (λ _. Holds (λ w. w.groups) [])
      (KeptOrLeft (λ w. w.groups) [])
      (handle_write (stock 2) (codes "a") (OpcValue.bool true))
write_removes_group_example =
    write_removes_group (stock 2) (λ w. w.groups) (stock-HoldsGroups 2) [] (codes "a")
      (OpcValue.bool true)

-- No item is added to the group.
abbrev no_stock : GroupServer Depot
no_stock = record (stock 2) { add_items = λ group items w. (err refused, w) }

no_stock-HoldsGroups : HoldsGroups no_stock (λ w. w.groups)
no_stock-HoldsGroups = record {
  added = λ name a w w' e. ground arith;
  not_added = λ name e w w' h. cc;
  items_kept = λ group items w. refl;
  read_kept = λ group handles w. refl;
  write_kept = λ group handles values w. refl;
  removed = λ handle others w e. ap (drop 1) e;
}

-- The items are added, and the read of them fails.
abbrev no_read_stock : GroupServer Depot
no_read_stock = record (stock 2) { read = λ group source handles w. (err refused, w) }

no_read_stock-HoldsGroups : HoldsGroups no_read_stock (λ w. w.groups)
no_read_stock-HoldsGroups = record {
  added = λ name a w w' e. ground arith;
  not_added = λ name e w w' h. cc;
  items_kept = λ group items w. refl;
  read_kept = λ group handles w. refl;
  write_kept = λ group handles values w. refl;
  removed = λ handle others w e. ap (drop 1) e;
}

-- Nothing is said of a write.
abbrev mute_stock : GroupServer Depot
mute_stock = record (stock 2) { write = λ group handles values w. (ok [], w) }

mute_stock-HoldsGroups : HoldsGroups mute_stock (λ w. w.groups)
mute_stock-HoldsGroups = record {
  added = λ name a w w' e. ground arith;
  not_added = λ name e w w' h. cc;
  items_kept = λ group items w. refl;
  read_kept = λ group handles w. refl;
  write_kept = λ group handles values w. refl;
  removed = λ handle others w e. ap (drop 1) e;
}

items_refused : FailsToRead no_stock two_tags nine refused with_group with_group
items_refused = no_items refl

read_refused : FailsToRead no_read_stock two_tags nine refused with_group with_group
unfolding accepted is_empty item_defs is_success
read_refused = no_read (5 ∷ 5 ∷ []) (0 ∷ 0 ∷ []) with_group refl refl refl refl refl

failed_read_leaves_group_example :
    (handle_read formats no_read_stock two_tags semantic empty_depot ≡ (failed refused, with_group))
    × (with_group.groups ≡ 9 ∷ [])
failed_read_leaves_group_example =
    failed_read_leaves_group no_read_stock (λ w. w.groups) no_read_stock-HoldsGroups [] formats
      two_tags semantic nine refused empty_depot with_group with_group refl refl read_refused

refused_items_leave_group :
    (handle_read formats no_stock two_tags semantic empty_depot ≡ (failed refused, with_group))
    × (with_group.groups ≡ 9 ∷ [])
refused_items_leave_group =
    failed_read_leaves_group no_stock (λ w. w.groups) no_stock-HoldsGroups [] formats two_tags
      semantic nine refused empty_depot with_group with_group refl refl items_refused

-- The item is added, and the answer to the write is empty.
write_unanswered :
    handle_write mute_stock (codes "a") (OpcValue.bool true) empty_depot
    ≡ (failed (internal (codes "Server returned empty write errors")), with_group)
unfolding handle_write ◌>>=◌ invoke try return item_defs is_success
write_unanswered = refl

failed_write_leaves_group_example : with_group.groups ≡ 9 ∷ []
failed_write_leaves_group_example =
    failed_write_leaves_group mute_stock (λ w. w.groups) mute_stock-HoldsGroups [] (codes "a")
      (OpcValue.bool true) nine (internal (codes "Server returned empty write errors")) empty_depot
      with_group with_group refl refl write_unanswered

handle_browse-Shown_example :
    EndsWith
      (Shown 1 no_tags)
      (λ e. ShownSome 1 no_tags)
      (handle_browse depot debug 1 5 (empty_depot, no_tags))
handle_browse-Shown_example = handle_browse-Shown depot debug 1 5 empty_depot no_tags (omega arith)

handle_browse-IsBack_example :
    EndsWith
      (λ tags. IsBack depot debug 9 (λ w. w.path) depot-GoesUp empty_depot)
      (λ e. IsBack depot debug 9 (λ w. w.path) depot-GoesUp empty_depot)
      (handle_browse depot debug 9 5 (empty_depot, no_tags))
handle_browse-IsBack_example =
    handle_browse-IsBack depot debug 9 (λ w. w.path) depot-GoesUp 5 empty_depot no_tags

depot-HasFiniteNames : HasFiniteNames 2 depot
depot-HasFiniteNames kind filter data_type rights w k le = ground arith

handle_browse-Returns_example : (handle_browse depot debug 9 5 (empty_depot, no_tags)).0 ≢ exhausted
handle_browse-Returns_example =
    handle_browse-Returns depot debug 9 2 depot-HasFiniteNames 5 empty_depot no_tags (omega arith)

-- A connection is made anew each time, and it works.
abbrev connector : Connector ℕ Depot
connector = record {
  enumerate_servers = λ k. (ok [], k);
  connect = λ name k. (ok empty_depot, suc k);
}

abbrev name : Text
name = codes "plant"

abbrev stale_pool : Pool ℕ Depot TagSink
stale_pool = record { cache = (name, broken_depot) ∷ []; world = 0; shared = no_tags }

abbrev one_found : TagSink
one_found = record { progress = 1; tags = codes "north" ∷ [] }

abbrev three_found : TagSink
three_found = record { progress = 3; tags = codes "north" ∷ codes "north" ∷ codes "south" ∷ [] }

abbrev uuid : ℕ → ℕ
uuid k = k

breaking_listing :
    handle_browse depot debug 9 5 (broken_depot, no_tags) ≡ (failed lost, (broken_depot, one_found))
unfolding handle_browse ◌>>=◌ invoke return get try update
breaking_listing = refl

listing_again :
    handle_browse depot debug 9 5 (empty_depot, one_found)
    ≡ (done (codes "north" ∷ codes "south" ∷ []), (empty_depot, three_found))
unfolding handle_browse ◌>>=◌ invoke return get try update text_eq
listing_again = refl

session_opened :
    (open_session depot debug uuid 1 1 empty_depot (cleanup_expired 0 (no_sessions {W = Depot}))).0
    ≡ done 0
unfolding open_session ◌>>=◌ return update get try
session_opened = refl

retried_browse_shows_both_example :
    let (r, p) = dispatch_with_retry connector name (handle_browse depot debug 9 5) stale_pool in
    (r ≡ done (codes "north" ∷ codes "south" ∷ []))
    × ((old : List Text) × (one_found.tags ≡ [] ++ old)
        × (p.shared.tags ≡ ([] ++ old) ++ codes "north" ∷ codes "south" ∷ []))
unfolding find is_connection_error text_eq
retried_browse_shows_both_example =
    retried_browse_shows_both connector depot debug 9 5 name stale_pool broken_depot broken_depot
      empty_depot empty_depot one_found three_found lost 1 (codes "north" ∷ codes "south" ∷ [])
      (omega arith) refl breaking_listing refl refl listing_again

abbrev lost_read : Act (Depot × Unit {0}) ℕ
lost_read (w, x) = (if w.breaks then failed lost else done 3, (w, x))

abbrev quiet_pool : Pool ℕ Depot (Unit {0})
quiet_pool = record { cache = (name, broken_depot) ∷ []; world = 0; shared = tt }

stale_connection_replaced_example :
    let (r, p') = dispatch_with_retry connector name lost_read quiet_pool in
    let (r2, (fresh', x2)) = lost_read (empty_depot, tt) in
    (r ≡ r2) × (find name p'.cache ≡ some fresh') × (p'.shared ≡ x2) × (p'.world ≡ 1)
unfolding find is_connection_error text_eq
stale_connection_replaced_example =
    stale_connection_replaced connector name lost_read quiet_pool broken_depot broken_depot
      empty_depot tt lost 1 refl refl refl refl

other_connections_kept_example :
    find (codes "other") (dispatch_with_retry connector name lost_read quiet_pool).1.cache
    ≡ find (codes "other") quiet_pool.cache
unfolding text_eq
other_connections_kept_example =
    other_connections_kept connector name lost_read (codes "other") quiet_pool refl

uuid-Injective : Injective uuid
uuid-Injective a b h = h

abbrev worker : ComWorker ℕ Depot
worker = record {
  cache = (name, empty_depot) ∷ [];
  world = 0;
  sessions = no_sessions;
  running = true;
}

abbrev serving : Serving
serving = record {
  now = 0;
  cleaned = 1;
  used = 1;
  gave_up = 2;
  reply_closed = false;
  reply_taken = false;
  fuel = 5;
}

undelivered_session_closes_example :
    lookup 0
      (serve connector depot
        (stock 2)
        formats
        debug
        uuid
        serving
        (open_browse_session name)
        worker).1.sessions.sessions
    ≡ none
undelivered_session_closes_example =
    undelivered_session_closes connector depot (stock 2) formats debug uuid serving name worker
      empty_depot 1 0 refl refl refl session_opened

work-IsWithinLimits_example :
    IsWithinLimits uuid
      (work connector depot
        (stock 2)
        formats
        debug
        uuid
        ((serving, open_browse_session name) ∷ (serving, list_servers) ∷ [])
        worker).1.sessions
work-IsWithinLimits_example =
    work-IsWithinLimits connector depot (stock 2) formats debug uuid uuid-Injective
      ((serving, open_browse_session name) ∷ (serving, list_servers) ∷ []) worker
      (record { sessions_bounded = omega arith; sessions_drawn = tt; sessions_sound = tt })
