-- ===== src/Tests/Web.antt =====
-- The theorems on web.go, at small inputs.
use dqlited.Base.{
  ◌⊎◌, ◌++◌, inl, List, if◌then◌else◌, none, inr, ◌≡◌, refl, arith, [], ◌∷◌, Bytes, codes, some,
}
use dqlited.Text.{equal}
use dqlited.Go.{Host, error, value, Message}
use dqlited.Db.Execute.{ExecuteResponse, to_result, execute_context, execute_context_loop}
use dqlited.Web.{Server, Request, executed}
use dqlited.Web.Handlers.{
  query_opened, query_loop, body_statements, exec_opened, handle_exec, handle_query,
}
use dqlited.Web.Handlers.Pool.{IsMeter, Balanced, handlers-Balanced}
use dqlited.Web.Output.{
  sent_back, write_reply, Encoder, perform, perform_all, write_response, answer_query,
}
use dqlited.Web.Output.Status.{Ran, answer_exec-Ran}
use dqlited.Web.Output.Growth.{answer_query-sent_back}
use dqlited.Web.Queries.{db_name, request_queries}
use dqlited.Db.{State}
use dqlited.Text.{fields, to_upper}
use dqlited.Db.QueryRows.{query_rows_context, action_of, is_reading, read_set}
use dqlited.Base.Int.{pos}
use dqlited.Web.Handlers.Effects.{IsServed, Effect, handle_exec-Effect}
use dqlited.Tests.Store.{Store, store_host, store}
use dqlited.Tests.World.{table, busy, World, host, server, state, world, result}

abbrev request : Bytes → Request Message
request method = record {
  method = method;
  path = codes "/db/query/demo";
  query = (codes "q", codes " SELECT 1 " ∷ []) ∷ [];
  form = value [];
  body = value (codes "[]");
  deadline = some 9;
}

abbrev response : ExecuteResponse
response = record { results = to_result host result ∷ [] }

handle_exec-post :
    (handle_exec host server
      (request (codes "POST"))
      (record state { world = record world { failing = 0 } })).0
    ≡ executed response ∷ []
unfolding handle_exec equal exec_opened execute_context execute_context_loop
handle_exec-post = refl

-- The counters of `world` follow the databases.
meter : IsMeter host server (λ w. w.opened) (λ w. w.closed)
meter = record {
  open_value = λ name w w' x. ground arith;
  open_error = λ name w w' e x. ground arith;
  close_opened = λ w. refl;
  close_closings = λ w. refl;
  exec-Same = λ ctx q w. (refl, refl);
  query-Same = λ q w. (refl, refl);
}

handlers-Balanced_example :
    Balanced host server
      (λ w. w.opened)
      (λ w. w.closed)
      world
      (handle_exec host server (request (codes "POST")) state).1.world
    × Balanced host server
        (λ w. w.opened)
        (λ w. w.closed)
        world
        (handle_query host server (request (codes "POST")) state).1.world
handlers-Balanced_example =
    handlers-Balanced host server (λ w. w.opened) (λ w. w.closed) meter (request (codes "POST"))
      state

-- Each value is one byte.
abbrev encoder : Encoder Message
encoder = record {
  encode_executed = λ pretty j. value (codes "x");
  encode_rows = λ found. value (codes "y");
  message = λ e. codes "error";
}

abbrev posted : State World
posted = record state { world = record world { failing = 0 } }

answer_exec-Ran_example :
    let r = request (codes "POST") in
    (r.method ≡ codes "POST")
    × (v : World) × (server.open_db (db_name r.path) posted.world ≡ (value tt, v))
    × Ran encoder host server r
        (body_statements host server r.body)
        (record posted { world = v })
        (codes "x")
unfolding handle_exec equal exec_opened execute_context execute_context_loop perform perform_all
    write_response
answer_exec-Ran_example =
    answer_exec-Ran encoder host server (request (codes "POST")) posted none (codes "x") refl

-- Two queries in the body, of which the second fails.
abbrev asked : Request Message
asked = record (request (codes "POST")) { query = [] }

abbrev first_only : Host World Message
first_only = record host {
  query = λ q w. (
    if equal q (codes "SELECT 1") then value (record { head = table; rest = [] }) else error busy,
    w,
  );
}

abbrev two_queries : Server World Message
two_queries = record server { decode = λ body. value (codes "SELECT 1" ∷ codes "SELECT 2" ∷ []) }

answer_query-sent_back_example :
    (rest : Bytes) × (answer_query encoder first_only two_queries asked state
      ≡ sent_back (200, some (codes "application/json; charset=utf-8")) (codes "y" ++ rest))
unfolding request_queries equal query_rows_context action_of fields is_reading to_upper read_set
    handle_query query_opened query_loop perform perform_all write_reply
answer_query-sent_back_example =
    answer_query-sent_back encoder first_only two_queries asked state (record world { opened = 1 })
      (codes "SELECT 1") (codes "SELECT 2" ∷ []) _ _ (codes "y") (inr refl) refl refl refl refl
      (λ e. cc)

-- The table behind a server that opens and closes it with no effect, and where every body is a list of
-- two statements.
abbrev store_server : Server Store Message
store_server = record {
  open_db = λ name w. (value tt, w);
  close_db = λ w. w;
  decode = λ body. value [];
  decode_first = λ body. value (codes "b;" ∷ codes "c;" ∷ []);
  parse_duration = λ t. value (pos 0);
}

-- A statement that fails leaves the table, or its reply was lost.
abbrev PartOf : Bytes → List Bytes → List Bytes → Type 0
PartOf q before after = (after ≡ before) ⊎ (after ≡ q ∷ before)

store_server-IsServed : IsServed store_host store_server (λ w. w.contents) (λ q c. q ∷ c) PartOf
store_server-IsServed = record {
  exec_value = λ ctx q w w' r x. ground arith;
  exec_error = λ ctx q w w' e x. inl (ground arith);
  opens = λ name w. refl;
  closes = λ w. refl;
}

handle_exec-Effect_example :
    let r = handle_exec store_host store_server (request (codes "POST")) store in
    Effect store_host store_server
      (λ w. w.contents)
      (λ q c. q ∷ c)
      PartOf
      (value (codes "[]"))
      r.0
      (codes "a" ∷ [])
      r.1.world.contents
handle_exec-Effect_example =
    handle_exec-Effect store_host store_server (λ w. w.contents) (λ q c. q ∷ c) PartOf
      store_server-IsServed (request (codes "POST")) store
