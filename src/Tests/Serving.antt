-- ===== src/Tests/Serving.antt =====
-- The theorems on the paths of web.go, at small inputs.
use dqlited.Base.{
  ◌≢◌, ℕ, ◌≡◌, refl, Bool, true, false, ◌||◌, List, [], ◌∷◌, Bytes, codes, if◌then◌else◌, arith,
}
use dqlited.Text.{equal}
use dqlited.Go.{Message, ok, panic, value, error}
use dqlited.Commands.{crashed}
use dqlited.Node.{Machine}
use dqlited.Web.Status.{home, routes, execute_page, query_page}
use dqlited.Web.Serving.{Mux, handle_all, server_handlers}
use dqlited.Web.Serving.Paths.{IsMux, has_path, server_handlers_crashes}
use dqlited.Web.Queries.{db_name}
use dqlited.Web.Pages.{to_page, missing, dispatch}
use dqlited.Web.Pages.Paths.{routes-name}
use dqlited.Tests.World.{busy}

-- The paths that are registered.
abbrev holds : Bytes → List Bytes → Bool
holds path [] = false
holds path (p ∷ paths) = equal p path || holds path paths

abbrev mux : Mux (List Bytes) Message
mux = record {
  handle = λ path w. if holds path w then (panic, w) else (ok tt, path ∷ w);
  listen_and_serve = λ address w. (error busy, w);
}

abbrev machine : Machine (List Bytes) Message ℕ ℕ ℕ
machine = record {
  interfaces = λ w. (error busy, w);
  make_dirs = λ dir w. (value tt, w);
  join_path = λ a b. a;
  print = λ n. codes "1";
  split_host_port = λ a. value (a, a);
  join_host_port = λ a b. a;
  resolve = λ a w. (value a, w);
  new_node = λ id a dir b w. (value 0, w);
  start_node = λ n w. (value tt, w);
  new_app = λ dir a cluster tls w. (value 3, w);
  listen = λ a w. (error busy, w);
  serve_until_signal = λ app l w. w;
  close_listener = λ l w. w;
  shut_down = λ w. w;
  close_app = λ app w. w;
}

mux-IsMux : IsMux machine mux holds
mux-IsMux = record {
  twice = λ path w h. ground arith;
  once = λ path w h. ground arith;
  registers = λ path key w h. ground arith;
}

-- The default mux holds paths of `net/http/pprof` already.
abbrev profiled : List Bytes
profiled = codes "/debug/pprof/" ∷ []

server_handlers_crashes_example :
    ((handle_all machine mux routes []).0 ≡ ok tt)
    × ((server_handlers machine mux 80 ((codes "/", home) ∷ routes) profiled).0 ≡ crashed)
    × (has_path machine mux holds (codes "/favicon.ico") routes ≡ true)
unfolding routes equal
server_handlers_crashes_example =
    server_handlers_crashes machine mux mux holds holds mux-IsMux mux-IsMux 80
      ((codes "/", home) ∷ routes) [] profiled
      (refl, (refl, (refl, (refl, (refl, (refl, (refl, (refl, (refl, (refl, (refl, tt)))))))))))
      refl

routes-name_example :
    (dispatch routes (codes "/db/execute/demo") ≡ to_page execute_page)
    × (db_name (codes "/db/execute/demo") ≡ codes "demo")
    × (dispatch routes (codes "/db/query/demo") ≡ to_page query_page)
    × (db_name (codes "/db/query/demo") ≡ codes "demo")
    × (dispatch routes (codes "/no/such/page") ≢ missing)
routes-name_example =
    routes-name (codes "demo") (codes "no/such/page")
      ((λ e. omega arith), ((λ e. omega arith), ((λ e. omega arith), ((λ e. omega arith), tt))))
      (λ e. cc) (λ e. cc)
