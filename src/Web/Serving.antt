-- ===== src/Web/Serving.antt =====
-- `ServerHandlers` and `webServer` of web.go, which register handlers by their paths and serve.
pub mod Paths
use dqlited.Base.{ℕ, Bool, List, [], ◌∷◌, ◌++◌, map, Bytes, codes}
use dqlited.Go.{Act, Outcome, ok, fail, panic, pure, continue, ◌>>=◌, ◌>>◌, Reply, from_reply}
use dqlited.Cluster.{remote}
use dqlited.Commands.{Ending, or_exit, ending}
use dqlited.Node.{Machine, my_ip}
use dqlited.Web.Status.{Page}

-- Code outside the repository: `Handle` of a mux for a path, which may panic, and `ListenAndServe`. The
-- functions of this file use the default mux of `net/http`, where `net/http/pprof` has registered paths of
-- its own; `StartServer` has a mux for itself, and its loop is `handle_all` at that mux.
pub record Mux (W E : Type 0) : Type 0 where
  pub handle : Bytes → W → Outcome (Unit {0}) E × W
  pub listen_and_serve : Bytes → W → Reply (Unit {0}) E × W

module _ {W E N A L : Type 0} (M : Machine W E N A L) (X : Mux W E) where
  open M use {print}
  open X use {handle, listen_and_serve}

  -- The loop over the handlers.
  unfoldable pub handle_all : List (Bytes × Page) → Act W E (Unit {0})
  handle_all [] = pure tt
  handle_all ((path, page) ∷ handlers) = handle path >>= λ _. handle_all handlers

  abbrev serve : ℕ → Act W E (Unit {0})
  serve port = my_ip M >>= λ _. remote (listen_and_serve (codes ":" ++ print port))

  -- What stands behind the loop in `ServerHandlers`.
  abbrev pub after_handlers : ℕ → Outcome (Unit {0}) E → W → Ending E × W
  after_handlers port o =
      ending or_exit (continue o λ _. handle (codes "/favicon.ico") >>= λ _. serve port)

  -- `ServerHandlers`
  unfoldable pub server_handlers : ℕ → List (Bytes × Page) → W → Ending E × W
  server_handlers port handlers =
      ending or_exit
        (handle_all handlers >>= λ _. handle (codes "/favicon.ico") >>= λ _. serve port)

  -- `webServer`
  unfoldable pub web_server : ℕ → List (Bytes × Page) → W → Ending E × W
  web_server port handlers = ending or_exit (handle_all handlers >>= λ _. serve port)
