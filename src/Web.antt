-- ===== src/Web.antt =====
-- web.go: requests, their parameters, and the handlers of `/db/execute/` and `/db/query/`.
pub mod Params
pub mod Queries
pub mod Handlers
pub mod Output
pub mod Pages
pub mod Status
pub mod Serving
pub mod Shared
use dqlited.Base.{ℕ, List, Bytes, String}
use dqlited.Base.Int.{ℤ}
use dqlited.Go.{Reply, Context}
use dqlited.Db.Execute.{ExecuteResponse}
use dqlited.Db.QueryRows.{Reading}

-- What the program reads of an `http.Request`. `query` is `URL.Query()` and `form` what `ParseForm`
-- leaves in `Form`, each a list of the keys with their values; `body` is what reading `Body` gives.
pub record Request (E : Type 0) : Type 0 where
  pub method : Bytes
  pub path : Bytes
  pub query : List (Bytes × List Bytes)
  pub form : Reply (List (Bytes × List Bytes)) E
  pub body : Reply Bytes E
  pub deadline : Context

-- What a handler does to its `http.ResponseWriter`, in order.
pub data Write (E : Type 0) : Type 0 where
  -- `w.WriteHeader(code)`
  status : ℕ → Write E
  -- `http.Error(w, err.Error(), code)`
  http_error : ℕ → E → Write E
  -- one JSON value
  executed : ExecuteResponse → Write E
  rows : List Reading → Write E
  -- the handler panics, and the server ends the connection
  crashed : Write E

-- Code outside the repository: `dq.Open` and `db.Close`, `json.Unmarshal` of a list of texts, the first
-- `Decode` of a `json.Decoder`, which leaves alone what follows the list, and `time.ParseDuration`. Nothing is assumed of it here.
pub record Server (W E : Type 0) : Type 0 where
  pub open_db : Bytes → W → Reply (Unit {0}) E × W
  pub close_db : W → W
  pub decode : Bytes → Reply (List Bytes) E
  pub decode_first : Bytes → Reply (List Bytes) E
  pub parse_duration : Bytes → Reply ℤ E
