-- ===== src/Web/Queries.antt =====
-- `requestQueries` of web.go, and the name of the database in a path.
pub mod Laws
use dqlited.Base.{
  ℕ, zero, suc, Bool, List, [], ◌∷◌, ◌++◌, Bytes, codes, Option, none, some, if◌then◌else◌,
}
use dqlited.Text.{equal, last_index, drop}
use dqlited.Go.{Outcome, ok, fail, panic, Reply, value, error, Host, msg}
use dqlited.Web.{Request, Server}
use dqlited.Web.Params.{stmt_param}

abbrev pub after_index : Bytes → Option ℕ → Bytes
after_index path none = path
after_index path (some zero) = path
after_index path (some (suc i)) = drop (suc (suc i)) path

-- `if i := strings.LastIndex(dbname, "/"); i > 0 { dbname = dbname[i+1:] }`
unfoldable pub db_name : Bytes → Bytes
db_name path = after_index path (last_index path b'/')

module _ {W E : Type 0} (H : Host W E) (S : Server W E) where
  open H use {errorf, wrap}
  open S use {decode}

  abbrev one_query : Bytes → Outcome (List Bytes) E
  one_query [] = fail (errorf (msg "no query given" []))
  one_query (c ∷ query) = ok ((c ∷ query) ∷ [])

  abbrev some_queries : Reply (List Bytes) E → Outcome (List Bytes) E
  some_queries (error e) = fail (wrap (msg "failed unmarshalling request" []) e)
  some_queries (value []) = fail (errorf (msg "empty request" []))
  some_queries (value (q ∷ qs)) = ok (q ∷ qs)

  abbrev body_queries : Reply Bytes E → Outcome (List Bytes) E
  body_queries (error e) = fail (wrap (msg "failed reading request body" []) e)
  body_queries (value b) = some_queries (decode b)

  -- `requestQueries`
  unfoldable pub request_queries : Request E → Outcome (List Bytes) E
  request_queries r =
      if equal r.method (codes "GET") then one_query (stmt_param r) else body_queries r.body
