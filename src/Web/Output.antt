-- ===== src/Web/Output.antt =====
-- The response that the handlers of web.go leave a client with: `writeResponse`, the replies of
-- `makeHandleQuery`, and what `net/http` makes of the calls on an `http.ResponseWriter`.
pub mod Status
pub mod Growth
use dqlited.Base.{
  ℕ, Bool, true, false, List, [], ◌∷◌, ◌++◌, Bytes, codes, Option, none, some, if◌then◌else◌,
}
use dqlited.Go.{Outcome, ok, fail, panic, Reply, value, error, Host}
use dqlited.Db.{State}
use dqlited.Db.Execute.{ExecuteResponse}
use dqlited.Db.QueryRows.{Reading}
use dqlited.Web.{Request, Server, Write, status, http_error, executed, rows, crashed}
use dqlited.Web.Params.{is_pretty}
use dqlited.Web.Handlers.{handle_exec, handle_query}

-- What a handler has done to its `http.ResponseWriter`: the content type that is set, the status with the
-- content type of its time, the bytes that were written, and whether the handler has panicked.
pub record Response : Type 0 where
  pub content_type : Option Bytes
  pub sent : Option (ℕ × Option Bytes)
  pub body : Bytes
  pub aborted : Bool

abbrev pub fresh : Response
fresh = record { content_type = none; sent = none; body = []; aborted = false }

abbrev sent_or : Option (ℕ × Option Bytes) → ℕ × Option Bytes → ℕ × Option Bytes
sent_or (some first) second = first
sent_or none second = second

-- `w.WriteHeader(code)`: behind the first call it has no effect.
abbrev pub write_header : ℕ → Response → Response
write_header code r = record r { sent = some (sent_or r.sent (code, r.content_type)) }

-- `w.Write(bytes)`, which sends the status 200 before the first bytes.
abbrev pub write_bytes : Bytes → Response → Response
write_bytes bytes r = record r {
  sent = some (sent_or r.sent (200, r.content_type));
  body = r.body ++ bytes;
}

-- `http.Error(w, text, code)`
unfoldable pub write_error : Bytes → ℕ → Response → Response
write_error text code r =
    write_bytes (text ++ codes "\n")
      (write_header code (record r { content_type = some (codes "text/plain; charset=utf-8") }))

-- What a client receives: the status with the content type, and the body; or no more than a part of what
-- the handler wrote, and perhaps nothing, where the server closes the connection behind a panic.
pub data Answer : Type 0 where
  sent_back : ℕ × Option Bytes → Bytes → Answer
  cut_off : Answer

-- What the server makes of the response behind the handler: it sends the status 200, where the handler
-- has set none.
abbrev pub finished : Response → Answer
finished w = if w.aborted then cut_off else sent_back (sent_or w.sent (200, w.content_type)) w.body

-- `encoding/json` with the line that it ends a value with: a value is indented or not, and is written
-- whole or not at all; and the text of an error. Nothing is assumed of it here.
pub record Encoder (E : Type 0) : Type 0 where
  pub encode_executed : Bool → ExecuteResponse → Reply Bytes E
  pub encode_rows : List Reading → Reply Bytes E
  pub message : E → Bytes

module _ {E : Type 0} (J : Encoder E) where
  open J use {encode_executed, encode_rows, message}

  abbrev write_encoded : Reply Bytes E → Response → Response
  write_encoded (value bytes) w = write_bytes bytes w
  write_encoded (error e) w = write_error (message e) 500 w

  abbrev indented : Outcome Bool E → Bool
  indented (ok pretty) = pretty
  indented (fail e) = false
  indented panic = false

  -- `writeResponse`
  unfoldable pub write_response : Request E → ExecuteResponse → Response → Response
  write_response r j w = write_encoded (encode_executed (indented (is_pretty r)) j) w

  abbrev write_value : Reply Bytes E → Response → Response
  write_value (value bytes) w = write_bytes bytes w
  write_value (error e) w = w

  -- The reply to a query, whose error of `Encode` is dropped.
  unfoldable pub write_reply : List Reading → Response → Response
  write_reply found w =
      write_value (encode_rows found)
        (record w { content_type = some (codes "application/json; charset=utf-8") })

  -- A call of a handler on its response.
  unfoldable pub perform : Request E → Write E → Response → Response
  unfolding write_error write_response write_reply
  perform r (status code) w = write_header code w
  perform r (http_error code e) w = write_error (message e) code w
  perform r (executed j) w = write_response r j w
  perform r (rows found) w = write_reply found w
  perform r crashed w = record w { aborted = true }

  unfoldable pub perform_all : Request E → List (Write E) → Response → Response
  perform_all r [] w = w
  perform_all r (x ∷ xs) w = perform_all r xs (perform r x w)

  module _ {W : Type 0} (H : Host W E) (S : Server W E) where
    -- The answers to a request to `/db/execute/` and to `/db/query/`.
    abbrev pub answer_exec : Request E → State W → Answer
    answer_exec r s = finished (perform_all r (handle_exec H S r s).0 fresh)

    abbrev pub answer_query : Request E → State W → Answer
    answer_query r s = finished (perform_all r (handle_query H S r s).0 fresh)
