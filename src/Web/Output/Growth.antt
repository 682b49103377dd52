-- ===== src/Web/Output/Growth.antt =====
-- What an answer to `/db/query/` tells, of which the first query has rows.
use dqlited.Base.{
  ◌⊎◌, ℕ, ◌≡◌, ◌≢◌, refl, sym, ap, ◌∙◌, List, [], ◌∷◌, ◌++◌, append_assoc, append-nil, Bytes, codes,
  Option, some, inl, inr, Bool-cases,
}
use dqlited.Text.{equal}
use dqlited.Text.Prefix.{equal_iff}
use dqlited.Go.{ok, Reply, value, error, Host}
use dqlited.Db.{State}
use dqlited.Db.QueryRows.{Reading, query_rows_context}
use dqlited.Web.{Request, Server, Write, status, http_error, executed, rows, crashed}
use dqlited.Web.Params.{is_pretty}
use dqlited.Web.Queries.{db_name, request_queries}
use dqlited.Web.Handlers.{extended, query_loop, query_opened, handle_query}
use dqlited.Web.Output.{
  Response, sent_back, cut_off, fresh, write_header, write_bytes, write_error, Encoder, indented,
  write_encoded, write_response, write_value, write_reply, perform, perform_all, finished,
  answer_query,
}

-- A response that has grown: what has been sent is the same, and bytes may follow the ones before.
abbrev pub Extends : ℕ × Option Bytes → Bytes → Response → Type 0
Extends first bytes w = (w.sent ≡ some first) × (rest : Bytes) × (w.body ≡ bytes ++ rest)

write_bytes-Extends :
    (first : ℕ × Option Bytes) (bytes more : Bytes) (w : Response)
    → Extends first bytes w
    → Extends first bytes (write_bytes more w)
write_bytes-Extends first bytes more w (e, rest, b) =
    (rw e refl, rest ++ more, ap (λ z. z ++ more) b ∙ append_assoc bytes rest more)

write_header-Extends :
    (first : ℕ × Option Bytes) (bytes : Bytes) (code : ℕ) (w : Response)
    → Extends first bytes w
    → Extends first bytes (write_header code w)
write_header-Extends first bytes code w (e, rest, b) = (rw e refl, rest, b)

write_error-Extends :
    (first : ℕ × Option Bytes) (bytes text : Bytes) (code : ℕ) (w : Response)
    → Extends first bytes w
    → Extends first bytes (write_error text code w)
unfolding write_error
write_error-Extends first bytes text code w h =
    let typed = record w { content_type = some (codes "text/plain; charset=utf-8") } in
    write_bytes-Extends first bytes (text ++ codes "\n") (write_header code typed)
      (write_header-Extends first bytes code typed h)

module _ {E : Type 0} (J : Encoder E) where
  perform-Extends :
      (r : Request E) (x : Write E) (first : ℕ × Option Bytes) (bytes : Bytes) (w : Response)
      → Extends first bytes w
      → Extends first bytes (perform J r x w)
  unfolding perform write_response write_reply
  perform-Extends r (status code) first bytes w h = write_header-Extends first bytes code w h
  perform-Extends r (http_error code e) first bytes w h = write_error-Extends first bytes _ code w h
  perform-Extends r (executed j) first bytes w h =
      encoded (J.encode_executed (indented J (is_pretty r)) j)
    where
      encoded : (p : Reply Bytes E) → Extends first bytes (write_encoded J p w)
      encoded (value more) = write_bytes-Extends first bytes more w h
      encoded (error e) = write_error-Extends first bytes _ 500 w h
  perform-Extends r (rows found) first bytes w h = encoded (J.encode_rows found)
    where
      encoded :
          (p : Reply Bytes E)
          → Extends first bytes (
              write_value J p
                (record w { content_type = some (codes "application/json; charset=utf-8") }))
      encoded (value more) =
          write_bytes-Extends first bytes more
            (record w { content_type = some (codes "application/json; charset=utf-8") }) h
      encoded (error e) = h
  perform-Extends r crashed first bytes w h = h

  perform_all-Extends :
      (r : Request E) (xs : List (Write E)) (first : ℕ × Option Bytes) (bytes : Bytes)
      (w : Response)
      → Extends first bytes w
      → Extends first bytes (perform_all J r xs w)
  unfolding perform_all
  perform_all-Extends r [] first bytes w h = h
  perform_all-Extends r (x ∷ xs) first bytes w h =
      perform_all-Extends r xs first bytes (perform J r x w) (perform-Extends r x first bytes w h)

  -- An answer that is not cut off starts with what has been sent.
  finished-Extends :
      (first : ℕ × Option Bytes) (bytes : Bytes) (w : Response)
      → Extends first bytes w
      → finished w ≢ cut_off
      → (rest : Bytes) × (finished w ≡ sent_back first (bytes ++ rest))
  finished-Extends first bytes w (e, rest, b) whole = elim (Bool-cases w.aborted) [
    | inl ended ↦ absurd (whole (rw ended refl))
    | inr running ↦ (rest, rw (running, e, b) refl)
  ]

  module _ {W : Type 0} (H : Host W E) (S : Server W E) where
    settled :
        (r : Request E) (found : List Reading) (bytes : Bytes) (others : List (Write E))
        → J.encode_rows found ≡ value bytes
        → finished (perform_all J r (rows found ∷ others) fresh) ≢ cut_off
        → (rest : Bytes) × (finished (perform_all J r (rows found ∷ others) fresh)
            ≡ sent_back (200, some (codes "application/json; charset=utf-8")) (bytes ++ rest))
    unfolding perform_all perform write_reply
    settled r found bytes others encoded whole =
        finished-Extends (200, some (codes "application/json; charset=utf-8")) bytes
          (perform_all J r (rows found ∷ others) fresh)
          (perform_all-Extends r others (200, some (codes "application/json; charset=utf-8")) bytes
            (perform J r (rows found) fresh) (rw encoded (refl, [], sym (append-nil bytes))))
          whole

    asked_first :
        (r : Request E) (s t : State W) (v : W) (query : Bytes) (queries : List Bytes)
        (found : List Reading)
        → (r.method ≡ codes "GET") ⊎ (r.method ≡ codes "POST")
        → S.open_db (db_name r.path) s.world ≡ (value tt, v)
        → request_queries H S r ≡ ok (query ∷ queries)
        → query_rows_context H (extended r.deadline) query (record s { world = v }) ≡ (ok found, t)
        → (handle_query H S r s).0 ≡ rows found ∷ (query_loop H S r.deadline queries t).0
    unfolding handle_query query_opened query_loop
    asked_first r s t v query queries found (inl get) opens asked first =
        rw ((equal_iff r.method (codes "GET")).1 get, opens, asked, first) refl
    asked_first r s t v query queries found (inr post) opens asked first =
        rw ((equal_iff r.method (codes "POST")).1 post, opens, asked, first)
          (elim (Bool-cases (equal r.method (codes "GET"))) [
            | inl y ↦ rw y refl
            | inr n ↦ rw n refl
          ])

    -- The answer to `/db/query/` is settled by its first query: where the method is GET or POST,
    -- the database is opened, the first query of the request has rows that can be encoded, and the
    -- handler does not panic, so that the answer is not cut off, the status is 200 and the body starts
    -- with the text of these rows, also where a later query fails.
    pub answer_query-sent_back :
        (r : Request E) (s : State W) (v : W) (query : Bytes) (queries : List Bytes)
        (found : List Reading) (t : State W) (bytes : Bytes)
        → (r.method ≡ codes "GET") ⊎ (r.method ≡ codes "POST")
        → S.open_db (db_name r.path) s.world ≡ (value tt, v)
        → request_queries H S r ≡ ok (query ∷ queries)
        → query_rows_context H (extended r.deadline) query (record s { world = v }) ≡ (ok found, t)
        → J.encode_rows found ≡ value bytes
        → answer_query J H S r s ≢ cut_off
        → (rest : Bytes) × (answer_query J H S r s
            ≡ sent_back (200, some (codes "application/json; charset=utf-8")) (bytes ++ rest))
    unfolding handle_query
    answer_query-sent_back r s v query queries found t bytes method opens asked first encoded
          whole =
        let begins = asked_first r s t v query queries found method opens asked first in
        rw begins (
          settled r found bytes (query_loop H S r.deadline queries t).0 encoded
            (rw begins at whole))
