-- ===== src/Web/Output/Status.antt =====
-- What the status of an answer to `/db/execute/` tells of the statements of the request.
use dqlited.Base.{
  ℕ, ◌≡◌, ◌≢◌, refl, List, [], ◌∷◌, Bytes, codes, Option, inl, inr, arith, Bool-cases,
}
use dqlited.Text.{equal, join}
use dqlited.Text.Prefix.{equal_iff}
use dqlited.Go.{Outcome, ok, fail, panic, Reply, value, error, Host}
use dqlited.Db.{State}
use dqlited.Db.Execute.{ExecuteResponse, execute_context}
use dqlited.Web.{Request, Server, status}
use dqlited.Web.Params.{is_pretty}
use dqlited.Web.Queries.{db_name}
use dqlited.Web.Handlers.{
  extended, exec_answer, body_statements, exec_statements, exec_opened, exec_reply, handle_exec,
}
use dqlited.Web.Output.{
  Answer, sent_back, fresh, write_error, Encoder, indented, write_encoded, write_response, perform,
  perform_all, finished, answer_exec,
}

module _ {E : Type 0} (J : Encoder E) where
  encoded_lem :
      (p : Reply Bytes E) (type : Option Bytes) (body : Bytes)
      → finished (write_encoded J p fresh) ≡ sent_back (200, type) body
      → p ≡ value body
  unfolding write_error
  encoded_lem (value bytes) type body h = ground arith
  encoded_lem (error e) type body h = absurd (ground (arith, h))

  -- An answer to `/db/execute/` that is sent with the status 200 is the text of this result.
  abbrev pub IsAnswered : Request E → Outcome ExecuteResponse E → Bytes → Type 0
  IsAnswered r o body =
      (j : ExecuteResponse) × (o ≡ ok j)
      × (J.encode_executed (indented J (is_pretty r)) j ≡ value body)

  module _ {W : Type 0} (H : Host W E) (S : Server W E) where
    answered :
        (r : Request E) (o : Outcome ExecuteResponse E) (type : Option Bytes) (body : Bytes)
        → finished (perform_all J r (exec_answer H S o) fresh) ≡ sent_back (200, type) body
        → IsAnswered r o body
    unfolding perform_all perform write_response write_error
    answered r (ok j) type body h = (j, refl, encoded_lem _ type body h)
    answered r (fail e) type body h = absurd (ground (arith, h))
    answered r panic type body h = absurd (ground (arith, h))

    -- What the decoded body of a request to `/db/execute/` is answered with.
    abbrev pub answer_to : Request E → Reply (List Bytes) E → State W → Answer
    answer_to r d s =
        finished (perform_all J r (exec_statements H S (extended r.deadline) d s).0 fresh)

    -- The statements of a request to `/db/execute/` ran: the body was a list of them, and the series of
    -- their joined text returned the result that the body of the answer holds.
    abbrev pub Ran : Request E → Reply (List Bytes) E → State W → Bytes → Type 0
    Ran r d s body =
        (statements : List Bytes) × (d ≡ value statements)
        × IsAnswered r
            (execute_context H (extended r.deadline) (join statements (codes "\n") ∷ []) s).0 body

    decoded_lem :
        (r : Request E) (d : Reply (List Bytes) E) (s : State W) (type : Option Bytes)
        (body : Bytes)
        → answer_to r d s ≡ sent_back (200, type) body
        → Ran r d s body
    unfolding perform_all perform write_error
    decoded_lem r (error e) s type body h = absurd (ground (arith, h))
    decoded_lem r (value statements) s type body h = (
      statements,
      refl,
      answered r (execute_context H (extended r.deadline) (join statements (codes "\n") ∷ []) s).0
          type body h,
    )

    -- Where the database is opened.
    opened_lem :
        (r : Request E) (s : State W) (p : Reply (Unit {0}) E × W) (type : Option Bytes)
        (body : Bytes)
        → finished (perform_all J r (exec_reply H S r s p).0 fresh) ≡ sent_back (200, type) body
        → (v : W) × (p ≡ (value tt, v))
          × Ran r (body_statements H S r.body) (record s { world = v }) body
    unfolding perform_all perform write_error exec_opened
    opened_lem r s (error e, v) type body h = absurd (ground (arith, h))
    opened_lem r s (value _, v) type body h =
        (v, refl, decoded_lem r (body_statements H S r.body) (record s { world = v }) type body h)

    refused_lem :
        (r : Request E) (code : ℕ) (type : Option Bytes) (body : Bytes)
        → code ≢ 200
        → finished (perform_all J r (status code ∷ []) fresh) ≢ sent_back (200, type) body
    unfolding perform_all perform
    refused_lem r code type body different h = different (ground (arith, h))

    -- An answer to `/db/execute/` with the status 200 tells the truth: the request was a POST, its
    -- database was opened, its body was decoded to a list of statements, these ran as one text without
    -- an error, and the body of the answer is the encoded result.
    pub answer_exec-Ran :
        (r : Request E) (s : State W) (type : Option Bytes) (body : Bytes)
        → answer_exec J H S r s ≡ sent_back (200, type) body
        → (r.method ≡ codes "POST")
          × (v : W) × (S.open_db (db_name r.path) s.world ≡ (value tt, v))
          × Ran r (body_statements H S r.body) (record s { world = v }) body
    unfolding handle_exec
    answer_exec-Ran r s type body h = elim (Bool-cases (equal r.method (codes "POST"))) [
      | inl post ↦
          let (v, opens, ran) =
            opened_lem r s (S.open_db (db_name r.path) s.world) type body (rw post at h) in
          ((equal_iff r.method (codes "POST")).0 post, v, opens, ran)
      | inr other ↦ absurd (refused_lem r 405 type body (λ e. omega arith) (rw other at h))
    ]
