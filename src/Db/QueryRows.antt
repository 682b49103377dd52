-- ===== src/Db/QueryRows.antt =====
-- `DBX.QueryRows` and `QueryRows` of db.go: a read whose rows are returned.
pub mod Shape
use dqlited.Base.{
  ℕ, Bool, ◌||◌, List, [], ◌∷◌, ◌++◌, length, replicate, Bytes, codes, if◌then◌else◌,
}
use dqlited.Text.{equal, fields, to_upper}
use dqlited.Go.{
  Act, Outcome, ok, fail, panic, Reply, value, error, Host, ResultSet, Rows, Context, msg, text,
}
use dqlited.Db.{State, database_disabled, unavailable}
use dqlited.Db.Query.{columns_of}

-- `Rows` of db.go; no function of the program sets its `Error`, and its `Time` is left out.
pub record Reading : Type 0 where
  pub columns : List Bytes
  pub types : List Bytes
  pub values : List (List Bytes)

-- `strings.ToUpper(strings.Fields(query)[0])`; the index panics on a text with no field.
unfoldable pub action_of : {E : Type 0} → Bytes → Outcome Bytes E
action_of query = elim (fields query) [ [] ↦ panic | (word ∷ words) ↦ ok (to_upper word) ]

-- `action == "SELECT" || action == "PRAGMA"`
unfoldable pub is_reading : Bytes → Bool
is_reading action = equal action (codes "SELECT") || equal action (codes "PRAGMA")

abbrev pub over : {A B E : Type 0} → Outcome A E → (A → Outcome B E) → Outcome B E
over (ok a) f = f a
over (fail e) f = fail e
over panic f = panic

-- `resp.Types[i] = …` for each column type; the index panics behind the last slot.
unfoldable pub set_types : {E : Type 0} → List Bytes → List Bytes → Outcome (List Bytes) E
set_types slots [] = ok slots
set_types [] (t ∷ ts) = panic
set_types (slot ∷ slots) (t ∷ ts) = over (set_types slots ts) (λ rest. ok (t ∷ rest))

module _ {W E : Type 0} (H : Host W E) where
  open H use {errorf, wrap, query as run_query}

  -- The loop over `rows.Next()`.
  unfoldable pub read_values : List (Reply (List Bytes) E) → Outcome (List (List Bytes)) E
  read_values [] = ok []
  read_values (error e ∷ rows) = fail (wrap (msg "failed to scan row" []) e)
  read_values (value cells ∷ rows) = over (read_values rows) (λ rest. ok (cells ∷ rest))

  abbrev pub read_typed :
      List Bytes → List (Reply (List Bytes) E) → Reply (List Bytes) E → Outcome (List Reading) E
  read_typed columns rows (error e) = fail (wrap (msg "column types fail" []) e)
  read_typed columns rows (value types) =
      over (set_types (replicate (length columns) []) types) λ types.
        over (read_values rows)
          λ values. ok (record { columns = columns; types = types; values = values } ∷ [])

  -- The reply for the first result set; there is no call of `NextResultSet`.
  unfoldable pub read_set : ResultSet E → Outcome (List Reading) E
  unfolding set_types read_values
  read_set set = read_typed (columns_of H set.columns) set.rows set.types

  abbrev pub read_reply : Reply (Rows E) E → Outcome (List Reading) E
  read_reply (value rows) = read_set rows.head
  read_reply (error e) = fail (wrap (msg "query failed" []) e)

  abbrev pub not_reading : Bytes → Outcome (List Reading) E
  not_reading action =
      fail (errorf (msg "Invalid action: %q -- must use SELECT" (text action ∷ [])))

  -- `DBX.QueryRows`
  unfoldable pub query_rows : Bytes → Act (State W) E (List Reading)
  unfolding database_disabled
  query_rows query s =
      let (r, w) = run_query query s.world in
      if database_disabled s then (fail (unavailable H), s) else elim (action_of {E = E} query) [
        | ok action ↦
            if is_reading action
            then (read_reply r, record s { world = w })
            else (not_reading action, s)
        | fail e ↦ (fail e, s)
        | panic ↦ (panic, s)
      ]

  -- The function `QueryRows`, which does not pass its context on.
  unfoldable pub query_rows_context : Context → Bytes → Act (State W) E (List Reading)
  unfolding database_disabled
  query_rows_context ctx query s =
      let (r, w) = run_query query s.world in
      if database_disabled s then (fail (unavailable H), s) else elim (action_of {E = E} query) [
        | ok action ↦
            if is_reading action
            then (read_reply r, record s { world = w })
            else (not_reading action, s)
        | fail e ↦ (fail e, s)
        | panic ↦ (panic, s)
      ]
