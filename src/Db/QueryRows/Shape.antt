-- ===== src/Db/QueryRows/Shape.antt =====
-- What `QueryRows` returns, and what it refuses.
use dqlited.Base.{
  ◌-◌, ◌≤◌, ◌++◌, ◌≡◌, refl, true, false, List, [], ◌∷◌, map, length, replicate, Bytes, arith, All,
}
use dqlited.Text.{is_space, fields, to_upper}
use dqlited.Text.Split.{fields_blank}
use dqlited.Go.{fail, panic, Reply, value, Host, Context, msg, text}
use dqlited.Db.{State}
use dqlited.Db.QueryRows.{Reading, action_of, is_reading, query_rows, query_rows_context}

module _ {W E : Type 0} (H : Host W E) where
  -- One reading of a result set with these columns, types and rows, in which all rows could be scanned.
  -- There are no more types than columns, and where there are less, empty texts stand for the others.
  pub record Reads (columns_read : List Bytes) (types_read : Reply (List Bytes) E)
      (rows : List (Reply (List Bytes) E)) (readings : List Reading) : Type 0 where
    pub reading : Reading
    pub only : readings ≡ reading ∷ []
    pub columns : reading.columns ≡ columns_read
    pub types : List Bytes
    pub given : types_read ≡ value types
    pub fits : length types ≤ length columns_read
    pub typed : reading.types ≡ types ++ replicate (length columns_read - length types) []
    pub values : rows ≡ map value reading.values

  -- `DBX.QueryRows` and `QueryRows` do the same, whatever context the second is given.
  query_rows-context :
      (ctx : Context) (q : Bytes) (s : State W) → query_rows_context H ctx q s ≡ query_rows H q s
  unfolding query_rows query_rows_context
  query_rows-context ctx q s = refl

  -- With the breaker closed, a query whose first word, in capitals, is neither SELECT nor PRAGMA
  -- never reaches the database: `DBX.QueryRows` changes nothing, and returns an error.
  query_rows_refuses :
      (q first : Bytes) (words : List Bytes) (s : State W)
      → s.disabled ≡ false
      → fields q ≡ first ∷ words
      → is_reading (to_upper first) ≡ false
      → query_rows H q s ≡ (
        fail (H.errorf (msg "Invalid action: %q -- must use SELECT" (text (to_upper first) ∷ []))),
        s,
      )
  unfolding query_rows action_of
  query_rows_refuses q first words s on f r = ground arith

  -- With the breaker closed, a query of white space, also an empty one, makes `DBX.QueryRows` panic.
  query_rows_blank :
      (q : Bytes) (s : State W)
      → s.disabled ≡ false
      → All (λ c. is_space c ≡ true) q
      → query_rows H q s ≡ (panic, s)
  unfolding query_rows action_of
  query_rows_blank q s on blank = ground (arith, fields_blank q blank)
