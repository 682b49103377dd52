-- ===== src/Db/Query.antt =====
-- `DBX.query` of db.go: a read whose rows are printed as tables.
pub mod Table
use dqlited.Base.{
  ℕ, Bool, true, false, List, [], ◌∷◌, ◌++◌, map, length, replicate, Bytes, if◌then◌else◌,
}
use dqlited.Go.{Act, Outcome, ok, fail, Reply, value, error, from_reply, Host, ResultSet, Rows, msg}
use dqlited.Db.{State, Dbx, database_disabled, unavailable}

abbrev tab : ℕ
tab = 9

abbrev newline : ℕ
newline = 10

-- The loop `for i, column := range …`; the flag is `i > 0`.
unfoldable pub write_cells : Bool → List Bytes → Bytes
write_cells later [] = []
write_cells later (c ∷ cs) = (if later then tab ∷ c else c) ++ write_cells true cs

unfoldable pub write_row : List Bytes → Bytes
unfolding write_cells
write_row cells = write_cells false cells ++ newline ∷ []

-- `strings.Repeat("-", len(column))`
abbrev pub dashes : Bytes → Bytes
dashes column = replicate (length column) b'-'

unfoldable pub write_header : Dbx → List Bytes → Bytes
unfolding write_row
write_header dx columns =
    if dx.header then write_row columns ++ write_row (map dashes columns) else []

module _ {W E : Type 0} (H : Host W E) where
  open H use {wrap, query as run_query, tabulate}

  -- `columns, _ := rows.Columns()`: nil on an error
  abbrev pub columns_of : Reply (List Bytes) E → List Bytes
  columns_of (value columns) = columns
  columns_of (error e) = []

  -- The loop over `rows.Next()`: what is written to the tab writer, and how the loop ends.
  unfoldable pub write_rows : List (Reply (List Bytes) E) → Bytes × Outcome (Unit {0}) E
  unfolding write_row
  write_rows [] = ([], ok tt)
  write_rows (error e ∷ rows) = ([], fail (wrap (msg "failed to scan row" []) e))
  write_rows (value cells ∷ rows) =
      let (text, end) = write_rows rows in (write_row cells ++ text, end)

  -- One round of the outer loop: what the flushed tab writer adds to the output.
  unfoldable pub write_set : Dbx → ResultSet E → Bytes × Outcome (Unit {0}) E
  unfolding write_header write_rows
  write_set dx set =
      let (text, end) = write_rows set.rows in
      (tabulate dx.lines (write_header dx (columns_of set.columns) ++ text), end)

  abbrev then_sets :
      Bytes × Outcome (Unit {0}) E → Bytes × Outcome (Unit {0}) E → Bytes × Outcome (Unit {0}) E
  then_sets (out, ok _) (rest, end) = (out ++ rest, end)
  then_sets (out, end) later = (out, end)

  -- The outer loop, over the first result set and the others.
  unfoldable pub write_sets : Dbx → ResultSet E → List (ResultSet E) → Bytes × Outcome (Unit {0}) E
  unfolding write_set
  write_sets dx set [] = write_set dx set
  write_sets dx set (next ∷ sets) = then_sets (write_set dx set) (write_sets dx next sets)

  abbrev print : Bytes × Outcome (Unit {0}) E → Act (State W) E (Unit {0})
  print (text, end) s = (end, record s { out = s.out ++ text })

  unfoldable pub query : Dbx → Bytes → Act (State W) E (Unit {0})
  unfolding database_disabled
  query dx statement s =
      let (r, w) = run_query statement s.world in
      let s' = record s { world = w } in
      if database_disabled s then (fail (unavailable H), s) else elim r [
        | value rows ↦ print (write_sets dx rows.head rows.rest) s'
        | error e ↦ (fail (wrap (msg "dbx query failed" []) e), s')
      ]
