-- ===== src/Db/Query/Table.antt =====
-- What `DBX.query` prints.
use dqlited.Base.{◌≡◌, refl, true, List, [], ◌∷◌, ◌++◌, append-nil, map, Bytes}
use mathlib.Core.List.{flat_map}
use dqlited.Text.{join}
use dqlited.Go.{ok, fail, Reply, value, error, Host, msg}
use dqlited.Db.Query.{write_cells, write_row, write_rows}

write_cells-join :
    (c : Bytes) (cells : List Bytes) → write_cells true (c ∷ cells) ≡ 9 ∷ join (c ∷ cells) (9 ∷ [])
unfolding write_cells join
write_cells-join c [] = simp append-nil
write_cells-join c (d ∷ cells) = rw (write_cells-join d cells)

-- A row is its cells with a tab between, and a newline.
write_row-join : (cells : List Bytes) → write_row cells ≡ join cells (9 ∷ []) ++ 10 ∷ []
unfolding write_row write_cells join
write_row-join [] = refl
write_row-join (c ∷ []) = simp append-nil
write_row-join (c ∷ d ∷ cells) = rw (write_cells-join d cells)

module _ {W E : Type 0} (H : Host W E) where
  -- All rows up to the first one that cannot be scanned are written, one line for each; that one
  -- ends the loop with its error.
  write_rows_error :
      (rows : List (List Bytes)) (e : E) (rest : List (Reply (List Bytes) E))
      → write_rows H (map value rows ++ error e ∷ rest)
        ≡ (flat_map write_row rows, fail (H.wrap (msg "failed to scan row" []) e))
  unfolding write_rows flat_map
  write_rows_error [] e rest = refl
  write_rows_error (cells ∷ rows) e rest = rw (write_rows_error rows e rest)

  write_rows_ok :
      (rows : List (List Bytes)) → write_rows H (map value rows) ≡ (flat_map write_row rows, ok tt)
  unfolding write_rows flat_map
  write_rows_ok [] = refl
  write_rows_ok (cells ∷ rows) = rw (write_rows_ok rows)
