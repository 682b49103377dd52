-- ===== src/Db/Queryer/Pointers.antt =====
-- What `DBTW` prints of the rows of a query.
use dqlited.Base.{ℕ, ◌+◌, ◌≡◌, refl, ap, ◌∙◌, List, [], ◌∷◌, ◌++◌, map, length, Bytes, arith}
use dqlited.Go.{Outcome, ok, fail, panic, Reply, value, error, Host, ResultSet, Rows}
use dqlited.Db.{State}
use dqlited.Db.Query.{write_row}
use dqlited.Db.Queryer.{
  Dbtw, scan_to, feed_rows, feed_set, feed_sets, then_sets, queryer, dbtw_header, dbtw_body, dbtw,
}

module _ (tabulate : Bytes → Bytes) (address : ℕ → ℕ → Bytes) where
  printed-scan_to :
      (k i : ℕ) (cells cells' : List Bytes)
      → length cells ≡ length cells'
      → map (λ p. address p.buffer p.index) (scan_to k i cells)
        ≡ map (λ p. address p.buffer p.index) (scan_to k i cells')
  unfolding scan_to
  printed-scan_to k i [] [] h = refl
  printed-scan_to k i [] (c ∷ cells') h = absurd (omega arith)
  printed-scan_to k i (c ∷ cells) [] h = absurd (omega arith)
  printed-scan_to k i (c ∷ cells) (c' ∷ cells') h =
      ap (◌∷◌ (address k i)) (printed-scan_to k (i + 1) cells cells' (omega arith))

  module _ {W E : Type 0} (H : Host W E) where
    -- Two results of the same shape: the same columns, and the same number of cells in each row.
    pub data SameRows : List (Reply (List Bytes) E) → List (Reply (List Bytes) E) → Type 0 where
      nil : SameRows [] []
      same_error :
          {e : E} {rows rows' : List (Reply (List Bytes) E)}
          → SameRows (error e ∷ rows) (error e ∷ rows')
      cons :
          {cells cells' : List Bytes} {rows rows' : List (Reply (List Bytes) E)}
          → length cells ≡ length cells'
          → SameRows rows rows'
          → SameRows (value cells ∷ rows) (value cells' ∷ rows')

    pub record SameSet (set set' : ResultSet E) : Type 0 where
      pub columns : set.columns ≡ set'.columns
      pub rows : SameRows set.rows set'.rows

    pub data SameSets : List (ResultSet E) → List (ResultSet E) → Type 0 where
      nil : SameSets [] []
      cons :
          {set set' : ResultSet E} {sets sets' : List (ResultSet E)}
          → SameSet set set'
          → SameSets sets sets'
          → SameSets (set ∷ sets) (set' ∷ sets')

    feed_rows-SameRows :
        (k : ℕ) {rows rows' : List (Reply (List Bytes) E)} (d : Dbtw)
        → SameRows rows rows'
        → feed_rows H (dbtw tabulate address) k rows d
          ≡ feed_rows H (dbtw tabulate address) k rows' d
    unfolding feed_rows dbtw_body
    feed_rows-SameRows k d SameRows.nil = refl
    feed_rows-SameRows k d same_error = refl
    feed_rows-SameRows k d (SameRows.cons {cells} {cells'} {rows' = rows'} e s) =
        feed_rows-SameRows k (dbtw_body tabulate address (scan_to k 0 cells) d) s
        ∙ ap
            (λ ps.
              feed_rows H (dbtw tabulate address) k rows'
                (record d { pending = d.pending ++ write_row ps }))
            (printed-scan_to k 0 cells cells' e)

    feed_set-SameSet :
        (k : ℕ) (set set' : ResultSet E) (d : Dbtw)
        → SameSet set set'
        → feed_set H (dbtw tabulate address) k set d ≡ feed_set H (dbtw tabulate address) k set' d
    feed_set-SameSet k set set' d s = same_columns set.columns set'.columns s.columns
      where
        same_columns :
            (c c' : Reply (List Bytes) E)
            → c ≡ c'
            → feed_set H (dbtw tabulate address) k (record set { columns = c }) d
              ≡ feed_set H (dbtw tabulate address) k (record set' { columns = c' }) d
        same_columns (value c) (value c') e =
            let same : c ≡ c' = ground arith in
            rw same (feed_rows-SameRows k (dbtw_header tabulate address c' d) s.rows)
        same_columns (error e) (error e') p = ground arith
        same_columns (value c) (error e) p = cc
        same_columns (error e) (value c) p = cc

    feed_sets-SameSets :
        (k : ℕ) (set set' : ResultSet E) {sets sets' : List (ResultSet E)} (d : Dbtw)
        → SameSet set set'
        → SameSets sets sets'
        → feed_sets H (dbtw tabulate address) k set sets d
          ≡ feed_sets H (dbtw tabulate address) k set' sets' d
    unfolding feed_sets
    feed_sets-SameSets k set set' d s SameSets.nil = feed_set-SameSet k set set' d s
    feed_sets-SameSets k set set' d s
          (SameSets.cons {set = next} {set' = next'} {sets} {sets'} h hs) =
        rw (feed_set-SameSet k set set' d s) (
          after (feed_set H (dbtw tabulate address) k set' d)
            (λ d'. feed_sets-SameSets (k + 1) next next' d' h hs))
      where
        after :
            (r : Outcome (Unit {0}) E × Dbtw)
            → ((d' : Dbtw)
                → feed_sets H (dbtw tabulate address) (k + 1) next sets d'
                  ≡ feed_sets H (dbtw tabulate address) (k + 1) next' sets' d')
            → then_sets H
                (dbtw tabulate address)
                r
                (feed_sets H (dbtw tabulate address) (k + 1) next sets)
              ≡ then_sets H
                  (dbtw tabulate address)
                  r
                  (feed_sets H (dbtw tabulate address) (k + 1) next' sets')
        after (ok _, d') f = f d'
        after (fail e, d') f = refl
        after (panic, d') f = refl

    -- `DBX.queryer` over a `DBTW` does the same for two statements that the database answers,
    -- leaving the same world, with the same columns and the same shape of rows, whatever values
    -- these hold: it prints the pointers, and no value.
    queryer_prints_no_value :
        (q q' : Bytes) (t : State W) (d : Dbtw) (rows rows' : Rows E) (w : W)
        → H.query q t.world ≡ (value rows, w)
        → H.query q' t.world ≡ (value rows', w)
        → SameSet rows.head rows'.head
        → SameSets rows.rest rows'.rest
        → queryer H (dbtw tabulate address) q t d ≡ queryer H (dbtw tabulate address) q' t d
    unfolding queryer
    queryer_prints_no_value q q' t d rows rows' w x x' h hs =
        rw (x, x', feed_sets-SameSets 0 rows.head rows'.head d h hs)
