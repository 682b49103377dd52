-- ===== src/Db/Queryer.antt =====
-- `DBX.queryer` of db.go, a read over the interface `QDB`, and `DBTW`, its one implementation.
pub mod Pointers
use dqlited.Base.{
  ℕ, zero, suc, ◌+◌, Bool, true, false, List, [], ◌∷◌, ◌++◌, map, Bytes, if◌then◌else◌,
}
use dqlited.Go.{Outcome, ok, fail, Reply, value, error, Host, ResultSet, Rows, msg}
use dqlited.Db.{State, database_disabled, unavailable}
use dqlited.Db.Query.{write_row, write_cells, dashes}

-- A pointer `&buffer[i]`: the buffer by the number of its result set, the index, and what the
-- buffer holds there.
pub record Pointer : Type 0 where
  pub buffer : ℕ
  pub index : ℕ
  pub held : Bytes

-- `QDB`, over the state `S` of the implementation
pub record Qdb (S : Type 0) : Type 0 where
  pub put_header : List Bytes → S → S
  pub put_body : List Pointer → S → S
  pub end : S → S

-- `scanTo`, from index `i`, once a row has been scanned.
unfoldable pub scan_to : ℕ → ℕ → List Bytes → List Pointer
scan_to buffer i [] = []
scan_to buffer i (cell ∷ cells) =
    record { buffer = buffer; index = i; held = cell } ∷ scan_to buffer (i + 1) cells

module _ {W E : Type 0} (H : Host W E) {S : Type 0} (Q : Qdb S) where
  open H use {wrap, query as run_query}
  open Q use {put_header, put_body, end}

  -- The loop over `rows.Next()`, for the result set number `k`.
  unfoldable pub feed_rows : ℕ → List (Reply (List Bytes) E) → S → Outcome (Unit {0}) E × S
  feed_rows k [] s = (ok tt, s)
  feed_rows k (error e ∷ rows) s = (fail (wrap (msg "failed to scan row" []) e), s)
  feed_rows k (value cells ∷ rows) s = feed_rows k rows (put_body (scan_to k 0 cells) s)

  -- A round of the outer loop.
  abbrev pub feed_set : ℕ → ResultSet E → S → Outcome (Unit {0}) E × S
  feed_set k set s = elim set.columns [
    | value columns ↦ feed_rows k set.rows (put_header columns s)
    | error e ↦ (fail e, s)
  ]

  abbrev pub then_sets :
      Outcome (Unit {0}) E × S → (S → Outcome (Unit {0}) E × S) → Outcome (Unit {0}) E × S
  then_sets (ok _, s) others = others s
  then_sets (o, s) others = (o, s)

  -- The outer loop, over the first result set and the others.
  unfoldable pub feed_sets : ℕ → ResultSet E → List (ResultSet E) → S → Outcome (Unit {0}) E × S
  feed_sets k set [] s = feed_set k set s
  feed_sets k set (next ∷ sets) s = then_sets (feed_set k set s) (feed_sets (k + 1) next sets)

  -- `defer qdb.Close()`
  abbrev pub ended : Outcome (Unit {0}) E × S → Outcome (Unit {0}) E × S
  ended (o, s) = (o, end s)

  abbrev pub query_reply : State W → S → Reply (Rows E) E × W → Outcome (Unit {0}) E × State W × S
  query_reply t s (value rows, w) =
      let (o, s') = ended (feed_sets 0 rows.head rows.rest s) in (o, record t { world = w }, s')
  query_reply t s (error e, w) =
      (fail (wrap (msg "dbx query failed" []) e), record t { world = w }, s)

  -- `DBX.queryer`
  unfoldable pub queryer : Bytes → State W → S → Outcome (Unit {0}) E × State W × S
  queryer statement t s =
      if database_disabled t
      then (fail (unavailable H), t, s)
      else query_reply t s (run_query statement t.world)

-- `DBTW`: `multi`, what its tab writer holds, and what it has flushed.
pub record Dbtw : Type 0 where
  pub multi : Bool
  pub pending : Bytes
  pub flushed : Bytes

-- `tabulate` is what the tab writer makes of a text, and `address` what `fmt` prints for a pointer.
module _ (tabulate : Bytes → Bytes) (address : ℕ → ℕ → Bytes) where
  -- `tw.Flush()`
  abbrev flush_writer : Dbtw → Dbtw
  flush_writer d = record d { pending = []; flushed = d.flushed ++ tabulate d.pending }

  -- `DBTW.Header`
  unfoldable pub dbtw_header : List Bytes → Dbtw → Dbtw
  dbtw_header columns d =
      let d' = if d.multi then flush_writer d else d in
      record d' {
        multi = true;
        pending = d'.pending ++ (write_row columns ++ write_cells false (map dashes columns));
      }

  -- `DBTW.Body`, which prints the pointers
  unfoldable pub dbtw_body : List Pointer → Dbtw → Dbtw
  dbtw_body cells d = record d {
    pending = d.pending ++ write_row (map (λ p. address p.buffer p.index) cells);
  }

  -- `DBTW.Close`
  unfoldable pub dbtw_close : Dbtw → Dbtw
  dbtw_close d = flush_writer d

  abbrev pub dbtw : Qdb Dbtw
  dbtw = record { put_header = dbtw_header; put_body = dbtw_body; end = dbtw_close }
