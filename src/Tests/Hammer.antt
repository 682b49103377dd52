-- ===== src/Tests/Hammer.antt =====
-- The theorems on the load test, at small inputs.
use dqlited.Base.{
  ℕ, ◌+◌, sym, none, some, if◌then◌else◌, ◌≡◌, refl, ap, true, false, Bool, [], ◌∷◌, codes, arith,
}
use dqlited.Go.{value, error, Host, ok, Message}
use dqlited.Base.Int.{pos}
use dqlited.Text.{starts_with}
use dqlited.Hammer.{hammer_prep, hammer_time, Tools, no_counts, rounds}
use dqlited.Hammer.Rounds.{Completes, rounds-Completes}
use dqlited.Hammer.Counting.{IsTable, hammer_time-IsTable}
use dqlited.Tests.World.{World, host, world, busy, table}

-- Every error is the end of a stream, or none is.
abbrev tools : Bool → Tools World Message
tools eof = record {
  print_int64 = λ n. codes "1";
  print_int = λ n. codes "1";
  is_eof = λ e. eof;
  unwrapped = λ e. e ∷ [];
  elapsed = λ w. 5;
}

rounds-Completes_example :
    Completes host (tools true) (λ w. w.calls) 4 world (rounds host (tools true) 4 no_counts world)
rounds-Completes_example =
    rounds-Completes host (tools true) (λ w. w.calls) (λ q w. refl) (λ e. refl) 4 no_counts world

-- A table of so many rows, which every insert makes longer by one, and which every other statement
-- empties.
abbrev counting_host : Host ℕ Message
counting_host = record {
  errorf = λ m. m;
  wrap = λ m e. m;
  driver_code = λ e. none;
  exec_context = λ ctx q rows.
      let rows' = if starts_with q (codes "insert") then rows + 1 else 0 in
      (
        value (record {
          last_insert_id = value (pos rows');
          last_id_value = pos rows';
          rows_affected = pos 1;
        }),
        rows',
      );
  query = λ q w. (value (record { head = table; rest = [] }), w);
  begin = λ w. (value 7, w);
  tx_exec = λ tx q w. (error busy, w);
  tx_commit = λ tx w. (value tt, w);
  tx_rollback = λ tx w. (value tt, w);
  sleep = λ d w. w;
  tabulate = λ b t. t;
}

abbrev counting_tools : Tools ℕ Message
counting_tools = record {
  print_int64 = λ n. codes "1";
  print_int = λ n. codes "1";
  is_eof = λ e. false;
  unwrapped = λ e. e ∷ [];
  elapsed = λ w. 5;
}

counting_host-IsTable : IsTable counting_host counting_tools (λ rows. rows)
unfolding starts_with
counting_host-IsTable = record {
  inserts = λ last w. (_, w + 1, refl, refl, refl);
  creates = λ w w' r x. sym (ap (λ p. p.1) x);
}

hammer_time-IsTable_example :
    (v : ℕ) × (hammer_time counting_host counting_tools 1000 0 ≡ (ok (some 1000), v)) × (v ≡ 1000)
unfolding hammer_prep starts_with
hammer_time-IsTable_example =
    hammer_time-IsTable counting_host counting_tools (λ rows. rows) counting_host-IsTable 1000 9 0
      refl (omega arith) (λ v. omega arith)
