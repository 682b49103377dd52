-- ===== src/Tests/Batch.antt =====
-- The theorems on the scripts of db.go, at small inputs.
use dqlited.Base.{◌≡◌, ◌≢◌, refl, false, [], ◌∷◌, Bytes, codes, none, map, List}
use dqlited.Text.{
  is_space, split, trim_space, trim_right_space, trim_left_space, contains, starts_with,
}
use dqlited.Go.{panic}
use dqlited.Db.Clean.{clean_text}
use dqlited.Db.Clean.Sql.{dashed, clean_text-dashed}
use dqlited.Db.Batch.{batch}
use dqlited.Db.Batch.Commands.{kind, read_line, commands, script, run_commands, batch-script}
use dqlited.Db.Batch.Commands.Panics.{batch-ne-panic}
use dqlited.Db.Batch.Commands.Printing.{
  Item, begin_item, commit_item, statement_item, trigger_item, print, command_of, script-print,
}
use dqlited.Tests.World.{host, state, dbx}

abbrev text : Bytes
text = codes "/* a */BEGIN TRANSACTION;\nINSERT INTO t -- one\nVALUES(1);\nCOMMIT;\n"

clean_text-dashed_example : dashed (clean_text text) ≡ false
clean_text-dashed_example = clean_text-dashed text

batch-script_example : batch host dbx text state ≡ run_commands host dbx none (script text) state
batch-script_example = batch-script host dbx text state

batch-ne-panic_example : (batch host dbx text state).0 ≢ panic
unfolding script commands split clean_text read_line trim_space trim_right_space trim_left_space
    is_space kind starts_with contains
batch-ne-panic_example = batch-ne-panic host dbx text state refl

-- A transaction with a trigger and an insert over two lines.
abbrev items : List Item
items =
    begin_item (codes "BEGIN TRANSACTION;")
    ∷ trigger_item (codes "CREATE TRIGGER r") (codes "DELETE FROM t;" ∷ []) (codes "END;")
    ∷ statement_item (codes "INSERT INTO t" ∷ []) (codes "VALUES(1);")
    ∷ commit_item (codes "COMMIT;")
    ∷ []

script-print_example : script (print items) ≡ map command_of items
unfolding kind starts_with contains
script-print_example =
    script-print items
      (
        (refl, (refl, λ p. cc)),
        (
          (refl, (refl, λ p. cc), refl, ((refl, (refl, λ p. cc)), tt), refl, (refl, λ p. cc), refl),
          (
            (((refl, refl, (refl, λ p. cc)), tt), refl, (refl, λ p. cc), refl),
            ((refl, (refl, λ p. cc)), tt),
          ),
        ),
      )
      (refl, (refl, (refl, (refl, (refl, (refl, (refl, tt))))))) refl refl
