-- ===== src/Db/Batch/Commands.antt =====
-- A script as a list of commands, found by reading alone, and `DBX.Batch` as running them in turn.
pub mod Shape
pub mod Panics
pub mod Printing
pub mod Transactions
use dqlited.Base.{
  ℕ, Bool, true, false, not, ◌≡◌, refl, sym, ap, ◌∙◌, List, [], ◌∷◌, ◌++◌, Bytes, codes, Option,
  none, some, if◌then◌else◌, arith, ◌||◌, inl, inr, Bool-cases,
}
use mathlib.Core.Path.{fun_ext}
use dqlited.Text.{trim_space, contains, split, starts_with}
use dqlited.Go.{Act, Outcome, ok, fail, panic, pure, ◌>>=◌, continue, Host}
use dqlited.Db.{State, Dbx}
use dqlited.Db.Clean.{clean_text}
use dqlited.Db.Batch.{
  Reader, initial, semicolon, commit as commit_tx, begin_tx, run_statement, batch_line,
  batch_trimmed, batch_lines, batch,
}

pub data Command : Type 0 where
  begin commit : Command
  -- a complete statement, with the line that completed it
  run : Bytes → Bytes → Command

-- What a line is taken for, in the order of the tests.
pub data Kind : Type 0 where
  begins commits opens closes plain : Kind

unfoldable pub kind : Bytes → Kind
kind line =
    if starts_with line (codes "BEGIN TRANSACTION")
    then begins
    else if starts_with line (codes "COMMIT;")
    then commits
    else if starts_with line (codes "CREATE TRIGGER")
    then opens
    else if starts_with line (codes "END;")
    then closes
    else plain

-- The text read so far of a statement, and whether it is a trigger's.
pub record Scan : Type 0 where
  pub statement : Bytes
  pub trigger : Bool

abbrev pub start : Scan
start = record { statement = []; trigger = false }

abbrev pub complete : Scan → Bytes → Scan × List Command
complete sc line =
    if contains line semicolon
    then (record sc { statement = [] }, run line sc.statement ∷ [])
    else (sc, [])

-- A line, of which the kind is known, behind the text read so far.
abbrev pub read_kind : Kind → Scan → Bytes → Scan × List Command
read_kind begins sc line = (record sc { statement = [] }, begin ∷ [])
read_kind commits sc line = (record sc { statement = [] }, commit ∷ [])
read_kind opens sc line =
    if contains line semicolon then complete sc line else (record sc { trigger = true }, [])
read_kind closes sc line = complete (record sc { trigger = false }) line
read_kind plain sc line = if sc.trigger then (sc, []) else complete sc line

unfoldable pub read_line : Scan → Bytes → Scan × List Command
read_line sc [] = (sc, [])
read_line sc (c ∷ line) =
    read_kind (kind (c ∷ line)) (record sc { statement = sc.statement ++ (c ∷ line ++ 10 ∷ []) })
      (c ∷ line)

unfoldable pub commands : Scan → List Bytes → List Command
commands sc [] = []
commands sc (line ∷ lines) =
    let (sc', cs) = read_line sc (trim_space line) in cs ++ commands sc' lines

-- The commands of a script.
unfoldable pub script : Bytes → List Command
script buffer = commands start (split (clean_text buffer) 10)

module _ {W E : Type 0} (H : Host W E) (dx : Dbx) where
  -- A command, with the transaction that is open.
  unfoldable pub run_command : Option ℕ → Command → Act (State W) E (Option ℕ)
  run_command tx begin = begin_tx H dx >>= λ t. pure (some t)
  run_command tx commit = commit_tx H dx tx >>= λ _. pure none
  run_command tx (run line stmt) = run_statement H dx tx line stmt >>= λ _. pure tx

  unfoldable pub run_commands : Option ℕ → List Command → Act (State W) E (Unit {0})
  unfolding run_command
  run_commands tx [] = pure tt
  run_commands tx (c ∷ cs) = run_command tx c >>= λ tx'. run_commands tx' cs

  abbrev scan : Reader → Scan
  scan b = record { statement = b.statement; trigger = b.trigger }

  -- A line and then the commands of the others.
  batch_trimmed-run :
      (rest : Scan → List Command) (b : Reader) (line : Bytes) (s : State W)
      → (batch_trimmed H dx b line >>= λ b'. run_commands b'.tx (rest (scan b'))) s
        ≡ run_commands b.tx ((read_line (scan b) line).1 ++ rest (read_line (scan b) line).0) s
  unfolding batch_line read_line kind run_commands
  batch_trimmed-run rest b [] s = refl
  batch_trimmed-run rest b (c ∷ line) s = ground arith

  batch_lines-cons :
      (b : Reader) (line : Bytes) (lines : List Bytes) (s : State W)
      → batch_lines H dx b (line ∷ lines) s
        ≡ (batch_trimmed H dx b (trim_space line) >>= λ b'. batch_lines H dx b' lines) s
  unfolding batch_lines
  batch_lines-cons b line lines s = refl

  run_commands-cons :
      (b : Reader) (line : Bytes) (lines : List Bytes) (s : State W)
      → run_commands b.tx (commands (scan b) (line ∷ lines)) s
        ≡ run_commands b.tx
            ((read_line (scan b) (trim_space line)).1
              ++ commands (read_line (scan b) (trim_space line)).0 lines)
            s
  unfolding commands
  run_commands-cons b line lines s = refl

  batch_lines-commands :
      (lines : List Bytes) (b : Reader) (s : State W)
      → batch_lines H dx b lines s ≡ run_commands b.tx (commands (scan b) lines) s
  batch_lines-commands [] b s = unfold batch_lines commands run_commands in refl
  batch_lines-commands (line ∷ lines) b s =
      batch_lines-cons b line lines s
      ∙ ap
          (λ (k : Reader → Act (State W) E (Unit {0})).
            (batch_trimmed H dx b (trim_space line) >>= k) s)
          (fun_ext λ b'. fun_ext λ s'. batch_lines-commands lines b' s')
      ∙ batch_trimmed-run (λ sc. commands sc lines) b (trim_space line) s
      ∙ sym (run_commands-cons b line lines s)

  -- `DBX.Batch` finds the commands of its script by reading alone, and runs them in their order up
  -- to the first one that fails: no answer of the database changes how the script is read.
  pub batch-script :
      (buffer : Bytes) (s : State W) → batch H dx buffer s ≡ run_commands none (script buffer) s
  unfolding batch script
  batch-script buffer s = batch_lines-commands (split (clean_text buffer) 10) initial s
