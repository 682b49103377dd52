-- ===== src/Db/Batch/Commands/Printing.antt =====
-- Scripts as they are written: the lines of each item, and the commands that `DBX.Batch` reads back.
use dqlited.Base.{
  true, false, ◌≡◌, refl, ap, ◌∙◌, List, [], ◌∷◌, ◌++◌, append_assoc, append-nil, map, Bytes, All,
}
use dqlited.Text.{trim_space, trim_left_space, trim_right_space, contains, split}
use dqlited.Text.Split.{split-append}
use dqlited.Db.Clean.C.{opens as opens_comment, clean_text_id}
use dqlited.Db.Clean.Sql.{dashed}
use dqlited.Db.Batch.{semicolon}
use dqlited.Db.Batch.Commands.{
  Command, begin, commit, run, begins, commits, opens, closes, plain, kind, start, read_line,
  commands, script,
}
use dqlited.Db.Batch.Commands.Shape.{
  IsTrimmed, IsOpenEnded, InBody, text_of, read_line_lem, commands_trigger,
}

-- An item of a script: a line that begins or commits a transaction, a statement over some lines, or a
-- trigger with its head, its body and its end.
pub data Item : Type 0 where
  begin_item commit_item : Bytes → Item
  statement_item : List Bytes → Bytes → Item
  trigger_item : Bytes → List Bytes → Bytes → Item

abbrev pub lines_of : Item → List Bytes
lines_of (begin_item line) = line ∷ []
lines_of (commit_item line) = line ∷ []
lines_of (statement_item body end) = body ++ end ∷ []
lines_of (trigger_item head body end) = head ∷ (body ++ end ∷ [])

abbrev pub all_lines : List Item → List Bytes
all_lines [] = []
all_lines (item ∷ items) = lines_of item ++ all_lines items

-- The command that an item stands for.
abbrev pub command_of : Item → Command
command_of (begin_item line) = begin
command_of (commit_item line) = commit
command_of (statement_item body end) = run end (text_of body ++ (end ++ 10 ∷ []))
command_of (trigger_item head body end) = run end (text_of (head ∷ body) ++ (end ++ 10 ∷ []))

-- A line ends an item.
abbrev HasSemicolon : Bytes → Type 0
HasSemicolon line = contains line semicolon ≡ true

-- What is wanted of the lines of an item: the kind of each, semicolons at the end of an item only (but
-- in the body of a trigger), and no white space around them.
abbrev pub IsWritten : Item → Type 0
IsWritten (begin_item line) = (kind line ≡ begins) × IsTrimmed line
IsWritten (commit_item line) = (kind line ≡ commits) × IsTrimmed line
IsWritten (statement_item body end) =
    All IsOpenEnded body × (kind end ≡ plain) × IsTrimmed end × HasSemicolon end
IsWritten (trigger_item head body end) =
    (kind head ≡ opens)
    × IsTrimmed head
    × (contains head semicolon ≡ false)
    × All InBody body
    × (kind end ≡ closes)
    × IsTrimmed end
    × HasSemicolon end

commands_statement :
    (text : Bytes) (body : List Bytes) (end : Bytes) (rest : List Bytes)
    → All IsOpenEnded body
    → kind end ≡ plain
    → IsTrimmed end
    → HasSemicolon end
    → commands (record { statement = text; trigger = false }) (body ++ end ∷ rest)
      ≡ run end (text ++ (text_of body ++ (end ++ 10 ∷ []))) ∷ commands start rest
unfolding commands
commands_statement text [] end rest h k t c = rw (read_line_lem _ end t, k, c)
commands_statement text (line ∷ body) end rest h k t c =
    rw (read_line_lem _ line h.0.2, h.0.0, h.0.1)
      (commands_statement (text ++ (line ++ 10 ∷ [])) body end rest h.1 k t c
        ∙ ap (λ z. run end z ∷ commands start rest) (append_assoc text (line ++ 10 ∷ []) _)
        ∙ simp append_assoc)

commands-item :
    (item : Item) (rest : List Bytes)
    → IsWritten item
    → commands start (lines_of item ++ rest) ≡ command_of item ∷ commands start rest
unfolding commands
commands-item (begin_item line) rest h = rw (read_line_lem start line h.1, h.0)
commands-item (commit_item line) rest h = rw (read_line_lem start line h.1, h.0)
commands-item (statement_item body end) rest h =
    ap (commands start) (append_assoc body (end ∷ []) rest)
    ∙ commands_statement [] body end rest h.0 h.1 h.2 h.3
commands-item (trigger_item head body end) rest h =
    ap (λ ls. commands start (head ∷ ls)) (append_assoc body (end ∷ []) rest)
    ∙ commands_trigger end rest head body h.0 h.1 h.2 h.3 h.4 h.5 h.6

commands-all_lines :
    (items : List Item) (rest : List Bytes)
    → All IsWritten items
    → commands start (all_lines items ++ rest) ≡ map command_of items ++ commands start rest
commands-all_lines [] rest h = refl
commands-all_lines (item ∷ items) rest h =
    ap (commands start) (append_assoc (lines_of item) (all_lines items) rest)
    ∙ commands-item item (all_lines items ++ rest) h.0
    ∙ ap (◌∷◌ (command_of item)) (commands-all_lines items rest h.1)

split-text_of :
    (lines : List Bytes)
    → All (λ line. contains line (10 ∷ []) ≡ false) lines
    → split (text_of lines) 10 ≡ lines ++ [] ∷ []
split-text_of [] h = unfold split in refl
split-text_of (line ∷ lines) h =
    ap (λ t. split t 10) (append_assoc line (10 ∷ []) (text_of lines))
    ∙ split-append line (text_of lines) 10 h.0
    ∙ ap (◌∷◌ line) (split-text_of lines h.1)

-- The text of a script.
abbrev pub print : List Item → Bytes
print items = text_of (all_lines items)

commands_blank : commands start ([] ∷ []) ≡ []
unfolding commands read_line trim_space trim_left_space trim_right_space
commands_blank = refl

-- What is written is read: a script of items that are written so, with no newline in a line and no
-- comment in the text, is read back as the commands that the items stand for, in their order.
pub script-print :
    (items : List Item)
    → All IsWritten items
    → All (λ line. contains line (10 ∷ []) ≡ false) (all_lines items)
    → opens_comment (print items) ≡ false
    → dashed (print items) ≡ false
    → script (print items) ≡ map command_of items
unfolding script
script-print items h n c d =
    ap (λ t. commands start (split t 10)) (clean_text_id (print items) c d)
    ∙ ap (commands start) (split-text_of (all_lines items) n)
    ∙ commands-all_lines items ([] ∷ []) h
    ∙ ap (λ z. map command_of items ++ z) commands_blank
    ∙ append-nil (map command_of items)
