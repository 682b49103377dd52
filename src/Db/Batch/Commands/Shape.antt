-- ===== src/Db/Batch/Commands/Shape.antt =====
-- What the commands of a script look like.
use dqlited.Base.{
  Bool, true, false, ◌≡◌, ◌≢◌, refl, ap, ◌∙◌, List, [], ◌∷◌, ◌++◌, append_assoc, Bytes, arith, All,
  if◌then◌else◌, All-append, inl, inr, Bool-cases,
}
use dqlited.Text.{trim_space, contains, split}
use dqlited.Db.Clean.{clean_text}
use dqlited.Db.Batch.{semicolon}
use dqlited.Db.Batch.Commands.{
  Command, begin, commit, run, Kind, begins, commits, opens, closes, plain, kind, Scan, start,
  complete, read_kind, read_line, commands, script,
}

-- A statement ends in the line that completed it, and that line holds a semicolon.
abbrev pub IsComplete : Command → Type 0
IsComplete begin = Unit
IsComplete commit = Unit
IsComplete (run line stmt) =
    (contains line semicolon ≡ true) × ((before : Bytes) × (stmt ≡ before ++ (line ++ 10 ∷ [])))

-- The text read so far ends in the line that was read last.
complete-IsComplete :
    (sc : Scan) (before line : Bytes)
    → sc.statement ≡ before ++ (line ++ 10 ∷ [])
    → All IsComplete (complete sc line).1
complete-IsComplete sc before line e = elim (Bool-cases (contains line semicolon)) [
  | inl ends ↦ rw ends ((ends, (before, e)), tt)
  | inr goes_on ↦ rw goes_on tt
]

plain-IsComplete :
    (inside : Bool) (sc : Scan) (before line : Bytes)
    → sc.statement ≡ before ++ (line ++ 10 ∷ [])
    → All IsComplete (if inside then (sc, []) else complete sc line).1
plain-IsComplete true sc before line e = tt
plain-IsComplete false sc before line e = complete-IsComplete sc before line e

read_kind-IsComplete :
    (k : Kind) (sc : Scan) (before line : Bytes)
    → sc.statement ≡ before ++ (line ++ 10 ∷ [])
    → All IsComplete (read_kind k sc line).1
read_kind-IsComplete begins sc before line e = (tt, tt)
read_kind-IsComplete commits sc before line e = (tt, tt)
read_kind-IsComplete closes sc before line e =
    complete-IsComplete (record sc { trigger = false }) before line e
read_kind-IsComplete opens sc before line e = elim (Bool-cases (contains line semicolon)) [
  | inl ends ↦ rw ends ((ends, (before, e)), tt)
  | inr goes_on ↦ rw goes_on tt
]
read_kind-IsComplete plain sc before line e = plain-IsComplete sc.trigger sc before line e

read_line-IsComplete : (sc : Scan) (line : Bytes) → All IsComplete (read_line sc line).1
unfolding read_line
read_line-IsComplete sc [] = tt
read_line-IsComplete sc (c ∷ line) =
    read_kind-IsComplete (kind (c ∷ line)) _ sc.statement (c ∷ line) refl

commands-IsComplete : (sc : Scan) (lines : List Bytes) → All IsComplete (commands sc lines)
unfolding commands
commands-IsComplete sc [] = tt
commands-IsComplete sc (line ∷ lines) =
    All-append IsComplete _ _ (read_line-IsComplete sc (trim_space line))
      (commands-IsComplete (read_line sc (trim_space line)).0 lines)

-- Each statement of a script that reaches the database ends in the line that completed it, and
-- that line holds a semicolon.
script-IsComplete : (buffer : Bytes) → All IsComplete (script buffer)
unfolding script
script-IsComplete buffer = commands-IsComplete start (split (clean_text buffer) 10)

-- A line that the loop takes as it is.
abbrev pub IsTrimmed : Bytes → Type 0
IsTrimmed line = (trim_space line ≡ line) × (line ≢ [])

-- The text of lines, each with its newline.
abbrev pub text_of : List Bytes → Bytes
text_of [] = []
text_of (line ∷ lines) = (line ++ 10 ∷ []) ++ text_of lines

-- A line of a trigger's body.
abbrev pub InBody : Bytes → Type 0
InBody line = (kind line ≡ plain) × IsTrimmed line

pub read_line_lem :
    (sc : Scan) (line : Bytes)
    → IsTrimmed line
    → read_line sc (trim_space line)
      ≡ read_kind (kind line) (record sc { statement = sc.statement ++ (line ++ 10 ∷ []) }) line
unfolding read_line
read_line_lem sc [] h = absurd (h.1 refl)
read_line_lem sc (c ∷ line) h = rw h.0

module _ (end : Bytes) (rest : List Bytes) where
  commands_body :
      (text : Bytes) (body : List Bytes)
      → All InBody body
      → kind end ≡ closes
      → IsTrimmed end
      → contains end semicolon ≡ true
      → commands (record { statement = text; trigger = true }) (body ++ end ∷ rest)
        ≡ run end (text ++ (text_of body ++ (end ++ 10 ∷ []))) ∷ commands start rest
  unfolding commands
  commands_body text [] h k t c = rw (read_line_lem _ end t, k, c)
  commands_body text (line ∷ body) h k t c =
      rw (read_line_lem _ line h.0.1, h.0.0)
        (commands_body (text ++ (line ++ 10 ∷ [])) body h.1 k t c
          ∙ ap (λ z. run end z ∷ commands start rest) (append_assoc text (line ++ 10 ∷ []) _)
          ∙ simp append_assoc)

  -- A trigger is one statement, whatever semicolons its body holds: from a line that opens it and
  -- has no semicolon, over any lines that neither open, close, begin nor commit, to the line that
  -- closes it.
  pub commands_trigger :
      (head : Bytes) (body : List Bytes)
      → kind head ≡ opens
      → IsTrimmed head
      → contains head semicolon ≡ false
      → All InBody body
      → kind end ≡ closes
      → IsTrimmed end
      → contains end semicolon ≡ true
      → commands start (head ∷ (body ++ end ∷ rest))
        ≡ run end (text_of (head ∷ body) ++ (end ++ 10 ∷ [])) ∷ commands start rest
  unfolding commands
  commands_trigger head body k t c h ke te ce =
      rw (read_line_lem start head t, k, c)
        (commands_body (head ++ 10 ∷ []) body h ke te ce ∙ simp append_assoc)

-- A line without a semicolon that only adds to the statement.
abbrev pub IsOpenEnded : Bytes → Type 0
IsOpenEnded line = (kind line ≡ plain) × (contains line semicolon ≡ false) × IsTrimmed line

read_plain :
    (sc : Scan) (line : Bytes)
    → contains line semicolon ≡ false
    → read_kind plain sc line ≡ (sc, [])
read_plain sc line h = ground arith

-- A last statement that no semicolon completes is dropped: lines of text at the end of a script
-- that hold no semicolon are not run, and no error is reported for them.
commands_open_ended :
    (sc : Scan) (lines : List Bytes) → All IsOpenEnded lines → commands sc lines ≡ []
unfolding commands
commands_open_ended sc [] h = refl
commands_open_ended sc (line ∷ lines) h =
    rw (read_line_lem sc line h.0.2, h.0.0, read_plain _ line h.0.1)
      (commands_open_ended (record sc { statement = sc.statement ++ (line ++ 10 ∷ []) }) lines h.1)
