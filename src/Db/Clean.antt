-- ===== src/Db/Clean.antt =====
-- `CleanText` of db.go: the two regular expressions that take comments out of a text, run as Go's
-- `ReplaceAll` does, from the left, with no overlap.
pub mod Sql
pub mod C
use dqlited.Base.{
  ℕ, Bool, true, false, ◌&&◌, ◌||◌, List, [], ◌∷◌, ◌++◌, Bytes, Option, none, some, ◌==◌,
  if◌then◌else◌,
}
use dqlited.Text.{is_regexp_space}

-- The next byte is `b`.
abbrev pub next_is : ℕ → Bytes → Bool
next_is b [] = false
next_is b (c ∷ s) = c == b

abbrev drop_one : Bytes → Bytes
drop_one [] = []
drop_one (c ∷ s) = s

-- A `*/` stands in the text.
unfoldable pub closes : Bytes → Bool
closes [] = false
closes (c ∷ s) = (c == b'*' && next_is b'/' s) || closes s

-- Where the scan for `/\*.*?\*/` stands: between matches, on the `*` of an opening, within a
-- match, and on the `/` of the closing.
pub data CMode : Type 0 where
  plain opening inside closing : CMode

-- `commentC.ReplaceAll(s, {})`. An opening is a match only if a `*/` stands behind it.
unfoldable pub strip_c_from : CMode → Bytes → Bytes
unfolding closes
strip_c_from mode [] = []
strip_c_from plain (c ∷ s) =
    let skipped = strip_c_from opening s in
    let kept = c ∷ strip_c_from plain s in
    if c == b'/' && next_is b'*' s && closes (drop_one s) then skipped else kept
strip_c_from opening (c ∷ s) = strip_c_from inside s
strip_c_from inside (c ∷ s) =
    let close = strip_c_from closing s in
    let on = strip_c_from inside s in if c == b'*' && next_is b'/' s then close else on
strip_c_from closing (c ∷ s) = strip_c_from plain s

abbrev pub strip_c : Bytes → Bytes
strip_c = strip_c_from plain

-- `commentSQL.ReplaceAll(s, {})` for `\s*--.*`: `pending` is the white space just before, which goes
-- with a comment; the flag tells that the scan is within one, which the end of the line closes.
unfoldable pub strip_sql_from : Bool → Bytes → Bytes → Bytes
unfolding is_regexp_space
strip_sql_from within pending [] = if within then [] else pending
strip_sql_from true pending (c ∷ s) =
    let after = strip_sql_from false (c ∷ []) s in
    let on = strip_sql_from true [] s in if c == 10 then after else on
strip_sql_from false pending (c ∷ s) =
    let comment = strip_sql_from true [] s in
    let wait = strip_sql_from false (pending ++ c ∷ []) s in
    let copy = pending ++ c ∷ strip_sql_from false [] s in
    if c == b'-' && next_is b'-' s then comment else if is_regexp_space c then wait else copy

abbrev pub strip_sql : Bytes → Bytes
strip_sql = strip_sql_from false []

-- `CleanText`
unfoldable pub clean_text : Bytes → Bytes
unfolding strip_c_from strip_sql_from
clean_text s = strip_sql (strip_c s)
