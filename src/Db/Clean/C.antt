-- ===== src/Db/Clean/C.antt =====
-- What `CleanText` does with comments of C, and with texts that hold no comment.
use dqlited.Base.{◌≡◌, refl, Bool, true, false, ◌&&◌, ◌||◌, [], ◌∷◌, ◌++◌, Bytes, arith, ◌==◌}
use dqlited.Db.Clean.{next_is, closes, inside, strip_c_from, strip_c, clean_text}
use dqlited.Db.Clean.Sql.{dashed, strip_sql_from_id}

-- A `/*` stands in the text.
abbrev pub opens : Bytes → Bool
opens [] = false
opens (c ∷ s) = (c == b'/' && next_is b'*' s) || opens s

strip_c_id : (s : Bytes) → opens s ≡ false → strip_c s ≡ s
unfolding strip_c_from
strip_c_id [] h = refl
strip_c_id (c ∷ s) h = ground (arith, strip_c_id s)

-- A text with neither `/*` nor `--` is not changed.
pub clean_text_id : (s : Bytes) → opens s ≡ false → dashed s ≡ false → clean_text s ≡ s
unfolding clean_text
clean_text_id s h k = rw (strip_c_id s h) (strip_sql_from_id [] s k)

abbrev comment : Bytes → Bytes → Bytes
comment body rest = body ++ (b'*' ∷ b'/' ∷ rest)

closes-comment : (body rest : Bytes) → closes (comment body rest) ≡ true
unfolding closes
closes-comment [] rest = refl
closes-comment (c ∷ body) rest = ground (arith, closes-comment body rest)

strip_inside :
    (body rest : Bytes)
    → closes (body ++ b'*' ∷ []) ≡ false
    → strip_c_from inside (comment body rest) ≡ strip_c rest
unfolding strip_c_from closes
strip_inside [] rest h = refl
strip_inside (c ∷ []) rest h = ground arith
strip_inside (c ∷ d ∷ body) rest h = ground (arith, strip_inside (d ∷ body) rest)

strip_comment :
    (body rest : Bytes)
    → closes (body ++ b'*' ∷ []) ≡ false
    → strip_c (b'/' ∷ b'*' ∷ comment body rest) ≡ strip_c rest
unfolding strip_c_from
strip_comment body rest h = ground (arith, closes-comment body rest, strip_inside body rest)

-- A comment goes with all that it holds: behind a text with no `/*` stands a comment whose body has
-- no `*/` before its end, and what is left is that text and what the scan leaves of the rest.
strip_c-comment :
    (before body rest : Bytes)
    → opens before ≡ false
    → closes (body ++ b'*' ∷ []) ≡ false
    → strip_c (before ++ (b'/' ∷ b'*' ∷ comment body rest)) ≡ before ++ strip_c rest
unfolding strip_c_from
strip_c-comment [] body rest h k = strip_comment body rest k
strip_c-comment (c ∷ []) body rest h k = ground (arith, strip_comment body rest)
strip_c-comment (c ∷ d ∷ before) body rest h k =
    ground (arith, strip_c-comment (d ∷ before) body rest)
