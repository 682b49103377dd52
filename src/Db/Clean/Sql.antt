-- ===== src/Db/Clean/Sql.antt =====
-- What `CleanText` does with comments of SQL.
use dqlited.Base.{
  ℕ, ◌≡◌, refl, sym, Bool, true, false, ◌&&◌, ◌||◌, [], ◌∷◌, ◌++◌, append_assoc, append-nil, Bytes,
  arith, ◌==◌, All, All-append,
}
use dqlited.Text.{is_regexp_space}
use dqlited.Db.Clean.{next_is, strip_sql_from, strip_c, clean_text}

-- Two dashes in a row stand in the text.
abbrev pub dashed : Bytes → Bool
dashed [] = false
dashed (c ∷ s) = (c == b'-' && next_is b'-' s) || dashed s

abbrev Blank : Bytes → Type 0
Blank = All (λ c. is_regexp_space c ≡ true)

dash_is_no_space : (c : ℕ) → is_regexp_space c ≡ true → (c == b'-') ≡ false
unfolding is_regexp_space
dash_is_no_space c h = ground arith

dashed-Blank : (p s : Bytes) → Blank p → dashed (p ++ s) ≡ dashed s
dashed-Blank [] s h = refl
dashed-Blank (c ∷ p) s h = ground (arith, dashed-Blank p s h.1, dash_is_no_space c h.0)

newline_is_space : (c : ℕ) → (c == 10) ≡ true → is_regexp_space c ≡ true
unfolding is_regexp_space
newline_is_space c h = ground arith

Blank-concat : (c : ℕ) (p : Bytes) → Blank p → is_regexp_space c ≡ true → Blank (p ++ c ∷ [])
Blank-concat c p h k = All-append _ p (c ∷ []) h (k, tt)

-- The first byte that is left behind a comment, or behind white space, is no dash.
abbrev Skips : Bool → Bytes → Type 0
Skips true p = Unit
Skips false [] = ⊥
Skips false (q ∷ p) = is_regexp_space q ≡ true

not_dash :
    (within : Bool) (p s : Bytes)
    → Skips within p
    → next_is b'-' (strip_sql_from within p s) ≡ false
unfolding strip_sql_from
not_dash true p [] h = refl
not_dash false (q ∷ p) [] h = dash_is_no_space q h
not_dash true p (c ∷ s) h = ground (arith, not_dash false (c ∷ []) s, not_dash true [] s tt)
not_dash false [] s h = absurd h
not_dash false (q ∷ p) (c ∷ s) h =
    ground
      (arith, dash_is_no_space q h, not_dash true [] s tt, not_dash false (q ∷ p ++ c ∷ []) s h)

dash_kept : (s : Bytes) → next_is b'-' (strip_sql_from false [] s) ≡ true → next_is b'-' s ≡ true
unfolding strip_sql_from
dash_kept [] h = h
dash_kept (c ∷ s) h = ground (arith, not_dash true [] s tt, not_dash false (c ∷ []) s)

strip_sql_from-dashed :
    (within : Bool) (p s : Bytes) → Blank p → dashed (strip_sql_from within p s) ≡ false
unfolding strip_sql_from
strip_sql_from-dashed true p [] h = refl
strip_sql_from-dashed false p [] h = rw (← append-nil p) (dashed-Blank p [] h)
strip_sql_from-dashed true p (c ∷ s) h = ground (
  arith,
  strip_sql_from-dashed true [] s tt,
  strip_sql_from-dashed false (c ∷ []) s,
  newline_is_space c,
)
strip_sql_from-dashed false p (c ∷ s) h = ground (
  arith,
  strip_sql_from-dashed true [] s tt,
  strip_sql_from-dashed false [] s tt,
  strip_sql_from-dashed false (p ++ c ∷ []) s,
  Blank-concat c p h,
  dashed-Blank p (c ∷ strip_sql_from false [] s) h,
  dash_kept s,
)

-- A cleaned text holds no `--`, whatever the text was.
pub clean_text-dashed : (s : Bytes) → dashed (clean_text s) ≡ false
unfolding clean_text
clean_text-dashed s = strip_sql_from-dashed false [] (strip_c s) tt

pub strip_sql_from_id : (p s : Bytes) → dashed s ≡ false → strip_sql_from false p s ≡ p ++ s
unfolding strip_sql_from
strip_sql_from_id p [] h = sym (append-nil p)
strip_sql_from_id p (c ∷ s) h =
    ground
      (arith, strip_sql_from_id [] s, strip_sql_from_id (p ++ c ∷ []) s, append_assoc p (c ∷ []) s)
