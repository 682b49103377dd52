-- ===== src/Db/Eval/Routes.antt =====
-- Which statements `DBX.Eval` reads and which it writes.
use dqlited.Base.{
  ℕ, ◌≡◌, ◌≢◌, refl, Bool, true, not, ◌&&◌, ◌||◌, List, [], ◌∷◌, Bytes, codes, arith, All,
  if◌then◌else◌,
}
use dqlited.Text.{is_space, equal, fields, to_upper, contains}
use dqlited.Text.Split.{fields_blank}
use dqlited.Go.{ok, panic, Host}
use dqlited.Db.{State, Dbx}
use dqlited.Db.Exec.{exec}
use dqlited.Db.Query.{query}
use dqlited.Db.QueryRows.{action_of}
use dqlited.Db.Eval.{expand, way_of, dispatch, eval}

-- The first word is this one in some mixture of cases.
abbrev pub is_word : Bytes → Bytes → Bool
is_word first word = equal (to_upper first) word

-- A statement reads if its first word is SELECT, or is PRAGMA and there is no `=`.
abbrev pub reads : Bytes → Bytes → Bool
reads first statement =
    is_word first (codes "SELECT")
    || (is_word first (codes "PRAGMA") && not (contains statement (codes "=")))

expand_blank : (c : ℕ) (s : Bytes) → is_space c ≡ true → expand (c ∷ s) ≡ c ∷ s
unfolding expand equal is_space
expand_blank c s h = ground arith

module _ {E : Type 0} where
  action_of-cons :
      (statement first : Bytes) (words : List Bytes)
      → fields statement ≡ first ∷ words
      → action_of {E = E} statement ≡ ok (to_upper first)
  unfolding action_of
  action_of-cons statement first words f = rw (f, action_of)

  action_of-nil : (statement : Bytes) → fields statement ≡ [] → action_of {E = E} statement ≡ panic
  unfolding action_of
  action_of-nil statement f = rw (f, action_of)

module _ {W E : Type 0} (H : Host W E) (dx : Dbx) where
  eval-dispatch :
      (first statement : Bytes) (words : List Bytes) (s : State W)
      → statement ≢ []
      → fields (expand statement) ≡ first ∷ words
      → eval H dx statement s
        ≡ dispatch H dx (expand statement) (way_of (to_upper first) (expand statement)) s
  unfolding eval
  eval-dispatch first [] words s ne f = absurd (ne refl)
  eval-dispatch first (c ∷ statement) words s ne f =
      rw (action_of-cons (expand (c ∷ statement)) first words f)

  dispatch-reads :
      (first statement : Bytes) (s : State W)
      → (dispatch H dx statement (way_of (to_upper first) statement) s).1
        ≡ (if reads first statement then (query H dx statement s).1 else (exec H statement s).1)
  unfolding way_of
  dispatch-reads first statement s = ground arith

  -- `DBX.Eval` of a statement that has a first word leaves the state as `DBX.query` of it does, if
  -- it reads, and else as `DBX.exec` of it does; a dot command is expanded first.
  eval-routes :
      (first statement : Bytes) (words : List Bytes) (s : State W)
      → statement ≢ []
      → fields (expand statement) ≡ first ∷ words
      → (eval H dx statement s).1 ≡ (
          if reads first (expand statement)
          then (query H dx (expand statement) s).1
          else (exec H (expand statement) s).1)
  eval-routes first statement words s ne f =
      rw (eval-dispatch first statement words s ne f) (dispatch-reads first (expand statement) s)

  -- A statement of nothing but white space, which is not the empty text, makes `DBX.Eval` panic.
  eval_blank :
      (statement : Bytes) (s : State W)
      → statement ≢ []
      → All (λ c. is_space c ≡ true) statement
      → eval H dx statement s ≡ (panic, s)
  unfolding eval
  eval_blank [] s ne h = absurd (ne refl)
  eval_blank (c ∷ statement) s ne h =
      rw (
        expand_blank c statement h.0,
        action_of-nil (c ∷ statement) (fields_blank (c ∷ statement) h),
      )
