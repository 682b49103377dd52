-- ===== src/Hammer.antt =====
-- The load test of hammer.go: `hammerPrep`, `hammerInserts`, `hammerTime` and `hammer`.
pub mod Inserts
pub mod Counting
pub mod Rounds
use dqlited.Base.{
  ℕ, zero, suc, ◌+◌, ◌-◌, ◌*◌, ◌%◌, ◌^◌, Bool, true, false, not, List, [], ◌∷◌, ◌++◌, Bytes, codes,
  Option, none, some, ◌==◌, if◌then◌else◌,
}
use dqlited.Base.Int.{ℤ, pos, negsuc}
use dqlited.Go.{
  Act, Outcome, ok, fail, panic, pure, throw, crash, ◌>>=◌, ◌>>◌, continue, Reply, value, error,
  from_reply, Host, ExecResult, background,
}

-- Code outside the repository: the text that `fmt` prints for an int64, whose bit pattern is given,
-- and for an int; `errors.Is(err, io.EOF)`; the errors that `errors.Unwrap` leads to, one after
-- another; and the nanoseconds between two readings of the clock.
pub record Tools (W E : Type 0) : Type 0 where
  pub print_int64 : ℕ → Bytes
  pub print_int : ℕ → Bytes
  pub is_eof : E → Bool
  pub unwrapped : E → List E
  pub elapsed : W → ℕ

-- The bit pattern of an int64: `2 ^ 64 - 1 - n` is that of -(n + 1).
abbrev pub pattern_of : ℤ → ℕ
pattern_of (pos n) = n % 2 ^ 64
pattern_of (negsuc n) = (2 ^ 64 - 1) - n % 2 ^ 64

-- `fails`, `good` and `last`, as bit patterns.
pub record Counts : Type 0 where
  pub fails : ℕ
  pub good : ℕ
  pub last : ℕ

abbrev pub no_counts : Counts
no_counts = record { fails = 0; good = 0; last = 0 }

-- What a successful insert with this ID does to the counts.
unfoldable pub count_success : ℕ → Counts → Counts
count_success id c =
    let c' = record c { fails = 0; good = (c.good + 1) % 2 ^ 64; last = id } in
    if not (c'.last == c'.good) then record c' { good = c'.last } else c'

module _ {W E : Type 0} (H : Host W E) (T : Tools W E) where
  open H use {exec_context}
  open T use {print_int64, print_int, is_eof, unwrapped, elapsed}

  abbrev pub drop_table : Bytes
  drop_table = codes "drop table if exists simple"

  abbrev pub create_table : Bytes
  create_table = codes "create table simple (id integer primary key, other integer)"

  -- `hammerPrep`
  unfoldable pub hammer_prep : Act W E (Unit {0})
  hammer_prep = do
    (λ w. let (r, w') = exec_context background drop_table w in (from_reply r, w'))
    (λ w. let (r, w') = exec_context background create_table w in (from_reply r, w'))
    pure tt

  -- The loop of `hammerInserts`, with `n` rounds left, from `i`.
  unfoldable pub insert_lines : ℕ → ℕ → Bytes
  insert_lines zero i = []
  insert_lines (suc n) i =
      (codes "insert into simple (other) values(" ++ (print_int i ++ codes ")"))
      ++ insert_lines n (i + 1)

  -- `hammerInserts`
  unfoldable pub hammer_inserts : ℕ → Bytes
  hammer_inserts count =
      codes "drop table if exists simple;\n" ++ (create_table ++ insert_lines count 1)

  -- The text of an insert.
  abbrev pub insert_text : ℕ → Bytes
  insert_text last =
      codes "insert into simple (other) values(" ++ (print_int64 ((last + 1) % 2 ^ 64) ++ codes ")")

  -- `for err != nil { …; err = errors.Unwrap(err) }`: what `err` is behind the loop.
  unfoldable pub behind_unwrap : Option E → List E → Option E
  behind_unwrap none chain = none
  behind_unwrap (some e) [] = none
  behind_unwrap (some e) (e' ∷ chain) = behind_unwrap (some e') chain

  -- `err`, where the line with `fails` prints it.
  unfoldable pub printed_error : E → Option E
  printed_error e = elim (is_eof e) [ true ↦ some e | false ↦ behind_unwrap (some e) (unwrapped e) ]

  -- `err.Error()` panics on a nil error.
  abbrev pub count_failure : Option E → Counts → Act W E Counts
  count_failure none c = crash
  count_failure (some e) c = pure (record c { fails = (c.fails + 1) % 2 ^ 64 })

  abbrev pub insert_id : Reply ℤ E → Counts → Counts
  insert_id (error e) c = c
  insert_id (value id) c = count_success (pattern_of id) c

  abbrev pub round_reply : Reply (ExecResult E) E → Counts → Act W E Counts
  round_reply (error e) c = count_failure (printed_error e) c
  round_reply (value resp) c = pure (insert_id resp.last_insert_id c)

  -- The body of the loop of `hammerTime`.
  unfoldable pub round : Counts → Act W E Counts
  round c w = let (r, w') = exec_context background (insert_text c.last) w in round_reply r c w'

  -- The loop, with `n` rounds left.
  unfoldable pub rounds : ℕ → Counts → Act W E Counts
  rounds zero c = pure c
  rounds (suc n) c = round c >>= λ c'. rounds n c'

  -- The last lines of `hammerTime`: `total` as a bit pattern, and a division by the time that has
  -- passed.
  unfoldable pub report : Counts → Act W E (Option ℕ)
  report c w =
      let total = (c.good + c.fails) % 2 ^ 64 in
      if total == 0
      then (ok none, w)
      else if elapsed w == 0
      then (panic, w)
      else (ok (some total), w)

  -- `hammerTime`; `count` is its argument, or 0 where that is negative.
  unfoldable pub hammer_time : ℕ → Act W E (Option ℕ)
  hammer_time count = rounds count no_counts >>= λ c. report c
