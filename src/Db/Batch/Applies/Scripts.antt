-- ===== src/Db/Batch/Applies/Scripts.antt =====
-- The commands of a script, one after another, against an abstract database.
use dqlited.Base.{
  ℕ, ◌≡◌, refl, ap, Bool, true, false, List, [], ◌∷◌, Bytes, Option, none, some, inl, inr, arith,
  Bool-cases,
}
use dqlited.Go.{Outcome, ok, fail, panic, continue, pure, map_fail, Reply-cases, Host, ExecResult}
use dqlited.Db.{State, Dbx, database_disabled, unavailable}
use dqlited.Db.Exec.{exec}
use dqlited.Db.Exec.Repeats.{AtLeastOnce, exec-AtLeastOnce}
use dqlited.Db.Query.{query}
use dqlited.Db.Batch.{batch}
use dqlited.Db.Batch.Commands.{
  Command, begin, commit, run, script, run_command, run_commands, batch-script,
}
use dqlited.Db.Batch.Applies.{
  is_select, IsFree, Applies, done, opens, closes, reads, changes, writes, Stopped, Applied, IsSql,
  seen,
}

abbrev is_open : Option ℕ → Bool
is_open none = false
is_open (some tx) = true

module _ {W E S : Type 0} (H : Host W E) (contents : W → S) (view : ℕ → W → S)
    (apply : Bytes → S → S) (d : IsSql H contents view apply) (dx : Dbx) where
  abbrev seen_here : Option ℕ → W → S × Option S
  seen_here = seen H contents view apply

  exec_off : (q : Bytes) (s : State W) → s.disabled ≡ true → exec H q s ≡ (fail (unavailable H), s)
  unfolding exec database_disabled
  exec_off q s off = rw off refl

  exec_any :
      (q : Bytes) (s : State W)
      → AtLeastOnce H contents apply q
          (exec H q s).0
          (contents s.world)
          (contents (exec H q s).1.world)
  exec_any q s = elim (Bool-cases s.disabled) [
    | inl off ↦ rw (exec_off q s off) (0, omega arith, refl)
    | inr on ↦ exec-AtLeastOnce H contents apply d.alone q s on
  ]

  query_keeps : (q : Bytes) (s : State W) → contents (query H dx q s).1.world ≡ contents s.world
  unfolding query
  query_keeps q s = ground (arith, d.query_contents q s.world)

  -- The commands behind one that was run, and where it stopped the script.
  abbrev Led : Command → List Command → S × Option S → Outcome (Option ℕ) E → W → Type 0
  Led c cs a (ok tx) w =
      IsFree (is_open tx) cs
      × ((first : List Command) (b : S × Option S)
          → Applies apply (seen_here tx w) first b
          → Applies apply a (c ∷ first) b)
  Led c cs a o w = Stopped apply a (c ∷ cs) (contents w)

  written :
      (line stmt : Bytes) (cs : List Command) (o : Outcome (Option (ExecResult E)) E) (wrap : E → E)
      (s : State W) (c : S)
      → is_select stmt ≡ false
      → IsFree false cs
      → AtLeastOnce H contents apply stmt o c (contents s.world)
      → Led
          (run line stmt)
          cs
          (c, none)
          (continue
            (map_fail wrap (continue o (λ _. pure tt) s).0)
            (λ _. pure {A = Option ℕ} none)
            (continue o (λ _. pure {E = E} tt) s).1).0
          (continue
            (map_fail wrap (continue o (λ _. pure tt) s).0)
            (λ _. pure {E = E} {A = Option ℕ} none)
            (continue o (λ _. pure {E = E} tt) s).1).1.world
  written line stmt cs (ok r) wrap s c other free (k, one, ten, e) =
      (free, λ first b h. writes k other one ten (rw (← e) h))
  written line stmt cs (fail x) wrap s c other free (k, ten, e) =
      inr (line, stmt, cs, k, refl, refl, other, ten, e)
  written line stmt cs panic wrap s c other free h = absurd h

  run_command-Led :
      (tx : Option ℕ) (c : Command) (cs : List Command) (s : State W)
      → IsFree (is_open tx) (c ∷ cs)
      → Led c cs
          (seen_here tx s.world)
          (run_command H dx tx c s).0
          (run_command H dx tx c s).1.world
  unfolding run_command
  run_command-Led none begin cs s free = elim (Reply-cases (H.begin s.world)) [
    | inl (t, w, x) ↦
        let (same, sees) = d.transactions.begin_value s.world w t x in
        rw x (free, λ first b h. opens (rw (same, sees) at h))
    | inr (e, w, x) ↦ rw x (inl (d.transactions.begin_error s.world w e x))
  ]
  run_command-Led (some tx) begin cs s free = absurd free
  run_command-Led none commit cs s free = inl refl
  run_command-Led (some tx) commit cs s free = elim (Reply-cases (H.tx_commit tx s.world)) [
    | inl (u, w, x) ↦
        rw x (free, λ first b h. closes (rw (d.transactions.commit_value tx s.world w x) at h))
    | inr (e, w, x) ↦ rw x (inl (d.transactions.commit_error tx s.world w e x))
  ]
  run_command-Led none (run line stmt) cs s free = elim (Bool-cases (is_select stmt)) [
    | inl select ↦ rw select (free, λ first b h. reads select (rw (query_keeps stmt s) at h))
    | inr other ↦ rw other (
        written line stmt cs (exec H stmt s).0 _ (exec H stmt s).1 (contents s.world) other free
          (exec_any stmt s))
  ]
  run_command-Led (some tx) (run line stmt) cs s (other, free) =
      elim (Reply-cases (H.tx_exec tx stmt s.world)) [
        | inl (r, w, x) ↦
            let (same, changed) = d.transactions.exec_value tx stmt s.world w r x in
            rw (other, x) (free, λ first b h. changes other (rw (same, changed) at h))
        | inr (e, w, x) ↦ rw (other, x) (inl (d.transactions.exec_error tx stmt s.world w e x))
      ]

  Applied-cons :
      (c : Command) (cs : List Command) (a a' : S × Option S) (o : Outcome (Unit {0}) E) (t : S)
      → ((first : List Command) (b : S × Option S)
          → Applies apply a' first b
          → Applies apply a (c ∷ first) b)
      → Applied apply cs a' o t
      → Applied apply (c ∷ cs) a o t
  Applied-cons c cs a a' (ok _) t k (v, h) = (v, k cs (t, v) h)
  Applied-cons c cs a a' (fail e) t k (first, others, b, p, h, stops) =
      (c ∷ first, others, b, ap (◌∷◌ c) p, k first b h, stops)
  Applied-cons c cs a a' panic t k (first, others, b, p, h, stops) =
      (c ∷ first, others, b, ap (◌∷◌ c) p, k first b h, stops)

  then-Applied :
      (c : Command) (cs : List Command) (a : S × Option S) (o : Outcome (Option ℕ) E) (s : State W)
      → ((tx : Option ℕ) (s' : State W)
          → IsFree (is_open tx) cs
          → Applied apply cs
              (seen_here tx s'.world)
              (run_commands H dx tx cs s').0
              (contents (run_commands H dx tx cs s').1.world))
      → Led c cs a o s.world
      → Applied apply
          (c ∷ cs)
          a
          (continue o (λ tx. run_commands H dx tx cs) s).0
          (contents (continue o (λ tx. run_commands H dx tx cs) s).1.world)
  then-Applied c cs a (ok tx) s k (free, takes) =
      Applied-cons c cs a (seen_here tx s.world) _ _ takes (k tx s free)
  then-Applied c cs a (fail x) s k stops = ([], c ∷ cs, a, refl, done, stops)
  then-Applied c cs a panic s k stops = ([], c ∷ cs, a, refl, done, stops)

  abbrev all_done : Outcome (Unit {0}) E
  all_done = ok tt

  nothing_left : (tx : Option ℕ) (w : W) → Applied apply [] (seen_here tx w) all_done (contents w)
  nothing_left none w = (none, done)
  nothing_left (some tx) w = (some (view tx w), done)

  run_commands-Applied :
      (cs : List Command) (tx : Option ℕ) (s : State W)
      → IsFree (is_open tx) cs
      → Applied apply cs
          (seen_here tx s.world)
          (run_commands H dx tx cs s).0
          (contents (run_commands H dx tx cs s).1.world)
  unfolding run_commands
  run_commands-Applied [] tx s free = nothing_left tx s.world
  run_commands-Applied (c ∷ cs) tx s free =
      then-Applied c cs (seen_here tx s.world) (run_command H dx tx c s).0
        (run_command H dx tx c s).1 (λ tx' s' f. run_commands-Applied cs tx' s' f)
        (run_command-Led tx c cs s free)

  -- Over a database that keeps the promises of `IsSql`, a script that begins no transaction and makes no
  -- query while a transaction is open does what it says: where `DBX.Batch` succeeds, what others see is
  -- what its commands make of it, one after another, where a statement within a transaction has its effect
  -- once, at the commit, and one outside of a transaction once at least and at most ten times, as
  -- `DBX.exec` tries again where a reply is lost. Where it fails or panics, the same holds of a first part
  -- of the script, and a write outside of a transaction that failed may have had its effect up to ten
  -- times.
  pub batch-Applied :
      (buffer : Bytes) (s : State W)
      → IsFree false (script buffer)
      → Applied apply
          (script buffer)
          (contents s.world, none)
          (batch H dx buffer s).0
          (contents (batch H dx buffer s).1.world)
  batch-Applied buffer s free =
      rw (batch-script H dx buffer s) (run_commands-Applied (script buffer) none s free)
