-- ===== src/Db/Exec/Pauses.antt =====
-- How often `DBX.exec` tries, and how long it pauses, by two counters of the outside world.
use dqlited.Base.{ℕ, suc, ◌+◌, ◌*◌, ◌^◌, ◌≤◌, ◌≡◌, ap, false, Bytes, Option, arith}
use native.Mathlib.Nat.{pow-suc, pow-le-pow_right}
use dqlited.Go.{Outcome, Host, ExecResult, background}
use dqlited.Db.{State}
use dqlited.Db.Exec.{exec, retry_limit, millisecond}
use dqlited.Db.Exec.Attempts.{
  Failures, none_yet, again, Ends, written, refused, exhausted, exec-Ends,
}

-- A measure of the world that counts the calls of `Exec` and adds up the pauses.
pub record IsMeter {W E : Type 0} (H : Host W E) (calls slept : W → ℕ) : Type 0 where
  pub calls-exec : (q : Bytes) (w : W) → calls (H.exec_context background q w).1 ≡ calls w + 1
  pub slept-exec : (q : Bytes) (w : W) → slept (H.exec_context background q w).1 ≡ slept w
  pub calls-sleep : (d : ℕ) (w : W) → calls (H.sleep d w) ≡ calls w
  pub slept-sleep : (d : ℕ) (w : W) → slept (H.sleep d w) ≡ slept w + d

module _ {W E : Type 0} (H : Host W E) (calls slept : W → ℕ) (m : IsMeter H calls slept) where
  Failures-meter :
      {query : Bytes} {n delay : ℕ} {last final : Option E} {w w' : W}
      → Failures H query n delay last w final w'
      → (calls w' ≡ calls w + n) × (slept w' + delay ≡ slept w + delay * 2 ^ n)
  Failures-meter none_yet = (omega arith, omega arith)
  Failures-meter {query} (again {n} {delay} {w = w} {w' = w'} x f fs) =
      let (counted, paused) = Failures-meter fs in
      let one_call : calls w' ≡ calls w + 1 = rw x at (m.calls-exec query w) in
      let no_pause : slept w' ≡ slept w = rw x at (m.slept-exec query w) in
      let double : delay * 2 ^ suc n ≡ (delay + delay) * 2 ^ n =
        omega (arith, ap (λ (t : ℕ). delay * t) (pow-suc 2 n)) in
      (
        omega (arith, m.calls-sleep delay w', one_call, counted),
        omega (arith, m.slept-sleep delay w', no_pause, double, paused),
      )

  Ends-meter :
      {query : Bytes} {last : Option E} {w w' : W} {o : Outcome (Option (ExecResult E)) E}
      → Ends H query retry_limit millisecond last w o w'
      → (1 + calls w ≤ calls w')
        × (calls w' ≤ calls w + 10)
        × (slept w' ≤ slept w + 1023 * millisecond)
  Ends-meter {query} {w' = w'} (written {k} {before = b} lt fs x r) =
      let (counted, paused) = Failures-meter fs in
      let short : 2 ^ k ≤ 2 ^ 9 =
        pow-le-pow_right {n = 2} (omega arith) {i = k} {j = 9} (omega arith) in
      let one_call : calls w' ≡ calls b + 1 = rw x at (m.calls-exec query b) in
      let no_pause : slept w' ≡ slept b = rw x at (m.slept-exec query b) in omega arith
  Ends-meter {query} {w' = w'} (refused {k} {before = b} lt fs x f r) =
      let (counted, paused) = Failures-meter fs in
      let short : 2 ^ k ≤ 2 ^ 9 =
        pow-le-pow_right {n = 2} (omega arith) {i = k} {j = 9} (omega arith) in
      let one_call : calls w' ≡ calls b + 1 = rw x at (m.calls-exec query b) in
      let no_pause : slept w' ≡ slept b = rw x at (m.slept-exec query b) in omega arith
  Ends-meter (exhausted fs r) = let (counted, paused) = Failures-meter fs in omega arith

  -- By counters that follow the calls and the pauses, `DBX.exec` with the breaker closed calls the
  -- database at least once and at most ten times, and its pauses add up to at most 1023
  -- milliseconds.
  pub exec-meter :
      (query : Bytes) (s : State W)
      → s.disabled ≡ false
      → (1 + calls s.world ≤ calls (exec H query s).1.world)
        × (calls (exec H query s).1.world ≤ calls s.world + 10)
        × (slept (exec H query s).1.world ≤ slept s.world + 1023 * millisecond)
  exec-meter query s on = Ends-meter (exec-Ends H query s on).0
