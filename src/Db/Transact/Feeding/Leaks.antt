-- ===== src/Db/Transact/Feeding/Leaks.antt =====
-- What a statement that fails does to the goroutine of `liner`.
use dqlited.Base.{ℕ, true, false, ◌≡◌, refl, List, ◌∷◌, ◌++◌, Bytes}
use dqlited.Go.{Outcome, fail, value, error, Host}
use dqlited.Db.Transact.Ends.{Runs}
use dqlited.Db.Transact.Feeding.{
  Producer, scanning, offering, Consumer, receiving, left, Feed, Step, scan, scan_end, scan_fails,
  pass, close_channel, close_reader, begin_value, begin_error, range_end, exec_value, exec_error,
  roll_back, commit, close_file, Run, here, next, started,
}

module _ {W E : Type 0} (H : Host W E) where
  abbrev at : Producer → Consumer E → W → Feed W E
  at p c w = record { producer = p; consumer = c; world = w; open_file = true }

  -- The lines up to the one that fails are passed on and executed.
  passing :
      {s : Feed W E} {tx : ℕ} {before : List Bytes} {w w' : W} (others : List Bytes)
      → Runs H tx before w w'
      → {k : ℕ} → Run H s k (at (scanning (before ++ others)) (receiving tx) w)
      → (j : ℕ) × Run H s j (at (scanning others) (receiving tx) w')
  passing others Runs.nil {k} r = (k, r)
  passing {tx = tx} others (Runs.cons {s = line} {statements} {w' = w₁} {r = a} x rs) {k} r =
      passing others rs (
        next
          (next (next r (scan line (statements ++ others) refl refl))
            (pass tx line (statements ++ others) refl refl refl))
          (exec_value tx line w₁ a refl x refl))

  -- Nobody receives any more, and the goroutine has a line to send.
  stuck :
      {s t : Feed W E} (line : Bytes) (lines : List Bytes) (o : Outcome (Unit {0}) E)
      → s.producer ≡ offering line lines
      → s.consumer ≡ left o
      → Step H s t
      → ⊥
  stuck line lines o p c (scan a b q e) = cc
  stuck line lines o p c (scan_end q e) = cc
  stuck line lines o p c (scan_fails a q r e) = cc
  stuck line lines o p c (pass tx a b q d e) = cc
  stuck line lines o p c (close_channel q e) = cc
  stuck line lines o p c (close_reader q e) = cc
  stuck line lines o p c (begin_value tx w d x e) = cc
  stuck line lines o p c (begin_error x w d y e) = cc
  stuck line lines o p c (range_end tx q d e) = cc
  stuck line lines o p c (exec_value tx a w r d x e) = cc
  stuck line lines o p c (exec_error tx a w x d y e) = cc
  stuck line lines o p c (roll_back tx x d e) = cc
  stuck line lines o p c (commit tx d e) = cc
  stuck line lines o p c (close_file r d e) = cc

  -- No step can follow.
  abbrev pub IsBlocked : Feed W E → Type 0
  IsBlocked t = (u : Feed W E) → ¬ Step H t u

  -- Where the transaction begins, the first lines succeed, and a line behind them fails that is not
  -- the last one, the goroutine of `liner` may have read the next line: then `loadFile` leaves with
  -- the error, and the goroutine waits for ever to send that line.
  pub liner_leaks :
      (tx : ℕ) (before : List Bytes) (bad line : Bytes) (others : List Bytes) (w w₀ w₁ w₂ : W)
      (e : E)
      → H.begin w ≡ (value tx, w₀)
      → Runs H tx before w₀ w₁
      → H.tx_exec tx bad w₁ ≡ (error e, w₂)
      → (t : Feed W E) × (k : ℕ) × Run H (started (before ++ bad ∷ line ∷ others) w) k t
        × (t.consumer ≡ left (fail e))
        × (t.producer ≡ offering line others)
        × IsBlocked t
  liner_leaks tx before bad line others w w₀ w₁ w₂ e b rs x =
      let (k, r) = passing (bad ∷ line ∷ others) rs (next here (begin_value tx w₀ refl b refl)) in
      (
        record {
          producer = offering line others;
          consumer = left (fail e);
          world = (H.tx_rollback tx w₂).1;
          open_file = false;
        },
        _,
        next
            (next
              (next
                (next
                  (next (next r (scan bad (line ∷ others) refl refl))
                    (pass tx bad (line ∷ others) refl refl refl))
                  (scan line others refl refl))
                (exec_error tx bad w₂ e refl x refl))
              (roll_back tx e refl refl))
            (close_file (fail e) refl refl),
        refl,
        refl,
        λ u st. stuck line others (fail e) refl refl st,
      )
