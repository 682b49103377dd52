-- ===== src/Db/Transact/Feeding.antt =====
-- `loadFile` with a single transaction as it runs: the goroutine of `liner` sends the lines of the file
-- over a channel with no buffer, and `transact` receives them. The goroutine of `lister` sends its
-- arguments in the same way.
pub mod Refines
pub mod Leaks
use dqlited.Base.{ℕ, Bool, true, false, ◌≡◌, List, [], ◌∷◌, Bytes, suc}
use dqlited.Go.{Outcome, ok, fail, value, error, Host, ExecResult}

-- Where the goroutine of `liner` stands: before `scanner.Scan()`, with the lines that it will still
-- find; in `c <- scanner.Text()`; before `close(c)`; before `r.Close()`; and behind it.
pub data Producer : Type 0 where
  scanning : List Bytes → Producer
  offering : Bytes → List Bytes → Producer
  closing closed ended : Producer

-- Where `loadFile` stands: before `db.Begin()`; in `range statements`; before `tx.Exec`; before
-- `tx.Rollback()`; before `tx.Commit()`; behind `transact`, before `f.Close()`; and behind that.
pub data Consumer (E : Type 0) : Type 0 where
  beginning : Consumer E
  receiving : ℕ → Consumer E
  executing : ℕ → Bytes → Consumer E
  refusing : ℕ → E → Consumer E
  committing : ℕ → Consumer E
  returned left : Outcome (Unit {0}) E → Consumer E

-- The two goroutines, the world, and whether the file is open.
pub record Feed (W E : Type 0) : Type 0 where
  pub producer : Producer
  pub consumer : Consumer E
  pub world : W
  pub open_file : Bool

-- The channel is closed.
abbrev pub IsClosed : Producer → Type 0
IsClosed closed = Unit
IsClosed ended = Unit
IsClosed p = ⊥

module _ {W E : Type 0} (H : Host W E) where
  open H use {begin, tx_exec, tx_commit, tx_rollback}

  pub data Step (s t : Feed W E) : Type 0 where
    -- the next line, which the scanner may have in its buffer already
    scan :
        (line : Bytes) (lines : List Bytes)
        → s.producer ≡ scanning (line ∷ lines)
        → t ≡ record s { producer = offering line lines }
        → Step s t
    scan_end : s.producer ≡ scanning [] → t ≡ record s { producer = closing } → Step s t
    -- a file that `loadFile` has closed ends the scan too
    scan_fails :
        (lines : List Bytes)
        → s.producer ≡ scanning lines
        → s.open_file ≡ false
        → t ≡ record s { producer = closing }
        → Step s t
    -- a line is sent and received at once
    pass :
        (tx : ℕ) (line : Bytes) (lines : List Bytes)
        → s.producer ≡ offering line lines
        → s.consumer ≡ receiving tx
        → t ≡ record s { producer = scanning lines; consumer = executing tx line }
        → Step s t
    close_channel : s.producer ≡ closing → t ≡ record s { producer = closed } → Step s t
    close_reader :
        s.producer ≡ closed → t ≡ record s { producer = ended; open_file = false } → Step s t
    begin_value :
        (tx : ℕ) (w : W)
        → s.consumer ≡ beginning
        → begin s.world ≡ (value tx, w)
        → t ≡ record s { consumer = receiving tx; world = w }
        → Step s t
    begin_error :
        (e : E) (w : W)
        → s.consumer ≡ beginning
        → begin s.world ≡ (error e, w)
        → t ≡ record s { consumer = returned (fail e); world = w }
        → Step s t
    range_end :
        (tx : ℕ)
        → IsClosed s.producer
        → s.consumer ≡ receiving tx
        → t ≡ record s { consumer = committing tx }
        → Step s t
    exec_value :
        (tx : ℕ) (line : Bytes) (w : W) (r : ExecResult E)
        → s.consumer ≡ executing tx line
        → tx_exec tx line s.world ≡ (value r, w)
        → t ≡ record s { consumer = receiving tx; world = w }
        → Step s t
    exec_error :
        (tx : ℕ) (line : Bytes) (w : W) (e : E)
        → s.consumer ≡ executing tx line
        → tx_exec tx line s.world ≡ (error e, w)
        → t ≡ record s { consumer = refusing tx e; world = w }
        → Step s t
    roll_back :
        (tx : ℕ) (e : E)
        → s.consumer ≡ refusing tx e
        → t ≡ record s { consumer = returned (fail e); world = (tx_rollback tx s.world).1 }
        → Step s t
    commit :
        (tx : ℕ)
        → s.consumer ≡ committing tx
        → t ≡ record s { consumer = returned (ok tt); world = (tx_commit tx s.world).1 }
        → Step s t
    close_file :
        (o : Outcome (Unit {0}) E)
        → s.consumer ≡ returned o
        → t ≡ record s { consumer = left o; open_file = false }
        → Step s t

  -- Runs by their length.
  pub data Run (s : Feed W E) : ℕ → Feed W E → Type 0 where
    here : Run s 0 s
    next : {k : ℕ} {t u : Feed W E} → Run s k t → Step t u → Run s (suc k) u

-- The file is open, and the goroutine has been started.
abbrev pub started : {W E : Type 0} → List Bytes → W → Feed W E
started lines w = record {
  producer = scanning lines;
  consumer = beginning;
  world = w;
  open_file = true;
}
