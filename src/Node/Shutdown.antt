-- ===== src/Node/Shutdown.antt =====
-- `StartServer` of cluster.go while it serves and shuts down, as a step relation: the goroutine that
-- waits for a signal, and the handlers in progress. The channel `ch` has no buffer, so the handler of
-- `/shutdown` waits in `ch <- unix.SIGQUIT` until the first goroutine receives, which it does once.
pub mod Stops
use dqlited.Base.{
  ℕ, zero, suc, ◌+◌, ◌≤◌, ◌<◌, ◌≡◌, ◌≢◌, refl, Bool, true, false, not, Bytes, codes, arith,
  if◌then◌else◌,
}
use dqlited.Text.{equal}

-- Where the first goroutine stands: in `<-ch`, before `listener.Close()`, before `s.Shutdown`, in it,
-- before `dq.Close()`, and behind it.
pub data Main : Type 0 where
  waiting signalled unlistened draining drained closed : Main

-- `running` counts the handlers that run on, and `sending` those in `ch <- unix.SIGQUIT`.
pub record Serving : Type 0 where
  pub main : Main
  pub running : ℕ
  pub sending : ℕ

-- What the handler of `/shutdown` does for a method: it sends, or it answers and ends.
unfoldable pub sends : Bytes → Bool
sends method = if not (equal method (codes "DELETE")) then false else true

-- Until `s.Shutdown` is done requests arrive: at the listener, at a connection that is kept, and, while
-- `s.Shutdown` waits, at a connection that was accepted and has had no request yet.
unfoldable pub takes_requests : Main → Bool
takes_requests waiting = true
takes_requests signalled = true
takes_requests unlistened = true
takes_requests draining = true
takes_requests m = false

-- `s.Shutdown` ends when no handler is in progress.
pub data Step (s t : Serving) : Type 0 where
  -- a request to the handler of `/shutdown` that sends, and any other request
  ask :
      (method : Bytes)
      → sends method ≡ true
      → takes_requests s.main ≡ true
      → t ≡ record s { sending = s.sending + 1 }
      → Step s t
  arrive : takes_requests s.main ≡ true → t ≡ record s { running = s.running + 1 } → Step s t
  finish : (n : ℕ) → s.running ≡ suc n → t ≡ record s { running = n } → Step s t
  -- a signal of the system, or one that a handler sends
  signal : s.main ≡ waiting → t ≡ record s { main = signalled } → Step s t
  receive :
      (n : ℕ)
      → s.main ≡ waiting
      → s.sending ≡ suc n
      → t ≡ record s { main = signalled; sending = n; running = s.running + 1 }
      → Step s t
  close_listener : s.main ≡ signalled → t ≡ record s { main = unlistened } → Step s t
  shut_down : s.main ≡ unlistened → t ≡ record s { main = draining } → Step s t
  drain :
      s.main ≡ draining → s.running ≡ 0 → s.sending ≡ 0 → t ≡ record s { main = drained } → Step s t
  close_app : s.main ≡ drained → t ≡ record s { main = closed } → Step s t

pub data Reach (s : Serving) : Serving → Type 0 where
  here : Reach s s
  next : {t u : Serving} → Reach s t → Step t u → Reach s u

abbrev pub started : Serving
started = record { main = waiting; running = 0; sending = 0 }

-- No handler is in progress when `dq.Close()` is called, and behind it.
abbrev pub IsQuiet : Main → ℕ → ℕ → Type 0
IsQuiet drained running sending = (running ≡ 0) × (sending ≡ 0)
IsQuiet closed running sending = (running ≡ 0) × (sending ≡ 0)
IsQuiet m running sending = Unit

abbrev IsSafe : Serving → Type 0
IsSafe s = IsQuiet s.main s.running s.sending

Step-IsSafe : {s t : Serving} → Step s t → IsSafe s → IsSafe t
unfolding takes_requests
Step-IsSafe (ask method d o e) h = ground arith
Step-IsSafe (arrive o e) h = ground arith
Step-IsSafe (finish n r e) h = ground arith
Step-IsSafe (signal m e) h = ground arith
Step-IsSafe (receive n m r e) h = ground arith
Step-IsSafe (close_listener m e) h = ground arith
Step-IsSafe (shut_down m e) h = ground arith
Step-IsSafe (drain m r q e) h = ground arith
Step-IsSafe (close_app m e) h = ground arith

-- The application is closed only when no handler is in progress, and none begins behind that.
pub Reach-IsQuiet : {s : Serving} → Reach started s → IsQuiet s.main s.running s.sending
Reach-IsQuiet here = tt
Reach-IsQuiet (next r st) = Step-IsSafe st (Reach-IsQuiet r)

-- How many handlers can still send.
abbrev pub room : Main → ℕ
room waiting = 1
room m = 0

Step-room : {s t : Serving} → Step s t → room s.main < s.sending → room t.main < t.sending
unfolding takes_requests
Step-room (ask method d o e) h = ground arith
Step-room (arrive o e) h = ground arith
Step-room (finish n r e) h = ground arith
Step-room (signal m e) h = ground arith
Step-room (receive n m r e) h = ground arith
Step-room (close_listener m e) h = ground arith
Step-room (shut_down m e) h = ground arith
Step-room (drain m r q e) h = ground arith
Step-room (close_app m e) h = ground arith

Reach-IsSafe : {s t : Serving} → Reach s t → IsSafe s → IsSafe t
Reach-IsSafe here h = h
Reach-IsSafe (next r st) h = Step-IsSafe st (Reach-IsSafe r h)

Reach-room : {s t : Serving} → Reach s t → room s.main < s.sending → room t.main < t.sending
Reach-room here h = h
Reach-room (next r st) h = Step-room st (Reach-room r h)

room-closed :
    (m : Main) (running sending : ℕ) → IsQuiet m running sending → room m < sending → m ≢ closed
room-closed closed running sending h lt = absurd (omega arith)
room-closed waiting running sending h lt = λ p. cc
room-closed signalled running sending h lt = λ p. cc
room-closed unlistened running sending h lt = λ p. cc
room-closed draining running sending h lt = λ p. cc
room-closed drained running sending h lt = λ p. cc

-- Once more handlers send than can still be received, which is one before a signal and none behind
-- it, the application is never closed: `s.Shutdown` waits for these handlers for ever.
pub shutdown_stuck :
    {s t : Serving} → Reach started s → room s.main < s.sending → Reach s t → t.main ≢ closed
shutdown_stuck {t = t} r h r' =
    room-closed t.main t.running t.sending (Reach-IsSafe r' (Reach-IsQuiet r)) (Reach-room r' h)

Reach-trans : {s t u : Serving} → Reach s t → Reach t u → Reach s u
Reach-trans r here = r
Reach-trans r (next r' st) = next (Reach-trans r r') st

step : {s t u : Serving} → Step s t → Reach t u → Reach s u
step st r = Reach-trans (next here st) r

abbrev at : Main → ℕ → ℕ → Serving
at m running sending = record { main = m; running = running; sending = sending }

-- The server has stopped, with nothing in progress.
abbrev pub stopped : Serving
stopped = at closed 0 0

finish_all : (n q : ℕ) → Reach (at draining n q) (at draining 0 q)
finish_all zero q = here
finish_all (suc n) q = step (finish n refl refl) (finish_all n q)

from_drained : Reach (at drained 0 0) stopped
from_drained = next here (close_app refl refl)

from_draining : (n : ℕ) → Reach (at draining n 0) stopped
from_draining n = Reach-trans (finish_all n 0) (step (drain refl refl refl refl) from_drained)

from_unlistened : (n : ℕ) → Reach (at unlistened n 0) stopped
from_unlistened n = step (shut_down refl refl) (from_draining n)

from_signalled : (n : ℕ) → Reach (at signalled n 0) stopped
from_signalled n = step (close_listener refl refl) (from_unlistened n)

from_waiting : (n q : ℕ) → q ≤ 1 → Reach (at waiting n q) stopped
from_waiting n zero h = step (signal refl refl) (from_signalled n)
from_waiting n (suc zero) h = step (receive 0 refl refl refl) (from_signalled (n + 1))
from_waiting n (suc (suc q)) h = absurd (omega arith)

from_main : (m : Main) (n q : ℕ) → IsQuiet m n q → q ≤ room m → Reach (at m n q) stopped
from_main waiting n q h lt = from_waiting n q lt
from_main signalled n zero h lt = from_signalled n
from_main unlistened n zero h lt = from_unlistened n
from_main draining n zero h lt = from_draining n
from_main drained zero zero h lt = from_drained
from_main closed zero zero h lt = here
from_main signalled n (suc q) h lt = absurd (omega arith)
from_main unlistened n (suc q) h lt = absurd (omega arith)
from_main draining n (suc q) h lt = absurd (omega arith)
from_main drained n (suc q) h lt = absurd (omega arith)
from_main closed n (suc q) h lt = absurd (omega arith)
from_main drained (suc n) zero h lt = absurd (omega arith)
from_main closed (suc n) zero h lt = absurd (omega arith)

-- As long as no more handlers send than can still be received, the server can run on to where the
-- application is closed and no handler is in progress.
shutdown_completes : (s : Serving) → Reach started s → s.sending ≤ room s.main → Reach s stopped
shutdown_completes s r h = from_main s.main s.running s.sending (Reach-IsQuiet r) h
