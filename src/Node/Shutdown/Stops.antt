-- ===== src/Node/Shutdown/Stops.antt =====
-- How long the server of cluster.go runs on when no request arrives, and where that ends.
use dqlited.Base.{ℕ, zero, suc, ◌+◌, ◌≤◌, ◌≡◌, refl, ◌⊎◌, inl, inr, arith}
use dqlited.Node.Shutdown.{
  Main, waiting, signalled, unlistened, draining, drained, closed, Serving, Step, ask, arrive,
  finish, signal, receive, close_listener, shut_down, drain, close_app, Reach, started, stopped,
  IsQuiet, Reach-IsQuiet,
}

-- A step that is no new request.
abbrev pub IsInternal : {s t : Serving} → Step s t → Type 0
IsInternal (ask method d o e) = ⊥
IsInternal (arrive o e) = ⊥
IsInternal st = Unit

-- A run of so many steps, with no new request.
pub data Run (s : Serving) : ℕ → Serving → Type 0 where
  rest : Run s 0 s
  more : {k : ℕ} {t u : Serving} → Run s k t → (st : Step t u) → IsInternal st → Run s (suc k) u

-- The steps that the first goroutine has before it.
abbrev pub left : Main → ℕ
left waiting = 5
left signalled = 4
left unlistened = 3
left draining = 2
left drained = 1
left closed = 0

-- No handler sends, and none is in progress behind `s.Shutdown`.
abbrev Idle : Serving → Type 0
Idle s = (s.sending ≡ 0) × IsQuiet s.main s.running s.sending

internal-Idle :
    {s t : Serving} (st : Step s t)
    → IsInternal st
    → Idle s
    → Idle t × (left t.main + t.running + 1 ≡ left s.main + s.running)
internal-Idle (ask method d o e) i h = absurd i
internal-Idle (arrive o e) i h = absurd i
internal-Idle (finish n r e) i h = ground arith
internal-Idle (signal m e) i h = ground arith
internal-Idle (receive n m r e) i h = ground arith
internal-Idle (close_listener m e) i h = ground arith
internal-Idle (shut_down m e) i h = ground arith
internal-Idle (drain m r q e) i h = ground arith
internal-Idle (close_app m e) i h = ground arith

Run-Idle :
    {s t : Serving} {k : ℕ}
    → Run s k t
    → Idle s
    → Idle t × (left t.main + t.running + k ≡ left s.main + s.running)
Run-Idle rest h = (h, omega arith)
Run-Idle (more r st i) h =
    let (h', e) = Run-Idle r h in let (h'', e') = internal-Idle st i h' in (h'', omega arith)

-- The server has stopped, or it can go on with no new request.
abbrev pub GoesOn : Serving → Type 0
GoesOn t = (t ≡ stopped) ⊎ ((u : Serving) × (st : Step t u) × IsInternal st)

goes_on :
    (m : Main) (n q : ℕ)
    → q ≡ 0
    → IsQuiet m n q
    → GoesOn (record { main = m; running = n; sending = q })
goes_on m n (suc q) e h = absurd (omega arith)
goes_on waiting n zero e h = inr (_, signal refl refl, tt)
goes_on signalled n zero e h = inr (_, close_listener refl refl, tt)
goes_on unlistened n zero e h = inr (_, shut_down refl refl, tt)
goes_on draining zero zero e h = inr (_, drain refl refl refl refl, tt)
goes_on draining (suc n) zero e h = inr (_, finish n refl refl, tt)
goes_on drained zero zero e h = inr (_, close_app refl refl, tt)
goes_on drained (suc n) zero e h = absurd (omega arith)
goes_on closed zero zero e h = inl refl
goes_on closed (suc n) zero e h = absurd (omega arith)

-- From a state of the server where no handler sends, and with no further requests, a run takes at
-- most one step for each request in progress and those that the first goroutine has before it,
-- five where it waits; and it can always go on, by a signal where it waits for one, until the
-- application is closed and no handler is in progress.
pub shutdown_terminates :
    {s t : Serving} {k : ℕ}
    → Reach started s
    → s.sending ≡ 0
    → Run s k t
    → (k ≤ left s.main + s.running) × GoesOn t
shutdown_terminates {s} {t} r q run =
    let (h, e) = Run-Idle run (q, Reach-IsQuiet r) in
    (omega arith, goes_on t.main t.running t.sending h.0 h.1)
