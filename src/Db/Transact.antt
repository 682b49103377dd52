-- ===== src/Db/Transact.antt =====
-- `transact` of db.go: all statements of a channel in one transaction. The channel is the list of
-- what it yields; the log is left out.
pub mod Ends
pub mod Atomic
pub mod Feeding
use dqlited.Base.{ℕ, List, [], ◌∷◌, Bytes}
use dqlited.Go.{Act, Outcome, ok, fail, Reply, value, error, Host}
use dqlited.Db.{State}

module _ {W E : Type 0} (H : Host W E) where
  open H use {begin, tx_exec, tx_commit, tx_rollback}

  -- The loop over the channel, and behind it the commit, whose error is dropped.
  unfoldable pub transact_loop : ℕ → List Bytes → W → Outcome (Unit {0}) E × W
  transact_loop tx [] w = (ok tt, (tx_commit tx w).1)
  transact_loop tx (s ∷ statements) w =
      let (r, w') = tx_exec tx s w in
      elim r [
        | value _ ↦ transact_loop tx statements w'
        | error e ↦ (fail e, (tx_rollback tx w').1)
      ]

  abbrev pub transact_begun : List Bytes → Reply ℕ E × W → Outcome (Unit {0}) E × W
  transact_begun statements (value tx, w) = transact_loop tx statements w
  transact_begun statements (error e, w) = (fail e, w)

  unfoldable pub transact : List Bytes → Act (State W) E (Unit {0})
  transact statements s =
      let (o, w) = transact_begun statements (begin s.world) in (o, record s { world = w })
