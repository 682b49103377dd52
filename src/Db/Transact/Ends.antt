-- ===== src/Db/Transact/Ends.antt =====
-- The three ways in which `transact` ends.
use dqlited.Base.{ℕ, ◌≡◌, refl, ap, ◌∙◌, List, [], ◌∷◌, ◌++◌, Bytes, arith, inl, inr}
use dqlited.Go.{Outcome, ok, fail, value, error, Host, ExecResult, Reply-cases}
use dqlited.Db.{State}
use dqlited.Db.Transact.{transact_loop, transact}

module _ {W E : Type 0} (H : Host W E) where
  open H use {begin, tx_exec, tx_commit, tx_rollback}

  -- All statements succeed in the transaction `tx`, in their order.
  pub data Runs (tx : ℕ) : List Bytes → W → W → Type 0 where
    nil : {w : W} → Runs tx [] w w
    cons :
        {s : Bytes} {statements : List Bytes} {w w' w'' : W} {r : ExecResult E}
        → tx_exec tx s w ≡ (value r, w')
        → Runs tx statements w' w''
        → Runs tx (s ∷ statements) w w''

  pub data LoopEnds (tx : ℕ) (statements : List Bytes) (w : W) (o : Outcome (Unit {0}) E) (w' : W)
      : Type 0 where
    -- all succeed, and the transaction is committed
    committed :
        {w₁ : W}
        → Runs tx statements w w₁
        → w' ≡ (tx_commit tx w₁).1
        → o ≡ ok tt
        → LoopEnds tx statements w o w'
    -- one fails: the transaction is rolled back, the statements behind it are not run, and the
    -- error is returned
    rolled_back :
        (before after : List Bytes) {bad : Bytes} {w₁ w₂ : W} {e : E}
        → statements ≡ before ++ bad ∷ after
        → Runs tx before w w₁
        → tx_exec tx bad w₁ ≡ (error e, w₂)
        → w' ≡ (tx_rollback tx w₂).1
        → o ≡ fail e
        → LoopEnds tx statements w o w'

  pub data Ends (statements : List Bytes) (w : W) (o : Outcome (Unit {0}) E) (w' : W) : Type 0 where
    not_begun : {e : E} → begin w ≡ (error e, w') → o ≡ fail e → Ends statements w o w'
    begun :
        {tx : ℕ} {w₁ : W}
        → begin w ≡ (value tx, w₁)
        → LoopEnds tx statements w₁ o w'
        → Ends statements w o w'

  LoopEnds-cons :
      {tx : ℕ} {s : Bytes} {statements : List Bytes} {w w' w'' : W} {r : ExecResult E}
      {o : Outcome (Unit {0}) E}
      → tx_exec tx s w ≡ (value r, w')
      → LoopEnds tx statements w' o w''
      → LoopEnds tx (s ∷ statements) w o w''
  LoopEnds-cons x (committed rs c e) = committed (cons x rs) c e
  LoopEnds-cons {s} x (rolled_back before after i rs y b e) =
      rolled_back (s ∷ before) after (ap (◌∷◌ s) i) (cons x rs) y b e

  module _ (tx : ℕ) (s : Bytes) (statements : List Bytes) (w : W) where
    loop_value :
        (r : ExecResult E) (w' : W)
        → tx_exec tx s w ≡ (value r, w')
        → transact_loop H tx (s ∷ statements) w ≡ transact_loop H tx statements w'
    unfolding transact_loop
    loop_value r w' x = ground arith

    loop_error :
        (e : E) (w' : W)
        → tx_exec tx s w ≡ (error e, w')
        → transact_loop H tx (s ∷ statements) w ≡ (fail e, (tx_rollback tx w').1)
    unfolding transact_loop
    loop_error e w' x = ground arith

  transact_loop-LoopEnds :
      (tx : ℕ) (statements : List Bytes) (w : W)
      → LoopEnds tx statements w
          (transact_loop H tx statements w).0
          (transact_loop H tx statements w).1
  transact_loop-LoopEnds tx [] w = unfold transact_loop in committed nil refl refl
  transact_loop-LoopEnds tx (s ∷ statements) w = elim (Reply-cases (tx_exec tx s w)) [
    | inl (r, w', x) ↦
        rw (loop_value tx s statements w r w' x)
          (LoopEnds-cons x (transact_loop-LoopEnds tx statements w'))
    | inr (e, w', x) ↦
        rw (loop_error tx s statements w e w' x) (rolled_back [] statements refl nil x refl refl)
  ]

  module _ (statements : List Bytes) (s : State W) where
    begin_value :
        (tx : ℕ) (w : W)
        → begin s.world ≡ (value tx, w)
        → transact H statements s ≡ (
          (transact_loop H tx statements w).0,
          record s { world = (transact_loop H tx statements w).1 },
        )
    unfolding transact
    begin_value tx w x = ground arith

    begin_error :
        (e : E) (w : W)
        → begin s.world ≡ (error e, w)
        → transact H statements s ≡ (fail e, record s { world = w })
    unfolding transact
    begin_error e w x = ground arith

    -- `transact` ends in one of the ways of `Ends`: the transaction cannot be begun, it is begun and
    -- committed behind all statements, or it is begun and rolled back at the first statement that
    -- fails. Nothing else of the state changes.
    pub transact-Ends :
        Ends statements s.world (transact H statements s).0 (transact H statements s).1.world
        × ((transact H statements s).1 ≡ record s { world = (transact H statements s).1.world })
    transact-Ends = elim (Reply-cases (begin s.world)) [
      | inl (tx, w, x) ↦
          rw (begin_value tx w x) (begun x (transact_loop-LoopEnds tx statements w), refl)
      | inr (e, w, x) ↦ rw (begin_error e w x) (not_begun x refl, refl)
    ]

  loop_commit :
      {tx : ℕ} {statements : List Bytes} {w w' : W}
      → Runs tx statements w w'
      → transact_loop H tx statements w ≡ (ok tt, (tx_commit tx w').1)
  loop_commit nil = unfold transact_loop in refl
  loop_commit {tx} (cons {s} {statements} {w} {w' = v} {r = r} x rs) =
      loop_value tx s statements w r v x ∙ loop_commit rs

  -- If all statements succeed, `transact` reports success, also where the commit fails: its error is
  -- lost.
  transact_drops_commit_error :
      (statements : List Bytes) (s : State W) (tx : ℕ) (w w' w'' : W) (e : E)
      → begin s.world ≡ (value tx, w)
      → Runs tx statements w w'
      → tx_commit tx w' ≡ (error e, w'')
      → transact H statements s ≡ (ok tt, record s { world = w'' })
  transact_drops_commit_error statements s tx w w' w'' e x rs c =
      rw (begin_value statements s tx w x, loop_commit rs, c)
