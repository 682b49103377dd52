-- ===== src/Db/Transact/Atomic.antt =====
-- `transact` against an abstract database: contents that a transaction changes at its commit.
use dqlited.Base.{ℕ, ◌≡◌, refl, ap, ◌∙◌, ◌⊎◌, List, [], ◌∷◌, Bytes, inl, inr}
use dqlited.Go.{Outcome, ok, fail, panic, value, error, Host, ExecResult, Reply-cases}
use dqlited.Db.{State}
use dqlited.Db.Transact.{transact}
use dqlited.Db.Transact.Ends.{Runs, LoopEnds, Ends, transact-Ends}

-- The effects of all statements, in their order.
abbrev pub apply_all : {S : Type 0} → (Bytes → S → S) → List Bytes → S → S
apply_all apply [] c = c
apply_all apply (s ∷ statements) c = apply_all apply statements (apply s c)

module _ {W E : Type 0} (H : Host W E) where
  open H use {begin, tx_exec, tx_commit, tx_rollback}

  -- The last thing done was a commit that failed.
  abbrev pub CommitFailed : W → Type 0
  CommitFailed w' = (tx : ℕ) × (w : W) × (e : E) × (tx_commit tx w ≡ (error e, w'))

  module _ {S : Type 0} where
    -- What `database/sql` promises of a transaction: `contents` is what others see, `view` what the
    -- transaction sees, and `apply` the effect of a statement. A failed begin, statement or commit, and a
    -- rollback, leave the contents alone.
    pub record IsDatabase (contents : W → S) (view : ℕ → W → S) (apply : Bytes → S → S)
        : Type 0 where
      pub begin_value :
          (w w' : W) (tx : ℕ)
          → begin w ≡ (value tx, w')
          → (contents w' ≡ contents w) × (view tx w' ≡ contents w)
      pub begin_error : (w w' : W) (e : E) → begin w ≡ (error e, w') → contents w' ≡ contents w
      pub exec_value :
          (tx : ℕ) (s : Bytes) (w w' : W) (r : ExecResult E)
          → tx_exec tx s w ≡ (value r, w')
          → (contents w' ≡ contents w) × (view tx w' ≡ apply s (view tx w))
      pub exec_error :
          (tx : ℕ) (s : Bytes) (w w' : W) (e : E)
          → tx_exec tx s w ≡ (error e, w')
          → contents w' ≡ contents w
      pub commit_value :
          (tx : ℕ) (w w' : W) → tx_commit tx w ≡ (value tt, w') → contents w' ≡ view tx w
      pub commit_error :
          (tx : ℕ) (w w' : W) (e : E) → tx_commit tx w ≡ (error e, w') → contents w' ≡ contents w
      pub rollback : (tx : ℕ) (w : W) → contents (tx_rollback tx w).1 ≡ contents w

    -- All effects or none: all on success, if the commit does not fail, and none on an error.
    abbrev pub IsAtomic : Outcome (Unit {0}) E → W → S → S → S → Type 0
    IsAtomic (ok _) w' all before after = (after ≡ all) ⊎ (CommitFailed w' × (after ≡ before))
    IsAtomic (fail e) w' all before after = after ≡ before
    IsAtomic panic w' all before after = ⊥

    module _ (contents : W → S) (view : ℕ → W → S) (apply : Bytes → S → S)
        (d : IsDatabase contents view apply) where
      Runs-view :
          {tx : ℕ} {statements : List Bytes} {w w' : W}
          → Runs H tx statements w w'
          → (contents w' ≡ contents w) × (view tx w' ≡ apply_all apply statements (view tx w))
      Runs-view Runs.nil = (refl, refl)
      Runs-view {tx} (Runs.cons {s} {statements} {w} {w'} {r = r} x rs) =
          let (same, changed) = d.exec_value tx s w w' r x in
          let (same', changed') = Runs-view rs in
          (same' ∙ same, changed' ∙ ap (apply_all apply statements) changed)

      commit-cases :
          (tx : ℕ) (w w' : W)
          → w' ≡ (tx_commit tx w).1
          → (contents w' ≡ view tx w) ⊎ (CommitFailed w' × (contents w' ≡ contents w))
      commit-cases tx w w' e = elim (Reply-cases (tx_commit tx w)) [
        | inl (u, v, x) ↦
            let there : w' ≡ v = e ∙ ap (λ p. p.1) x in
            inl (ap contents there ∙ d.commit_value tx w v x)
        | inr (x', v, x) ↦
            let there : w' ≡ v = e ∙ ap (λ p. p.1) x in
            inr ((tx, w, x', rw there x), ap contents there ∙ d.commit_error tx w v x' x)
      ]

      LoopEnds-IsAtomic :
          {tx : ℕ} {statements : List Bytes} {w w' : W} {o : Outcome (Unit {0}) E} (c : S)
          → contents w ≡ c
          → view tx w ≡ c
          → LoopEnds H tx statements w o w'
          → IsAtomic o w' (apply_all apply statements c) c (contents w')
      LoopEnds-IsAtomic {tx} {statements} {w} {w' = w'} c same seen
            (LoopEnds.committed {w₁} rs e o) =
          let (kept, changed) = Runs-view rs in
          rw o (elim (commit-cases tx w₁ w' e) [
            | inl there ↦ inl (there ∙ changed ∙ ap (apply_all apply statements) seen)
            | inr (f, still) ↦ inr (f, still ∙ kept ∙ same)
          ])
      LoopEnds-IsAtomic {tx} c same seen
            (LoopEnds.rolled_back before after {bad} {w₁} {w₂} {e = x} i rs y e o) =
          rw o (
            ap contents e
            ∙ d.rollback tx w₂
            ∙ d.exec_error tx bad w₁ w₂ x y
            ∙ (Runs-view rs).0
            ∙ same)

      -- Over a database that keeps the promises of `IsDatabase`, `transact` is atomic and does not panic:
      -- on an error the contents are what they were, and on success all statements are applied in their
      -- order, unless the commit failed, and then the contents are what they were too.
      pub transact-IsAtomic :
          (statements : List Bytes) (s : State W)
          → IsAtomic
              (transact H statements s).0
              (transact H statements s).1.world
              (apply_all apply statements (contents s.world))
              (contents s.world)
              (contents (transact H statements s).1.world)
      transact-IsAtomic statements s = ends (transact-Ends H statements s).0
        where
          ends :
              {o : Outcome (Unit {0}) E} {w' : W}
              → Ends H statements s.world o w'
              → IsAtomic o w'
                  (apply_all apply statements (contents s.world))
                  (contents s.world)
                  (contents w')
          ends (Ends.not_begun {e} x o) = rw o (d.begin_error s.world _ e x)
          ends (Ends.begun {tx} {w₁} x l) =
              let (same, seen) = d.begin_value s.world w₁ tx x in
              LoopEnds-IsAtomic (contents s.world) same seen l
