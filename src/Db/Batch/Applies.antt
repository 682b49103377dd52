-- ===== src/Db/Batch/Applies.antt =====
-- A script against an abstract database: what others see, what the open transaction sees, and the
-- effects of the statements, where a reply to a write outside of a transaction can get lost.
pub mod Scripts
use dqlited.Base.{
  ℕ, ◌+◌, ◌≤◌, ◌≡◌, ◌⊎◌, refl, ap, ◌∙◌, Bool, true, false, List, [], ◌∷◌, ◌++◌, Bytes, codes,
  Option, none, some, arith, inl, inr,
}
use dqlited.Text.{starts_with}
use dqlited.Go.{Outcome, ok, fail, panic, Host}
use dqlited.Db.Transact.Atomic.{IsDatabase}
use dqlited.Db.Exec.Repeats.{repeated, IsLossy}
use dqlited.Db.Batch.Commands.{Command, begin, commit, run}

abbrev pub is_select : Bytes → Bool
is_select stmt = starts_with stmt (codes "SELECT")

-- A script that wants one connection only: while a transaction is open, it begins no other one and makes
-- no query. `getDB` allows one connection, which an open transaction holds, so `tx.Begin` and `db.Query`
-- would wait for ever.
abbrev pub IsFree : Bool → List Command → Type 0
IsFree opened [] = Unit
IsFree false (begin ∷ cs) = IsFree true cs
IsFree true (begin ∷ cs) = ⊥
IsFree opened (commit ∷ cs) = IsFree false cs
IsFree false (run line stmt ∷ cs) = IsFree false cs
IsFree true (run line stmt ∷ cs) = (is_select stmt ≡ false) × IsFree true cs

module _ {S : Type 0} (apply : Bytes → S → S) where
  -- How commands that succeed change what others see and what the open transaction sees. A write within
  -- a transaction has its effect once, and one outside of it once at least and at most ten times.
  pub data Applies : S × Option S → List Command → S × Option S → Type 0 where
    done : {a : S × Option S} → Applies a [] a
    opens :
        {c : S} {cs : List Command} {b : S × Option S}
        → Applies (c, some c) cs b
        → Applies (c, none) (begin ∷ cs) b
    closes :
        {c v : S} {cs : List Command} {b : S × Option S}
        → Applies (v, none) cs b
        → Applies (c, some v) (commit ∷ cs) b
    reads :
        {c : S} {line stmt : Bytes} {cs : List Command} {b : S × Option S}
        → is_select stmt ≡ true
        → Applies (c, none) cs b
        → Applies (c, none) (run line stmt ∷ cs) b
    changes :
        {c v : S} {line stmt : Bytes} {cs : List Command} {b : S × Option S}
        → is_select stmt ≡ false
        → Applies (c, some (apply stmt v)) cs b
        → Applies (c, some v) (run line stmt ∷ cs) b
    writes :
        {c : S} {line stmt : Bytes} {cs : List Command} {b : S × Option S} (k : ℕ)
        → is_select stmt ≡ false
        → 1 ≤ k
        → k ≤ 10
        → Applies (repeated k (apply stmt) c, none) cs b
        → Applies (c, none) (run line stmt ∷ cs) b

  -- Where a script stops: nothing more has changed, or the next command is a write outside of a
  -- transaction, which failed and may have had its effect up to ten times.
  abbrev pub Stopped : S × Option S → List Command → S → Type 0
  Stopped (c, v) cs c' =
      (c' ≡ c)
      ⊎ ((line : Bytes) × (stmt : Bytes) × (rest : List Command) × (k : ℕ) × (cs
            ≡ run line stmt ∷ rest)
          × (v ≡ none)
          × (is_select stmt ≡ false)
          × (k ≤ 10)
          × (c' ≡ repeated k (apply stmt) c))

  -- What others see behind a script: on success all commands have been applied, and on a failure those
  -- of a first part, and the next one perhaps.
  abbrev pub Applied : {A E : Type 0} → List Command → S × Option S → Outcome A E → S → Type 0
  Applied cs a (ok _) c' = (v : Option S) × Applies a cs (c', v)
  Applied cs a o c' =
      (first others : List Command) × (b : S × Option S) × (cs ≡ first ++ others)
      × Applies a first b
      × Stopped b others c'

module _ {W E S : Type 0} (H : Host W E) (contents : W → S) (view : ℕ → W → S)
    (apply : Bytes → S → S) where
  -- Transactions keep their promises, replies to other writes can get lost, and queries change nothing.
  pub record IsSql : Type 0 where
    pub transactions : IsDatabase H contents view apply
    pub alone : IsLossy H contents apply
    pub query_contents : (q : Bytes) (w : W) → contents (H.query q w).1 ≡ contents w

  -- What is seen of the world.
  abbrev pub seen : Option ℕ → W → S × Option S
  seen none w = (contents w, none)
  seen (some tx) w = (contents w, some (view tx w))
