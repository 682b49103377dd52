-- ===== src/Db/Exec/Repeats.antt =====
-- How often a write of `DBX.exec` takes effect, where a reply can get lost.
use dqlited.Base.{
  ℕ, zero, suc, ◌≤◌, ◌<◌, ◌≡◌, refl, ap, ◌∙◌, ◌⊎◌, true, false, Bytes, Option, none, some, arith,
  inl, inr,
}
use dqlited.Go.{Outcome, ok, fail, panic, value, error, Host, ExecResult, background}
use dqlited.Db.{State}
use dqlited.Db.Exec.{is_sql_failure, exec, millisecond}
use dqlited.Db.Exec.Attempts.{
  Failures, none_yet, again, Ends, written, refused, exhausted, exec-Ends,
}

-- A function so many times.
abbrev pub repeated : {S : Type 0} → ℕ → (S → S) → S → S
repeated zero f c = c
repeated (suc n) f c = repeated n f (f c)

module _ {W E S : Type 0} (H : Host W E) (contents : W → S) (apply : Bytes → S → S) where
  open H use {exec_context, sleep}

  -- A write that is answered has taken effect. One that ends in an error of SQL has not, and one that
  -- ends in another error, such as a lost connection, may have.
  pub record IsLossy : Type 0 where
    pub answered :
        (q : Bytes) (w w' : W) (r : ExecResult E)
        → exec_context background q w ≡ (value r, w')
        → contents w' ≡ apply q (contents w)
    pub rejected :
        (q : Bytes) (w w' : W) (e : E)
        → exec_context background q w ≡ (error e, w')
        → is_sql_failure H e ≡ true
        → contents w' ≡ contents w
    pub lost :
        (q : Bytes) (w w' : W) (e : E)
        → exec_context background q w ≡ (error e, w')
        → is_sql_failure H e ≡ false
        → (contents w' ≡ contents w) ⊎ (contents w' ≡ apply q (contents w))
    pub sleeps : (d : ℕ) (w : W) → contents (sleep d w) ≡ contents w

  -- From some contents to others by at most so many effects.
  abbrev pub Repeats : Bytes → ℕ → S → S → Type 0
  Repeats q n c c' = (k : ℕ) × (k ≤ n) × (c' ≡ repeated k (apply q) c)

  Repeats-suc : (q : Bytes) (n : ℕ) (c c' : S) → Repeats q n c c' → Repeats q (suc n) c c'
  Repeats-suc q n c c' (k, le, e) = (k, omega arith, e)

  Repeats-apply :
      (q : Bytes) (n : ℕ) (c c' : S) → Repeats q n (apply q c) c' → Repeats q (suc n) c c'
  Repeats-apply q n c c' (k, le, e) = (suc k, omega arith, e)

  -- What a result says of the contents: a success means one effect at least.
  abbrev pub AtLeastOnce : Bytes → Outcome (Option (ExecResult E)) E → S → S → Type 0
  AtLeastOnce q (ok r) c c' = (k : ℕ) × (1 ≤ k) × (k ≤ 10) × (c' ≡ repeated k (apply q) c)
  AtLeastOnce q (fail e) c c' = Repeats q 10 c c'
  AtLeastOnce q panic c c' = ⊥

  final-some :
      {q : Bytes} {n delay : ℕ} {last final : Option E} {w w' : W}
      → Failures H q n delay last w final w'
      → (0 < n) ⊎ ((e : E) × (last ≡ some e))
      → (x : E) × (final ≡ some x)
  final-some none_yet (inl lt) = absurd (omega arith)
  final-some none_yet (inr (e, p)) = (e, p)
  final-some (again {e = e} x f fs) h = final-some fs (inr (e, refl))

  module _ (m : IsLossy) where
    Failures-Repeats :
        {q : Bytes} {n delay : ℕ} {last final : Option E} {w w' : W}
        → Failures H q n delay last w final w'
        → Repeats q n (contents w) (contents w')
    Failures-Repeats none_yet = (0, omega arith, refl)
    Failures-Repeats {q} {w = w} {w' = v} (again {n} {delay} {w' = w'} x f fs) =
        let later : Repeats q n (contents w') (contents v) =
          rw (m.sleeps delay w') at (Failures-Repeats fs) in
        elim (m.lost q w w' _ x f) [
          | inl same ↦ Repeats-suc q n (contents w) (contents v) (rw same at later)
          | inr changed ↦ Repeats-apply q n (contents w) (contents v) (rw changed at later)
        ]

    repeated_behind :
        (q : Bytes) (k : ℕ) (c : S)
        → apply q (repeated k (apply q) c) ≡ repeated (suc k) (apply q) c
    repeated_behind q zero c = refl
    repeated_behind q (suc k) c = repeated_behind q k (apply q c)

    -- With the breaker closed, over a database that can lose a reply, `DBX.exec` succeeds only if the
    -- statement has taken effect, at least once and at most ten times; on an error it may have taken
    -- effect up to ten times. It does not panic.
    pub exec-AtLeastOnce :
        (query : Bytes) (s : State W)
        → s.disabled ≡ false
        → AtLeastOnce query
            (exec H query s).0
            (contents s.world)
            (contents (exec H query s).1.world)
    exec-AtLeastOnce query s on = ends (exec-Ends H query s on).0
      where
        ends :
            {o : Outcome (Option (ExecResult E)) E} {w' : W}
            → Ends H query 10 millisecond none s.world o w'
            → AtLeastOnce query o (contents s.world) (contents w')
        ends {w' = w'} (written {before = b} lt fs x r) =
            let (k, le, e) = Failures-Repeats fs in
            let done : contents w' ≡ repeated (suc k) (apply query) (contents s.world) =
              m.answered query b w' _ x
              ∙ ap (apply query) e
              ∙ repeated_behind query k (contents s.world) in
            rw r (suc k, omega arith, omega arith, done)
        ends {w' = w'} (refused {before = b} lt fs x f r) =
            let (k, le, e) = Failures-Repeats fs in
            rw r (k, omega arith, m.rejected query b w' _ x f ∙ e)
        ends {w' = w'} (exhausted {final} fs r) =
            let (x, same) = final-some fs (inl (omega arith)) in
            let (k, le, e) = Failures-Repeats fs in rw (r, same) (k, le, e)

    repeated_idem :
        (q : Bytes)
        → ((c : S) → apply q (apply q c) ≡ apply q c)
        → (k : ℕ) (c : S) → repeated (suc k) (apply q) c ≡ apply q c
    repeated_idem q idem zero c = refl
    repeated_idem q idem (suc k) c = repeated_idem q idem k (apply q c) ∙ idem c

    -- A statement whose second effect changes nothing has taken effect once where `DBX.exec` succeeds.
    exec_idem :
        (query : Bytes) (s : State W) (r : Option (ExecResult E))
        → s.disabled ≡ false
        → ((c : S) → apply query (apply query c) ≡ apply query c)
        → (exec H query s).0 ≡ ok r
        → contents (exec H query s).1.world ≡ apply query (contents s.world)
    exec_idem query s r on idem h = once (exec H query s).0 h (exec-AtLeastOnce query s on)
      where
        once :
            (o : Outcome (Option (ExecResult E)) E)
            → o ≡ ok r
            → AtLeastOnce query o (contents s.world) (contents (exec H query s).1.world)
            → contents (exec H query s).1.world ≡ apply query (contents s.world)
        once (ok x) h (zero, positive, le, e) = absurd (omega arith)
        once (ok x) h (suc k, positive, le, e) = e ∙ repeated_idem query idem k (contents s.world)
        once (fail x) h a = cc
        once panic h a = cc
