-- ===== src/Hammer/Rounds.antt =====
-- How `hammerTime` counts, and when it panics.
use dqlited.Base.{
  ℕ, zero, suc, ◌+◌, ◌<◌, ◌≡◌, refl, true, false, List, [], ◌∷◌, Bytes, arith, Option, none, some,
  inl, inr,
}
use dqlited.Base.Int.{ℤ}
use dqlited.Go.{
  Outcome, ok, fail, panic, continue, Reply, value, error, Reply-cases, Host, background,
  ok-injective,
}
use dqlited.Hammer.{
  Tools, Counts, no_counts, pattern_of, count_success, behind_unwrap, printed_error, count_failure,
  insert_id, insert_text, round, rounds,
}

-- After a success `good` is the ID of the row, whatever it was before.
count_success-good : (id : ℕ) (c : Counts) → (count_success id c).good ≡ (count_success id c).last
unfolding count_success
count_success-good id c = ground arith

module _ {W E : Type 0} (H : Host W E) (T : Tools W E) where
  behind_unwrap-none : (e : E) (chain : List E) → behind_unwrap H T (some e) chain ≡ none
  unfolding behind_unwrap
  behind_unwrap-none e [] = refl
  behind_unwrap-none e (e' ∷ chain) = behind_unwrap-none e' chain

  printed_error_eof : (e : E) → T.is_eof e ≡ true → printed_error H T e ≡ some e
  unfolding printed_error
  printed_error_eof e h = ground arith

  printed_error_other : (e : E) → T.is_eof e ≡ false → printed_error H T e ≡ none
  unfolding printed_error
  printed_error_other e h = ground (arith, behind_unwrap-none e (T.unwrapped e))

  -- The good count is the last ID.
  abbrev pub IsLast : Counts → Type 0
  IsLast c = c.good ≡ c.last

  insert_id-IsLast : (r : Reply ℤ E) (c : Counts) → IsLast c → IsLast (insert_id H T r c)
  insert_id-IsLast (error e) c h = h
  insert_id-IsLast (value id) c h = count_success-good (pattern_of id) c

  -- Each outcome that succeeds satisfies `P`.
  abbrev OnOk : (Counts → Type 0) → Outcome Counts E → Type 0
  OnOk P (ok c) = P c
  OnOk P (fail e) = Unit
  OnOk P panic = Unit

  count_failure-IsLast :
      (o : Option E) (c : Counts) (w : W) → IsLast c → OnOk IsLast (count_failure H T o c w).0
  count_failure-IsLast none c w h = tt
  count_failure-IsLast (some e) c w h = h

  round-IsLast : (c : Counts) (w : W) → IsLast c → OnOk IsLast (round H T c w).0
  unfolding round
  round-IsLast c w h = elim (Reply-cases (H.exec_context background (insert_text H T c.last) w)) [
    | inl (r, w', x) ↦ rw x (insert_id-IsLast r.last_insert_id c h)
    | inr (e, w', x) ↦ rw x (count_failure-IsLast (printed_error H T e) c w' h)
  ]

  rounds-from :
      (n : ℕ) (o : Outcome Counts E) (w : W)
      → ((c : Counts) (w' : W) → IsLast c → OnOk IsLast (rounds H T n c w').0)
      → OnOk IsLast o
      → OnOk IsLast (continue o (rounds H T n) w).0
  rounds-from n (ok c) w k h = k c w h
  rounds-from n (fail e) w k h = tt
  rounds-from n panic w k h = tt

  rounds-OnOk : (n : ℕ) (c : Counts) (w : W) → IsLast c → OnOk IsLast (rounds H T n c w).0
  unfolding rounds
  rounds-OnOk zero c w h = h
  rounds-OnOk (suc n) c w h =
      rounds-from n (round H T c w).0 (round H T c w).1 (λ c' w' h'. rounds-OnOk n c' w' h')
        (round-IsLast c w h)

  on_ok : (o : Outcome Counts E) (c : Counts) → o ≡ ok c → OnOk IsLast o → IsLast c
  on_ok (ok d) c e h = rw (← ok-injective e) h
  on_ok (fail x) c e h = cc
  on_ok panic c e h = cc

  -- Behind any number of rounds of `hammerTime` that do not panic, the number it takes for that
  -- of good inserts is the ID of the last row: it does not count.
  rounds-IsLast :
      (n : ℕ) (w : W) (c : Counts) → (rounds H T n no_counts w).0 ≡ ok c → c.good ≡ c.last
  rounds-IsLast n w c e = on_ok (rounds H T n no_counts w).0 c e (rounds-OnOk n no_counts w refl)

  -- A measure of the world that counts the calls of `Exec`.
  abbrev pub Counting : (W → ℕ) → Type 0
  Counting calls = (q : Bytes) (w : W) → calls (H.exec_context background q w).1 ≡ calls w + 1

  -- A run that succeeds, with this many calls.
  abbrev pub Completes : (W → ℕ) → ℕ → W → Outcome Counts E × W → Type 0
  Completes calls n w (ok c, w') = calls w' ≡ calls w + n
  Completes calls n w (fail e, w') = ⊥
  Completes calls n w (panic, w') = ⊥

  module _ (calls : W → ℕ) (m : Counting calls) (eof : (e : E) → T.is_eof e ≡ true) where
    round-Completes : (c : Counts) (w : W) → Completes calls 1 w (round H T c w)
    unfolding round
    round-Completes c w =
        elim (Reply-cases (H.exec_context background (insert_text H T c.last) w)) [
          | inl (r, w', x) ↦ rw x (rw x at (m (insert_text H T c.last) w))
          | inr (e, w', x) ↦
              rw (x, printed_error_eof e (eof e)) (rw x at (m (insert_text H T c.last) w))
        ]

    Completes-suc :
        (n : ℕ) (w w' : W) (r : Outcome Counts E × W)
        → calls w' ≡ calls w + 1
        → Completes calls n w' r
        → Completes calls (suc n) w r
    Completes-suc n w w' (ok c, v) e h = omega arith
    Completes-suc n w w' (fail x, v) e h = h
    Completes-suc n w w' (panic, v) e h = h

    rounds-after :
        (n : ℕ) (w : W) (r : Outcome Counts E × W)
        → ((c : Counts) (w' : W) → Completes calls n w' (rounds H T n c w'))
        → Completes calls 1 w r
        → Completes calls (suc n) w (continue r.0 (rounds H T n) r.1)
    rounds-after n w (ok c, w') k h = Completes-suc n w w' _ h (k c w')
    rounds-after n w (fail e, w') k h = h
    rounds-after n w (panic, w') k h = h

    -- If every error of the database is the end of a stream, `hammerTime` makes exactly as many
    -- inserts as it was asked for, by a counter of the calls and from any counts, and its loop
    -- ends with counts.
    pub rounds-Completes : (n : ℕ) (c : Counts) (w : W) → Completes calls n w (rounds H T n c w)
    unfolding rounds
    rounds-Completes zero c w = omega arith
    rounds-Completes (suc n) c w =
        rounds-after n w (round H T c w) (rounds-Completes n) (round-Completes c w)

  round-panic :
      (c : Counts) (w w' : W) (e : E)
      → H.exec_context background (insert_text H T c.last) w ≡ (error e, w')
      → T.is_eof e ≡ false
      → round H T c w ≡ (panic, w')
  unfolding round
  round-panic c w w' e x h = rw (x, printed_error_other e h)

  -- A run of rounds that succeeds begins with a round that does.
  first-ok :
      (k : ℕ) (r : Outcome Counts E × W) (c' : Counts) (w' : W)
      → continue r.0 (rounds H T k) r.1 ≡ (ok c', w')
      → (c : Counts) × (w : W) × (r ≡ (ok c, w)) × (rounds H T k c w ≡ (ok c', w'))
  first-ok k (ok c, w) c' w' h = (c, w, refl, h)
  first-ok k (fail e, w) c' w' h = cc
  first-ok k (panic, w) c' w' h = cc

  -- The first failure that is not the end of a stream makes `hammerTime` panic, however many rounds
  -- have gone well before it and however many were to come.
  rounds-panic :
      (k n : ℕ) (c c' : Counts) (w w' w'' : W) (e : E)
      → k < n
      → rounds H T k c w ≡ (ok c', w')
      → H.exec_context background (insert_text H T c'.last) w' ≡ (error e, w'')
      → T.is_eof e ≡ false
      → rounds H T n c w ≡ (panic, w'')
  unfolding rounds
  rounds-panic k zero c c' w w' w'' e lt r x h = absurd (omega arith)
  rounds-panic zero (suc n) c c' w w' w'' e lt r x h =
      let same : c ≡ c' = ground arith in
      let there : w ≡ w' = ground arith in rw (round-panic c w w'' e (rw (same, there) x) h)
  rounds-panic (suc k) (suc n) c c' w w' w'' e lt r x h =
      let (c₁, w₁, first, others) = first-ok k (round H T c w) c' w' r in
      rw first (rounds-panic k n c₁ c' w₁ w' w'' e (omega arith) others x h)
