-- ===== src/Hammer/Counting.antt =====
-- The load test against a table that counts its rows.
use dqlited.Base.{
  ℕ, zero, suc, ◌+◌, ◌<◌, ◌%◌, ◌^◌, ◌≡◌, ap, ◌∙◌, inl, inr, arith, none, some, if◌then◌else◌, ◌==◌,
}
use dqlited.Base.Int.{pos}
use dqlited.Go.{ok, value, Reply-cases, Host, ExecResult, background}
use dqlited.Hammer.{
  Tools, Counts, count_success, insert_text, drop_table, create_table, hammer_prep, round, rounds,
  report, hammer_time,
}

module _ {W E : Type 0} (H : Host W E) (T : Tools W E) where
  -- An insert succeeds, adds a row, and gives it the next ID; a table that is made has no row.
  pub record IsTable (rows : W → ℕ) : Type 0 where
    pub inserts :
        (last : ℕ) (w : W)
        → (r : ExecResult E) × (w' : W) × (H.exec_context background (insert_text H T last) w
            ≡ (value r, w'))
          × (r.last_insert_id ≡ value (pos (rows w + 1)))
          × (rows w' ≡ rows w + 1)
    pub creates :
        (w w' : W) (r : ExecResult E)
        → H.exec_context background (create_table H T) w ≡ (value r, w')
        → rows w' ≡ 0

  -- So many good inserts, and no failure.
  abbrev pub counted : ℕ → Counts
  counted n = record { fails = 0; good = n; last = n }

  count_success-counted :
      (n : ℕ) → n + 1 < 2 ^ 63 → count_success ((n + 1) % 2 ^ 64) (counted n) ≡ counted (n + 1)
  unfolding count_success
  count_success-counted n h = ground arith

  module _ (rows : W → ℕ) (m : IsTable rows) where
    round-counted :
        (g : ℕ) (w : W)
        → rows w ≡ g
        → g + 1 < 2 ^ 63
        → (w' : W) × (round H T (counted g) w ≡ (ok (counted (g + 1)), w')) × (rows w' ≡ g + 1)
    unfolding round
    round-counted g w e h =
        let (r, w', x, id, more) = m.inserts g w in
        (w', rw (x, id, e) (ap (λ c. (ok c, w')) (count_success-counted g h)), omega arith)

    rounds-counted :
        (n g : ℕ) (w : W)
        → rows w ≡ g
        → g + n < 2 ^ 63
        → (w' : W) × (rounds H T n (counted g) w ≡ (ok (counted (g + n)), w')) × (rows w' ≡ g + n)
    unfolding rounds
    rounds-counted zero g w e h = (w, ap (λ k. (ok (counted k), w)) (omega arith), omega arith)
    rounds-counted (suc n) g w e h =
        let (w₁, first, more) = round-counted g w e (omega arith) in
        let (w', others, all) = rounds-counted n (g + 1) w₁ more (omega arith) in
        (w', rw first (others ∙ ap (λ k. (ok (counted k), w')) (omega arith)), omega arith)

    prepared : (w w' : W) → hammer_prep H T w ≡ (ok tt, w') → rows w' ≡ 0
    unfolding hammer_prep
    prepared w w' h = let (u, r, d) = second_step w w' h in m.creates u w' r d
      where
        second_step :
            (w w' : W)
            → hammer_prep H T w ≡ (ok tt, w')
            → (u : W) × (r : ExecResult E) × (H.exec_context background (create_table H T) u
                ≡ (value r, w'))
        second_step w w' h = elim (Reply-cases (H.exec_context background (drop_table H T) w)) [
          | inl (r, u, x) ↦ elim (Reply-cases (H.exec_context background (create_table H T) u)) [
            | inl (r', u', y) ↦ (u, r', y ∙ ground (arith, x, y, h))
            | inr (e, u', y) ↦ absurd (ground (arith, x, y, h))
          ]
          | inr (e, u, x) ↦ absurd (ground (arith, x, h))
        ]

    report-counted :
        (n : ℕ) (v : W)
        → n < 2 ^ 63
        → 0 < T.elapsed v
        → report H T (counted n) v ≡ (ok (if n == 0 then none else some n), v)
    unfolding report
    report-counted n v h clock = ground arith

    -- Against a table that keeps the promises of `IsTable`, and behind a `hammerPrep` that
    -- succeeds, `hammerTime` with a count below 2 ^ 63 leaves the table with that many rows and
    -- reports that many inserts, or nothing for a count of 0, if its clock moves.
    pub hammer_time-IsTable :
        (n : ℕ) (w w' : W)
        → hammer_prep H T w ≡ (ok tt, w')
        → n < 2 ^ 63
        → ((v : W) → 0 < T.elapsed v)
        → (v : W) × (hammer_time H T n w' ≡ (ok (if n == 0 then none else some n), v))
          × (rows v ≡ n)
    unfolding hammer_time
    hammer_time-IsTable n w w' p h clock =
        let (v, ran, all) = rounds-counted n 0 w' (prepared w w' p) (omega arith) in
        (
          v,
          rw ran
              (ap (λ k. report H T (counted k) v) (omega arith) ∙ report-counted n v h (clock v)),
          omega arith,
        )
