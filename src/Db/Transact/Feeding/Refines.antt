-- ===== src/Db/Transact/Feeding/Refines.antt =====
-- The goroutines of `loadFile` against `transact` over the list of the lines: the results, the
-- lengths of the runs, and that they never wait for each other for ever.
use dqlited.Base.{
  ℕ, ◌+◌, ◌*◌, ◌≤◌, ◌<◌, Bool, true, false, ◌≡◌, refl, ap, ◌∙◌, ◌⊎◌, List, [], ◌∷◌, length, Bytes,
  arith, inl, inr,
}
use dqlited.Go.{Outcome, ok, fail, Host, Reply-cases}
use dqlited.Db.{State}
use dqlited.Db.Transact.{transact_loop, transact_begun, transact}
use dqlited.Db.Transact.Feeding.{
  Producer, scanning, offering, closing, closed, ended, Consumer, beginning, receiving, executing,
  refusing, committing, returned, left, Feed, Step, scan, scan_end, scan_fails, pass, close_channel,
  close_reader, begin_value, begin_error, range_end, exec_value, exec_error, roll_back, commit,
  close_file, Run, here, next, started,
}

-- The lines that will still be sent.
abbrev unsent : Producer → List Bytes
unsent (scanning lines) = lines
unsent (offering line lines) = line ∷ lines
unsent closing = []
unsent closed = []
unsent ended = []

module _ {W E : Type 0} (H : Host W E) where
  -- What will come of a state, by `transact` over the lines that are left.
  abbrev future : Consumer E → List Bytes → W → Outcome (Unit {0}) E × W
  future beginning lines w = transact_begun H lines (H.begin w)
  future (receiving tx) lines w = transact_loop H tx lines w
  future (executing tx line) lines w = transact_loop H tx (line ∷ lines) w
  future (refusing tx e) lines w = (fail e, (H.tx_rollback tx w).1)
  future (committing tx) lines w = (ok tt, (H.tx_commit tx w).1)
  future (returned o) lines w = (o, w)
  future (left o) lines w = (o, w)

  -- As long as `loadFile` has not left, only the end of the goroutine closes the file.
  abbrev Guarded : Producer → Consumer E → Bool → Type 0
  Guarded p c true = Unit
  Guarded ended c false = Unit
  Guarded p (left o) false = Unit
  Guarded p c false = ⊥

  Step-future :
      {s t : Feed W E}
      → Step H s t
      → Guarded s.producer s.consumer s.open_file
      → (future t.consumer (unsent t.producer) t.world
          ≡ future s.consumer (unsent s.producer) s.world)
        × Guarded t.producer t.consumer t.open_file
  unfolding transact_loop
  Step-future (scan line lines p e) g = ground arith
  Step-future (scan_end p e) g = ground arith
  Step-future (scan_fails lines p o e) g = ground arith
  Step-future (pass tx line lines p c e) g = ground arith
  Step-future (close_channel p e) g = ground arith
  Step-future (close_reader p e) g = ground arith
  Step-future (begin_value tx w c x e) g = ground arith
  Step-future (begin_error x w c y e) g = ground arith
  Step-future (range_end tx p c e) g = ground arith
  Step-future (exec_value tx line w r c x e) g = ground arith
  Step-future (exec_error tx line w x c y e) g = ground arith
  Step-future (roll_back tx x c e) g = ground arith
  Step-future (commit tx c e) g = ground arith
  Step-future (close_file o c e) g = ground arith

  Run-future :
      {s t : Feed W E} {k : ℕ}
      → Run H s k t
      → Guarded s.producer s.consumer s.open_file
      → (future t.consumer (unsent t.producer) t.world
          ≡ future s.consumer (unsent s.producer) s.world)
        × Guarded t.producer t.consumer t.open_file
  Run-future here g = (refl, g)
  Run-future (next r st) g =
      let (same, g') = Run-future r g in let (same', g'') = Step-future st g' in (same' ∙ same, g'')

  -- The steps that a state has before it at most.
  abbrev pub sends_left : Producer → ℕ
  sends_left (scanning lines) = 4 * length lines + 3
  sends_left (offering line lines) = 4 * length lines + 6
  sends_left closing = 2
  sends_left closed = 1
  sends_left ended = 0

  abbrev pub calls_left : Consumer E → ℕ
  calls_left beginning = 4
  calls_left (receiving tx) = 3
  calls_left (executing tx line) = 4
  calls_left (refusing tx e) = 2
  calls_left (committing tx) = 2
  calls_left (returned o) = 1
  calls_left (left o) = 0

  Step-left :
      {s t : Feed W E}
      → Step H s t
      → sends_left t.producer + calls_left t.consumer
        < sends_left s.producer + calls_left s.consumer
  Step-left (scan line lines p e) = ground arith
  Step-left (scan_end p e) = ground arith
  Step-left (scan_fails lines p o e) = ground arith
  Step-left (pass tx line lines p c e) = ground arith
  Step-left (close_channel p e) = ground arith
  Step-left (close_reader p e) = ground arith
  Step-left (begin_value tx w c x e) = ground arith
  Step-left (begin_error x w c y e) = ground arith
  Step-left (range_end tx p c e) = ground arith
  Step-left (exec_value tx line w r c x e) = ground arith
  Step-left (exec_error tx line w x c y e) = ground arith
  Step-left (roll_back tx x c e) = ground arith
  Step-left (commit tx c e) = ground arith
  Step-left (close_file o c e) = ground arith

  Run-left :
      {s t : Feed W E} {k : ℕ}
      → Run H s k t
      → sends_left t.producer + calls_left t.consumer + k
        ≤ sends_left s.producer + calls_left s.consumer
  Run-left here = omega arith
  Run-left (next r st) = omega (arith, Run-left r, Step-left st)

  -- `loadFile` has left, or some goroutine can go on.
  abbrev pub GoesOn : Feed W E → Type 0
  GoesOn s = ((o : Outcome (Unit {0}) E) × (s.consumer ≡ left o)) ⊎ ((t : Feed W E) × Step H s t)

  receiving-GoesOn :
      (p : Producer) (tx : ℕ) (w : W) (o : Bool)
      → GoesOn (record { producer = p; consumer = receiving tx; world = w; open_file = o })
  receiving-GoesOn (scanning []) tx w o = inr (_, scan_end refl refl)
  receiving-GoesOn (scanning (line ∷ lines)) tx w o = inr (_, scan line lines refl refl)
  receiving-GoesOn (offering line lines) tx w o = inr (_, pass tx line lines refl refl refl)
  receiving-GoesOn closing tx w o = inr (_, close_channel refl refl)
  receiving-GoesOn closed tx w o = inr (_, range_end tx tt refl refl)
  receiving-GoesOn ended tx w o = inr (_, range_end tx tt refl refl)

  goes_on :
      (p : Producer) (c : Consumer E) (w : W) (o : Bool)
      → GoesOn (record { producer = p; consumer = c; world = w; open_file = o })
  goes_on p beginning w o = elim (Reply-cases (H.begin w)) [
    | inl (tx, w', x) ↦ inr (_, begin_value tx w' refl x refl)
    | inr (e, w', x) ↦ inr (_, begin_error e w' refl x refl)
  ]
  goes_on p (receiving tx) w o = receiving-GoesOn p tx w o
  goes_on p (executing tx line) w o = elim (Reply-cases (H.tx_exec tx line w)) [
    | inl (r, w', x) ↦ inr (_, exec_value tx line w' r refl x refl)
    | inr (e, w', x) ↦ inr (_, exec_error tx line w' e refl x refl)
  ]
  goes_on p (refusing tx e) w o = inr (_, roll_back tx e refl refl)
  goes_on p (committing tx) w o = inr (_, commit tx refl refl)
  goes_on p (returned r) w o = inr (_, close_file r refl refl)
  goes_on p (left r) w o = inl (r, refl)

  transact-future :
      (lines : List Bytes) (s : State W)
      → future beginning lines s.world ≡ ((transact H lines s).0, (transact H lines s).1.world)
  unfolding transact
  transact-future lines s = refl

  -- Where `loadFile` has left, its result and the world are these.
  abbrev pub Agrees : Consumer E → W → Outcome (Unit {0}) E → W → Type 0
  Agrees (left o) w r w' = (o ≡ r) × (w ≡ w')
  Agrees c w r w' = Unit

  agrees :
      (c : Consumer E) (lines : List Bytes) (w : W) (r : Outcome (Unit {0}) E) (w' : W)
      → future c lines w ≡ (r, w')
      → Agrees c w r w'
  agrees (left o) lines w r w' e = (ap (λ x. x.0) e, ap (λ x. x.1) e)
  agrees beginning lines w r w' e = tt
  agrees (receiving tx) lines w r w' e = tt
  agrees (executing tx line) lines w r w' e = tt
  agrees (refusing tx x) lines w r w' e = tt
  agrees (committing tx) lines w r w' e = tt
  agrees (returned o) lines w r w' e = tt

  -- However the two goroutines of `loadFile` are interleaved, they do what `transact` does over the list
  -- of the lines: they take at most four steps for a line and seven more, some step can follow as long
  -- as `loadFile` has not left, and where it has, its result and the world are those of `transact`.
  pub feeding-transact :
      (lines : List Bytes) (s : State W) {t : Feed W E} {k : ℕ}
      → Run H (started lines s.world) k t
      → (k ≤ 4 * length lines + 7)
        × GoesOn t
        × Agrees t.consumer t.world (transact H lines s).0 (transact H lines s).1.world
  feeding-transact lines s {t} r = (
    omega (arith, Run-left r),
    goes_on t.producer t.consumer t.world t.open_file,
    agrees t.consumer (unsent t.producer) t.world _ _
        ((Run-future r tt).0 ∙ transact-future lines s),
  )
