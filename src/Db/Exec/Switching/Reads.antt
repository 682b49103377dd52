-- ===== src/Db/Exec/Switching/Reads.antt =====
-- A call of `DBX.exec` among others that switch the breaker, against `DBX.exec` by itself.
use dqlited.Base.{
  ℕ, zero, suc, ◌+◌, ◌%◌, ◌^◌, Bool, true, false, not, ◌≡◌, refl, sym, ap, ◌∙◌, List, ◌∷◌, Bytes,
  Option, none, some, inl, inr, Bool-cases,
}
use mathlib.Core.List.{Memᴰ}
use mathlib.Core.List.Memᴰ.{head, tail}
use dqlited.Go.{Outcome, fail, panic, Host, ExecResult, background, Reply-cases}
use dqlited.Db.{State, unavailable, database_disabled}
use dqlited.Db.Exec.{is_sql_failure, exec_loop, exec, retry_limit, millisecond}
use dqlited.Db.Exec.Rounds.{loop_value, loop_refused, loop_failed}
use dqlited.Db.Exec.Switching.{
  Position, checking, trying, pausing, returned, Race, Step, enable, refuse, admit, succeed,
  give_up, retry, pause, exhaust, Run, here, next, called,
}

module _ {W E : Type 0} (H : Host W E) (query : Bytes) where
  -- What `DBX.exec` by itself returns and does to the world, with a value of the switch.
  abbrev pub alone : Bool → State W → Outcome (Option (ExecResult E)) E × W
  alone disabled s = let r = exec H query (record s { disabled = disabled }) in (r.0, r.1.world)

  alone_on : (s : State W) → alone false s ≡ exec_loop H retry_limit millisecond none query s.world
  unfolding exec database_disabled
  alone_on s = refl

  alone_off : (s : State W) → alone true s ≡ (fail (unavailable H), s.world)
  unfolding exec database_disabled
  alone_off s = refl

  -- What becomes of a call behind its check.
  abbrev future : Position E → W → Outcome (Option (ExecResult E)) E × W
  future checking w = (panic, w)
  future (trying n delay last) w = exec_loop H n delay last query w
  future (pausing n delay e) w =
      exec_loop H n ((delay + delay) % 2 ^ 64) (some e) query (H.sleep delay w)
  future (returned o) w = (o, w)

  -- The call has not read the switch, or it goes the way of one of the values that the switch has had.
  abbrev Settled : List Bool → State W → Position E → W → Type 0
  Settled values s checking w = w ≡ s.world
  Settled values s p w = (b : Bool) × Memᴰ b values × (future p w ≡ alone b s)

  Settled-cons :
      (b : Bool) (values : List Bool) (s : State W) (p : Position E) (w : W)
      → Settled values s p w
      → Settled (b ∷ values) s p w
  Settled-cons b values s checking w h = h
  Settled-cons b values s (trying n delay last) w (c, m, e) = (c, tail m, e)
  Settled-cons b values s (pausing n delay x) w (c, m, e) = (c, tail m, e)
  Settled-cons b values s (returned o) w (c, m, e) = (c, tail m, e)

  Step-Settled :
      (values : List Bool) {c t : Race W E} (s : State W)
      → Step H query c t
      → Settled values s c.position c.world
      → Settled (t.disabled ∷ values) s t.position t.world
  unfolding exec_loop
  Step-Settled values {c} s (enable on e) h =
      rw e (Settled-cons (not on) values s c.position c.world h)
  Step-Settled values s (refuse p d e) h =
      let same = rw p at h in rw e (true, head (sym d), rw same (sym (alone_off s)))
  Step-Settled values s (admit p d e) h =
      let same = rw p at h in
      rw e (
        false,
        head (sym d),
        ap (exec_loop H retry_limit millisecond none query) same ∙ sym (alone_on s),
      )
  Step-Settled values {c} s (succeed n delay last r w p x e) h =
      let (b, m, same) = rw p at h in
      rw e (b, tail m, sym (loop_value H query n delay last r c.world w x) ∙ same)
  Step-Settled values {c} s (give_up n delay last y w p x f e) h =
      let (b, m, same) = rw p at h in
      rw e (b, tail m, sym (loop_refused H query n delay last y c.world w x f) ∙ same)
  Step-Settled values {c} s (retry n delay last y w p x f e) h =
      let (b, m, same) = rw p at h in
      rw e (b, tail m, sym (loop_failed H query n delay last y c.world w x f) ∙ same)
  Step-Settled values s (pause n delay y p e) h =
      let (b, m, same) = rw p at h in rw e (b, tail m, same)
  Step-Settled values s (exhaust delay last p e) h =
      let (b, m, same) = rw p at h in rw e (b, tail m, same)

  Run-Settled :
      (s : State W) {values : List Bool} {t : Race W E}
      → Run H query (called s) values t
      → Settled values s t.position t.world
  Run-Settled s here = refl
  Run-Settled s (next {values} r st) = Step-Settled values s st (Run-Settled s r)

  -- The call can return.
  abbrev pub CanReturn : Race W E → Type 0
  CanReturn c =
      (values : List Bool) × (t : Race W E) × (o : Outcome (Option (ExecResult E)) E) × Run H query
        c values t
      × (t.position ≡ returned o)

  trying-CanReturn :
      (n delay : ℕ) (last : Option E) (c t : Race W E) (values : List Bool)
      → t.position ≡ trying n delay last
      → Run H query c values t
      → CanReturn c
  trying-CanReturn zero delay last c t values p r =
      (_, _, _, next r (exhaust delay last p refl), refl)
  trying-CanReturn (suc n) delay last c t values p r =
      elim (Reply-cases (H.exec_context background query t.world)) [
        | inl (a, w, x) ↦ (_, _, _, next r (succeed n delay last a w p x refl), refl)
        | inr (e, w, x) ↦ elim (Bool-cases (is_sql_failure H e)) [
          | inl f ↦ (_, _, _, next r (give_up n delay last e w p x f refl), refl)
          | inr f ↦
              trying-CanReturn n ((delay + delay) % 2 ^ 64) (some e) c _ _ refl
                (next (next r (retry n delay last e w p x f refl)) (pause n delay e refl refl))
        ]
      ]

  can_return :
      (position : Position E) (disabled : Bool) (w : W)
      → CanReturn (record { position = position; disabled = disabled; world = w })
  can_return checking true w = (_, _, _, next here (refuse refl refl refl), refl)
  can_return checking false w =
      trying-CanReturn retry_limit millisecond none _ _ _ refl (next here (admit refl refl refl))
  can_return (trying n delay last) disabled w = trying-CanReturn n delay last _ _ _ refl here
  can_return (pausing n delay e) disabled w =
      trying-CanReturn n ((delay + delay) % 2 ^ 64) (some e) _ _ _ refl
        (next here (pause n delay e refl refl))
  can_return (returned o) disabled w = (_, _, _, here, refl)

  -- Where the call has returned, it did what `DBX.exec` by itself does with one of these values of the
  -- switch.
  abbrev pub Agrees : List Bool → State W → Position E → W → Type 0
  Agrees values s (returned o) w = (b : Bool) × Memᴰ b values × ((o, w) ≡ alone b s)
  Agrees values s p w = Unit

  Settled-Agrees :
      (values : List Bool) (s : State W) (p : Position E) (w : W)
      → Settled values s p w
      → Agrees values s p w
  Settled-Agrees values s checking w h = tt
  Settled-Agrees values s (trying n delay last) w h = tt
  Settled-Agrees values s (pausing n delay e) w h = tt
  Settled-Agrees values s (returned o) w h = h

  -- However other goroutines switch the breaker while `DBX.exec` runs, the call can return, and
  -- once it has, its result and the world are those of `DBX.exec` by itself with one of the values
  -- that the switch has had since the call began.
  pub run-Agrees :
      (s : State W) {values : List Bool} {t : Race W E}
      → Run H query (called s) values t
      → Agrees values s t.position t.world × CanReturn t
  run-Agrees s {values} {t} r = (
    Settled-Agrees values s t.position t.world (Run-Settled s r),
    can_return t.position t.disabled t.world,
  )
