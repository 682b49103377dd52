-- ===== src/Web/Serving/Paths.antt =====
-- Whether the paths of web.go can be registered.
use dqlited.Base.{
  ℕ, ◌≡◌, refl, Bool, true, false, ◌||◌, List, [], ◌∷◌, Bytes, codes, All, arith, inl, inr,
  Bool-cases,
}
use dqlited.Text.{equal}
use dqlited.Go.{Outcome, ok, fail, panic}
use dqlited.Commands.{crashed}
use dqlited.Node.{Machine}
use dqlited.Web.Status.{Page, routes}
use dqlited.Web.Serving.{Mux, handle_all, after_handlers, server_handlers}

module _ {W E N A L : Type 0} (M : Machine W E N A L) (X : Mux W E)
    (registered : Bytes → W → Bool) where
  open X use {handle}

  -- What `net/http` documents: `Handle` panics if the path has a handler, and registers it else.
  pub record IsMux : Type 0 where
    pub twice : (path : Bytes) (w : W) → registered path w ≡ true → (handle path w).0 ≡ panic
    pub once : (path : Bytes) (w : W) → registered path w ≡ false → (handle path w).0 ≡ ok tt
    pub registers :
        (path key : Bytes) (w : W)
        → registered path w ≡ false
        → registered key (handle path w).1 ≡ (equal path key || registered key w)

  -- None of the paths stands twice in the list, or is in use.
  abbrev pub AreFree : List (Bytes × Page) → W → Type 0
  AreFree [] w = Unit
  AreFree ((path, page) ∷ handlers) w =
      (registered path w ≡ false)
      × All (λ h. equal path (h.0) ≡ false) handlers
      × AreFree handlers w

  -- The path stands in the list.
  abbrev pub has_path : Bytes → List (Bytes × Page) → Bool
  has_path key [] = false
  has_path key ((path, page) ∷ handlers) = equal path key || has_path key handlers

  module _ (m : IsMux) where
    AreFree-registers :
        (path : Bytes) (handlers : List (Bytes × Page)) (w : W)
        → registered path w ≡ false
        → All (λ h. equal path (h.0) ≡ false) handlers
        → AreFree handlers w
        → AreFree handlers (handle path w).1
    AreFree-registers path [] w new others free = tt
    AreFree-registers path ((p, page) ∷ handlers) w new others free = (
      ground (arith, m.registers path p w new, others.0, free.0),
      free.1,
      AreFree-registers path handlers w new others.1 free.2,
    )

    handle_all-ok :
        (handlers : List (Bytes × Page)) (w : W)
        → AreFree handlers w
        → (handle_all M X handlers w).0 ≡ ok tt
    unfolding handle_all
    handle_all-ok [] w free = refl
    handle_all-ok ((path, page) ∷ handlers) w free = rw (m.once path w free.0) (
        handle_all-ok handlers (handle path w).1
          (AreFree-registers path handlers w free.0 free.1 free.2))

    -- Registering has panicked, or the path is in use.
    abbrev InUse : Bytes → Outcome (Unit {0}) E → W → Type 0
    InUse key (ok _) w = registered key w ≡ true
    InUse key (fail e) w = ⊥
    InUse key panic w = Unit

    handle_all-InUse :
        (key : Bytes) (handlers : List (Bytes × Page)) (w : W)
        → (has_path key handlers || registered key w) ≡ true
        → InUse key (handle_all M X handlers w).0 (handle_all M X handlers w).1
    unfolding handle_all
    handle_all-InUse key [] w h = h
    handle_all-InUse key ((path, page) ∷ handlers) w h = elim (Bool-cases (registered path w)) [
      | inl used ↦ rw (m.twice path w used) tt
      | inr free ↦ rw (m.once path w free) (
          handle_all-InUse key handlers (handle path w).1
            (ground (arith, m.registers path key w free)))
    ]

    favicon-crashed :
        (port : ℕ) (o : Outcome (Unit {0}) E) (w : W)
        → InUse (codes "/favicon.ico") o w
        → (after_handlers M X port o w).0 ≡ crashed
    favicon-crashed port (ok _) w h = rw (m.twice (codes "/favicon.ico") w h) refl
    favicon-crashed port (fail e) w h = absurd h
    favicon-crashed port panic w h = refl

-- `StartServer` registers at a mux `X` of its own, and `ServerHandlers` at the default mux `D` of the
-- package `net/http`.
module _ {W E N A L : Type 0} (M : Machine W E N A L) (X D : Mux W E)
    (new used : Bytes → W → Bool) where
  -- The paths of `webHandlers` and of `/shutdown` can all be registered at a mux where none of them is
  -- in use, as that of `StartServer` is. But `ServerHandlers` panics for every list of handlers that holds
  -- the path `/favicon.ico`, as that of `webHandlers` does, whatever the default mux holds before: it
  -- registers that path itself.
  pub server_handlers_crashes :
      IsMux M X new
      → IsMux M D used
      → (port : ℕ) (handlers : List (Bytes × Page)) (w v : W)
      → All (λ h. new (h.0) w ≡ false) routes
      → has_path M D used (codes "/favicon.ico") handlers ≡ true
      → ((handle_all M X routes w).0 ≡ ok tt)
        × ((server_handlers M D port handlers v).0 ≡ crashed)
        × (has_path M D used (codes "/favicon.ico") routes ≡ true)
  unfolding routes equal server_handlers
  server_handlers_crashes m d port handlers w v free holds = (
    handle_all-ok M X new m routes w search,
    favicon-crashed M D used d port (handle_all M D handlers v).0 (handle_all M D handlers v).1
        (handle_all-InUse M D used d (codes "/favicon.ico") handlers v (ground arith)),
    refl,
  )
