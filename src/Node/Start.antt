-- ===== src/Node/Start.antt =====
-- On which ends `StartServer` leaves something open, and what `myIP` does to it.
use dqlited.Base.{
  ℕ, ◌≡◌, refl, Bool, true, false, List, [], ◌∷◌, ◌++◌, Bytes, codes, Option, none, some, All,
}
use dqlited.Go.{ok, fail, panic, value, error}
use dqlited.Client.{KeyPair, Remote}
use dqlited.Node.{
  Machine, Interface, network, other, first_ip, my_ip, prepare_server, stop_server, start_server,
}

-- An interface that `myIP` does not take: no network, a loopback, or one with no IPv4 address.
abbrev pub IsPassedOver : Interface → Type 0
IsPassedOver other = Unit
IsPassedOver (network true ip) = Unit
IsPassedOver (network false none) = Unit
IsPassedOver (network false (some ip)) = ⊥

module _ {W E C N A L : Type 0} (R : Remote W E C) (M : Machine W E N A L) where
  first_ip-panic : (addrs : List Interface) → All IsPassedOver addrs → first_ip M addrs ≡ panic
  unfolding first_ip
  first_ip-panic [] h = refl
  first_ip-panic (other ∷ addrs) h = first_ip-panic addrs h.1
  first_ip-panic (network true ip ∷ addrs) h = first_ip-panic addrs h.1
  first_ip-panic (network false none ∷ addrs) h = first_ip-panic addrs h.1
  first_ip-panic (network false (some ip) ∷ addrs) h = absurd h.0

  -- On a machine that can list its addresses, and has no IPv4 address but those of loopbacks,
  -- `StartServer` panics, for the sake of its first log line, and does nothing but to list the
  -- addresses.
  start_server_needs_ip :
      (port : ℕ) (pair : Option KeyPair) (dir address : Bytes) (cluster : List Bytes)
      (addrs : List Interface) (w w' : W)
      → M.interfaces w ≡ (value addrs, w')
      → All IsPassedOver addrs
      → start_server R M port pair dir address cluster w ≡ (panic, w')
  unfolding start_server prepare_server my_ip
  start_server_needs_ip port pair dir address cluster addrs w w' x h =
      rw (x, first_ip-panic addrs h)

  module _ (port : ℕ) (pair : Option KeyPair) (dir address : Bytes) (cluster : List Bytes)
      (w w₁ w₂ : W) (tls : Bool) (app : A) (prepared : prepare_server R M pair dir w ≡ (ok tls, w₁))
      (made : M.new_app dir address cluster tls w₁ ≡ (value app, w₂)) where
    -- Where the port cannot be listened at, `StartServer` returns the error, and leaves open the
    -- application that it has made: nothing is done behind the call of `net.Listen`.
    start_server_abandons_app :
        (w₃ : W) (e : E)
        → M.listen (codes "0.0.0.0:" ++ M.print port) w₂ ≡ (error e, w₃)
        → start_server R M port pair dir address cluster w ≡ (fail e, w₃)
    unfolding start_server
    start_server_abandons_app w₃ e x = rw (prepared, made, x)

    -- Where it can, `StartServer` serves until a signal, and closes then the listener, the HTTP server
    -- and the application, in this order.
    start_server_closes :
        (w₃ : W) (listener : L)
        → M.listen (codes "0.0.0.0:" ++ M.print port) w₂ ≡ (value listener, w₃)
        → start_server R M port pair dir address cluster w ≡ (
          ok tt,
          M.close_app app
              (M.shut_down (M.close_listener listener (M.serve_until_signal app listener w₃))),
        )
    unfolding start_server stop_server
    start_server_closes w₃ listener x = rw (prepared, made, x)
