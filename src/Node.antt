-- ===== src/Node.antt =====
-- The server of cluster.go: `nodeStart` and `StartServer`, with `myIP` of web.go. What goes on while
-- it serves is the child `Shutdown`.
pub mod Shutdown
pub mod Start
use dqlited.Base.{
  ℕ, Bool, true, false, not, List, [], ◌∷◌, ◌++◌, Bytes, codes, Option, none, some, ◌==◌,
  if◌then◌else◌,
}
use dqlited.Text.{equal}
use dqlited.Go.{
  Act, Outcome, ok, fail, panic, pure, throw, crash, wrapping, ◌>>=◌, ◌>>◌, Reply, value, error,
  from_reply, msg, text,
}
use dqlited.Client.{KeyPair, Remote, load_tls}
use dqlited.Cluster.{remote}

-- An address of `net.InterfaceAddrs`: one that is no `*net.IPNet`, or a network with whether it is a
-- loopback, and the text of the address where it is one of IPv4.
pub data Interface : Type 0 where
  other : Interface
  network : Bool → Option Bytes → Interface

-- Code outside the repository: the network, the file system, a dqlite node (`N`), the dqlite
-- application (`A`), the HTTP server with its listener (`L`), and the wait for a signal. Nothing is
-- assumed of it here.
pub record Machine (W E N A L : Type 0) : Type 0 where
  pub interfaces : W → Reply (List Interface) E × W
  pub make_dirs : Bytes → W → Reply (Unit {0}) E × W
  pub join_path : Bytes → Bytes → Bytes
  -- the text that `fmt` prints for a number
  pub print : ℕ → Bytes
  pub split_host_port : Bytes → Reply (Bytes × Bytes) E
  pub join_host_port : Bytes → Bytes → Bytes
  pub resolve : Bytes → W → Reply Bytes E × W
  pub new_node : ℕ → Bytes → Bytes → Bytes → W → Reply N E × W
  pub start_node : N → W → Reply (Unit {0}) E × W
  -- `app.New`; the flag tells whether it has a TLS configuration
  pub new_app : Bytes → Bytes → List Bytes → Bool → W → Reply A E × W
  pub listen : Bytes → W → Reply L E × W
  -- `go s.Serve(listener)`, `signal.Notify`, and `<-ch`
  pub serve_until_signal : A → L → W → W
  pub close_listener : L → W → W
  -- `s.Shutdown`
  pub shut_down : W → W
  pub close_app : A → W → W

module _ {W E N A L : Type 0} (M : Machine W E N A L) where
  open M use {interfaces}

  -- The loop of `myIP`.
  unfoldable pub first_ip : List Interface → Outcome Bytes E
  first_ip [] = panic
  first_ip (network false (some ip) ∷ addrs) = ok ip
  first_ip (a ∷ addrs) = first_ip addrs

  abbrev pub ip_of : Reply (List Interface) E → Outcome Bytes E
  ip_of (value addrs) = first_ip addrs
  ip_of (error e) = panic

  -- `myIP`
  unfoldable pub my_ip : Act W E Bytes
  my_ip w = let (r, w') = interfaces w in (ip_of r, w')

module _ {W E C N A L : Type 0} (R : Remote W E C) (M : Machine W E N A L) where
  open R use {errorf, wrap}
  open M use {
    make_dirs, join_path, print, split_host_port, join_host_port, resolve, new_node, start_node,
    new_app, listen, serve_until_signal, close_listener, shut_down, close_app,
  }

  -- `net.SplitHostPort`, `net.ResolveIPAddr` and `net.JoinHostPort`
  abbrev pub bind_of : Bytes → Act W E Bytes
  bind_of address = do
    parts ←
        wrapping (wrap (msg "failed to split address: %q" (text address ∷ [])))
          (λ w. (from_reply (split_host_port address), w))
    ip ←
        wrapping (wrap (msg "failed to resolve host: %q" (text (parts.0) ∷ [])))
          (remote (resolve (parts.0)))
    pure (join_host_port ip (parts.1))

  -- The address of a node, and the one that it binds.
  abbrev pub addresses : ℕ → Bytes → Act W E (Bytes × Bytes)
  addresses id [] = let address = codes "127.0.0.1:918" ++ print id in pure (address, address)
  addresses id (c ∷ address) = bind_of (c ∷ address) >>= λ bind. pure (c ∷ address, bind)

  -- `nodeStart`. Where the start fails the node is returned as well, which the caller ignores then.
  unfoldable pub node_start : ℕ → Bytes → Bytes → Act W E N
  node_start id dir address =
      if id == 0 then throw (errorf (msg "ID must be greater than zero" [])) else do
        both ← addresses id address
        wrapping (wrap (msg "can't create dir %s" (text (join_path dir (print id)) ∷ [])))
            (remote (make_dirs (join_path dir (print id))))
        node ←
            wrapping (wrap (msg "failed to create node" []))
              (remote (new_node id (both.0) (join_path dir (print id)) (both.1)))
        wrapping (wrap (msg "failed to start node" [])) (remote (start_node node))
        pure node

  -- The TLS files, if any.
  abbrev pub tls_of : Option KeyPair → Act W E Bool
  tls_of none = pure false
  tls_of (some pair) =
      if not (equal pair.cert []) then (load_tls R pair >> pure true) else pure false

  -- `StartServer` up to `app.New`; `myIP` is called for the first log line.
  unfoldable pub prepare_server : Option KeyPair → Bytes → Act W E Bool
  prepare_server pair dir = do
    my_ip M
    wrapping (wrap (msg "can't create %s" (text dir ∷ []))) (remote (make_dirs dir))
    tls_of pair

  -- From the signal to the end of `StartServer`.
  unfoldable pub stop_server : A → L → Act W E (Unit {0})
  stop_server app listener w = (ok tt, close_app app (shut_down (close_listener listener w)))

  -- `StartServer`; its argument `id` matters to the log only.
  unfoldable pub start_server : ℕ → Option KeyPair → Bytes → Bytes → List Bytes → Act W E (Unit {0})
  start_server port pair dir address cluster = do
    tls ← prepare_server pair dir
    app ← wrapping (wrap (msg "no new app for you!" [])) (remote (new_app dir address cluster tls))
    listener ← remote (listen (codes "0.0.0.0:" ++ print port))
    (λ w. stop_server app listener (serve_until_signal app listener w))
