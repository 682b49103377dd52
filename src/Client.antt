-- ===== src/Client.antt =====
-- client.go and log.go: the list of nodes to ask, the connection to the leader, and log filters.
-- `github.com/canonical/go-dqlite/client`, the TLS files and the network are the record `Remote`.
pub mod Store
use dqlited.Base.{
  ℕ, suc, ◌+◌, ◌%◌, ◌^◌, Bool, true, false, not, ◌&&◌, List, [], ◌∷◌, ◌++◌, Bytes, codes, Option,
  none, some, leb, if◌then◌else◌,
}
use dqlited.Text.{equal}
use dqlited.Go.{
  Act, Outcome, ok, fail, panic, pure, throw, ◌>>=◌, ◌>>◌, Reply, value, error, from_reply, Message,
  msg,
}

-- `client.NodeRole`, by the three constants that cluster.go takes from there.
pub data NodeRole : Type 0 where
  voter standby spare : NodeRole

-- `client.NodeInfo`
pub record NodeInfo : Type 0 where
  pub id : ℕ
  pub address : Bytes
  pub role : NodeRole

-- A `client.NodeInfo` of which only the two fields that `getStore` sets matter.
pub record Peer : Type 0 where
  pub id : ℕ
  pub address : Bytes

-- `KeyPair`
pub record KeyPair : Type 0 where
  pub cert : Bytes
  pub key : Bytes

-- A file of `client.Dump`.
pub record File : Type 0 where
  pub name : Bytes
  pub contents : Bytes

-- Code outside the repository. `W` is the cluster, the files and the network, `E` the type of
-- errors, `C` that of connections. Nothing is assumed of it here.
pub record Remote (W E C : Type 0) : Type 0 where
  pub errorf : Message → E
  pub wrap : Message → E → E
  -- `tls.LoadX509KeyPair`, `ioutil.ReadFile`, `AppendCertsFromPEM`
  pub load_key_pair : Bytes → Bytes → W → Reply (Unit {0}) E × W
  pub read_file : Bytes → W → Reply Bytes E × W
  pub append_certs : Bytes → Bool
  -- `client.FindLeader`; the flag tells whether the dial function uses TLS
  pub find_leader : Bool → List Peer → W → Reply C E × W
  pub close : C → W → W
  pub leader : C → W → Reply NodeInfo E × W
  pub cluster : C → W → Reply (List NodeInfo) E × W
  pub assign : C → ℕ → NodeRole → W → Reply (Unit {0}) E × W
  pub transfer : C → ℕ → W → Reply (Unit {0}) E × W
  pub remove : C → ℕ → W → Reply (Unit {0}) E × W
  pub add : C → NodeInfo → W → Reply (Unit {0}) E × W
  pub dump : C → Bytes → W → Reply (List File) E × W
  -- `os.Create` and `Write`
  pub create : Bytes → W → Reply (Unit {0}) E × W
  pub write : Bytes → Bytes → W → Reply (Unit {0}) E × W

-- `defaultCluster` of cluster.go
abbrev pub default_cluster : List Bytes
default_cluster = codes "127.0.0.1:9181" ∷ codes "127.0.0.1:9182" ∷ codes "127.0.0.1:9183" ∷ []

-- The loop of `getStore`, from index `i`, with IDs `uint64(i + 1)`.
unfoldable pub node_infos : ℕ → List Bytes → List Peer
node_infos i [] = []
node_infos i (address ∷ cluster) =
    record { id = (i + 1) % 2 ^ 64; address = address } ∷ node_infos (i + 1) cluster

-- `getStore`: the nodes that the store is given.
unfoldable pub get_store : List Bytes → List Peer
get_store [] = node_infos 0 default_cluster
get_store (address ∷ cluster) = node_infos 0 (address ∷ cluster)

-- The function that `NewLogFunc` returns: what it prints, if anything.
unfoldable pub log_func : ℕ → Bytes → ℕ → Bytes → Option Bytes
log_func level prefix l format = if leb level l then some (prefix ++ format) else none

module _ {W E C : Type 0} (R : Remote W E C) where
  open R use {errorf, load_key_pair, read_file, append_certs, find_leader}

  -- The files of a key pair are read, and the certificate goes into a pool.
  abbrev pub load_tls : KeyPair → Act W E (Unit {0})
  load_tls pair = do
    (λ w. let (r, w') = load_key_pair pair.cert pair.key w in (from_reply r, w'))
    pem ← (λ w. let (r, w') = read_file pair.cert w in (from_reply r, w'))
    if append_certs pem then pure tt else throw (errorf (msg "bad certificate" []))

  abbrev pub find : Bool → List Bytes → Act W E C
  find tls nodes w = let (r, w') = find_leader tls (get_store nodes) w in (from_reply r, w')

  -- `getLeader`, with TLS where a pair is given and names a certificate.
  unfoldable pub get_leader : Option KeyPair → List Bytes → Act W E C
  get_leader none nodes = find false nodes
  get_leader (some pair) nodes =
      if not (equal pair.cert [])
      then (load_tls pair >>= λ _. find true nodes)
      else find false nodes
