-- ===== src/Cluster.antt =====
-- cluster.go: operations on the nodes of a cluster, by a connection to its leader.
pub mod Nodes
pub mod Omit
pub mod Pool
use dqlited.Base.{
  ℕ, Bool, true, false, not, ◌||◌, List, [], ◌∷◌, ◌++◌, map, Bytes, codes, Option, none, some, ◌==◌,
  ltb, if◌then◌else◌,
}
use dqlited.Text.{equal, trim_left, to_lower}
use dqlited.Go.{
  Act, Outcome, ok, fail, panic, pure, throw, crash, wrapping, ◌>>=◌, ◌>>◌, Reply, from_reply, msg,
  text, num,
}
use dqlited.Client.{NodeRole, voter, standby, spare, NodeInfo, KeyPair, Remote, get_leader}

module _ {W E A : Type 0} where
  -- A call of foreign code.
  abbrev pub remote : (W → Reply A E × W) → Act W E A
  remote f w = let (r, w') = f w in (from_reply r, w')

-- `sort.Slice` by ID.
unfoldable pub insert : NodeInfo → List NodeInfo → List NodeInfo
insert n [] = n ∷ []
insert n (m ∷ ms) = if ltb m.id n.id then m ∷ insert n ms else n ∷ m ∷ ms

unfoldable pub sort : List NodeInfo → List NodeInfo
unfolding insert
sort [] = []
sort (n ∷ ns) = insert n (sort ns)

-- What `show` prints of a node.
pub record Line : Type 0 where
  pub id : ℕ
  pub role : NodeRole
  pub is_leader : Bool
  pub address : Bytes

module _ {W E C : Type 0} (R : Remote W E C) where
  open R use {errorf, wrap, close}

  -- `defer client.Close()`, which runs however the rest ends
  abbrev pub closing : {A : Type 0} → C → Act W E A → Act W E A
  closing c m w = let (o, w') = m w in (o, close c w')

  module _ (pair : Option KeyPair) where
    -- `Assign`
    unfoldable pub assign : ℕ → NodeRole → List Bytes → Act W E (Unit {0})
    assign id role cluster = do
      client ← get_leader R pair cluster
      closing client (remote (R.assign client id role))

    -- `LeaderID`
    unfoldable pub leader_id : List Bytes → Act W E ℕ
    leader_id cluster = do
      client ← wrapping (wrap (msg "error getting client" [])) (get_leader R pair cluster)
      closing client do
        leader ← wrapping (wrap (msg "error getting leader" [])) (remote (R.leader client))
        pure leader.id

    -- `Transfer`
    unfoldable pub transfer : ℕ → List Bytes → Act W E (Unit {0})
    transfer id cluster = do
      client ← get_leader R pair cluster
      closing client do
        wrapping (wrap (msg "error getting leader" [])) (remote (R.leader client))
        remote (R.transfer client id)

    -- `Remove`
    unfoldable pub remove : ℕ → List Bytes → Act W E (Unit {0})
    remove id cluster = do
      client ← get_leader R pair cluster
      closing client (remote (R.remove client id))

    -- `withClient`
    unfoldable pub with_client : {A : Type 0} → (C → Act W E A) → List Bytes → Act W E A
    with_client fn cluster = do
      client ←
          wrapping (wrap (msg "can't connect to cluster leader" [])) (get_leader R pair cluster)
      closing client (fn client)

  -- The loop of `exists`.
  unfoldable pub exists_loop : ℕ → Bytes → List NodeInfo → Outcome Bool E
  exists_loop id address [] = ok false
  exists_loop id address (node ∷ nodes) =
      if node.id == id
      then (if not (equal address node.address) then panic else ok true)
      else exists_loop id address nodes

  abbrev exists_reply : ℕ → Bytes → Outcome (List NodeInfo) E → Outcome Bool E
  exists_reply id address (ok nodes) = exists_loop id address nodes
  exists_reply id address (fail e) = panic
  exists_reply id address panic = panic

  -- `exists`, which panics on an error
  unfoldable pub exists : C → ℕ → Bytes → Act W E Bool
  exists client id address w =
      let (o, w') = remote (R.cluster client) w in (exists_reply id address o, w')

  -- The function that `statusFunc` returns: on an error the nodes are nil, and so is the error.
  unfoldable pub status : C → Act W E (List NodeInfo)
  status client w =
      let (o, w') = remote (R.cluster client) w in
      elim o [ ok nodes ↦ (ok (sort nodes), w') | _ ↦ (ok [], w') ]

  abbrev pub line_of : ℕ → NodeInfo → Line
  line_of leader node = record {
    id = node.id;
    role = node.role;
    is_leader = node.id == leader;
    address = node.address;
  }

  -- `show`: the lines of its table.
  unfoldable pub show : C → Act W E (List Line)
  show client = do
    leader ← wrapping (wrap (msg "can't get leader info" [])) (remote (R.leader client))
    nodes ← wrapping (wrap (msg "can't get cluster" [])) (remote (R.cluster client))
    pure (map (line_of leader.id) (sort nodes))

  -- `clusterShow`
  unfoldable pub cluster_show : Option KeyPair → List Bytes → Act W E (List Line)
  cluster_show pair = with_client pair show

  -- What the loop of `nodeAdd` finds: `none` if no node has the ID.
  unfoldable pub known : ℕ → Bytes → List NodeInfo → Option (Outcome (Unit {0}) E)
  known id address [] = none
  known id address (node ∷ nodes) =
      if id == node.id
      then some (
          if not (equal node.address address)
          then fail (
              errorf (
                msg "node:%d address: %q does not match existing address: %q"
                  (num id ∷ text address ∷ text node.address ∷ [])))
          else ok tt)
      else known id address nodes

  abbrev pub add_unless :
      C → ℕ → NodeRole → Bytes → Option (Outcome (Unit {0}) E) → Act W E (Unit {0})
  add_unless client id role address (some o) w = (o, w)
  add_unless client id role address none w =
      wrapping (wrap (msg "can't add node" []))
        (remote (R.add client (record { id = id; address = address; role = role }))) w

  -- `nodeAdd`
  unfoldable pub node_add : C → ℕ → NodeRole → Bytes → Act W E (Unit {0})
  node_add client id role address =
      if id == 0
      then throw (errorf (msg "ID must be greater than zero" []))
      else (wrapping (wrap (msg "get cluster nodes" [])) (remote (R.cluster client)) >>= λ nodes.
          add_unless client id role address (known id address nodes))

  -- `nodeRole`
  unfoldable pub node_role : Bytes → Outcome NodeRole E
  node_role s =
      let l = to_lower s in
      if equal l (codes "voter")
      then ok voter
      else if equal l (codes "standby") || equal l (codes "stand-by")
      then ok standby
      else if equal l (codes "spare")
      then ok spare
      else fail (errorf (msg "invalid role name: %q" (text s ∷ [])))

-- `omit`, with what the array behind the list holds after it: `append(list[:i], list[i+1:]...)`
-- moves the later items one place down and leaves the last one where it was.
abbrev pub shift : List Bytes → List Bytes
shift [] = []
shift (x ∷ []) = x ∷ []
shift (x ∷ y ∷ l) = y ∷ shift (y ∷ l)

unfoldable pub omit : Bytes → List Bytes → List Bytes × List Bytes
omit s [] = ([], [])
omit s (item ∷ list) =
    let (rest, array) = omit s list in
    if equal (trim_left b':' s) (trim_left b':' item)
    then (list, shift (item ∷ list))
    else (item ∷ rest, item ∷ array)
