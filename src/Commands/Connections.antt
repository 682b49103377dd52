-- ===== src/Commands/Connections.antt =====
-- The connections that the commands of main.go open and close.
use dqlited.Base.{ℕ, ◌+◌, ◌≡◌, refl, List, [], ◌∷◌, Bytes, arith, Option, none, some, ◌==◌}
use dqlited.Go.{Act, Outcome, ok, fail, panic, continue, Reply, value, error}
use dqlited.Client.{NodeRole, Remote, get_leader}
use dqlited.Cluster.{node_add, node_role, add_unless, known}
use dqlited.Cluster.Pool.{
  Quiet, IsMeter, get_leader-Found, leaving_open, operations-Balanced, remote-Quiet, wrapping-Quiet,
  bind-Quiet, if-Quiet, throw-Quiet,
}
use dqlited.Commands.{
  global_keys, status_command, leader_command, remove_command, transfer_to, transfer_command,
  add_command, assign_id, assign_all, assign_role, assign_command,
}

module _ {W E C : Type 0} (R : Remote W E C) (opened closed : W → ℕ) (m : IsMeter R opened closed)
    (parse_uint : Bytes → Reply ℕ E) where
  -- As many connections are closed as are opened.
  abbrev pub Even : {A : Type 0} → (W → A × W) → Type 0
  Even f = (w : W) → opened (f w).1 + closed w ≡ opened w + closed (f w).1

  transfer_to-Even :
      (cluster : List Bytes) (r : Reply ℕ E) → Even (transfer_to R parse_uint cluster r)
  transfer_to-Even cluster (error e) w = refl
  transfer_to-Even cluster (value id) w =
      (operations-Balanced R opened closed m global_keys id NodeRole.voter cluster).2 w

  assign_id-Even :
      (role : NodeRole) (cluster : List Bytes) (r : Reply ℕ E)
      → Even (assign_id R parse_uint role cluster r)
  assign_id-Even role cluster (error e) w = refl
  assign_id-Even role cluster (value id) w =
      (operations-Balanced R opened closed m global_keys id role cluster).0 w

  continue-Even :
      {A B : Type 0} (f : A → Act W E B) (o : Outcome A E) (w w' : W)
      → ((a : A) → Even (f a))
      → opened w' + closed w ≡ opened w + closed w'
      → opened (continue o f w').1 + closed w ≡ opened w + closed (continue o f w').1
  continue-Even f (ok a) w w' k h = omega (arith, k a w')
  continue-Even f (fail e) w w' k h = h
  continue-Even f panic w w' k h = h

  assign_all-Even :
      (role : NodeRole) (cluster args : List Bytes)
      → Even (assign_all R parse_uint role cluster args)
  unfolding assign_all
  assign_all-Even role cluster [] w = refl
  assign_all-Even role cluster (arg ∷ args) w =
      continue-Even _ (assign_id R parse_uint role cluster (parse_uint arg) w).0 w _
        (λ _. assign_all-Even role cluster args) (assign_id-Even role cluster (parse_uint arg) w)

  assign_role-Even :
      (args cluster : List Bytes) (o : Outcome NodeRole E)
      → Even (assign_role R parse_uint args cluster o)
  assign_role-Even args cluster (ok role) w = assign_all-Even role cluster args w
  assign_role-Even args cluster (fail e) w = refl
  assign_role-Even args cluster panic w = refl

  -- By counters that follow the connections, the commands `status`, `leader`, `remove`, `transfer` and
  -- `assign`, also of several nodes, close as many connections as they open, however they end.
  pub commands-Even :
      (id : ℕ) (arg chosen : Bytes) (args cluster : List Bytes)
      → Even (status_command R cluster)
        × Even (leader_command R cluster)
        × Even (remove_command R id cluster)
        × Even (transfer_command R parse_uint arg cluster)
        × Even (assign_command R parse_uint args chosen cluster)
  unfolding status_command leader_command remove_command transfer_command assign_command
  commands-Even id arg chosen args cluster =
      let operations =
        operations-Balanced R opened closed m global_keys id NodeRole.voter cluster in
      (
        operations.4,
        operations.1,
        operations.3,
        transfer_to-Even cluster (parse_uint arg),
        assign_role-Even args cluster (node_role R chosen),
      )

  add_unless-Quiet :
      (client : C) (id : ℕ) (role : NodeRole) (address : Bytes) (o : Option (Outcome (Unit {0}) E))
      → Quiet R opened closed (add_unless R client id role address o)
  add_unless-Quiet client id role address (some o) = record {
    opens = λ w. refl;
    closes = λ w. refl;
  }
  add_unless-Quiet client id role address none =
      wrapping-Quiet R opened closed _ (remote-Quiet R opened closed (m.add-Quiet client _))

  node_add-Quiet :
      (client : C) (id : ℕ) (role : NodeRole) (address : Bytes)
      → Quiet R opened closed (node_add R client id role address)
  unfolding node_add
  node_add-Quiet client id role address =
      if-Quiet R opened closed (id == 0) (throw-Quiet R opened closed _) (
        bind-Quiet R opened closed _ _
          (wrapping-Quiet R opened closed _ (remote-Quiet R opened closed (m.cluster-Quiet client)))
          (λ nodes. add_unless-Quiet client id role address (known R id address nodes)))

  -- By counters that follow the connections, the command `add` leaves open the connection to the
  -- leader that it finds, whether the node is added or not.
  add_command_leaks :
      (arg chosen address : Bytes) (cluster : List Bytes) (w : W) (id : ℕ) (role : NodeRole) (c : C)
      → parse_uint arg ≡ value id
      → node_role R chosen ≡ ok role
      → (get_leader R global_keys cluster w).0 ≡ ok c
      → (opened (add_command R parse_uint arg chosen address cluster w).1 ≡ opened w + 1)
        × (closed (add_command R parse_uint arg chosen address cluster w).1 ≡ closed w)
  unfolding add_command
  add_command_leaks arg chosen address cluster w id role c parsed known found =
      rw (parsed, known)
        (leaving_open R opened closed _ (λ client. node_add R client id role address) w _ c
          (get_leader-Found R opened closed m global_keys cluster w) found
          (λ client. node_add-Quiet client id role address))
