-- ===== src/Web/Status.antt =====
-- `makeHandleStatus` of web.go, and the paths that `webHandlers` and `StartServer` register.
use dqlited.Base.{ℕ, zero, suc, ◌+◌, ◌≡◌, List, [], ◌∷◌, map, Bytes, codes, arith, inl, inr}
use dqlited.Go.{Reply, value, error, Reply-cases}
use dqlited.Client.{NodeInfo, NodeRole}

-- What stands behind a path.
pub data Page : Type 0 where
  profiling execute_page query_page status_page favicon home shutdown : Page

-- `webHandlers`, and behind them `/shutdown`
unfoldable pub routes : List (Bytes × Page)
routes =
    (codes "/debug/pprof/", profiling)
    ∷ (codes "/debug/pprof/cmdline", profiling)
    ∷ (codes "/debug/pprof/profile", profiling)
    ∷ (codes "/debug/pprof/symbol", profiling)
    ∷ (codes "/debug/pprof/trace", profiling)
    ∷ (codes "/db/execute/", execute_page)
    ∷ (codes "/db/query/", query_page)
    ∷ (codes "/status", status_page)
    ∷ (codes "/favicon.ico", favicon)
    ∷ (codes "/", home)
    ∷ (codes "/shutdown", shutdown)
    ∷ []

-- `nodeStatus`
pub record NodeStatus : Type 0 where
  pub id : ℕ
  pub address : Bytes
  pub role : Bytes

-- What the handler writes: the error with its status, or one JSON value.
pub data Written (E : Type 0) : Type 0 where
  http_error : ℕ → E → Written E
  statuses : List NodeStatus → Written E

-- Code outside the repository: `dq.Leader`, which opens a connection, `Cluster` of the connection, its
-- `Close`, and the text of a role.
pub record App (W E C : Type 0) : Type 0 where
  pub leader : W → Reply C E × W
  pub cluster : C → W → Reply (List NodeInfo) E × W
  pub role_name : NodeRole → Bytes

module _ {W E C : Type 0} (A : App W E C) where
  open A use {leader, cluster, role_name}

  abbrev status_of : NodeInfo → NodeStatus
  status_of node = record { id = node.id; address = node.address; role = role_name node.role }

  abbrev write_nodes : Reply (List NodeInfo) E × W → Written E × W
  write_nodes (value nodes, w) = (statuses (map status_of nodes), w)
  write_nodes (error e, w) = (http_error 500 e, w)

  abbrev write_leader : Reply C E × W → Written E × W
  write_leader (value client, w) = write_nodes (cluster client w)
  write_leader (error e, w) = (http_error 500 e, w)

  -- The handler that `makeHandleStatus` returns.
  unfoldable pub handle_status : W → Written E × W
  handle_status w = write_leader (leader w)

  -- The world behind `n` requests.
  abbrev pub after_requests : ℕ → W → W
  after_requests zero w = w
  after_requests (suc n) w = after_requests n (handle_status w).1

  module _ (opened closed : W → ℕ) where
    -- The counters follow the connections: `dq.Leader` opens one, and always finds a leader; `Cluster`
    -- opens and closes none.
    pub record IsMeter : Type 0 where
      pub finds : (w : W) → (client : C) × (w' : W) × (leader w ≡ (value client, w'))
      pub leader_opened : (w : W) → opened (leader w).1 ≡ opened w + 1
      pub leader_closed : (w : W) → closed (leader w).1 ≡ closed w
      pub cluster_opened : (client : C) (w : W) → opened (cluster client w).1 ≡ opened w
      pub cluster_closed : (client : C) (w : W) → closed (cluster client w).1 ≡ closed w

    module _ (m : IsMeter) where
      request_leaks :
          (w : W)
          → (opened (handle_status w).1 ≡ opened w + 1) × (closed (handle_status w).1 ≡ closed w)
      unfolding handle_status
      request_leaks w =
          let (client, w', x) = m.finds w in
          elim (Reply-cases (cluster client w')) [
            | inl (nodes, w'', y) ↦ ground (
              arith,
              x,
              y,
              m.leader_opened w,
              m.leader_closed w,
              m.cluster_opened client w',
              m.cluster_closed client w',
            )
            | inr (e, w'', y) ↦ ground (
              arith,
              x,
              y,
              m.leader_opened w,
              m.leader_closed w,
              m.cluster_opened client w',
              m.cluster_closed client w',
            )
          ]

      -- By counters that follow the connections, and with a leader to be found, each request to
      -- `/status` leaves a connection open: `n` requests leave `n`.
      status_leaks :
          (n : ℕ) (w : W)
          → (opened (after_requests n w) ≡ opened w + n) × (closed (after_requests n w) ≡ closed w)
      status_leaks zero w = omega arith
      status_leaks (suc n) w = omega (arith, request_leaks w, status_leaks n (handle_status w).1)
