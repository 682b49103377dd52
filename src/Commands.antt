-- ===== src/Commands.antt =====
-- The commands of main.go: what the `RunE` of each does, and how the process ends. `cobra` has parsed
-- the flags and checked the number of arguments; contexts are left out.
pub mod Exits
pub mod Loading
pub mod Connections
pub mod Roles
pub mod Table
use dqlited.Base.{
  ℕ, zero, suc, Bool, true, false, not, List, [], ◌∷◌, ◌++◌, map, Bytes, codes, Option, none, some,
  if◌then◌else◌,
}
use dqlited.Text.{equal, join}
use dqlited.Go.{
  Act, Outcome, ok, fail, panic, pure, throw, wrapping, continue, ◌>>=◌, ◌>>◌, Reply, value, error,
  from_reply, Host, msg, text,
}
use dqlited.Client.{NodeRole, voter, KeyPair, Remote, get_leader}
use dqlited.Cluster.{
  remote, Line, cluster_show, leader_id, transfer, remove, node_add, node_role, assign, omit,
}
use dqlited.Cache.{Driver, Connection, new_connection}
use dqlited.Session.{Process, Disk, on_pool, on_state, close_only, db_cmd, db_file, db_report}
use dqlited.Dump.{db_dump}
use dqlited.Flags.{FlagChoice, map_keys}
use dqlited.Node.{Machine, start_server}
use dqlited.Db.{State}
use dqlited.Hammer.{Tools, hammer_prep, hammer_time}

-- How a command ends: with a nil error, with an error, by `os.Exit(1)` or `log.Fatal`, which exit at
-- once, or by a panic.
pub data Ending (E : Type 0) : Type 0 where
  done : Ending E
  failed : E → Ending E
  exited : Ending E
  crashed : Ending E

-- The exit code of the process: `main` exits with 1 if the command returns an error, and a panic
-- with 2.
unfoldable pub exit_code : {E : Type 0} → Ending E → ℕ
exit_code done = 0
exit_code (failed e) = 1
exit_code exited = 1
exit_code crashed = 2

-- `globalKeys`
abbrev pub global_keys : Option KeyPair
global_keys = some (record { cert = codes "cluster.crt"; key = codes "cluster.key" })

module _ {E A : Type 0} where
  -- `return err`
  abbrev pub returned : Outcome A E → Ending E
  returned (ok a) = done
  returned (fail e) = failed e
  returned panic = crashed

  -- `if err != nil { …; os.Exit(1) }`, and `return nil`
  abbrev pub or_exit : Outcome A E → Ending E
  or_exit (ok a) = done
  or_exit (fail e) = exited
  or_exit panic = crashed

  -- the error is dropped, and `return nil`
  abbrev pub dropped : Outcome A E → Ending E
  dropped (ok a) = done
  dropped (fail e) = done
  dropped panic = crashed

module _ {S E A : Type 0} where
  abbrev pub ending : (Outcome A E → Ending E) → Act S E A → S → Ending E × S
  ending f m s = let (o, s') = m s in (f o, s')

-- The log levels of the dqlite client that main.go names.
pub data Level : Type 0 where
  debug_level info_level warn_level error_level : Level

-- The levels that the flag `level` may name.
unfoldable pub log_level : Bytes → Option Level
log_level level =
    if equal level (codes "debug")
    then some debug_level
    else if equal level (codes "info")
    then some info_level
    else if equal level (codes "warn")
    then some warn_level
    else if equal level (codes "error")
    then some error_level
    else none

-- The flag `role` of `newAddnode` and `newAssign`: the keys of the map `roles`, in the order in which
-- Go ranges over it, by the name and the number of each role in the dqlite client.
unfoldable pub role_flag : (NodeRole → Bytes) → (NodeRole → ℕ) → List NodeRole → FlagChoice
role_flag role_name number order = record {
  choices = map_keys (map (λ r. (role_name r, number r)) order);
  chosen = role_name voter;
}

module _ {W E C : Type 0} (R : Remote W E C) where
  open R use {errorf, wrap, create}

  abbrev log_output : Bytes → Level → Act W E Level
  log_output [] run = pure run
  log_output (c ∷ logfile) run =
      wrapping (wrap (msg "error opening log file: %s" (text (c ∷ logfile) ∷ [])))
        (remote (create (c ∷ logfile)))
      >>= λ _. pure run

  abbrev known_level : Bytes → Bytes → Option Level → Act W E Level
  known_level level logfile none = throw (errorf (msg "invalid log level: %s" (text level ∷ [])))
  known_level level logfile (some run) = log_output logfile run

  -- `PersistentPreRunE` of `newRoot`, which runs before each command: the default log level.
  unfoldable pub pre_run : Bytes → Bytes → Act W E Level
  pre_run level logfile = known_level level logfile (log_level level)

  -- `newStatus`, `newLeaderID` and `newRemove`
  unfoldable pub status_command : List Bytes → W → Ending E × W
  status_command cluster = ending returned (cluster_show R global_keys cluster)

  unfoldable pub leader_command : List Bytes → W → Ending E × W
  leader_command cluster = ending returned (leader_id R global_keys cluster)

  unfoldable pub remove_command : ℕ → List Bytes → W → Ending E × W
  remove_command id cluster = ending returned (remove R global_keys id cluster)

  -- `newDumper`
  unfoldable pub dump_command : Bytes → List Bytes → W → Ending E × W
  dump_command name cluster = ending returned (db_dump R global_keys name cluster)

  -- The commands that read IDs, by `strconv.ParseUint(_, 10, 64)`.
  module _ (parse_uint : Bytes → Reply ℕ E) where
    abbrev pub transfer_to : List Bytes → Reply ℕ E → W → Ending E × W
    transfer_to cluster (error e) w = (failed e, w)
    transfer_to cluster (value id) w = ending or_exit (transfer R global_keys id cluster) w

    -- `newTransfer`
    unfoldable pub transfer_command : Bytes → List Bytes → W → Ending E × W
    transfer_command arg cluster = transfer_to cluster (parse_uint arg)

    -- `newAddnode`: each error exits, and the client is not closed.
    unfoldable pub add_command : Bytes → Bytes → Bytes → List Bytes → W → Ending E × W
    add_command arg chosen address cluster = ending or_exit do
      id ← (λ w. (from_reply (parse_uint arg), w))
      role ← (λ w. (node_role R chosen, w))
      client ← get_leader R global_keys cluster
      node_add R client id role address

    abbrev pub assign_id : NodeRole → List Bytes → Reply ℕ E → Act W E (Unit {0})
    assign_id role cluster (error e) = throw e
    assign_id role cluster (value id) = assign R global_keys id role cluster

    -- The loop of `newAssign`.
    unfoldable pub assign_all : NodeRole → List Bytes → List Bytes → Act W E (Unit {0})
    assign_all role cluster [] = pure tt
    assign_all role cluster (arg ∷ args) =
        assign_id role cluster (parse_uint arg) >>= λ _. assign_all role cluster args

    abbrev pub assign_role : List Bytes → List Bytes → Outcome NodeRole E → W → Ending E × W
    assign_role args cluster (ok role) w = ending or_exit (assign_all role cluster args) w
    assign_role args cluster (fail e) w = (failed e, w)
    assign_role args cluster panic w = (crashed, w)

    -- `newAssign`
    unfoldable pub assign_command : List Bytes → Bytes → List Bytes → W → Ending E × W
    assign_command args chosen cluster = assign_role args cluster (node_role R chosen)

module _ {W E C D : Type 0} (R : Remote W E C) (G : Driver W E D) (H : D → Host W E)
    (K : Disk W E) where
  -- `newAdhoc`
  unfoldable pub adhoc_command :
      List Bytes → Bytes → List Bytes → Bool → Bool → Process W D → Ending E × Process W D
  adhoc_command args name cluster headless divs =
      ending or_exit
        (db_cmd R G H K global_keys name cluster (not headless) divs (join args (codes " ")))

  -- `newLoad`, which drops the error of `dbFile`
  unfoldable pub load_command :
      Bytes → Bytes → Bool → List Bytes → Process W D → Ending E × Process W D
  load_command [] name batched cluster p = (exited, p)
  load_command (c ∷ file_name) name batched cluster p =
      ending dropped (db_file R G H K global_keys (c ∷ file_name) name batched cluster) p

  -- `newReport`, which drops the error of `dbReport`
  unfoldable pub report_command :
      Bytes → Bytes → List Bytes → Bool → Bool → Process W D → Ending E × Process W D
  report_command file_name name cluster headers lines =
      ending dropped (db_report R G H K global_keys file_name name headers lines cluster)

  module _ (T : Tools W E) where
    -- An action on the world, within the process.
    abbrev pub on_world : {A : Type 0} → Act W E A → Act (Process W D) E A
    on_world m p =
        let (o, w) = m p.pool.world in (o, record p { pool = record p.pool { world = w } })

    -- Behind `hammerPrep`; what `defer dx.db.Close()` does is not reached by a `log.Fatal`.
    abbrev hammer_on :
        Connection D → ℕ → Outcome (Unit {0}) E → Process W D → Ending E × Process W D
    hammer_on dx count (fail e) p = (exited, p)
    hammer_on dx count panic p = (crashed, (close_only R G H K dx p).1)
    hammer_on dx count (ok _) p =
        let (o, p') = on_world (hammer_time (H dx.db) T count) p in
        (dropped o, (close_only R G H K dx p').1)

    abbrev hammer_over : ℕ → Outcome (Connection D) E → Process W D → Ending E × Process W D
    hammer_over count (fail e) p = (exited, p)
    hammer_over count panic p = (crashed, p)
    hammer_over count (ok dx) p =
        let (o, p') = on_world (hammer_prep (H dx.db) T) p in hammer_on dx count o p'

    -- `newHammer` and `hammer`
    unfoldable pub hammer_command : ℕ → Bytes → List Bytes → Process W D → Ending E × Process W D
    hammer_command count name cluster p =
        let (o, p') = on_pool (new_connection R G global_keys name cluster) p in
        hammer_over count o p'

module _ {W E C N A L : Type 0} (R : Remote W E C) (M : Machine W E N A L) where
  -- `newServer`, which drops the error of `StartServer`
  unfoldable pub server_command : ℕ → Bytes → Bytes → List Bytes → W → Ending E × W
  server_command port dir address cluster =
      ending dropped (start_server R M port global_keys dir address ((omit address cluster).0))
