-- ===== src/Cache.antt =====
-- The cache of databases of db.go, `dbxDB`: `getDB`, `NewConnection` and `DBX.Close`.
pub mod Reuse
pub mod Reopen
pub mod Sharing
pub mod Entries
use dqlited.Base.{Bool, true, false, not, List, [], ◌∷◌, Bytes, Option, none, some, if◌then◌else◌}
use dqlited.Text.{equal}
use dqlited.Go.{
  Act, Outcome, ok, fail, panic, pure, throw, crash, map_fail, wrapping, ◌>>=◌, ◌>>◌, Reply, value,
  error, from_reply, msg,
}
use dqlited.Client.{KeyPair, Peer, Remote, get_store, load_tls}

-- Code outside the repository: `driver.New`, with whether it dials by TLS, `sql.Register`, which may
-- panic, `sql.Open`, and two methods of `sql.DB`, of which `D` is the type. Nothing is assumed of it
-- here.
pub record Driver (W E D : Type 0) : Type 0 where
  pub create : Bool → List Peer → W → Reply (Unit {0}) E × W
  pub register : W → Outcome (Unit {0}) E × W
  pub open_database : Bytes → W → Reply D E × W
  pub set_max_open : D → W → W
  pub close_database : D → W → Reply (Unit {0}) E × W

-- `dbxDB`, and the world outside
pub record Pool (W D : Type 0) : Type 0 where
  pub cache : List (Bytes × D)
  pub world : W

-- What `NewConnection` sets of a `DBX`.
pub record Connection (D : Type 0) : Type 0 where
  pub db : D
  pub name : Bytes

module _ {D : Type 0} where
  -- `dbxDB[name]`
  unfoldable pub lookup : Bytes → List (Bytes × D) → Option D
  lookup name [] = none
  lookup name ((key, db) ∷ cache) = if equal key name then some db else lookup name cache

  -- `delete(dbxDB, name)`
  unfoldable pub delete : Bytes → List (Bytes × D) → List (Bytes × D)
  delete name [] = []
  delete name ((key, db) ∷ cache) =
      let rest = delete name cache in if equal key name then rest else (key, db) ∷ rest

module _ {W E C D : Type 0} (R : Remote W E C) (G : Driver W E D) where
  open R use {wrap}
  open G use {create, register, open_database, set_max_open, close_database}

  abbrev pub dial : Option KeyPair → Act W E Bool
  dial none = pure false
  dial (some pair) = if not (equal pair.cert []) then (load_tls R pair >> pure true) else pure false

  -- `driver.New`
  abbrev pub made : List Bytes → Bool → Act W E (Unit {0})
  made cluster tls =
      wrapping (wrap (msg "failed to create dqlite driver" []))
        λ w. let (r, w') = create tls (get_store cluster) w in (from_reply r, w')

  -- The driver is made and registered, which only an empty cache calls for.
  unfoldable pub set_up : Option KeyPair → List Bytes → Act W E (Unit {0})
  set_up pair cluster = do tls ← dial pair; made cluster tls; register

  abbrev pub prepare : List (Bytes × D) → Option KeyPair → List Bytes → Act W E (Unit {0})
  prepare [] pair cluster = set_up pair cluster
  prepare (x ∷ cache) pair cluster = pure tt

  -- `sql.Open` and what follows it. On an error `db` is nil, and `db.SetMaxOpenConns` panics.
  abbrev pub opened : Bytes → List (Bytes × D) → Reply D E × W → Outcome D E × Pool W D
  opened name cache (value db, w) =
      (ok db, record { cache = (name, db) ∷ cache; world = set_max_open db w })
  opened name cache (error e, w) = (panic, record { cache = cache; world = w })

  abbrev pub open_after :
      Bytes → List (Bytes × D) → Outcome (Unit {0}) E × W → Outcome D E × Pool W D
  open_after name cache (ok _, w) = opened name cache (open_database name w)
  open_after name cache (fail e, w) = (fail e, record { cache = cache; world = w })
  open_after name cache (panic, w) = (panic, record { cache = cache; world = w })

  abbrev pub found_or : Option D → Outcome D E × Pool W D → Pool W D → Outcome D E × Pool W D
  found_or (some db) other p = (ok db, p)
  found_or none other p = other

  -- `getDB`
  unfoldable pub get_db : Option KeyPair → Bytes → List Bytes → Act (Pool W D) E D
  get_db pair name cluster p =
      found_or (lookup name p.cache)
        (open_after name p.cache (prepare p.cache pair cluster p.world)) p

  abbrev pub connected : Bytes → Outcome D E → Outcome (Connection D) E
  connected name (ok db) = ok (record { db = db; name = name })
  connected name (fail e) = fail e
  connected name panic = panic

  -- `NewConnection`
  unfoldable pub new_connection :
      Option KeyPair → Bytes → List Bytes → Act (Pool W D) E (Connection D)
  new_connection pair name cluster p =
      let (o, p') = get_db pair name cluster p in (connected name o, p')

  -- `DBX.Close`
  unfoldable pub close : Connection D → Act (Pool W D) E (Unit {0})
  close dx p =
      let (r, w) = close_database dx.db p.world in
      (from_reply r, record { cache = delete dx.name p.cache; world = w })
