-- ===== src/Cache/Reopen.antt =====
-- What happens when the last connection is closed and another one is opened.
use dqlited.Base.{
  ◌≡◌, ◌≢◌, refl, sym, ap, ◌∙◌, Bool, true, false, not, if◌then◌else◌, List, [], ◌∷◌, Bytes, Option,
  none, some,
}
use dqlited.Text.{equal}
use dqlited.Text.Prefix.{equal_refl}
use dqlited.Go.{
  Act, Outcome, ok, fail, panic, continue, ◌>>=◌, Reply, value, error, continue-ne-ok, ok-injective,
}
use dqlited.Client.{KeyPair, Peer, Remote, get_store, load_tls}
use dqlited.Cluster.{remote}
use dqlited.Cache.Reuse.{connected-ok}
use dqlited.Cache.{
  Driver, Pool, Connection, lookup, delete, dial, made, set_up, opened, open_after, connected,
  get_db, new_connection, close,
}

-- Where the next step lands if all ends well.
continue-Lands :
    {S E A B : Type 0} (Q : S → Type 0) (b : B) (f : A → Act S E B) (o : Outcome A E) (s : S)
    → ((a : A) → (f a s).0 ≡ ok b → Q (f a s).1)
    → (continue o f s).0 ≡ ok b
    → Q (continue o f s).1
continue-Lands Q b f (ok a) s k h = k a h
continue-Lands Q b f (fail e) s k h = cc
continue-Lands Q b f panic s k h = cc

continue-Keeps :
    {S E A B : Type 0} (Q : S → Type 0) (f : A → Act S E B) (o : Outcome A E) (s : S)
    → ((a : A) → Q (f a s).1)
    → Q s
    → Q (continue o f s).1
continue-Keeps Q f (ok a) s k q = k a
continue-Keeps Q f (fail e) s k q = q
continue-Keeps Q f panic s k q = q

module _ {W E C D : Type 0} (R : Remote W E C) (G : Driver W E D) (IsRegistered : W → Type 0) where
  -- A step behind which a driver that was registered still is.
  pub record Keeps {A : Type 0} (m : W → A × W) : Type 0 where
    pub kept : (w : W) → IsRegistered w → IsRegistered (m w).1

  -- `sql.Register` registers, and panics if the name is registered already; nothing takes a
  -- registration back.
  pub record IsRegistry : Type 0 where
    pub register_once : (w : W) → (G.register w).0 ≡ ok tt → IsRegistered (G.register w).1
    pub register_twice : (w : W) → IsRegistered w → (G.register w).0 ≡ panic
    pub load_key_pair-Keeps : (a b : Bytes) → Keeps (R.load_key_pair a b)
    pub read_file-Keeps : (a : Bytes) → Keeps (R.read_file a)
    pub create-Keeps : (tls : Bool) (peers : List Peer) → Keeps (G.create tls peers)
    pub open_database-Keeps : (name : Bytes) → Keeps (G.open_database name)
    pub close_database-Keeps : (db : D) → Keeps (G.close_database db)
    pub set_max_open-Keeps : (db : D) (w : W) → IsRegistered w → IsRegistered (G.set_max_open db w)

  bind-Keeps :
      {A B : Type 0} (m : Act W E A) (f : A → Act W E B)
      → Keeps m
      → ((a : A) → Keeps (f a))
      → Keeps (m >>= f)
  bind-Keeps m f q k = record {
    kept = λ w r.
        continue-Keeps IsRegistered f (m w).0 (m w).1 (λ a. (k a).kept (m w).1 (q.kept w r))
          (q.kept w r);
  }

  call-Keeps : {A : Type 0} {f : W → Reply A E × W} → Keeps f → Keeps (remote f)
  call-Keeps q = record { kept = q.kept }

  stay-Keeps : {A : Type 0} (o : Outcome A E) → Keeps (λ w. (o, w))
  stay-Keeps o = record { kept = λ w r. r }

  if-Keeps :
      {A : Type 0} (b : Bool) {m n : Act W E A} → Keeps m → Keeps n → Keeps (if b then m else n)
  if-Keeps true p q = p
  if-Keeps false p q = q

  module _ (g : IsRegistry) where
    load_tls-Keeps : (pair : KeyPair) → Keeps (load_tls R pair)
    load_tls-Keeps pair =
        bind-Keeps (remote (R.load_key_pair pair.cert pair.key)) _
          (call-Keeps (g.load_key_pair-Keeps pair.cert pair.key))
          (λ _.
            bind-Keeps (remote (R.read_file pair.cert)) _ (call-Keeps (g.read_file-Keeps pair.cert))
              (λ pem. if-Keeps (R.append_certs pem) (stay-Keeps (ok tt)) (stay-Keeps (fail _))))

    dial-Keeps : (pair : Option KeyPair) → Keeps (dial R G pair)
    dial-Keeps none = stay-Keeps (ok false)
    dial-Keeps (some pair) =
        if-Keeps (not (equal pair.cert []))
          (bind-Keeps (load_tls R pair) _ (load_tls-Keeps pair) (λ _. stay-Keeps (ok true)))
          (stay-Keeps (ok false))

    -- With a driver registered, another one cannot be set up.
    set_up-ne-ok :
        (pair : Option KeyPair) (cluster : List Bytes) (w : W)
        → IsRegistered w
        → (set_up R G pair cluster w).0 ≢ ok tt
    unfolding set_up
    set_up-ne-ok pair cluster w q =
        let dialled = (dial-Keeps pair).kept w q in
        continue-ne-ok _ (dial R G pair w).0 (dial R G pair w).1 tt (λ tls _.
          let w' = (dial R G pair w).1 in
          let made' = (g.create-Keeps tls (get_store cluster)).kept w' dialled in
          continue-ne-ok {A = Unit {0}} (λ _. G.register) (made R G cluster tls w').0
            (made R G cluster tls w').1 tt (λ _ _. rw (g.register_twice _ made') (λ p. cc)))

    set_up-Lands :
        (pair : Option KeyPair) (cluster : List Bytes) (w : W)
        → (set_up R G pair cluster w).0 ≡ ok tt
        → IsRegistered (set_up R G pair cluster w).1
    unfolding set_up
    set_up-Lands pair cluster w h =
        continue-Lands IsRegistered tt _ (dial R G pair w).0 (dial R G pair w).1
          (λ tls h'.
            let w' = (dial R G pair w).1 in
            continue-Lands {A = Unit {0}} IsRegistered tt (λ _. G.register)
              (made R G cluster tls w').0 (made R G cluster tls w').1
              (λ _ h''. g.register_once _ h'') h')
          h

    opened-Keeps :
        (name : Bytes) (r : Reply D E) (w : W)
        → IsRegistered w
        → IsRegistered (opened R G name [] (r, w)).1.world
    opened-Keeps name (value db) w q = g.set_max_open-Keeps db w q
    opened-Keeps name (error e) w q = q

    opened-cache :
        (name : Bytes) (r : Reply D E × W) (db : D)
        → (opened R G name [] r).0 ≡ ok db
        → (opened R G name [] r).1.cache ≡ (name, db) ∷ []
    opened-cache name (value d, w) db h = ap (λ x. (name, x) ∷ []) (ok-injective h)
    opened-cache name (error e, w) db h = cc

    open_after-Lands :
        (name : Bytes) (o : Outcome (Unit {0}) E) (w : W) (db : D)
        → (o ≡ ok tt → IsRegistered w)
        → (open_after R G name [] (o, w)).0 ≡ ok db
        → IsRegistered (open_after R G name [] (o, w)).1.world
          × ((open_after R G name [] (o, w)).1.cache ≡ (name, db) ∷ [])
    open_after-Lands name (ok _) w db q h = (
      opened-Keeps name (G.open_database name w).0 (G.open_database name w).1
          ((g.open_database-Keeps name).kept w (q refl)),
      opened-cache name (G.open_database name w) db h,
    )
    open_after-Lands name (fail e) w db q h = cc
    open_after-Lands name panic w db q h = cc

    open_after-ne-ok :
        (name : Bytes) (o : Outcome (Unit {0}) E) (w : W) (db : D)
        → o ≢ ok tt
        → (open_after R G name [] (o, w)).0 ≢ ok db
    open_after-ne-ok name (ok _) w db q = absurd (q refl)
    open_after-ne-ok name (fail e) w db q = λ p. cc
    open_after-ne-ok name panic w db q = λ p. cc

    -- With an empty cache and a registered driver `getDB` does not succeed.
    get_db-ne-ok :
        (pair : Option KeyPair) (name : Bytes) (cluster : List Bytes) (w : W) (db : D)
        → IsRegistered w
        → (get_db R G pair name cluster (record { cache = []; world = w })).0 ≢ ok db
    unfolding get_db lookup
    get_db-ne-ok pair name cluster w db q =
        open_after-ne-ok name (set_up R G pair cluster w).0 (set_up R G pair cluster w).1 db
          (set_up-ne-ok pair cluster w q)

    get_db-Lands :
        (pair : Option KeyPair) (name : Bytes) (cluster : List Bytes) (w : W) (db : D)
        → (get_db R G pair name cluster (record { cache = []; world = w })).0 ≡ ok db
        → IsRegistered (get_db R G pair name cluster (record { cache = []; world = w })).1.world
          × ((get_db R G pair name cluster (record { cache = []; world = w })).1.cache
              ≡ (name, db) ∷ [])
    unfolding get_db lookup
    get_db-Lands pair name cluster w db h =
        open_after-Lands name (set_up R G pair cluster w).0 (set_up R G pair cluster w).1 db
          (set_up-Lands pair cluster w) h

    -- The only entry of the cache goes, and the driver stays registered.
    close-empties :
        (dx : Connection D) (db : D) (p : Pool W D)
        → p.cache ≡ (dx.name, db) ∷ []
        → IsRegistered p.world
        → ((close R G dx p).1 ≡ record { cache = []; world = (close R G dx p).1.world })
          × IsRegistered (close R G dx p).1.world
    unfolding close delete
    close-empties dx db p h q =
        (rw (h, equal_refl dx.name), (g.close_database-Keeps dx.db).kept p.world q)

    connected-ne-ok :
        (name : Bytes) (o : Outcome D E) (dx : Connection D)
        → ((db : D) → o ≢ ok db)
        → connected R G name o ≢ ok dx
    connected-ne-ok name o dx k h = k dx.db (connected-ok R G name o dx h).0

    -- If `sql.Register` panics for a name that is taken, then a connection that was opened with the
    -- cache empty cannot be closed and followed by another one: `NewConnection` does not succeed behind
    -- its `Close`, for any name, keys and cluster.
    pub reopen-ne-ok :
        (pair pair' : Option KeyPair) (name name' : Bytes) (cluster cluster' : List Bytes) (w : W)
        (dx dx' : Connection D)
        → (new_connection R G pair name cluster (record { cache = []; world = w })).0 ≡ ok dx
        → (new_connection R G pair' name' cluster'
            (close R G dx
              (new_connection R G pair name cluster (record { cache = []; world = w })).1).1).0
          ≢ ok dx'
    unfolding new_connection
    reopen-ne-ok pair pair' name name' cluster cluster' w dx dx' h =
        let first = get_db R G pair name cluster (record { cache = []; world = w }) in
        let (e, named) = connected-ok R G name first.0 dx h in
        let (registered, only) = get_db-Lands pair name cluster w dx.db e in
        let (empty, kept) =
          close-empties dx dx.db first.1 (only ∙ ap (λ n. (n, dx.db) ∷ []) (sym named))
            registered in
        rw empty (
          connected-ne-ok name' _ dx'
            (λ db. get_db-ne-ok pair' name' cluster' (close R G dx first.1).1.world db kept))
