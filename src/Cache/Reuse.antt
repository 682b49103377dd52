-- ===== src/Cache/Reuse.antt =====
-- What the cache keeps, and what is lost when it gets empty.
use dqlited.Base.{◌≡◌, refl, sym, ap, ◌∙◌, List, ◌∷◌, Bytes, Option, none, some}
use dqlited.Text.Prefix.{equal_refl}
use dqlited.Go.{Outcome, ok, fail, panic, Reply, value, error, ok-injective}
use dqlited.Client.{KeyPair, Remote}
use dqlited.Cache.{
  connected, Connection, Driver, Pool, lookup, opened, open_after, found_or, get_db,
}

module _ {W E C D : Type 0} (R : Remote W E C) (G : Driver W E D) where
  lookup_front :
      (name : Bytes) (db : D) (cache : List (Bytes × D))
      → lookup name ((name, db) ∷ cache) ≡ some db
  unfolding lookup
  lookup_front name db cache = rw (equal_refl name)

  opened-lookup :
      (name : Bytes) (cache : List (Bytes × D)) (r : Reply D E × W) (db : D)
      → (opened R G name cache r).0 ≡ ok db
      → lookup name (opened R G name cache r).1.cache ≡ some db
  opened-lookup name cache (value d, w) db h =
      rw (lookup_front name d cache) (ap some (ok-injective h))
  opened-lookup name cache (error e, w) db h = cc

  open_after-lookup :
      (name : Bytes) (cache : List (Bytes × D)) (r : Outcome (Unit {0}) E × W) (db : D)
      → (open_after R G name cache r).0 ≡ ok db
      → lookup name (open_after R G name cache r).1.cache ≡ some db
  open_after-lookup name cache (ok _, w) db h =
      opened-lookup name cache (G.open_database name w) db h
  open_after-lookup name cache (fail e, w) db h = cc
  open_after-lookup name cache (panic, w) db h = cc

  found_or-lookup :
      (name : Bytes) (found : Option D) (other : Outcome D E × Pool W D) (p : Pool W D) (db : D)
      → lookup name p.cache ≡ found
      → (other.0 ≡ ok db → lookup name other.1.cache ≡ some db)
      → (found_or R G found other p).0 ≡ ok db
      → lookup name (found_or R G found other p).1.cache ≡ some db
  found_or-lookup name (some d) other p db e k h = e ∙ ap some (ok-injective h)
  found_or-lookup name none other p db e k h = k h

  pub get_db-lookup :
      (pair : Option KeyPair) (name : Bytes) (cluster : List Bytes) (p : Pool W D) (db : D)
      → (get_db R G pair name cluster p).0 ≡ ok db
      → lookup name (get_db R G pair name cluster p).1.cache ≡ some db
  unfolding get_db
  get_db-lookup pair name cluster p db h =
      found_or-lookup name (lookup name p.cache) _ p db refl
        (λ k. open_after-lookup name p.cache _ db k) h

  pub get_db_found :
      (pair : Option KeyPair) (name : Bytes) (cluster : List Bytes) (p : Pool W D) (db : D)
      → lookup name p.cache ≡ some db
      → get_db R G pair name cluster p ≡ (ok db, p)
  unfolding get_db
  get_db_found pair name cluster p db h = rw h

  -- Once `getDB` has returned a database for a name, it returns the same one for that name, for any
  -- keys and any cluster, and does nothing else.
  get_db_again :
      (pair pair' : Option KeyPair) (name : Bytes) (cluster cluster' : List Bytes) (p : Pool W D)
      (db : D)
      → (get_db R G pair name cluster p).0 ≡ ok db
      → get_db R G pair' name cluster' (get_db R G pair name cluster p).1
        ≡ (ok db, (get_db R G pair name cluster p).1)
  get_db_again pair pair' name cluster cluster' p db h =
      get_db_found pair' name cluster' _ db (get_db-lookup pair name cluster p db h)

  -- A connection that `NewConnection` returns has the database that `getDB` returned, and its name.
  pub connected-ok :
      (name : Bytes) (o : Outcome D E) (dx : Connection D)
      → connected R G name o ≡ ok dx
      → (o ≡ ok dx.db) × (dx.name ≡ name)
  connected-ok name (ok db) dx h =
      let e = ok-injective h in (ap (λ c. ok (c.db)) e, sym (ap (λ c. c.name) e))
  connected-ok name (fail e) dx h = cc
  connected-ok name panic dx h = cc
