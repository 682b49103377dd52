-- ===== src/Cache/Sharing.antt =====
-- Two users of one database: `getDB` gives both the same `sql.DB`, and `DBX.Close` closes it and takes
-- its name out of the cache without asking which of them is left.
use dqlited.Base.{
  ◌≡◌, ◌≢◌, refl, ◌∙◌, List, [], ◌∷◌, Bytes, Option, none, some, inl, inr, Bool-cases,
}
use dqlited.Text.{equal}
use dqlited.Text.Prefix.{equal_refl, equal_iff}
use dqlited.Go.{ok, value}
use dqlited.Client.{KeyPair, Remote}
use dqlited.Cache.{Driver, Pool, Connection, lookup, delete, get_db, new_connection, close}
use dqlited.Cache.Entries.{lookup-delete}
use dqlited.Cache.Reuse.{get_db_found}

module _ {W E C D : Type 0} (R : Remote W E C) (G : Driver W E D) where
  connection_found :
      (pair : Option KeyPair) (name : Bytes) (cluster : List Bytes) (p : Pool W D) (db : D)
      → lookup name p.cache ≡ some db
      → new_connection R G pair name cluster p ≡ (ok (record { db = db; name = name }), p)
  unfolding new_connection
  connection_found pair name cluster p db h = rw (get_db_found R G pair name cluster p db h) refl

  -- With an entry in the cache the driver is registered, and a name that is missing is opened.
  connection_opened :
      (pair : Option KeyPair) (name : Bytes) (cluster : List Bytes) (cache : List (Bytes × D))
      (w w' : W) (other : Bytes) (kept new : D)
      → lookup name cache ≡ none
      → lookup other cache ≡ some kept
      → G.open_database name w ≡ (value new, w')
      → new_connection R G pair name cluster (record { cache = cache; world = w }) ≡ (
        ok (record { db = new; name = name }),
        record { cache = (name, new) ∷ cache; world = G.set_max_open new w' },
      )
  unfolding new_connection get_db lookup
  connection_opened pair name cluster [] w w' other kept new missing found opens = cc
  connection_opened pair name cluster (x ∷ cache) w w' other kept new missing found opens =
      rw (missing, opens) refl

  delete_own : (name : Bytes) (cache : List (Bytes × D)) → lookup name (delete name cache) ≡ none
  delete_own name cache = lookup-delete name name cache ∙ rw (equal_refl name) refl

  delete_other :
      (name other : Bytes) (cache : List (Bytes × D))
      → name ≢ other
      → lookup other (delete name cache) ≡ lookup other cache
  delete_other name other cache differ = elim (Bool-cases (equal name other)) [
    | inl same ↦ absurd (differ ((equal_iff name other).0 same))
    | inr differs ↦ lookup-delete name other cache ∙ rw differs refl
  ]

  -- Two connections to a name of the cache share its database. Where one is closed, a third to that
  -- name is opened, and then the second is closed, in a process that has another database in its
  -- cache: the third has the new database, the old database is closed a second time, and the new
  -- one, which nobody has closed, is no longer in the cache.
  pub shared_close :
      (pair : Option KeyPair) (name other : Bytes) (cluster : List Bytes) (p : Pool W D)
      (db kept new : D) (w : W)
      → lookup name p.cache ≡ some db
      → name ≢ other
      → lookup other p.cache ≡ some kept
      → G.open_database name (G.close_database db p.world).1 ≡ (value new, w)
      → let dx : Connection D = record { db = db; name = name } in
        let first = new_connection R G pair name cluster p in
        let second = new_connection R G pair name cluster first.1 in
        let third = new_connection R G pair name cluster (close R G dx second.1).1 in
        let behind = (close R G dx third.1).1 in
        (first.0 ≡ ok dx)
        × (second.0 ≡ ok dx)
        × (third.0 ≡ ok (record { db = new; name = name }))
        × (behind.world ≡ (G.close_database db (G.set_max_open new w)).1)
        × (lookup name behind.cache ≡ none)
  unfolding close
  shared_close pair name other cluster p db kept new w found differ there opens =
      let again = connection_found pair name cluster p db found in
      let opened =
        connection_opened pair name cluster (delete name p.cache) (G.close_database db p.world).1 w
          other kept new (delete_own name p.cache) (delete_other name other p.cache differ ∙ there)
          opens in
      rw (again, again, opened)
        (refl, refl, refl, refl, delete_own name ((name, new) ∷ delete name p.cache))
