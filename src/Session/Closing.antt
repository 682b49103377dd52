-- ===== src/Session/Closing.antt =====
-- What the one-shot commands leave in the cache.
use dqlited.Base.{
  ◌≡◌, ◌≢◌, refl, sym, ap, Bool, true, false, List, Bytes, arith, Option, none, some,
}
use dqlited.Go.{Act, Outcome, ok, fail, panic, continue, Reply, value, error, Host}
use dqlited.Client.{KeyPair, Remote}
use dqlited.Cache.{
  Driver, Pool, Connection, lookup, delete, found_or, opened, open_after, get_db, connected,
  new_connection, close,
}
use dqlited.Cache.Entries.{lookup-delete}
use dqlited.Text.Prefix.{equal_iff}
use dqlited.Cache.Reuse.{get_db-lookup, get_db_found, connected-ok}
use dqlited.Db.Eval.{eval}
use dqlited.Session.{
  Process, Disk, on_state, on_pool, deferring, load_file, query_file, close_only, db_cmd, db_file,
  db_report,
}

lookup-deleted :
    {D : Type 0} (name : Bytes) (cache : List (Bytes × D)) → lookup name (delete name cache) ≡ none
lookup-deleted name cache = ground (arith, lookup-delete name name cache, equal_iff name name)

module _ {W E C D : Type 0} (R : Remote W E C) (G : Driver W E D) (H : D → Host W E)
    (K : Disk W E) where
  found_or_failed :
      (name : Bytes) (found : Option D) (other : Outcome D E × Pool W D) (p : Pool W D)
      → lookup name p.cache ≡ found
      → (((db : D) → other.0 ≢ ok db) → other.1.cache ≡ p.cache)
      → ((db : D) → (found_or R G found other p).0 ≢ ok db)
      → lookup name (found_or R G found other p).1.cache ≡ none
  found_or_failed name (some db) other p e k h = absurd (h db refl)
  found_or_failed name none other p e k h = rw (k h) e

  opened_failed :
      (name : Bytes) (cache : List (Bytes × D)) (r : Reply D E × W)
      → ((db : D) → (opened R G name cache r).0 ≢ ok db)
      → (opened R G name cache r).1.cache ≡ cache
  opened_failed name cache (value db, w) h = absurd (h db refl)
  opened_failed name cache (error e, w) h = refl

  open_after_failed :
      (name : Bytes) (cache : List (Bytes × D)) (r : Outcome (Unit {0}) E × W)
      → ((db : D) → (open_after R G name cache r).0 ≢ ok db)
      → (open_after R G name cache r).1.cache ≡ cache
  open_after_failed name cache (ok _, w) h = opened_failed name cache (G.open_database name w) h
  open_after_failed name cache (fail e, w) h = refl
  open_after_failed name cache (panic, w) h = refl

  -- Where `getDB` does not succeed, the cache has no entry for the name.
  get_db_failed :
      (pair : Option KeyPair) (name : Bytes) (cluster : List Bytes) (p : Pool W D)
      → ((db : D) → (get_db R G pair name cluster p).0 ≢ ok db)
      → lookup name (get_db R G pair name cluster p).1.cache ≡ none
  unfolding get_db
  get_db_failed pair name cluster p h =
      found_or_failed name (lookup name p.cache) _ p refl (open_after_failed name p.cache _) h

  connected-ne-ok :
      (name : Bytes) (o : Outcome D E)
      → ((dx : Connection D) → connected R G name o ≢ ok dx)
      → (db : D) → o ≢ ok db
  connected-ne-ok name (ok d) h db = absurd (h _ refl)
  connected-ne-ok name (fail e) h db = λ p. cc
  connected-ne-ok name panic h db = λ p. cc

  -- What stands behind `NewConnection`, where it succeeds and where it does not.
  continue-cases :
      {B : Type 0} (P : Process W D → Type 0) (f : Connection D → Act (Process W D) E B)
      (o : Outcome (Connection D) E) (p : Process W D)
      → ((dx : Connection D) → o ≡ ok dx → P (f dx p).1)
      → (((dx : Connection D) → o ≢ ok dx) → P p)
      → P (continue o f p).1
  continue-cases P f (ok dx) p h k = h dx refl
  continue-cases P f (fail e) p h k = k (λ dx q. cc)
  continue-cases P f panic p h k = k (λ dx q. cc)

  module _ (pair : Option KeyPair) (name : Bytes) (cluster : List Bytes) (p : Process W D) where
    -- The state behind `NewConnection`.
    abbrev reached : Process W D
    reached = record p { pool = (new_connection R G pair name cluster p.pool).1 }

    -- The name is not in the cache.
    abbrev pub Forgot : Process W D → Type 0
    Forgot q = lookup name q.pool.cache ≡ none

    forgets :
        {B : Type 0} (f : Connection D → Act (Process W D) E B)
        → ((dx : Connection D) → dx.name ≡ name → Forgot (f dx reached).1)
        → Forgot (continue (new_connection R G pair name cluster p.pool).0 f reached).1
    unfolding new_connection
    forgets f k =
        continue-cases Forgot f (new_connection R G pair name cluster p.pool).0 reached
          (λ dx e. k dx (connected-ok R G name _ dx e).1)
          (λ h. get_db_failed pair name cluster p.pool (connected-ne-ok name _ h))

    close-Forgot :
        (dx : Connection D) (q : Process W D) → dx.name ≡ name → Forgot (on_pool (close R G dx) q).1
    unfolding close
    close-Forgot dx q e = rw e (lookup-deleted name q.pool.cache)

    -- Behind `dbCmd` and `dbFile`, however they end, the cache has no entry for the database that
    -- they used.
    pub one_shot-Forgot :
        (header divs batched : Bool) (statement file_name : Bytes)
        → Forgot (db_cmd R G H K pair name cluster header divs statement p).1
          × Forgot (db_file R G H K pair file_name name batched cluster p).1
    unfolding db_cmd db_file
    one_shot-Forgot header divs batched statement file_name = (
      forgets _ (λ dx e.
          close-Forgot dx
            (on_state (eval (H dx.db) (record { header = header; lines = divs }) statement)
              reached).1
            e),
      forgets _ (λ dx e.
          close-Forgot dx
            (deferring (close_only R G H K dx)
              (on_state
                (load_file (H dx.db) K (record { header = true; lines = false }) file_name batched))
              reached).1
            e),
    )

    module _ (dx : Connection D)
        (connects : (new_connection R G pair name cluster p.pool).0 ≡ ok dx) where
      found_behind : lookup name (new_connection R G pair name cluster p.pool).1.cache ≡ some dx.db
      unfolding new_connection
      found_behind =
          get_db-lookup R G pair name cluster p.pool dx.db (connected-ok R G name _ dx connects).0

      reconnect :
          (pair' : Option KeyPair) (cluster' : List Bytes) (q : Pool W D)
          → lookup name q.cache ≡ some dx.db
          → new_connection R G pair' name cluster' q ≡ (ok dx, q)
      unfolding new_connection
      reconnect pair' cluster' q h =
          let named = (connected-ok R G name _ dx (unfold new_connection in connects)).1 in
          rw (get_db_found R G pair' name cluster' q dx.db h)
            (ap (λ n. (ok (record { db = dx.db; name = n }), q)) (sym named))

      -- Where `dbReport` gets a connection, it closes the database and leaves it in the cache: the next
      -- `NewConnection` for the name, with any keys and cluster, returns that closed database.
      pub db_report_keeps_closed :
          (pair' : Option KeyPair) (cluster' : List Bytes) (file_name : Bytes) (header lines : Bool)
          → let q = (db_report R G H K pair file_name name header lines cluster p).1 in
            (((new_connection R G pair' name cluster' q.pool).0 ≡ ok dx)
              × ((new_connection R G pair' name cluster' q.pool).1 ≡ q.pool))
            × ((w : W) × (q.pool.world ≡ (G.close_database dx.db w).1))
      unfolding db_report
      db_report_keeps_closed pair' cluster' file_name header lines = rw connects (
        let read =
              (on_state
                (query_file (H dx.db) K (record { header = header; lines = lines }) file_name)
                reached).1 in
            let q : Pool W D = record {
              cache = (new_connection R G pair name cluster p.pool).1.cache;
              world = (G.close_database dx.db read.pool.world).1;
            } in
            let same = reconnect pair' cluster' q found_behind in
            (ap (λ r. r.0) same, ap (λ r. r.1) same),
        (_, refl),
      )

      -- `dbFile` closes its database twice.
      db_file_closes_twice :
          (file_name : Bytes) (batched : Bool)
          → (w : W) × ((db_file R G H K pair file_name name batched cluster p).1.pool.world
              ≡ (G.close_database dx.db (G.close_database dx.db w).1).1)
      unfolding db_file close
      db_file_closes_twice file_name batched = rw connects (_, refl)
