-- ===== src/Cache/Entries.antt =====
-- The cache as a map: which entries `getDB` and `DBX.Close` change.
use dqlited.Base.{
  ap, sym, ◌∙◌, ◌≡◌, refl, List, [], ◌∷◌, Bytes, arith, Option, none, some, inl, inr, Bool-cases,
  if◌then◌else◌,
}
use dqlited.Text.{equal}
use dqlited.Text.Prefix.{equal_iff}
use dqlited.Go.{Outcome, ok, fail, panic, Reply, value, error}
use dqlited.Client.{KeyPair, Remote}
use dqlited.Cache.{
  Driver, Pool, Connection, lookup, delete, opened, open_after, found_or, get_db, close,
}

module _ {D : Type 0} where
  -- `delete` takes the entry of one name away.
  pub lookup-delete :
      (name key : Bytes) (cache : List (Bytes × D))
      → lookup key (delete name cache) ≡ (if equal name key then none else lookup key cache)
  unfolding lookup delete
  lookup-delete name key [] = ground arith
  lookup-delete name key ((k, db) ∷ cache) =
      ground
        (arith, equal_iff k name, equal_iff k key, equal_iff name key, lookup-delete name key cache)

  -- The map with another value, or none, at a name.
  abbrev pub set_entry : Bytes → Option D → List (Bytes × D) → Bytes → Option D
  set_entry name found cache key = if equal name key then found else lookup key cache

module _ {W E C D : Type 0} (R : Remote W E C) (G : Driver W E D) where
  -- What `getDB` for the name does to the cache as a map, by how it ends.
  abbrev pub IsUpdated : Bytes → List (Bytes × D) → Outcome D E → List (Bytes × D) → Type 0
  IsUpdated name cache (ok db) cache' =
      (key : Bytes) → lookup key cache' ≡ set_entry name (some db) cache key
  IsUpdated name cache o cache' = (key : Bytes) → lookup key cache' ≡ lookup key cache

  opened-IsUpdated :
      (name : Bytes) (cache : List (Bytes × D)) (r : Reply D E × W)
      → IsUpdated name cache (opened R G name cache r).0 (opened R G name cache r).1.cache
  unfolding lookup
  opened-IsUpdated name cache (value db, w) = λ key. refl
  opened-IsUpdated name cache (error e, w) = λ key. refl

  open_after-IsUpdated :
      (name : Bytes) (cache : List (Bytes × D)) (r : Outcome (Unit {0}) E × W)
      → IsUpdated name cache (open_after R G name cache r).0 (open_after R G name cache r).1.cache
  open_after-IsUpdated name cache (ok _, w) = opened-IsUpdated name cache (G.open_database name w)
  open_after-IsUpdated name cache (fail e, w) = λ key. refl
  open_after-IsUpdated name cache (panic, w) = λ key. refl

  found_or-IsUpdated :
      (name : Bytes) (found : Option D) (other : Outcome D E × Pool W D) (p : Pool W D)
      → lookup name p.cache ≡ found
      → IsUpdated name p.cache other.0 other.1.cache
      → IsUpdated name p.cache (found_or R G found other p).0 (found_or R G found other p).1.cache
  found_or-IsUpdated name (some db) other p e h = λ key. elim (Bool-cases (equal name key)) [
    | inl same ↦ rw same (ap (λ k. lookup k p.cache) (sym ((equal_iff name key).0 same)) ∙ e)
    | inr differs ↦ rw differs refl
  ]
  found_or-IsUpdated name none other p e h = h

  -- The cache is a map: behind `getDB` that returns a database it is the map before with that database
  -- at the name, behind `getDB` that fails or panics the map before, and behind `DBX.Close` the map
  -- before with nothing at the name of the connection.
  pub cache-IsUpdated :
      (pair : Option KeyPair) (name : Bytes) (cluster : List Bytes) (p : Pool W D)
      (dx : Connection D)
      → IsUpdated name p.cache
          (get_db R G pair name cluster p).0
          (get_db R G pair name cluster p).1.cache
        × ((key : Bytes) → lookup key (close R G dx p).1.cache ≡ set_entry dx.name none p.cache key)
  unfolding get_db close
  cache-IsUpdated pair name cluster p dx = (
    found_or-IsUpdated name (lookup name p.cache) _ p refl (open_after-IsUpdated name p.cache _),
    λ key. lookup-delete dx.name key p.cache,
  )
