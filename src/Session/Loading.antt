-- ===== src/Session/Loading.antt =====
-- `dbFile` with a single transaction (`load -b`), from the connection to the close.
use dqlited.Base.{ℕ, ◌≡◌, ◌∙◌, ◌⊎◌, true, List, Bytes, Option, inl, inr}
use dqlited.Go.{Outcome, ok, fail, panic, value, Host}
use dqlited.Client.{KeyPair, Remote}
use dqlited.Cache.{Driver, Connection, new_connection, close}
use dqlited.Db.{State}
use dqlited.Db.Transact.{transact}
use dqlited.Db.Transact.Atomic.{apply_all, IsDatabase, IsAtomic, transact-IsAtomic}
use dqlited.Session.{Process, Disk, Scanned, liner, load_file, db_file}

-- All or none: on success all, or nothing if the commit has failed, and nothing on an error.
abbrev pub AllOrNone : {S A E : Type 0} → Outcome A E → S → S → S → Type 0
AllOrNone (ok a) all before after = (after ≡ all) ⊎ (after ≡ before)
AllOrNone (fail e) all before after = after ≡ before
AllOrNone panic all before after = ⊥

module _ {W E C D S : Type 0} (R : Remote W E C) (G : Driver W E D) (H : D → Host W E)
    (K : Disk W E) (contents : W → S) (view : ℕ → W → S) (apply : Bytes → S → S) where
  -- Closing a database leaves its contents alone.
  abbrev pub ClosesQuietly : D → Type 0
  ClosesQuietly db = (w : W) → contents (G.close_database db w).1 ≡ contents w

  weaken :
      (db : D) (o : Outcome (Unit {0}) E) (w' : W) (all before after : S)
      → after ≡ contents w'
      → IsAtomic (H db) o w' all before (contents w')
      → AllOrNone o all before after
  weaken db (ok _) w' all before after e (inl h) = inl (e ∙ h)
  weaken db (ok _) w' all before after e (inr h) = inr (e ∙ h.1)
  weaken db (fail x) w' all before after e h = e ∙ h
  weaken db panic w' all before after e h = h

  module _ (pair : Option KeyPair) (name file_name : Bytes) (cluster : List Bytes) (p : Process W D)
      (dx : Connection D) (scanned : Scanned E) (w : W)
      (connects : (new_connection R G pair name cluster p.pool).0 ≡ ok dx)
      (reads : K.scan_file file_name (new_connection R G pair name cluster p.pool).1.world
        ≡ (value scanned, w))
      (d : IsDatabase (H dx.db) contents view apply) (quiet : ClosesQuietly dx.db) where
    -- With a connection and a file that can be opened, over a database that keeps the promises of
    -- `IsDatabase` and is closed quietly, `dbFile` with one transaction does not panic. On an error the
    -- contents are what they were behind the opening of the file. On success all lines that the scanner
    -- yielded have been applied in their order, whatever has stopped it, or the contents are what they
    -- were.
    pub db_file-AllOrNone :
        let r = db_file R G H K pair file_name name true cluster p in
        AllOrNone r.0
          (apply_all apply scanned.lines (contents w))
          (contents w)
          (contents r.1.pool.world)
    unfolding db_file close load_file liner
    db_file-AllOrNone =
        let s : State W = record { world = w; disabled = p.disabled; out = p.out } in
        let ran = transact (H dx.db) scanned.lines s in
        rw (connects, reads)
          (weaken dx.db ran.0 ran.1.world (apply_all apply scanned.lines (contents w)) (contents w)
            _ (quiet _ ∙ quiet ran.1.world)
            (transact-IsAtomic (H dx.db) contents view apply d scanned.lines s))
