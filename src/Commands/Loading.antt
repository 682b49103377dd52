-- ===== src/Commands/Loading.antt =====
-- `load -b` from the command line to the database.
use dqlited.Base.{ℕ, ◌≡◌, ◌≢◌, refl, ◌⊎◌, true, List, [], ◌∷◌, Bytes, inr}
use dqlited.Go.{Outcome, ok, fail, panic, value, Host}
use dqlited.Client.{Remote}
use dqlited.Cache.{Driver, Connection, new_connection}
use dqlited.Session.{Process, Disk, Scanned, db_file}
use dqlited.Session.Loading.{AllOrNone, ClosesQuietly, db_file-AllOrNone}
use dqlited.Db.Transact.Atomic.{apply_all, IsDatabase}
use dqlited.Commands.{global_keys, dropped, exit_code, load_command}

-- A result that is all or none exits with 0 all the same.
silent :
    {A E S : Type 0} (o : Outcome A E) (all before after : S)
    → AllOrNone o all before after
    → (exit_code (dropped o) ≡ 0) × ((after ≡ all) ⊎ (after ≡ before))
unfolding exit_code
silent (ok a) all before after h = (refl, h)
silent (fail e) all before after h = (refl, inr h)
silent panic all before after h = absurd h

module _ {W E C D S : Type 0} (R : Remote W E C) (G : Driver W E D) (H : D → Host W E)
    (K : Disk W E) (contents : W → S) (view : ℕ → W → S) (apply : Bytes → S → S) (name : Bytes)
    (cluster : List Bytes) (p : Process W D) (dx : Connection D) (scanned : Scanned E) (w : W) where
  -- With a file name, a connection and a file that can be opened, over a database that keeps the promises
  -- of `IsDatabase` and is closed quietly, `load -b` exits with 0 whether all lines of the file have been
  -- applied or none, and one of these is the case.
  pub load_silent :
      (file_name : Bytes)
      → file_name ≢ []
      → (new_connection R G global_keys name cluster p.pool).0 ≡ ok dx
      → K.scan_file file_name (new_connection R G global_keys name cluster p.pool).1.world
        ≡ (value scanned, w)
      → IsDatabase (H dx.db) contents view apply
      → ClosesQuietly R G H K contents view apply dx.db
      → let r = load_command R G H K file_name name true cluster p in
        (exit_code r.0 ≡ 0)
        × ((contents r.1.pool.world ≡ apply_all apply scanned.lines (contents w))
            ⊎ (contents r.1.pool.world ≡ contents w))
  unfolding load_command
  load_silent [] named connects reads d quiet = absurd (named refl)
  load_silent (c ∷ file_name) named connects reads d quiet =
      silent (db_file R G H K global_keys (c ∷ file_name) name true cluster p).0
        (apply_all apply scanned.lines (contents w)) (contents w) _
        (db_file-AllOrNone R G H K contents view apply global_keys name (c ∷ file_name) cluster p dx
          scanned w connects reads d quiet)
