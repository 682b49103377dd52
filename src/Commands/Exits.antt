-- ===== src/Commands/Exits.antt =====
-- What the exit code of a command tells.
use dqlited.Base.{ℕ, ◌≡◌, ◌≢◌, ◌↔◌, refl, Bool, not, List, [], ◌∷◌, Bytes, codes, arith}
use dqlited.Text.{join}
use dqlited.Go.{Outcome, ok, fail, panic, Host}
use dqlited.Client.{Remote}
use dqlited.Cache.{Driver}
use dqlited.Session.{Process, Disk, db_cmd, db_file, db_report}
use dqlited.Cluster.{cluster_show, leader_id, remove, omit}
use dqlited.Dump.{db_dump}
use dqlited.Node.{Machine, start_server}
use dqlited.Commands.{
  exit_code, global_keys, returned, or_exit, dropped, status_command, leader_command,
  remove_command, dump_command, adhoc_command, load_command, report_command, server_command,
}

abbrev pub IsOk : {A E : Type 0} → Outcome A E → Type 0
IsOk (ok a) = Unit
IsOk (fail e) = ⊥
IsOk panic = ⊥

module _ {A E : Type 0} where
  exit_code-returned : (o : Outcome A E) → (exit_code (returned o) ≡ 0) ↔ IsOk o
  unfolding exit_code
  exit_code-returned (ok a) = (λ h. tt, λ h. refl)
  exit_code-returned (fail e) = (λ h. omega arith, λ h. absurd h)
  exit_code-returned panic = (λ h. omega arith, λ h. absurd h)

  exit_code-or_exit : (o : Outcome A E) → (exit_code (or_exit o) ≡ 0) ↔ IsOk o
  unfolding exit_code
  exit_code-or_exit (ok a) = (λ h. tt, λ h. refl)
  exit_code-or_exit (fail e) = (λ h. omega arith, λ h. absurd h)
  exit_code-or_exit panic = (λ h. omega arith, λ h. absurd h)

  exit_code-dropped : (o : Outcome A E) → (exit_code (dropped o) ≡ 0) ↔ (o ≢ panic)
  unfolding exit_code
  exit_code-dropped (ok a) = (λ h p. cc, λ h. refl)
  exit_code-dropped (fail e) = (λ h p. cc, λ h. refl)
  exit_code-dropped panic = (λ h. omega arith, λ h. absurd (h refl))

module _ {W E C D N A L : Type 0} (R : Remote W E C) (G : Driver W E D) (H : D → Host W E)
    (K : Disk W E) (M : Machine W E N A L) where
  -- The commands `status`, `leader`, `remove`, `dump` and `adhoc` exit with 0 exactly if what they run
  -- succeeds.
  exit_code_tells :
      (id : ℕ) (name : Bytes) (cluster args : List Bytes) (headless divs : Bool) (w : W)
      (p : Process W D)
      → ((exit_code (status_command R cluster w).0 ≡ 0)
          ↔ IsOk (cluster_show R global_keys cluster w).0)
        × ((exit_code (leader_command R cluster w).0 ≡ 0)
            ↔ IsOk (leader_id R global_keys cluster w).0)
        × ((exit_code (remove_command R id cluster w).0 ≡ 0)
            ↔ IsOk (remove R global_keys id cluster w).0)
        × ((exit_code (dump_command R name cluster w).0 ≡ 0)
            ↔ IsOk (db_dump R global_keys name cluster w).0)
        × ((exit_code (adhoc_command R G H K args name cluster headless divs p).0 ≡ 0)
            ↔ IsOk
                (db_cmd R G H K global_keys name cluster
                  (not headless)
                  divs
                  (join args (codes " "))
                  p).0)
  unfolding status_command leader_command remove_command dump_command adhoc_command
  exit_code_tells id name cluster args headless divs w p = (
    exit_code-returned _,
    exit_code-returned _,
    exit_code-returned _,
    exit_code-returned _,
    exit_code-or_exit _,
  )

  -- The commands `load`, with a file name, `query` and `server` exit with 0 exactly if what they run
  -- does not panic: any error of it is lost.
  exit_code_hides :
      (file_name name dir address : Bytes) (cluster : List Bytes) (batched headers lines : Bool)
      (port : ℕ) (w : W) (p : Process W D)
      → file_name ≢ []
      → ((exit_code (load_command R G H K file_name name batched cluster p).0 ≡ 0)
          ↔ ((db_file R G H K global_keys file_name name batched cluster p).0 ≢ panic))
        × ((exit_code (report_command R G H K file_name name cluster headers lines p).0 ≡ 0)
            ↔ ((db_report R G H K global_keys file_name name headers lines cluster p).0 ≢ panic))
        × ((exit_code (server_command R M port dir address cluster w).0 ≡ 0) ↔ (
            (start_server R M port global_keys dir address ((omit address cluster).0) w).0 ≢ panic))
  unfolding load_command report_command server_command
  exit_code_hides [] name dir address cluster batched headers lines port w p h = absurd (h refl)
  exit_code_hides (c ∷ file_name) name dir address cluster batched headers lines port w p h =
      (exit_code-dropped _, exit_code-dropped _, exit_code-dropped _)
