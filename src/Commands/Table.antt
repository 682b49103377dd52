-- ===== src/Commands/Table.antt =====
-- The table of commands that `newRoot` of main.go builds: the name and the arguments of each, and its
-- flags with their values before any is set. The texts of help are left out.
pub mod Distinct
use dqlited.Base.{ℕ, ◌*◌, Bool, true, false, List, [], ◌∷◌, map, Bytes, codes, String}
use dqlited.Base.Int.{ℤ, pos}
use dqlited.Client.{NodeRole}
use dqlited.Flags.{FlagChoice, cluster_list}
use dqlited.Commands.{role_flag}

-- Code outside the repository: what the package `envy` reads of the environment, by the name of a
-- variable and a default. Nothing is assumed of it here.
pub record Environment : Type 0 where
  pub read_text : Bytes → Bytes
  pub text_default : Bytes → Bytes → Bytes
  pub int_default : Bytes → ℤ → ℤ
  pub read_bool : Bytes → Bool

-- The variable that a flag sets; a duration is in seconds.
pub data Variable : Type 0 where
  text_variable : Bytes → Variable
  list_variable : List Bytes → Variable
  int_variable : ℤ → Variable
  uint_variable : ℕ → Variable
  bool_variable : Bool → Variable
  seconds_variable : ℕ → Variable
  choice_variable : FlagChoice → Variable

pub record Flag : Type 0 where
  pub name : Bytes
  pub shorthand : Bytes
  pub initial : Variable

-- How many arguments a command takes.
pub data Arity : Type 0 where
  no_args any_args : Arity
  exact_args minimum_args : ℕ → Arity

pub record Command : Type 0 where
  pub name : Bytes
  pub arity : Arity
  pub flags : List Flag

abbrev flag : String → String → Variable → Flag
flag name shorthand initial = record {
  name = codes name;
  shorthand = codes shorthand;
  initial = initial;
}

-- `newVersion`
abbrev pub version_entry : Command
version_entry = record { name = codes "version"; arity = any_args; flags = [] }

module _ (env : Environment) where
  open env use {read_text, text_default, int_default, read_bool}

  abbrev cluster_flag : Flag
  cluster_flag =
      flag "cluster" "c" (list_variable (cluster_list (read_text (codes "DQLITED_CLUSTER"))))

  abbrev database_flag : Flag
  database_flag =
      flag "database" "d" (text_variable (text_default (codes "DQLITED_DB") (codes "demo.db")))

  abbrev address_flag : Flag
  address_flag =
      flag "address" "a"
        (text_variable (text_default (codes "DQLITED_ADDRESS") (codes "127.0.0.1:9181")))

  abbrev id_flag : Flag
  id_flag = flag "id" "i" (int_variable (int_default (codes "DQLITED_ID") (pos 1)))

  abbrev timeout_flag : ℕ → Flag
  timeout_flag seconds = flag "timeout" "t" (seconds_variable seconds)

  -- `newServer`
  unfoldable pub server_entry : Command
  server_entry = record {
    name = codes "server";
    arity = any_args;
    flags =
        address_flag
        ∷ cluster_flag
        ∷ database_flag
        ∷ flag "dir" "l" (text_variable (text_default (codes "DQLITED_TMP") (codes "/tmp/dqlited")))
        ∷ flag "role" "r" (text_variable (text_default (codes "DQLITED_ROLE") (codes "voter")))
        ∷ id_flag
        ∷ flag "port" "p" (int_variable (int_default (codes "DQLITED_PORT") (pos 4001)))
        ∷ flag "skip" "s" (bool_variable (read_bool (codes "DQLITED_SKIP")))
        ∷ timeout_flag 300
        ∷ [];
  }

  -- `newStatus`, `newLeaderID`, `newTransfer` and `newRemove`
  unfoldable pub status_entry : Command
  status_entry = record {
    name = codes "status";
    arity = no_args;
    flags = timeout_flag 60 ∷ cluster_flag ∷ [];
  }

  unfoldable pub leader_entry : Command
  leader_entry = record {
    name = codes "leader";
    arity = no_args;
    flags = timeout_flag 60 ∷ cluster_flag ∷ [];
  }

  unfoldable pub transfer_entry : Command
  transfer_entry = record {
    name = codes "transfer";
    arity = exact_args 1;
    flags = cluster_flag ∷ timeout_flag 60 ∷ [];
  }

  unfoldable pub remove_entry : Command
  remove_entry = record {
    name = codes "remove";
    arity = any_args;
    flags = flag "id" "i" (uint_variable 0) ∷ cluster_flag ∷ timeout_flag 60 ∷ [];
  }

  -- `newAdhoc`, `newDumper`, `newLoad`, `newReport` and `newHammer`
  unfoldable pub adhoc_entry : Command
  adhoc_entry = record {
    name = codes "adhoc";
    arity = minimum_args 1;
    flags =
        cluster_flag
        ∷ database_flag
        ∷ flag "dividers" "l" (bool_variable false)
        ∷ flag "no-header" "t" (bool_variable false)
        ∷ [];
  }

  unfoldable pub dump_entry : Command
  dump_entry = record {
    name = codes "dump";
    arity = any_args;
    flags = cluster_flag ∷ database_flag ∷ timeout_flag 60 ∷ [];
  }

  unfoldable pub load_entry : Command
  load_entry = record {
    name = codes "load";
    arity = any_args;
    flags =
        cluster_flag
        ∷ database_flag
        ∷ flag "file" "f" (text_variable [])
        ∷ flag "batch" "b" (bool_variable false)
        ∷ flag "verbose" "v" (bool_variable false)
        ∷ [];
  }

  unfoldable pub report_entry : Command
  report_entry = record {
    name = codes "query";
    arity = any_args;
    flags =
        cluster_flag
        ∷ database_flag
        ∷ flag "file" "f" (text_variable [])
        ∷ flag "headers" "b" (bool_variable true)
        ∷ flag "lines" "v" (bool_variable false)
        ∷ [];
  }

  unfoldable pub hammer_entry : Command
  hammer_entry = record {
    name = codes "hammer";
    arity = any_args;
    flags =
        cluster_flag ∷ database_flag ∷ flag "count" "n" (int_variable (pos 10000)) ∷ id_flag ∷ [];
  }

  -- The commands that choose a role, by the names and the numbers of the dqlite client and the order in
  -- which Go ranges over a map.
  module _ (role_name : NodeRole → Bytes) (number : NodeRole → ℕ) (order : List NodeRole) where
    abbrev role_choice : Flag
    role_choice = flag "role" "r" (choice_variable (role_flag role_name number order))

    -- `newAddnode` and `newAssign`
    unfoldable pub add_entry : Command
    add_entry = record {
      name = codes "add";
      arity = minimum_args 1;
      flags = cluster_flag ∷ address_flag ∷ role_choice ∷ timeout_flag 300 ∷ [];
    }

    unfoldable pub assign_entry : Command
    assign_entry = record {
      name = codes "assign";
      arity = minimum_args 1;
      flags = cluster_flag ∷ timeout_flag 60 ∷ role_choice ∷ [];
    }

    -- The commands that `newRoot` adds, in its order.
    unfoldable pub entries : List Command
    entries =
        status_entry ∷ adhoc_entry ∷ add_entry ∷ server_entry ∷ dump_entry ∷ load_entry
        ∷ version_entry ∷ hammer_entry ∷ report_entry ∷ transfer_entry ∷ assign_entry ∷ remove_entry
        ∷ leader_entry ∷ []

-- The flags of `newRoot` itself.
abbrev pub root_flags : List Flag
root_flags =
    flag "level" "z" (text_variable (codes "error")) ∷ flag "out" "o" (text_variable []) ∷ []
