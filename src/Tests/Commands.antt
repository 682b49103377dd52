-- ===== src/Tests/Commands.antt =====
-- The theorems on the commands, at small inputs.
use dqlited.Base.{ℕ, [], ◌∷◌, List, Bytes, codes}
use dqlited.Go.{Reply, Message, value}
use dqlited.Client.{NodeRole, voter, standby, spare}
use dqlited.Commands.{
  status_command, leader_command, remove_command, transfer_command, assign_command,
}
use dqlited.Commands.Connections.{Even, commands-Even}
use dqlited.Tests.World.{remote, meter}

abbrev peers : List Bytes
peers = codes "127.0.0.1:9181" ∷ []

abbrev parse_uint : Bytes → Reply ℕ Message
parse_uint text = value 3

commands-Even_example :
    Even remote (λ w. w.opened) (λ w. w.closed) meter parse_uint (status_command remote peers)
    × Even remote (λ w. w.opened) (λ w. w.closed) meter parse_uint (leader_command remote peers)
    × Even remote (λ w. w.opened) (λ w. w.closed) meter parse_uint (remove_command remote 3 peers)
    × Even remote
        (λ w. w.opened)
        (λ w. w.closed)
        meter
        parse_uint
        (transfer_command remote parse_uint (codes "3") peers)
    × Even remote
        (λ w. w.opened)
        (λ w. w.closed)
        meter
        parse_uint
        (assign_command remote parse_uint (codes "3" ∷ codes "1" ∷ []) (codes "spare") peers)
commands-Even_example =
    commands-Even remote (λ w. w.opened) (λ w. w.closed) meter parse_uint 3 (codes "3")
      (codes "spare") (codes "3" ∷ codes "1" ∷ []) peers

abbrev role_name : NodeRole → Bytes
role_name voter = codes "voter"
role_name standby = codes "stand-by"
role_name spare = codes "spare"
