-- ===== src/Tests/Cluster.antt =====
-- The theorems on client.go, cluster.go, the dump and the flags, at small inputs.
use dqlited.Base.{List, [], ◌∷◌, map, Bytes, codes, Option, some}
use dqlited.Client.{KeyPair}
use dqlited.Cluster.{omit}
use dqlited.Cluster.Omit.{Omitted, omit-Omitted, with_port}

abbrev hosts : List Bytes
hosts = codes "a" ∷ codes "b" ∷ []

omit-Omitted_example :
    Omitted
      (codes "a:1")
      (map (with_port (codes "1")) hosts)
      (omit (codes "a:1") (map (with_port (codes "1")) hosts)).0
      (omit (codes "a:1") (map (with_port (codes "1")) hosts)).1
omit-Omitted_example = omit-Omitted (codes "a:1") (map (with_port (codes "1")) hosts)

abbrev pair : Option KeyPair
pair = some (record { cert = codes "c.pem"; key = codes "k.pem" })
