-- ===== src/Web/Params/Laws.antt =====
-- What the parameters of a request say.
use dqlited.Base.{◌≡◌, Bool, true, ◌||◌, List, [], ◌∷◌, ◌++◌, Bytes, codes, arith}
use dqlited.Text.{has_prefix}
use dqlited.Text.Prefix.{has_prefix-append, equal_refl}
use dqlited.Go.{ok, value}
use dqlited.Web.{Request}
use dqlited.Web.Params.{has_key, query_param, any_param, is_atomic, normalize_addr}

abbrev pub has_scheme : Bytes → Bool
has_scheme addr = has_prefix addr (codes "http://") || has_prefix addr (codes "https://")

-- A normalised address has one of the two schemes, an address that has one stays as it is, and
-- normalising twice is normalising once.
normalize_addr_lem :
    (addr : Bytes)
    → (has_scheme (normalize_addr addr) ≡ true)
      × (normalize_addr (normalize_addr addr) ≡ normalize_addr addr)
unfolding normalize_addr
normalize_addr_lem addr = ground (arith, has_prefix-append (codes "http://") addr)

-- A request is atomic exactly if its form, where it can be parsed, has one of the two keys; the
-- value that stands with a key does not matter.
is_atomic-has_key :
    {E : Type 0} (r : Request E) (form : List (Bytes × List Bytes))
    → r.form ≡ value form
    → is_atomic r ≡ ok (has_key (codes "atomic") form || has_key (codes "transaction") form)
unfolding is_atomic any_param query_param
is_atomic-has_key r form h = ground arith

has_key_here :
    (key : Bytes) (values : List Bytes) (before after : List (Bytes × List Bytes))
    → has_key key (before ++ (key, values) ∷ after) ≡ true
unfolding has_key
has_key_here key values [] after = ground (arith, equal_refl key)
has_key_here key values ((k, vs) ∷ before) after =
    ground (arith, has_key_here key values before after)

-- `queryParam` does not look at the value of a parameter: a form that says `param=false`, or anything
-- else of the parameter, sets it.
query_param_ignores_value :
    {E : Type 0} (r : Request E) (param v : Bytes) (before after : List (Bytes × List Bytes))
    → r.form ≡ value (before ++ (param, v ∷ []) ∷ after)
    → query_param r param ≡ ok true
unfolding query_param
query_param_ignores_value r param v before after h =
    rw (h, query_param, has_key_here param (v ∷ []) before after)
