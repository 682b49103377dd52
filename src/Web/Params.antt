-- ===== src/Web/Params.antt =====
-- The parameters of a request, of web.go.
pub mod Laws
use dqlited.Base.{
  ℕ, Bool, true, false, not, ◌&&◌, ◌||◌, List, [], ◌∷◌, ◌++◌, Bytes, codes, Option, none, some,
  if◌then◌else◌,
}
use dqlited.Base.Int.{ℤ}
use dqlited.Text.{equal, has_prefix, trim_space}
use dqlited.Go.{Outcome, ok, fail, panic, Reply, value, error}
use dqlited.Web.{Request, Server}

-- Whether a map has a key.
unfoldable pub has_key : Bytes → List (Bytes × List Bytes) → Bool
has_key key [] = false
has_key key ((k, values) ∷ m) = equal k key || has_key key m

abbrev first : List Bytes → Bytes
first [] = []
first (v ∷ values) = v

-- `Values.Get`: the first value of the key, or the empty text.
unfoldable pub get : Bytes → List (Bytes × List Bytes) → Bytes
get key [] = []
get key ((k, values) ∷ m) = if equal k key then first values else get key m

module _ {E : Type 0} where
  -- `queryParam`
  unfoldable pub query_param : Request E → Bytes → Outcome Bool E
  query_param r param = elim r.form [ value form ↦ ok (has_key param form) | error e ↦ fail e ]

  -- `stmtParam`
  unfoldable pub stmt_param : Request E → Bytes
  stmt_param r = trim_space (get (codes "q") r.query)

  -- `fmtParam`
  unfoldable pub fmt_param : Request E → Bytes
  fmt_param r = trim_space (get (codes "fmt") r.query)

  -- `isPretty`, `noLeader`, `timings`
  unfoldable pub is_pretty : Request E → Outcome Bool E
  is_pretty r = query_param r (codes "pretty")

  unfoldable pub no_leader : Request E → Outcome Bool E
  no_leader r = query_param r (codes "noleader")

  unfoldable pub timings : Request E → Outcome Bool E
  timings r = query_param r (codes "timings")

  abbrev or_next : Outcome Bool E → Outcome Bool E → Outcome Bool E
  or_next (ok true) next = ok true
  or_next (ok false) next = next
  or_next (fail e) next = fail e
  or_next panic next = panic

  -- The loop of `isAtomic`.
  unfoldable pub any_param : Request E → List Bytes → Outcome Bool E
  any_param r [] = ok false
  any_param r (q ∷ qs) = or_next (query_param r q) (any_param r qs)

  -- `isAtomic`
  unfoldable pub is_atomic : Request E → Outcome Bool E
  is_atomic r = any_param r (codes "atomic" ∷ codes "transaction" ∷ [])

module _ {W E : Type 0} (S : Server W E) where
  open S use {parse_duration}

  abbrev parse_text : Bytes → Outcome (Option ℤ) E
  parse_text [] = ok none
  parse_text (c ∷ t) = elim (parse_duration (c ∷ t)) [ value d ↦ ok (some d) | error e ↦ fail e ]

  -- `durationParam`; `none` is a duration that is not set.
  unfoldable pub duration_param : Request E → Bytes → Outcome (Option ℤ) E
  duration_param r param = parse_text (trim_space (get param r.query))

  -- `txTimeout`, `idleTimeout`
  unfoldable pub tx_timeout : Request E → Outcome (Option ℤ) E
  tx_timeout r = duration_param r (codes "tx_timeout")

  unfoldable pub idle_timeout : Request E → Outcome (Option ℤ) E
  idle_timeout r = duration_param r (codes "idle_timeout")

-- `NormalizeAddr`
unfoldable pub normalize_addr : Bytes → Bytes
normalize_addr addr =
    if not (has_prefix addr (codes "http://")) && not (has_prefix addr (codes "https://"))
    then codes "http://" ++ addr
    else addr
