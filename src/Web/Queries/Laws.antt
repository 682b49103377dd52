-- ===== src/Web/Queries/Laws.antt =====
-- Which queries and which database a request names.
use dqlited.Base.{
  ℕ, suc, ◌≡◌, ◌≢◌, refl, List, [], ◌∷◌, ◌++◌, length, Bytes, codes, arith, All, none, some,
}
use dqlited.Text.{last_index, drop}
use dqlited.Text.Prefix.{equal_iff}
use dqlited.Go.{ok, Host}
use dqlited.Web.{Request, Server}
use dqlited.Web.Params.{stmt_param}
use dqlited.Web.Queries.{db_name, request_queries}

last_index-none : (s : Bytes) (b : ℕ) → All (λ c. c ≢ b) s → last_index s b ≡ none
unfolding last_index
last_index-none [] b h = refl
last_index-none (c ∷ s) b h = ground (arith, last_index-none s b h.1)

last_index_here :
    (p s : Bytes) (b : ℕ) → All (λ c. c ≢ b) s → last_index (p ++ b ∷ s) b ≡ some (length p)
unfolding last_index
last_index_here [] s b h = ground (arith, last_index-none s b h)
last_index_here (c ∷ p) s b h = ground (arith, last_index_here p s b h)

drop-append : (p s : Bytes) (b : ℕ) → drop (suc (length p)) (p ++ b ∷ s) ≡ s
drop-append [] s b = refl
drop-append (c ∷ p) s b = drop-append p s b

-- The name of the database is what stands behind the last slash, if that is not the first byte of
-- the path.
pub db_name_lem :
    (p name : Bytes) → p ≢ [] → All (λ c. c ≢ b'/') name → db_name (p ++ b'/' ∷ name) ≡ name
unfolding db_name
db_name_lem [] name h k = absurd (h refl)
db_name_lem (c ∷ p) name h k =
    rw (last_index_here (c ∷ p) name b'/' k) (drop-append (c ∷ p) name b'/')

module _ {W E : Type 0} (H : Host W E) (S : Server W E) (r : Request E) where
  -- `requestQueries` never succeeds with no query.
  request_queries-ne-nil : (qs : List Bytes) → request_queries H S r ≡ ok qs → qs ≢ []
  unfolding request_queries
  request_queries-ne-nil qs h = λ e. ground arith

  -- For a GET `requestQueries` succeeds with one query only, the trimmed parameter `q`, which is not
  -- empty then.
  request_queries_get :
      (qs : List Bytes)
      → r.method ≡ codes "GET"
      → request_queries H S r ≡ ok qs
      → (qs ≡ stmt_param r ∷ []) × (stmt_param r ≢ [])
  unfolding request_queries
  request_queries_get qs g h = ground (arith, equal_iff r.method (codes "GET"))
