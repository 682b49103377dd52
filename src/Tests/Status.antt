-- ===== src/Tests/Status.antt =====
-- The theorems on the context of the handlers, at small inputs.
use dqlited.Base.{map, ◌≡◌, [], ◌∷◌, none, some}
use dqlited.Web.Shared.{interleave, fresh, served, second_context}
use dqlited.Web.Shared.Orders.{serial, served_alone, handlers_share_context}

handlers_share_context_example :
    ((interleave
        (serial 0 3)
        (record { ctx = none; handlings = map fresh (some 5 ∷ none ∷ some 9 ∷ []) })).handlings
      ≡ map served_alone (some 5 ∷ none ∷ some 9 ∷ []))
    × ((interleave
          (0 ∷ 1 ∷ 0 ∷ 0 ∷ 1 ∷ 1 ∷ [])
          (record { ctx = none; handlings = fresh (some 5) ∷ fresh (some 9) ∷ [] })).handlings
        ≡ served (some 5) (some 9) (second_context (some 5) (some 9)) ∷ served_alone (some 9) ∷ [])
handlers_share_context_example =
    handlers_share_context none (some 5) (some 9) (some 5 ∷ none ∷ some 9 ∷ [])
