-- ===== src/Web/Shared/Orders.antt =====
-- In which orders the requests to one handler of web.go are served with their own contexts.
use dqlited.Base.{
  ℕ, zero, suc, ◌+◌, ◌≡◌, refl, ap, ◌∙◌, List, [], ◌∷◌, ◌++◌, map, length, append_assoc,
  length-append,
}
use dqlited.Go.{Context}
use dqlited.Web.Handlers.{extended}
use dqlited.Web.Shared.{
  assigned, opened, Handling, advance, second_context, at_index, interleave, fresh, served,
  second_context_own,
}

-- One request behind the other, from number `i`: the three steps of each.
abbrev pub serial : ℕ → ℕ → List ℕ
serial i zero = []
serial i (suc n) = i ∷ i ∷ i ∷ serial (i + 1) n

abbrev pub served_alone : Context → Handling
served_alone own = served own own (extended own)

at_index-append :
    (before : List Handling) (h : Handling) (others : List Handling) (ctx : Context)
    → at_index (length before) ctx (before ++ h ∷ others)
      ≡ ((advance ctx h h.stage).0, before ++ (advance ctx h h.stage).1 ∷ others)
at_index-append [] h others ctx = refl
at_index-append (b ∷ before) h others ctx = rw (at_index-append before h others ctx) refl

-- The three steps of one request, behind others.
three_steps :
    (before : List Handling) (own : Context) (others : List Handling) (ctx : Context)
    (order : List ℕ)
    → interleave
        (length before ∷ length before ∷ length before ∷ order)
        (record { ctx = ctx; handlings = before ++ fresh own ∷ others })
      ≡ interleave order (record { ctx = own; handlings = before ++ served_alone own ∷ others })
unfolding interleave advance
three_steps before own others ctx order =
    rw
      (
        at_index-append before (fresh own) others ctx,
        at_index-append before (record (fresh own) { stage = assigned }) others own,
        at_index-append before (record (fresh own) { stage = opened; opened_with = own }) others
            own,
        second_context_own own,
      )
      refl

serial-served :
    (owns : List Context) (before : List Handling) (ctx : Context)
    → (interleave
        (serial (length before) (length owns))
        (record { ctx = ctx; handlings = before ++ map fresh owns })).handlings
      ≡ before ++ map served_alone owns
serial-served [] before ctx = unfold interleave in refl
serial-served (own ∷ owns) before ctx =
    let before' = before ++ served_alone own ∷ [] in
    let counted : length before' ≡ length before + 1 =
      length-append before (served_alone own ∷ []) in
    ap (λ c. c.handlings)
      (three_steps before own (map fresh owns) ctx (serial (length before + 1) (length owns)))
    ∙ rw
        (
          ← counted,
          ← append_assoc before (served_alone own ∷ []) (map fresh owns),
          ← append_assoc before (served_alone own ∷ []) (map served_alone owns),
        )
        (serial-served owns before' own)

-- Any number of requests one behind the other are each served with their own contexts. But where the
-- second of two requests arrives between the first two steps of the first one, the database of the
-- first is opened with the context of the second, and its statements run with a deadline that is
-- computed from that one.
pub handlers_share_context :
    (ctx a b : Context) (owns : List Context)
    → ((interleave
          (serial 0 (length owns))
          (record { ctx = ctx; handlings = map fresh owns })).handlings
        ≡ map served_alone owns)
      × ((interleave
            (0 ∷ 1 ∷ 0 ∷ 0 ∷ 1 ∷ 1 ∷ [])
            (record { ctx = ctx; handlings = fresh a ∷ fresh b ∷ [] })).handlings
          ≡ served a b (second_context a b) ∷ served_alone b ∷ [])
handlers_share_context ctx a b owns =
    (serial-served owns [] ctx, unfold interleave advance in (rw (second_context_own b) refl))
