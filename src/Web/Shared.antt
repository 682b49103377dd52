-- ===== src/Web/Shared.antt =====
-- The variable `ctx` of `makeHandleExec` and `makeHandleQuery` of web.go. Each handler is one closure
-- for all requests, and sets this variable of the function around it, so requests that are served at
-- the same time share it.
pub mod Orders
use dqlited.Base.{ℕ, zero, suc, ◌+◌, ◌≡◌, refl, List, [], ◌∷◌, none, some}
use dqlited.Go.{Context}
use dqlited.Web.Handlers.{minute, with_deadline, extended}

-- How far a request has come.
pub data Stage : Type 0 where
  arrived assigned opened done : Stage

-- A request to `/db/execute/`: the context of its own, the one that its database was opened with, and
-- the one that its statements were run with.
pub record Handling : Type 0 where
  pub own : Context
  pub stage : Stage
  pub opened_with : Context
  pub ran_with : Context

-- `ctx2`, from the context of the request, and the value of `ctx` that is read.
unfoldable pub second_context : Context → Context → Context
second_context own none = own
second_context own (some dead) = with_deadline own (dead + minute)

-- The next step of a request: `ctx = r.Context()`, `dq.Open(ctx, …)`, and `ExecuteContext(ctx2, …)`.
unfoldable pub advance : Context → Handling → Stage → Context × Handling
advance ctx h arrived = (h.own, record h { stage = assigned })
advance ctx h assigned = (ctx, record h { stage = opened; opened_with = ctx })
advance ctx h opened = (ctx, record h { stage = done; ran_with = second_context h.own ctx })
advance ctx h done = (ctx, h)

-- The requests in progress, and `ctx`.
pub record Closure : Type 0 where
  pub ctx : Context
  pub handlings : List Handling

-- A step of request number `i`.
abbrev pub at_index : ℕ → Context → List Handling → Context × List Handling
at_index i ctx [] = (ctx, [])
at_index zero ctx (h ∷ hs) = let (ctx', h') = advance ctx h h.stage in (ctx', h' ∷ hs)
at_index (suc i) ctx (h ∷ hs) = let (ctx', hs') = at_index i ctx hs in (ctx', h ∷ hs')

-- The steps of the requests in some order.
unfoldable pub interleave : List ℕ → Closure → Closure
unfolding advance second_context
interleave [] c = c
interleave (i ∷ order) c =
    let (ctx', hs) = at_index i c.ctx c.handlings in
    interleave order (record { ctx = ctx'; handlings = hs })

abbrev pub fresh : Context → Handling
fresh own = record { own = own; stage = arrived; opened_with = none; ran_with = none }

abbrev pub served : Context → Context → Context → Handling
served own open_context run_context = record {
  own = own;
  stage = done;
  opened_with = open_context;
  ran_with = run_context;
}

pub second_context_own : (own : Context) → second_context own own ≡ extended own
unfolding second_context extended
second_context_own none = refl
second_context_own (some dead) = refl
