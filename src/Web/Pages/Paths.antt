-- ===== src/Web/Pages/Paths.antt =====
-- The paths of databases, and of all else.
use dqlited.Base.{
  arith, Bool-cases, not, ◌&&◌, if◌then◌else◌, zero, suc, ℕ, ◌||◌, ◌≡◌, ◌≢◌, refl, Bool, true,
  false, List, [], ◌∷◌, ◌++◌, length, Bytes, codes, All, Option, none, some, ltb, inl, inr,
  Bool-cases,
}
use dqlited.Web.Status.{Page, execute_page, query_page, routes}
use dqlited.Web.Queries.{db_name}
use dqlited.Web.Queries.Laws.{db_name_lem}
use dqlited.Web.Pages.{
  fits, longer, longest, Route, to_page, redirect, missing, route_of, is_unclean, is_pattern,
  dispatch,
}
use dqlited.Text.{equal, split}
use dqlited.Text.Prefix.{equal_iff}

abbrev execute_path : Bytes → Bytes
execute_path name = codes "/db/execute/" ++ name

abbrev query_path : Bytes → Bytes
query_path name = codes "/db/query/" ++ name

split_slashless : (name : Bytes) → All (λ c. c ≢ b'/') name → split name b'/' ≡ name ∷ []
unfolding split
split_slashless [] h = refl
split_slashless (c ∷ name) h = ground (arith, split_slashless name h.1, h.0)

-- A name that is an element of a clean path.
not_dots :
    (name : Bytes)
    → name ≢ codes "."
    → name ≢ codes ".."
    → (equal name (codes ".") || equal name (codes "..")) ≡ false
not_dots name one two = ground (arith, equal_iff name (codes "."), equal_iff name (codes ".."))

module _ (name : Bytes) (h : All (λ c. c ≢ b'/') name) (one : name ≢ codes ".")
    (two : name ≢ codes "..") where
  execute_clean : is_unclean (split (execute_path name) b'/') ≡ false
  unfolding split is_unclean
  execute_clean = rw (split_slashless name h) (not_dots name one two)

  query_clean : is_unclean (split (query_path name) b'/') ≡ false
  unfolding split is_unclean
  query_clean = rw (split_slashless name h) (not_dots name one two)

  execute_path_lem : dispatch routes (execute_path name) ≡ to_page execute_page
  unfolding dispatch routes
  execute_path_lem = rw execute_clean (behind name)
    where
      behind :
          (s : Bytes)
          → (if not (is_pattern routes (execute_path s))
                && is_pattern routes (execute_path s ++ b'/' ∷ [])
              then redirect
              else route_of (longest routes (execute_path s)))
            ≡ to_page execute_page
      behind [] = refl
      behind (c ∷ s) = refl

  query_path_lem : dispatch routes (query_path name) ≡ to_page query_page
  unfolding dispatch routes
  query_path_lem = rw query_clean (behind name)
    where
      behind :
          (s : Bytes)
          → (if not (is_pattern routes (query_path s))
                && is_pattern routes (query_path s ++ b'/' ∷ [])
              then redirect
              else route_of (longest routes (query_path s)))
            ≡ to_page query_page
      behind [] = refl
      behind (c ∷ s) = refl

longer-ne-none : (found : ℕ × Page) (later : Option (ℕ × Page)) → longer found later ≢ none
longer-ne-none found none = λ e. cc
longer-ne-none (n, page) (some (m, other)) = elim (Bool-cases (ltb n m)) [
  | inl less ↦ rw less (λ e. cc)
  | inr more ↦ rw more (λ e. cc)
]

-- Some pattern of the handlers fits.
abbrev fits_some : List (Bytes × Page) → Bytes → Bool
fits_some [] path = false
fits_some ((pattern, page) ∷ handlers) path = fits path pattern || fits_some handlers path

longest-ne-none :
    (handlers : List (Bytes × Page)) (path : Bytes)
    → fits_some handlers path ≡ true
    → longest handlers path ≢ none
unfolding longest
longest-ne-none [] path h = cc
longest-ne-none ((pattern, page) ∷ handlers) path h = elim (Bool-cases (fits path pattern)) [
  | inl here ↦ rw here (longer-ne-none (length pattern, page) (longest handlers path))
  | inr not_here ↦ rw not_here (longest-ne-none handlers path (rw not_here at h))
]

-- The handlers behind the first `n`.
abbrev others : ℕ → List (Bytes × Page) → List (Bytes × Page)
others zero handlers = handlers
others (suc n) [] = []
others (suc n) (h ∷ handlers) = others n handlers

fits_some-others :
    (n : ℕ) (handlers : List (Bytes × Page)) (path : Bytes)
    → fits_some (others n handlers) path ≡ true
    → fits_some handlers path ≡ true
fits_some-others zero handlers path h = h
fits_some-others (suc n) [] path h = h
fits_some-others (suc n) ((pattern, page) ∷ handlers) path h =
    elim (Bool-cases (fits path pattern)) [
      | inl here ↦ rw here refl
      | inr not_here ↦ rw not_here (fits_some-others n handlers path h)
    ]

-- The pattern of the home page stands in the tenth place, and fits each path.
home_fits : (rest : Bytes) → fits_some (others 9 routes) (b'/' ∷ rest) ≡ true
unfolding fits routes
home_fits rest = refl

route_of-ne-missing : (found : Option (ℕ × Page)) → found ≢ none → route_of found ≢ missing
route_of-ne-missing none h = λ e. h refl
route_of-ne-missing (some (n, page)) h = λ e. cc

redirect_or :
    (a b : Bool) (r : Route)
    → r ≢ missing
    → (if a then redirect else if b then redirect else r) ≢ missing
redirect_or true b r h = λ e. cc
redirect_or false true r h = λ e. cc
redirect_or false false r h = h

-- A path that names a database, with no slash in its name, and with a name that is not `.` or `..`,
-- leads to the handler of `/db/execute/` or of `/db/query/`, and that handler takes the name from the path.
-- Every path that begins with a slash leads to some page, or is redirected.
pub routes-name :
    (name rest : Bytes)
    → All (λ c. c ≢ b'/') name
    → name ≢ codes "."
    → name ≢ codes ".."
    → (dispatch routes (codes "/db/execute/" ++ name) ≡ to_page execute_page)
      × (db_name (codes "/db/execute/" ++ name) ≡ name)
      × (dispatch routes (codes "/db/query/" ++ name) ≡ to_page query_page)
      × (db_name (codes "/db/query/" ++ name) ≡ name)
      × (dispatch routes (b'/' ∷ rest) ≢ missing)
unfolding dispatch
routes-name name rest h one two = (
  execute_path_lem name h one two,
  db_name_lem (codes "/db/execute") name (λ e. cc) h,
  query_path_lem name h one two,
  db_name_lem (codes "/db/query") name (λ e. cc) h,
  redirect_or _ _ (route_of (longest routes (b'/' ∷ rest))) (
      route_of-ne-missing (longest routes (b'/' ∷ rest)) (
        longest-ne-none routes (b'/' ∷ rest)
          (fits_some-others 9 routes (b'/' ∷ rest) (home_fits rest)))),
)
