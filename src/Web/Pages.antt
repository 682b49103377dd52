-- ===== src/Web/Pages.antt =====
-- Which page of web.go answers a path, and the pages that write a text or a file: `homePage`,
-- `statusPage` and `faviconPage`.
pub mod Paths
use dqlited.Base.{
  not, ◌&&◌, ◌||◌, ◌++◌, ℕ, Bool, true, false, List, [], ◌∷◌, length, Bytes, codes, Option, none,
  some, ◌==◌, ltb, if◌then◌else◌,
}
use dqlited.Text.{equal, has_prefix, split}
use dqlited.Web.Status.{Page}
use dqlited.Web.Output.{Response, write_bytes}

-- `homePage`, and `statusPage`, which nothing calls
abbrev pub home_page : Response → Response
home_page w = write_bytes (codes "nothing to see here\n") w

abbrev pub idle_page : Response → Response
idle_page w = write_bytes (codes "nothing to see here\n") w

-- `faviconPage`: `path.Join` and `http.ServeFile` are code outside the repository.
abbrev pub favicon_page :
    {R W : Type 0} → (Bytes → Bytes → Bytes) → (Bytes → R → W → W) → Bytes → R → W → W
favicon_page join serve_file assets r w = serve_file (join assets (codes "favicon.ico")) r w

-- A pattern that ends with a slash stands for a tree of paths.
unfoldable pub is_tree : Bytes → Bool
is_tree [] = false
is_tree (c ∷ []) = c == b'/'
is_tree (c ∷ d ∷ s) = is_tree (d ∷ s)

unfoldable pub fits : Bytes → Bytes → Bool
unfolding is_tree has_prefix equal
fits path pattern = if is_tree pattern then has_prefix path pattern else equal pattern path

abbrev pub longer : ℕ × Page → Option (ℕ × Page) → Option (ℕ × Page)
longer found none = some found
longer (n, page) (some (m, other)) = if ltb n m then some (m, other) else some (n, page)

-- What `http.ServeMux` documents: of the patterns that fit, the longest one counts.
unfoldable pub longest : List (Bytes × Page) → Bytes → Option (ℕ × Page)
unfolding fits
longest [] path = none
longest ((pattern, page) ∷ handlers) path =
    let later = longest handlers path in
    if fits path pattern then longer (length pattern, page) later else later

-- What becomes of a request: a page answers it, the client is sent to another path, or nothing is found.
pub data Route : Type 0 where
  to_page : Page → Route
  redirect missing : Route

abbrev pub route_of : Option (ℕ × Page) → Route
route_of none = missing
route_of (some (n, found)) = to_page found

abbrev is_dots : Bytes → Bool
is_dots element = equal element (codes ".") || equal element (codes "..")

-- The elements of a path behind its first slash.
unfoldable pub are_unclean : List Bytes → Bool
unfolding equal
are_unclean [] = false
are_unclean (e ∷ []) = is_dots e
are_unclean (e ∷ f ∷ es) = equal e [] || is_dots e || are_unclean (f ∷ es)

-- A path with an element `.` or `..`, with a slash behind a slash, or with no slash at its start.
unfoldable pub is_unclean : List Bytes → Bool
unfolding are_unclean
is_unclean ([] ∷ e ∷ es) = are_unclean (e ∷ es)
is_unclean elements = true

abbrev pub is_pattern : List (Bytes × Page) → Bytes → Bool
is_pattern [] path = false
is_pattern ((pattern, found) ∷ handlers) path = equal pattern path || is_pattern handlers path

-- What `http.ServeMux` documents, but for requests with the method CONNECT: a path that is not clean is
-- redirected to a clean one, and the root of a tree with no slash at its end to that with one, where it is
-- no pattern itself. Any other path is answered by the page of the longest pattern that fits.
unfoldable pub dispatch : List (Bytes × Page) → Bytes → Route
unfolding longest is_unclean split equal
dispatch handlers path =
    if is_unclean (split path b'/')
    then redirect
    else if not (is_pattern handlers path) && is_pattern handlers (path ++ b'/' ∷ [])
    then redirect
    else route_of (longest handlers path)
