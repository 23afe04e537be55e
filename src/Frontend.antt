-- ===== src/Frontend.antt =====
-- app/main.py `_serve`, `_safe_candidate` and `serve_frontend`: the files of the built frontend, and
-- app/config.py `cors_origin_list`. A path is pathlib's `parts` on POSIX, its root first if it has
-- one. The file system is a parameter.
pub mod Inside
use Prim.Native.Char.{code}
use office_attendance_backen.Base.{
  String, str_eq, Bool, true, false, not, Option, none, some, List, [], ◌∷◌, ◌++◌, ◌==◌, ◌&&◌, ◌||◌,
  if◌then◌else◌,
}
use office_attendance_backen.Session.{Result, ok, err, internal}
use office_attendance_backen.Ip.{nonblank, split_comma, last_part}

-- `cors_origin_list`, of the setting `cors_origins`
unfoldable pub cors_origin_list : String → List String
cors_origin_list cors_origins = nonblank (split_comma cors_origins)

abbrev pub FilePath : Type 0
FilePath = List String

-- `path.resolve()`: the path, or an `OSError` or `ValueError`, or another exception.
pub data Resolved : Type 0 where
  resolved : FilePath → Resolved
  unreadable raised : Resolved

-- What the handlers ask of the file system. `is_file` may raise too.
pub record Files : Type 0 where
  pub resolve : FilePath → Resolved
  pub is_file : FilePath → Option Bool

unfoldable pub split_slash : String → List String
split_slash String.[] = "" ∷ []
split_slash (String.◌∷◌ c s) = elim (split_slash s) [
  | [] ↦ String.◌∷◌ c "" ∷ []
  | w ∷ ws ↦ if code c == b'/' then "" ∷ w ∷ ws else String.◌∷◌ c w ∷ ws
]

-- pathlib drops empty parts and `.`, and keeps `..`.
unfoldable pub named_parts : List String → FilePath
named_parts [] = []
named_parts (p ∷ ps) =
    let rest = named_parts ps in if str_eq p "" || str_eq p "." then rest else p ∷ rest

-- The root of a string's path: two slashes are a root of their own, one, three or more are `/`.
abbrev pub root_of : List String → FilePath
root_of (a ∷ b ∷ []) = if str_eq a "" then "/" ∷ [] else []
root_of (a ∷ b ∷ c ∷ cs) =
    if str_eq a "" then (if str_eq b "" && not (str_eq c "") then "//" ∷ [] else "/" ∷ []) else []
root_of _ = []

unfoldable pub path_of : String → FilePath
unfolding split_slash named_parts
path_of s = let ps = split_slash s in root_of ps ++ named_parts ps

-- `a / b`: a path with a root replaces the one that it is joined to.
abbrev pub join : FilePath → FilePath → FilePath
join a [] = a
join a (p ∷ ps) = if str_eq p "/" || str_eq p "//" then p ∷ ps else a ++ p ∷ ps

abbrev pub is_relative_to : FilePath → FilePath → Bool
is_relative_to path [] = true
is_relative_to [] (d ∷ ds) = false
is_relative_to (p ∷ ps) (d ∷ ds) = let rest = is_relative_to ps ds in str_eq p d && rest

-- `path.name`
unfoldable pub name_of : FilePath → String
unfolding last_part
name_of path = elim (last_part path) [
  | none ↦ ""
  | some n ↦ if str_eq n "/" || str_eq n "//" then "" else n
]

-- `path.name in NEVER_CACHE`
abbrev pub never_cache : String → Bool
never_cache name =
    str_eq name "index.html"
    || str_eq name "sw.js"
    || str_eq name "registerSW.js"
    || str_eq name "manifest.webmanifest"

pub record FileResponse : Type 0 where
  pub path : FilePath
  pub cache_control : Option String

-- `_serve`
unfoldable pub serve_file : FilePath → FileResponse
unfolding name_of
serve_file path = record {
  path = path;
  cache_control = if never_cache (name_of path) then some "no-cache" else none;
}

-- `_safe_candidate`, with `FRONTEND_DIST`
unfoldable pub safe_candidate : Files → FilePath → String → Result (Option FilePath)
unfolding path_of
safe_candidate f dist full_path = elim (f.resolve (join dist (path_of full_path))) [
  | unreadable ↦ ok none
  | raised ↦ err internal
  | resolved candidate ↦ elim (f.resolve dist) [
    | resolved root ↦
        if is_relative_to candidate root
        then elim (f.is_file candidate) [
          | none ↦ err internal
          | some is_file ↦ ok (if is_file then some candidate else none)
        ]
        else ok none
    | _ ↦ err internal
  ]
]

unfoldable pub serve_frontend : Files → FilePath → String → Result FileResponse
unfolding safe_candidate serve_file
serve_frontend f dist full_path =
    let index = serve_file (join dist ("index.html" ∷ [])) in
    if str_eq full_path "" then ok index else elim (safe_candidate f dist full_path) [
      | err e ↦ err e
      | ok none ↦ ok index
      | ok (some candidate) ↦ ok (serve_file candidate)
    ]
