-- ===== src/Ip/Text.antt =====
-- Python's `str.split(",")` and `str.strip()`, which app/ip_utils.py calls, over native strings.
use Prim.Native.Char.{code}
use office_attendance_backen.Base.{
  ℕ, String, str_eq, Bool, List, [], ◌∷◌, ◌||◌, ◌&&◌, ◌==◌, leb, if◌then◌else◌,
}

-- The code points at which `str.isspace` holds.
abbrev is_space : ℕ → Bool
is_space c =
    (leb 9 c && leb c 13)
    || (leb 28 c && leb c 32)
    || (leb 8192 c && leb c 8202)
    || c == 133
    || c == 160
    || c == 5760
    || c == 8232
    || c == 8233
    || c == 8239
    || c == 8287
    || c == 12288

unfoldable pub split_comma : String → List String
split_comma String.[] = "" ∷ []
split_comma (String.◌∷◌ c s) = elim (split_comma s) [
  | [] ↦ String.◌∷◌ c "" ∷ []
  | w ∷ ws ↦ if code c == b',' then "" ∷ w ∷ ws else String.◌∷◌ c w ∷ ws
]

unfoldable pub lstrip : String → String
lstrip String.[] = ""
lstrip (String.◌∷◌ c s) = let rest = lstrip s in if is_space (code c) then rest else String.◌∷◌ c s

unfoldable pub rstrip : String → String
rstrip String.[] = ""
rstrip (String.◌∷◌ c s) =
    let rest = rstrip s in if str_eq rest "" && is_space (code c) then "" else String.◌∷◌ c rest

unfoldable pub strip : String → String
unfolding lstrip rstrip
strip s = rstrip (lstrip s)
