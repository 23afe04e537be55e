-- ===== src/Ip.antt =====
-- app/ip_utils.py: whose address a request comes from, and which addresses an office may have.
mod Text
pub mod Proxy
unfoldable pub use Text.{split_comma, strip}
use office_attendance_backen.Base.{
  String, str_eq, Bool, true, not, Option, none, some, List, [], ◌∷◌, if◌then◌else◌, or_else,
}
use office_attendance_backen.World.{Addresses}

-- What the handlers read of a request: the two proxy headers, the peer and the `User-Agent`.
pub record Request : Type 0 where
  pub x_real_ip : Option String
  pub x_forwarded_for : Option String
  pub client_host : Option String
  pub user_agent : Option String

-- A header that is set and not empty.
abbrev pub truthy : Option String → Option String
truthy none = none
truthy (some s) = if str_eq s "" then none else some s

unfoldable pub normalize_ip : Addresses → String → Option String
normalize_ip a ip = a.canonical (strip ip)

-- `[p.strip() for p in parts if p.strip()]`
unfoldable pub nonblank : List String → List String
nonblank [] = []
nonblank (p ∷ ps) = let rest = nonblank ps in if str_eq (strip p) "" then rest else strip p ∷ rest

-- `parts[-1]`
unfoldable pub last_part : List String → Option String
last_part [] = none
last_part (p ∷ []) = some p
last_part (p ∷ q ∷ ps) = last_part (q ∷ ps)

abbrev pub normalize_opt : Addresses → Option String → Option String
normalize_opt a none = none
normalize_opt a (some s) = normalize_ip a s

-- The canonical address of `X-Real-IP`.
unfoldable pub real_ip : Addresses → Request → Option String
real_ip a r = normalize_opt a (truthy r.x_real_ip)

-- The canonical address of the rightmost `X-Forwarded-For` entry.
unfoldable pub forwarded_ip : Addresses → Request → Option String
unfolding nonblank last_part
forwarded_ip a r = elim (truthy r.x_forwarded_for) [
  | none ↦ none
  | some f ↦ normalize_opt a (last_part (nonblank (split_comma f)))
]

-- The first address that is there.
abbrev pub or_first : Option String → Option String → Option String
or_first none b = b
or_first (some a) b = some a

unfoldable pub get_client_ip : Bool → Addresses → Request → String
unfolding real_ip forwarded_ip
get_client_ip trust_proxy a r =
    let peer = or_else r.client_host "unknown" in
    if trust_proxy then or_else (or_first (real_ip a r) (forwarded_ip a r)) peer else peer

unfoldable pub is_non_public_ip : Addresses → String → Bool
is_non_public_ip a ip = elim (a.canonical ip) [ none ↦ true | some addr ↦ not (a.is_global addr) ]
