-- ===== src/Daemon/Http.antt =====
-- What gitlexd answers to (src/gitlexd/http.rs: `is_local_host`, `is_local_origin`, `local_only`).
-- `next` is the answer of the routes.
pub mod Local
use git_lex.Base.{
  ℕ, suc, ◌≡◌, Bool, true, false, not, ◌&&◌, ◌||◌, Option, none, some, List, [], ◌∷◌, ◌++◌, any,
  all, ltb, leb, ◌==◌, if◌then◌else◌,
}
use git_lex.Text.{Text, codes, same, is_empty, is_digit, strip_prefix}
use git_lex.Text.Split.{split_once}

abbrev pub own_hosts : List Text
own_hosts = codes "127.0.0.1:7880" ∷ codes "localhost:7880" ∷ codes "[::1]:7880" ∷ []

unfoldable pub is_local_host : Text → Bool
is_local_host host = any (λ h. same h host) own_hosts

abbrev pub or_else : Option Text → Option Text → Option Text
or_else none b = b
or_else (some a) b = some a

abbrev pub parted : Option (Text × Text) → Text → Text × Text
parted none rest = (rest, [])
parted (some (h, p)) rest = (h, b':' ∷ p)

abbrev pub host_and_port : Option Text → Text → Text × Text
host_and_port (some after) rest = (codes "[::1]", after)
host_and_port none rest = parted (split_once b':' rest) rest

abbrev pub port_ok : Text → Bool
port_ok [] = true
port_ok (c ∷ []) = false
port_ok (c ∷ d ∷ port) = c == b':' && all is_digit (d ∷ port)

abbrev pub is_local_name : Text → Bool
is_local_name host =
    same host (codes "localhost") || (same host (codes "127.0.0.1") || same host (codes "[::1]"))

abbrev pub names_local : Text × Text → Bool
names_local (host, port) = port_ok port && is_local_name host

abbrev pub local_rest : Option Text → Bool
local_rest none = false
local_rest (some rest) = names_local (host_and_port (strip_prefix (codes "[::1]") rest) rest)

unfoldable pub is_local_origin : Text → Bool
is_local_origin origin =
    local_rest
      (or_else (strip_prefix (codes "http://") origin) (strip_prefix (codes "https://") origin))

-- The value of a header, which `to_str` reads when its bytes are visible ASCII.
pub data HeaderValue : Type 0 where
  readable : Text → HeaderValue
  unreadable : HeaderValue

abbrev pub to_str : Option HeaderValue → Option Text
to_str none = none
to_str (some (readable s)) = some s
to_str (some unreadable) = none

pub record Request : Type 0 where
  pub host : Option HeaderValue
  pub origin : Option HeaderValue
  pub is_options : Bool

-- The answers of `local_only`; an origin is the value of `Access-Control-Allow-Origin`.
pub data Reply (R : Type 0) : Type 0 where
  forbidden_host forbidden_origin : Reply R
  routed : R → Reply R
  routed_for : Text → R → Reply R
  preflight_for : Text → Reply R

abbrev pub or_empty : Option Text → Text
or_empty none = []
or_empty (some s) = s

module _ {R : Type 0} (next : R) where
  abbrev pub from_origin : Option Text → Bool → Reply R
  from_origin none is_options = Reply.routed next
  from_origin (some origin) is_options = elim (is_local_origin origin) [
    | false ↦ Reply.forbidden_origin
    | true ↦ if is_options then Reply.preflight_for origin else Reply.routed_for origin next
  ]

  unfoldable pub local_only : Request → Reply R
  unfolding is_local_host is_local_origin
  local_only req = elim (is_local_host (or_empty (to_str req.host))) [
    | false ↦ Reply.forbidden_host
    | true ↦ from_origin (to_str req.origin) req.is_options
  ]
