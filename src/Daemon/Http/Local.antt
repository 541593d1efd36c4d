-- ===== src/Daemon/Http/Local.antt =====
-- Which origins are local, and which requests reach a route.
use git_lex.Base.{
  ℕ, ◌≡◌, ◌⊎◌, refl, ap, sym, ◌∙◌, inl, inr, Bool, true, false, ◌&&◌, ◌||◌, Option, none, some, [],
  ◌∷◌, ◌++◌, all, Bool-cases, any, append-nil, ◌==◌, ==_iff,
}
use git_lex.Text.{Text, codes, same, same-eq, is_digit, strip_prefix, strip_prefix-eq_some}
use git_lex.Text.Split.{split_once, split_once-eq_some}
use git_lex.Daemon.Http.{
  HeaderValue, readable, unreadable, to_str, Request, Reply, is_local_host, local_only, from_origin,
  or_else, or_empty, own_hosts, is_local_origin, local_rest, names_local, host_and_port, parted,
  port_ok, is_local_name,
}

-- A port of an origin: left out, or a colon and digits.
abbrev pub IsPort : Text → Type 0
IsPort port =
    (port ≡ [])
    ⊎ ((d : ℕ) × (digits : Text) × (port ≡ b':' ∷ d ∷ digits) × (all is_digit (d ∷ digits) ≡ true))

abbrev pub IsLocalName : Text → Type 0
IsLocalName host =
    (host ≡ codes "localhost") ⊎ ((host ≡ codes "127.0.0.1") ⊎ (host ≡ codes "[::1]"))

abbrev pub IsScheme : Text → Type 0
IsScheme scheme = (scheme ≡ codes "http://") ⊎ (scheme ≡ codes "https://")

-- Scheme, local host name, port.
abbrev pub IsLocal : Text → Type 0
IsLocal origin =
    (scheme : Text) × (host : Text) × (port : Text) × IsScheme scheme
    × IsLocalName host
    × IsPort port
    × (origin ≡ scheme ++ (host ++ port))

and_left : (a b : Bool) → (a && b) ≡ true → (a ≡ true) × (b ≡ true)
and_left true true h = (refl, refl)
and_left true false h = cc
and_left false b h = cc

or_split : (a b : Bool) → (a || b) ≡ true → (a ≡ true) ⊎ (b ≡ true)
or_split true b h = inl refl
or_split false b h = inr h

port_ok-IsPort : (port : Text) → port_ok port ≡ true → IsPort port
port_ok-IsPort [] h = inl refl
port_ok-IsPort (c ∷ []) h = cc
port_ok-IsPort (c ∷ d ∷ port) h =
    let (a, b) = and_left (c == b':') (all is_digit (d ∷ port)) h in
    inr (d, port, ap (λ x. x ∷ d ∷ port) ((==_iff c b':').0 a), b)

is_local_name-IsLocalName : (host : Text) → is_local_name host ≡ true → IsLocalName host
is_local_name-IsLocalName host h =
    elim (or_split (same host (codes "localhost"))
      (same host (codes "127.0.0.1") || same host (codes "[::1]")) h) [
        | inl e ↦ inl (same-eq host (codes "localhost") e)
        | inr k ↦ elim (or_split (same host (codes "127.0.0.1")) (same host (codes "[::1]")) k) [
          | inl e ↦ inr (inl (same-eq host (codes "127.0.0.1") e))
          | inr e ↦ inr (inr (same-eq host (codes "[::1]") e))
        ]
      ]

IsHostPort : Text → Type 0
IsHostPort rest =
    (host : Text) × (port : Text) × IsLocalName host × IsPort port × (rest ≡ host ++ port)

names_local-IsHostPort :
    (host port rest : Text)
    → rest ≡ host ++ port
    → names_local (host, port) ≡ true
    → IsHostPort rest
unfolding IsHostPort
names_local-IsHostPort host port rest e h =
    let (a, b) = and_left (port_ok port) (is_local_name host) h in
    (host, port, is_local_name-IsLocalName host b, port_ok-IsPort port a, e)

parted-IsHostPort :
    (o : Option (Text × Text)) (rest : Text)
    → split_once b':' rest ≡ o
    → names_local (parted o rest) ≡ true
    → IsHostPort rest
parted-IsHostPort none rest e h = names_local-IsHostPort rest [] rest (sym (append-nil rest)) h
parted-IsHostPort (some (a, b)) rest e h =
    names_local-IsHostPort a (b':' ∷ b) rest (split_once-eq_some b':' rest a b e) h

rest-IsHostPort :
    (o : Option Text) (rest : Text)
    → strip_prefix (codes "[::1]") rest ≡ o
    → names_local (host_and_port o rest) ≡ true
    → IsHostPort rest
rest-IsHostPort (some after) rest e h =
    names_local-IsHostPort (codes "[::1]") after rest
      (strip_prefix-eq_some (codes "[::1]") rest after e) h
rest-IsHostPort none rest e h = parted-IsHostPort (split_once b':' rest) rest refl h

origin-IsLocal :
    (scheme origin rest : Text)
    → IsScheme scheme
    → strip_prefix scheme origin ≡ some rest
    → local_rest (some rest) ≡ true
    → IsLocal origin
unfolding IsHostPort
origin-IsLocal scheme origin rest s e h =
    let (host, port, name, p, split) =
      rest-IsHostPort (strip_prefix (codes "[::1]") rest) rest refl h in
    (
      scheme,
      host,
      port,
      s,
      name,
      p,
      strip_prefix-eq_some scheme origin rest e ∙ ap (λ t. scheme ++ t) split,
    )

schemes-IsLocal :
    (a b : Option Text) (origin : Text)
    → strip_prefix (codes "http://") origin ≡ a
    → strip_prefix (codes "https://") origin ≡ b
    → local_rest (or_else a b) ≡ true
    → IsLocal origin
schemes-IsLocal (some rest) b origin e f h =
    origin-IsLocal (codes "http://") origin rest (inl refl) e h
schemes-IsLocal none (some rest) origin e f h =
    origin-IsLocal (codes "https://") origin rest (inr refl) f h
schemes-IsLocal none none origin e f h = cc

is_local_origin-IsLocal : (origin : Text) → is_local_origin origin ≡ true → IsLocal origin
unfolding is_local_origin
is_local_origin-IsLocal origin h =
    schemes-IsLocal (strip_prefix (codes "http://") origin) (strip_prefix (codes "https://") origin)
      origin refl refl h

module _ {R : Type 0} (next : R) where
  -- The routes' own answer is part of the reply.
  abbrev pub reaches_route : Reply R → Bool
  reaches_route (Reply.routed _) = true
  reaches_route (Reply.routed_for _ _) = true
  reaches_route _ = false

  abbrev pub IsTrusted : Option HeaderValue → Type 0
  IsTrusted origin =
      (origin ≡ none)
      ⊎ ((origin ≡ some unreadable) ⊎ ((o : Text) × (origin ≡ some (readable o)) × IsLocal o))

  from_origin_bad :
      (o : Text) (is_options : Bool)
      → is_local_origin o ≡ false
      → from_origin next (some o) is_options ≡ Reply.forbidden_origin
  from_origin_bad o is_options e = rw (from_origin, e) refl

  from_origin-IsTrusted :
      (origin : Option HeaderValue) (is_options : Bool)
      → reaches_route (from_origin next (to_str origin) is_options) ≡ true
      → IsTrusted origin
  from_origin-IsTrusted none is_options h = inl refl
  from_origin-IsTrusted (some unreadable) is_options h = inr (inl refl)
  from_origin-IsTrusted (some (readable o)) is_options h = elim (Bool-cases (is_local_origin o)) [
    | inl e ↦ inr (inr (o, refl, is_local_origin-IsLocal o e))
    | inr e ↦ let g = from_origin_bad o is_options e in cc
  ]

  gate_reaches :
      (b : Bool) (r : Reply R)
      → reaches_route (elim b [ false ↦ Reply.forbidden_host | true ↦ r ]) ≡ true
      → (b ≡ true) × (reaches_route r ≡ true)
  gate_reaches true r h = (refl, h)
  gate_reaches false r h = cc

  -- A request that reaches a route is addressed to one of gitlexd's own three names, and has no
  -- Origin header, or one that `to_str` refuses, or one that is `http` or `https`, a local host name,
  -- and no port or a colon and digits.
  pub local_only-IsTrusted :
      (req : Request)
      → reaches_route (local_only next req) ≡ true
      → (any (λ h. same h (or_empty (to_str req.host))) own_hosts ≡ true) × IsTrusted req.origin
  unfolding local_only is_local_host
  local_only-IsTrusted req h =
      let (a, b) =
        gate_reaches (is_local_host (or_empty (to_str req.host)))
          (from_origin next (to_str req.origin) req.is_options) h in
      (a, from_origin-IsTrusted req.origin req.is_options b)
