-- ===== src/Process/Health.antt =====
-- The health check asks the server that the same environment starts.
use mathlib.Core.Bool.{true≢false}
use anilibria_torznab.Prelude.{
  ◌⊎◌, true, if◌then◌else◌, ◌≡◌, refl, sym, ap, ◌∙◌, inl, inr, Bool-cases, false, Option,
  Option-cases, some, none, [], ◌∷◌, ◌++◌, arith,
}
use anilibria_torznab.Text.{same_iff, Bytes, codes, is_empty, trim_space}
use anilibria_torznab.Config.{loaded, Environment, Config, optional_string, validate_listen_addr}
use anilibria_torznab.Config.Load.{Addresses, load_addresses, load_from}
use anilibria_torznab.Config.Bounds.{and_then-rule, loaded-rule}
use anilibria_torznab.Process.{
  same, os_getenv, join_host_port, is_unspecified, reachable_host, health_url,
}

abbrev listen_addr_of : Environment → Bytes
listen_addr_of env = optional_string env (codes "LISTEN_ADDR") (codes ":8080")

-- An address that is accepted: it is the one of the environment, and has a host and a port.
abbrev Listens : Environment → Bytes → Type 0
Listens env addr =
    (addr ≡ listen_addr_of env)
    × (is_empty (trim_space addr) ≡ false)
    × ((host : Bytes) × (port : Bytes) × (env.split_host_port addr ≡ some (host, port)))

validate_listen_addr-Listens :
    (env : Environment) (addr : Bytes)
    → validate_listen_addr env (listen_addr_of env) ≡ loaded addr
    → Listens env addr
unfolding validate_listen_addr
validate_listen_addr-Listens env addr h =
    elim (Option-cases (env.split_host_port (listen_addr_of env))) [
      | inl e ↦ absurd (ground arith)
      | inr ((host, port), e) ↦
          let same_addr : addr ≡ listen_addr_of env = ground arith in
          (same_addr, ground arith, (host, port, ap env.split_host_port same_addr ∙ e))
    ]

load_from-Listens :
    (env : Environment) (cfg : Config) → load_from env ≡ loaded cfg → Listens env cfg.listen_addr
unfolding load_from load_addresses
load_from-Listens env =
    let P : Config → Type 0 = λ cfg. Listens env cfg.listen_addr in
    and_then-rule P _ _ (λ a ea. and_then-rule P _ _ (λ t et. and_then-rule P _ _ (λ i ei.
      and_then-rule P _ _ (λ l el. and_then-rule P _ _ (λ c ec.
        and_then-rule P _ _
          (λ level ev cfg. loaded-rule P _ cfg (load_addresses-Listens env a ea)))))))
  where
    load_addresses-Listens :
        (env : Environment) (a : Addresses) → load_addresses env ≡ loaded a → Listens env a.listen
    load_addresses-Listens env =
        let Q : Addresses → Type 0 = λ a. Listens env a.listen in
        and_then-rule Q _ _ (λ listen el. and_then-rule Q _ _ (λ key ek.
          and_then-rule Q _ _ (λ api ea.
            and_then-rule Q _ _
              (λ site es a. loaded-rule Q _ a (validate_listen_addr-Listens env listen el)))))

-- The hosts by which a server listens on all addresses
abbrev pub IsEverywhere : Bytes → Type 0
IsEverywhere host = (host ≡ []) ⊎ ((host ≡ codes "0.0.0.0") ⊎ (host ≡ codes "::"))

-- The host by which such a server is reached, or the one on which any other listens
abbrev pub IsReachable : Bytes → Bytes → Type 0
IsReachable host reachable =
    (IsEverywhere host × (reachable ≡ codes "127.0.0.1"))
    ⊎ (¬ (IsEverywhere host) × (reachable ≡ host))

is_unspecified-IsEverywhere : (host : Bytes) → is_unspecified host ≡ true → IsEverywhere host
unfolding is_unspecified
is_unspecified-IsEverywhere [] e = inl refl
is_unspecified-IsEverywhere (c ∷ host) e = elim (Bool-cases (same (c ∷ host) (codes "0.0.0.0"))) [
  | inl v4 ↦ inr (inl ((same_iff (c ∷ host) (codes "0.0.0.0")).0 v4))
  | inr other ↦ inr (inr ((same_iff (c ∷ host) (codes "::")).0 (ground arith)))
]

everywhere-unspecified : (host : Bytes) → IsEverywhere host → is_unspecified host ≡ true
unfolding is_unspecified
everywhere-unspecified host (inl e) = ap is_unspecified e
everywhere-unspecified host (inr (inl e)) = ap is_unspecified e
everywhere-unspecified host (inr (inr e)) = ap is_unspecified e

reachable_host-IsReachable : (host : Bytes) → IsReachable host (reachable_host host)
unfolding reachable_host
reachable_host-IsReachable host = elim (Bool-cases (is_unspecified host)) [
  | inl e ↦ inl (is_unspecified-IsEverywhere host e, ground arith)
  | inr e ↦
      inr
        (λ everywhere. true≢false (sym (everywhere-unspecified host everywhere) ∙ e), ground arith)
]

abbrev value_or : Bytes → Option Bytes → Bytes
value_or fallback none = fallback
value_or fallback (some value) = value

configured_addr :
    (value : Option Bytes) (addr : Bytes)
    → addr ≡ value_or (codes ":8080") value
    → is_empty (trim_space addr) ≡ false
    → (let configured = value_or [] value in
        if is_empty configured then codes ":8080" else configured)
      ≡ addr
unfolding trim_space
configured_addr none addr e filled = sym e
configured_addr (some (c ∷ value)) addr e filled = sym e
configured_addr (some []) addr e filled =
    absurd (true≢false (ap (λ s. is_empty (trim_space s)) (sym e) ∙ filled))

health_addr :
    (env : Environment) (addr : Bytes)
    → addr ≡ listen_addr_of env
    → is_empty (trim_space addr) ≡ false
    → (let configured = os_getenv env (codes "LISTEN_ADDR") in
        if is_empty configured then codes ":8080" else configured)
      ≡ addr
unfolding os_getenv optional_string
health_addr env addr = configured_addr (env.getenv (codes "LISTEN_ADDR")) addr

-- Where HEALTHCHECK_URL is not set, the check of a server with an accepted configuration asks for /healthz at
-- the port on which that server listens, and at 127.0.0.1 just where its host is empty, 0.0.0.0 or ::, at
-- its own host otherwise.
pub health_url-Listens :
    (env : Environment) (cfg : Config)
    → load_from env ≡ loaded cfg
    → os_getenv env (codes "HEALTHCHECK_URL") ≡ []
    → (host : Bytes) × (port : Bytes) × (env.split_host_port cfg.listen_addr ≡ some (host, port))
      × IsReachable host (reachable_host host)
      × (health_url env
          ≡ some (codes "http://" ++ join_host_port (reachable_host host) port ++ codes "/healthz"))
unfolding health_url
health_url-Listens env cfg accepted unset =
    let (same_addr, filled, (host, port, split)) = load_from-Listens env cfg accepted in
    (
      host,
      port,
      split,
      reachable_host-IsReachable host,
      let chosen = health_addr env cfg.listen_addr same_addr filled in
          let found = ap env.split_host_port chosen ∙ split in rw (health_url, unset, found) refl,
    )
