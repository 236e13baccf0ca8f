-- ===== src/Server/Config.antt =====
-- crates/singularis-server/src/config.rs. The environment is an argument; parsing of socket addresses
-- is a parameter.
use singularis.Prelude.{
  ℕ, ◌+◌, ◌*◌, ◌-◌, ◌^◌, ◌≡◌, Bool, true, not, ◌&&◌, Option, none, some, [], ◌∷◌, Result, ok, err,
  ◌>>=◌, ◌>>◌, ok_or, fail_if, map_err, arith, if◌then◌else◌, ltb, leb, eqb, Text, text,
}
use singularis.Protocol.Ttl.{ServerTtl, TtlError, try_from, max_ttl, InPolicy}

-- What `env::var` returns.
pub data EnvVar : Type 0 where
  value : Text → EnvVar
  not_present not_unicode : EnvVar

pub record SocketAddrs : Type 1 where
  pub SocketAddr : Type 0
  pub parse_addr : Text → Option SocketAddr
  pub is_loopback : SocketAddr → Bool

pub data ConfigError : Type 0 where
  bad_bind_addr not_loopback ttl_not_integer ttl_unreadable : ConfigError
  ttl_invalid : TtlError → ConfigError

-- `u64::from_str`: digits behind an optional plus sign, every step checked against 2^64.
pub parse_digits : ℕ → Text → Option ℕ
parse_digits acc [] = some acc
parse_digits acc (c ∷ rest) =
    if (leb 48 c && leb c 57) && ltb (acc * 10 + (c - 48)) (2 ^ 64)
    then parse_digits (acc * 10 + (c - 48)) rest
    else none

abbrev some_digits : Text → Option ℕ
some_digits [] = none
some_digits (c ∷ rest) = parse_digits 0 (c ∷ rest)

unfoldable pub parse_u64 : Text → Option ℕ
unfolding parse_digits
parse_u64 [] = none
parse_u64 (c ∷ rest) = if eqb c 43 then some_digits rest else parse_digits 0 (c ∷ rest)

abbrev pub default_bind_addr : Text
default_bind_addr = text "127.0.0.1:8787"

module _ (net : SocketAddrs) where
  pub record AppConfig : Type 0 where
    pub bind_addr : net.SocketAddr
    pub max_server_ttl : ServerTtl

  -- `unwrap_or_else(|_| …)`: the default also stands in for a value that is not Unicode.
  abbrev pub or_default_addr : EnvVar → Text
  or_default_addr (value v) = v
  or_default_addr _ = default_bind_addr

  unfoldable pub read_ttl : EnvVar → Result ConfigError ServerTtl
  read_ttl (value v) = do
    seconds ← ok_or (parse_u64 v) ttl_not_integer
    map_err ttl_invalid (try_from seconds)
  read_ttl not_present = ok max_ttl
  read_ttl not_unicode = err ttl_unreadable

  unfoldable pub from_env : EnvVar → EnvVar → Result ConfigError AppConfig
  from_env bind_var ttl_var = do
    bind_addr ← ok_or (net.parse_addr (or_default_addr bind_var)) bad_bind_addr
    fail_if (not (net.is_loopback bind_addr)) not_loopback
    max_server_ttl ← read_ttl ttl_var
    ok (record { bind_addr = bind_addr; max_server_ttl = max_server_ttl })

  -- A server that starts listens on a loopback address that is the configured or the default one, and
  -- its policy on lifetimes is within that of the protocol; without the variable it is the maximum.
  pub from_env-safe :
      (bind_var ttl_var : EnvVar) (c : AppConfig)
      → from_env bind_var ttl_var ≡ ok c
      → (net.is_loopback c.bind_addr ≡ true)
        × (net.parse_addr (or_default_addr bind_var) ≡ some c.bind_addr)
        × InPolicy c.max_server_ttl
        × (ttl_var ≡ not_present → c.max_server_ttl ≡ max_ttl)
  unfolding from_env read_ttl try_from
  from_env-safe bind_var (value v) c h =
      (ground arith, ground arith, (ground arith, ground arith), λ e. cc)
  from_env-safe bind_var not_present c h =
      (ground arith, ground arith, ground arith, λ e. ground arith)
  from_env-safe bind_var not_unicode c h = absurd (ground arith)
