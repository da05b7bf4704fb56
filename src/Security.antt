-- ===== src/Security.antt =====
-- psyexp_net/security: a client's identity and the check of its shared secret.
use psyexp_net.Prelude.{
  String, Bool, true, false, not, Option, none, some, ◌≡◌, ◌↔◌, ◌≢◌, arith, inl, inr, Bool-cases,
  Option-cases, eq_iff, ◌==◌, string_eq, if◌then◌else◌,
}
use psyexp_net.Prelude.Dict
use psyexp_net.Config.{SecurityConfig}
use psyexp_net.Errors.{Result, ok, err, authentication}

pub record ClientIdentity : Type 0 where
  pub client_id : String
  pub role : String
  pub instance_uuid : String
  pub client_secret : Option String

-- expected == client_secret
abbrev pub matches : String → Option String → Bool
matches expected none = false
matches expected (some s) = expected == s

-- `TrustedLanAuthenticator.validate`
unfoldable pub validate : SecurityConfig → String → Option String → Result (Unit {0})
validate config client_id client_secret =
    if not config.require_secret then ok tt else elim (Dict.get client_id config.shared_secrets) [
      | none ↦ err authentication
      | some expected ↦ if matches expected client_secret then ok tt else err authentication
    ]

matches_iff : (s : String) (o : Option String) → (matches s o ≡ true) ↔ (o ≡ some s)
matches_iff s none = ground arith
matches_iff s (some t) = ground (arith, eq_iff s t)

-- A client passes exactly when no secret is required, or one is configured for its id and it is the
-- secret that the client presents. Any other client is refused with AuthenticationError.
pub validate_lem :
    (config : SecurityConfig) (client_id : String) (secret : Option String)
    → ((validate config client_id secret ≡ ok tt) ↔ (
        (config.require_secret ≡ true)
        → (s : String) × (Dict.get client_id config.shared_secrets ≡ some s) × (secret ≡ some s)))
      × (validate config client_id secret ≢ ok tt
          → validate config client_id secret ≡ err authentication)
unfolding validate
validate_lem config client_id secret = (
  (
    λ passed required. elim (Option-cases (Dict.get client_id config.shared_secrets)) [
      | inl unknown ↦ ground arith
      | inr (s, known) ↦ (s, known, (matches_iff s secret).0 (ground arith))
    ],
    λ allowed. elim (Bool-cases config.require_secret) [
      | inl required ↦
          let (s, known, presented) = allowed required in
          rw (required, known) (ground (arith, (matches_iff s secret).1 presented))
      | inr free ↦ rw free
    ],
  ),
  λ refused. ground arith,
)
