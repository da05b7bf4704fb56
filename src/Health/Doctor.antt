-- ===== src/Health/Doctor.antt =====
-- psyexp_net/health/doctor.py. What the doctor finds around it is input: the host's name and
-- addresses, which packages are installed, what discovery reports, whether a connection to the
-- target is accepted, and how the server answers the probe's client.
pub mod Laws
use Prim.Native.String.{◌++◌}
use psyexp_net.Prelude.{
  String, ℕ, zero, suc, min, max, Bool, true, false, not, ◌&&◌, ◌||◌, Option, none, some, List, [],
  ◌∷◌, map, is_empty, ◌==◌, string_eq, if◌then◌else◌,
}
use mathlib.Core.List.{◌++◌ as ◌+++◌}
use psyexp_net.Config.{AppConfig}
use psyexp_net.Errors.{Result, ok, err, ◌>>=◌}
use psyexp_net.Discovery.{Found, server_endpoint}
use psyexp_net.Floats.{Floats, ℤ, pos}
use psyexp_net.Logging.Summary.{Statistics}
use psyexp_net.Protocol.Versioning.{sorted_set}
use psyexp_net.Timing.Rolling.{compute_jitter_ms}

pub record DoctorReport (F : Type 0) : Type 0 where
  pub hostname : String
  pub interfaces : List String
  pub target : String
  pub port : ℤ
  pub discovery_mode : String
  pub service_visible : Bool
  pub reachable : Bool
  pub handshake_ok : Option Bool
  pub protocol_version : Option String
  pub protocol_match : Option Bool
  pub avg_rtt_ms : Option F
  pub jitter_ms : Option F
  pub clock_offset_ms : Option F
  pub has_zmq : Bool
  pub has_zeroconf : Bool
  pub notes : List String

pub record Surroundings (F : Type 0) : Type 0 where
  pub hostname : String
  -- what getaddrinfo gives, or `none` for its OSError
  pub addresses : Option (List String)
  pub has_zmq : Bool
  pub has_zeroconf : Bool
  pub records : List Found
  -- whether a connection to a target is accepted
  pub connects : String → ℤ → Bool
  -- whether the server accepts the probe's client, and its offset and round trip at each ping
  pub registered : Result Bool
  pub pings : ℕ → Result (F × F)

-- sep.join(texts)
unfoldable pub join : String → List String → String
join sep [] = ""
join sep (t ∷ []) = t
join sep (t ∷ u ∷ ts) = t ++ sep ++ join sep (u ∷ ts)

abbrev pub yes_no : Bool → String
yes_no true = "yes"
yes_no false = "no"

-- a part of the text that is left out when there is no value
abbrev pub part {ℓ} : {A : Type ℓ} → (A → String) → Option A → List String → List String
part show none rest = rest
part show (some a) rest = show a ∷ rest

-- `DoctorReport.summary`; f"{x:.3f}" and the text of an int are parameters
unfoldable pub summary : {F : Type 0} → (F → String) → (ℤ → String) → DoctorReport F → String
unfolding join
summary three print_int r = join "; " (
    (r.hostname ++ ": target " ++ r.target ++ ":" ++ print_int r.port)
    ∷ ("discovery=" ++ r.discovery_mode)
    ∷ ("visible=" ++ yes_no r.service_visible)
    ∷ ("reachable=" ++ yes_no r.reachable)
    ∷ part (λ b. "handshake=" ++ (if b then "ok" else "failed")) r.handshake_ok
        (part (λ b. "protocol_match=" ++ yes_no b) r.protocol_match
          (part (λ x. "avg_rtt_ms=" ++ three x) r.avg_rtt_ms
            (part (λ x. "jitter_ms=" ++ three x) r.jitter_ms
              (part (λ x. "offset_ms=" ++ three x) r.clock_offset_ms
                (part (λ ns. "notes=" ++ join "; " ns)
                  (if is_empty r.notes then none else some r.notes)
                  (("interfaces=" ++ join ", " r.interfaces) ∷ [])))))))

-- `_collect_interfaces`
abbrev pub collect_interfaces : Option (List String) → List String
collect_interfaces none = "127.0.0.1" ∷ []
collect_interfaces (some found) = sorted_set found

module _ {F : Type 0} where
  -- `_manual_target`
  abbrev pub manual_target : AppConfig F → Option Found × String × ℤ
  manual_target config = (none, (server_endpoint config).0, pos (server_endpoint config).1)

  -- `_resolve_target` when discovery is on and zeroconf is installed, with the notes that it adds
  abbrev pub discovered : AppConfig F → List Found → (Option Found × String × ℤ) × List String
  discovered config [] =
      (manual_target config, "zeroconf service not visible; fallback to manual target" ∷ [])
  discovered config (r ∷ rs) =
      ((some r, (if r.host == "" then config.network.host else r.host), r.control_port), [])

  -- `_resolve_target`
  unfoldable pub resolve_target :
      AppConfig F → Surroundings F → (Option Found × String × ℤ) × List String
  resolve_target config env =
      if config.network.discovery == "zeroconf"
      then (if env.has_zeroconf
          then discovered config env.records
          else (manual_target config, "zeroconf not installed; fallback to manual target" ∷ []))
      else (manual_target config, [])

  -- `_check_port`
  unfoldable pub check_port : Surroundings F → String → ℤ → Bool
  check_port env target port =
      env.connects target port
      || target == "0.0.0.0"
      || target == "127.0.0.1"
      || target == "localhost"

abbrev pub version_of : Option Found → Option String
version_of none = none
version_of (some r) = if r.protocol_version == "" then none else some r.protocol_version

-- for i in range(n): what each round gives, from round `i`
unfoldable pub rounds {ℓ} : {A : Type ℓ} → (ℕ → Result A) → (i n : ℕ) → Result (List A)
rounds f i zero = ok []
rounds f i (suc n) = do a ← f i; rest ← rounds f (suc i) n; ok (a ∷ rest)

-- What the probe finds: whether the handshake succeeds, and the three measures.
pub record Probe (F : Type 0) : Type 0 where
  pub handshake_ok : Bool
  pub avg_rtt_ms : Option F
  pub jitter_ms : Option F
  pub clock_offset_ms : Option F

module _ {F : Type 0} ⦃fl : Floats F⦄ (st : Statistics F) where
  -- f(values) if values else None
  abbrev pub if_any : (List F → F) → List F → Option F
  if_any f [] = none
  if_any f (x ∷ xs) = some (f (x ∷ xs))

  -- the measures of offsets and round trips
  abbrev pub measured : List (F × F) → Probe F
  measured samples = record {
    handshake_ok = true;
    avg_rtt_ms = if_any st.mean (map (λ s. s.1) samples);
    jitter_ms = if_any (compute_jitter_ms st) (map (λ s. s.1) samples);
    clock_offset_ms = if_any st.mean (map (λ s. s.0) samples);
  }

  abbrev pub sample_count : AppConfig F → ℕ
  sample_count config = min (max config.health.benchmark_ping_count 1) 5

  -- `_probe_zmq_server`
  abbrev pub refused : Probe F
  refused = record {
    handshake_ok = false;
    avg_rtt_ms = none;
    jitter_ms = none;
    clock_offset_ms = none;
  }

  unfoldable pub probe_zmq_server : AppConfig F → Surroundings F → Result (Probe F)
  unfolding rounds compute_jitter_ms
  probe_zmq_server config env = do
    accepted ← env.registered
    if accepted
        then (do samples ← rounds env.pings 0 (sample_count config); ok (measured samples))
        else ok refused

  -- the probe that `run` makes, if the backend is ZeroMQ, pyzmq is installed and the port can be
  -- reached, and the notes that it adds
  abbrev pub tried :
      (is_zmq has_zmq reachable : Bool) → Result (Probe F) → Result (Option (Probe F) × List String)
  tried false has_zmq reachable probe = ok (none, [])
  tried true false reachable probe = ok (none, "pyzmq not installed" ∷ [])
  tried true true true probe = do p ← probe; ok (some p, [])
  tried true true false probe =
      ok (none, "control port not reachable; skipped handshake probe" ∷ [])

  abbrev pub of_probe {ℓ} : {A : Type ℓ} → (Probe F → Option A) → Option (Probe F) → Option A
  of_probe get none = none
  of_probe get (some p) = get p

  -- whether the port of the target can be reached
  abbrev pub is_reachable : AppConfig F → Surroundings F → Bool
  is_reachable config env =
      let (found, target, port) = (resolve_target config env).0 in check_port env target port

  -- the report of what was found and tried
  abbrev pub report_of :
      AppConfig F → Surroundings F → Option (Probe F) × List String → DoctorReport F
  report_of config env attempt =
      let (found, target, port) = (resolve_target config env).0 in
      record {
        hostname = env.hostname;
        interfaces = collect_interfaces env.addresses;
        target = target;
        port = port;
        discovery_mode = config.network.discovery;
        service_visible = elim found [ none ↦ false | some r ↦ true ];
        reachable = is_reachable config env;
        handshake_ok = of_probe (λ p. some p.handshake_ok) attempt.0;
        protocol_version = version_of found;
        protocol_match = elim (version_of found) [
          | none ↦ none
          | some v ↦ some (v == config.protocol.version)
        ];
        avg_rtt_ms = of_probe (λ p. p.avg_rtt_ms) attempt.0;
        jitter_ms = of_probe (λ p. p.jitter_ms) attempt.0;
        clock_offset_ms = of_probe (λ p. p.clock_offset_ms) attempt.0;
        has_zmq = env.has_zmq;
        has_zeroconf = env.has_zeroconf;
        notes = (resolve_target config env).1 +++ attempt.1;
      }

  unfoldable pub run : AppConfig F → Surroundings F → Result (DoctorReport F)
  unfolding resolve_target check_port probe_zmq_server sorted_set
  run config env = do
    attempt ←
        tried (config.network.backend == "zmq") env.has_zmq (is_reachable config env)
          (probe_zmq_server config env)
    ok (report_of config env attempt)
