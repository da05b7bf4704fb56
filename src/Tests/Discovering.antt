-- ===== src/Tests/Discovering.antt =====
-- Discovery, psyexp_net/discovery, and the percentile of psyexp_net/logging/metrics.py, at concrete
-- inputs.
use mathlib.Core.List.{Mem}
use psyexp_net.Prelude.{
  String, ℕ, zero, suc, ◌==◌, string_eq, if◌then◌else◌, false, Option, none, some, List, [], ◌∷◌,
  ◌≡◌, refl, arith, ltb, length, keep, ◌+◌, ◌≤◌,
}
use psyexp_net.Prelude.Sorting.{IsStrict}
use psyexp_net.Config.{default_config}
use psyexp_net.Discovery.{
  Net, ZeroconfDiscoveryService, new, unregister, service_info, info_of, to_record, addresses,
  properties,
}
use psyexp_net.Discovery.Laws.{reported, AreTexts, to_record-service_info}
use psyexp_net.Discovery.Lifecycle.{
  Call, register_call, unregister_call, calls, IsBalanced, IsWithdrawn, calls-IsBalanced,
}
use psyexp_net.Errors.{ok}
use psyexp_net.Floats.{pos}
use psyexp_net.Logging.Summary.{Statistics, percentile}
use psyexp_net.Logging.Summary.Bounds.{nearest, percentile_bounds}
use psyexp_net.Tests.World.{nat_floats, tallies, tallies-IsFaithful, tally, print}

-- The texts that occur; their places stand in for their bytes.
abbrev texts : List String
texts =
    "service_name" ∷ "service_type" ∷ "server_id" ∷ "protocol_version" ∷ "control_port" ∷ "pub_port"
    ∷ "session_name" ∷ "build_info" ∷ "experiment_profile" ∷ "s" ∷ "t" ∷ "id" ∷ "1.0" ∷ "I" ∷ "II"
    ∷ "default-session" ∷ "dev" ∷ "default" ∷ []

unfoldable place : String → List String → ℕ
place s [] = 0
place s (t ∷ ts) = let rest = place s ts in if t == s then 0 else suc rest

unfoldable nth : ℕ → List String → Option String
nth n [] = none
nth zero (t ∷ ts) = some t
nth (suc n) (t ∷ ts) = nth n ts

abbrev to_bytes : String → List ℕ
to_bytes s = place s texts ∷ []

abbrev of_bytes : List ℕ → Option String
of_bytes [] = none
of_bytes (n ∷ ns) = nth n texts

abbrev net : Net
net = record {
  aton = λ _. some (127 ∷ 0 ∷ 0 ∷ 1 ∷ []);
  ntoa = λ _. none;
  own_address = none;
  gethostname = "h";
  refuses = λ _. false;
  keeps = λ _. false;
  of_utf8 = of_bytes;
}

abbrev served : ZeroconfDiscoveryService ℕ
served = record {
  config = record (default_config {F = ℕ}) {
    network = record (default_config {F = ℕ}).network { control_port = 1; pub_port = 2 };
  };
  service_type = "t";
  service_name = "s";
  server_id = "id";
  build_info = "dev";
  registered_info = none;
  requests = [];
}

served-AreTexts : AreTexts net to_bytes (properties tallies served)
unfolding properties place nth tally print
served-AreTexts = (
  (refl, refl),
  (
    (refl, refl),
    (
      (refl, refl),
      (
        (refl, refl),
        ((refl, refl), ((refl, refl), ((refl, refl), ((refl, refl), ((refl, refl), tt))))),
      ),
    ),
  ),
)

to_record-service_info_example :
    (service_info net tallies served
      ≡ ok (info_of net tallies served ((127 ∷ 0 ∷ 0 ∷ 1 ∷ []) ∷ [])))
    × (to_record net tallies served (
          reported to_bytes
            ("127.0.0.1" ∷ [])
            (info_of net tallies served ((127 ∷ 0 ∷ 0 ∷ 1 ∷ []) ∷ [])))
        ≡ ok (record {
          service_name = "s";
          service_type = "t";
          server_id = "id";
          protocol_version = "1.0";
          control_port = pos 1;
          pub_port = pos 2;
          session_name = "default-session";
          build_info = "dev";
          experiment_profile = "default";
          host = "127.0.0.1";
        }))
unfolding addresses
to_record-service_info_example =
    to_record-service_info net tallies tallies-IsFaithful to_bytes served served
      ((127 ∷ 0 ∷ 0 ∷ 1 ∷ []) ∷ []) ("127.0.0.1" ∷ []) served-AreTexts refl

abbrev history : List Call
history = register_call ∷ unregister_call ∷ register_call ∷ []

calls-IsBalanced_example :
    IsBalanced
      (calls net tallies history (new (default_config {F = ℕ}) "t" none "id" "dev")).requests
      (calls net tallies history (new (default_config {F = ℕ}) "t" none "id" "dev")).registered_info
    × IsWithdrawn net tallies
        (calls net tallies history (new (default_config {F = ℕ}) "t" none "id" "dev"))
        (unregister net
          (calls net tallies history (new (default_config {F = ℕ}) "t" none "id" "dev")))
calls-IsBalanced_example = calls-IsBalanced net tallies default_config "t" none "id" "dev" history

-- Statistics that are not asked for here, and int().
abbrev statistics : Statistics ℕ
statistics = record { mean = λ _. 0; pstdev = λ _. 0; truncate = λ n. pos n }

ltb-IsStrict : IsStrict ltb
ltb-IsStrict = record { asym = λ x y h. ground arith; through = λ x y z h k. ground arith }

percentile_bounds_example :
    let p = percentile statistics (3 ∷ 9 ∷ 4 ∷ []) 1 in
    let rank = nearest 2 (statistics.truncate 2) in
    Mem p (3 ∷ 9 ∷ 4 ∷ [])
    × (length (keep (λ y. ltb y p) (3 ∷ 9 ∷ 4 ∷ [])) ≤ rank)
    × (length (keep (λ y. ltb p y) (3 ∷ 9 ∷ 4 ∷ [])) + rank ≤ 2)
percentile_bounds_example = percentile_bounds statistics ltb-IsStrict 3 (9 ∷ 4 ∷ []) 1
