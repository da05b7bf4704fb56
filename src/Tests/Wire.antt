-- ===== src/Tests/Wire.antt =====
-- Messages and versions of psyexp_net/protocol, and the check of secrets, at concrete inputs.
use psyexp_net.Prelude.{
  String, ℕ, true, false, some, [], ◌∷◌, ◌&&◌, contains, ◌≡◌, ◌≢◌, ◌↔◌, refl, string_eq,
}
use psyexp_net.Prelude.Dict
use psyexp_net.Config.{SecurityConfig}
use psyexp_net.Enums.{MessageType}
use psyexp_net.Errors.{ok, err, authentication}
use psyexp_net.Floats.{pos}
use psyexp_net.Protocol.Codec.{Json, encode_obj, encode, decode}
use psyexp_net.Protocol.Codec.Laws.{decode-encode_message}
use psyexp_net.Protocol.Message.{Message, to_dict, from_dict}
use psyexp_net.Protocol.Message.Laws.{from_dict-to_dict}
use psyexp_net.Protocol.Versioning.{
  NegotiatedProtocol, parse_protocol_version, negotiate_protocol, incompatible, eqz, min_ℤ,
  split_dot,
}
use psyexp_net.Protocol.Versioning.Laws.{negotiate_protocol_lem}
use psyexp_net.Security.{validate, validate_lem}
use psyexp_net.Tests.World.{tallies, tallies-IsFaithful, tally64, parse-write, message, read, count}
use psyexp_net.Value.{bytes, int, obj, Fields, field, end}

abbrev payload : Fields ℕ
payload = field "frame" (bytes (7 ∷ 0 ∷ [])) (field "n" (int (pos 3)) end)

abbrev pub marker : Message ℕ
marker = message MessageType.marker payload

-- A json that knows one dictionary only.
abbrev pub one_json : Json ℕ
one_json = record {
  dumps = λ _. some (1 ∷ []);
  loads = λ _. some (encode_obj tally64 (obj (to_dict marker)));
}

-- What the codec makes of it.
pub marker-read :
    (encode tally64 one_json marker ≡ ok (1 ∷ []))
    × (decode tally64 one_json "fresh" (1 ∷ []) ≡ ok marker)
marker-read =
    decode-encode_message tally64 parse-write one_json "fresh" marker (1 ∷ [])
      (refl, tt, (refl, tt, tt)) refl refl

decode-encode_message_example :
    (encode tally64 one_json marker ≡ ok (1 ∷ []))
    × (decode tally64 one_json "fresh" (1 ∷ []) ≡ ok marker)
decode-encode_message_example =
    decode-encode_message tally64 parse-write one_json "fresh" marker (1 ∷ [])
      (refl, tt, (refl, tt, tt)) refl refl

from_dict-to_dict_example : from_dict "fresh" (to_dict marker) ≡ ok marker
from_dict-to_dict_example = from_dict-to_dict "fresh" marker

negotiate_protocol_example :
    (eqz (pos 1) (pos 1) ≡ false
      → negotiate_protocol tallies "I.I" "I.III" ("a" ∷ "b" ∷ []) ("b" ∷ [])
        ≡ err (incompatible "I.I" "I.III"))
    × (eqz (pos 1) (pos 1) ≡ true
        → (p : NegotiatedProtocol) × (negotiate_protocol tallies "I.I" "I.III"
              ("a" ∷ "b" ∷ [])
              ("b" ∷ [])
            ≡ ok p)
          × (parse_protocol_version tallies p.version ≡ ok (pos 1, min_ℤ (pos 1) (pos 3)))
          × ((x : String)
              → contains x p.capabilities ≡ (contains x ("a" ∷ "b" ∷ []) && contains x ("b" ∷ [])))
          × ((p.degraded ≡ false) ↔ ((p.version ≡ "I.I") × (p.version ≡ "I.III"))))
unfolding parse_protocol_version split_dot read count
negotiate_protocol_example =
    negotiate_protocol_lem tallies tallies-IsFaithful "I.I" "I.III" ("a" ∷ "b" ∷ []) ("b" ∷ [])
      (pos 1) (pos 1) (pos 1) (pos 3) refl refl

abbrev secured : SecurityConfig
secured = record { mode = "trusted_lan"; require_secret = true; shared_secrets = ("a", "key") ∷ [] }

validate_example :
    ((validate secured "a" (some "kex") ≡ ok tt) ↔ (
      (true ≡ true)
      → (s : String) × (Dict.get "a" secured.shared_secrets ≡ some s) × (some "kex" ≡ some s)))
    × (validate secured "a" (some "kex") ≢ ok tt
        → validate secured "a" (some "kex") ≡ err authentication)
validate_example = validate_lem secured "a" (some "kex")
