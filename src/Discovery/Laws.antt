-- ===== src/Discovery/Laws.antt =====
-- What discovery reads of a service is what its server registered: psyexp_net/discovery.
use psyexp_net.Prelude.{String, ℕ, some, List, [], ◌∷◌, map, All, ◌≡◌, refl, string_eq}
use psyexp_net.Prelude.Dict
use psyexp_net.Prelude.Dict.{Dict}
use psyexp_net.Discovery.{
  Net, Info, octets, ServiceInfo, ZeroconfDiscoveryService, service_info, info_of, properties,
  addresses, decode_from, to_record, first_or_empty,
}
use psyexp_net.Errors.{ok}
use psyexp_net.Floats.{pos}
use psyexp_net.Protocol.Versioning.{IntText}
use psyexp_net.Protocol.Versioning.Laws.{IsFaithful}

-- A service as zeroconf reports it: the properties as bytes, and the addresses as texts.
abbrev pub reported : (to_utf8 : String → List ℕ) → List String → ServiceInfo → Info
reported to_utf8 shown info = record {
  properties = map (λ e. (octets (to_utf8 e.0), octets (to_utf8 e.1))) info.properties;
  port = pos info.port;
  parsed_addresses = some shown;
  addresses = info.addresses;
}

-- d.update(more)
unfoldable put_all : Dict String String → Dict String String → Dict String String
put_all d [] = d
put_all d ((k, v) ∷ more) = put_all (Dict.put k v d) more

-- The keys and the values read back from their bytes.
abbrev pub AreTexts : Net → (to_utf8 : String → List ℕ) → Dict String String → Type 0
AreTexts net to_utf8 =
    All (λ e. (net.of_utf8 (to_utf8 e.0) ≡ some e.0) × (net.of_utf8 (to_utf8 e.1) ≡ some e.1))

decode_from-octets :
    (net : Net) (to_utf8 : String → List ℕ)
    → (d more : Dict String String) → AreTexts net to_utf8 more
    → decode_from net d (map (λ e. (octets (to_utf8 e.0), octets (to_utf8 e.1))) more)
      ≡ ok (put_all d more)
unfolding decode_from put_all
decode_from-octets net to_utf8 d [] back = refl
decode_from-octets net to_utf8 d ((k, v) ∷ more) back =
    rw (back.0.0, back.0.1) (decode_from-octets net to_utf8 (Dict.put k v d) more back.1)

module _ {F : Type 0} (net : Net) (int_text : IntText) (faithful : IsFaithful int_text) where
  -- Any service object reads the registered information of a server as the server's own names,
  -- version and ports, at the first address that is shown, if the digits of numbers and the UTF-8 of the
  -- server's properties read back.
  pub to_record-service_info :
      (to_utf8 : String → List ℕ)
      → (reader server : ZeroconfDiscoveryService F) (found : List (List ℕ)) (shown : List String)
      → AreTexts net to_utf8 (properties int_text server)
      → addresses net server.config ≡ ok found
      → (service_info net int_text server ≡ ok (info_of net int_text server found))
        × (to_record net int_text reader
              (reported to_utf8 shown (info_of net int_text server found))
            ≡ ok (record {
              service_name = server.service_name;
              service_type = reader.service_type;
              server_id = server.server_id;
              protocol_version = server.config.protocol.version;
              control_port = pos server.config.network.control_port;
              pub_port = pos server.config.network.pub_port;
              session_name = server.config.experiment.session_name;
              build_info = server.build_info;
              experiment_profile = server.config.experiment.experiment_profile;
              host = first_or_empty shown;
            }))
  unfolding to_record service_info properties put_all Dict.put Dict.get
  to_record-service_info to_utf8 reader server found shown back h = (
    rw h refl,
    rw
        (
          decode_from-octets net to_utf8 [] (properties int_text server) back,
          faithful.parse-print (pos server.config.network.control_port),
          faithful.parse-print (pos server.config.network.pub_port),
        )
        refl,
  )
