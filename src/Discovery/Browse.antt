-- ===== src/Discovery/Browse.antt =====
-- `_ServiceListener` and `discover` of psyexp_net/discovery/zeroconf_service.py. What the browser calls
-- while discovery sleeps is a list of events.
use psyexp_net.Prelude.{String, Option, none, some, List, [], ◌∷◌, string_eq}
use psyexp_net.Prelude.Dict
use psyexp_net.Prelude.Dict.{Dict}
use psyexp_net.Discovery.{Net, Info, Found, ZeroconfDiscoveryService, to_record}
use psyexp_net.Errors.{Result}
use psyexp_net.Errors.Loops.{traverse}
use psyexp_net.Protocol.Versioning.{IntText}

-- A call of the listener, with what get_service_info gives.
pub data Event : Type 0 where
  added updated : (name : String) → Option Info → Event
  removed : (name : String) → Event

-- `add_service`
abbrev pub add_service : String → Option Info → Dict String Info → Dict String Info
add_service name none records = records
add_service name (some info) records = Dict.put name info records

-- `add_service`, `update_service` and `remove_service`
abbrev pub listen : Event → Dict String Info → Dict String Info
listen (added name info) records = add_service name info records
listen (updated name info) records = add_service name info records
listen (removed name) records = Dict.remove name records

unfoldable pub listen_all : List Event → Dict String Info → Dict String Info
unfolding Dict.put Dict.remove
listen_all [] records = records
listen_all (e ∷ es) records = listen_all es (listen e records)

module _ {F : Type 0} (net : Net) (int_text : IntText) where
  -- `discover`
  unfoldable pub discover : ZeroconfDiscoveryService F → List Event → Result (List Found)
  unfolding listen_all to_record
  discover s es = traverse (to_record net int_text s) (Dict.values (listen_all es []))
