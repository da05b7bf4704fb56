-- ===== src/Runtime/Registry.antt =====
-- psyexp_net/runtime/registry.py: the server's table of clients. `now` is the reading of
-- time.monotonic() that the method makes. The program changes a ClientInfo only through the table,
-- so the table holds the values.
pub mod Laws
pub mod Roles
use psyexp_net.Prelude.{
  String, Bool, true, false, not, ◌&&◌, ◌||◌, Option, none, some, List, [], ◌∷◌, keep, is_empty,
  map, ◌==◌, string_eq, if◌then◌else◌,
}
use psyexp_net.Prelude.Dict
use psyexp_net.Prelude.Dict.{Dict}
use psyexp_net.Enums.{ClientStatus, client_status_value}
use psyexp_net.Errors.{Result, ok, err, duplicate_client}
use psyexp_net.Floats.{Floats}
use psyexp_net.Value.{Value, str, float, obj, Items, nil, cons, field, end}

pub record ClientInfo (F : Type 0) : Type 0 where
  pub client_id : String
  pub role : String
  pub host : String
  pub process_info : Dict String String
  pub protocol_version : String
  pub capabilities : List String
  pub connected_since : F
  pub last_seen : F
  pub current_status : String
  pub offset_estimate_ms : F
  pub rtt_ms : F
  pub queue_health : Dict String F

-- `_clients`
abbrev pub ClientRegistry : Type 0 → Type 0
ClientRegistry F = Dict String (ClientInfo F)

-- The test of a status against a member of the enumeration.
abbrev pub is : ClientStatus → String → Bool
is s status = status == client_status_value s

module _ {F : Type 0} where
  abbrev pub touch_client : F → ClientInfo F → ClientInfo F
  touch_client now c = record c { last_seen = now }

  unfoldable pub register : ClientInfo F → ClientRegistry F → Result (ClientRegistry F)
  register info reg = elim (Dict.get info.client_id reg) [
    | none ↦ ok (Dict.put info.client_id info reg)
    | some existing ↦
        if is ClientStatus.disconnected existing.current_status
        then ok (Dict.put info.client_id info reg)
        else err duplicate_client
  ]

  -- What a reconnecting client's entry becomes.
  abbrev pub refreshed : F → ClientInfo F → ClientInfo F → ClientInfo F
  refreshed now info existing = record existing {
    protocol_version = info.protocol_version;
    capabilities = info.capabilities;
    current_status = client_status_value ClientStatus.registered;
    last_seen = now;
  }

  -- The entry that stands now, whether it was there before, and the table.
  unfoldable pub register_or_refresh :
      F → ClientInfo F → ClientRegistry F → Result (ClientInfo F × Bool × ClientRegistry F)
  register_or_refresh now info reg = elim (Dict.get info.client_id reg) [
    | none ↦ ok (info, false, Dict.put info.client_id info reg)
    | some existing ↦
        if is ClientStatus.disconnected existing.current_status
        then ok (info, false, Dict.put info.client_id info reg)
        else if not (existing.role == info.role)
        then err duplicate_client
        else ok (
          refreshed now info existing,
          true,
          Dict.put info.client_id (refreshed now info existing) reg,
        )
  ]

  -- A change of the entry of one client, and nothing where there is none.
  abbrev pub change : String → (ClientInfo F → ClientInfo F) → ClientRegistry F → ClientRegistry F
  change client_id f reg = elim (Dict.get client_id reg) [
    | none ↦ reg
    | some c ↦ Dict.put client_id (f c) reg
  ]

  unfoldable pub update_status : F → String → String → ClientRegistry F → ClientRegistry F
  update_status now client_id status =
      change client_id (λ c. touch_client now (record c { current_status = status }))

  unfoldable pub update_sync : F → String → F → F → ClientRegistry F → ClientRegistry F
  update_sync now client_id offset_ms rtt_ms =
      change client_id
        (λ c. touch_client now (record c { offset_estimate_ms = offset_ms; rtt_ms = rtt_ms }))

  unfoldable pub touch : F → String → ClientRegistry F → ClientRegistry F
  touch now client_id = change client_id (touch_client now)

  abbrev pub all : ClientRegistry F → List (ClientInfo F)
  all = Dict.values

  unfoldable pub clients_for_role : String → ClientRegistry F → List (ClientInfo F)
  clients_for_role role reg = keep (λ c. c.role == role) (all reg)

  -- item.current_status in {READY, RUNNING}
  abbrev pub is_ready : ClientInfo F → Bool
  is_ready c = is ClientStatus.ready c.current_status || is ClientStatus.running c.current_status

  unfoldable pub missing_roles : List String → ClientRegistry F → List String
  unfolding clients_for_role
  missing_roles roles reg =
      keep (λ role. is_empty (keep is_ready (clients_for_role role reg))) roles

  abbrev pub client_row : ClientInfo F → Value F
  client_row c = obj (
      field "client_id" (str c.client_id) (
        field "role" (str c.role) (
          field "status" (str c.current_status) (
            field "offset_estimate_ms" (float c.offset_estimate_ms)
              (field "rtt_ms" (float c.rtt_ms) end)))))

  unfoldable pub snapshot : ClientRegistry F → List (Value F)
  snapshot reg = map client_row (all reg)

module _ {F : Type 0} ⦃fl : Floats F⦄ where
  open fl use {minus, le}

  unfoldable pub stale_clients : F → F → ClientRegistry F → List (ClientInfo F)
  stale_clients now timeout_s reg = keep (λ c. le timeout_s (minus now c.last_seen)) (all reg)
