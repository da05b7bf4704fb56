-- ===== src/Runtime/Server/Health.antt =====
-- `_refresh_client_health` of psyexp_net/runtime/server.py: clients that were not seen for half of the
-- heartbeat timeout are DEGRADED, those that were not seen for all of it DISCONNECTED.
pub mod Laws
use psyexp_net.Prelude.{String, Bool, not, ◌&&◌, ◌||◌, none, string_eq, if◌then◌else◌}
use psyexp_net.Enums.{ClientStatus, client_status_value}
use psyexp_net.Exec.{Exec, pure, gets, for_each, ◌>>=◌, ◌>>◌}
use psyexp_net.Floats.{Floats, of_ℕ, seconds}
use psyexp_net.Runtime.Registry.{ClientInfo, is, all, update_status}
use psyexp_net.Runtime.Server.State.{Server, monotonic, on_registry, record_row}
use psyexp_net.Value.{str, float, obj, Fields, field, end}

-- The statuses that can degrade.
abbrev pub is_active : String → Bool
is_active status =
    is ClientStatus.connected status
    || is ClientStatus.registered status
    || is ClientStatus.synced status
    || is ClientStatus.ready status
    || is ClientStatus.running status

module _ {F : Type 0} ⦃fl : Floats F⦄ where
  open fl use {minus, over, le}

  abbrev pub health_row : ClientStatus → (age : F) → Fields F
  health_row status age =
      field "payload"
        (obj (
          field "status" (str (client_status_value status))
            (field "last_seen_age_s" (float age) end)))
        end

  -- update_status and the row of the log
  unfoldable pub set_health :
      String → ClientStatus → (age : F) → ClientInfo F → Exec (Server F) Unit
  unfolding monotonic on_registry record_row
  set_health kind status age client = do
    now ← monotonic
    on_registry (update_status now client.client_id (client_status_value status))
    record_row kind client.client_id none (health_row status age)

  unfoldable pub refresh_client :
      (timeout_s degraded_s now : F) → ClientInfo F → Exec (Server F) Unit
  unfolding set_health
  refresh_client timeout_s degraded_s now client =
      let age = minus now client.last_seen in
      if le timeout_s age && not (is ClientStatus.disconnected client.current_status)
      then set_health "disconnect" ClientStatus.disconnected age client
      else if le degraded_s age && is_active client.current_status
      then set_health "degraded" ClientStatus.degraded age client
      else pure tt

  unfoldable pub refresh_client_health : Exec (Server F) Unit
  unfolding monotonic refresh_client for_each
  refresh_client_health = do
    timeout_s ← gets (λ s. seconds s.config.network.heartbeat_timeout_ms)
    now ← monotonic
    clients ← gets (λ s. all s.registry)
    for_each (refresh_client timeout_s (over timeout_s (of_ℕ 2)) now) clients
