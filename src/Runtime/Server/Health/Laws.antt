-- ===== src/Runtime/Server/Health/Laws.antt =====
-- `_refresh_client_health` of psyexp_net/runtime/server.py gives each client the status of its own age.
use mathlib.Core.Option
use psyexp_net.Prelude.{
  String, ◌+◌, Bool, true, false, not, ◌&&◌, Option, none, some, List, [], ◌∷◌, All, ◌≡◌, refl, ap,
  ◌∙◌, arith, inl, inr, Option-cases, Bool-cases, ◌==◌, string_eq, eq_iff, beq_self, if◌then◌else◌,
}
use psyexp_net.Prelude.Dict
use psyexp_net.Prelude.Dict.{Dict}
use psyexp_net.Enums.{ClientStatus, client_status_value}
use psyexp_net.Errors.{Result, ok}
use psyexp_net.Exec.{for_each}
use psyexp_net.Floats.{Floats, of_ℕ, seconds}
use psyexp_net.Runtime.Registry.{ClientInfo, ClientRegistry, is, update_status}
use psyexp_net.Runtime.Registry.Laws.{IsKeyed, get-change}
use psyexp_net.Runtime.Server.Health.{
  is_active, health_row, set_health, refresh_client, refresh_client_health,
}
use psyexp_net.Runtime.Server.State.{Server, monotonic, on_registry}
use psyexp_net.Runtime.Server.State.Recording.{record_row-ok, with_row}
use psyexp_net.Value.Json.{is_json}

module _ {F : Type 0} where
  abbrev pub status_in : Option (ClientInfo F) → Option String
  status_in = Option.map (λ c. c.current_status)

  get-update_status_other :
      (now : F) (id status j : String) (reg : ClientRegistry F)
      → (id == j) ≡ false
      → Dict.get j (update_status now id status reg) ≡ Dict.get j reg
  unfolding update_status
  get-update_status_other now id status j reg h = rw get-change (rw h refl)

  status_in-update_status :
      (now : F) (id status : String) (reg : ClientRegistry F) {c : ClientInfo F}
      → Dict.get id reg ≡ some c
      → status_in (Dict.get id (update_status now id status reg)) ≡ some status
  unfolding update_status
  status_in-update_status now id status reg h = rw get-change (rw (beq_self id, h) refl)

is_active-disconnected :
    (status : String)
    → status ≡ client_status_value ClientStatus.disconnected
    → is_active status ≡ false
is_active-disconnected status e = rw e refl

&&-false : (b : Bool) → (b && false) ≡ false
&&-false true = refl
&&-false false = refl

module _ {F : Type 0} ⦃fl : Floats F⦄ (timeout_s degraded_s now : F) where
  open fl use {minus, le}

  -- The status of a client that was last seen then and has had this status.
  abbrev pub verdict : ClientInfo F → String
  verdict c =
      if le timeout_s (minus now c.last_seen)
      then client_status_value ClientStatus.disconnected
      else if le degraded_s (minus now c.last_seen) && is_active c.current_status
      then client_status_value ClientStatus.degraded
      else c.current_status

  -- `update_status` of `set_health`
  abbrev marked : ClientStatus → ClientInfo F → Server F → Server F
  marked status c s = record s {
    registry =
        update_status (s.env.clock s.env.ticks) c.client_id (client_status_value status) s.registry;
    env = record s.env { ticks = s.env.ticks + 1 };
  }

  -- Its row holds no bytes.
  set_health-eq :
      (kind : String) (status : ClientStatus) (age : F) (c : ClientInfo F) (s : Server F)
      → set_health kind status age c s
        ≡ (ok tt, with_row kind c.client_id none (health_row status age) (marked status c s))
  unfolding set_health monotonic on_registry is_json
  set_health-eq kind status age c s =
      record_row-ok kind c.client_id none (health_row status age) (marked status c s) refl refl

  refresh_client-ok :
      (c : ClientInfo F) (s : Server F) → (refresh_client timeout_s degraded_s now c s).0 ≡ ok tt
  unfolding refresh_client
  refresh_client-ok c s =
      let age = minus now c.last_seen in
      let lost = le timeout_s age && not (is ClientStatus.disconnected c.current_status) in
      elim (Bool-cases lost) [
        | inl t ↦ rw (t, (set_health-eq "disconnect" ClientStatus.disconnected age c s)) refl
        | inr f ↦ elim (Bool-cases (le degraded_s age && is_active c.current_status)) [
          | inl t ↦ rw (f, t, (set_health-eq "degraded" ClientStatus.degraded age c s)) refl
          | inr g ↦ rw (f, g) refl
        ]
      ]

  get-refresh_client_other :
      (c : ClientInfo F) (j : String) (s : Server F)
      → (c.client_id == j) ≡ false
      → Dict.get j (refresh_client timeout_s degraded_s now c s).1.registry ≡ Dict.get j s.registry
  unfolding refresh_client
  get-refresh_client_other c j s h =
      let age = minus now c.last_seen in
      let lost = le timeout_s age && not (is ClientStatus.disconnected c.current_status) in
      elim (Bool-cases lost) [
        | inl t ↦
            rw (t, (set_health-eq "disconnect" ClientStatus.disconnected age c s))
              (get-update_status_other _ c.client_id _ j s.registry h)
        | inr f ↦ elim (Bool-cases (le degraded_s age && is_active c.current_status)) [
          | inl t ↦
              rw (f, t, (set_health-eq "degraded" ClientStatus.degraded age c s))
                (get-update_status_other _ c.client_id _ j s.registry h)
          | inr g ↦ rw (f, g) refl
        ]
      ]

  status_in-refresh_client :
      (c : ClientInfo F) (s : Server F)
      → Dict.get c.client_id s.registry ≡ some c
      → status_in (Dict.get c.client_id (refresh_client timeout_s degraded_s now c s).1.registry)
        ≡ some (verdict c)
  unfolding refresh_client
  status_in-refresh_client c s h =
      let age = minus now c.last_seen in
      let fading = le degraded_s age && is_active c.current_status in
      elim (Bool-cases (le timeout_s age)) [
        | inl l ↦ elim (Bool-cases (is ClientStatus.disconnected c.current_status)) [
          | inl d ↦
              let e = (eq_iff c.current_status "DISCONNECTED").0 d in
              let off : fading ≡ false =
                rw (is_active-disconnected c.current_status e) (&&-false (le degraded_s age)) in
              rw (l, d, off) (rw h (ap some e))
          | inr d ↦
              rw (l, d, (set_health-eq "disconnect" ClientStatus.disconnected age c s))
                (status_in-update_status _ c.client_id _ s.registry h)
        ]
        | inr l ↦ elim (Bool-cases fading) [
          | inl t ↦
              rw (l, t, (set_health-eq "degraded" ClientStatus.degraded age c s))
                (status_in-update_status _ c.client_id _ s.registry h)
          | inr f ↦ rw (l, f) (rw h refl)
        ]
      ]

  abbrev run : List (ClientInfo F) → Server F → Result (Unit {0}) × Server F
  run = for_each (refresh_client timeout_s degraded_s now)

  run-cons :
      (c : ClientInfo F) (cs : List (ClientInfo F)) (s : Server F)
      → run (c ∷ cs) s ≡ run cs (refresh_client timeout_s degraded_s now c s).1
  unfolding for_each
  run-cons c cs s = rw (refresh_client-ok c s) refl

  -- The table holds what these entries hold.
  abbrev Agrees : Dict String (ClientInfo F) → Server F → Type 0
  Agrees d s =
      (j : String) (c : ClientInfo F) → Dict.get j d ≡ some c → Dict.get j s.registry ≡ some c

  -- What the loop over these entries leaves.
  abbrev Judges : Dict String (ClientInfo F) → Server F → Result (Unit {0}) × Server F → Type 0
  Judges d s o =
      (o.0 ≡ ok tt)
      × ((j : String) (c : ClientInfo F)
          → Dict.get j d ≡ some c
          → status_in (Dict.get j o.1.registry) ≡ some (verdict c))
      × ((j : String) → Dict.get j d ≡ none → Dict.get j o.1.registry ≡ Dict.get j s.registry)

  Agrees-rest :
      (k : String) (c : ClientInfo F) (d : Dict String (ClientInfo F)) (s : Server F)
      → c.client_id ≡ k
      → Dict.get k d ≡ none
      → Agrees ((k, c) ∷ d) s
      → Agrees d (refresh_client timeout_s degraded_s now c s).1
  unfolding Dict.get
  Agrees-rest k c d s own free h j c' found = elim (Bool-cases (k == j)) [
    | inl same ↦ ground (arith, eq_iff k j)
    | inr other ↦ get-refresh_client_other c j s (rw own other) ∙ h j c' (rw other found)
  ]

  run-Judges :
      (d : Dict String (ClientInfo F)) (s : Server F)
      → All (λ e. e.1.client_id ≡ e.0) d
      → Dict.Distinct d
      → Agrees d s
      → Judges d s (run (Dict.values d) s)
  unfolding Dict.get for_each
  run-Judges [] s keyed distinct h = (refl, λ j c found. cc, λ j absent. refl)
  run-Judges ((k, c) ∷ d) s keyed distinct h =
      let s' = (refresh_client timeout_s degraded_s now c s).1 in
      let (fine, judged, same) =
        run-Judges d s' keyed.1 distinct.1 (Agrees-rest k c d s keyed.0 distinct.0 h) in
      let at_head : status_in (Dict.get k (run (Dict.values d) s').1.registry) ≡ some (verdict c) =
        rw (same k distinct.0) (
          rw (← keyed.0)
            (status_in-refresh_client c s (h c.client_id c (rw (keyed.0, beq_self k) refl)))) in
      rw (run-cons c (Dict.values d) s) (
        fine,
        λ j c' found. elim (Bool-cases (k == j)) [
          | inl e ↦
              let is_c : c ≡ c' = ground (arith, eq_iff k j) in
              rw (← (eq_iff k j).0 e, ← is_c) at_head
          | inr e ↦ judged j c' (ground (arith, eq_iff k j))
        ],
        λ j absent. elim (Bool-cases (k == j)) [
          | inl e ↦ ground (arith, eq_iff k j)
          | inr e ↦
              same j (ground (arith, eq_iff k j)) ∙ get-refresh_client_other c j s (rw keyed.0 e)
        ],
      )

module _ {F : Type 0} ⦃fl : Floats F⦄ where
  -- what one check of a server decides of a client, at the time that it reads first
  abbrev pub judged_at : Server F → ClientInfo F → String
  judged_at s =
      let timeout_s = seconds s.config.network.heartbeat_timeout_ms in
      verdict timeout_s (fl.over timeout_s (of_ℕ 2)) (s.env.clock s.env.ticks)

  -- In a keyed registry a check of the clients' health raises nothing and gives each client the
  -- status of its own silence at the one time that the check began: DISCONNECTED from the timeout on;
  -- DEGRADED from half of it on, if the client was active; and else the status that it had. No client
  -- comes or goes.
  pub refresh_client_health_lem :
      (s : Server F)
      → IsKeyed s.registry
      → ((refresh_client_health s).0 ≡ ok tt)
        × ((id : String)
            → status_in (Dict.get id (refresh_client_health s).1.registry)
              ≡ Option.map (judged_at s) (Dict.get id s.registry))
  unfolding refresh_client_health monotonic
  refresh_client_health_lem s h =
      let timeout_s = seconds s.config.network.heartbeat_timeout_ms in
      let s' = record s { env = record s.env { ticks = s.env.ticks + 1 } } in
      let (fine, judged, same) =
        run-Judges timeout_s (fl.over timeout_s (of_ℕ 2)) (s.env.clock s.env.ticks) s.registry s'
          h.keyed h.distinct (λ j c found. found) in
      (
        fine,
        λ id. elim (Option-cases (Dict.get id s.registry)) [
          | inl absent ↦ rw absent (rw (same id absent ∙ absent) refl)
          | inr (c, found) ↦ rw found (judged id c found)
        ],
      )
