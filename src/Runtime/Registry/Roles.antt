-- ===== src/Runtime/Registry/Roles.antt =====
-- The readiness of roles, psyexp_net/runtime/registry.py's `missing_roles`.
use psyexp_net.Prelude.{
  String, Bool, true, false, ◌&&◌, List, [], ◌∷◌, keep, is_empty, keep-keep, All, ◌≡◌, refl, ◌↔◌,
  arith, inl, inr, Bool-cases, ◌==◌, string_eq, eq_iff, some,
}
use psyexp_net.Prelude.Dict
use psyexp_net.Prelude.Entries.{HasEntry-of-keep, keep_of_HasEntry}
use psyexp_net.Runtime.Registry.{
  ClientInfo, ClientRegistry, clients_for_role, is_ready, missing_roles,
}

module _ {F : Type 0} where
  -- Some registered client of the role is READY or RUNNING.
  abbrev pub IsCovered : ClientRegistry F → String → Type 0
  IsCovered reg role =
      (k : String) × (c : ClientInfo F) × (Dict.get k reg ≡ some c)
      × (c.role ≡ role)
      × (is_ready c ≡ true)

  covers : String → ClientInfo F → Bool
  covers role c = c.role == role && is_ready c

  ready_clients :
      (role : String) (reg : ClientRegistry F)
      → keep is_ready (clients_for_role role reg) ≡ keep (covers role) (Dict.values reg)
  unfolding clients_for_role covers
  ready_clients role reg = keep-keep is_ready (λ c. c.role == role) (Dict.values reg)

  IsCovered-iff :
      (role : String) (reg : ClientRegistry F)
      → Dict.Distinct reg
      → (is_empty (keep is_ready (clients_for_role role reg)) ≡ false) ↔ IsCovered reg role
  unfolding covers
  IsCovered-iff role reg d = (
    λ h.
        let (k, c, at, t) =
          HasEntry-of-keep (covers role) reg d (rw (ready_clients role reg) at h) in
        (k, c, at, ground (arith, eq_iff c.role role), ground arith),
    λ (k, c, at, r, t).
        rw (ready_clients role reg)
          (keep_of_HasEntry (covers role) reg (k, c, at, ground (arith, eq_iff c.role role))),
  )

  -- In a registry that holds no client twice, no role is missing exactly when every required role
  -- has a client that is READY or RUNNING.
  pub missing_roles-nil :
      (roles : List String) (reg : ClientRegistry F)
      → Dict.Distinct reg
      → (missing_roles roles reg ≡ []) ↔ All (IsCovered reg) roles
  unfolding missing_roles
  missing_roles-nil [] reg d = (λ _. tt, λ _. refl)
  missing_roles-nil (r ∷ roles) reg d =
      let covered = IsCovered-iff r reg d in
      let rest = missing_roles-nil roles reg d in
      elim (Bool-cases (is_empty (keep is_ready (clients_for_role r reg)))) [
        | inl missing ↦ rw missing (λ h. cc, λ h. cc (missing, covered.1 h.0))
        | inr there ↦ rw there (λ h. (covered.0 there, rest.0 h), λ h. rest.1 h.1)
      ]
