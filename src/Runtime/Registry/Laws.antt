-- ===== src/Runtime/Registry/Laws.antt =====
-- The client registry of psyexp_net/runtime/registry.py: its invariant, and what each method does.
use psyexp_net.Prelude.{
  String, Bool, true, false, Option, none, some, All, ◌≡◌, ◌≢◌, arith, inl, inr, Option-cases, ◌==◌,
  string_eq, eq_iff, if◌then◌else◌,
}
use psyexp_net.Prelude.Dict
use psyexp_net.Enums.{ClientStatus}
use psyexp_net.Errors.{Error, ok, err, duplicate_client}
use psyexp_net.Runtime.Registry.{
  ClientInfo, ClientRegistry, is, register_or_refresh, refreshed, change,
}

-- No client stands twice, and each stands under its own id.
pub record IsKeyed {F : Type 0} (reg : ClientRegistry F) : Type 0 where
  pub distinct : Dict.Distinct reg
  pub keyed : All (λ e. e.1.client_id ≡ e.0) reg

module _ {F : Type 0} where
  pub put-IsKeyed :
      (k : String) (c : ClientInfo F) (reg : ClientRegistry F)
      → c.client_id ≡ k
      → IsKeyed reg
      → IsKeyed (Dict.put k c reg)
  put-IsKeyed k c reg e h = record {
    distinct = Dict.Distinct-put k c reg h.distinct;
    keyed = Dict.All-put _ k c reg (λ j same. rw ((eq_iff j k).0 same) e) h.keyed;
  }

  pub change-IsKeyed :
      (k : String) (f : ClientInfo F → ClientInfo F) (reg : ClientRegistry F)
      → ((c : ClientInfo F) → (f c).client_id ≡ c.client_id)
      → IsKeyed reg
      → IsKeyed (change k f reg)
  change-IsKeyed k f reg keeps h = elim (Option-cases (Dict.get k reg)) [
    | inl absent ↦ rw (absent, change) h
    | inr (c, found) ↦
        rw (found, change)
          (put-IsKeyed k (f c) reg (rw (keeps c) (Dict.All-get _ k reg h.keyed found)) h)
  ]

  abbrev pub updated : (ClientInfo F → ClientInfo F) → Option (ClientInfo F) → Option (ClientInfo F)
  updated f none = none
  updated f (some c) = some (f c)

  pub get-change :
      (k j : String) (f : ClientInfo F → ClientInfo F) (reg : ClientRegistry F)
      → Dict.get j (change k f reg)
        ≡ (if k == j then updated f (Dict.get j reg) else Dict.get j reg)
  get-change k j f reg = elim (Option-cases (Dict.get k reg)) [
    | inl absent ↦ rw (absent, change) (ground (arith, eq_iff k j))
    | inr (c, found) ↦ rw (found, change) (rw Dict.get-put (ground (arith, eq_iff k j)))
  ]

  -- What a successful registration stores.
  register_or_refresh-put :
      (now : F) (info : ClientInfo F) (reg : ClientRegistry F) (c : ClientInfo F) (flag : Bool)
      (reg' : ClientRegistry F)
      → IsKeyed reg
      → register_or_refresh now info reg ≡ ok (c, flag, reg')
      → (reg' ≡ Dict.put info.client_id c reg)
        × (c.client_id ≡ info.client_id)
        × (c.role ≡ info.role)
  unfolding register_or_refresh
  register_or_refresh-put now info reg c flag reg' h e =
      elim (Option-cases (Dict.get info.client_id reg)) [
        | inl absent ↦ ground arith
        | inr (old, found) ↦
            let own = Dict.All-get _ info.client_id reg h.keyed found in
            ground (arith, eq_iff old.role info.role, own)
      ]

  refused_by :
      (now : F) (info : ClientInfo F) (reg : ClientRegistry F) (e : Error)
      → register_or_refresh now info reg ≡ err e
      → (existing : ClientInfo F) × (Dict.get info.client_id reg ≡ some existing)
        × (is ClientStatus.disconnected existing.current_status ≡ false)
        × (existing.role ≢ info.role)
  unfolding register_or_refresh
  refused_by now info reg e h = elim (Option-cases (Dict.get info.client_id reg)) [
    | inl absent ↦ cc (rw (absent, register_or_refresh) at h)
    | inr (old, found) ↦
        (old, found, ground arith, λ same. ground (arith, eq_iff old.role info.role))
  ]

  -- In a keyed registry: a registration is refused exactly when the id belongs to a client of
  -- another role that is not DISCONNECTED. One for a live client of the same role takes that
  -- client over: it is REGISTERED, with the new version and capabilities and the time as its last
  -- sign of life, and keeps the rest. After any that succeeds the id has the new client's id and
  -- role, every other client is as it was, and the registry is keyed.
  pub register_or_refresh_lem :
      (now : F) (info : ClientInfo F) (reg : ClientRegistry F)
      → IsKeyed reg
      → ((existing : ClientInfo F)
          → Dict.get info.client_id reg ≡ some existing
          → is ClientStatus.disconnected existing.current_status ≡ false
          → existing.role ≢ info.role
          → register_or_refresh now info reg ≡ err duplicate_client)
        × ((e : Error)
            → register_or_refresh now info reg ≡ err e
            → (existing : ClientInfo F) × (Dict.get info.client_id reg ≡ some existing)
              × (is ClientStatus.disconnected existing.current_status ≡ false)
              × (existing.role ≢ info.role))
        × ((existing : ClientInfo F)
            → Dict.get info.client_id reg ≡ some existing
            → is ClientStatus.disconnected existing.current_status ≡ false
            → existing.role ≡ info.role
            → register_or_refresh now info reg
              ≡ ok (
                refreshed now info existing,
                true,
                Dict.put info.client_id (refreshed now info existing) reg,
              ))
        × ((c : ClientInfo F) (flag : Bool) (reg' : ClientRegistry F)
            → register_or_refresh now info reg ≡ ok (c, flag, reg')
            → IsKeyed reg'
              × (Dict.get info.client_id reg' ≡ some c)
              × (c.client_id ≡ info.client_id)
              × (c.role ≡ info.role)
              × ((j : String) → info.client_id ≢ j → Dict.get j reg' ≡ Dict.get j reg))
  unfolding register_or_refresh
  register_or_refresh_lem now info reg h = (
    λ existing found live role.
        rw (found, register_or_refresh) (ground (arith, eq_iff existing.role info.role)),
    λ e refused. refused_by now info reg e refused,
    λ existing found live role.
        rw (found, register_or_refresh) (ground (arith, eq_iff existing.role info.role)),
    λ c flag reg' e.
        let (stored, id, role) = register_or_refresh-put now info reg c flag reg' h e in
        rw stored (
          put-IsKeyed info.client_id c reg id h,
          Dict.get-put_self info.client_id c reg,
          id,
          role,
          λ j ne. rw Dict.get-put (ground (arith, eq_iff info.client_id j)),
        ),
  )
