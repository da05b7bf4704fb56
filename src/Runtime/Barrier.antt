-- ===== src/Runtime/Barrier.antt =====
-- psyexp_net/runtime/barrier.py: the wait for the required roles. A poll is the registry as it is then,
-- and the reading of the clock behind the test.
use psyexp_net.Prelude.{
  String, true, false, Option, none, some, List, [], ◌∷◌, All, is_empty, ◌≡◌, ◌⊎◌, inl, inr,
  Bool-cases, refl, arith, string_eq, if◌then◌else◌,
}
use psyexp_net.Prelude.Dict
use psyexp_net.Floats.{Floats}
use psyexp_net.Runtime.Registry.{ClientRegistry, missing_roles}
use psyexp_net.Runtime.Registry.Roles.{IsCovered, missing_roles-nil}

pub record Poll (F : Type 0) : Type 0 where
  pub registry : ClientRegistry F
  pub now : F

-- Some poll has the property.
abbrev pub SomePoll : {F : Type 0} → (Poll F → Type 0) → List (Poll F) → Type 0
SomePoll P [] = ⊥
SomePoll P (p ∷ ps) = P p ⊎ SomePoll P ps

empty-nil : (xs : List String) → is_empty xs ≡ true → xs ≡ []
empty-nil [] h = refl
empty-nil (x ∷ xs) h = ground arith

module _ {F : Type 0} ⦃fl : Floats F⦄ where
  open fl use {plus, le}

  -- The loop: the roles that it returns, or `none` while it still polls.
  unfoldable pub poll_until :
      (deadline : F) (roles : List String) → List (Poll F) → Option (List String)
  poll_until deadline roles [] = none
  poll_until deadline roles (p ∷ ps) =
      let rest = poll_until deadline roles ps in
      let missing = missing_roles roles p.registry in
      if is_empty missing then some [] else if le deadline p.now then some missing else rest

  -- `wait_until_ready`, called at `start`
  unfoldable pub wait_until_ready :
      (start timeout : F) (roles : List String) → List (Poll F) → Option (List String)
  unfolding poll_until
  wait_until_ready start timeout roles polls = poll_until (plus start timeout) roles polls

  later :
      (deadline : F) (roles : List String) (p : Poll F) (ps : List (Poll F))
      → is_empty (missing_roles roles p.registry) ≡ false
      → poll_until deadline roles (p ∷ ps) ≡ some []
      → poll_until deadline roles ps ≡ some []
  unfolding poll_until
  later deadline roles p ps missing h = ground arith

  opened :
      (deadline : F) (roles : List String) (polls : List (Poll F))
      → All (λ p. Dict.Distinct p.registry) polls
      → poll_until deadline roles polls ≡ some []
      → SomePoll (λ p. All (IsCovered p.registry) roles) polls
  unfolding poll_until
  opened deadline roles [] d h = ground arith
  opened deadline roles (p ∷ ps) d h =
      elim (Bool-cases (is_empty (missing_roles roles p.registry))) [
        | inl covered ↦ inl ((missing_roles-nil roles p.registry d.0).0 (empty-nil _ covered))
        | inr missing ↦ inr (opened deadline roles ps d.1 (later deadline roles p ps missing h))
      ]

  sooner :
      (deadline : F) (p : Poll F) (ps : List (Poll F))
      → (le deadline p.now ≡ true) ⊎ SomePoll (λ q. le deadline q.now ≡ true) ps
      → le deadline p.now ≡ false
      → SomePoll (λ q. le deadline q.now ≡ true) ps
  sooner deadline p ps (inl late) early = cc
  sooner deadline p ps (inr rest) early = rest

  closed :
      (deadline : F) (roles : List String) (polls : List (Poll F))
      → SomePoll (λ p. le deadline p.now ≡ true) polls
      → (missing : List String) × (poll_until deadline roles polls ≡ some missing)
  unfolding poll_until
  closed deadline roles [] h = absurd h
  closed deadline roles (p ∷ ps) h = elim (Bool-cases (is_empty (missing_roles roles p.registry))) [
    | inl covered ↦ ([], rw covered)
    | inr missing ↦ elim (Bool-cases (le deadline p.now)) [
      | inl late ↦ (missing_roles roles p.registry, rw (missing, late))
      | inr early ↦ rw (missing, early) (closed deadline roles ps (sooner deadline p ps h early))
    ]
  ]

  -- The barrier opens only when it has seen every required role with a client that is READY or
  -- RUNNING, if the registries it polls hold no client twice. It does not wait for ever: it has
  -- returned once a poll's reading is past the deadline.
  pub wait_until_ready_lem :
      (start timeout : F) (roles : List String) (polls : List (Poll F))
      → All (λ p. Dict.Distinct p.registry) polls
      → (wait_until_ready start timeout roles polls ≡ some []
          → SomePoll (λ p. All (IsCovered p.registry) roles) polls)
        × (SomePoll (λ p. le (plus start timeout) p.now ≡ true) polls
            → (missing : List String) × (wait_until_ready start timeout roles polls ≡ some missing))
  unfolding wait_until_ready
  wait_until_ready_lem start timeout roles polls d =
      (opened (plus start timeout) roles polls d, closed (plus start timeout) roles polls)
