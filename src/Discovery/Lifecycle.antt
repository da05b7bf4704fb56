-- ===== src/Discovery/Lifecycle.antt =====
-- The registration of psyexp_net/discovery/zeroconf_service.py.
use psyexp_net.Prelude.{
  String, Option, none, some, List, [], ◌∷◌, ◌≡◌, ◌⊎◌, refl, inl, inr, Bool-cases,
}
use psyexp_net.Config.{AppConfig}
use psyexp_net.Discovery.{
  Net, ServiceInfo, Request, add, drop, ZeroconfDiscoveryService, new, register, register_unless,
  unregister, withdraw, submit, service_info,
}
use psyexp_net.Errors.{Result, ok, err, service_error}
use psyexp_net.Protocol.Versioning.{IntText}

-- The requests of one service, newest first, and what stands registered after them: each
-- registration is withdrawn, with the same information, before the next one.
pub data IsBalanced : List Request → Option ServiceInfo → Type 0 where
  fresh : IsBalanced [] none
  entered :
      {rs : List Request} (i : ServiceInfo) → IsBalanced rs none → IsBalanced (add i ∷ rs) (some i)
  withdrawn :
      {rs : List Request} (i : ServiceInfo) → IsBalanced rs (some i) → IsBalanced (drop i ∷ rs) none

-- The calls of a service; `close` unregisters.
pub data Call : Type 0 where
  register_call unregister_call : Call

module _ {F : Type 0} (net : Net) (int_text : IntText) where
  -- The service after a call, also after one that raised.
  abbrev pub call : Call → ZeroconfDiscoveryService F → ZeroconfDiscoveryService F
  call register_call s = (register net int_text s).1
  call unregister_call s = (unregister net s).1

  unfoldable pub calls : List Call → ZeroconfDiscoveryService F → ZeroconfDiscoveryService F
  calls [] s = s
  calls (c ∷ cs) s = calls cs (call c s)

  abbrev Balanced : ZeroconfDiscoveryService F → Type 0
  Balanced s = IsBalanced s.requests s.registered_info

  submit-Balanced :
      (r : Result ServiceInfo) (s : ZeroconfDiscoveryService F)
      → IsBalanced s.requests none
      → Balanced s
      → Balanced (submit net r s).1
  submit-Balanced (err e) s h b = b
  submit-Balanced (ok info) s h b = elim (Bool-cases (net.refuses info)) [
    | inl r ↦ rw r b
    | inr r ↦ rw r (entered info h)
  ]

  register_unless-Balanced :
      (o : Option ServiceInfo) (s : ZeroconfDiscoveryService F)
      → IsBalanced s.requests o
      → Balanced s
      → Balanced (register_unless net o int_text s).1
  register_unless-Balanced (some info) s h b = b
  register_unless-Balanced none s h b = submit-Balanced (service_info net int_text s) s h b

  register-Balanced :
      (s : ZeroconfDiscoveryService F) → Balanced s → Balanced (register net int_text s).1
  unfolding register
  register-Balanced s b = register_unless-Balanced s.registered_info s b b

  -- Nothing stands registered.
  abbrev pub IsGone : ZeroconfDiscoveryService F → Type 0
  IsGone s = IsBalanced s.requests none × (s.registered_info ≡ none)

  -- What a withdrawal comes to: zeroconf refuses it and all stays, or nothing stands any more.
  abbrev pub IsWithdrawn :
      ZeroconfDiscoveryService F → Result (Unit {0}) × ZeroconfDiscoveryService F → Type 0
  IsWithdrawn s o = (o ≡ (err service_error, s)) ⊎ ((o.0 ≡ ok tt) × IsGone o.1)

  withdraw-IsWithdrawn :
      (o : Option ServiceInfo) (s : ZeroconfDiscoveryService F)
      → s.registered_info ≡ o
      → IsBalanced s.requests o
      → IsWithdrawn s (withdraw net o s)
  withdraw-IsWithdrawn none s e h = inr (refl, (h, e))
  withdraw-IsWithdrawn (some info) s e h = elim (Bool-cases (net.keeps info)) [
    | inl k ↦ rw k (inl refl)
    | inr k ↦ rw k (inr (refl, (withdrawn info h, refl)))
  ]

  unregister-IsWithdrawn :
      (s : ZeroconfDiscoveryService F) → Balanced s → IsWithdrawn s (unregister net s)
  unfolding unregister
  unregister-IsWithdrawn s b = withdraw-IsWithdrawn s.registered_info s refl b

  unregister-Balanced :
      (s : ZeroconfDiscoveryService F) → Balanced s → Balanced (unregister net s).1
  unregister-Balanced s b = elim (unregister-IsWithdrawn s b) [
    | inl kept ↦ rw kept b
    | inr gone ↦ rw gone.1.1 gone.1.0
  ]

  calls-Balanced :
      (cs : List Call) (s : ZeroconfDiscoveryService F) → Balanced s → Balanced (calls cs s)
  unfolding calls
  calls-Balanced [] s b = b
  calls-Balanced (register_call ∷ cs) s b =
      calls-Balanced cs (register net int_text s).1 (register-Balanced s b)
  calls-Balanced (unregister_call ∷ cs) s b =
      calls-Balanced cs (unregister net s).1 (unregister-Balanced s b)

  -- After any calls of register and unregister on a new service, also where zeroconf refused them,
  -- each registration has been withdrawn before the next one, and at most the last one stands. Of a
  -- final `close`, the `unregister` raises nothing, and then none stands; or zeroconf refuses it, and
  -- the service is as it was.
  pub calls-IsBalanced :
      (config : AppConfig F) (service_type : String) (name : Option String) (id build : String)
      (cs : List Call)
      → IsBalanced
          (calls cs (new config service_type name id build)).requests
          (calls cs (new config service_type name id build)).registered_info
        × IsWithdrawn
            (calls cs (new config service_type name id build))
            (unregister net (calls cs (new config service_type name id build)))
  unfolding new
  calls-IsBalanced config service_type name id build cs =
      let s = new config service_type name id build in
      (calls-Balanced cs s fresh, unregister-IsWithdrawn (calls cs s) (calls-Balanced cs s fresh))
