-- ===== src/Health/Doctor/Laws.antt =====
-- What the doctor of psyexp_net/health/doctor.py reports.
use psyexp_net.Prelude.{
  String, ℕ, zero, suc, ◌≤◌, Bool, true, false, ◌&&◌, none, some, List, [], ◌∷◌, map, length,
  length-map, ◌∙◌, ◌≡◌, refl, ap, arith, ◌==◌, string_eq, if◌then◌else◌,
}
use psyexp_net.Config.{AppConfig}
use psyexp_net.Errors.{Result, ok, ◌>>=◌}
use psyexp_net.Floats.{Floats}
use psyexp_net.Health.Doctor.{
  DoctorReport, Surroundings, Probe, rounds, measured, refused, sample_count, probe_zmq_server,
  tried, of_probe, run, report_of, is_reachable, if_any,
}
use psyexp_net.Logging.Summary.{Statistics}

-- f(i), f(i + 1), ..., n of them
unfoldable pub upto {ℓ} : {A : Type ℓ} → (ℕ → A) → (i n : ℕ) → List A
upto f i zero = []
upto f i (suc n) = f i ∷ upto f (suc i) n

length-upto {ℓ} : {A : Type ℓ} (f : ℕ → A) (i n : ℕ) → length (upto f i n) ≡ n
unfolding upto
length-upto f i zero = refl
length-upto f i (suc n) = ap suc (length-upto f (suc i) n)

rounds-upto {ℓ} :
    {A : Type ℓ} (f : ℕ → Result A) (g : ℕ → A)
    → ((i : ℕ) → f i ≡ ok (g i))
    → (i n : ℕ) → rounds f i n ≡ ok (upto g i n)
unfolding rounds upto
rounds-upto f g h i zero = refl
rounds-upto f g h i (suc n) = rw (h i, rounds-upto f g h (suc i) n) refl

module _ {F : Type 0} ⦃fl : Floats F⦄ (st : Statistics F) where
  -- The measures of the probe for the answers `p`.
  abbrev pub samples : AppConfig F → (ℕ → F × F) → List (F × F)
  samples config p = upto p 0 (sample_count st config)

  abbrev pub probed : AppConfig F → Bool → (ℕ → F × F) → Probe F
  probed config b p = if b then measured st (samples config p) else refused st

  probe_zmq_server_lem :
      (config : AppConfig F) (env : Surroundings F) (b : Bool) (p : ℕ → F × F)
      → env.registered ≡ ok b
      → ((i : ℕ) → env.pings i ≡ ok (p i))
      → probe_zmq_server st config env ≡ ok (probed config b p)
  unfolding probe_zmq_server
  probe_zmq_server_lem config env true p h pings =
      rw (h, rounds-upto env.pings p pings 0 (sample_count st config)) refl
  probe_zmq_server_lem config env false p h pings = rw h refl

  -- whether the doctor probes the server
  abbrev pub is_probed : AppConfig F → Surroundings F → Bool
  is_probed config env =
      config.network.backend == "zmq" && (env.has_zmq && is_reachable st config env)

  if_any-some : (f : List F → F) (xs : List F) → 1 ≤ length xs → if_any st f xs ≡ some (f xs)
  if_any-some f (x ∷ xs) h = refl
  if_any-some f [] h = let no : ⊥ = omega (arith, h) in elim no [ ]

  -- What `tried` gives of a probe that succeeds.
  tried_lem :
      (z i r : Bool) (q : Probe F)
      → (notes : List String) × (tried st z i r (ok q)
          ≡ ok ((if z && (i && r) then some q else none), notes))
  tried_lem true true true q = ([], refl)
  tried_lem true true false q = (_, refl)
  tried_lem true false r q = (_, refl)
  tried_lem false i r q = ([], refl)

  measured-avg :
      (config : AppConfig F) (b : Bool) (p : ℕ → F × F) (w : Bool)
      → of_probe st (λ q. q.avg_rtt_ms) (if w then some (probed config b p) else none)
        ≡ (if w && b then some (st.mean (map (λ s. s.1) (samples config p))) else none)
  measured-avg config true p true = if_any-some st.mean (map (λ s. s.1) (samples config p)) (
      omega
        (arith, length-map (λ s. s.1) (samples config p), length-upto p 0 (sample_count st config)))
  measured-avg config false p true = refl
  measured-avg config b p false = refl

  measured-handshake :
      (config : AppConfig F) (b : Bool) (p : ℕ → F × F) (w : Bool)
      → of_probe st (λ q. some q.handshake_ok) (if w then some (probed config b p) else none)
        ≡ (if w then some b else none)
  measured-handshake config true p true = refl
  measured-handshake config false p true = refl
  measured-handshake config b p false = refl

  -- If the server answers the probe's client and its pings, the doctor's run returns a report. It
  -- has a verdict on the handshake exactly when the backend is ZeroMQ, pyzmq is installed and the
  -- port can be reached, and this is what the server answered; and a round trip exactly when the
  -- handshake succeeded, the mean of one to five pings.
  pub run_lem :
      (config : AppConfig F) (env : Surroundings F) (b : Bool) (p : ℕ → F × F)
      → env.registered ≡ ok b
      → ((i : ℕ) → env.pings i ≡ ok (p i))
      → (r : DoctorReport F) × (run st config env ≡ ok r)
        × (r.handshake_ok ≡ (if is_probed config env then some b else none))
        × (r.avg_rtt_ms ≡ (
            if is_probed config env && b
            then some (st.mean (map (λ s. s.1) (samples config p)))
            else none))
        × (1 ≤ length (samples config p))
        × (length (samples config p) ≤ 5)
  unfolding run
  run_lem config env b p h pings =
      let z = config.network.backend == "zmq" in
      let i = env.has_zmq in
      let r = is_reachable st config env in
      let (notes, t) = tried_lem z i r (probed config b p) in
      let w = is_probed config env in
      (
        report_of st config env ((if w then some (probed config b p) else none), notes),
        ap (λ x. do attempt ← x; ok (report_of st config env attempt))
            (ap (tried st z i r) (probe_zmq_server_lem config env b p h pings) ∙ t),
        measured-handshake config b p w,
        measured-avg config b p w,
        omega (arith, length-upto p 0 (sample_count st config)),
        omega (arith, length-upto p 0 (sample_count st config)),
      )
