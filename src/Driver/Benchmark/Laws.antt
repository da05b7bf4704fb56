-- ===== src/Driver/Benchmark/Laws.antt =====
-- The benchmark of psyexp_net/health/benchmark.py: its loop ends and counts, and its run stops what it
-- started.
use psyexp_net.Prelude.{
  String, ℕ, zero, suc, ◌+◌, ◌*◌, ◌≤◌, ◌<◌, false, Option, none, some, List, [], ◌∷◌, ◌++◌, map,
  length, length-append, All, ◌≡◌, refl, subst, ap, ◌∙◌, inl, inr, arith, Bool-cases,
}
use psyexp_net.Config.{AppConfig}
use psyexp_net.Driver.{
  Call, Answers, World, call, now, server_start, server_shutdown, client_close, collect,
}
use psyexp_net.Driver.Benchmark.{
  Tally, collect_all, round, rounds, measure, close_all, benchmark_with,
}
use psyexp_net.Driver.Demo.{join, close}
use psyexp_net.Driver.Stack.{Peer}
use psyexp_net.Driver.Steps.{
  Makes-bind, Makes-elim, Makes-now, Makes-pure, Ends, Ends-bind, Ends-call, Ends-weaken, IsOpen,
  Makes, makes_rules, after-pure, call-seq,
}
use psyexp_net.Errors.{Result, ok}
use psyexp_net.Exec.{Exec, pure, for_each, try_finally, ◌>>=◌}
use psyexp_net.Floats.{Floats}
use psyexp_net.Logging.Summary.{Statistics}
use psyexp_net.Protocol.Versioning.{IntText}
use psyexp_net.Value.{Fields}

module _ {F : Type 0} ⦃fl : Floats F⦄ (a : Answers F) (int_text : IntText) where
  open fl use {lt}

  collect_all-counts :
      (ps : List Peer) (n : ℕ) (w : World F)
      → Ends (λ m v. (m ≡ n + length ps) × (v.ticks ≡ w.ticks)) (collect_all a int_text ps n w)
  unfolding collect_all
  collect_all-counts [] n w = (omega arith, refl)
  collect_all-counts (p ∷ ps) n w =
      let w' : World F = record w { calls = collect p.role (fl.lit 1 1) ∷ w.calls } in
      let P : ℕ → World F → Type 0 = λ m v. (m ≡ n + suc (length ps)) × (v.ticks ≡ w.ticks) in
      Ends-call P a (collect p.role (fl.lit 1 1)) (collect_all a int_text ps (n + 1)) w (
        Ends-weaken P (λ m v. (m ≡ n + 1 + length ps) × (v.ticks ≡ w.ticks))
          (collect_all a int_text ps (n + 1) w') (λ m v h. (omega arith, h.1))
          (collect_all-counts ps (n + 1) w'))

  -- A round counts one more iteration, with one latency of each kind and one report of each client,
  -- and reads the clock four times.
  abbrev Counted : List Peer → Tally F → World F → Tally F → World F → Type 0
  Counted ps t w t' v =
      (t'.iteration ≡ t.iteration + 1)
      × (t'.data_reports ≡ t.data_reports + length ps)
      × (length t'.control_latencies ≡ length t.control_latencies + 1)
      × (length t'.broadcast_latencies ≡ length t.broadcast_latencies + 1)
      × (v.ticks ≡ w.ticks + 4)

  round-Counted :
      (ps : List Peer) (t : Tally F) (w : World F) → Ends (Counted ps t w) (round a int_text ps t w)
  unfolding round now
  round-Counted ps t w =
      let P = Counted ps t w in
      Ends-call P a _ _ (record w { ticks = w.ticks + 1 })
        (Ends-bind P (collect_all a int_text ps t.data_reports) _ _ (
          Ends-weaken _ (λ m v. (m ≡ t.data_reports + length ps) × (v.ticks ≡ w.ticks + 1)) _
            (λ m v h.
              Ends-call P a _ _ (record v { ticks = v.ticks + 1 + 1 })
                (
                  refl,
                  h.0,
                  length-append t.control_latencies _,
                  length-append t.broadcast_latencies _,
                  omega (arith, h.1),
                ))
            (collect_all-counts ps t.data_reports _)))

  -- What the loop adds: at most `k` rounds, each with one latency of each kind and one report of
  -- each client.
  abbrev pub CountsUpTo : (k : ℕ) → List Peer → Tally F → Option (Tally F) → Type 0
  CountsUpTo k ps t o =
      (t' : Tally F) × (j : ℕ) × (o ≡ some t')
      × (j ≤ k)
      × (t'.iteration ≡ t.iteration + j)
      × (t'.data_reports ≡ t.data_reports + j * length ps)
      × (length t'.control_latencies ≡ length t.control_latencies + j)
      × (length t'.broadcast_latencies ≡ length t.broadcast_latencies + j)

  CountsUpTo-suc :
      (k : ℕ) (ps : List Peer) (t t' : Tally F) (o : Option (Tally F)) (w v : World F)
      → Counted ps t w t' v
      → CountsUpTo k ps t' o
      → CountsUpTo (suc k) ps t o
  CountsUpTo-suc k ps t t' o w v c (t'', j, e, le, i, r, l, b) = (
    t'',
    suc j,
    e,
    omega (arith, le),
    omega (arith, i, c.0),
    grind (arith, r, c.1),
    omega (arith, l, c.2),
    omega (arith, b, c.3),
  )

  -- One more round before what the rest of the loop counts.
  rounds-more :
      (n k : ℕ) (ps : List Peer) (deadline : F) (t : Tally F) (w : World F)
      → ((t' : Tally F) (v : World F)
          → Counted ps t w t' v
          → Ends (λ o v'. CountsUpTo k ps t' o) (rounds a int_text n ps deadline t' v))
      → Ends
          (λ o v. CountsUpTo (suc k) ps t o)
          ((round a int_text ps t >>= rounds a int_text n ps deadline) w)
  rounds-more n k ps deadline t w rest =
      let P : Option (Tally F) → World F → Type 0 = λ o v. CountsUpTo (suc k) ps t o in
      let next : Tally F → Exec (World F) (Option (Tally F)) = rounds a int_text n ps deadline in
      Ends-bind P (round a int_text ps t) next w (
        Ends-weaken (λ t' v. Ends P (next t' v)) (Counted ps t w) (round a int_text ps t w)
          (λ t' v c.
            Ends-weaken P (λ o v'. CountsUpTo k ps t' o) (next t' v)
              (λ o v' counts. CountsUpTo-suc k ps t t' o w v c counts) (rest t' v c))
          (round-Counted ps t w))

  -- the loop that ends at once
  ended : (k : ℕ) (ps : List Peer) (t : Tally F) → CountsUpTo k ps t (some t)
  ended k ps t = (t, 0, refl, omega arith, omega arith, omega arith, omega arith, omega arith)

  -- If the clock has reached the deadline at the test after `k` rounds, the loop needs no more fuel
  -- than for one more test: it raises, or it ends by its test after at most `k` rounds and has
  -- counted each.
  pub rounds_lem :
      (fuel k : ℕ) (ps : List Peer) (deadline : F) (t : Tally F) (w : World F)
      → k < fuel
      → lt (a.clock (w.ticks + 5 * k)) deadline ≡ false
      → Ends (λ o v. CountsUpTo k ps t o) (rounds a int_text fuel ps deadline t w)
  unfolding rounds now
  rounds_lem zero k ps deadline t w m h = elim m [ ]
  rounds_lem (suc n) zero ps deadline t w m h =
      let e : w.ticks + 5 * 0 ≡ w.ticks = omega arith in
      let over : lt (a.clock w.ticks) deadline ≡ false =
        subst (λ i. lt (a.clock i) deadline ≡ false) e h in
      rw over (ended 0 ps t)
  rounds_lem (suc n) (suc k) ps deadline t w m h =
      elim (Bool-cases (lt (a.clock w.ticks) deadline)) [
        | inr over ↦ rw over (ended (suc k) ps t)
        | inl more ↦ rw more (
            rounds-more n k ps deadline t (record w { ticks = w.ticks + 1 })
              (λ t' v c.
                rounds_lem n k ps deadline t' v (omega arith)
                  (let e : v.ticks + 5 * k ≡ w.ticks + 5 * suc k = omega (arith, c.4) in rw e h)))
      ]

  -- the calls behind the closing of these clients, in order
  abbrev pub closed : List String → List (Call F) → List (Call F)
  closed [] cs = cs
  closed (id ∷ ids) cs = closed ids (client_close id ∷ cs)

  -- Clients whose closing does not raise are closed in order.
  for_each-close :
      (ids : List String) (w : World F)
      → ((id : String) (cs : List (Call F)) → a.raises (client_close id ∷ cs) ≡ none)
      → for_each (close a) ids w ≡ (ok tt, record w { calls = closed ids w.calls })
  unfolding for_each call
  for_each-close [] w closes = refl
  for_each-close (id ∷ ids) w closes =
      rw (closes id w.calls)
        (for_each-close ids (record w { calls = client_close id ∷ w.calls }) closes)

  calls-close_all :
      (st : Statistics F) (peers : List Peer) (w : World F)
      → ((id : String) (cs : List (Call F)) → a.raises (client_close id ∷ cs) ≡ none)
      → (close_all a int_text st peers w).1.calls
        ≡ server_shutdown ∷ closed (map (λ p. p.client_id) peers) w.calls
  unfolding close_all call
  calls-close_all st peers w closes =
      rw (for_each-close (map (λ p. p.client_id) peers) w closes) refl

  collect_all-Makes : (ps : List Peer) (n : ℕ) → Makes IsOpen (collect_all a int_text ps n)
  unfolding collect_all
  collect_all-Makes [] n = search makes_rules
  collect_all-Makes (p ∷ ps) n = search (makes_rules, collect_all-Makes ps)

  round-Makes : (ps : List Peer) (t : Tally F) → Makes IsOpen (round a int_text ps t)
  unfolding round
  round-Makes ps t = search (makes_rules, collect_all-Makes) depth 30

  rounds-Makes :
      (n : ℕ) (ps : List Peer) (deadline : F) (t : Tally F)
      → Makes IsOpen (rounds a int_text n ps deadline t)
  unfolding rounds
  rounds-Makes zero ps deadline t = search makes_rules
  rounds-Makes (suc n) ps deadline t = Makes-bind (now a) _ (Makes-now a) (λ reading.
      Makes-elim (lt reading deadline) _ (pure (some t))
        (Makes-bind (round a int_text ps t) (rounds a int_text n ps deadline) (round-Makes ps t)
          (λ t'. rounds-Makes n ps deadline t'))
        (Makes-pure (some t)))

  join-Makes : (id : String) → Makes IsOpen (join a id)
  unfolding join
  join-Makes id = search makes_rules depth 20

  measure-Makes :
      (st : Statistics F) (fuel : ℕ) (config : AppConfig F) (clients : ℕ) (seconds : F)
      (peers : List Peer)
      → Makes IsOpen (measure a int_text st fuel config clients seconds peers)
  unfolding measure
  measure-Makes st fuel config clients seconds peers =
      search (makes_rules, join-Makes, rounds-Makes) depth 30

  -- Once the server of a benchmark has started, and if no closing of a client raises: however the
  -- clients' start, the waits and the rounds end, every client is closed, in order, and then the
  -- server is shut down, as the last calls of the run; before that nothing is stopped.
  pub benchmark_with-stops :
      (st : Statistics F) (fuel : ℕ) (config : AppConfig F) (clients : ℕ) (seconds : F)
      (peers : List Peer) (w : World F)
      → a.raises (server_start ∷ w.calls) ≡ none
      → ((id : String) (cs : List (Call F)) → a.raises (client_close id ∷ cs) ≡ none)
      → (steps : List (Call F)) × ((benchmark_with a int_text st fuel config clients seconds peers
            w).1.calls
          ≡ server_shutdown
            ∷ closed (map (λ p. p.client_id) peers) (steps ++ server_start ∷ w.calls))
        × All IsOpen steps
  unfolding benchmark_with
  benchmark_with-stops st fuel config clients seconds peers w started closes =
      let w' : World F = record w { calls = server_start ∷ w.calls } in
      let tried = measure a int_text st fuel config clients seconds peers in
      let last = close_all a int_text st peers in
      let made = (measure-Makes st fuel config clients seconds peers).at w' in
      let rest : Exec (World F) (Option (Fields F)) =
        try_finally tried last >>= λ shown. pure shown.0 in
      (
        made.steps,
        ap (λ (r : Result (Option (Fields F)) × World F). r.1.calls)
              (call-seq a server_start rest w started)
            ∙ ap (λ (v : World F). v.calls) (after-pure (try_finally tried last w').0 _ _)
            ∙ calls-close_all st peers (tried w').1 closes
            ∙ ap (λ cs. server_shutdown ∷ closed (map (λ p. p.client_id) peers) cs) made.made,
        made.kind,
      )
