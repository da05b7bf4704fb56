-- ===== src/Runtime/Server/Acks/Completion.antt =====
-- When a command of psyexp_net/runtime/server.py is complete: what the ACKs do to its group.
use mathlib.Core.Option
use psyexp_net.Prelude.{
  String, ◌+◌, ◌<◌, ◌≤◌, none, some, List, [], ◌∷◌, length, leb, ◌≡◌, ◌≢◌, refl, ap, ltb, ◌∙◌,
  arith, inl, inr, Bool-cases, ◌==◌, string_eq, eq_iff, beq_self, if◌then◌else◌,
}
use psyexp_net.Prelude.Dict
use psyexp_net.Prelude.Dict.{Dict}
use psyexp_net.Errors.{ok}
use psyexp_net.Exec.{Exec, gets, for_each, ◌>>=◌}
use psyexp_net.Floats.{Floats}
use psyexp_net.Runtime.Server.Acks.{applied, close_group, observe_skew, store_group, note_apply}
use psyexp_net.Runtime.Server.State.{Server, CommandGroup, observe}

module _ {F : Type 0} where
  -- The receivers are new to the times, one after the other.
  abbrev AreNew : Dict String F → Dict String F → Type 0
  AreNew d [] = Unit
  AreNew d ((r, x) ∷ rs) = (Dict.get r d ≡ none) × AreNew (Dict.put r x d) rs

  length-put :
      (r : String) (x : F) (d : Dict String F)
      → Dict.get r d ≡ none
      → length (Dict.put r x d) ≡ length d + 1
  unfolding Dict.get Dict.put
  length-put r x [] h = omega arith
  length-put r x ((j, y) ∷ d) h = elim (Bool-cases (j == r)) [
    | inl same ↦ ground arith
    | inr other ↦ rw other (omega (arith, length-put r x d (ground arith)))
  ]

  AreNew-of-Distinct :
      (rs d : Dict String F)
      → Dict.Distinct rs
      → ((j : String) → Dict.get j rs ≢ none → Dict.get j d ≡ none)
      → AreNew d rs
  unfolding Dict.get
  AreNew-of-Distinct [] d h new = tt
  AreNew-of-Distinct ((r, x) ∷ rs) d h new = (
    new r (rw (beq_self r) (λ e. cc)),
    AreNew-of-Distinct rs (Dict.put r x d) h.1 (λ j found.
        rw Dict.get-put (elim (Bool-cases (r == j)) [
          | inl same ↦ absurd (found (rw (← (eq_iff r j).0 same) h.0))
          | inr other ↦ rw other (new j (rw other found))
        ])),
  )

module _ {F : Type 0} ⦃fl : Floats F⦄ (command_id : String) where
  observe_skew-quiet :
      (xs : List F) (s : Server F)
      → ((observe_skew xs s).0 ≡ ok tt) × ((observe_skew xs s).1.command_groups ≡ s.command_groups)
  unfolding observe_skew observe
  observe_skew-quiet [] s = (refl, refl)
  observe_skew-quiet (a ∷ []) s = (refl, refl)
  observe_skew-quiet (a ∷ b ∷ xs) s = (refl, refl)

  -- The accounting of an ACK that reports the time of execution.
  abbrev pub account : String × F → Exec (Server F) Unit
  account r = do
    group ← gets (λ s. Dict.get command_id s.command_groups)
    note_apply command_id r.0 r.1 group

  groups-note_apply :
      (r : String) (x : F) (g : CommandGroup F) (s : Server F)
      → ((note_apply command_id r x (some g) s).0 ≡ ok tt)
        × ((note_apply command_id r x (some g) s).1.command_groups
            ≡ close_group command_id (applied r x g) s.command_groups)
  unfolding note_apply store_group
  groups-note_apply r x g s =
      let (fine, quiet) = observe_skew-quiet (Dict.values (applied r x g).apply_times) s in
      rw fine (refl, ap (close_group command_id (applied r x g)) quiet)

  run-none :
      (rs : Dict String F) (s : Server F)
      → Dict.get command_id s.command_groups ≡ none
      → for_each account rs s ≡ (ok tt, s)
  unfolding for_each note_apply
  run-none [] s h = refl
  run-none (r ∷ rs) s h = rw h (run-none rs s h)

  run-some :
      (r : String) (x : F) (rs : Dict String F) (g : CommandGroup F) (s : Server F)
      → Dict.get command_id s.command_groups ≡ some g
      → for_each account ((r, x) ∷ rs) s
        ≡ for_each account rs (note_apply command_id r x (some g) s).1
  unfolding for_each
  run-some r x rs g s h = rw (h, (groups-note_apply r x g s).0) refl

  -- What a group becomes by the times of some receivers, from those that it has.
  abbrev Completes : CommandGroup F → Dict String F → Server F → Type 0
  Completes g rs s =
      (length g.apply_times + length rs < length g.expected_peers
        → (g' : CommandGroup F) × (Dict.get command_id s.command_groups ≡ some g')
          × (length g'.apply_times ≡ length g.apply_times + length rs))
      × (0 < length rs
          → length g.apply_times + length rs ≡ length g.expected_peers
          → Dict.get command_id s.command_groups ≡ none)

  run-Completes :
      (rs : Dict String F) (g : CommandGroup F) (s : Server F)
      → Dict.get command_id s.command_groups ≡ some g
      → AreNew g.apply_times rs
      → ((for_each account rs s).0 ≡ ok tt) × Completes g rs (for_each account rs s).1
  unfolding for_each close_group
  run-Completes [] g s h new =
      (refl, (λ short. (g, h, omega arith), λ some_left full. absurd (omega arith)))
  run-Completes ((r, x) ∷ rs) g s h new =
      let s' = (note_apply command_id r x (some g) s).1 in
      let grown = length-put r x g.apply_times new.0 in
      let groups = (groups-note_apply r x g s).1 in
      let is_full = leb (length g.expected_peers) (length (Dict.put r x g.apply_times)) in
      rw (run-some r x rs g s h) (elim (Bool-cases is_full) [
        | inl full ↦
            let gone : Dict.get command_id s'.command_groups ≡ none =
              rw groups (rw full (Dict.get-remove_self command_id s.command_groups)) in
            rw (run-none rs s' gone)
              (refl, (λ short. absurd (ground (arith, grown)), λ left all. gone))
        | inr open_ ↦
            let there : Dict.get command_id s'.command_groups ≡ some (applied r x g) =
              rw groups
                (rw open_ (Dict.get-put_self command_id (applied r x g) s.command_groups)) in
            let rest = run-Completes rs (applied r x g) s' there new.1 in
            (
              rest.0,
              (
                λ short.
                    let (g', e, l) = rest.1.0 (omega (arith, grown)) in
                    (g', e, omega (arith, l, grown)),
                λ left all. rest.1.1 (ground (arith, grown)) (omega (arith, grown, all)),
              ),
            )
      ])

  -- A command whose group has no times yet, and the times at which some of its clients, at most as
  -- many as are expected, executed it, each once and in any order: the accounting raises nothing.
  -- While fewer have reported than are expected the group stays and holds as many times; with the
  -- last of them it is gone.
  pub account_completes :
      (rs : Dict String F) (g : CommandGroup F) (s : Server F)
      → Dict.get command_id s.command_groups ≡ some g
      → g.apply_times ≡ []
      → Dict.Distinct rs
      → 0 < length rs
      → length rs ≤ length g.expected_peers
      → ((for_each account rs s).0 ≡ ok tt)
        × (Option.map
              (λ g'. length g'.apply_times)
              (Dict.get command_id (for_each account rs s).1.command_groups)
            ≡ (if ltb (length rs) (length g.expected_peers) then some (length rs) else none))
  unfolding Dict.get
  account_completes rs g s h empty distinct some_left few =
      let new : AreNew g.apply_times rs =
        rw empty (AreNew-of-Distinct rs [] distinct (λ j found. refl)) in
      let run = run-Completes rs g s h new in
      let none_yet : length g.apply_times ≡ 0 = rw empty refl in
      (
        run.0,
        elim (Bool-cases (ltb (length rs) (length g.expected_peers))) [
          | inl short ↦
              let (g', e, l) = run.1.0 (ground (arith, none_yet)) in
              rw (short, e)
                (ap some (
                  l
                  ∙ (let e0 : length g.apply_times + length rs ≡ length rs =
                        omega (arith, none_yet) in
                      e0)))
          | inr full ↦ rw (full, run.1.1 some_left (ground (arith, none_yet))) refl
        ],
      )
