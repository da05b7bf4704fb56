-- ===== src/Tests/Waiting.antt =====
-- The barrier of psyexp_net/runtime/barrier.py and the merge of psyexp_net/config.py at concrete inputs.
use psyexp_net.Prelude.{String, ℕ, true, some, List, [], ◌∷◌, All, ◌+◌, ◌≡◌, refl, leb, string_eq}
use psyexp_net.Prelude.Dict
use psyexp_net.Floats.{pos}
use psyexp_net.Runtime.Barrier.{Poll, SomePoll, wait_until_ready, wait_until_ready_lem}
use psyexp_net.Runtime.Registry.Roles.{IsCovered}
use psyexp_net.Tests.World.{nat_floats, server}
use psyexp_net.Value.{int, str, obj, Fields, field, end}

abbrev polls : List (Poll ℕ)
polls = record { registry = []; now = 2 } ∷ record { registry = server.registry; now = 5 } ∷ []

wait_until_ready_example :
    (wait_until_ready 1 3 ("stimulus" ∷ []) polls ≡ some []
      → SomePoll (λ p. All (IsCovered p.registry) ("stimulus" ∷ [])) polls)
    × (SomePoll (λ p. leb (1 + 3) p.now ≡ true) polls
        → (missing : List String) × (wait_until_ready 1 3 ("stimulus" ∷ []) polls ≡ some missing))
unfolding Dict.get
wait_until_ready_example = wait_until_ready_lem 1 3 ("stimulus" ∷ []) polls (tt, ((refl, tt), tt))

abbrev defaults : Fields ℕ
defaults = field "network" (obj (field "port" (int (pos 5555)) end)) end

abbrev chosen : Fields ℕ
chosen = field "network" (obj (field "host" (str "h") end)) end
