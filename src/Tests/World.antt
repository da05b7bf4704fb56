-- ===== src/Tests/World.antt =====
-- Concrete numbers, texts and servers for the tests.
use Prim.Native.Char.{code}
use psyexp_net.Prelude.{
  String, ℕ, zero, suc, ◌+◌, ◌-◌, ◌*◌, ◌/◌, false, Option, none, some, List, [], ◌∷◌, nat_beq, ltb,
  leb, ◌≡◌, refl, if◌then◌else◌,
}
use psyexp_net.Config.{default_config}
use psyexp_net.Enums.{ClientStatus, client_status_value, MessageType, message_type_value}
use psyexp_net.Floats.{ℤ, pos, negsuc, Floats}
use psyexp_net.Logging.Metrics
use psyexp_net.Logging.Summary.{Statistics}
use psyexp_net.Protocol.Ack.{waiting}
use psyexp_net.Protocol.Codec.{Base64}
use psyexp_net.Protocol.Message.{Message, create}
use psyexp_net.Protocol.Versioning.{IntText, split_dot}
use psyexp_net.Protocol.Versioning.Laws.{IsFaithful}
use psyexp_net.Runtime.Registry.{ClientInfo}
use psyexp_net.Runtime.Server.State.{Server}
use psyexp_net.Runtime.Session
use psyexp_net.Value.{Fields, obj}

abbrev to_ℕ : ℤ → ℕ
to_ℕ (pos n) = n
to_ℕ (negsuc n) = 0

-- Numbers that stop at 0 stand in for floats.
instance abbrev pub nat_floats : Floats ℕ
nat_floats = record {
  plus = λ a b. a + b;
  minus = λ a b. a - b;
  times = λ a b. a * b;
  over = λ a b. a / b;
  lt = ltb;
  le = leb;
  of_ℤ = to_ℕ;
  lit = λ a b. a / b;
  abs = λ a. a;
  parse_float = λ _. none;
}

-- Tallies stand in for the digits of numbers.
unfoldable pub tally : ℕ → String → String
tally zero s = s
tally (suc n) s = String.◌∷◌ "I" (tally n s)

abbrev more : Option ℕ → Option ℕ
more none = none
more (some n) = some (suc n)

unfoldable pub count : String → Option ℕ
count String.[] = some 0
count (String.◌∷◌ c s) = let rest = count s in if nat_beq (code c) b'I' then more rest else none

count-tally : (n : ℕ) → count (tally n "") ≡ some n
unfolding count tally
count-tally zero = refl
count-tally (suc n) = rw (count-tally n)

split_dot-tally : (n : ℕ) → split_dot (tally n "") ≡ none
unfolding split_dot tally
split_dot-tally zero = refl
split_dot-tally (suc n) = rw (split_dot-tally n)

abbrev signed : Option ℕ → Option ℤ
signed none = none
signed (some n) = some (pos n)

abbrev negated : Option ℕ → Option ℤ
negated none = none
negated (some n) = some (negsuc n)

unfoldable pub read : String → Option ℤ
read String.[] = some (pos 0)
read (String.◌∷◌ c s) =
    if nat_beq (code c) b'-' then negated (count s) else signed (count (String.◌∷◌ c s))

unfoldable pub print : ℤ → String
print (pos n) = tally n ""
print (negsuc n) = String.◌∷◌ "-" (tally n "")

read-print : (n : ℤ) → read (print n) ≡ some n
unfolding read print tally count
read-print (pos zero) = refl
read-print (pos (suc n)) = rw (count-tally n)
read-print (negsuc n) = rw (count-tally n)

split_dot-print : (n : ℤ) → split_dot (print n) ≡ none
unfolding print split_dot
split_dot-print (pos n) = split_dot-tally n
split_dot-print (negsuc n) = rw (split_dot-tally n)

abbrev pub tallies : IntText
tallies = record { parse_int = read; print_int = print }

pub tallies-IsFaithful : IsFaithful tallies
tallies-IsFaithful = record { parse-print = read-print; no_dot = split_dot-print }

-- A list of bytes as tallies, each with a dot behind it.
unfoldable pub write : List ℕ → String
write [] = ""
write (n ∷ ns) = tally n (String.◌∷◌ "." (write ns))

abbrev bump : Option (List ℕ) → Option (List ℕ)
bump (some (n ∷ ns)) = some (suc n ∷ ns)
bump _ = none

abbrev next : Option (List ℕ) → Option (List ℕ)
next none = none
next (some ns) = some (0 ∷ ns)

unfoldable pub parse : String → Option (List ℕ)
parse String.[] = some []
parse (String.◌∷◌ c s) =
    let rest = parse s in if nat_beq (code c) b'I' then bump rest else next rest

parse-tally :
    (n : ℕ) (s : String) (ns : List ℕ)
    → parse s ≡ some ns
    → parse (tally n (String.◌∷◌ "." s)) ≡ some (n ∷ ns)
unfolding parse tally
parse-tally zero s ns h = rw h
parse-tally (suc n) s ns h = rw (parse-tally n s ns h)

pub parse-write : (ns : List ℕ) → parse (write ns) ≡ some ns
unfolding write
parse-write [] = unfold parse in refl
parse-write (n ∷ ns) = parse-tally n (write ns) ns (parse-write ns)

abbrev pub tally64 : Base64
tally64 = record { b64encode = write; b64decode = parse }

abbrev pub stimulus : ClientInfo ℕ
stimulus = record {
  client_id = "a";
  role = "stimulus";
  host = "localhost";
  process_info = [];
  protocol_version = "I.I";
  capabilities = [];
  connected_since = 0;
  last_seen = 0;
  current_status = client_status_value ClientStatus.ready;
  offset_estimate_ms = 0;
  rtt_ms = 0;
  queue_health = [];
}

-- A server at the start, whose registry has one client, and whose clock ticks.
abbrev pub server : Server ℕ
server = record {
  config = default_config;
  registry = ("a", stimulus) ∷ [];
  session = Session.init;
  metrics = Metrics.new;
  recorder = record {
    wall = λ n. n;
    rows = [];
    event_count = 0;
    kinds = [];
    trial_ids = [];
    peer_ids = [];
    last_session = none;
  };
  pending_acks = record { timeout_ms = 800; pending = [] };
  results = [];
  message_tracking = [];
  command_groups = [];
  env = record {
    clock = λ n. n;
    ticks = 0;
    uuids = λ n. tally n "";
    issued = 0;
    futures = λ _. waiting;
    next_future = 0;
    outbox = [];
    refuses = λ _. none;
  };
}

-- A message of the client "a".
abbrev pub message : MessageType → Fields ℕ → Message ℕ
message t payload = record {
  header = create 0 "m1" (message_type_value t) "a" "stimulus" none none false none "NORMAL" none;
  payload = obj payload;
  attachments = [];
}

abbrev pub statistics : Statistics ℕ
statistics = record { mean = λ _. 5; pstdev = λ _. 1; truncate = λ n. pos n }
