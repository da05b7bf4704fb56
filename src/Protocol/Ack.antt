-- ===== src/Protocol/Ack.antt =====
-- psyexp_net/protocol/ack.py: the table of messages that wait for an ACK, and the window of message
-- ids by which a receiver recognises duplicates. `now` is the reading of time.monotonic().
pub mod Pending
pub mod Window
use psyexp_net.Prelude.{
  String, ℕ, Bool, true, false, Option, none, some, List, [], ◌∷◌, ◌++◌, map, not, length, keep,
  contains, ltb, ◌==◌, nat_eq, string_eq, pair_eq, if◌then◌else◌,
}
use psyexp_net.Prelude.Dict
use psyexp_net.Prelude.Dict.{Dict}
use psyexp_net.Floats.{Floats, seconds}
use psyexp_net.Value.{Value}

-- An asyncio future, by its number in the event loop. A future whose waiter timed out is cancelled.
pub data Future (F : Type 0) : Type 0 where
  waiting : Future F
  resolved : Value F → Future F
  cancelled : Future F

abbrev pub Futures : Type 0 → Type 0
Futures F = ℕ → Future F

-- A new PendingAck has `retries` 0, and nothing in the program changes it.
pub record PendingAck (F : Type 0) : Type 0 where
  pub msg_id : String
  pub peer_id : String
  pub created_at : F
  pub timeout_at : F
  pub retries : ℕ
  pub future : Option ℕ

pub record PendingAckManager (F : Type 0) : Type 0 where
  pub timeout_ms : ℕ
  pub pending : Dict (String × String) (PendingAck F)

module _ {F : Type 0} where
  -- if future is not None and not future.done(): future.set_result(value)
  unfoldable pub set_result : Option ℕ → Value F → Futures F → Futures F
  set_result none value futures = futures
  set_result (some n) value futures =
      λ m. if m == n then elim (futures n) [ waiting ↦ resolved value | done ↦ done ] else futures m

  -- `resolve_entry`: the entry that waited, which is popped, and its future
  unfoldable pub resolve_entry :
      String
      → String
      → Value F
      → PendingAckManager F
      → Futures F
      → Option (PendingAck F) × PendingAckManager F × Futures F
  resolve_entry reply_to peer_id value m futures = elim (Dict.get (reply_to, peer_id) m.pending) [
    | none ↦ (none, m, futures)
    | some entry ↦ (
      some entry,
      record m { pending = Dict.remove (reply_to, peer_id) m.pending },
      set_result entry.future value futures,
    )
  ]

  -- `resolve`, which only says whether an entry waited
  unfoldable pub resolve :
      String
      → String
      → Value F
      → PendingAckManager F
      → Futures F
      → Bool × PendingAckManager F × Futures F
  resolve reply_to peer_id value m futures = elim (Dict.get (reply_to, peer_id) m.pending) [
    | none ↦ (false, m, futures)
    | some entry ↦ (
      true,
      record m { pending = Dict.remove (reply_to, peer_id) m.pending },
      set_result entry.future value futures,
    )
  ]

module _ {F : Type 0} ⦃fl : Floats F⦄ where
  open fl use {plus, le}

  unfoldable pub new_entry : F → String → String → Option ℕ → PendingAckManager F → PendingAck F
  new_entry now msg_id peer_id future m = record {
    msg_id = msg_id;
    peer_id = peer_id;
    created_at = now;
    timeout_at = plus now (seconds m.timeout_ms);
    retries = 0;
    future = future;
  }

  unfoldable pub add : F → String → String → Option ℕ → PendingAckManager F → PendingAckManager F
  add now msg_id peer_id future m = record m {
    pending = Dict.put (msg_id, peer_id) (new_entry now msg_id peer_id future m) m.pending;
  }

  abbrev pub timed_out : F → PendingAck F → Bool
  timed_out now entry = le entry.timeout_at now

  -- The entries that have timed out, and the table without them.
  unfoldable pub expire : F → PendingAckManager F → List (PendingAck F) × PendingAckManager F
  expire now m =
      let expired = keep (timed_out now) (Dict.values m.pending) in
      (
        expired,
        record m {
          pending =
              Dict.remove_all (map (λ entry. (entry.msg_id, entry.peer_id)) expired) m.pending;
        },
      )

-- `items` are the keys of the OrderedDict, oldest first.
pub record MessageDeduplicator : Type 0 where
  pub max_size : ℕ
  pub items : List String

-- popitem(last=False)
abbrev pub drop_first : List String → List String
drop_first [] = []
drop_first (x ∷ xs) = xs

abbrev pub without : String → List String → List String
without x = keep (λ y. not (x == y))

unfoldable pub seen : String → MessageDeduplicator → Bool × MessageDeduplicator
seen msg_id d =
    if contains msg_id d.items
    then (true, record d { items = without msg_id d.items ++ msg_id ∷ [] })
    else (
      false,
      record d {
        items =
            let items = d.items ++ msg_id ∷ [] in
            if ltb d.max_size (length items) then drop_first items else items;
      },
    )
