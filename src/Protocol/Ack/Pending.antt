-- ===== src/Protocol/Ack/Pending.antt =====
-- The table of pending ACKs of psyexp_net/protocol/ack.py: its invariant, what resolves an entry and
-- what expires.
use psyexp_net.Prelude.{
  String, ℕ, Bool, Option, none, some, [], ◌∷◌, map, not, keep, All, All-keep, ◌≡◌, refl, arith,
  inl, inr, Option-cases, Bool-cases, pair_eq, pair_beq_iff, sym, subst,
}
use psyexp_net.Prelude.Dict
use psyexp_net.Prelude.Dict.{Dict}
use psyexp_net.Floats.{Floats}
use psyexp_net.Value.{Value}
use psyexp_net.Protocol.Ack.{
  waiting, resolved, Futures, PendingAck, PendingAckManager, set_result, resolve_entry, new_entry,
  add, timed_out, expire,
}

abbrev pub key_of : {F : Type 0} → PendingAck F → String × String
key_of entry = (entry.msg_id, entry.peer_id)

-- No key stands twice, and each entry stands under its own message and peer.
pub record IsKeyed {F : Type 0} (m : PendingAckManager F) : Type 0 where
  pub distinct : Dict.Distinct m.pending
  pub keyed : All (λ e. key_of e.1 ≡ e.0) m.pending

module _ {F : Type 0} ⦃fl : Floats F⦄ where
  pub add-IsKeyed :
      (now : F) (msg_id peer_id : String) (future : Option ℕ) (m : PendingAckManager F)
      → IsKeyed m
      → IsKeyed (add now msg_id peer_id future m)
  unfolding add new_entry
  add-IsKeyed now msg_id peer_id future m h = record {
    distinct = Dict.Distinct-put _ _ m.pending h.distinct;
    keyed =
        Dict.All-put _ (msg_id, peer_id) _ m.pending
          (λ j same. sym ((pair_beq_iff j (msg_id, peer_id)).0 same)) h.keyed;
  }

  pub resolve_entry-IsKeyed :
      (reply_to peer_id : String) (v : Value F) (m : PendingAckManager F) (fs : Futures F)
      → IsKeyed m
      → IsKeyed (resolve_entry reply_to peer_id v m fs).1
  unfolding resolve_entry
  resolve_entry-IsKeyed reply_to peer_id v m fs h =
      elim (Option-cases (Dict.get (reply_to, peer_id) m.pending)) [
        | inl absent ↦ rw (absent, resolve_entry) h
        | inr (entry, found) ↦
            rw (found, resolve_entry)
              (record {
                distinct = Dict.Distinct-remove (reply_to, peer_id) m.pending h.distinct;
                keyed = Dict.All-remove _ (reply_to, peer_id) m.pending h.keyed;
              })
      ]

  keyed_keys :
      (p : PendingAck F → Bool) (d : Dict (String × String) (PendingAck F))
      → All (λ e. key_of e.1 ≡ e.0) d
      → map key_of (keep p (Dict.values d)) ≡ Dict.keys (keep (λ e. p e.1) d)
  keyed_keys p [] h = refl
  keyed_keys p (e ∷ d) h = elim (Bool-cases (p e.1)) [
    | inl t ↦ rw t (rw (h.0, keyed_keys p d h.1))
    | inr f ↦ rw f (keyed_keys p d h.1)
  ]

  -- What stays after `expire` is what has not timed out, in order.
  pub pending-expire :
      (now : F) (m : PendingAckManager F)
      → IsKeyed m
      → (expire now m).1.pending ≡ keep (λ e. not (timed_out now e.1)) m.pending
  unfolding expire
  pending-expire now m h =
      rw (keyed_keys (timed_out now) m.pending h.keyed)
        (Dict.remove_all-keep (λ e. timed_out now e.1) m.pending h.distinct)

  pub expire-IsKeyed : (now : F) (m : PendingAckManager F) → IsKeyed m → IsKeyed (expire now m).1
  expire-IsKeyed now m h = record {
    distinct =
        rw (pending-expire now m h)
          (Dict.Distinct-keep (λ e. not (timed_out now e.1)) m.pending h.distinct);
    keyed =
        rw (pending-expire now m h) (All-keep _ (λ e. not (timed_out now e.1)) m.pending h.keyed);
  }

  -- An entry that was added under a free key, with a future that waits, is what an ACK for that
  -- message and peer resolves: its future gets the ACK's payload, the table is as it was before, and
  -- a second ACK, behind the first, finds nothing and changes nothing: the future keeps the payload
  -- of the first.
  pub resolve_entry-add :
      (now : F) (msg_id peer_id : String) (n : ℕ) (ack again : Value F) (m : PendingAckManager F)
      (fs : Futures F)
      → Dict.get (msg_id, peer_id) m.pending ≡ none
      → fs n ≡ waiting
      → let first = resolve_entry msg_id peer_id ack (add now msg_id peer_id (some n) m) fs in
        (first ≡ (some (new_entry now msg_id peer_id (some n) m), m, set_result (some n) ack fs))
        × (first.2 n ≡ resolved ack)
        × (resolve_entry msg_id peer_id again first.1 first.2 ≡ (none, first.1, first.2))
  unfolding resolve_entry add set_result new_entry
  resolve_entry-add now msg_id peer_id n ack again m fs free waits =
      let at =
        Dict.get-put_self (msg_id, peer_id) (new_entry now msg_id peer_id (some n) m) m.pending in
      let first : resolve_entry msg_id peer_id ack (add now msg_id peer_id (some n) m) fs
          ≡ (some (new_entry now msg_id peer_id (some n) m), m, set_result (some n) ack fs) =
        rw (at, resolve_entry) (rw (Dict.remove-put (msg_id, peer_id) _ m.pending free)) in
      (
        first,
        subst (λ o. o.2 n ≡ resolved ack) (sym first) (ground arith),
        subst (λ o. resolve_entry msg_id peer_id again o.1 o.2 ≡ (none, o.1, o.2)) (sym first)
            (rw (free, resolve_entry) refl),
      )
