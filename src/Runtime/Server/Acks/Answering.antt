-- ===== src/Runtime/Server/Acks/Answering.antt =====
-- What an ACK of `make_ack` in psyexp_net/protocol/message.py does to the server that waits for it.
use psyexp_net.Prelude.{
  String, ℕ, Option, none, some, List, [], ◌∷◌, ◌≡◌, refl, ap, ◌∙◌, arith, string_eq, pair_eq,
  nat_eq,
}
use psyexp_net.Prelude.Dict
use psyexp_net.Errors.{ok}
use psyexp_net.Exec.{Exec, pure, gets, ◌>>=◌, ◌>>◌}
use psyexp_net.Floats.{Floats}
use psyexp_net.Protocol.Ack.{
  Futures, waiting, resolved, PendingAck, PendingAckManager, resolve_entry, set_result,
}
use psyexp_net.Protocol.Message.{Message, make_ack}
use psyexp_net.Runtime.Server.Acks.{
  observe_delay, observe_skew, store_group, note_apply, note_command, observe_tracked,
  forget_tracking, observe_ack_timing, resolve_pending, observe_resolved, handle_ack,
}
use psyexp_net.Runtime.Server.State.{Server, Tracking, CommandGroup, monotonic, observe}
use psyexp_net.Value.{Value, null, str, float, opt_float, Fields, field, end}

-- A method that raises nothing and leaves the pending table and the futures alone.
pub record IsAside {A F : Type 0} (m : Exec (Server F) A) : Type 0 where
  pub gives : (s : Server F) → (x : A) × ((m s).0 ≡ ok x)
  pub pending : (s : Server F) → (m s).1.pending_acks ≡ s.pending_acks
  pub futures : (s : Server F) → (m s).1.env.futures ≡ s.env.futures

module _ {F : Type 0} where
  IsAside-pure : {A : Type 0} (x : A) → IsAside {F = F} (pure x)
  IsAside-pure x = record { gives = λ s. (x, refl); pending = λ s. refl; futures = λ s. refl }

  IsAside-gets : {A : Type 0} (f : Server F → A) → IsAside (gets f)
  IsAside-gets f = record { gives = λ s. (f s, refl); pending = λ s. refl; futures = λ s. refl }

  IsAside-bind :
      {A B : Type 0} (m : Exec (Server F) A) (f : A → Exec (Server F) B)
      → IsAside m
      → ((x : A) → IsAside (f x))
      → IsAside (m >>= f)
  IsAside-bind m f h k = record {
    gives = λ s. let (x, e) = h.gives s in rw e ((k x).gives (m s).1);
    pending = λ s. let (x, e) = h.gives s in rw e ((k x).pending (m s).1 ∙ h.pending s);
    futures = λ s. let (x, e) = h.gives s in rw e ((k x).futures (m s).1 ∙ h.futures s);
  }

  IsAside-seq :
      {B : Type 0} (m : Exec (Server F) Unit) (k : Exec (Server F) B)
      → IsAside m
      → IsAside k
      → IsAside (m >> k)
  IsAside-seq m k h hk = IsAside-bind m (λ _. k) h (λ _. hk)

  IsAside-monotonic : IsAside (monotonic {F = F})
  unfolding monotonic
  IsAside-monotonic = record { gives = λ s. (_, refl); pending = λ s. refl; futures = λ s. refl }

  IsAside-observe : (name : String) (v : F) → IsAside (observe name v)
  unfolding observe
  IsAside-observe name v = record {
    gives = λ s. (tt, refl);
    pending = λ s. refl;
    futures = λ s. refl;
  }

module _ {F : Type 0} ⦃fl : Floats F⦄ where
  IsAside-forget_tracking : (id : String) → IsAside (forget_tracking {F = F} id)
  unfolding forget_tracking
  IsAside-forget_tracking id = record {
    gives = λ s. (tt, refl);
    pending = λ s. refl;
    futures = λ s. refl;
  }

  IsAside-store_group : (id : String) (g : CommandGroup F) → IsAside (store_group id g)
  unfolding store_group
  IsAside-store_group id g = record {
    gives = λ s. (tt, refl);
    pending = λ s. refl;
    futures = λ s. refl;
  }

ruleset aside_rules = (
  IsAside-pure, IsAside-gets, IsAside-bind, IsAside-seq, IsAside-monotonic, IsAside-observe,
  IsAside-forget_tracking, IsAside-store_group,
)

module _ {F : Type 0} ⦃fl : Floats F⦄ where
  IsAside-observe_delay :
      (name : String) (o : F) (t x : Option F) → IsAside (observe_delay name o t x)
  unfolding observe_delay
  IsAside-observe_delay name o none x = search aside_rules
  IsAside-observe_delay name o (some t) none = search aside_rules
  IsAside-observe_delay name o (some t) (some x) = search aside_rules

  IsAside-observe_skew : (xs : List F) → IsAside (observe_skew xs)
  unfolding observe_skew
  IsAside-observe_skew [] = search aside_rules
  IsAside-observe_skew (a ∷ []) = search aside_rules
  IsAside-observe_skew (a ∷ b ∷ xs) = search aside_rules

  IsAside-note_apply :
      (id r : String) (x : F) (g : Option (CommandGroup F)) → IsAside (note_apply id r x g)
  unfolding note_apply
  IsAside-note_apply id r x none = search aside_rules
  IsAside-note_apply id r x (some g) = search (aside_rules, IsAside-observe_skew)

  IsAside-note_command :
      (r : String) (t : Tracking F) (o : F) (ts x : Option F) → IsAside (note_command r t o ts x)
  unfolding note_command
  IsAside-note_command r t o none x = search aside_rules
  IsAside-note_command r t o (some ts) none = search aside_rules
  IsAside-note_command r t o (some ts) (some x) = search (aside_rules, IsAside-note_apply)

  IsAside-observe_tracked :
      (r : String) (p : Fields F) (t : Option (Tracking F)) → IsAside (observe_tracked r p t)
  unfolding observe_tracked
  IsAside-observe_tracked r p none = search aside_rules
  IsAside-observe_tracked r p (some t) =
      search (aside_rules, IsAside-observe_delay, IsAside-note_command) depth 12

  IsAside-observe_resolved :
      (r : String) (p : Fields F) (e : Option (PendingAck F)) → IsAside (observe_resolved r p e)
  unfolding observe_resolved observe_ack_timing
  IsAside-observe_resolved r p none = search aside_rules
  IsAside-observe_resolved r p (some e) = search (aside_rules, IsAside-observe_tracked) depth 20

  -- the payload of an ACK
  abbrev ack_fields : (receive_ts : F) → Message F → String → Option F → Fields F
  ack_fields receive_ts m receiver apply_ts = field "reply_to" (str m.msg_id) (
      field "receiver_id" (str receiver) (
        field "receive_ts" (float receive_ts) (
          field "apply_ts" (opt_float apply_ts)
            (field "status" (str "ok") (field "error_code" null end)))))

  -- the server behind the entry that is resolved
  abbrev settled : (key : String × String) → PendingAck F → Value F → Server F → Server F
  settled key entry v s = record s {
    pending_acks = record s.pending_acks { pending = Dict.remove key s.pending_acks.pending };
    env = record s.env { futures = set_result entry.future v s.env.futures };
  }

  resolve_pending-found :
      (reply_to receiver : String) (v : Value F) (s : Server F) {entry : PendingAck F}
      → Dict.get (reply_to, receiver) s.pending_acks.pending ≡ some entry
      → resolve_pending reply_to receiver v s
        ≡ (ok (some entry), settled (reply_to, receiver) entry v s)
  unfolding resolve_pending resolve_entry
  resolve_pending-found reply_to receiver v s found = rw (found, resolve_entry) refl

  set_result-waiting :
      (o : Option ℕ) (v : Value F) (fs : Futures F) {n : ℕ}
      → o ≡ some n
      → fs n ≡ waiting
      → set_result o v fs n ≡ resolved v
  unfolding set_result
  set_result-waiting o v fs e waits = rw e (ground arith)

  -- what `handle_ack` does with what the ACK says
  take_ack : (reply_to receiver : String) → Fields F → Value F → Exec (Server F) Unit
  take_ack reply_to receiver fs v = do
    entry ← resolve_pending reply_to receiver v
    observe_resolved receiver fs entry

  take_ack-settled :
      (reply_to receiver : String) (fs : Fields F) (v : Value F) (s : Server F)
      {entry : PendingAck F}
      → Dict.get (reply_to, receiver) s.pending_acks.pending ≡ some entry
      → let o = take_ack reply_to receiver fs v s in
        let s' = settled (reply_to, receiver) entry v s in
        (o.0 ≡ ok tt) × (o.1.pending_acks ≡ s'.pending_acks) × (o.1.env.futures ≡ s'.env.futures)
  unfolding take_ack
  take_ack-settled reply_to receiver fs v s {entry} found =
      let s' = settled (reply_to, receiver) entry v s in
      let aside = IsAside-observe_resolved receiver fs (some entry) in
      rw (resolve_pending-found reply_to receiver v s found)
        ((aside.gives s').1, aside.pending s', aside.futures s')

  -- An ACK that `make_ack` makes for a message, received from anyone, when its receiver's entry for
  -- the message waits: the server raises nothing, the future of the command gets the ACK's payload,
  -- the entry is gone and the rest of the pending table stays.
  pub handle_ack-make_ack :
      (from : String) (now receive_ts : F) (id : String) (m : Message F) (receiver : String)
      (apply_ts : Option F) (s : Server F) {entry : PendingAck F} {n : ℕ}
      → Dict.get (m.msg_id, receiver) s.pending_acks.pending ≡ some entry
      → entry.future ≡ some n
      → s.env.futures n ≡ waiting
      → let ack = make_ack now receive_ts id m receiver apply_ts in
        let o = handle_ack from ack s in
        (o.0 ≡ ok tt)
        × (o.1.pending_acks.pending ≡ Dict.remove (m.msg_id, receiver) s.pending_acks.pending)
        × (o.1.env.futures n ≡ resolved ack.payload)
  unfolding handle_ack make_ack take_ack
  handle_ack-make_ack from now receive_ts id m receiver apply_ts s {entry} {n} found future waits =
      let ack = make_ack now receive_ts id m receiver apply_ts in
      let h =
        take_ack-settled m.msg_id receiver (ack_fields receive_ts m receiver apply_ts) ack.payload s
          found in
      (
        h.0,
        ap (λ (t : PendingAckManager F). t.pending) h.1,
        ap (λ (fs : Futures F). fs n) h.2
            ∙ set_result-waiting entry.future ack.payload s.env.futures future waits,
      )
