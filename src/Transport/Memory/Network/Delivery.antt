-- ===== src/Transport/Memory/Network/Delivery.antt =====
-- What the ends of psyexp_net/transport/memory.py deliver on one hub, in any order of their calls.
use psyexp_net.Prelude.{
  ap, sym, ◌∙◌, ◌⊎◌, false, String, true, none, some, List, [], ◌∷◌, ◌++◌, map, ◌==◌, ◌≡◌, refl,
  inl, inr, arith, Bool-cases, Option-cases, append-nil, append_assoc, eq_iff, string_eq,
}
use psyexp_net.Prelude.Dict
use psyexp_net.Prelude.Dict.{Dict}
use psyexp_net.Transport.Memory.{
  Queue, ensure_client, remove_client, server_send, server_broadcast, server_recv, client_send,
  client_recv,
}
use psyexp_net.Transport.Memory.Backends.{server_backend, client_backend}
use psyexp_net.Transport.Memory.Network.{
  Operation, server_sends, server_broadcasts, server_receives, client_starts, client_stops,
  client_receives, client_sends, Network, perform, taken, run, addressed, all_addressed, stays,
}

List-cases : {A : Type 0} (xs : List A) → (xs ≡ []) ⊎ ((x : A) × (ys : List A) × (xs ≡ x ∷ ys))
List-cases [] = inl refl
List-cases (x ∷ xs) = inr (x, xs, refl)

chained :
    {A : Type 0} (t r l h d q c : List A)
    → t ++ h ≡ q ++ c
    → r ++ l ≡ h ++ d
    → (t ++ r) ++ l ≡ q ++ (c ++ d)
chained t r l h d q c first rest =
    append_assoc t r l
    ∙ ap (λ xs. t ++ xs) rest
    ∙ sym (append_assoc t h d)
    ∙ ap (λ xs. xs ++ d) first
    ∙ append_assoc q c d

-- get of a dictionary whose values all change.
get-map :
    {A B : Type 0} (k : String) (f : A → B) (d : Dict String A)
    → Dict.get k (map (λ e. (e.0, f e.1)) d)
      ≡ elim (Dict.get k d) [ none ↦ none | some a ↦ some (f a) ]
unfolding Dict.get
get-map k f [] = refl
get-map k f ((j, a) ∷ d) = elim (Bool-cases (j == k)) [
  | inl same ↦ rw same refl
  | inr other ↦ rw other (get-map k f d)
]

module _ {F : Type 0} where
  -- The queue of `k` is there behind the call, and what was taken and what is left are what was there
  -- and what came.
  record Flows (k : String) (q : Queue F) (o : Operation F) (n : Network F) : Type 0 where
    pub left : Queue F
    pub found : Dict.get k (perform o n).1.hub.client_queues ≡ some left
    pub kept : taken k o (perform o n).0 ++ left ≡ q ++ addressed k o

  same_entry :
      (j k : String) (q : Queue F) (d : Dict String (Queue F))
      → (j == k) ≡ true
      → Dict.get k d ≡ some q
      → Dict.get j d ≡ some q
  same_entry j k q d same at = rw ((eq_iff j k).0 same) at

  Flows-server_recv :
      (k : String) (q : Queue F) (n : Network F)
      → Dict.get k n.hub.client_queues ≡ some q
      → Flows k q server_receives n
  unfolding perform server_backend server_recv
  Flows-server_recv k q n at = elim (List-cases n.hub.server_queue) [
    | inl none_there ↦ record {
      left = q;
      found = rw (server_recv, none_there) at;
      kept = simp append-nil;
    }
    | inr (e, es, there) ↦ record {
      left = q;
      found = rw (server_recv, there) at;
      kept = simp append-nil;
    }
  ]

  Flows-client_recv :
      (k j : String) (q : Queue F) (n : Network F)
      → (j == k) ≡ true
      → Dict.get k n.hub.client_queues ≡ some q
      → Flows k q (client_receives j) n
  unfolding perform client_backend client_recv ensure_client
  Flows-client_recv k j [] n same at =
      let here = same_entry j k [] n.hub.client_queues same at in
      record {
        left = [];
        found = rw (client_recv, here, Dict.get-put, same, here);
        kept = rw (client_recv, here) refl;
      }
  Flows-client_recv k j (e ∷ es) n same at =
      let here = same_entry j k (e ∷ es) n.hub.client_queues same at in
      record {
        left = es;
        found = rw (client_recv, here, Dict.get-put, same);
        kept = rw (client_recv, here, same) (simp append-nil);
      }

  Flows-client_recv_other :
      (k j : String) (q : Queue F) (n : Network F)
      → (j == k) ≡ false
      → Dict.get k n.hub.client_queues ≡ some q
      → Flows k q (client_receives j) n
  unfolding perform client_backend client_recv ensure_client
  Flows-client_recv_other k j q n other at = elim (Option-cases (Dict.get j n.hub.client_queues)) [
    | inl absent ↦ record {
      left = q;
      found = rw (client_recv, absent, Dict.get-put, other) at;
      kept = rw (client_recv, absent) (simp append-nil);
    }
    | inr (p, there) ↦ elim (List-cases p) [
      | inl none_there ↦ record {
        left = q;
        found = rw (client_recv, there, none_there, Dict.get-put, other) at;
        kept = rw (client_recv, there, none_there) (simp append-nil);
      }
      | inr (e, es, full) ↦ record {
        left = q;
        found = rw (client_recv, there, full, Dict.get-put, other) at;
        kept = rw (client_recv, there, full, other) (simp append-nil);
      }
    ]
  ]

  stays_first :
      (k : String) (o : Operation F) (os : List (Operation F))
      → stays k (o ∷ os) ≡ true
      → stays k (o ∷ []) ≡ true
  stays_first k (client_stops j) os on = ground arith
  stays_first k (server_sends j m) os on = refl
  stays_first k (server_broadcasts m) os on = refl
  stays_first k server_receives os on = refl
  stays_first k (client_starts j) os on = refl
  stays_first k (client_receives j) os on = refl
  stays_first k (client_sends j m) os on = refl

  stays_rest :
      (k : String) (o : Operation F) (os : List (Operation F))
      → stays k (o ∷ os) ≡ true
      → stays k os ≡ true
  stays_rest k (client_stops j) os on = ground arith
  stays_rest k (server_sends j m) os on = on
  stays_rest k (server_broadcasts m) os on = on
  stays_rest k server_receives os on = on
  stays_rest k (client_starts j) os on = on
  stays_rest k (client_receives j) os on = on
  stays_rest k (client_sends j m) os on = on

  step :
      (k : String) (q : Queue F) (o : Operation F) (n : Network F)
      → stays k (o ∷ []) ≡ true
      → Dict.get k n.hub.client_queues ≡ some q
      → Flows k q o n
  unfolding perform server_backend client_backend server_send server_broadcast client_send
      ensure_client remove_client
  step k q (server_sends j m) n on at = elim (Bool-cases (j == k)) [
    | inl same ↦
        let here = same_entry j k q n.hub.client_queues same at in
        record {
          left = q ++ record { peer_id = "server"; message = m; channel = "control" } ∷ [];
          found = rw (Dict.get-put, same, here);
          kept = rw same refl;
        }
    | inr other ↦ record {
      left = q;
      found = rw (Dict.get-put, other) at;
      kept = rw other (simp append-nil);
    }
  ]
  step k q (server_broadcasts m) n on at =
      let came = record { peer_id = "server"; message = m; channel = "broadcast" } ∷ [] in
      record {
        left = q ++ came;
        found = rw (get-map k (λ (es : Queue F). es ++ came) n.hub.client_queues, at);
        kept = refl;
      }
  step k q server_receives n on at = Flows-server_recv k q n at
  step k q (client_starts j) n on at = elim (Bool-cases (j == k)) [
    | inl same ↦ record {
      left = q;
      found = rw (Dict.get-put, same, same_entry j k q n.hub.client_queues same at);
      kept = simp append-nil;
    }
    | inr other ↦ record { left = q; found = rw (Dict.get-put, other) at; kept = simp append-nil }
  ]
  step k q (client_stops j) n on at = elim (Bool-cases (j == k)) [
    | inl same ↦ cc (rw same at on)
    | inr other ↦ record {
      left = q;
      found = rw (Dict.get-remove, other) at;
      kept = simp append-nil;
    }
  ]
  step k q (client_receives j) n on at = elim (Bool-cases (j == k)) [
    | inl same ↦ Flows-client_recv k j q n same at
    | inr other ↦ Flows-client_recv_other k j q n other at
  ]
  step k q (client_sends j m) n on at = record { left = q; found = at; kept = simp append-nil }

  -- The client `k` is there and is not stopped, and else the server and the clients call what they
  -- like in any order: what `k` receives, and then what is left in its queue, are what was in its
  -- queue and then what the server has addressed to it, by `send` or by `broadcast`, every message
  -- once and in the order of the calls.
  pub run-all_addressed :
      (k : String) (os : List (Operation F)) (n : Network F) (q : Queue F)
      → stays k os ≡ true
      → Dict.get k n.hub.client_queues ≡ some q
      → (left : Queue F) × (Dict.get k (run k os n).1.hub.client_queues ≡ some left)
        × ((run k os n).0 ++ left ≡ q ++ all_addressed k os)
  unfolding run
  run-all_addressed k [] n q on at = (q, at, simp append-nil)
  run-all_addressed k (o ∷ os) n q on at =
      let here = step k q o n (stays_first k o os on) at in
      let (left, found, kept) =
        run-all_addressed k os (perform o n).1 here.left (stays_rest k o os on) here.found in
      (
        left,
        found,
        chained (taken k o (perform o n).0) (run k os (perform o n).1).0 left here.left
            (all_addressed k os) q (addressed k o) here.kept kept,
      )
