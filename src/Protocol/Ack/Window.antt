-- ===== src/Protocol/Ack/Window.antt =====
-- The window of psyexp_net/protocol/ack.py's MessageDeduplicator, against the full history of ids.
use mathlib.Core.List.{foldl}
use psyexp_net.Prelude.{
  String, ℕ, zero, suc, ◌≤◌, true, false, List, [], ◌∷◌, ◌++◌, length, take, contains, ltb, ◌≡◌,
  refl, ap, sym, ◌∙◌, arith, inl, inr, Bool-cases, ◌==◌, ◌||◌, string_eq, eq_iff, if◌then◌else◌,
  length-append, length-take-le, append-nil,
}
use psyexp_net.Protocol.Ack.{MessageDeduplicator, drop_first, without, seen}

-- A list from its end to its start.
pub newest_first : List String → List String
newest_first [] = []
newest_first (x ∷ xs) = newest_first xs ++ x ∷ []

-- The history of every id ever seen, most recently seen first.
unfoldable pub note : List String → String → List String
note history msg_id = msg_id ∷ without msg_id history

-- The deduplicator after a sequence of messages.
unfoldable pub run : List String → MessageDeduplicator → MessageDeduplicator
run [] d = d
run (x ∷ xs) d = run xs (seen x d).1

abbrev IsDistinct : List String → Type 0
IsDistinct [] = Unit
IsDistinct (x ∷ xs) = (contains x xs ≡ false) × IsDistinct xs

newest_first-append :
    (xs : List String) (x : String) → newest_first (xs ++ x ∷ []) ≡ x ∷ newest_first xs
unfolding newest_first
newest_first-append [] x = refl
newest_first-append (y ∷ xs) x = rw (newest_first-append xs x)

without-append :
    (x : String) (xs ys : List String) → without x (xs ++ ys) ≡ without x xs ++ without x ys
without-append x [] ys = refl
without-append x (y ∷ xs) ys = ground (arith, without-append x xs ys)

newest_first-without :
    (x : String) (xs : List String) → newest_first (without x xs) ≡ without x (newest_first xs)
unfolding newest_first
newest_first-without x [] = refl
newest_first-without x (y ∷ xs) = elim (Bool-cases (x == y)) [
  | inl t ↦
      rw (without-append x (newest_first xs) (y ∷ []), t, append-nil) (newest_first-without x xs)
  | inr f ↦
      rw (without-append x (newest_first xs) (y ∷ []), f)
        (ap (λ l. l ++ y ∷ []) (newest_first-without x xs))
]

pub contains-append :
    (x : String) (xs ys : List String) → contains x (xs ++ ys) ≡ (contains x xs || contains x ys)
contains-append x [] ys = refl
contains-append x (y ∷ xs) ys = ground (arith, contains-append x xs ys)

contains-newest_first :
    (x : String) (xs : List String) → contains x (newest_first xs) ≡ contains x xs
unfolding newest_first
contains-newest_first x [] = refl
contains-newest_first x (y ∷ xs) =
    ground (arith, contains-append x (newest_first xs) (y ∷ []), contains-newest_first x xs)

length-newest_first : (xs : List String) → length (newest_first xs) ≡ length xs
unfolding newest_first
length-newest_first [] = refl
length-newest_first (y ∷ xs) =
    omega (arith, length-append (newest_first xs) (y ∷ []), length-newest_first xs)

take-append : (xs ys : List String) → take (length xs) (xs ++ ys) ≡ xs
take-append [] ys = refl
take-append (x ∷ xs) ys = ap (◌∷◌ x) (take-append xs ys)

newest_first-drop_first :
    (x : String) (xs : List String)
    → newest_first (drop_first (xs ++ x ∷ [])) ≡ take (length xs) (x ∷ newest_first xs)
unfolding newest_first
newest_first-drop_first x [] = refl
newest_first-drop_first x (y ∷ xs) =
    rw (newest_first-append xs x)
      (ap (◌∷◌ x) (sym (rw (← length-newest_first xs) (take-append (newest_first xs) (y ∷ [])))))

without_absent : (x : String) (xs : List String) → contains x xs ≡ false → without x xs ≡ xs
without_absent x [] h = refl
without_absent x (y ∷ xs) h = ground (arith, without_absent x xs)

contains-take :
    (x : String) (n : ℕ) (xs : List String) → contains x xs ≡ false → contains x (take n xs) ≡ false
contains-take x zero xs h = refl
contains-take x (suc n) [] h = refl
contains-take x (suc n) (y ∷ xs) h = ground (arith, contains-take x n xs)

contains-without : (x : String) (xs : List String) → contains x (without x xs) ≡ false
contains-without x [] = refl
contains-without x (y ∷ xs) = ground (arith, contains-without x xs)

contains-without_absent :
    (x y : String) (xs : List String) → contains y xs ≡ false → contains y (without x xs) ≡ false
contains-without_absent x y [] h = refl
contains-without_absent x y (z ∷ xs) h = ground (arith, contains-without_absent x y xs)

without-IsDistinct : (x : String) (xs : List String) → IsDistinct xs → IsDistinct (without x xs)
without-IsDistinct x [] h = tt
without-IsDistinct x (y ∷ xs) h = elim (Bool-cases (x == y)) [
  | inl t ↦ rw t (without-IsDistinct x xs h.1)
  | inr f ↦ rw f (contains-without_absent x y xs h.0, without-IsDistinct x xs h.1)
]

note-IsDistinct : (h : List String) (x : String) → IsDistinct h → IsDistinct (note h x)
unfolding note
note-IsDistinct h x d = (contains-without x h, without-IsDistinct x h d)

-- An id of the window moves to the front and nothing leaves.
take-without_present :
    (x : String) (m : ℕ) (h : List String)
    → IsDistinct h
    → contains x (take (suc m) h) ≡ true
    → take m (without x h) ≡ without x (take (suc m) h)
take-without_present x m [] d c = cc
take-without_present x zero (y ∷ h) d c = ground arith
take-without_present x (suc m) (y ∷ h) d c = elim (Bool-cases (x == y)) [
  | inl t ↦
      let gone : contains x h ≡ false = rw ((eq_iff x y).0 t) d.0 in
      rw t (
        rw (
          without_absent x h gone,
          without_absent x (take (suc m) h) (contains-take x (suc m) h gone),
        ))
  | inr f ↦ rw f (ap (◌∷◌ y) (take-without_present x m h d.1 (rw f at c)))
]

-- An id that is not in the window enters it, and at most the oldest leaves.
take-without_absent :
    (x : String) (m : ℕ) (h : List String)
    → contains x (take m h) ≡ false
    → take m (without x h) ≡ take m h
take-without_absent x zero h c = refl
take-without_absent x (suc m) [] c = refl
take-without_absent x (suc m) (y ∷ h) c = ground (arith, take-without_absent x m h)

take-nil : (n : ℕ) → newest_first [] ≡ take n []
unfolding newest_first
take-nil zero = refl
take-nil (suc n) = refl

take-take : (n : ℕ) (xs : List String) → take n (take (suc n) xs) ≡ take n xs
take-take zero xs = refl
take-take (suc n) [] = refl
take-take (suc n) (x ∷ xs) = ap (◌∷◌ x) (take-take n xs)

take-short : (k : ℕ) (items : List String) → length items ≤ k → take k items ≡ items
take-short zero [] fits = refl
take-short (suc k) [] fits = refl
take-short zero (y ∷ items) fits = absurd (omega arith)
take-short (suc k) (y ∷ items) fits = simp (take-short k items (omega arith))

-- What links a deduplicator to a history: the window is the head of the history.
pub record Tracks (n : ℕ) (d : MessageDeduplicator) (history : List String) : Type 0 where
  pub size : d.max_size ≡ n
  pub window : newest_first d.items ≡ take n history
  pub distinct : IsDistinct history

seen-eq-contains :
    (n : ℕ) (x : String) {d : MessageDeduplicator} {h : List String}
    → Tracks n d h
    → (seen x d).0 ≡ contains x (take n h)
unfolding seen
seen-eq-contains n x {d} t = rw (← t.window, contains-newest_first x d.items) (ground arith)

-- After a hit, and after a miss, the window is the head of the new history.
hit_window :
    (n : ℕ) (x : String) (items h : List String)
    → newest_first items ≡ take n h
    → IsDistinct h
    → contains x items ≡ true
    → newest_first (without x items ++ x ∷ []) ≡ take n (note h x)
unfolding note
hit_window zero x items h w d c = cc (contains-newest_first x items)
hit_window (suc m) x items h w d c =
    rw (newest_first-append (without x items) x, newest_first-without x items, w)
      (ap (◌∷◌ x) (sym (take-without_present x m h d (rw (← w, contains-newest_first x items) c))))

take-enter :
    (n : ℕ) (x : String) (h : List String)
    → contains x (take n h) ≡ false
    → take n (x ∷ take n h) ≡ take n (x ∷ without x h)
take-enter zero x h c = refl
take-enter (suc m) x h c = ap (◌∷◌ x) (
    take-take m h
    ∙ sym (take-without_absent x m h (rw (← take-take m h) (contains-take x m (take (suc m) h) c))))

miss_window :
    (n : ℕ) (x : String) (items h : List String)
    → newest_first items ≡ take n h
    → contains x items ≡ false
    → newest_first (let all = items ++ x ∷ [] in if ltb n (length all) then drop_first all else all)
      ≡ take n (note h x)
unfolding note
miss_window n x items h w c =
    let size : length items ≡ length (take n h) = sym (length-newest_first items) ∙ ap length w in
    let enter = take-enter n x h (rw (← w, contains-newest_first x items) c) in
    elim (Bool-cases (ltb n (length (items ++ x ∷ [])))) [
      | inl over ↦
          let full : length items ≡ n =
            ground (arith, length-append items (x ∷ []), length-take-le n h) in
          rw (over, newest_first-drop_first x items, w, full) enter
      | inr fits ↦
          let room : suc (length (take n h)) ≤ n = ground (arith, length-append items (x ∷ [])) in
          rw (fits, newest_first-append items x, w) (sym (take-short n (x ∷ take n h) room) ∙ enter)
    ]

seen-Tracks :
    (n : ℕ) (x : String) {d : MessageDeduplicator} {h : List String}
    → Tracks n d h
    → Tracks n (seen x d).1 (note h x)
unfolding seen
seen-Tracks n x {d} {h} t = elim (Bool-cases (contains x d.items)) [
  | inl hit ↦ rw hit (record {
    size = t.size;
    window = hit_window n x d.items h t.window t.distinct hit;
    distinct = note-IsDistinct h x t.distinct;
  })
  | inr miss ↦ rw miss (record {
    size = t.size;
    window = rw t.size (miss_window n x d.items h t.window miss);
    distinct = note-IsDistinct h x t.distinct;
  })
]

run-Tracks :
    (n : ℕ) (xs : List String) {d : MessageDeduplicator} {h : List String}
    → Tracks n d h
    → Tracks n (run xs d) (foldl note h xs)
unfolding run
run-Tracks n [] t = t
run-Tracks n (x ∷ xs) t = run-Tracks n xs (seen-Tracks n x t)

abbrev pub fresh : ℕ → MessageDeduplicator
fresh n = record { max_size = n; items = [] }

-- After any messages, the window of a deduplicator made for `n` ids holds exactly the `n` most
-- recently seen distinct ids, and so at most `n`, and the next message is reported as seen exactly
-- when its id is among those.
pub seen_window :
    (n : ℕ) (ids : List String) (x : String)
    → (newest_first (run ids (fresh n)).items ≡ take n (foldl note [] ids))
      × ((seen x (run ids (fresh n))).0 ≡ contains x (take n (foldl note [] ids)))
      × (length (run ids (fresh n)).items ≤ n)
seen_window n ids x =
    let t =
      run-Tracks n ids {d = fresh n} {h = []}
        (record { size = refl; window = take-nil n; distinct = tt }) in
    (
      t.window,
      seen-eq-contains n x t,
      omega (
        arith,
        length-newest_first (run ids (fresh n)).items,
        ap length t.window,
        length-take-le n (foldl note [] ids),
      ),
    )
