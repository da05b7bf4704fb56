-- ===== src/Driver/Steps.antt =====
-- What a part of a driving program adds to the calls, and what a `finally` adds behind it.
use psyexp_net.Prelude.{
  Bool, true, false, none, some, List, [], ◌∷◌, ◌++◌, append_assoc, All, All-append, ◌≡◌, refl, sym,
  ap, ◌∙◌, inl, inr, Option-cases, if◌then◌else◌,
}
use psyexp_net.Driver.{
  Call, Answers, World, call, now, server_start, server_shutdown, client_connect, client_close,
  discovery_open, discovery_register, discovery_close,
}
use psyexp_net.Errors.{Error, Result, ok, err}
use psyexp_net.Exec.{Exec, pure, lift, gets, after, ◌>>=◌, ◌>>◌, for_each}

-- The calls that start or connect something, and those that stop or close it.
abbrev pub is_opening : {F : Type 0} → Call F → Bool
is_opening server_start = true
is_opening (client_connect _) = true
is_opening discovery_open = true
is_opening discovery_register = true
is_opening _ = false

abbrev pub is_closing : {F : Type 0} → Call F → Bool
is_closing server_shutdown = true
is_closing (client_close _) = true
is_closing discovery_close = true
is_closing _ = false

-- a call that neither starts nor stops anything
abbrev pub IsStep : {F : Type 0} → Call F → Type 0
IsStep c = (is_opening c ≡ false) × (is_closing c ≡ false)

-- a call that stops nothing
abbrev pub IsOpen : {F : Type 0} → Call F → Type 0
IsOpen c = is_closing c ≡ false

-- The calls that are made between two states all are of a kind.
pub record Adds {F : Type 0} (P : Call F → Type 0) (v w : World F) : Type 0 where
  pub steps : List (Call F)
  pub made : w.calls ≡ steps ++ v.calls
  pub kind : All P steps

pub record Makes {A F : Type 0} (P : Call F → Type 0) (m : Exec (World F) A) : Type 0 where
  pub at : (w : World F) → Adds P w (m w).1

module _ {F : Type 0} {P : Call F → Type 0} where
  pub Adds-refl : (w : World F) → Adds P w w
  Adds-refl w = record { steps = []; made = refl; kind = tt }

  pub Adds-trans : {u v w : World F} → Adds P u v → Adds P v w → Adds P u w
  Adds-trans {u} {v} {w} x y = record {
    steps = y.steps ++ x.steps;
    made = y.made ∙ ap (λ l. y.steps ++ l) x.made ∙ sym (append_assoc y.steps x.steps u.calls);
    kind = All-append P y.steps x.steps y.kind x.kind;
  }

  pub Makes-pure : {A : Type 0} (x : A) → Makes P (pure x)
  Makes-pure x = record { at = λ w. Adds-refl w }

  pub Makes-lift : {A : Type 0} (r : Result A) → Makes P (lift r)
  Makes-lift r = record { at = λ w. Adds-refl w }

  pub Makes-gets : {A : Type 0} (f : World F → A) → Makes P (gets f)
  Makes-gets f = record { at = λ w. Adds-refl w }

  pub Makes-call : (a : Answers F) (c : Call F) → P c → Makes P (call a c)
  unfolding call
  Makes-call a c p = record { at = λ w. record { steps = c ∷ []; made = refl; kind = (p, tt) } }

  pub Makes-now : (a : Answers F) → Makes P (now a)
  unfolding now
  Makes-now a = record { at = λ w. record { steps = []; made = refl; kind = tt } }

  pub Makes-if :
      {A : Type 0} (b : Bool) (m n : Exec (World F) A)
      → Makes P m
      → Makes P n
      → Makes P (if b then m else n)
  Makes-if true m n km kn = km
  Makes-if false m n km kn = kn

  pub Makes-elim :
      {A : Type 0} (b : Bool) (m n : Exec (World F) A)
      → Makes P m
      → Makes P n
      → Makes P (elim b [ true ↦ m | false ↦ n ])
  Makes-elim true m n km kn = km
  Makes-elim false m n km kn = kn

  Adds-after :
      {A B : Type 0} (r : Result A) (f : A → Exec (World F) B)
      → ((x : A) → Makes P (f x))
      → (w : World F) → Adds P w (after r w f).1
  Adds-after (ok x) f kf w = (kf x).at w
  Adds-after (err e) f kf w = Adds-refl w

  pub Makes-bind :
      {A B : Type 0} (m : Exec (World F) A) (f : A → Exec (World F) B)
      → Makes P m
      → ((x : A) → Makes P (f x))
      → Makes P (m >>= f)
  Makes-bind m f km kf = record {
    at = λ w. let (r, w') = m w in Adds-trans (km.at w) (Adds-after r f kf w');
  }

  pub Makes-seq :
      {B : Type 0} (m : Exec (World F) Unit) (k : Exec (World F) B)
      → Makes P m
      → Makes P k
      → Makes P (m >> k)
  Makes-seq m k km kk = record {
    at = λ w. let (r, w') = m w in Adds-trans (km.at w) (Adds-after r (λ _. k) (λ _. kk) w');
  }

  pub Makes-for_each :
      {A : Type 0} (f : A → Exec (World F) Unit) (xs : List A)
      → ((x : A) → Makes P (f x))
      → Makes P (for_each f xs)
  unfolding for_each
  Makes-for_each f [] kf = record { at = λ w. Adds-refl w }
  Makes-for_each f (x ∷ xs) kf = Makes-seq (f x) (for_each f xs) (kf x) (Makes-for_each f xs kf)

-- a call that is made only if a test holds
abbrev pub also {ℓ} : {C : Type ℓ} → Bool → C → List C → List C
also true c cs = c ∷ cs
also false c cs = cs

-- What follows without a call leaves the state.
pub after-pure :
    {S A B : Type 0} (r : Result A) (s : S) (f : A → B) → (after r s (λ x. pure (f x))).1 ≡ s
after-pure (ok x) s f = refl
after-pure (err e) s f = refl

module _ {F : Type 0} (a : Answers F) where
  -- A call that does not raise, and what comes behind it.
  pub call-seq :
      {B : Type 0} (c : Call F) (k : Exec (World F) B) (w : World F)
      → a.raises (c ∷ w.calls) ≡ none
      → (call a c >> k) w ≡ k (record w { calls = c ∷ w.calls })
  unfolding call
  call-seq c k w h = rw h refl

  pub call-seq-if :
      {B : Type 0} (b : Bool) (c : Call F) (k : Exec (World F) B) (w : World F)
      → a.raises (c ∷ w.calls) ≡ none
      → ((if b then call a c else pure tt) >> k) w ≡ k (record w { calls = also b c w.calls })
  call-seq-if true c k w h = call-seq c k w h
  call-seq-if false c k w h = refl

  -- A call whose test holds.
  pub call-seq-if_true :
      {B : Type 0} (b : Bool) (c : Call F) (k : Exec (World F) B) (w : World F)
      → b ≡ true
      → a.raises (c ∷ w.calls) ≡ none
      → ((if b then call a c else pure tt) >> k) w ≡ k (record w { calls = c ∷ w.calls })
  call-seq-if_true b c k w t h = rw t (call-seq c k w h)

  -- A call whose test holds, and which raises.
  pub call-seq-if_raises :
      {B : Type 0} (b : Bool) (c : Call F) (k : Exec (World F) B) (w : World F) {e : Error}
      → b ≡ true
      → a.raises (c ∷ w.calls) ≡ some e
      → ((if b then call a c else pure tt) >> k) w ≡ (err e, record w { calls = c ∷ w.calls })
  unfolding call
  call-seq-if_raises b c k w t h = rw (t, h) refl

pub ruleset makes_rules = (
  Makes-pure, Makes-lift, Makes-gets, Makes-call, Makes-now, Makes-if, Makes-bind, Makes-seq,
  Makes-for_each,
)

-- What holds of the result and the state behind a part, if it has not raised.
abbrev pub Ends : {A F : Type 0} → (A → World F → Type 0) → Result A × World F → Type 0
Ends P (ok x, w) = P x w
Ends P (err e, w) = Unit

module _ {F B : Type 0} (P : B → World F → Type 0) where
  pub Ends-after :
      {A : Type 0} (r : Result A) (w : World F) (f : A → Exec (World F) B)
      → Ends (λ x v. Ends P (f x v)) (r, w)
      → Ends P (after r w f)
  Ends-after (ok x) w f h = h
  Ends-after (err e) w f h = tt

  pub Ends-bind :
      {A : Type 0} (m : Exec (World F) A) (f : A → Exec (World F) B) (w : World F)
      → Ends (λ x v. Ends P (f x v)) (m w)
      → Ends P ((m >>= f) w)
  Ends-bind m f w h = Ends-after (m w).0 (m w).1 f h

  pub Ends-weaken :
      (Q : B → World F → Type 0) (o : Result B × World F)
      → ((x : B) (v : World F) → Q x v → P x v)
      → Ends Q o
      → Ends P o
  Ends-weaken Q (ok x, w) k h = k x w h
  Ends-weaken Q (err e, w) k h = tt

  -- A call, if what follows holds behind it.
  pub Ends-call :
      (a : Answers F) (c : Call F) (k : Exec (World F) B) (w : World F)
      → Ends P (k (record w { calls = c ∷ w.calls }))
      → Ends P ((call a c >> k) w)
  unfolding call
  Ends-call a c k w h = elim (Option-cases (a.raises (c ∷ w.calls))) [
    | inl n ↦ rw n h
    | inr (e, n) ↦ rw n tt
  ]
