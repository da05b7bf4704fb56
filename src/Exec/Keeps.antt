-- ===== src/Exec/Keeps.antt =====
-- Invariants of methods: what holds of the object before a call holds after it, also if it raised.
use psyexp_net.Errors.{Error, Result, ok, err}
use psyexp_net.Exec.{Exec, pure, raise, lift, gets, modify, after, ◌>>=◌, ◌>>◌, for_each, attempt}
use psyexp_net.Prelude.{Bool, true, false, List, [], ◌∷◌, if◌then◌else◌}

pub record Keeps {A S : Type 0} (P : S → Type 0) (m : Exec S A) : Type 0 where
  pub at : (s : S) → P s → P (m s).1

module _ {S : Type 0} {P : S → Type 0} where
  pub Keeps-pure : {A : Type 0} (a : A) → Keeps P (pure a)
  Keeps-pure a = record { at = λ s h. h }

  pub Keeps-raise : {A : Type 0} (e : Error) → Keeps P (raise {A = A} e)
  Keeps-raise e = record { at = λ s h. h }

  pub Keeps-lift : {A : Type 0} (r : Result A) → Keeps P (lift r)
  Keeps-lift r = record { at = λ s h. h }

  pub Keeps-gets : {A : Type 0} (f : S → A) → Keeps P (gets f)
  Keeps-gets f = record { at = λ s h. h }

  pub Keeps-modify : (f : S → S) → ((s : S) → P s → P (f s)) → Keeps P (modify f)
  Keeps-modify f k = record { at = k }

  pub Keeps-if :
      {A : Type 0} (b : Bool) (m n : Exec S A)
      → Keeps P m
      → Keeps P n
      → Keeps P (if b then m else n)
  Keeps-if true m n km kn = km
  Keeps-if false m n km kn = kn

  Keeps-after :
      {A B : Type 0} (r : Result A) (f : A → Exec S B)
      → ((a : A) → Keeps P (f a))
      → (s : S) → P s
      → P (after r s f).1
  Keeps-after (ok a) f kf s h = (kf a).at s h
  Keeps-after (err e) f kf s h = h

  pub Keeps-bind :
      {A B : Type 0} (m : Exec S A) (f : A → Exec S B)
      → Keeps P m
      → ((a : A) → Keeps P (f a))
      → Keeps P (m >>= f)
  Keeps-bind m f km kf = record {
    at = λ s h. let (r, s') = m s in Keeps-after r f kf s' (km.at s h);
  }

  pub Keeps-seq :
      {B : Type 0} (m : Exec S Unit) (k : Exec S B) → Keeps P m → Keeps P k → Keeps P (m >> k)
  Keeps-seq m k km kk = record {
    at = λ s h. let (r, s') = m s in Keeps-after r (λ _. k) (λ _. kk) s' (km.at s h);
  }

  pub Keeps-attempt : {A : Type 0} (m : Exec S A) → Keeps P m → Keeps P (attempt m)
  Keeps-attempt m km = record { at = km.at }

  pub Keeps-for_each :
      {A : Type 0} (f : A → Exec S Unit) (xs : List A)
      → ((a : A) → Keeps P (f a))
      → Keeps P (for_each f xs)
  unfolding for_each
  Keeps-for_each f [] kf = record { at = λ s h. h }
  Keeps-for_each f (x ∷ xs) kf = Keeps-seq (f x) (for_each f xs) (kf x) (Keeps-for_each f xs kf)

pub ruleset keeps_rules = (
  Keeps-pure, Keeps-raise, Keeps-lift, Keeps-gets, Keeps-if, Keeps-bind, Keeps-seq, Keeps-attempt,
  Keeps-for_each,
)
