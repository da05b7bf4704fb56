-- ===== src/Exec.antt =====
-- Methods that change an object and may raise: the state comes back beside the exception too, since
-- what was written before a raise stays written.
pub mod Keeps
use psyexp_net.Errors.{Error, Result, ok, err}
use psyexp_net.Prelude.{List, [], ◌∷◌}

abbrev pub Exec {ℓ} : Type ℓ → Type ℓ → Type ℓ
Exec S A = S → Result A × S

module _ {ℓ} {S A : Type ℓ} where
  abbrev pub pure : A → Exec S A
  pure a s = (ok a, s)

  abbrev pub raise : Error → Exec S A
  raise e s = (err e, s)

  abbrev pub lift : Result A → Exec S A
  lift r s = (r, s)

  abbrev pub gets : (S → A) → Exec S A
  gets f s = (ok (f s), s)

module _ {ℓ} {S A B : Type ℓ} where
  -- what follows a value, and what skips the rest after an exception
  abbrev pub after : Result A → S → (A → Exec S B) → Result B × S
  after (ok a) s f = f a s
  after (err e) s f = (err e, s)

module _ {ℓ} {S A B : Type ℓ} where
  infixl 5 ◌>>=◌ ◌>>◌
  abbrev pub ◌>>=◌ : Exec S A → (A → Exec S B) → Exec S B
  ◌>>=◌ m f s = let (r, s') = m s in after r s' f

  abbrev pub ◌>>◌ : Exec S A → Exec S B → Exec S B
  ◌>>◌ m k s = let (r, s') = m s in after r s' (λ _. k)

abbrev pub modify : {S : Type 0} → (S → S) → Exec S Unit
modify f s = (ok tt, f s)

-- for x in xs: f(x), until one raises
unfoldable pub for_each {ℓ} : {S A : Type ℓ} → (A → Exec S (Unit {ℓ})) → List A → Exec S (Unit {ℓ})
for_each f [] s = (ok tt, s)
for_each f (x ∷ xs) s = let (r, s') = f x s in after r s' (λ _. for_each f xs)

-- try: m, except ...: what `m` came to, with the state that it left
abbrev pub attempt {ℓ} : {S A : Type ℓ} → Exec S A → Exec S (Result A)
attempt m s = let (r, s') = m s in (ok r, s')

-- try: m, finally: n. What `n` raises replaces what `m` raised.
abbrev pub try_finally {ℓ} : {S A B : Type ℓ} → Exec S A → Exec S B → Exec S (A × B)
try_finally m n s =
    let (r, s') = m s in
    let (t, s'') = n s' in
    (elim t [ err e ↦ err e | ok b ↦ elim r [ err e ↦ err e | ok a ↦ ok (a, b) ] ], s'')
