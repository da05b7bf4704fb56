-- ===== src/Timing/Rolling/Window.antt =====
-- The window of RollingLatencyStats, psyexp_net/timing/latency.py.
use psyexp_net.Prelude.{
  ℕ, zero, suc, ◌+◌, ◌-◌, ◌≤◌, List, [], ◌∷◌, ◌++◌, length, length-append, append_assoc, append-nil,
  ◌≡◌, refl, ◌∙◌, ap, arith,
}
use psyexp_net.Timing.Rolling.{new, add, add_all, drop, last_items}

module _ {ℓ} {A : Type ℓ} where
  length-drop : (k : ℕ) (xs : List A) → length (drop k xs) ≡ length xs - k
  unfolding drop
  length-drop zero xs = omega arith
  length-drop (suc k) [] = omega arith
  length-drop (suc k) (x ∷ xs) = omega (arith, length-drop k xs)

  drop-nil : (k : ℕ) → drop {A = A} k [] ≡ []
  unfolding drop
  drop-nil zero = refl
  drop-nil (suc k) = refl

  drop-drop : (k j m : ℕ) (xs : List A) → m ≡ k + j → drop j (drop k xs) ≡ drop m xs
  unfolding drop
  drop-drop zero j m xs e = ap (λ i. drop i xs) (omega (arith, e))
  drop-drop (suc k) j zero xs e = let no : ⊥ = omega (arith, e) in elim no [ ]
  drop-drop (suc k) zero (suc m) [] e = refl
  drop-drop (suc k) (suc j) (suc m) [] e = refl
  drop-drop (suc k) j (suc m) (x ∷ xs) e = drop-drop k j m xs (omega (arith, e))

  drop-append : (k : ℕ) (xs ys : List A) → k ≤ length xs → drop k (xs ++ ys) ≡ drop k xs ++ ys
  unfolding drop
  drop-append zero xs ys h = refl
  drop-append (suc k) [] ys h = let no : ⊥ = omega (arith, h) in elim no [ ]
  drop-append (suc k) (x ∷ xs) ys h = drop-append k xs ys (omega (arith, h))

  last_items-append :
      (n : ℕ) (xs ys : List A) → last_items n (last_items n xs ++ ys) ≡ last_items n (xs ++ ys)
  last_items-append n xs ys =
      let k = length xs - n in
      let joined = drop-append k xs ys (omega arith) in
      rw⁻¹ joined (
        drop-drop k (length (drop k (xs ++ ys)) - n) (length (xs ++ ys) - n) (xs ++ ys)
          (omega (arith, length-drop k (xs ++ ys), length-append xs ys)))

  length-last_items : (n : ℕ) (xs : List A) → length (last_items n xs) ≤ n
  length-last_items n xs = omega (arith, length-drop (length xs - n) xs)

module _ {F : Type 0} where
  add_all-last_items :
      (n : ℕ) (xs vs : List F)
      → (add_all vs (record { max_size = n; values = last_items n xs })).values
        ≡ last_items n (xs ++ vs)
  unfolding add_all add
  add_all-last_items n xs [] = rw append-nil refl
  add_all-last_items n xs (v ∷ vs) =
      ap (λ kept. (add_all vs (record { max_size = n; values = kept })).values)
        (last_items-append n xs (v ∷ []))
      ∙ add_all-last_items n (xs ++ v ∷ []) vs
      ∙ ap (last_items n) (append_assoc xs (v ∷ []) vs)

  -- After any additions to a new window of `n` items it holds the last `n` of them, in order, or all
  -- of them if there are fewer, and so at most `n`.
  pub add_all_lem :
      (n : ℕ) (vs : List F)
      → ((add_all vs (new n)).values ≡ last_items n vs) × (length (add_all vs (new n)).values ≤ n)
  add_all_lem n vs =
      let all = rw (drop-nil (0 - n)) at (add_all-last_items n [] vs) in
      (all, rw all (length-last_items n vs))
