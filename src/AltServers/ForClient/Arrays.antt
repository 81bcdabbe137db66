-- ===== src/AltServers/ForClient/Arrays.antt =====
-- Entering a value into an array of limited size is inserting it into the list of its entries in use
-- and cutting that off.
use dnbd3_fuse_lowlevel.Prelude.{
  ◌∙◌, ℕ, zero, suc, ◌+◌, ◌-◌, ◌≤◌, ◌<◌, ◌≡◌, List, [], ◌∷◌, ◌++◌, true, false, ◌&&◌, ltb, if_cases,
  set, take, length, length-set, arith, refl, ap, sym, Bool-cases, inl, inr,
}
use dnbd3_fuse_lowlevel.AltServers.ForClient.{push, shift_up, enter}

module _ {ℓ} {A : Type ℓ} where
  -- The value `v` at place `j`.
  unfoldable pub insert_at : ℕ → A → List A → List A
  insert_at zero v xs = v ∷ xs
  insert_at (suc j) v [] = v ∷ []
  insert_at (suc j) v (x ∷ xs) = x ∷ insert_at j v xs

  -- The array begins with the list and has `size` places.
  abbrev pub Holds : ℕ → List A → List A → Type ℓ
  Holds size arr xs = (rest : List A) × (arr ≡ xs ++ rest) × (size ≤ length arr)

  length-push : (n : ℕ) (x : A) (ys : List A) → length (push n x ys) ≡ length ys
  unfolding push
  length-push zero x ys = refl
  length-push (suc n) x [] = refl
  length-push (suc n) x (y ∷ ys) = ap suc (length-push n y ys)

  length-shift_up : (size j : ℕ) (xs : List A) → length (shift_up size j xs) ≡ length xs
  unfolding shift_up
  length-shift_up size j [] = refl
  length-shift_up size zero (x ∷ xs) = ap suc (length-push (size - 1) x xs)
  length-shift_up size (suc j) (x ∷ xs) = ap suc (length-shift_up (size - 1) j xs)

  length-enter :
      (size count j : ℕ) (v : A) (xs : List A) → length (enter size count j v xs) ≡ length xs
  unfolding enter
  length-enter size count j v xs =
      if_cases (λ (ys : List A). length (set ys j v) ≡ length xs) (ltb j count && ltb (j + 1) size)
        (shift_up size j xs) xs (length-set (shift_up size j xs) j v ∙ length-shift_up size j xs)
        (length-set xs j v)

  pub take_nil : (n : ℕ) → take {A = A} n [] ≡ []
  take_nil zero = refl
  take_nil (suc n) = refl

  push_lem :
      (n : ℕ) (x : A) (xs rest : List A)
      → length xs ≤ n
      → n ≤ length (xs ++ rest)
      → (rest' : List A) × (push n x (xs ++ rest) ≡ take n (x ∷ xs) ++ rest')
  unfolding push
  push_lem zero x xs rest short long = (xs ++ rest, refl)
  push_lem (suc n) x [] [] short long = absurd (omega arith)
  push_lem (suc n) x [] (y ∷ rest) short long = (push n y rest, rw (take_nil n) refl)
  push_lem (suc n) x (y ∷ xs) rest short long =
      let (rest', e) = push_lem n y xs rest (omega arith) (omega arith) in
      (rest', ap (λ (zs : List A). x ∷ zs) e)

  enter_cons :
      (size n j : ℕ) (v x : A) (ys : List A)
      → enter (suc size) (suc n) (suc j) v (x ∷ ys) ≡ x ∷ enter size n j v ys
  unfolding enter shift_up
  enter_cons size n j v x ys = elim (Bool-cases (ltb j n && ltb (j + 1) size)) [
    | inl t ↦
        let test : (ltb (suc j) (suc n) && ltb (suc j + 1) (suc size)) ≡ true = ground arith in
        let one : suc size - 1 ≡ size = omega arith in
        rw (t, test) (ap (λ (k : ℕ). x ∷ set (shift_up k j ys) j v) one)
    | inr f ↦
        let test : (ltb (suc j) (suc n) && ltb (suc j + 1) (suc size)) ≡ false = ground arith in
        rw (f, test) refl
  ]

  enter_first :
      (size : ℕ) (v x : A) (xs rest : List A)
      → length xs ≤ size
      → suc size ≤ length (x ∷ (xs ++ rest))
      → (rest' : List A) × (enter (suc size) (suc (length xs)) 0 v (x ∷ (xs ++ rest))
          ≡ take (suc size) (v ∷ (x ∷ xs)) ++ rest')
  unfolding enter shift_up
  enter_first zero v x [] rest fits long = (rest, refl)
  enter_first zero v x (y ∷ xs) rest fits long = absurd (omega arith)
  enter_first (suc size) v x xs rest fits long =
      let test : (ltb 0 (suc (length xs)) && ltb (0 + 1) (suc (suc size))) ≡ true = ground arith in
      let one : suc (suc size) - 1 ≡ suc size = omega arith in
      let (rest', e) = push_lem (suc size) x xs rest fits (omega arith) in
      (
        rest',
        rw test (ap (λ (k : ℕ). v ∷ push k x (xs ++ rest)) one ∙ ap (λ (zs : List A). v ∷ zs) e),
      )

  enter_list :
      (size j : ℕ) (v : A) (xs rest : List A)
      → j ≤ length xs
      → length xs ≤ size
      → j < size
      → size ≤ length (xs ++ rest)
      → (rest' : List A) × (enter size (length xs) j v (xs ++ rest)
          ≡ take size (insert_at j v xs) ++ rest')
  unfolding enter shift_up insert_at
  enter_list zero j v xs rest le fits lt long = absurd (omega arith)
  enter_list (suc size) zero v [] [] le fits lt long = absurd (omega arith)
  enter_list (suc size) zero v [] (r ∷ rest) le fits lt long =
      (rest, ap (λ (ys : List A). v ∷ (ys ++ rest)) (sym (take_nil size)))
  enter_list (suc size) zero v (x ∷ xs) rest le fits lt long =
      enter_first size v x xs rest (omega arith) long
  enter_list (suc size) (suc j) v [] rest le fits lt long = absurd (omega arith)
  enter_list (suc size) (suc j) v (x ∷ xs) rest le fits lt long =
      let (rest', e) =
        enter_list size j v xs rest (omega arith) (omega arith) (omega arith) (omega arith) in
      (rest', enter_cons size (length xs) j v x (xs ++ rest) ∙ ap (λ (ys : List A). x ∷ ys) e)

  -- The array still holds the list.
  pub enter-Holds :
      (size j : ℕ) (v : A) (arr xs : List A)
      → Holds size arr xs
      → j ≤ length xs
      → length xs ≤ size
      → j < size
      → Holds size (enter size (length xs) j v arr) (take size (insert_at j v xs))
  enter-Holds size j v arr xs (rest, e, long) le fits lt =
      let (rest', e') = enter_list size j v xs rest le fits lt (rw (← e) long) in
      (rest', rw e e', omega (arith, length-enter size (length xs) j v arr))
