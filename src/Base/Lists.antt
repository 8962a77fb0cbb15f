-- ===== src/Base/Lists.antt =====
-- Lists measured by native numbers, under the library's names.
use Prim.Native.Nat.{ℕ, zero, suc, ◌+◌, ◌-◌, ◌≤◌, ◌<◌, min}
use mathlib.Core.Path.{◌≡◌, refl, ap, sym, ◌∙◌}
use mathlib.Core.Option.{Option, none, some}
use mathlib.Core.List.{map, List, [], ◌∷◌, ◌++◌, reverse, reverse-cons}
use mathlib.Core.Logic.{◌≢◌}
use native.Mathlib.Omega.{arith}

module _ {ℓ} {A : Type ℓ} where
  abbrev pub length : List A → ℕ
  length [] = 0
  length (x ∷ xs) = suc (length xs)

  abbrev pub take : ℕ → List A → List A
  take zero xs = []
  take (suc n) [] = []
  take (suc n) (x ∷ xs) = x ∷ take n xs

  abbrev pub drop : ℕ → List A → List A
  drop zero xs = xs
  drop (suc n) [] = []
  drop (suc n) (x ∷ xs) = drop n xs

  abbrev pub replicate : ℕ → A → List A
  replicate zero a = []
  replicate (suc n) a = a ∷ replicate n a

  pub length-append : (xs ys : List A) → length (xs ++ ys) ≡ length xs + length ys
  length-append [] ys = omega arith
  length-append (x ∷ xs) ys = omega (arith, length-append xs ys)

module _ {ℓ} {A : Type ℓ} where
  pub length-reverse : (xs : List A) → length (reverse xs) ≡ length xs
  length-reverse [] = refl
  length-reverse (x ∷ xs) =
      omega (
        arith,
        ap length (reverse-cons x xs),
        length-append (reverse xs) (x ∷ []),
        length-reverse xs,
      )

  pub length-take : (n : ℕ) (xs : List A) → length (take n xs) ≡ min n (length xs)
  length-take zero xs = omega arith
  length-take (suc n) [] = omega arith
  length-take (suc n) (x ∷ xs) = omega (arith, length-take n xs)

  pub length-drop : (n : ℕ) (xs : List A) → length (drop n xs) ≡ length xs - n
  length-drop zero xs = omega arith
  length-drop (suc n) [] = omega arith
  length-drop (suc n) (x ∷ xs) = omega (arith, length-drop n xs)

  pub length-replicate : (n : ℕ) (a : A) → length (replicate n a) ≡ n
  length-replicate zero a = refl
  length-replicate (suc n) a = ap suc (length-replicate n a)

  pub take-nil : (n : ℕ) → take {A = A} n [] ≡ []
  take-nil zero = refl
  take-nil (suc n) = refl

  pub take-append-drop : (n : ℕ) (xs : List A) → take n xs ++ drop n xs ≡ xs
  take-append-drop zero xs = refl
  take-append-drop (suc n) [] = refl
  take-append-drop (suc n) (x ∷ xs) = ap (◌∷◌ x) (take-append-drop n xs)

  -- A front part that is long enough is what `take` and `drop` split off.
  pub take-append : (n : ℕ) (xs ys : List A) → length xs ≡ n → take n (xs ++ ys) ≡ xs
  take-append zero [] ys h = refl
  take-append zero (x ∷ xs) ys h = absurd (omega arith)
  take-append (suc n) [] ys h = absurd (omega arith)
  take-append (suc n) (x ∷ xs) ys h = ap (◌∷◌ x) (take-append n xs ys (omega arith))

  pub drop-append : (n : ℕ) (xs ys : List A) → length xs ≡ n → drop n (xs ++ ys) ≡ ys
  drop-append zero [] ys h = refl
  drop-append zero (x ∷ xs) ys h = absurd (omega arith)
  drop-append (suc n) [] ys h = absurd (omega arith)
  drop-append (suc n) (x ∷ xs) ys h = drop-append n xs ys (omega arith)

  pub drop-ge_length : (n : ℕ) (xs : List A) → length xs ≤ n → drop n xs ≡ []
  drop-ge_length zero [] h = refl
  drop-ge_length zero (x ∷ xs) h = absurd (omega arith)
  drop-ge_length (suc n) [] h = refl
  drop-ge_length (suc n) (x ∷ xs) h = drop-ge_length n xs (omega arith)

  pub drop-drop : (n k : ℕ) (xs : List A) → drop n (drop k xs) ≡ drop (k + n) xs
  drop-drop n zero xs = ap (λ j. drop j xs) (omega arith)
  drop-drop n (suc k) [] =
      drop-ge_length n [] (omega arith) ∙ sym (drop-ge_length (suc k + n) [] (omega arith))
  drop-drop n (suc k) (x ∷ xs) =
      drop-drop n k xs
      ∙ ap (λ j. drop j (x ∷ xs)) (let e : suc (k + n) ≡ suc k + n = omega arith in e)

  -- Taking from the front of a list taking at most all of it.
  pub drop-append_min :
      (n : ℕ) (xs ys : List A) → drop n xs ++ ys ≡ drop (min n (length xs)) (xs ++ ys)
  drop-append_min zero xs ys =
      ap (λ j. drop j (xs ++ ys)) (let e : 0 ≡ min 0 (length xs) = omega arith in e)
  drop-append_min (suc n) [] ys = ap (λ j. drop j ys) (let e : 0 ≡ min (suc n) 0 = omega arith in e)
  drop-append_min (suc n) (x ∷ xs) ys =
      drop-append_min n xs ys
      ∙ ap (λ j. drop j (x ∷ xs ++ ys))
          (let e : suc (min n (length xs)) ≡ min (suc n) (suc (length xs)) = omega arith in e)

  pub ne-nil_pos : (xs : List A) → xs ≢ [] → 0 < length xs
  ne-nil_pos [] h = absurd (h refl)
  ne-nil_pos (x ∷ xs) h = omega arith

  pub take-add : (k m : ℕ) (xs : List A) → take (k + m) xs ≡ take k xs ++ take m (drop k xs)
  take-add zero m xs = ap (λ j. take j xs) (omega arith)
  take-add (suc k) m [] = take-nil (suc k + m) ∙ sym (take-nil m)
  take-add (suc k) m (x ∷ xs) =
      ap (λ j. take j (x ∷ xs)) (let e : suc k + m ≡ suc (k + m) = omega arith in e)
      ∙ ap (◌∷◌ x) (take-add k m xs)

  pub length-le_zero : (xs : List A) → length xs ≤ 0 → xs ≡ []
  length-le_zero [] h = refl
  length-le_zero (x ∷ xs) h = absurd (omega arith)

-- A predicate holds of every element.
abbrev pub All : {A : Type 0} → (A → Type 0) → List A → Type 0
All P [] = Unit {0}
All P (x ∷ xs) = P x × All P xs

module _ {A : Type 0} where
  pub All-map : {P Q : A → Type 0} → ((a : A) → P a → Q a) → (xs : List A) → All P xs → All Q xs
  All-map f [] h = tt
  All-map f (x ∷ xs) (h, k) = (f x h, All-map f xs k)

  pub All-append : (P : A → Type 0) (xs ys : List A) → All P xs → All P ys → All P (xs ++ ys)
  All-append P [] ys h k = k
  All-append P (x ∷ xs) ys (h, g) k = (h, All-append P xs ys g k)

  abbrev pub get_elem? : List A → ℕ → Option A
  get_elem? [] i = none
  get_elem? (x ∷ xs) zero = some x
  get_elem? (x ∷ xs) (suc i) = get_elem? xs i

  abbrev pub set : List A → ℕ → A → List A
  set [] i v = []
  set (x ∷ xs) zero v = v ∷ xs
  set (x ∷ xs) (suc i) v = x ∷ set xs i v

  pub All-get :
      (P : A → Type 0) (xs : List A) (i : ℕ) (a : A) → All P xs → get_elem? xs i ≡ some a → P a
  All-get P [] i a h e = cc
  All-get P (x ∷ xs) zero a (h, k) e = let f : x ≡ a = cc in rw (← f) h
  All-get P (x ∷ xs) (suc i) a (h, k) e = All-get P xs i a k e

  pub All-set : (P : A → Type 0) (xs : List A) (i : ℕ) (a : A) → All P xs → P a → All P (set xs i a)
  All-set P [] i a h p = tt
  All-set P (x ∷ xs) zero a (h, k) p = (p, k)
  All-set P (x ∷ xs) (suc i) a (h, k) p = (h, All-set P xs i a k p)

  pub length-set : (xs : List A) (i : ℕ) (a : A) → length (set xs i a) ≡ length xs
  length-set [] i a = refl
  length-set (x ∷ xs) zero a = refl
  length-set (x ∷ xs) (suc i) a = ap suc (length-set xs i a)

  pub All-take : (P : A → Type 0) (k : ℕ) (xs : List A) → All P xs → All P (take k xs)
  All-take P zero xs h = tt
  All-take P (suc k) [] h = tt
  All-take P (suc k) (x ∷ xs) (h, g) = (h, All-take P k xs g)

  pub All-last : (P : A → Type 0) (xs : List A) (a : A) → All P (xs ++ a ∷ []) → P a
  All-last P [] a (h, _) = h
  All-last P (x ∷ xs) a (_, h) = All-last P xs a h

pub length-map {ℓ κ} :
    {A : Type ℓ} {B : Type κ} (f : A → B) (xs : List A) → length (map f xs) ≡ length xs
length-map f [] = refl
length-map f (x ∷ xs) = ap suc (length-map f xs)
