-- ===== src/Base/Tables.antt =====
-- Two functions that agree on a range, by listing their values.
use Prim.Native.Nat.{ℕ, zero, suc, ◌+◌, ◌<◌}
use mathlib.Core.Path.{◌≡◌, ap, refl}
use mathlib.Core.List.{List, [], ◌∷◌, ◌++◌}
use native.Mathlib.Omega.{arith}

-- The values of a function from `i` on.
abbrev pub values {ℓ} : {A : Type ℓ} → (ℕ → A) → ℕ → ℕ → List A
values f i zero = []
values f i (suc n) = f i ∷ values f (i + 1) n

abbrev head_or {ℓ} : {A : Type ℓ} → A → List A → A
head_or d [] = d
head_or d (x ∷ xs) = x

abbrev rest_of {ℓ} : {A : Type ℓ} → List A → List A
rest_of [] = []
rest_of (x ∷ xs) = xs

pub values_at {ℓ} :
    {A : Type ℓ} (f g : ℕ → A) (n i k : ℕ)
    → values f i n ≡ values g i n
    → k < n
    → f (i + k) ≡ g (i + k)
values_at f g zero i k h lt = absurd (omega arith)
values_at f g (suc n) i zero h lt = let e : i + 0 ≡ i = omega arith in rw e (ap (head_or (f i)) h)
values_at f g (suc n) i (suc k) h lt =
    let e : i + suc k ≡ i + 1 + k = omega arith in
    rw e (values_at f g n (i + 1) k (ap rest_of h) (omega arith))

pub values-snoc {ℓ} :
    {A : Type ℓ} (w : ℕ → A) (n i : ℕ) → values w i (suc n) ≡ values w i n ++ (w (i + n) ∷ [])
values-snoc w zero i = let e : i + 0 ≡ i = omega arith in rw e refl
values-snoc w (suc n) i =
    let e : i + suc n ≡ i + 1 + n = omega arith in
    rw e (ap (λ t. w i ∷ t) (values-snoc w n (i + 1)))

pub values-congr {ℓ} :
    {A : Type ℓ} (f g : ℕ → A) (n i : ℕ)
    → ((k : ℕ) → k < i + n → f k ≡ g k)
    → values f i n ≡ values g i n
values-congr f g zero i same = refl
values-congr f g (suc n) i same =
    rw (same i (omega arith))
      (ap (λ t. g i ∷ t) (values-congr f g n (i + 1) (λ k lt. same k (omega arith))))
