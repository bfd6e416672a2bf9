-- ===== src/IrqService/Select.antt =====
-- The arbitration between interrupt requests: which source the loop over all of them picks.
use emu_sa80535_n.Base.{
  ℕ, zero, suc, ◌-◌, ◌≤◌, ◌<◌, ◌≡◌, Bool, true, false, Option, none, some, arith, ltb, leb, ◌==◌,
  ◌&&◌, ◌||◌, not, if◌then◌else◌, ◌⊎◌, inl, inr, refl, sym, ap, subst, ◌∙◌, Bool-cases,
}
use emu_sa80535_n.Cpu.{Cpu}
use emu_sa80535_n.IrqSync.{irq_priority}
use emu_sa80535_n.IrqService.{irq_is_candidate, irq_consider, irq_select}

-- A source that may interrupt: a candidate above the level of the innermost service.
abbrev pub is_eligible : Cpu → ℕ → Bool
is_eligible c t =
    irq_is_candidate c t
    && (c.irq.depth == 0 || ltb (c.irq.priority_stack (c.irq.depth - 1)) (irq_priority c t))

Nat-cases : (t n : ℕ) → t < suc n → (t ≡ n) ⊎ (t < n)
Nat-cases t n h = elim (Bool-cases (t == n)) [
  | inl e ↦ inl (ground arith)
  | inr ne ↦ inr (ground arith)
]

-- What a choice among the first `n` sources has to be: nothing where none is eligible, else the
-- first among the eligible ones of the highest priority.
abbrev pub IsBest : Cpu → ℕ → Option (ℕ × ℕ) → Type 0
IsBest c n none = (t : ℕ) → t < n → is_eligible c t ≡ false
IsBest c n (some (s, p)) =
    (s < n)
    × (is_eligible c s ≡ true)
    × (p ≡ irq_priority c s)
    × ((t : ℕ) → t < n → is_eligible c t ≡ true → irq_priority c t ≤ p)
    × ((t : ℕ) → t < s → is_eligible c t ≡ true → irq_priority c t < p)

-- One round of the loop on an eligible source, and on any other.
consider_better : Option (ℕ × ℕ) → ℕ → ℕ → Option (ℕ × ℕ)
consider_better none s p = some (s, p)
consider_better (some (best, q)) s p = if ltb q p then some (s, p) else some (best, q)

consider-eq :
    (candidate : Bool) (depth current p s : ℕ) (o : Option (ℕ × ℕ))
    → (if not candidate then o else if not (depth == 0) && leb p current then o else elim o [
      | none ↦ some (s, p)
      | some (best, best_priority) ↦
          if ltb best_priority p then some (s, p) else some (best, best_priority)
    ])
      ≡ (if candidate && (depth == 0 || ltb current p) then consider_better o s p else o)
unfolding consider_better
consider-eq false depth current p s o = refl
consider-eq true depth current p s none = ground arith
consider-eq true depth current p s (some (best, q)) = ground arith

irq_consider-eq :
    (c : Cpu) (o : Option (ℕ × ℕ)) (s : ℕ)
    → irq_consider c o s ≡ (if is_eligible c s then consider_better o s (irq_priority c s) else o)
unfolding irq_consider
irq_consider-eq c o s =
    consider-eq (irq_is_candidate c s) c.irq.depth (c.irq.priority_stack (c.irq.depth - 1))
      (irq_priority c s) s o

irq_select-suc :
    (c : Cpu) (n : ℕ)
    → irq_select c (suc n) ≡ (
        if is_eligible c n
        then consider_better (irq_select c n) n (irq_priority c n)
        else irq_select c n)
unfolding irq_select
irq_select-suc c n = irq_consider-eq c (irq_select c n) n

never : {A : Type 0} (b : Bool) → b ≡ false → b ≡ true → A
never b e1 e2 = absurd (cc (e1, e2))

-- A source that is not eligible changes nothing.
IsBest-skip :
    (c : Cpu) (n : ℕ) (o : Option (ℕ × ℕ))
    → is_eligible c n ≡ false
    → IsBest c n o
    → IsBest c (suc n) o
IsBest-skip c n none ne h = λ t lt. elim (Nat-cases t n lt) [
  | inl e ↦ subst (λ m. is_eligible c m ≡ false) (sym e) ne
  | inr l ↦ h t l
]
IsBest-skip c n (some (s, p)) ne (a, b, d, e, f) = (
  omega arith,
  b,
  d,
  λ t lt el. elim (Nat-cases t n lt) [
    | inl q ↦ never (is_eligible c n) ne (subst (λ m. is_eligible c m ≡ true) q el)
    | inr l ↦ e t l el
  ],
  f,
)

-- An eligible source is taken where it is better than the best so far.
IsBest-better :
    (c : Cpu) (n : ℕ) (o : Option (ℕ × ℕ))
    → is_eligible c n ≡ true
    → IsBest c n o
    → IsBest c (suc n) (consider_better o n (irq_priority c n))
unfolding consider_better
IsBest-better c n none el h = (
  omega arith,
  el,
  refl,
  λ t lt e. elim (Nat-cases t n lt) [
    | inl q ↦ subst (λ m. irq_priority c t ≤ irq_priority c m) q (omega arith)
    | inr l ↦ never (is_eligible c t) (h t l) e
  ],
  λ t lt e. never (is_eligible c t) (h t lt) e,
)
IsBest-better c n (some (s, p)) el (a, b, d, e, f) = elim (Bool-cases (ltb p (irq_priority c n))) [
  | inl higher ↦
      let lt : p < irq_priority c n = ground arith in
      rw higher (
        omega arith,
        el,
        refl,
        λ t l g. elim (Nat-cases t n l) [
          | inl q ↦ subst (λ m. irq_priority c t ≤ irq_priority c m) q (omega arith)
          | inr k ↦ omega (arith, e t k g)
        ],
        λ t l g. omega (arith, e t l g),
      )
  | inr lower ↦
      let le : irq_priority c n ≤ p = ground arith in
      rw lower (
        omega arith,
        b,
        d,
        λ t l g. elim (Nat-cases t n l) [
          | inl q ↦ subst (λ m. irq_priority c m ≤ p) (sym q) le
          | inr k ↦ e t k g
        ],
        f,
      )
]

-- The arbitration over the first `n` sources picks the first among the eligible ones of the highest
-- priority, and nothing exactly where none is eligible.
pub irq_select-IsBest : (c : Cpu) (n : ℕ) → IsBest c n (irq_select c n)
unfolding irq_select
irq_select-IsBest c zero = λ t lt. absurd (omega arith)
irq_select-IsBest c (suc n) =
    let next = irq_select-suc c n in
    elim (Bool-cases (is_eligible c n)) [
      | inl e ↦
          let chosen : irq_select c (suc n)
              ≡ consider_better (irq_select c n) n (irq_priority c n) =
            next
            ∙ ap
                (λ (b : Bool).
                  if b
                  then consider_better (irq_select c n) n (irq_priority c n)
                  else irq_select c n)
                e in
          subst (λ o. IsBest c (suc n) o) (sym chosen)
            (IsBest-better c n (irq_select c n) e (irq_select-IsBest c n))
      | inr e ↦
          let kept : irq_select c (suc n) ≡ irq_select c n =
            next
            ∙ ap
                (λ (b : Bool).
                  if b
                  then consider_better (irq_select c n) n (irq_priority c n)
                  else irq_select c n)
                e in
          subst (λ o. IsBest c (suc n) o) (sym kept)
            (IsBest-skip c n (irq_select c n) e (irq_select-IsBest c n))
    ]
