-- ===== src/Tui/Contexts/Steps.antt =====
-- How the lists of processes and of cancelled contexts change.
use xmc.Prelude.{
  ℕ, zero, suc, Bool, true, false, ◌||◌, ◌==◌, ==_iff, Option, none, some, List, [], ◌∷◌, ◌++◌, ◌≡◌,
  ◌⊎◌, inl, inr, refl, sym, ap, ◌∙◌, arith, get_elem?, any, Bool-cases, if◌then◌else◌,
}
use mathlib.Core.Option.{some-injective}
use xmc.Errors.{GoError}
use xmc.Tui.{Process}
use xmc.Tui.Processes.{has_id, update_id, fire, fire_all, remove_at, unfinished}
use xmc.Tui.Contexts.{is_context, holds, AllFinKnown}

abbrev pub store : ℕ → Process → Process
store i q = record q { cancel = some i }

abbrev pub finish : Option GoError → Process → Process
finish e q = record q { done = true; error = e }

abbrev pub is_in : ℕ → List ℕ → Bool
is_in k cs = any (λ i. i == k) cs

pub any-append {ℓ} :
    {A : Type ℓ} (f : A → Bool) (xs ys : List A) → any f (xs ++ ys) ≡ (any f xs || any f ys)
any-append f [] ys = refl
any-append f (x ∷ xs) ys = ground (arith, any-append f xs ys)

pub holds-store :
    (k i : ℕ) (ps : List Process)
    → any (holds k) ps ≡ true
    → any (holds k) (update_id i (store i) ps) ≡ true
holds-store k i [] h = cc
holds-store k i (q ∷ ps) h = elim (Bool-cases (has_id i q)) [
  | inl e ↦ rw e (ground (arith, e, h))
  | inr e ↦ rw e (ground (arith, e, h, holds-store k i ps))
]

pub stored-holds :
    (i : ℕ) (ps : List Process)
    → any (has_id i) ps ≡ true
    → any (holds i) (update_id i (store i) ps) ≡ true
stored-holds i [] h = cc
stored-holds i (q ∷ ps) h = elim (Bool-cases (has_id i q)) [
  | inl e ↦ rw e (ground (arith, e))
  | inr e ↦ rw e (ground (arith, e, h, stored-holds i ps))
]

pub holds-finish :
    (k i : ℕ) (e : Option GoError) (ps : List Process)
    → any (holds k) (update_id i (finish e) ps) ≡ any (holds k) ps
holds-finish k i e [] = refl
holds-finish k i e (q ∷ ps) = elim (Bool-cases (has_id i q)) [
  | inl t ↦ rw t refl
  | inr t ↦ rw t (ap (λ b. holds k q || b) (holds-finish k i e ps))
]

pub in_fired :
    (k : ℕ) (o : Option ℕ) (cs : List ℕ) → is_in k (fire o cs) ≡ (is_context k o || is_in k cs)
in_fired k none cs = refl
in_fired k (some i) cs = refl

pub holds-remove_at :
    (k i : ℕ) (q : Process) (ps : List Process)
    → get_elem? ps i ≡ some q
    → any (holds k) ps ≡ true
    → (any (holds k) (remove_at i ps) || is_context k q.cancel) ≡ true
holds-remove_at k i q [] e h = cc
holds-remove_at k zero q (r ∷ ps) e h =
    ground (arith, h, ap (λ p. is_context k p.cancel) (some-injective r q e))
holds-remove_at k (suc i) q (r ∷ ps) e h = ground (arith, h, holds-remove_at k i q ps e)

pub in-fire_all :
    (k : ℕ) (ps : List Process) (cs : List ℕ)
    → (any (holds k) ps || is_in k cs) ≡ true
    → is_in k (fire_all ps cs) ≡ true
in-fire_all k [] cs h = h
in-fire_all k (q ∷ ps) cs h =
    in-fire_all k ps (fire q.cancel cs) (ground (arith, h, in_fired k q.cancel cs))

pub fire_all-accounted :
    (k : ℕ) (ps : List Process) (cs : List ℕ) (f : Bool)
    → (any (holds k) ps || is_in k cs || f) ≡ true
    → (is_in k (fire_all ps cs) || f) ≡ true
fire_all-accounted k ps cs true h = ground arith
fire_all-accounted k ps cs false h =
    let g : is_in k (fire_all ps cs) ≡ true = in-fire_all k ps cs (ground (arith, h)) in
    ground (arith, g)

module _ (fin : ℕ → Bool) where
  pub holds-unfinished :
      (k : ℕ) (ps : List Process)
      → AllFinKnown fin ps
      → any (holds k) ps ≡ true
      → (any (holds k) (unfinished ps) || fin k) ≡ true
  holds-unfinished k [] d h = cc
  holds-unfinished k (q ∷ ps) d h = elim (Bool-cases q.done) [
    | inl e ↦ rw e (ended (Bool-cases (holds k q)) (d.0 e) (holds-unfinished k ps d.1))
    | inr e ↦ rw e (ground (arith, h, holds-unfinished k ps d.1))
  ]
    where
      ended :
          ((holds k q ≡ true) ⊎ (holds k q ≡ false))
          → fin q.id ≡ true
          → (any (holds k) ps ≡ true → (any (holds k) (unfinished ps) || fin k) ≡ true)
          → (any (holds k) (unfinished ps) || fin k) ≡ true
      ended (inl t) f r =
          let g : fin k ≡ true = sym (ap fin ((==_iff q.id k).0 (ground (arith, t)))) ∙ f in
          ground (arith, g)
      ended (inr t) f r = r (ground (arith, h, t))

  pub known-store :
      (i : ℕ) (ps : List Process) → AllFinKnown fin ps → AllFinKnown fin (update_id i (store i) ps)
  known-store i [] d = tt
  known-store i (q ∷ ps) d = elim (Bool-cases (has_id i q)) [
    | inl e ↦ rw e (d.0, d.1)
    | inr e ↦ rw e (d.0, known-store i ps d.1)
  ]

  pub known-finish :
      (i : ℕ) (e : Option GoError) (ps : List Process)
      → fin i ≡ true
      → AllFinKnown fin ps
      → AllFinKnown fin (update_id i (finish e) ps)
  known-finish i e [] f d = tt
  known-finish i e (q ∷ ps) f d = elim (Bool-cases (has_id i q)) [
    | inl t ↦ rw t (λ u. ap fin ((==_iff q.id i).0 t) ∙ f, d.1)
    | inr t ↦ rw t (d.0, known-finish i e ps f d.1)
  ]

  pub known-remove_at :
      (i : ℕ) (ps : List Process) → AllFinKnown fin ps → AllFinKnown fin (remove_at i ps)
  known-remove_at i [] d = tt
  known-remove_at zero (q ∷ ps) d = d.1
  known-remove_at (suc i) (q ∷ ps) d = (d.0, known-remove_at i ps d.1)

  pub known-unfinished : (ps : List Process) → AllFinKnown fin ps → AllFinKnown fin (unfinished ps)
  known-unfinished [] d = tt
  known-unfinished (q ∷ ps) d = go q.done (known-unfinished ps d.1)
    where
      go :
          (b : Bool)
          → AllFinKnown fin (unfinished ps)
          → AllFinKnown fin (if b then unfinished ps else q ∷ unfinished ps)
      go true r = r
      go false r = (d.0, r)
