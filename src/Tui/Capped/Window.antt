-- ===== src/Tui/Capped/Window.antt =====
-- What the user sees of a process's output.
use xmc.Prelude.{
  ℕ, zero, suc, ◌+◌, ◌-◌, ◌*◌, ◌≤◌, ◌<◌, Bool, true, false, ◌&&◌, List, [], ◌∷◌, ◌++◌, ◌≡◌, ◌⊎◌,
  inl, inr, refl, sym, ap, ◌∙◌, arith, length, length-append, append_assoc, append-nil, ap₂, drop,
  ltb, Bool-cases, if◌then◌else◌,
}
use xmc.Backends.{Bytes}
use xmc.Tui.Capped.{
  CappedBuffer, last_bytes, capped_write, capped_string, Output, proc_write, snapshot_text, Chunk,
  proc_writes, new_output,
}

-- The bytes of all writes.
abbrev pub written : List Chunk → Bytes
written [] = []
written (c ∷ cs) = c.bytes ++ written cs

drop-append {ℓ} :
    {A : Type ℓ} (xs ys : List A) (i j : ℕ) → j ≡ length xs + i → drop j (xs ++ ys) ≡ drop i ys
drop-append [] ys i j e = ap (λ k. drop k ys) (omega (arith, e))
drop-append (x ∷ xs) ys i zero e = absurd (omega (arith, e))
drop-append (x ∷ xs) ys i (suc j) e = drop-append xs ys i j (omega (arith, e))

drop-split {ℓ} : {A : Type ℓ} (i : ℕ) (xs : List A) → (ys : List A) × (xs ≡ ys ++ drop i xs)
drop-split zero xs = ([], refl)
drop-split (suc i) [] = ([], refl)
drop-split (suc i) (x ∷ xs) = let r = drop-split i xs in (x ∷ r.0, ap (x ∷◌) r.1)

length-drop {ℓ} : {A : Type ℓ} (i : ℕ) (xs : List A) → length (drop i xs) ≡ length xs - i
length-drop zero xs = omega arith
length-drop (suc i) [] = omega arith
length-drop (suc i) (x ∷ xs) = omega (arith, length-drop i xs)

-- The last bytes are in the part that is kept.
last_bytes-append :
    (n : ℕ) (xs ys : Bytes) → n ≤ length ys → last_bytes n (xs ++ ys) ≡ last_bytes n ys
last_bytes-append n xs ys l =
    drop-append xs ys (length ys - n) _ (ground (arith, length-append xs ys, l))

-- The buffer is an end of what was written, and when anything is cut off it has its maximum.
data Keeps (c : CappedBuffer) (all : Bytes) : Type 0 where
  keeps :
      (cut : Bytes)
      → all ≡ cut ++ c.buf
      → (cut ≡ []) ⊎ ((0 < c.max) × (c.max ≤ length c.buf))
      → Keeps c all

cut-Keeps :
    (c : CappedBuffer) (cut grown all : Bytes)
    → all ≡ cut ++ grown
    → 0 < c.max
    → c.max ≤ length grown
    → Keeps (record c { buf = last_bytes c.max grown }) all
cut-Keeps c cut grown all e l g =
    let r = drop-split (length grown - c.max) grown in
    keeps (cut ++ r.0) (e ∙ ap (cut ++◌) r.1 ∙ sym (append_assoc cut r.0 _))
      (inr (l, ground (arith, length-drop (length grown - c.max) grown, g)))

write-Keeps :
    (p : Bytes) (c : CappedBuffer) (all : Bytes) → Keeps c all → Keeps (capped_write p c) (all ++ p)
unfolding capped_write
write-Keeps p c all (keeps cut e m) = go (ltb 0 c.max && ltb (2 * c.max) (length (c.buf ++ p))) refl
  where
    e' : all ++ p ≡ cut ++ (c.buf ++ p)
    e' = ap (λ a. a ++ p) e ∙ append_assoc cut c.buf p

    longer :
        (cut ≡ []) ⊎ ((0 < c.max) × (c.max ≤ length c.buf))
        → (cut ≡ []) ⊎ ((0 < c.max) × (c.max ≤ length (c.buf ++ p)))
    longer (inl n) = inl n
    longer (inr l) = inr (l.0, ground (arith, l.1, length-append c.buf p))

    go :
        (b : Bool)
        → (ltb 0 c.max && ltb (2 * c.max) (length (c.buf ++ p))) ≡ b
        → Keeps
            (if b
              then record c { buf = last_bytes c.max (c.buf ++ p) }
              else record c { buf = c.buf ++ p })
            (all ++ p)
    go true t = cut-Keeps c cut (c.buf ++ p) (all ++ p) e' (ground (arith, t)) (ground (arith, t))
    go false t = keeps cut e' (longer m)

-- The last `max` bytes, or all when there is no maximum.
abbrev pub shown_bytes : ℕ → Bytes → Bytes
shown_bytes zero all = all
shown_bytes (suc n) all = last_bytes (suc n) all

last_bytes_of_short : (n : ℕ) (b : Bytes) → length b ≤ n → last_bytes n b ≡ b
last_bytes_of_short n b l = let e : length b - n ≡ 0 = omega (arith, l) in ap (λ i. drop i b) e

capped_of :
    (n : ℕ) (b : Bytes) → capped_string (record { buf = b; max = suc n }) ≡ last_bytes (suc n) b
unfolding capped_string
capped_of n b = elim (Bool-cases (ltb (suc n) (length b))) [
  | inl t ↦ rw (positive, t) refl
  | inr t ↦ rw (positive, t) (sym (last_bytes_of_short (suc n) b (ground (arith, t))))
]
  where
    positive : ltb 0 (suc n) ≡ true
    positive = ground arith

string_of :
    (n : ℕ) (b all cut : Bytes)
    → all ≡ cut ++ b
    → (cut ≡ []) ⊎ ((0 < n) × (n ≤ length b))
    → capped_string (record { buf = b; max = n }) ≡ shown_bytes n all
unfolding capped_string
string_of zero b all cut e (inl k) = sym (e ∙ ap (λ x. x ++ b) k)
string_of zero b all cut e (inr l) = absurd (omega (arith, l.0))
string_of (suc n) b all cut e (inl k) =
    capped_of n b ∙ ap (last_bytes (suc n)) (sym (e ∙ ap (λ x. x ++ b) k))
string_of (suc n) b all cut e (inr l) =
    capped_of n b ∙ sym (ap (last_bytes (suc n)) e ∙ last_bytes-append (suc n) cut b l.1)

max-write : (p : Bytes) (c : CappedBuffer) → (capped_write p c).max ≡ c.max
unfolding capped_write
max-write p c = elim (Bool-cases (ltb 0 c.max && ltb (2 * c.max) (length (c.buf ++ p)))) [
  | inl t ↦ rw t refl
  | inr t ↦ rw t refl
]

shown-writes :
    (cs : List Chunk) (o : Output) (all : Bytes)
    → Keeps o.out all
    → snapshot_text (proc_writes cs o) ≡ shown_bytes o.out.max (all ++ written cs)
unfolding proc_writes snapshot_text proc_write
shown-writes [] o all (keeps cut e m) =
    rw (append-nil all) (string_of o.out.max o.out.buf all cut e m)
shown-writes (c ∷ cs) o all k =
    shown-writes cs (proc_write c.stderr c.bytes o) (all ++ c.bytes)
      (write-Keeps c.bytes o.out all k)
    ∙ ap₂ shown_bytes (max-write c.bytes o.out) (append_assoc all c.bytes (written cs))

-- The text of a process is the last `max` bytes of all that its writers were given, in the order
-- of the writes, or all of it when it is not longer or `max` is 0.
pub snapshot-writes :
    (cs : List Chunk) (max : ℕ)
    → snapshot_text (proc_writes cs (new_output max)) ≡ shown_bytes max (written cs)
unfolding new_output
snapshot-writes cs max = shown-writes cs (new_output max) [] (keeps [] refl (inl refl))

bound_write : (p : Bytes) (c : CappedBuffer) → 0 < c.max → length (capped_write p c).buf ≤ 2 * c.max
unfolding capped_write
bound_write p c l = elim (Bool-cases (ltb 0 c.max && ltb (2 * c.max) (length (c.buf ++ p)))) [
  | inl t ↦ rw t (ground (arith, l, length-drop (length (c.buf ++ p) - c.max) (c.buf ++ p)))
  | inr t ↦ rw t (ground (arith, t, l))
]

bounded-writes :
    (cs : List Chunk) (o : Output) (n : ℕ)
    → o.out.max ≡ n
    → 0 < n
    → length o.out.buf ≤ 2 * n
    → length (proc_writes cs o).out.buf ≤ 2 * n
unfolding proc_writes proc_write
bounded-writes [] o n e p l = l
bounded-writes (c ∷ cs) o n e p l =
    bounded-writes cs (proc_write c.stderr c.bytes o) n (max-write c.bytes o.out ∙ e) p
      (ground (arith, e, p, bound_write c.bytes o.out))

-- With a positive maximum the buffer of a process never holds more than twice as many bytes,
-- whatever its writers are given.
pub buffer-bound :
    (cs : List Chunk) (max : ℕ)
    → 0 < max
    → length (proc_writes cs (new_output max)).out.buf ≤ 2 * max
unfolding new_output
buffer-bound cs max p = bounded-writes cs (new_output max) max refl p (omega arith)
