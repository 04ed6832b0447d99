-- ===== src/Mcp/Registry.antt =====
-- The registry of mcp/server.go after any registrations.
use xmc.Prelude.{
  Bool, true, false, some, List, [], ◌∷◌, ◌++◌, ◌≡◌, refl, ap, ◌∙◌, sym, arith, Text, text_eq,
  text_eq_refl, text_eq→eq, is_some, any, map, map-append, Bool-cases, inl, inr,
}
use xmc.Mcp.{Tool, Server, new_server, find_tool, put_tool, add_tool}

abbrev pub has_name : Text → List Text → Bool
has_name n names = any (λ m. text_eq m n) names

abbrev pub Distinct : List Text → Type 0
Distinct [] = Unit
Distinct (n ∷ names) = (has_name n names ≡ false) × Distinct names

abbrev pub listed : Server → List Text
listed s = map (λ (t : Tool). t.name) s.tools

abbrev pub keys : List (Text × Tool) → List Text
keys [] = []
keys ((n, t) ∷ rest) = n ∷ keys rest

-- The names that are listed are those that can be called, each once.
pub record IsRegistry (s : Server) : Type 0 where
  pub same_names : listed s ≡ keys s.by_name
  pub once : Distinct (listed s)

find_tool-keys : (n : Text) (m : List (Text × Tool)) → is_some (find_tool n m) ≡ has_name n (keys m)
find_tool-keys n [] = refl
find_tool-keys n ((k, t) ∷ m) = ground (arith, find_tool-keys n m)

keys-put_old :
    (t : Tool) (m : List (Text × Tool))
    → has_name t.name (keys m) ≡ true
    → keys (put_tool t m) ≡ keys m
keys-put_old t [] h = cc
keys-put_old t ((k, u) ∷ m) h = elim (Bool-cases (text_eq k t.name)) [
  | inl e ↦ simp e
  | inr e ↦ simp e (ap (λ l. k ∷ l) (keys-put_old t m (ground arith)))
]

keys-put_new :
    (t : Tool) (m : List (Text × Tool))
    → has_name t.name (keys m) ≡ false
    → keys (put_tool t m) ≡ keys m ++ t.name ∷ []
keys-put_new t [] h = refl
keys-put_new t ((k, u) ∷ m) h = elim (Bool-cases (text_eq k t.name)) [
  | inl e ↦ absurd (ground arith)
  | inr e ↦ simp e (ap (λ l. k ∷ l) (keys-put_new t m (ground arith)))
]

has_name-append :
    (n k : Text) (names : List Text)
    → has_name n names ≡ false
    → text_eq k n ≡ false
    → has_name n (names ++ k ∷ []) ≡ false
has_name-append n k [] h e = rw e refl
has_name-append n k (m ∷ names) h e = ground (arith, has_name-append n k names)

text_eq_sym : (s t : Text) → text_eq s t ≡ text_eq t s
text_eq_sym [] [] = refl
text_eq_sym [] (d ∷ t) = refl
text_eq_sym (c ∷ s) [] = refl
text_eq_sym (c ∷ s) (d ∷ t) = ground (arith, text_eq_sym s t)

Distinct-append :
    (names : List Text) (k : Text)
    → Distinct names
    → has_name k names ≡ false
    → Distinct (names ++ k ∷ [])
Distinct-append [] k d h = (refl, tt)
Distinct-append (n ∷ names) k (d, ds) h = (
  has_name-append n k names d (ground (arith, text_eq_sym n k)),
  Distinct-append names k ds (ground arith),
)

new_server-IsRegistry : (name version : Text) → IsRegistry (new_server name version)
new_server-IsRegistry name version = record { same_names = refl; once = tt }

add_tool-IsRegistry : (s : Server) (t : Tool) → IsRegistry s → IsRegistry (add_tool s t)
unfolding add_tool
add_tool-IsRegistry s t h = elim (Bool-cases (is_some (find_tool t.name s.by_name))) [
  | inl old ↦ record {
    same_names = rw old (
        h.same_names
        ∙ sym (keys-put_old t s.by_name (sym (find_tool-keys t.name s.by_name) ∙ old)));
    once = rw old h.once;
  }
  | inr new ↦ record {
    same_names =
        rw (new, map-append, keys-put_new t s.by_name (sym (find_tool-keys t.name s.by_name) ∙ new))
          (ap (λ l. l ++ t.name ∷ []) h.same_names);
    once =
        rw (new, map-append)
          (Distinct-append (listed s) t.name h.once (
            ap (λ l. has_name t.name l) h.same_names
            ∙ sym (find_tool-keys t.name s.by_name)
            ∙ new));
  }
]

-- The server after registering these tools in order.
abbrev pub add_tools : Server → List Tool → Server
add_tools s [] = s
add_tools s (t ∷ ts) = add_tools (add_tool s t) ts

add_tools-IsRegistry : (ts : List Tool) (s : Server) → IsRegistry s → IsRegistry (add_tools s ts)
add_tools-IsRegistry [] s h = h
add_tools-IsRegistry (t ∷ ts) s h =
    add_tools-IsRegistry ts (add_tool s t) (add_tool-IsRegistry s t h)

-- After any registrations a tool is listed exactly when it can be called, and no name twice.
pub registered-IsRegistry :
    (name version : Text) (ts : List Tool)
    → ((n : Text)
        → has_name n (listed (add_tools (new_server name version) ts))
          ≡ is_some (find_tool n (add_tools (new_server name version) ts).by_name))
      × Distinct (listed (add_tools (new_server name version) ts))
registered-IsRegistry name version ts =
    let h =
      add_tools-IsRegistry ts (new_server name version) (new_server-IsRegistry name version) in
    (λ n. ap (λ l. has_name n l) h.same_names ∙ sym (find_tool-keys n _), h.once)

find_tool-put_same : (t : Tool) (m : List (Text × Tool)) → find_tool t.name (put_tool t m) ≡ some t
find_tool-put_same t [] = simp (text_eq_refl t.name)
find_tool-put_same t ((k, u) ∷ m) = elim (Bool-cases (text_eq k t.name)) [
  | inl e ↦ simp (e)
  | inr e ↦ simp (e) (find_tool-put_same t m)
]

find_tool-put_other :
    (n : Text) (t : Tool) (m : List (Text × Tool))
    → text_eq t.name n ≡ false
    → find_tool n (put_tool t m) ≡ find_tool n m
find_tool-put_other n t [] h = simp h
find_tool-put_other n t ((k, u) ∷ m) h = elim (Bool-cases (text_eq k t.name)) [
  | inl e ↦ simp (e, ap (λ x. text_eq x n) (text_eq→eq k t.name e) ∙ h)
  | inr e ↦ elim (Bool-cases (text_eq k n)) [
    | inl f ↦ simp (e, f)
    | inr f ↦ simp (e, f) (find_tool-put_other n t m h)
  ]
]

-- After a later registration under a known name that tool is the one that is called, the other
-- names keep theirs, and the list of tools keeps the tool of the first registration.
pub add_tool_again :
    (s : Server) (t : Tool) (n : Text)
    → is_some (find_tool t.name s.by_name) ≡ true
    → text_eq t.name n ≡ false
    → (find_tool t.name (add_tool s t).by_name ≡ some t)
      × (find_tool n (add_tool s t).by_name ≡ find_tool n s.by_name)
      × ((add_tool s t).tools ≡ s.tools)
unfolding add_tool
add_tool_again s t n old other =
    (find_tool-put_same t s.by_name, find_tool-put_other n t s.by_name other, rw old)
