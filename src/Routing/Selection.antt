-- ===== src/Routing/Selection.antt =====
-- src/routing.rs: `lookup` selects a longest unexpired prefix, and an advertisement lasts for its
-- lease.
use native.Mathlib.Nat.{le_of_eq}
use mathlib.Core.Path.{subst}
use mathlib.Core.Option
use meshlet.Common.{
  ℕ, ◌≤◌, ◌<◌, ◌≡◌, refl, sym, ap, ◌∙◌, ◌⊎◌, inl, inr, Bool, true, false, Option, none, some, List,
  [], ◌∷◌, arith, ltb, leb, ltb→lt, lt→ltb, Bool-cases, nat_eq, list_eq, pair_eq, Instant,
}
use meshlet.Net.Ipv4.{Ipv4Addr}
use meshlet.Routing.Prefix.{contains, prefix_eq}
use meshlet.Routing.Registry.{
  SelectedRoute, Advertisement, RouteRegistry, retain, max_from, max_by_key, remove_expired, lookup,
}

module _ {A : Type 0} where
  abbrev pub In : A → List A → Type 0
  In a [] = ⊥
  In a (x ∷ xs) = (a ≡ x) ⊎ In a xs

  pub In-retain : (p : A → Bool) (a : A) (xs : List A) → In a (retain p xs) → In a xs × (p a ≡ true)
  unfolding retain
  In-retain p a [] h = elim h [ ]
  In-retain p a (x ∷ xs) h = elim (Bool-cases (p x)) [
    | inl kept ↦ kept_case kept (In-retain p a xs) (rw (kept, retain) at h)
    | inr gone ↦ let (m, k) = In-retain p a xs (rw (gone, retain) at h) in (inr m, k)
  ]
    where
      kept_case :
          p x ≡ true
          → (In a (retain p xs) → In a xs × (p a ≡ true))
          → In a (x ∷ retain p xs)
          → In a (x ∷ xs) × (p a ≡ true)
      kept_case kept ih (inl e) = (inl e, ap p e ∙ kept)
      kept_case kept ih (inr m) = (inr (ih m).0, (ih m).1)

  pub retain-In : (p : A → Bool) (a : A) (xs : List A) → In a xs → p a ≡ true → In a (retain p xs)
  unfolding retain
  retain-In p a [] h k = elim h [ ]
  retain-In p a (x ∷ xs) (inl e) k = rw (sym (ap p e) ∙ k, retain) (inl e)
  retain-In p a (x ∷ xs) (inr m) k = elim (Bool-cases (p x)) [
    | inl kept ↦ rw (kept, retain) (inr (retain-In p a xs m k))
    | inr gone ↦ rw (gone, retain) (retain-In p a xs m k)
  ]

  max_from_up :
      (key : A → ℕ) (best x : A) (xs : List A)
      → leb (key best) (key x) ≡ true
      → max_from key best (x ∷ xs) ≡ max_from key x xs
  unfolding max_from
  max_from_up key best x xs h = rw h

  max_from_down :
      (key : A → ℕ) (best x : A) (xs : List A)
      → leb (key best) (key x) ≡ false
      → max_from key best (x ∷ xs) ≡ max_from key best xs
  unfolding max_from
  max_from_down key best x xs h = rw h

  -- The element that the loop returns stood in the list, and no key is greater.
  max_from_lem :
      (key : A → ℕ) (best : A) (xs : List A)
      → In (max_from key best xs) (best ∷ xs)
        × ((a : A) → In a (best ∷ xs) → key a ≤ key (max_from key best xs))
  unfolding max_from
  max_from_lem key best [] = (inl refl, only)
    where
      only : (a : A) → In a (best ∷ []) → key a ≤ key best
      only a (inl e) = le_of_eq (ap key e)
      only a (inr h) = elim h [ ]
  max_from_lem key best (x ∷ xs) = elim (Bool-cases (leb (key best) (key x))) [
    | inl up ↦
        subst (λ m. In m (best ∷ x ∷ xs) × ((a : A) → In a (best ∷ x ∷ xs) → key a ≤ key m))
          (sym (max_from_up key best x xs up)) (raised up (max_from_lem key x xs))
    | inr down ↦
        subst (λ m. In m (best ∷ x ∷ xs) × ((a : A) → In a (best ∷ x ∷ xs) → key a ≤ key m))
          (sym (max_from_down key best x xs down)) (held down (max_from_lem key best xs))
  ]
    where
      raised :
          {m : A}
          → leb (key best) (key x) ≡ true
          → In m (x ∷ xs) × ((a : A) → In a (x ∷ xs) → key a ≤ key m)
          → In m (best ∷ x ∷ xs) × ((a : A) → In a (best ∷ x ∷ xs) → key a ≤ key m)
      raised {m} up (h, b) = (inr h, all)
        where
          all : (a : A) → In a (best ∷ x ∷ xs) → key a ≤ key m
          all a (inl e) = ground (arith, b x (inl refl), ap key e)
          all a (inr k) = b a k

      held :
          {m : A}
          → leb (key best) (key x) ≡ false
          → In m (best ∷ xs) × ((a : A) → In a (best ∷ xs) → key a ≤ key m)
          → In m (best ∷ x ∷ xs) × ((a : A) → In a (best ∷ x ∷ xs) → key a ≤ key m)
      held {m} down (h, b) = (past h, all)
        where
          past : In m (best ∷ xs) → In m (best ∷ x ∷ xs)
          past (inl e) = inl e
          past (inr k) = inr (inr k)

          all : (a : A) → In a (best ∷ x ∷ xs) → key a ≤ key m
          all a (inl e) = b a (inl e)
          all a (inr (inl e)) = ground (arith, b best (inl refl), ap key e)
          all a (inr (inr k)) = b a (inr k)

-- An advertisement that counts for a destination at a time.
abbrev pub Matches : Ipv4Addr → Instant → Advertisement → Type 0
Matches destination now a = (now < a.expires_at) × (contains a.prefix destination ≡ true)

-- The specification of a lookup: no route only if nothing matches, and otherwise that of a matching
-- advertisement than which none has a longer prefix.
abbrev pub Selects : RouteRegistry → Ipv4Addr → Instant → Option SelectedRoute → Type 0
Selects r destination now none = (a : Advertisement) → In a r → ¬ Matches destination now a
Selects r destination now (some route) =
    (a : Advertisement) × In a r
    × (a.route ≡ route)
    × Matches destination now a
    × ((b : Advertisement)
        → In b r
        → Matches destination now b
        → b.prefix.length ≤ route.prefix.length)

abbrev candidates : RouteRegistry → Ipv4Addr → Instant → List Advertisement
candidates r destination now =
    retain (λ a. contains a.prefix destination) (retain (λ a. ltb now a.expires_at) r)

In-candidates :
    (r : RouteRegistry) (destination now : ℕ) (a : Advertisement)
    → In a (candidates r destination now)
    → In a r × Matches destination now a
In-candidates r destination now a h =
    let (live, within) = In-retain (λ a. contains a.prefix destination) a _ h in
    let (m, unexpired) = In-retain (λ a. ltb now a.expires_at) a r live in
    (m, (ltb→lt now a.expires_at unexpired, within))

candidates-In :
    (r : RouteRegistry) (destination now : ℕ) (a : Advertisement)
    → In a r
    → Matches destination now a
    → In a (candidates r destination now)
candidates-In r destination now a m h =
    retain-In (λ a. contains a.prefix destination) a _
      (retain-In (λ a. ltb now a.expires_at) a r m (lt→ltb now a.expires_at h.0)) h.1

max_by_key-Selects :
    (r : RouteRegistry) (destination now : ℕ) (cs : List Advertisement)
    → ((a : Advertisement) → In a cs → In a r × Matches destination now a)
    → ((a : Advertisement) → In a r → Matches destination now a → In a cs)
    → Selects r destination now (Option.map (λ a. a.route) (max_by_key (λ a. a.prefix.length) cs))
unfolding max_by_key
max_by_key-Selects r destination now [] sound complete = λ a m h. complete a m h
max_by_key-Selects r destination now (c ∷ cs) sound complete =
    let (found, greatest) = max_from_lem (λ (a : Advertisement). a.prefix.length) c cs in
    let a = max_from (λ (a : Advertisement). a.prefix.length) c cs in
    let (m, h) = sound a found in (a, m, refl, h, λ b mb hb. greatest b (complete b mb hb))

-- In every table and at every time, a lookup returns a longest unexpired prefix that contains the
-- destination, and no route only if there is none.
pub lookup-Selects :
    (r : RouteRegistry) (destination : Ipv4Addr) (now : Instant)
    → Selects r destination now (lookup r destination now).0
unfolding lookup remove_expired
lookup-Selects r destination now =
    max_by_key-Selects r destination now (candidates r destination now)
      (In-candidates r destination now) (candidates-In r destination now)
