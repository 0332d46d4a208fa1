-- ===== src/Prelude/Splits.antt =====
-- What `position`, `remove_at`, `insert_at` and `filter` make of a list.
use Prim.Native.Nat.{ℕ, zero, suc, ◌≤◌}
use mathlib.Core.Path.{◌≡◌, refl, ap}
use mathlib.Core.Logic.{inl, inr}
use mathlib.Core.Bool.{Bool, true, false, not}
use mathlib.Core.Option.{Option, none, some}
use mathlib.Core.List.{List, [], ◌∷◌, ◌++◌, append-nil, append_assoc, Perm, perm_middle}
use mathlib.Core.List.Perm
use native.Mathlib.Omega.{arith}
use minicore_agent.Prelude.Tests.{Bool-cases}
use minicore_agent.Prelude.Lists.{length, get_elem?, filter, position, remove_at, insert_at}

module _ {A : Type 0} where
  pub filter-append :
      (p : A → Bool) (xs ys : List A) → filter p (xs ++ ys) ≡ filter p xs ++ filter p ys
  filter-append p [] ys = refl
  filter-append p (x ∷ xs) ys = ground (arith, filter-append p xs ys)

  -- The list around the first element that passes the test.
  pub record SplitAt (p : A → Bool) (xs : List A) (i : ℕ) : Type 0 where
    pub pre : List A
    pub found : A
    pub post : List A
    pub whole : xs ≡ pre ++ found ∷ post
    pub passes : p found ≡ true
    pub none_before : filter p pre ≡ []
    pub at : get_elem? xs i ≡ some found
    pub removed : remove_at i xs ≡ pre ++ post
    pub inserted : (a : A) → insert_at i a xs ≡ pre ++ (a ∷ (found ∷ post))

  push_front :
      (p : A → Bool) (x : A) (xs : List A) (i : ℕ)
      → p x ≡ false
      → SplitAt p xs i
      → SplitAt p (x ∷ xs) (suc i)
  push_front p x xs i miss s = record {
    pre = x ∷ s.pre;
    found = s.found;
    post = s.post;
    whole = ap (◌∷◌ x) s.whole;
    passes = s.passes;
    none_before = rw miss s.none_before;
    at = s.at;
    removed = ap (◌∷◌ x) s.removed;
    inserted = λ a. ap (◌∷◌ x) (s.inserted a);
  }

  pub position-SplitAt :
      (p : A → Bool) (xs : List A) (i : ℕ) → position p xs ≡ some i → SplitAt p xs i
  position-SplitAt p [] i e = absurd (cc)
  position-SplitAt p (x ∷ xs) i e = elim (Bool-cases (p x)) [
    | inl hit ↦
        let zero_eq : i ≡ 0 = ground arith in
        rw zero_eq (record {
          pre = [];
          found = x;
          post = xs;
          whole = refl;
          passes = hit;
          none_before = refl;
          at = refl;
          removed = refl;
          inserted = λ a. refl;
        })
    | inr miss ↦ later miss (position p xs) refl (position-SplitAt p xs)
  ]
    where
      later :
          p x ≡ false
          → (o : Option ℕ) → position p xs ≡ o
          → ((j : ℕ) → position p xs ≡ some j → SplitAt p xs j)
          → SplitAt p (x ∷ xs) i
      later miss none o ih = absurd (ground arith)
      later miss (some j) o ih =
          let next : i ≡ suc j = ground arith in rw next (push_front p x xs j miss (ih j o))

  -- Without a hit nothing passes.
  pub position-none :
      (p : A → Bool) (xs : List A)
      → position p xs ≡ none
      → (filter p xs ≡ []) × (filter (λ x. not (p x)) xs ≡ xs)
  position-none p [] e = (refl, refl)
  position-none p (x ∷ xs) e = ground (arith, position-none p xs)

  pub insert_at-length : (a : A) (xs : List A) → insert_at (length xs) a xs ≡ xs ++ a ∷ []
  insert_at-length a [] = refl
  insert_at-length a (x ∷ xs) = ap (◌∷◌ x) (insert_at-length a xs)

  pub insert_at-perm : (i : ℕ) (a : A) (xs : List A) → Perm (insert_at i a xs) (a ∷ xs)
  insert_at-perm zero a xs = Perm.refl (a ∷ xs)
  insert_at-perm (suc i) a [] = Perm.refl (a ∷ [])
  insert_at-perm (suc i) a (x ∷ xs) =
      Perm.trans (Perm.cons x (insert_at-perm i a xs)) (Perm.swap a x xs)

  pub remove_at-perm :
      (i : ℕ) (xs : List A) {a : A} → get_elem? xs i ≡ some a → Perm xs (a ∷ remove_at i xs)
  remove_at-perm i [] e = absurd (cc)
  remove_at-perm zero (x ∷ xs) e = Perm.cons' (cc) (Perm.refl xs)
  remove_at-perm (suc i) (x ∷ xs) {a} e =
      Perm.trans (Perm.cons x (remove_at-perm i xs e)) (Perm.swap a x (remove_at i xs))

  pub partition-perm :
      (p : A → Bool) (xs : List A) → Perm xs (filter p xs ++ filter (λ x. not (p x)) xs)
  partition-perm p [] = Perm.nil
  partition-perm p (x ∷ xs) =
      let rest = Perm.cons x (partition-perm p xs) in
      let moved = Perm.symm (perm_middle {a = x} (filter p xs) (filter (λ x. not (p x)) xs)) in
      ground (arith, rest, Perm.trans rest moved)

  pub length-insert_at : (i : ℕ) (a : A) (xs : List A) → length (insert_at i a xs) ≡ suc (length xs)
  length-insert_at zero a xs = refl
  length-insert_at (suc i) a [] = refl
  length-insert_at (suc i) a (x ∷ xs) = ap suc (length-insert_at i a xs)

  pub length-remove_at :
      (i : ℕ) (xs : List A) {a : A}
      → get_elem? xs i ≡ some a
      → length xs ≡ suc (length (remove_at i xs))
  length-remove_at i [] e = absurd (cc)
  length-remove_at zero (x ∷ xs) e = refl
  length-remove_at (suc i) (x ∷ xs) e = ap suc (length-remove_at i xs e)

  pub length-filter-le : (p : A → Bool) (xs : List A) → length (filter p xs) ≤ length xs
  length-filter-le p [] = omega arith
  length-filter-le p (x ∷ xs) = ground (arith, length-filter-le p xs)

  pub swap_perm : (xs ys : List A) → Perm (xs ++ ys) (ys ++ xs)
  swap_perm [] ys = rw append-nil (Perm.refl ys)
  swap_perm (x ∷ xs) ys = Perm.trans (Perm.cons x (swap_perm xs ys)) (Perm.symm (perm_middle ys xs))

  -- What is moved behind a middle part.
  pub behind_perm : (xs ys zs : List A) → Perm (xs ++ (ys ++ zs)) (ys ++ (xs ++ zs))
  behind_perm xs ys zs =
      rw (← append_assoc xs ys zs)
        (rw (← append_assoc ys xs zs) (Perm.append_right zs (swap_perm xs ys)))
