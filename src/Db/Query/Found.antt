-- ===== src/Db/Query/Found.antt =====
-- Which rows a query finds after an insertion, a deletion or an update.
use otdel.Prelude.{
  ◌≡◌, refl, ◌∙◌, inl, inr, Bool, true, false, ◌||◌, not, none, some, List, [], ◌∷◌, ◌++◌, arith,
  Bool-cases, any, filter, find?,
}
use otdel.Db.Query.{update_where, count, IsUnique}

module _ {ℓ} {A : Type ℓ} where
  pub any_of_find? : (p : A → Bool) (xs : List A) → find? xs p ≡ none → any xs p ≡ false
  any_of_find? p [] h = refl
  any_of_find? p (x ∷ xs) h = ground (arith, any_of_find? p xs)

  pub find?_of_any : (p : A → Bool) (xs : List A) → any xs p ≡ false → find? xs p ≡ none
  find?_of_any p [] h = refl
  find?_of_any p (x ∷ xs) h = ground (arith, find?_of_any p xs)

  -- The row that a query finds passes its test.
  pub find?-passes : (p : A → Bool) (xs : List A) {x : A} → find? xs p ≡ some x → p x ≡ true
  find?-passes p [] h = ground arith
  find?-passes p (x ∷ xs) {x = y} h = elim (Bool-cases (p x)) [
    | inl t ↦ ground (arith)
    | inr t ↦ find?-passes p xs (ground arith)
  ]

  -- No row passes a narrower test when none passes the wider one.
  pub any-narrower :
      (p q : A → Bool) (xs : List A)
      → ((x : A) → q x ≡ true → p x ≡ true)
      → any xs p ≡ false
      → any xs q ≡ false
  any-narrower p q [] f h = refl
  any-narrower p q (x ∷ xs) f h = ground (arith, any-narrower p q xs f, f x)

  -- A row put at the end is found if it passes and no other row does.
  pub find?-append :
      (p : A → Bool) (xs ys : List A) → any xs p ≡ false → find? (xs ++ ys) p ≡ find? ys p
  find?-append p [] ys h = refl
  find?-append p (x ∷ xs) ys h = ground (arith, find?-append p xs ys)

  pub any-append : (p : A → Bool) (xs ys : List A) → any (xs ++ ys) p ≡ (any xs p || any ys p)
  any-append p [] ys = refl
  any-append p (x ∷ xs) ys = ground (arith, any-append p xs ys)

  -- Rows that no query of this kind finds can be deleted before it.
  pub find?-filter :
      (p keep : A → Bool) (xs : List A)
      → ((x : A) → p x ≡ true → keep x ≡ true)
      → find? (filter xs keep) p ≡ find? xs p
  find?-filter p keep [] f = refl
  find?-filter p keep (x ∷ xs) f = ground (arith, find?-filter p keep xs f, f x)

  pub any-filter-not : (p : A → Bool) (xs : List A) → any (filter xs (λ x. not (p x))) p ≡ false
  any-filter-not p [] = refl
  any-filter-not p (x ∷ xs) = ground (arith, any-filter-not p xs)

  -- Rows that an update does not name stay.
  pub filter-update_where :
      (p keep : A → Bool) (f : A → A) (xs : List A)
      → ((x : A) → p x ≡ true → keep x ≡ false)
      → ((x : A) → p x ≡ true → keep (f x) ≡ false)
      → filter (update_where p f xs) keep ≡ filter xs keep
  filter-update_where p keep f [] before after = refl
  filter-update_where p keep f (x ∷ xs) before after =
      ground (arith, filter-update_where p keep f xs before after, before x, after x)

  pub filter-append :
      (keep : A → Bool) (xs ys : List A) → filter (xs ++ ys) keep ≡ filter xs keep ++ filter ys keep
  filter-append keep [] ys = refl
  filter-append keep (x ∷ xs) ys = ground (arith, filter-append keep xs ys)

  -- An update that keeps what a test reads keeps whether some row passes it.
  pub any-update_where :
      (p q : A → Bool) (f : A → A) (xs : List A)
      → ((x : A) → q (f x) ≡ q x)
      → any (update_where p f xs) q ≡ any xs q
  any-update_where p q f [] same = refl
  any-update_where p q f (x ∷ xs) same = ground (arith, any-update_where p q f xs same, same x)

  -- After an update that ends the condition it tests, no row passes the test.
  pub any-update_where-done :
      (p : A → Bool) (f : A → A) (xs : List A)
      → ((x : A) → p (f x) ≡ false)
      → any (update_where p f xs) p ≡ false
  any-update_where-done p f [] done = refl
  any-update_where-done p f (x ∷ xs) done =
      ground (arith, any-update_where-done p f xs done, done x)

  pub update_where-none :
      (p : A → Bool) (f : A → A) (xs : List A) → any xs p ≡ false → update_where p f xs ≡ xs
  update_where-none p f [] h = refl
  update_where-none p f (x ∷ xs) h = ground (arith, update_where-none p f xs)

  pub count-none : (p : A → Bool) (xs : List A) → any xs p ≡ false → count p xs ≡ 0
  count-none p [] h = refl
  count-none p (x ∷ xs) h = ground (arith, count-none p xs)

  -- The updated row is the one that a query for it finds.
  pub find?-update_where :
      (p : A → Bool) (f : A → A) (xs : List A)
      → ((x : A) → p (f x) ≡ p x)
      → {x : A} → find? xs p ≡ some x
      → find? (update_where p f xs) p ≡ some (f x)
  find?-update_where p f [] same h = absurd (ground arith)
  find?-update_where p f (y ∷ ys) same {x} h =
      ground (arith, find?-update_where p f ys same {x = x}, same y)

-- A UNIQUE constraint under an insertion and an update.
module _ {ℓ} {A : Type ℓ} (same : A → A → Bool) where
  pub IsUnique-append :
      (xs : List A) (y : A)
      → IsUnique same xs
      → any xs (λ x. same x y) ≡ false
      → IsUnique same (xs ++ (y ∷ []))
  IsUnique-append [] y u h = (refl, tt)
  IsUnique-append (x ∷ xs) y (u, us) h =
      (ground (arith, any-append (same x) xs (y ∷ [])), IsUnique-append xs y us (ground arith))

  pub IsUnique-update_where :
      (p : A → Bool) (f : A → A) (xs : List A)
      → ((x : A) → same (f x) ≡ same x)
      → ((x y : A) → same x (f y) ≡ same x y)
      → IsUnique same xs
      → IsUnique same (update_where p f xs)
  IsUnique-update_where p f [] left right u = tt
  IsUnique-update_where p f (x ∷ xs) left right (u, us) =
      let rest = IsUnique-update_where p f xs left right us in
      let e = any-update_where p (same x) f xs (λ y. right x y) ∙ u in
      elim (Bool-cases (p x)) [ inl t ↦ rw (t, left x) (e, rest) | inr t ↦ rw t (e, rest) ]
