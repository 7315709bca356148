-- ===== src/Result.antt =====
-- Errors as values, and the monad of methods that change an object and may fail.
-- What was written before an error stays written, so the state comes back beside it too.
use hayate.Prelude.{ℕ, ◌≡◌, refl, ◌∙◌, Bool, List, [], ◌∷◌, if◌then◌else◌}
use hayate.Prelude.Text.{Text}

-- The `anyhow::Error` values, told apart by the place that raises them. `library` is any error
-- that a third-party call returns.
pub data Error : Type 0 where
  storage_not_available channel_closed block_decode_failed address_failed : Error
  slot_before_current : ℕ → ℕ → Error
  zero_blocks : Error
  block_not_found target_not_found missing_snapshot invalid_snapshot_name : Text → Error
  walk_failed : ℕ → Error
  -- `map_err` around the error of a call, told apart by the place of the call
  connect_failed tip_query_failed metadata_query_failed target_query_failed : Error → Error
  library : ℕ → Error

pub data Result (A : Type 0) : Type 0 where
  ok : A → Result A
  err : Error → Result A

-- `Result::map`
abbrev pub map_ok : {A B : Type 0} → (A → B) → Result A → Result B
map_ok f (ok a) = ok (f a)
map_ok f (err e) = err e

abbrev pub ⊤ : Type 0
⊤ = Unit

abbrev pub Exec : Type 0 → Type 0 → Type 0
Exec S A = S → Result A × S

module _ {S A : Type 0} where
  abbrev pub pure : A → Exec S A
  pure a s = (ok a, s)

  abbrev pub raise : Error → Exec S A
  raise e s = (err e, s)

  abbrev pub gets : (S → A) → Exec S A
  gets f s = (ok (f s), s)

  -- `e?` on a pure result.
  abbrev pub lift : Result A → Exec S A
  lift r s = (r, s)

module _ {S A B : Type 0} where
  abbrev pub continue : Result A → (A → Exec S B) → Exec S B
  continue (ok a) f s = f a s
  continue (err e) f s = (err e, s)

  infixl 5 ◌>>=◌ ◌>>◌
  abbrev pub ◌>>=◌ : Exec S A → (A → Exec S B) → Exec S B
  ◌>>=◌ m f s = let (r, s') = m s in continue r f s'

  abbrev pub ◌>>◌ : Exec S A → Exec S B → Exec S B
  ◌>>◌ m k s = let (r, s') = m s in continue r (λ _. k) s'

-- `m.map_err(f)`
abbrev pub wrap_error : {A : Type 0} → (Error → Error) → Result A → Result A
wrap_error f (ok a) = ok a
wrap_error f (err e) = err (f e)

abbrev pub map_err : {S A : Type 0} → (Error → Error) → Exec S A → Exec S A
map_err f m s = let (r, s') = m s in (wrap_error f r, s')

abbrev pub modify : {S : Type 0} → (S → S) → Exec S ⊤
modify f s = (ok tt, f s)

abbrev pub when : {S : Type 0} → Bool → Exec S ⊤ → Exec S ⊤
when b m = if b then m else pure tt

-- `for x in xs { f(x)?; }`
unfoldable pub for_each : {S A : Type 0} → List A → (A → Exec S ⊤) → Exec S ⊤
for_each [] f = pure tt
for_each (x ∷ xs) f = f x >> for_each xs f

-- What `m` returns from `s`, and where it leaves the state.
abbrev pub Returns : {S A : Type 0} → Exec S A → S → A → S → Type 0
Returns m s a s' = m s ≡ (ok a, s')

pub Returns-bind :
    {S A B : Type 0} (m : Exec S A) (f : A → Exec S B) {s s' s'' : S} {a : A} {b : B}
    → Returns m s a s'
    → Returns (f a) s' b s''
    → Returns (m >>= f) s b s''
Returns-bind m f h k = rw h k

pub Returns-then :
    {S A B : Type 0} (m : Exec S A) (n : Exec S B) {s s' s'' : S} {a : A} {b : B}
    → Returns m s a s'
    → Returns n s' b s''
    → Returns (m >> n) s b s''
Returns-then m n h k = rw h k

-- A property that `m` keeps, whether it succeeds or fails.
abbrev pub Keeps : {S A : Type 0} → (S → Type 0) → Exec S A → Type 0
Keeps {S} P m = (s : S) → P s → P (m s).1

module _ {S A B : Type 0} (P : S → Type 0) where
  Keeps-continue :
      (r : Result A) (f : A → Exec S B)
      → ((a : A) → Keeps P (f a))
      → (s : S) → P s
      → P (continue r f s).1
  Keeps-continue (ok a) f h s p = h a s p
  Keeps-continue (err e) f h s p = p

  pub Keeps-bind :
      (m : Exec S A) (f : A → Exec S B) → Keeps P m → ((a : A) → Keeps P (f a)) → Keeps P (m >>= f)
  Keeps-bind m f h k s p = Keeps-continue (m s).0 f k (m s).1 (h s p)

  pub Keeps-then : (m : Exec S A) (n : Exec S B) → Keeps P m → Keeps P n → Keeps P (m >> n)
  Keeps-then m n h k s p = Keeps-continue (m s).0 (λ _. n) (λ _. k) (m s).1 (h s p)

module _ {S A B C : Type 0} (m : Exec S A) (n : Exec S B) (k : Exec S C) where
  then_assoc : (s : S) → (m >> (n >> k)) s ≡ ((m >> n) >> k) s
  then_assoc s = go (m s)
    where
      go :
          (p : Result A × S)
          → (let (r, t) = p in continue r (λ _. n >> k) t)
            ≡ (let (r', t') = (let (r, t) = p in continue r (λ _. n) t) in continue r' (λ _. k) t')
      go (ok a, t) = refl
      go (err e, t) = refl

  pub Returns-then_then :
      (s : S) {s' s'' : S} {b : B} {c : C}
      → Returns (m >> n) s b s'
      → Returns k s' c s''
      → Returns (m >> (n >> k)) s c s''
  Returns-then_then s h g = then_assoc s ∙ Returns-then (m >> n) k h g

-- A part `T` of a state `S`.
pub record At (S T : Type 0) : Type 0 where
  pub look : S → T
  pub put : T → S → S

-- A method of the part, run on the whole.
abbrev pub within : {S T A : Type 0} → At S T → Exec T A → Exec S A
within part m s = let (r, t) = m (part.look s) in (r, part.put t s)
