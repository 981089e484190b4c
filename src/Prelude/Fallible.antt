-- ===== src/Prelude/Fallible.antt =====
-- `Result<A, E>` of code that may also panic: the ways in which a call ends.
use mathlib.Core.Path.{◌≡◌, refl}
use mathlib.Core.Option.{Option, none, some}
use mathlib.Core.List.{List, [], ◌∷◌}

pub data Outcome {ℓ} (E : Type 0) (A : Type ℓ) : Type ℓ where
  ok : A → Outcome E A
  err : E → Outcome E A
  panic : Outcome E A
  -- the fuel of a loop ran out
  running : Outcome E A

infixl 5 ◌>>=◌ ◌>>◌
abbrev pub ◌>>=◌ {ℓ κ} :
    {E : Type 0} {A : Type ℓ} {B : Type κ} → Outcome E A → (A → Outcome E B) → Outcome E B
ok a >>= f = f a
err e >>= f = err e
panic >>= f = panic
running >>= f = running

abbrev pub ◌>>◌ {ℓ} : {E : Type 0} {B : Type ℓ} → Outcome E (Unit {0}) → Outcome E B → Outcome E B
m >> k = m >>= λ _. k

-- `o.unwrap()`.
abbrev pub unwrap {ℓ} : {E : Type 0} {A : Type ℓ} → Option A → Outcome E A
unwrap (some a) = ok a
unwrap none = panic

-- `r.unwrap()`.
abbrev pub unwrap_ok {ℓ} : {D E : Type 0} {A : Type ℓ} → Outcome D A → Outcome E A
unwrap_ok (ok a) = ok a
unwrap_ok (err _) = panic
unwrap_ok panic = panic
unwrap_ok running = running

-- `o.ok_or(e)`.
abbrev pub ok_or {ℓ} : {E : Type 0} {A : Type ℓ} → Option A → E → Outcome E A
ok_or (some a) e = ok a
ok_or none e = err e

-- `r.map_err(f)`, and what `?` does with a `From` conversion.
abbrev pub map_err {ℓ} : {D E : Type 0} {A : Type ℓ} → (D → E) → Outcome D A → Outcome E A
map_err f (ok a) = ok a
map_err f (err e) = err (f e)
map_err f panic = panic
map_err f running = running

pub >>=-eq-ok {ℓ κ} :
    {E : Type 0} {A : Type ℓ} {B : Type κ} (call : Outcome E A) (rest : A → Outcome E B)
    {result : B}
    → (call >>= rest) ≡ ok result
    → (value : A) × (call ≡ ok value) × (rest value ≡ ok result)
>>=-eq-ok panic rest ends = cc
>>=-eq-ok running rest ends = cc
>>=-eq-ok (err e) rest ends = cc
>>=-eq-ok (ok value) rest ends = (value, refl, ends)

-- The loop `for x in xs` with a state: it ends at the first error or panic.
unfoldable pub fold_loop {ℓ κ} :
    {E : Type 0} {A : Type ℓ} {S : Type κ} → (S → A → Outcome E S) → List A → S → Outcome E S
fold_loop body [] s = ok s
fold_loop body (x ∷ xs) s = body s x >>= fold_loop body xs

-- An invariant that each round keeps without error or panic holds at the end of the loop.
pub fold_loop_inv {ℓ κ μ} :
    {E : Type 0} {A : Type ℓ} {S : Type κ} (P : List A → S → Type μ) (body : S → A → Outcome E S)
    → ((x : A) (xs : List A) (s : S) → P (x ∷ xs) s → (s' : S) × (body s x ≡ ok s') × P xs s')
    → (xs : List A) (s : S) → P xs s
    → (s' : S) × (fold_loop body xs s ≡ ok s') × P [] s'
unfolding fold_loop
fold_loop_inv P body keep [] s h = (s, refl, h)
fold_loop_inv P body keep (x ∷ xs) s h =
    let (s1, e, p) = keep x xs s h in
    let (s', e', p') = fold_loop_inv P body keep xs s1 p in (s', rw e e', p')

-- A call that ends without error gives a value that satisfies `P`.
abbrev pub Gives {ℓ κ} : {E : Type 0} {A : Type ℓ} → (A → Type κ) → Outcome E A → Type κ
Gives P (ok a) = P a
Gives P (err e) = Unit
Gives P panic = Unit
Gives P running = Unit

pub Gives->>= {ℓ κ μ} :
    {E : Type 0} {A : Type ℓ} {B : Type κ} (P : B → Type μ) (m : Outcome E A)
    (rest : A → Outcome E B)
    → ((a : A) → m ≡ ok a → Gives P (rest a))
    → Gives P (m >>= rest)
Gives->>= P (ok a) rest h = h a refl
Gives->>= P (err e) rest h = tt
Gives->>= P panic rest h = tt
Gives->>= P running rest h = tt

-- The same, for what the first call is known to give.
pub Gives-then {ℓ κ μ ν} :
    {E : Type 0} {A : Type ℓ} {B : Type κ} (Q : A → Type ν) (P : B → Type μ) (m : Outcome E A)
    (rest : A → Outcome E B)
    → Gives Q m
    → ((a : A) → Q a → Gives P (rest a))
    → Gives P (m >>= rest)
Gives-then Q P (ok a) rest q h = h a q
Gives-then Q P (err e) rest q h = tt
Gives-then Q P panic rest q h = tt
Gives-then Q P running rest q h = tt

pub Gives-fold_loop {ℓ κ μ} :
    {E : Type 0} {A : Type ℓ} {S : Type κ} (P : S → Type μ) (body : S → A → Outcome E S)
    → ((s : S) (x : A) → P s → Gives P (body s x))
    → (xs : List A) (s : S) → P s
    → Gives P (fold_loop body xs s)
unfolding fold_loop
Gives-fold_loop P body keep [] s h = h
Gives-fold_loop P body keep (x ∷ xs) s h =
    Gives-then P P (body s x) (fold_loop body xs) (keep s x h) (Gives-fold_loop P body keep xs)

-- The same, for a first call whose value is known.
pub Gives-at {ℓ κ μ} :
    {E : Type 0} {A : Type ℓ} {B : Type κ} (P : B → Type μ) (m : Outcome E A)
    (rest : A → Outcome E B) (a : A)
    → m ≡ ok a
    → Gives P (rest a)
    → Gives P (m >>= rest)
Gives-at P m rest a e h = rw e h

pub Gives-any {ℓ} : {E : Type 0} {A : Type ℓ} (m : Outcome E A) → Gives (λ (a : A). Unit {0}) m
Gives-any (ok a) = tt
Gives-any (err e) = tt
Gives-any panic = tt
Gives-any running = tt
