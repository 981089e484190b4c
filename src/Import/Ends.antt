-- ===== src/Import/Ends.antt =====
-- What is known of the state in which a step of src/bin/import.rs ends.
use starnext_import.Import.{Flow, next, skip, dies, starved, and_next}

-- `P` holds if the next step follows, `Q` if the file is given up, and `R` if the program stops.
abbrev pub Ends {ℓ} : {W : Type 0} → (W → Type ℓ) → (W → Type ℓ) → (W → Type ℓ) → Flow W → Type ℓ
Ends P Q R (next w) = P w
Ends P Q R (skip w) = Q w
Ends P Q R (dies w) = R w
Ends P Q R (starved w) = R w

pub Ends-and_next {ℓ} :
    {W : Type 0} (P P' Q R : W → Type ℓ) (m : Flow W) (rest : W → Flow W)
    → Ends P Q R m
    → ((w : W) → P w → Ends P' Q R (rest w))
    → Ends P' Q R (and_next m rest)
Ends-and_next P P' Q R (next w) rest h k = k w h
Ends-and_next P P' Q R (skip w) rest h k = h
Ends-and_next P P' Q R (dies w) rest h k = h
Ends-and_next P P' Q R (starved w) rest h k = h

pub Ends-imp {ℓ} :
    {W : Type 0} {P P' Q Q' R R' : W → Type ℓ}
    → ((w : W) → P w → P' w)
    → ((w : W) → Q w → Q' w)
    → ((w : W) → R w → R' w)
    → (m : Flow W) → Ends P Q R m
    → Ends P' Q' R' m
Ends-imp p q r (next w) h = p w h
Ends-imp p q r (skip w) h = q w h
Ends-imp p q r (dies w) h = r w h
Ends-imp p q r (starved w) h = r w h

-- The next step follows, in a state of which `P` holds.
abbrev pub Goes : {W : Type 0} → (W → Type 0) → Flow W → Type 0
Goes P = Ends P (λ _. ⊥) (λ _. ⊥)

pub Goes-Ends :
    {W : Type 0} (P Q R : W → Type 0) (m : Flow W) → Goes (λ _. Unit) m → Ends P Q R m → Goes P m
Goes-Ends P Q R (next w) g h = h
Goes-Ends P Q R (skip w) g h = g
Goes-Ends P Q R (dies w) g h = g
Goes-Ends P Q R (starved w) g h = g
