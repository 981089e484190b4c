-- ===== src/FieldMetadata/Parts.antt =====
-- Splitting and joining: `split`, `to_str` and `file_stem` on names with known separators.
use starnext_import.Prelude.{
  ℕ, ◌+◌, ◌≡◌, ◌≢◌, refl, ap, false, List, [], ◌∷◌, ◌++◌, none, some, length, All, ◌==◌,
  if◌then◌else◌, arith, Bool-cases, Option-cases, inl, inr,
}
use starnext_import.Prelude.FilePath.{
  FilePath, Component, normal, OsText, char, stray, os_text, to_str, before_last_dot, stem,
  file_name, file_stem, last_component,
}
use starnext_import.Prelude.Text.{Text, split, onto_first}

-- `c` does not stand in the text.
abbrev pub Lacks : ℕ → Text → Type 0
Lacks c = All (λ x. (x == c) ≡ false)

pub split_last : (c : ℕ) (s : Text) → Lacks c s → split c s ≡ s ∷ []
unfolding split
split_last c [] h = refl
split_last c (x ∷ s) h = rw (h.0, split_last c s h.1)

pub split_front : (c : ℕ) (s t : Text) → Lacks c s → split c (s ++ c ∷ t) ≡ s ∷ split c t
unfolding split
split_front c [] t h = ground arith
split_front c (x ∷ s) t h = rw (h.0, split_front c s t h.1)

pub to_str-os_text : (t : Text) → to_str (os_text t) ≡ some t
unfolding to_str
to_str-os_text [] = refl
to_str-os_text (c ∷ t) = rw (to_str-os_text t)

pub os_text_of_to_str : (n : OsText) {t : Text} → to_str n ≡ some t → n ≡ os_text t
unfolding to_str
os_text_of_to_str [] h = ground arith
os_text_of_to_str (stray b ∷ n) h = cc
os_text_of_to_str (char c ∷ n) {t} h = elim (Option-cases (to_str n)) [
  | inl e ↦ absurd (ground arith)
  | inr (u, e) ↦ ground (arith, os_text_of_to_str n e)
]

before_last_dot-Lacks : (t : Text) → Lacks b'.' t → before_last_dot (os_text t) ≡ none
unfolding before_last_dot
before_last_dot-Lacks [] h = refl
before_last_dot-Lacks (c ∷ t) h = rw (before_last_dot-Lacks t h.1, h.0)

before_last_dot_front :
    (s ext : Text) → Lacks b'.' ext → before_last_dot (os_text (s ++ b'.' ∷ ext)) ≡ some (os_text s)
unfolding before_last_dot
before_last_dot_front [] ext h = rw (before_last_dot-Lacks ext h)
before_last_dot_front (c ∷ s) ext h = rw (before_last_dot_front s ext h)

-- The stem of a name with an extension.
pub stem-os_text :
    (s ext : Text) → s ≢ [] → Lacks b'.' ext → stem (os_text (s ++ b'.' ∷ ext)) ≡ os_text s
unfolding stem
stem-os_text [] ext ne h = absurd (ne refl)
stem-os_text (c ∷ s) ext ne h = rw (before_last_dot_front (c ∷ s) ext h)

pub last_component-concat :
    (dir : FilePath) (c : Component) → last_component (dir ++ c ∷ []) ≡ some c
unfolding last_component
last_component-concat [] c = refl
last_component-concat (d ∷ []) c = refl
last_component-concat (d ∷ e ∷ dir) c = last_component-concat (e ∷ dir) c

pub file_stem-concat :
    (dir : FilePath) (n : OsText) → file_stem (dir ++ normal n ∷ []) ≡ some (stem n)
unfolding file_stem file_name
file_stem-concat dir n = rw (last_component-concat dir (normal n), file_stem, file_name)

-- The parts with the separator between them.
unfoldable pub join : ℕ → List Text → Text
join c [] = []
join c (p ∷ []) = p
join c (p ∷ q ∷ ps) = p ++ c ∷ join c (q ∷ ps)

join-onto_first : (c x : ℕ) (ps : List Text) → ps ≢ [] → join c (onto_first x ps) ≡ x ∷ join c ps
unfolding join
join-onto_first c x [] ne = absurd (ne refl)
join-onto_first c x (p ∷ []) ne = refl
join-onto_first c x (p ∷ q ∷ ps) ne = refl

onto_first-ne-nil : (x : ℕ) (ps : List Text) → onto_first x ps ≢ []
onto_first-ne-nil x [] = λ e. cc
onto_first-ne-nil x (p ∷ ps) = λ e. cc

pub split-ne-nil : (c : ℕ) (s : Text) → split c s ≢ []
unfolding split
split-ne-nil c [] = λ e. cc
split-ne-nil c (x ∷ s) = elim (Bool-cases (x == c)) [
  | inl sep ↦ rw sep (λ e. cc)
  | inr other ↦ rw other (onto_first-ne-nil x (split c s))
]

join-cons : (c : ℕ) (ps : List Text) → ps ≢ [] → join c ([] ∷ ps) ≡ c ∷ join c ps
unfolding join
join-cons c [] ne = absurd (ne refl)
join-cons c (p ∷ ps) ne = refl

-- Joining the parts of a text gives it back, and no part holds the separator.
pub join-split : (c : ℕ) (s : Text) → join c (split c s) ≡ s
unfolding split
join-split c [] = unfold join in refl
join-split c (x ∷ s) = elim (Bool-cases (x == c)) [
  | inl sep ↦
      rw sep (rw (join-cons c (split c s) (split-ne-nil c s)) (ground (arith, join-split c s)))
  | inr other ↦
      rw other
        (rw (join-onto_first c x (split c s) (split-ne-nil c s)) (ap (◌∷◌ x) (join-split c s)))
]

onto_first-Lacks :
    (c x : ℕ) (ps : List Text)
    → (x == c) ≡ false
    → All (Lacks c) ps
    → All (Lacks c) (onto_first x ps)
onto_first-Lacks c x [] h a = ((h, tt), tt)
onto_first-Lacks c x (p ∷ ps) h a = ((h, a.0), a.1)

pub split-Lacks : (c : ℕ) (s : Text) → All (Lacks c) (split c s)
unfolding split
split-Lacks c [] = (tt, tt)
split-Lacks c (x ∷ s) = elim (Bool-cases (x == c)) [
  | inl sep ↦ rw sep (tt, split-Lacks c s)
  | inr other ↦ rw other (onto_first-Lacks c x (split c s) other (split-Lacks c s))
]

-- How often `c` stands in the text.
abbrev pub count : ℕ → Text → ℕ
count c [] = 0
count c (x ∷ s) = (if x == c then 1 else 0) + count c s

length-onto_first : (x : ℕ) (ps : List Text) → ps ≢ [] → length (onto_first x ps) ≡ length ps
length-onto_first x [] ne = absurd (ne refl)
length-onto_first x (p ∷ ps) ne = refl

pub length-split : (c : ℕ) (s : Text) → length (split c s) ≡ count c s + 1
unfolding split
length-split c [] = refl
length-split c (x ∷ s) = elim (Bool-cases (x == c)) [
  | inl sep ↦ rw sep (omega (arith, length-split c s))
  | inr other ↦
      rw other (omega (arith, length-split c s, length-onto_first x (split c s) (split-ne-nil c s)))
]
