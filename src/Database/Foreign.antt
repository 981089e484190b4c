-- ===== src/Database/Foreign.antt =====
-- The rows of a record number in a table of counts, and statements on other rows.
use starnext_import.Database.Rows.{Row}
use starnext_import.Database.Session.{SessionLaws, filter, has_number, rows_of}
use starnext_import.Database.Tables.{is_count_table}
use starnext_import.Prelude.{◌≢◌, ◌<◌, ◌==◌, ==_iff, u32_mod, ap}
use starnext_import.Prelude.Text.{text_eq_iff}
use starnext_import.External.Chrono.{Chrono}
use starnext_import.External.Connection.{Connection}
use starnext_import.External.Float.{Float}
use starnext_import.External.Oracle.{Oracle}
use starnext_import.Prelude.Text.{Text, codes, text_eq}
use starnext_import.Prelude.{
  ℕ, List, [], ◌∷◌, ◌++◌, ◌≡◌, refl, sym, Bool, true, false, Bool-cases, inl, inr,
}

pub filter-append {ℓ} :
    {A : Type ℓ} (keep : A → Bool) (xs ys : List A)
    → filter keep (xs ++ ys) ≡ filter keep xs ++ filter keep ys
unfolding filter
filter-append keep [] ys = refl
filter-append keep (x ∷ xs) ys = elim (Bool-cases (keep x)) [
  | inl e ↦ rw (e, filter-append keep xs ys) refl
  | inr e ↦ rw (e, filter-append keep xs ys) refl
]

-- What passes the first test passes the second too.
pub filter-filter {ℓ} :
    {A : Type ℓ} (keep also : A → Bool) (xs : List A)
    → ((x : A) → keep x ≡ true → also x ≡ true)
    → filter keep (filter also xs) ≡ filter keep xs
unfolding filter
filter-filter keep also [] h = refl
filter-filter keep also (x ∷ xs) h = elim (Bool-cases (keep x)) [
  | inl e ↦ rw (h x e, e, filter-filter keep also xs h) refl
  | inr e ↦ elim (Bool-cases (also x)) [
    | inl e' ↦ rw (e', e, filter-filter keep also xs h) refl
    | inr e' ↦ rw (e', e, filter-filter keep also xs h) refl
  ]
]

pub not_listed :
    (table t : Text)
    → is_count_table table ≡ false
    → is_count_table t ≡ true
    → text_eq table t ≡ false
not_listed table t fails holds = elim (Bool-cases (text_eq table t)) [
  | inl e ↦
      let same : is_count_table table ≡ is_count_table t =
        ap is_count_table ((text_eq_iff table t).0 e) in
      cc
  | inr e ↦ e
]

pub import_log_unlisted : is_count_table (codes "import_log") ≡ false
unfolding is_count_table text_eq
import_log_unlisted = refl

pub tc_header_unlisted : is_count_table (codes "tc_header") ≡ false
unfolding is_count_table text_eq
tc_header_unlisted = refl

pub append_nil {ℓ} : {A : Type ℓ} (xs : List A) → xs ++ [] ≡ xs
append_nil [] = refl
append_nil (x ∷ xs) = ap (λ ys. x ∷ ys) (append_nil xs)

pub unequal : (q r : ℕ) → q ≢ r → (r == q) ≡ false
unequal q r ne = elim (Bool-cases (r == q)) [
  | inl e ↦ absurd (ne (sym ((==_iff r q).0 e)))
  | inr e ↦ e
]

module _ ⦃c : Chrono⦄ ⦃f : Float⦄ {o : Oracle c f} {conn : Connection o} (laws : SessionLaws conn)
    (q : ℕ) where
  -- The rows of `q` in a table, as the session reads them and as they were committed, are `X`.
  pub record RowsAre (t : Text) (X : List (Row o)) (s : conn.State) : Type 0 where
    pub read : rows_of o laws.equals t q (laws.rows s t) ≡ X
    pub stored : rows_of o laws.equals t q (laws.committed s t) ≡ X

  pub has_number_unique :
      (field : Text) (r : ℕ) (row : Row o)
      → has_number o laws.equals field q row ≡ true
      → has_number o laws.equals field r row ≡ true
      → q ≡ r
  unfolding has_number
  has_number_unique field r [] h k = cc
  has_number_unique field r ((n, v) ∷ row) h k = elim (Bool-cases (text_eq n field)) [
    | inl same ↦ laws.equals-unique v q r (rw same at h) (rw same at k)
    | inr other ↦ has_number_unique field r row (rw other at h) (rw other at k)
  ]

  pub other_first :
      (field : Text) (r : ℕ) (left : Row o)
      → q ≢ r
      → r < u32_mod
      → has_number o laws.equals field q ((field, o.of_u32 r) ∷ left) ≡ false
  unfolding has_number
  other_first field r left ne bound =
      rw ((text_eq_iff field field).1 refl, laws.equals-of_u32 r q bound, unequal q r ne) refl
