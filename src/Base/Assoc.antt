-- ===== src/Base/Assoc.antt =====
-- Dicts with text keys: lists of pairs in the order of insertion, every key once.
use mathlib.Core.Path.{◌≡◌, refl, sym, ◌∙◌}
use mathlib.Core.Bool.{false}
use mathlib.Core.Logic.{inl, inr}
use mathlib.Core.Option.{Option, none, some}
use mathlib.Core.List.{List, [], ◌∷◌}
use native.Mathlib.Omega.{arith}
use linkly.Base.Tests.{if◌then◌else◌, Bool-cases, Option-cases}
use linkly.Base.Text.{Text, same_text, same_text_refl, same_text→eq}

abbrev pub Assoc {ℓ} : Type ℓ → Type ℓ
Assoc A = List (Text × A)

module _ {ℓ} {A : Type ℓ} where
  -- `d.get(key)`
  unfoldable pub lookup : Text → Assoc A → Option A
  lookup key [] = none
  lookup key ((k, v) ∷ d) = let rest = lookup key d in if same_text k key then some v else rest

  -- `d[key] = value`
  unfoldable pub set_key : Text → A → Assoc A → Assoc A
  set_key key value [] = (key, value) ∷ []
  set_key key value ((k, v) ∷ d) =
      let rest = set_key key value d in if same_text k key then (k, value) ∷ d else (k, v) ∷ rest

  -- `d.pop(key, None)`, what is left
  unfoldable pub drop_key : Text → Assoc A → Assoc A
  drop_key key [] = []
  drop_key key ((k, v) ∷ d) =
      let rest = drop_key key d in if same_text k key then d else (k, v) ∷ rest

abbrev pub AllValues {ℓ κ} : {A : Type ℓ} → (A → Type κ) → Assoc A → Type κ
AllValues P [] = Unit
AllValues P ((k, v) ∷ d) = P v × AllValues P d

module _ {ℓ κ} {A : Type ℓ} (P : A → Type κ) where
  pub lookup-AllValues :
      (key : Text) (d : Assoc A) (v : A) → AllValues P d → lookup key d ≡ some v → P v
  unfolding lookup
  lookup-AllValues key [] v h e = cc
  lookup-AllValues key ((k, w) ∷ d) v h e = elim (Bool-cases (same_text k key)) [
    | inl here ↦ ground arith
    | inr there ↦ lookup-AllValues key d v h.1 (ground arith)
  ]

  pub set_key-AllValues :
      (key : Text) (v : A) (d : Assoc A) → P v → AllValues P d → AllValues P (set_key key v d)
  unfolding set_key
  set_key-AllValues key v [] p h = (p, tt)
  set_key-AllValues key v ((k, w) ∷ d) p h = elim (Bool-cases (same_text k key)) [
    | inl here ↦ rw here (p, h.1)
    | inr there ↦ rw there (h.0, set_key-AllValues key v d p h.1)
  ]

  pub drop_key-AllValues : (key : Text) (d : Assoc A) → AllValues P d → AllValues P (drop_key key d)
  unfolding drop_key
  drop_key-AllValues key [] h = tt
  drop_key-AllValues key ((k, w) ∷ d) h = elim (Bool-cases (same_text k key)) [
    | inl here ↦ rw here h.1
    | inr there ↦ rw there (h.0, drop_key-AllValues key d h.1)
  ]

pub AllValues-map {ℓ κ ι} :
    {A : Type ℓ} {P : A → Type κ} {Q : A → Type ι} (d : Assoc A)
    → ((v : A) → P v → Q v)
    → AllValues P d
    → AllValues Q d
AllValues-map [] f h = tt
AllValues-map ((k, v) ∷ d) f h = (f v h.0, AllValues-map d f h.1)

-- Reading back what was written, and what was not touched.
module _ {ℓ} {A : Type ℓ} where
  pub lookup-set_key : (key : Text) (v : A) (d : Assoc A) → lookup key (set_key key v d) ≡ some v
  unfolding lookup set_key
  lookup-set_key key v [] = rw (same_text_refl key) refl
  lookup-set_key key v ((k, w) ∷ d) = elim (Bool-cases (same_text k key)) [
    | inl here ↦ rw (here, here) refl
    | inr there ↦ rw (there, there) (lookup-set_key key v d)
  ]

  pub lookup-set_other :
      (key other : Text) (v : A) (d : Assoc A)
      → same_text other key ≡ false
      → lookup key (set_key other v d) ≡ lookup key d
  unfolding lookup set_key
  lookup-set_other key other v [] apart = rw apart refl
  lookup-set_other key other v ((k, w) ∷ d) apart = elim (Bool-cases (same_text k other)) [
    | inl here ↦
        let miss : same_text k key ≡ false = rw (same_text→eq k other here) apart in
        rw (here, miss) refl
    | inr there ↦ rw there (rw (lookup-set_other key other v d apart) refl)
  ]

  pub lookup-drop_other :
      (key other : Text) (d : Assoc A)
      → same_text other key ≡ false
      → lookup key (drop_key other d) ≡ lookup key d
  unfolding lookup drop_key
  lookup-drop_other key other [] apart = refl
  lookup-drop_other key other ((k, w) ∷ d) apart = elim (Bool-cases (same_text k other)) [
    | inl here ↦
        let miss : same_text k key ≡ false = rw (same_text→eq k other here) apart in
        rw (here, miss) refl
    | inr there ↦ rw there (rw (lookup-drop_other key other d apart) refl)
  ]

  -- `d.setdefault(key, value)`, what the dict is then.
  abbrev set_missing : Option A → Text → A → Assoc A → Assoc A
  set_missing none key v d = set_key key v d
  set_missing (some w) key v d = d

  unfoldable pub set_default : Text → A → Assoc A → Assoc A
  set_default key v d = set_missing (lookup key d) key v d

  pub lookup-set_default :
      (key other : Text) (v w : A) (d : Assoc A)
      → lookup key d ≡ some w
      → lookup key (set_default other v d) ≡ some w
  unfolding set_default
  lookup-set_default key other v w d e = elim (Option-cases (lookup other d)) [
    | inr (u, found) ↦ rw found e
    | inl missing ↦ elim (Bool-cases (same_text other key)) [
      | inl same ↦
          let gone : lookup key d ≡ none = rw (same_text→eq other key same) at missing in
          absurd (cc (sym gone ∙ e))
      | inr apart ↦ rw missing (lookup-set_other key other v d apart ∙ e)
    ]
  ]

  pub set_default-AllValues {κ} :
      (P : A → Type κ) (key : Text) (v : A) (d : Assoc A)
      → P v
      → AllValues P d
      → AllValues P (set_default key v d)
  unfolding set_default
  set_default-AllValues P key v d p h = elim (Option-cases (lookup key d)) [
    | inr (u, found) ↦ rw found h
    | inl missing ↦ rw missing (set_key-AllValues P key v d p h)
  ]

  pub lookup-default :
      (key : Text) (v : A) (d : Assoc A) → (w : A) × (lookup key (set_default key v d) ≡ some w)
  unfolding set_default
  lookup-default key v d = elim (Option-cases (lookup key d)) [
    | inr (u, found) ↦ (u, rw found found)
    | inl missing ↦ (v, rw missing (lookup-set_key key v d))
  ]
