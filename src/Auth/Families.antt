-- ===== src/Auth/Families.antt =====
-- The live tokens of a family (backend/src/modules/auth/auth.service.ts), by the rows alone; the children
-- are about whole requests.
pub mod Rotation
pub mod Served
use stellar_tipz.Base.{
  ℕ, ◌+◌, ◌≤◌, ◌<◌, ◌≡◌, refl, sym, ap, ◌∙◌, inl, inr, Bool, true, false, not, ◌&&◌, Option, none,
  some, List, [], ◌∷◌, arith, ◌==◌, find, find_hit, find_miss, update_where, if◌then◌else◌,
  Bool-cases,
}
use stellar_tipz.Auth.{RefreshToken}
use stellar_tipz.Auth.Tokens.{is_some, find_token, find_token_by_id, revoke_family, revoke_id}

abbrev pub is_live : ℕ → RefreshToken → Bool
is_live family t = t.family_id == family && not (is_some t.revoked_at)

-- How many tokens of the family are not revoked?
unfoldable pub count_live : ℕ → List RefreshToken → ℕ
count_live family [] = 0
count_live family (t ∷ ts) = (if is_live family t then 1 else 0) + count_live family ts

-- The newest row is first, ids are below `bound`, and a family is older than its tokens.
unfoldable pub Below : ℕ → List RefreshToken → Type 0
Below bound [] = Unit
Below bound (t ∷ ts) = (t.family_id < t.id) × (t.id < bound) × Below t.id ts

pub Below-raise : (n m : ℕ) (ts : List RefreshToken) → n ≤ m → Below n ts → Below m ts
unfolding Below
Below-raise n m [] le b = tt
Below-raise n m (t ∷ ts) le (old, lt, b) = (old, omega arith, b)

-- An update that keeps the ids and the families and revokes.
pub record Revokes (change : RefreshToken → RefreshToken) : Type 0 where
  pub same_id : (t : RefreshToken) → (change t).id ≡ t.id
  pub same_family : (t : RefreshToken) → (change t).family_id ≡ t.family_id
  pub revoked : (t : RefreshToken) → is_some (change t).revoked_at ≡ true

module _ (test : RefreshToken → Bool) (change : RefreshToken → RefreshToken)
    (c : Revokes change) where
  pub Below-update :
      (n : ℕ) (ts : List RefreshToken) → Below n ts → Below n (update_where test change ts)
  unfolding Below
  Below-update n [] b = tt
  Below-update n (t ∷ ts) (old, lt, b) = elim (Bool-cases (test t)) [
    | inl h ↦ rw (h, c.same_id t, c.same_family t) (old, lt, Below-update t.id ts b)
    | inr h ↦ rw h (old, lt, Below-update t.id ts b)
  ]

  pub count-update :
      (family : ℕ) (ts : List RefreshToken)
      → count_live family (update_where test change ts) ≤ count_live family ts
  unfolding count_live
  count-update family [] = omega arith
  count-update family (t ∷ ts) = elim (Bool-cases (test t)) [
    | inl h ↦ rw h (ground (arith, c.revoked t, count-update family ts))
    | inr h ↦ rw h (omega (arith, count-update family ts))
  ]

-- A family that is revoked has no live token.
pub count-revoke_family :
    (family now : ℕ) (ts : List RefreshToken) → count_live family (revoke_family family now ts) ≡ 0
unfolding count_live revoke_family
count-revoke_family family now [] = refl
count-revoke_family family now (t ∷ ts) = ground (arith, count-revoke_family family now ts)

-- Above all ids nothing is found, counted or changed.
pub count_above :
    (n family : ℕ) (ts : List RefreshToken) → Below n ts → n ≤ family → count_live family ts ≡ 0
unfolding count_live Below
count_above n family [] b le = refl
count_above n family (t ∷ ts) (old, lt, b) le =
    ground (arith, count_above t.id family ts b (omega arith))

find_above : (n i : ℕ) (ts : List RefreshToken) → Below n ts → n ≤ i → find_token_by_id i ts ≡ none
unfolding find_token_by_id Below
find_above n i [] b le = refl
find_above n i (t ∷ ts) (old, lt, b) le = ground (arith, find_above t.id i ts b (omega arith))

revoke_above : (n i now : ℕ) (ts : List RefreshToken) → Below n ts → n ≤ i → revoke_id i now ts ≡ ts
unfolding revoke_id Below
revoke_above n i now [] b le = refl
revoke_above n i now (t ∷ ts) (old, lt, b) le =
    let e : (t.id == i) ≡ false = ground arith in
    rw (e, revoke_above t.id i now ts b (omega arith)) refl

-- A row that is found by its token is found by its id.
pub found_by_id :
    (n hashed : ℕ) (t : RefreshToken) (ts : List RefreshToken)
    → Below n ts
    → find_token hashed ts ≡ some t
    → (find_token_by_id t.id ts ≡ some t) × (t.id < n) × (t.family_id < t.id)
unfolding find_token find_token_by_id Below
found_by_id n hashed t [] b h = absurd (ground arith)
found_by_id n hashed t (u ∷ us) (old, lt, b) h = elim (Bool-cases (u.hashed_token == hashed)) [
  | inl p ↦
      let e : u ≡ t = find_hit (λ v. v.hashed_token == hashed) u t us p h in
      rw (sym e) (ground arith, lt, old)
  | inr p ↦
      let (found, below, older) =
        found_by_id u.id hashed t us b
          (sym (find_miss (λ v. v.hashed_token == hashed) u us p) ∙ h) in
      (ground (arith, found), omega arith, older)
]

-- Revoking a live row takes it off the count of its family.
pub count-revoke_id :
    (n family now : ℕ) (t : RefreshToken) (ts : List RefreshToken)
    → Below n ts
    → find_token_by_id t.id ts ≡ some t
    → t.revoked_at ≡ none
    → count_live family ts
      ≡ (if t.family_id == family then 1 else 0) + count_live family (revoke_id t.id now ts)
unfolding count_live find_token_by_id revoke_id Below
count-revoke_id n family now t [] b h live = absurd (ground arith)
count-revoke_id n family now t (u ∷ us) (old, lt, b) h live = elim (Bool-cases (u.id == t.id)) [
  | inl p ↦
      let e : u ≡ t = find_hit (λ v. v.id == t.id) u t us p h in
      let same = revoke_above u.id t.id now us b (ground arith) in
      let dead : is_some u.revoked_at ≡ false =
        ap (λ v. is_some v.revoked_at) e ∙ ap is_some live in
      let family' : t.family_id ≡ u.family_id = sym (ap (λ v. v.family_id) e) in
      rw (p, same, family') (ground (arith, dead))
  | inr p ↦
      let rest =
        count-revoke_id u.id family now t us b (sym (find_miss (λ v. v.id == t.id) u us p) ∙ h)
          live in
      rw p (omega arith)
]
