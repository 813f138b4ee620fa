-- ===== src/Ledger/Accounts/Ids.antt =====
-- The accounts' unique index in backend/ledger_service/model/entities.py: rows of another kind or owner are
-- other rows.
use cs.Base.{
  ℕ, ◌≡◌, ◌≢◌, refl, false, ◌==◌, ap, sym, ◌∙◌, Bool-cases, inl, inr, ==→eq, eq→==, ==-refl,
}
use cs.Ledger.Rows.{Account, AccountKind, user}
use cs.Ledger.Accounts.{World, IsWorld}

module _ (world : World) (lawful : IsWorld world) where
  pub ids_differ :
      (kind kind' : AccountKind) (a b : ℕ)
      → kind ≢ kind'
      → (world.id_of kind a == world.id_of kind' b) ≡ false
  ids_differ kind kind' a b other = elim (Bool-cases (world.id_of kind a == world.id_of kind' b)) [
    | inl e ↦ absurd (
        other (
          ap (λ (a : Account). a.kind)
            (sym (lawful.account_at kind a)
              ∙ ap world.account (==→eq _ _ e)
              ∙ lawful.account_at kind' b)))
    | inr e ↦ e
  ]

  pub users_eq : (a b : ℕ) → (world.id_of user a == world.id_of user b) ≡ (a == b)
  users_eq a b = elim (Bool-cases (a == b)) [
    | inl e ↦ let same = ==→eq a b e in rw (same, ==-refl (world.id_of user b), ==-refl b) refl
    | inr e ↦ elim (Bool-cases (world.id_of user a == world.id_of user b)) [
      | inl f ↦
          let owners : a ≡ b =
            ap (λ (row : Account). row.owner_id)
              (sym (lawful.account_at user a)
                ∙ ap world.account (==→eq _ _ f)
                ∙ lawful.account_at user b) in
          absurd (let clash = sym e ∙ eq→== a b owners in cc)
      | inr f ↦ rw (e, f) refl
    ]
  ]
