-- ===== src/Firewall/Entries.antt =====
-- A property of every entry of a table, and the operations on tables.
use keysas.Base.{
  if_true, if_false, ◌≡◌, inl, inr, sym, some, [], ◌∷◌, Text, text_eq, text_eq_iff, All, Bool-cases,
}
use mathlib.Core.Path.{subst}
use keysas.Firewall.{UsbAuthorization, UsbDevicePolicy, Table, get, remove, insert, set_auth}

abbrev pub Property : Type 1
Property = Text → UsbAuthorization → Type 0

-- Every entry of a table has the property.
abbrev pub AllEntries : Property → Table → Type 0
AllEntries P table = All (λ entry. P entry.0 entry.1.auth) table

module _ (P : Property) where
  pub AllEntries-remove :
      (k : Text) (table : Table) → AllEntries P table → AllEntries P (remove k table)
  unfolding remove
  AllEntries-remove k [] h = tt
  AllEntries-remove k (entry ∷ table) h = elim (Bool-cases (text_eq k entry.0)) [
    | inl same ↦ rw same (AllEntries-remove k table h.1)
    | inr other ↦ rw other (h.0, AllEntries-remove k table h.1)
  ]

  pub AllEntries-insert :
      (k : Text) (p : UsbDevicePolicy) (table : Table)
      → P k p.auth
      → AllEntries P table
      → AllEntries P (insert k p table)
  unfolding insert
  AllEntries-insert k p table q h = (q, AllEntries-remove k table h)

  pub AllEntries-set_auth :
      (k : Text) (a : UsbAuthorization) (table : Table)
      → P k a
      → AllEntries P table
      → AllEntries P (set_auth k a table)
  unfolding set_auth
  AllEntries-set_auth k a [] q h = tt
  AllEntries-set_auth k a (entry ∷ table) q h = elim (Bool-cases (text_eq k entry.0)) [
    | inl same ↦
        rw same (
          subst (λ t. P t a) ((text_eq_iff k entry.0).0 same) q,
          AllEntries-set_auth k a table q h.1,
        )
    | inr other ↦ rw other (h.0, AllEntries-set_auth k a table q h.1)
  ]

  pub AllEntries-get :
      (k : Text) (p : UsbDevicePolicy) (table : Table)
      → AllEntries P table
      → get k table ≡ some p
      → P k p.auth
  unfolding get
  AllEntries-get k p [] h e = absurd (cc e)
  AllEntries-get k p (entry ∷ table) h e = elim (Bool-cases (text_eq k entry.0)) [
    | inl same ↦
        let e1 : some entry.1 ≡ some p = if_true (text_eq k entry.0) _ _ e same in
        let e2 : entry.1 ≡ p = cc e1 in
        subst (λ t. P t p.auth) (sym ((text_eq_iff k entry.0).0 same))
          (subst (λ q. P entry.0 q.auth) e2 h.0)
    | inr other ↦ AllEntries-get k p table h.1 (if_false (text_eq k entry.0) _ _ e other)
  ]
