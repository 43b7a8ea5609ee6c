-- ===== src/Handlers/Access/Laws.antt =====
-- What a session adds to an account's access (internal/handlers/access.go).
use be_miawai.Base.{
  ◌≡◌, refl, List, [], ◌∷◌, ◌++◌, false, ◌||◌, Text, is_blank, text_eq_iff, arith, inl, inr,
}
use be_miawai.Base.Lists.{contains, contains-append, List-cases}
use be_miawai.Models.{User}
use be_miawai.Handlers.Access.{
  decorate_user_access, merge_access, apply_session_access, has_access, with_role,
}
use be_miawai.Models.{SessionIdentity}

contains-merge_access :
    (out extra : List Text) (p : Text)
    → is_blank p ≡ false
    → contains (merge_access out extra) p ≡ contains out p || contains extra p
unfolding merge_access contains
contains-merge_access out [] p b = ground arith
contains-merge_access out (x ∷ extra) p b = ground (
  arith,
  contains-merge_access out extra p b,
  contains-merge_access (out ++ (x ∷ [])) extra p b,
  contains-append out (x ∷ []) p,
  text_eq_iff x p,
)

-- The role that a session names does not reach the account's access.
decorate-with_role :
    (role : Text) (user : User)
    → (decorate_user_access (with_role role user)).access ≡ (decorate_user_access user).access
      × ((decorate_user_access (with_role role user)).role ≡ (decorate_user_access user).role)
unfolding decorate_user_access
decorate-with_role [] user = (refl, refl)
decorate-with_role (c ∷ s) user = ground arith

-- A user of a session has a permission exactly where the account's own access or the session's
-- access lists it.
pub apply_session_access-has_access :
    (user : User) (identity : SessionIdentity) (p : Text)
    → is_blank p ≡ false
    → has_access (apply_session_access user identity) p
      ≡ contains (decorate_user_access user).access p || contains identity.access p
unfolding apply_session_access has_access contains
apply_session_access-has_access user identity p b = elim (List-cases identity.access) [
  | inl e ↦ ground (arith, decorate-with_role identity.role user, e)
  | inr (q, qs, e) ↦ ground (
    arith,
    decorate-with_role identity.role user,
    e,
    contains-merge_access (decorate_user_access (with_role identity.role user)).access (q ∷ qs) p b,
  )
]

-- The role of a user of a session is the account's own, whatever role the session names.
pub apply_session_access-role :
    (user : User) (identity : SessionIdentity)
    → (apply_session_access user identity).role ≡ (decorate_user_access user).role
unfolding apply_session_access
apply_session_access-role user identity = elim (List-cases identity.access) [
  | inl e ↦ ground (arith, decorate-with_role identity.role user, e)
  | inr (q, qs, e) ↦ ground (arith, decorate-with_role identity.role user, e)
]
