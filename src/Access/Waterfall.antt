-- ===== src/Access/Waterfall.antt =====
-- The access levels: a higher role has all permissions of the lower ones.
use edx_enterprise_subsidy.Common.{
  ℕ, ◌≡◌, Bool, false, ◌||◌, Option, none, some, List, [], ◌∷◌, any, arith,
}
use edx_enterprise_subsidy.Access.{
  Role, Permission, Rbac, has_operator_level_access, has_admin_level_access,
  has_learner_level_access, has_perm, _user_has_explicit_access_via_feature_role,
  _user_has_implicit_access_via_feature_role,
}

-- the lowest role that a permission asks for, and the roles from there on
abbrev lowest_role : Permission → Option Role
lowest_role Permission.can_create_deposits = some Role.operator
lowest_role Permission.can_create_transactions = some Role.operator
lowest_role Permission.can_read_subsidies = some Role.admin
lowest_role Permission.can_read_transactions = some Role.learner
lowest_role Permission.can_read_all_transactions = some Role.admin
lowest_role Permission.can_read_content_metadata = some Role.learner
lowest_role Permission.can_write_subsidies = some Role.operator
lowest_role Permission.not_granted = none

abbrev roles_from : Option Role → List Role
roles_from none = []
roles_from (some Role.learner) = Role.learner ∷ Role.admin ∷ Role.operator ∷ []
roles_from (some Role.admin) = Role.admin ∷ Role.operator ∷ []
roles_from (some Role.operator) = Role.operator ∷ []

-- what a user holds in an enterprise: the role in the token, or one assigned in the database
abbrev pub holds : Rbac → ℕ → Role → Bool
holds rbac c role = rbac.access_via_jwt role c || rbac.access_via_database role c

-- In an enterprise a permission is granted exactly to the users that hold a role from the lowest one
-- that the permission asks for upwards, by their token or in the database; and without an enterprise
-- no permission is granted.
pub has_perm_by_role :
    (rbac : Rbac) (c : ℕ) (p : Permission)
    → (has_perm rbac (some c) p ≡ any (holds rbac c) (roles_from (lowest_role p)))
      × (has_perm rbac none p ≡ false)
unfolding has_perm has_operator_level_access has_admin_level_access has_learner_level_access
    _user_has_explicit_access_via_feature_role _user_has_implicit_access_via_feature_role
has_perm_by_role rbac c p = ground arith
