-- ===== src/Models/Federation.antt =====
-- The federation of a project's configuration: src/models/federation.py.
use openstack_tenantctl.Base.{Bool, Option, List, [], ◌∷◌, String, contains, string_eq}

-- A text, or a list of texts.
pub data Texts : Type 0 where
  single : String → Texts
  many : List String → Texts

pub record FederationRoleAssignment : Type 0 where
  pub idp_group : Texts
  pub roles : List String
  pub keystone_group : String
  pub mode : Texts

-- `domain` is inherited if it is "", and suppressed if it is None.
pub record FederationConfig : Type 0 where
  pub issuer : String
  pub mapping_id : String
  pub group_prefix : String
  pub user_type : String
  pub domain : Option String
  pub group_name_separator : String
  pub role_assignments : List FederationRoleAssignment

-- The members of the set that `_normalize_modes` returns.
normalize_modes : Texts → List String
normalize_modes (single mode) = mode ∷ []
normalize_modes (many modes) = modes

-- m in _normalize_modes(mode)
unfoldable pub has_mode : String → Texts → Bool
unfolding normalize_modes
has_mode m mode = contains (normalize_modes mode) m
