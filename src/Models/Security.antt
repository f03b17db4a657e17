-- ===== src/Models/Security.antt =====
-- The baseline security group of a project's configuration: src/models/security.py.
use openstack_tenantctl.Base.{Option, List, String}
use openstack_tenantctl.Base.Int.{ℤ}

pub record SecurityGroupRule : Type 0 where
  pub direction : String
  pub protocol : Option String
  pub port_range_min : Option ℤ
  pub port_range_max : Option ℤ
  pub remote_ip_prefix : Option String
  pub remote_group_id : Option String
  pub ethertype : Option String
  pub description : String

pub record SecurityGroupConfig : Type 0 where
  pub name : String
  pub rules : List SecurityGroupRule
