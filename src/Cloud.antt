-- ===== src/Cloud.antt =====
-- What the program uses of packages outside the repository: openstacksdk's resources and calls,
-- tenacity's retrying and the clock. All of it is a parameter of the model; the state `C` is the
-- cloud behind the calls, and each call may change it and may raise.
use openstack_tenantctl.Base.{
  ℕ, suc, Bool, true, false, Option, List, ◌≡◌, sym, subst, ◌∙◌, ◌⊎◌, String, Result, ok, raised,
  Exc, Act,
}
use openstack_tenantctl.Base.Int.{ℤ}

-- A floating IP of the SDK, with the two entries of `port_details` that are read.
pub record FloatingIp : Type 0 where
  pub id : String
  pub floating_ip_address : String
  pub floating_network_id : Option String
  pub port_id : Option String
  pub fixed_ip_address : Option String
  pub status : Option String
  pub router_id : Option String
  pub created_at : Option String
  pub port_device_id : Option String
  pub port_device_owner : Option String

-- `external_gateway_info` of a router: no dict, or its network (`""` if it has none) with the
-- subnet of its first fixed IP (`""` where there is none).
pub data GatewayInfo : Type 0 where
  no_gateway : GatewayInfo
  gateway : String → String → GatewayInfo

-- The attribute `floating_ips` of a quota with details: a dict, with or without "used", or not.
pub data QuotaDetail : Type 0 where
  not_a_dict : QuotaDetail
  usage : Option ℤ → QuotaDetail

-- The keyword arguments of `create_ip`; the last two may be left out.
pub record NewIp : Type 0 where
  pub floating_network_id : String
  pub project_id : String
  pub subnet_id : Option String
  pub floating_ip_address : Option String

pub record Subnet : Type 0 where
  pub id : String
  pub network_id : String
  pub ip_version : ℕ

pub record Flavor : Type 0 where
  pub id : String
  pub name : String
  pub is_public : Bool

-- The calls of `conn.network`, and `datetime.now(UTC).isoformat()`.
pub record Neutron (C : Type 0) : Type 0 where
  pub ips : String → Act C (List FloatingIp)
  pub create_ip : NewIp → Act C FloatingIp
  pub delete_ip : String → Act C (Unit {0})
  pub update_quota : String → ℤ → Act C (Unit {0})
  pub get_quota_details : String → Act C QuotaDetail
  pub routers : String → Act C (List GatewayInfo)
  pub find_subnet : String → Act C (Option Subnet)
  pub subnets : String → Act C (List Subnet)
  pub now : C → String × C

-- The runs of a body that is tried `n` times at most, again after an exception that passes the
-- test, and whose last exception is raised on.
pub data Attempts {W A : Type 0} (retry_if : Exc → Bool) (body : Act W A)
    : ℕ → W → Result A × W → Type 0 where
  returns : {n : ℕ} {w w' : W} {a : A} → body w ≡ (ok a, w') → Attempts retry_if body n w (ok a, w')
  gives_up :
      {n : ℕ} {w w' : W} {e : Exc}
      → body w ≡ (raised e, w')
      → (retry_if e ≡ false) ⊎ (n ≡ 1)
      → Attempts retry_if body n w (raised e, w')
  again :
      {n : ℕ} {w w' : W} {e : Exc} {r : Result A × W}
      → body w ≡ (raised e, w')
      → retry_if e ≡ true
      → Attempts retry_if body n w' r
      → Attempts retry_if body (suc n) w r

-- `tenacity.retry(retry_if_exception(p), stop_after_attempt(n), reraise=True)` of a function.
pub record Tenacity : Type 1 where
  pub retry : (W A : Type 0) → (Exc → Bool) → ℕ → Act W A → Act W A
  pub retry-Attempts :
      (W A : Type 0) (retry_if : Exc → Bool) (n : ℕ) (body : Act W A) (w : W)
      → Attempts retry_if body (suc n) w (retry W A retry_if (suc n) body w)

-- A body that returns at its first attempt is not tried again.
pub Attempts-ok :
    {W A : Type 0} {p : Exc → Bool} {body : Act W A} {n : ℕ} {w : W} {r : Result A × W} (a : A)
    (w' : W)
    → Attempts p body n w r
    → body w ≡ (ok a, w')
    → r ≡ (ok a, w')
Attempts-ok a w' (returns e) h = sym e ∙ h
Attempts-ok a w' (gives_up e _) h = cc
Attempts-ok a w' (again e _ _) h = cc

-- A body that raises what is not tried again is not tried again.
pub Attempts-raised :
    {W A : Type 0} {p : Exc → Bool} {body : Act W A} {n : ℕ} {w : W} {r : Result A × W} (e : Exc)
    (w' : W)
    → p e ≡ false
    → Attempts p body n w r
    → body w ≡ (raised e, w')
    → r ≡ (raised e, w')
Attempts-raised e w' final (returns q) h = cc
Attempts-raised e w' final (gives_up q _) h = sym q ∙ h
Attempts-raised e w' final (again q retryable _) h = cc

-- What every run of the body keeps is kept by any number of attempts.
pub Attempts-keeps :
    {W A : Type 0} {p : Exc → Bool} {body : Act W A} {n : ℕ} {w : W} {r : Result A × W}
    (P : W → Type 0)
    → ((v : W) → P v → P (body v).1)
    → Attempts p body n w r
    → P w
    → P r.1
Attempts-keeps P keep (returns {w = w} e) h = rw e at (keep w h)
Attempts-keeps P keep (gives_up {w = w} e _) h = rw e at (keep w h)
Attempts-keeps P keep (again {w = w} e _ more) h = Attempts-keeps P keep more (rw e at (keep w h))

-- What the outcome of every run of the body has, the outcome of any number of attempts has.
pub Attempts-result :
    {W A : Type 0} {p : Exc → Bool} {body : Act W A} {n : ℕ} {w : W} {r : Result A × W}
    (Q : Result A × W → Type 0)
    → ((v : W) → Q (body v))
    → Attempts p body n w r
    → Q r
Attempts-result Q h (returns {w = w} e) = subst Q e (h w)
Attempts-result Q h (gives_up {w = w} e _) = subst Q e (h w)
Attempts-result Q h (again e _ more) = Attempts-result Q h more
