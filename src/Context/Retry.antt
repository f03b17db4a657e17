-- ===== src/Context/Retry.antt =====
-- Which exceptions are worth another attempt: `_is_retryable`, and the decorator `retry()`.
use openstack_tenantctl.Base.{
  ℕ, ◌≤◌, Bool, true, false, none, some, ◌≡◌, ◌↔◌, ◌⊎◌, arith, ltb, ◌==◌, nat_eq, not, ◌&&◌,
  if◌then◌else◌, Exc, Act, Result, ok, raised, refl, bad_request, conflict, endpoint_not_found,
  forbidden, not_found, precondition_failed, resource_not_found, http, sdk, requests_connection,
  connection,
}
use openstack_tenantctl.Base.Holding.{Holds}
use openstack_tenantctl.Cloud.{
  Tenacity, Attempts-ok, Attempts-raised, Attempts-keeps, Attempts-result,
}

-- `isinstance(exc, _NON_RETRYABLE_EXCEPTIONS)`
non_retryable : Exc → Bool
non_retryable bad_request = true
non_retryable conflict = true
non_retryable endpoint_not_found = true
non_retryable forbidden = true
non_retryable not_found = true
non_retryable precondition_failed = true
non_retryable resource_not_found = true
non_retryable _ = false

-- `isinstance(exc, RETRYABLE_EXCEPTIONS)`, for what is no HttpException.
transient : Exc → Bool
transient sdk = true
transient requests_connection = true
transient connection = true
transient _ = false

other_retryable : Exc → Bool
unfolding transient
other_retryable (http none) = true
other_retryable (http (some status_code)) = not (ltb status_code 500 && not (status_code == 429))
other_retryable e = transient e

unfoldable pub is_retryable : Exc → Bool
unfolding non_retryable other_retryable
is_retryable e = if non_retryable e then false else other_retryable e

-- The decorator with its default of five attempts.
unfoldable pub retried : (T : Tenacity) {W A : Type 0} → Act W A → Act W A
unfolding is_retryable
retried T {W} {A} body = T.retry W A is_retryable 5 body

-- An HttpException with a status code is tried again exactly if the code is 429 or 500 and above.
pub is_retryable-http_iff :
    (code : ℕ) → (is_retryable (http (some code)) ≡ true) ↔ ((500 ≤ code) ⊎ (code ≡ 429))
unfolding is_retryable nat_eq
is_retryable-http_iff code = ground arith

-- A body that returns at its first attempt returns that.
pub retried-ok :
    {W A : Type 0} (T : Tenacity) (m : Act W A) (w w' : W) (a : A)
    → m w ≡ (ok a, w')
    → retried T m w ≡ (ok a, w')
unfolding retried
retried-ok {W} {A} T m w w' a h = Attempts-ok a w' (T.retry-Attempts W A is_retryable 4 m w) h

-- A conflict is not tried again.
pub retried-conflict :
    {W A : Type 0} (T : Tenacity) (m : Act W A) (w w' : W)
    → m w ≡ (raised conflict, w')
    → retried T m w ≡ (raised conflict, w')
unfolding retried is_retryable
retried-conflict {W} {A} T m w w' h =
    Attempts-raised conflict w' refl (T.retry-Attempts W A is_retryable 4 m w) h

-- What every attempt keeps, the retried body keeps.
pub retried-Holds :
    {W A : Type 0} (P : W → Type 0) (T : Tenacity) (m : Act W A) → Holds P m → Holds P (retried T m)
unfolding retried
retried-Holds {W} {A} P T m h w p = Attempts-keeps P h (T.retry-Attempts W A is_retryable 4 m w) p

-- What the outcome of every attempt has, the outcome of the retried body has.
pub retried-result :
    {W A : Type 0} (Q : Result A × W → Type 0) (T : Tenacity) (m : Act W A) (w : W)
    → ((v : W) → Q (m v))
    → Q (retried T m w)
unfolding retried
retried-result {W} {A} Q T m w h = Attempts-result Q h (T.retry-Attempts W A is_retryable 4 m w)
