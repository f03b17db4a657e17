-- ===== src/Quotas/Network.antt =====
-- The quotas of Neutron and of Octavia: `_ensure_network_quotas`.
use openstack_tenantctl.Base.{
  Bool, true, false, not, ◌||◌, Option, none, some, List, [], ◌∷◌, ◌++◌, String, contains,
  string_eq, if◌then◌else◌, keep, ok, Act, raise, pure, catch, ◌>>=◌, ◌>>◌, provisioner,
  dry_run_unsupported,
}
use openstack_tenantctl.Base.Dict.{Dict, get}
use openstack_tenantctl.Base.Int.{ℤ, pos}
use openstack_tenantctl.Models.{ProjectConfig}
use openstack_tenantctl.Context.{Action, Details, lit, updated, skipped, World, on_cloud}
use openstack_tenantctl.Quotas.{
  Attr, number, QuotaCalls, keys, any, attr_of, differs, is_lowered, clamp, changed_keys,
  diff_details, current_details, printed, joined,
}
use openstack_tenantctl.Quotas.Sets.{one_action, pop}

unfoldable pub is_load_balancer_key : String → Bool
is_load_balancer_key k =
    contains ("load_balancers" ∷ "listeners" ∷ "pools" ∷ "health_monitors" ∷ "members" ∷ []) k

unfoldable pub lb_quotas_of : Dict String ℤ → Dict String ℤ
unfolding is_load_balancer_key
lb_quotas_of [] = []
lb_quotas_of ((k, n) ∷ d) =
    if is_load_balancer_key k then (k, n) ∷ lb_quotas_of d else lb_quotas_of d

unfoldable pub neutron_keys_of : Dict String ℤ → Dict String ℤ
unfolding is_load_balancer_key
neutron_keys_of [] = []
neutron_keys_of ((k, n) ∷ d) =
    if is_load_balancer_key k then neutron_keys_of d else (k, n) ∷ neutron_keys_of d

-- The floating IPs have their own module.
unfoldable pub neutron_quotas_of : Dict String ℤ → Dict String ℤ
unfolding neutron_keys_of pop
neutron_quotas_of d = pop "floating_ips" (neutron_keys_of d)

-- {k: getattr(current, k, None) for k in quotas}
unfoldable pub read_or_none : Dict String Attr → List String → Dict String Attr
unfolding attr_of
read_or_none quota [] = []
read_or_none quota (k ∷ ks) = (k, attr_of k quota) ∷ read_or_none quota ks

-- detail.get("used", 0) if isinstance(detail, dict) else 0
used_in : Option (Dict String Attr) → Attr
used_in none = number (pos 0)
used_in (some detail) = elim (get "used" detail) [ none ↦ number (pos 0) | some a ↦ a ]

unfoldable pub details_of : Dict String (Option (Dict String Attr)) → String → Attr
unfolding used_in
details_of usage k = elim (get k usage) [ none ↦ number (pos 0) | some detail ↦ used_in detail ]

-- What a service's part did: whether it counts as updated, its quotas then, what it says of the
-- changes, and the values that it read.
pub record Outcome : Type 0 where
  pub is_updated : Bool
  pub quotas : Dict String ℤ
  pub diff : Details
  pub current : Dict String Attr

unfoldable pub untouched : Dict String ℤ → Dict String Attr → Outcome
untouched quotas current = record {
  is_updated = false;
  quotas = quotas;
  diff = [];
  current = current;
}

unfoldable pub altered : Dict String ℤ → Dict String Attr → Outcome
unfolding diff_details
altered quotas current = record {
  is_updated = true;
  quotas = quotas;
  diff = diff_details quotas current;
  current = current;
}

section_details : String → Details → Details
section_details label [] = []
section_details label (d ∷ ds) = lit label ∷ d ∷ ds

-- "; ".join over the sections that say something
sections : Details → Details → Details
unfolding joined
sections [] lb = lb
sections neutron [] = neutron
sections neutron lb = joined "; " (neutron ∷ lb ∷ [])

printed_if : Outcome → Details
unfolding printed
printed_if o = if o.is_updated then printed o.quotas else []

unfoldable pub no_quotas : Dict String ℤ → Dict String ℤ → Bool
no_quotas [] [] = true
no_quotas _ _ = false

module _ {C S : Type 0} (Q : QuotaCalls C) where
  unfoldable pub settle_neutron :
      String → List String → Dict String ℤ → Act (World C S) (Dict String ℤ)
  unfolding details_of clamp
  settle_neutron project_id [] quotas w = (ok quotas, w)
  settle_neutron project_id (k ∷ lowered) quotas w =
      if w.ctx.dry_run
      then (ok quotas, w)
      else (do
        usage ← on_cloud (Q.network.get_quota_details project_id)
        pure (clamp (details_of usage) (k ∷ lowered) quotas))
          w

  -- A live run whose differing keys were all clamped to the current values sends nothing.
  unfoldable pub send_changed :
      String → Dict String Attr → Dict String ℤ → List String → Act (World C S) Outcome
  unfolding untouched altered
  send_changed project_id current quotas [] = pure (untouched quotas current)
  send_changed project_id current quotas (k ∷ changed) = do
    on_cloud (Q.network.update_quota project_id quotas)
    pure (altered quotas current)

  unfoldable pub send_neutron : String → Dict String Attr → Dict String ℤ → Act (World C S) Outcome
  unfolding altered send_changed changed_keys
  send_neutron project_id current quotas w =
      if w.ctx.dry_run
      then (ok (altered quotas current), w)
      else send_changed project_id current quotas (changed_keys quotas current) w

  unfoldable pub neutron_part : String → Dict String ℤ → Act (World C S) Outcome
  unfolding untouched read_or_none any differs is_lowered settle_neutron send_neutron keys
  neutron_part project_id [] w = (ok (untouched [] []), w)
  neutron_part project_id (q ∷ qs) w =
      (do
        quota ← on_cloud (Q.network.get_quota project_id)
        let current = read_or_none quota (keys (q ∷ qs))
        if any (differs (q ∷ qs) current) (keys (q ∷ qs))
            then (do
              quotas ←
                  settle_neutron project_id (keep (is_lowered (q ∷ qs) current) (keys (q ∷ qs)))
                    (q ∷ qs)
              send_neutron project_id current quotas)
            else pure (untouched (q ∷ qs) current))
        w

  unfoldable pub update_lb : String → Dict String ℤ → Dict String Attr → Act (World C S) Outcome
  unfolding altered
  update_lb project_id quotas current w =
      if w.ctx.dry_run
      then (ok (altered quotas current), w)
      else (do
        on_cloud (Q.load_balancer.update_quota project_id quotas)
        pure (altered quotas current))
          w

  -- What the `try` does with the quotas that it read, an exception of the update included.
  unfoldable pub compare_lb : String → Dict String ℤ → Dict String Attr → Act (World C S) Outcome
  unfolding untouched any differs keys update_lb
  compare_lb project_id quotas current =
      if any (differs quotas current) (keys quotas)
      then catch (update_lb project_id quotas current) (λ e. pure (untouched quotas current))
      else pure (untouched quotas current)

  -- Every exception is logged and left at that.
  unfoldable pub lb_part : String → Dict String ℤ → Act (World C S) Outcome
  unfolding untouched read_or_none keys compare_lb
  lb_part project_id [] w = (ok (untouched [] []), w)
  lb_part project_id (q ∷ qs) w =
      (do
        read ←
            catch (do quota ← on_cloud (Q.load_balancer.get_quota project_id); pure (some quota))
              (λ e. pure none)
        elim read [
          | none ↦ pure (untouched (q ∷ qs) [])
          | some quota ↦ compare_lb project_id (q ∷ qs) (read_or_none quota (keys (q ∷ qs)))
        ])
        w

module _ {C S : Type 0} where
  -- The one action of the two services.
  unfoldable pub report_network : Outcome → Outcome → Act (World C S) (List Action)
  unfolding one_action sections section_details printed_if current_details keys
  report_network neutron lb w =
      if neutron.is_updated || lb.is_updated
      then if w.ctx.dry_run
        then one_action updated "network_quota"
            (lit "would update ("
                ∷ sections (section_details "network: " neutron.diff)
                    (section_details "load_balancer: " lb.diff)
              ++ lit ")" ∷ [])
            w
        else one_action updated "network_quota"
            (sections (section_details "network: " (printed_if neutron))
              (section_details "load_balancer: " (printed_if lb)))
            w
      else one_action skipped "network_quota"
          (lit "already up to date, "
            ∷ current_details (keys (neutron.current ++ lb.current))
                (neutron.current ++ lb.current))
          w

module _ {C S : Type 0} (Q : QuotaCalls C) where
  unfoldable pub ensure_network_once : ProjectConfig → String → Act (World C S) (List Action)
  unfolding one_action neutron_quotas_of lb_quotas_of no_quotas neutron_part lb_part report_network
  ensure_network_once cfg project_id w =
      if not w.ctx.online
      then raise (dry_run_unsupported "ctx.conn is None — not available in offline mode") w
      else elim cfg.quotas [
        | none ↦ raise (provisioner "cfg.quotas is None — should have been checked by caller") w
        | some q ↦
            if no_quotas (neutron_quotas_of q.network) (lb_quotas_of q.network)
            then one_action skipped "network_quota" (lit "no network quotas configured" ∷ []) w
            else (do
              neutron ← neutron_part Q project_id (neutron_quotas_of q.network)
              lb ← lb_part Q project_id (lb_quotas_of q.network)
              report_network neutron lb)
                w
      ]
