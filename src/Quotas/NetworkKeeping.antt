-- ===== src/Quotas/NetworkKeeping.antt =====
-- What the parts of `_ensure_network_quotas` keep.
use openstack_tenantctl.Base.{
  Bool, false, ◌||◌, Option, none, some, List, [], ◌∷◌, ◌≡◌, refl, arith, String, string_eq, keep,
  pure, catch, ◌>>=◌,
}
use openstack_tenantctl.Base.Dict.{Dict, get}
use openstack_tenantctl.Base.Int.{ℤ}
use openstack_tenantctl.Context.{on_cloud, record_action}
use openstack_tenantctl.Quotas.{
  Attr, QuotaCalls, keys, any, differs, is_lowered, clamp, changed_keys,
}
use openstack_tenantctl.Quotas.Laws.{get-clamp}
use openstack_tenantctl.Quotas.Sets.{one_action, pop}
use openstack_tenantctl.Quotas.Network.{
  Outcome, untouched, neutron_keys_of, neutron_quotas_of, settle_neutron, send_changed,
  send_neutron, neutron_part, update_lb, compare_lb, lb_part, read_or_none, report_network,
  details_of,
}
use openstack_tenantctl.Quotas.Keeping.{
  Kept, Keeps, bind-Keeps, catch-Keeps, if-Kept, if-Keeps, cloud-Keeps, if_next-Kept, map_next-Kept,
  live_call-Kept, ServiceKeeps,
}

-- The calls of all services: reading keeps the predicate, and so does outside a dry run an update, of
-- Neutron if it does not send the floating IPs.
pub record CallsKeep {C : Type 0} (R : C → Bool → Type 0) (Q : QuotaCalls C) : Type 0 where
  pub compute-keeps : ServiceKeeps R Q.compute
  pub block_storage-keeps : ServiceKeeps R Q.block_storage
  pub get_quota-keeps :
      (project_id : String) (c : C) (b : Bool) → R c b → R (Q.network.get_quota project_id c).1 b
  pub get_quota_details-keeps :
      (project_id : String) (c : C) (b : Bool)
      → R c b
      → R (Q.network.get_quota_details project_id c).1 b
  pub update_quota-keeps :
      (project_id : String) (sent : Dict String ℤ) (c : C)
      → get "floating_ips" sent ≡ none
      → R c false
      → R (Q.network.update_quota project_id sent c).1 false
  pub get_lb_quota-keeps :
      (project_id : String) (c : C) (b : Bool)
      → R c b
      → R (Q.load_balancer.get_quota project_id c).1 b
  pub update_lb_quota-keeps :
      (project_id : String) (sent : Dict String ℤ) (c : C)
      → R c false
      → R (Q.load_balancer.update_quota project_id sent c).1 false

get-pop_self : (k : String) (d : Dict String ℤ) → get k (pop k d) ≡ none
unfolding get pop
get-pop_self k [] = refl
get-pop_self k ((j, n) ∷ d) = ground (arith, get-pop_self k d)

-- The floating IPs are not among the quotas of Neutron.
pub neutron_quotas_floating_ips :
    (d : Dict String ℤ) → get "floating_ips" (neutron_quotas_of d) ≡ none
unfolding neutron_quotas_of
neutron_quotas_floating_ips d = get-pop_self "floating_ips" (neutron_keys_of d)

get-clamp-none :
    (used_of : String → Attr) (ks : List String) (d : Dict String ℤ) (k : String)
    → get k d ≡ none
    → get k (clamp used_of ks d) ≡ none
get-clamp-none used_of ks d k h = ground (arith, h, get-clamp used_of ks k d)

module _ {C S : Type 0} (R : C → Bool → Type 0) (Q : QuotaCalls C) (K : CallsKeep R Q) where
  send_neutron-Keeps :
      (project_id : String) (current : Dict String Attr) (quotas : Dict String ℤ)
      → get "floating_ips" quotas ≡ none
      → Keeps {S = S} R (send_neutron Q project_id current quotas)
  unfolding send_neutron send_changed
  send_neutron-Keeps project_id current quotas free w p =
      if-Kept R w w.ctx.dry_run _ _ (λ d. (refl, p)) (λ d. sent (changed_keys quotas current) d)
    where
      sent :
          (changed : List String)
          → w.ctx.dry_run ≡ false
          → Kept R w (send_changed Q project_id current quotas changed w)
      sent [] d = (refl, p)
      sent (k ∷ changed) d =
          live_call-Kept R (Q.network.update_quota project_id quotas) _ w d p
            (λ c. K.update_quota-keeps project_id quotas c free) (λ v q. (refl, q))

  settle_neutron-Keeps :
      (project_id : String) (lowered : List String) (quotas : Dict String ℤ)
      (current : Dict String Attr)
      → get "floating_ips" quotas ≡ none
      → Keeps {S = S} R
          (settle_neutron Q project_id lowered quotas >>= send_neutron Q project_id current)
  unfolding settle_neutron
  settle_neutron-Keeps project_id [] quotas current free w p =
      send_neutron-Keeps project_id current quotas free w p
  settle_neutron-Keeps project_id (k ∷ lowered) quotas current free w p =
      if_next-Kept R w w.ctx.dry_run _ _ (send_neutron Q project_id current)
        (λ d. send_neutron-Keeps project_id current quotas free w p)
        (λ d.
          map_next-Kept R w (on_cloud (Q.network.get_quota_details project_id) w)
            (λ usage. clamp (details_of usage) (k ∷ lowered) quotas)
            (send_neutron Q project_id current)
            (λ usage.
              send_neutron-Keeps project_id current _
                (get-clamp-none (details_of usage) (k ∷ lowered) quotas "floating_ips" free))
            (refl, K.get_quota_details-keeps project_id w.cloud w.ctx.dry_run p))

  pub neutron_part-Keeps :
      (project_id : String) (quotas : Dict String ℤ)
      → get "floating_ips" quotas ≡ none
      → Keeps {S = S} R (neutron_part Q project_id quotas)
  unfolding neutron_part
  neutron_part-Keeps project_id [] free w p = (refl, p)
  neutron_part-Keeps project_id (q ∷ qs) free w p =
      cloud-Keeps R (Q.network.get_quota project_id) _ (K.get_quota-keeps project_id)
        (λ quota.
          let current = read_or_none quota (keys (q ∷ qs)) in
          if-Keeps R (any (differs (q ∷ qs) current) (keys (q ∷ qs))) _ _
            (settle_neutron-Keeps project_id (keep (is_lowered (q ∷ qs) current) (keys (q ∷ qs)))
              (q ∷ qs) current free)
            (λ v r. (refl, r)))
        w p

  update_lb-Keeps :
      (project_id : String) (quotas : Dict String ℤ) (current : Dict String Attr)
      → Keeps {S = S} R (update_lb Q project_id quotas current)
  unfolding update_lb
  update_lb-Keeps project_id quotas current w p =
      if-Kept R w w.ctx.dry_run _ _ (λ d. (refl, p))
        (λ d.
          live_call-Kept R (Q.load_balancer.update_quota project_id quotas) _ w d p
            (K.update_lb_quota-keeps project_id quotas) (λ v q. (refl, q)))

  compare_lb-Keeps :
      (project_id : String) (quotas : Dict String ℤ) (current : Dict String Attr)
      → Keeps {S = S} R (compare_lb Q project_id quotas current)
  unfolding compare_lb
  compare_lb-Keeps project_id quotas current =
      if-Keeps R (any (differs quotas current) (keys quotas)) _ _
        (catch-Keeps R (update_lb Q project_id quotas current) _
          (update_lb-Keeps project_id quotas current) (λ e v q. (refl, q)))
        (λ v q. (refl, q))

  pub lb_part-Keeps :
      (project_id : String) (quotas : Dict String ℤ) → Keeps {S = S} R (lb_part Q project_id quotas)
  unfolding lb_part
  lb_part-Keeps project_id [] w p = (refl, p)
  lb_part-Keeps project_id (q ∷ qs) w p =
      bind-Keeps R
        (catch (do quota ← on_cloud (Q.load_balancer.get_quota project_id); pure (some quota))
          (λ e. pure none))
        _
        (catch-Keeps R
          (do quota ← on_cloud (Q.load_balancer.get_quota project_id); pure (some quota)) _
          (cloud-Keeps R (Q.load_balancer.get_quota project_id) _ (K.get_lb_quota-keeps project_id)
            (λ quota v r. (refl, r)))
          (λ e v r. (refl, r)))
        compared w p
    where
      compared :
          (read : Option (Dict String Attr))
          → Keeps {S = S} R (elim read [
            | none ↦ pure (untouched (q ∷ qs) [])
            | some quota ↦ compare_lb Q project_id (q ∷ qs) (read_or_none quota (keys (q ∷ qs)))
          ])
      compared none v r = (refl, r)
      compared (some quota) v r =
          compare_lb-Keeps project_id (q ∷ qs) (read_or_none quota (keys (q ∷ qs))) v r

  pub report_network-Keeps : (neutron lb : Outcome) → Keeps {S = S} R (report_network neutron lb)
  unfolding report_network one_action record_action
  report_network-Keeps neutron lb w p =
      if-Kept R w (neutron.is_updated || lb.is_updated) _ _
        (λ u. if-Kept R w w.ctx.dry_run _ _ (λ d. (refl, p)) (λ d. (refl, p))) (λ u. (refl, p))
