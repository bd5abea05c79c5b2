-- ===== src/ServiceControl/Requests.antt =====
-- internal/application/usecase/service_scale_usecase.go: an operator's request for a count that is
-- accepted.
use legacy_messenger_ecs_con.Base.{
  ℕ, ℤ, pos, negsuc, ◌≤◌, ◌<◌, ◌≡◌, refl, ◌≢◌, ◌⊎◌, inl, inr, String, true, false, ◌||◌, none, some,
  List, [], ◌∷◌, All, Dict, lookup, str_eq, str_eq_iff, ltb, ◌==◌, arith, Option-cases, Bool-cases,
}
use legacy_messenger_ecs_con.Base.Results.{ok, Result-cases}
use legacy_messenger_ecs_con.Domain.{EcsServiceControlState}
use legacy_messenger_ecs_con.Exec.{Exec, pure, raise, nil_dereference, continue, ◌>>=◌}
use legacy_messenger_ecs_con.System.{ServiceDef, ServiceStatus, DeploymentStatus, EcsPort}
use legacy_messenger_ecs_con.ServiceControl.{
  ServiceScaleResult, ServiceRedeployResult, has_deployment_in_progress,
  update_service_desird_count, service_redeploy,
}

-- A deployment that is over, or is not the one that rolls out.
abbrev pub IsSettled : DeploymentStatus → Type 0
IsSettled d = (d.status ≢ "ACTIVE") × (d.status ≡ "PRIMARY" → d.rollout_state ≢ "IN_PROGRESS")

settled :
    (deployments : List DeploymentStatus)
    → has_deployment_in_progress deployments ≡ false
    → All IsSettled deployments
unfolding has_deployment_in_progress
settled [] e = tt
settled (d ∷ deployments) e =
    let active = str_eq_iff d.status "ACTIVE" in
    let primary = str_eq_iff d.status "PRIMARY" in
    let rolling = str_eq_iff d.rollout_state "IN_PROGRESS" in
    (
      ((λ h. ground (arith, active.1 h, e)), (λ h k. ground (arith, primary.1 h, rolling.1 k, e))),
      settled deployments (ground (arith, e)),
    )

module _ {W : Type 0} (ecs_port : EcsPort W) (cluster_name : String)
    (registry : Dict ServiceDef) where
  -- What is known of a request that went through: the service is registered and scalable, the count is in
  -- its limits, and ECS was asked for it unless it was the count already.
  pub record Accepted (s : String) (n : ℤ) (w : W) : Type 0 where
    pub desired : ℕ
    pub nonnegative : n ≡ pos desired
    pub def : ServiceDef
    pub registered : lookup s registry ≡ some def
    pub scalable : def.scalable ≡ true
    pub above : def.min_count ≤ desired
    pub below : desired ≤ def.max_count
    pub before : EcsServiceControlState
    pub read :
        (ecs_port.get_service_control_state cluster_name def.ecs_service_name w).0 ≡ ok before
    pub asked :
        (before.desired_count ≡ desired)
        ⊎ ((after : EcsServiceControlState) × ((ecs_port.update_service_desired_count cluster_name
                def.ecs_service_name desired
                (ecs_port.get_service_control_state cluster_name def.ecs_service_name w).1).0
              ≡ ok after))

  -- A request that is answered without an error was for a registered and scalable service and a count in
  -- its limits, and ECS took the count unless it was the desired count already.
  pub update_service_desird_count-Accepted :
      (s : String) (n : ℤ) (w : W) (result : ServiceScaleResult)
      → (update_service_desird_count ecs_port cluster_name registry s n w).0 ≡ ok result
      → Accepted s n w
  unfolding update_service_desird_count ◌>>=◌ continue pure raise
  update_service_desird_count-Accepted s (negsuc k) w result e = absurd (ground (arith, e))
  update_service_desird_count-Accepted s (pos k) w result e =
      elim (Option-cases (lookup s registry)) [
        | inl f ↦ absurd (ground (arith, (rw f at e)))
        | inr (def, f) ↦
            let known = rw f at e in
            elim (Bool-cases def.scalable) [
              | inr g ↦ absurd (ground (arith, (rw g at known)))
              | inl g ↦
                  let open_ = rw g at known in
                  elim (Bool-cases (ltb k def.min_count || ltb def.max_count k)) [
                    | inl h ↦ absurd (ground (arith, (rw h at open_)))
                    | inr h ↦
                        let inside = rw h at open_ in
                        elim (Result-cases
                          (ecs_port.get_service_control_state cluster_name def.ecs_service_name
                            w).0) [
                              | inl (before, i) ↦
                                  let read_ = rw i at inside in
                                  record {
                                    desired = k;
                                    nonnegative = refl;
                                    def = def;
                                    registered = f;
                                    scalable = g;
                                    above = ground (arith, h);
                                    below = ground (arith, h);
                                    before = before;
                                    read = i;
                                    asked = elim (Bool-cases (before.desired_count == k)) [
                                      | inl j ↦ inl (ground (arith, j))
                                      | inr j ↦
                                          elim (Result-cases
                                            (ecs_port.update_service_desired_count cluster_name
                                              def.ecs_service_name k
                                              (ecs_port.get_service_control_state cluster_name
                                                def.ecs_service_name w).1).0) [
                                                  | inl (after, l) ↦ inr (after, l)
                                                  | inr (inl (d, l)) ↦
                                                      absurd (ground (arith, (rw (j, l) at read_)))
                                                  | inr (inr l) ↦
                                                      absurd (ground (arith, (rw (j, l) at read_)))
                                                ]
                                    ];
                                  }
                              | inr (inl (d, i)) ↦ absurd (ground (arith, (rw i at inside)))
                              | inr (inr i) ↦ absurd (ground (arith, (rw i at inside)))
                            ]
                  ]
            ]
      ]

  module _ (force_new_deployment : String → String → Exec W ServiceRedeployResult) where
    -- What is known of a redeployment that was started.
    pub record Ready (s : String) (w : W) : Type 0 where
      pub def : ServiceDef
      pub registered : lookup s registry ≡ some def
      pub named : def.ecs_service_name ≢ ""
      pub before : ServiceStatus
      pub described :
          (ecs_port.describe_service cluster_name def.ecs_service_name w).0 ≡ ok (some before)
      pub wanted : 0 < before.desired_count
      pub quiet : All IsSettled before.deployments

    -- A redeployment that is answered without an error was of a registered service with an ECS name, which
    -- ECS described with a positive desired count and no deployment under way.
    pub service_redeploy-Ready :
        (s reason : String) (w : W) (result : ServiceRedeployResult)
        → (service_redeploy ecs_port cluster_name registry force_new_deployment s reason w).0
          ≡ ok result
        → Ready s w
    unfolding service_redeploy ◌>>=◌ continue raise nil_dereference
    service_redeploy-Ready s reason w result e = elim (Option-cases (lookup s registry)) [
      | inl f ↦ absurd (ground (arith, (rw f at e)))
      | inr (def, f) ↦
          let known = rw f at e in
          elim (Bool-cases (str_eq def.ecs_service_name "")) [
            | inl g ↦ absurd (ground (arith, (rw g at known)))
            | inr g ↦
                let named = rw g at known in
                elim (Result-cases
                  (ecs_port.describe_service cluster_name def.ecs_service_name w).0) [
                    | inl (none, h) ↦ absurd (ground (arith, (rw h at named)))
                    | inl (some before, h) ↦
                        let read_ = rw h at named in
                        elim (Bool-cases (before.desired_count == 0)) [
                          | inl i ↦ absurd (ground (arith, (rw i at read_)))
                          | inr i ↦
                              let wanted = rw i at read_ in
                              elim (Bool-cases (has_deployment_in_progress before.deployments)) [
                                | inl j ↦ absurd (ground (arith, (rw j at wanted)))
                                | inr j ↦ record {
                                  def = def;
                                  registered = f;
                                  named = λ k.
                                      ground (arith, (str_eq_iff def.ecs_service_name "").1 k, g);
                                  before = before;
                                  described = h;
                                  wanted = ground (arith, i);
                                  quiet = settled before.deployments j;
                                }
                              ]
                        ]
                    | inr (inl (d, h)) ↦ absurd (ground (arith, (rw h at named)))
                    | inr (inr h) ↦ absurd (ground (arith, (rw h at named)))
                  ]
          ]
    ]
