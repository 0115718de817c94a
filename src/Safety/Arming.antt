-- ===== src/Safety/Arming.antt =====
-- control/safety.py: what arming needs.
use openframetap.Floats.{Floats}
use openframetap.Safety.{
  prerequisites_confirmed, healthy, stopping, active, armed, disabled, Surroundings, Controller,
  ControlPrerequisites, ControlState, missing, items, absent, Prerequisite, Prerequisites,
}
use openframetap.Safety.Machine.{arm, arm_with, arm_from, transition}
use openframetap.Safety.Sends.{transition-Keeps, state-transition}
use openframetap.Prelude.{
  ◌∙◌, ap, sym, refl, none, ◌∷◌, arith, List, inr, inl, false, ◌⊎◌, All, true, ok, [], ◌≡◌,
}

-- Every prerequisite is confirmed.
pub record Confirmed (p : ControlPrerequisites) : Type 0 where
  pub ble_connected : p.ble_connected ≡ true
  pub application_paired : p.application_paired ≡ true
  pub notifications_active : p.notifications_active ≡ true
  pub profile_validated : p.profile_validated ≡ true
  pub emergency_stop_available : p.emergency_stop_available ≡ true
  pub watchdog_running : p.watchdog_running ≡ true
  pub ui_focused : p.ui_focused ≡ true

absent-All : (ps : Prerequisites) → absent ps ≡ [] → All (λ q. q.1 ≡ true) ps
absent-All [] e = tt
absent-All ((name, true) ∷ ps) e = (refl, absent-All ps e)
absent-All ((name, false) ∷ ps) e = absurd (ground arith)

pub missing-Confirmed : (p : ControlPrerequisites) → missing p ≡ [] → Confirmed p
unfolding missing
missing-Confirmed p e =
    let h = absent-All (items p) e in
    record {
      ble_connected = h.0;
      application_paired = h.1.0;
      notifications_active = h.1.1.0;
      profile_validated = h.1.1.1.0;
      emergency_stop_available = h.1.1.1.1.0;
      watchdog_running = h.1.1.1.1.1.0;
      ui_focused = h.1.1.1.1.1.1.0;
    }

module _ {W : Type 0} ⦃f : Floats W⦄ (world : Surroundings) where
  with_names :
      (c c' : Controller W) (names : List Prerequisite)
      → arm_with world c names ≡ ok c'
      → (names ≡ [])
        × (c'.state ≡ armed)
        × (c'.emergency_latched ≡ false)
        × (c'.neutral_required ≡ false)
  with_names c c' (name ∷ names) e = absurd (ground arith)
  with_names c c' [] e =
      let b : Controller W = record c {
        emergency_latched = false;
        neutral_required = false;
        fault_reason = none;
        watchdog_state = healthy;
      } in
      let same : transition world b armed prerequisites_confirmed ≡ c' = cc in
      let k = transition-Keeps world b armed prerequisites_confirmed in
      (
        refl,
        sym (ap (λ t. t.state) same) ∙ state-transition world b armed prerequisites_confirmed,
        sym (ap (λ t. t.emergency_latched) same) ∙ k.latched,
        sym (ap (λ t. t.neutral_required) same) ∙ k.neutral,
      )

  -- Arming succeeds only with every prerequisite confirmed and from the disabled or the disconnected
  -- state; the controller is then armed, no emergency is latched and no neutral input is outstanding.
  pub arm-needs :
      (c c' : Controller W) (p : ControlPrerequisites)
      → arm world c p ≡ ok c'
      → Confirmed p
        × ((c.state ≡ disabled) ⊎ (c.state ≡ ControlState.disconnected))
        × (c'.state ≡ armed)
        × (c'.emergency_latched ≡ false)
        × (c'.neutral_required ≡ false)
  unfolding arm
  arm-needs c c' p e = from c.state refl e
    where
      known :
          (c.state ≡ disabled) ⊎ (c.state ≡ ControlState.disconnected)
          → arm_with world c (missing p) ≡ ok c'
          → Confirmed p
            × ((c.state ≡ disabled) ⊎ (c.state ≡ ControlState.disconnected))
            × (c'.state ≡ armed)
            × (c'.emergency_latched ≡ false)
            × (c'.neutral_required ≡ false)
      known s e =
          let (none_missing, state, latched, neutral) = with_names c c' (missing p) e in
          (missing-Confirmed p none_missing, s, state, latched, neutral)

      from :
          (s : ControlState)
          → c.state ≡ s
          → arm_from world c p s ≡ ok c'
          → Confirmed p
            × ((c.state ≡ disabled) ⊎ (c.state ≡ ControlState.disconnected))
            × (c'.state ≡ armed)
            × (c'.emergency_latched ≡ false)
            × (c'.neutral_required ≡ false)
      from disabled s e = known (inl s) e
      from ControlState.disconnected s e = known (inr s) e
      from armed s e = absurd (ground arith)
      from active s e = absurd (ground arith)
      from stopping s e = absurd (ground arith)
      from ControlState.fault s e = absurd (ground arith)
