-- ===== src/Launch/Activate/Bounds.antt =====
-- How many instances of a private chute become active, and that a public one does.
use chutes_api.Base.{
  ℕ, ◌+◌, ◌≤◌, max, ◌≡◌, refl, sym, ap, Bool, true, false, ◌&&◌, [], ◌∷◌, Option, some, String,
  Dict, lookup, insert, get_or, str_eq, Bool-cases, first_where, inl, inr, ◌⊎◌, arith,
  if◌then◌else◌,
}
use chutes_api.Admission.{at_capacity}
use chutes_api.Admission.Private.{can_activate_private-below}
use chutes_api.Bounties.{check_bounty_exists}
use chutes_api.Launch.{
  Chute, LaunchConfig, Instance, Store, forbidden, not_found, server_error, locked, go, is_some,
  is_billed,
}
use chutes_api.Launch.Keeps.{Anything, Ends, Ends-go, >>=-Ends, require-Ends, the-Ends}
use chutes_api.Launch.Entry.{load_launch_config, count_where}
use chutes_api.Launch.Entry.Loading.{load_launch_config-IsOpened}
use chutes_api.Launch.Verify.{of_config}
use chutes_api.Launch.Activate.{may_activate, activate, activate_launch_config_instance}

abbrev active_in : (chute_id : String) → Dict Instance → ℕ
active_in chute_id rows =
    count_where (λ i. str_eq i.chute_id chute_id && (i.active && i.verified)) rows

count_where-insert :
    (test : Instance → Bool) (key : String) (i : Instance) (rows : Dict Instance)
    → count_where test (insert key i rows) ≤ count_where test rows + 1
unfolding insert
count_where-insert test key i [] = ground arith
count_where-insert test key i ((first, held) ∷ rest) =
    ground (arith, count_where-insert test key i rest)

may_activate-below :
    (now : ℕ) (chutes_user : String) (chute : Chute) (s : Store)
    → may_activate now chutes_user chute s ≡ true
    → (is_billed chutes_user chute ≡ false)
      ⊎ (active_in chute.chute_id s.instances + 1
          ≤ max 1 (get_or (lookup chute.chute_id s.scale) 0))
unfolding may_activate
may_activate-below now chutes_user chute s e = ground (
  arith,
  can_activate_private-below (active_in chute.chute_id s.instances) (lookup chute.chute_id s.scale)
      (check_bounty_exists now chute.chute_id s.bounties),
)

-- One instance may have become active: the rows are as they were, where it was active before, and else
-- only its row has changed.
abbrev pub IsOnlyChange : Instance → (before after : Dict Instance) → Type 0
IsOnlyChange instance before after =
    ((instance.active ≡ true) × (after ≡ before))
    ⊎ ((now_active : Instance) × (now_active.active ≡ true)
        × (now_active.config_id ≡ instance.config_id)
        × (now_active.chute_id ≡ instance.chute_id)
        × (after ≡ insert instance.instance_id now_active before))

-- What an accepted activation does: to which instance, and to the number of active ones of its chute.
pub record IsActivated (chutes_user config_id : String) (s t : Store) : Type 0 where
  pub config : LaunchConfig
  pub row : lookup config_id s.configs ≡ some config
  pub was_verified : is_some config.verified_at ≡ true
  pub instance : Instance
  pub has_instance : first_where (of_config config.config_id) s.instances ≡ some instance
  pub only_change : IsOnlyChange instance s.instances t.instances
  pub chute : Chute
  pub is_chute : lookup instance.chute_id s.chutes ≡ some chute
  pub within :
      (is_billed chutes_user chute ≡ false)
      ⊎ (active_in chute.chute_id t.instances
          ≤ max
              (active_in chute.chute_id s.instances)
              (max 1 (get_or (lookup chute.chute_id s.scale) 0)))

activate-IsOnlyChange :
    (now : ℕ) (chutes_user : String) (chute : Chute) (config : LaunchConfig) (instance : Instance)
    (s : Store)
    → IsOnlyChange instance s.instances
        (if instance.active then s else activate now chutes_user chute config instance s).instances
unfolding activate
activate-IsOnlyChange now chutes_user chute config instance s = elim (Bool-cases instance.active) [
  | inl e ↦ rw e (inl (refl, refl))
  | inr e ↦ rw e (inr (_, refl, refl, refl, refl))
]

activate-within :
    (now : ℕ) (chutes_user : String) (chute : Chute) (config : LaunchConfig) (instance : Instance)
    (s : Store)
    → may_activate now chutes_user chute s ≡ true
    → (is_billed chutes_user chute ≡ false)
      ⊎ (active_in chute.chute_id
            (if instance.active
              then s
              else activate now chutes_user chute config instance s).instances
          ≤ max
              (active_in chute.chute_id s.instances)
              (max 1 (get_or (lookup chute.chute_id s.scale) 0)))
unfolding activate
activate-within now chutes_user chute config instance s may =
    elim (may_activate-below now chutes_user chute s may) [
      | inl e ↦ inl e
      | inr room ↦ inr (elim (Bool-cases instance.active) [
        | inl e ↦ rw e omega arith
        | inr e ↦ rw e omega (
          arith,
          count_where-insert (λ i. str_eq i.chute_id chute.chute_id && (i.active && i.verified))
              instance.instance_id _ s.instances,
        )
      ])
    ]

activation-IsActivated :
    (now : ℕ) (chutes_user : String) (decode : String → Option String) (config_id token : String)
    (s : Store)
    → Ends Anything
        (IsActivated chutes_user config_id s)
        (activate_launch_config_instance now chutes_user decode config_id token s)
unfolding activate_launch_config_instance
activation-IsActivated now chutes_user decode config_id token s =
    let A = IsActivated chutes_user config_id s in
    >>=-Ends Anything A (load_launch_config now decode config_id token true s) _
      (load_launch_config-IsOpened now decode config_id token true s)
      (λ loaded opened.
        let config = loaded.0 in
        let noted = loaded.1 in
        let (old, row, same_id, same_verified, same) = opened in
        require-Ends Anything A (is_some config.verified_at) s forbidden _ tt (λ verified.
          the-Ends Anything A (first_where (of_config config.config_id) noted.instances) s not_found
            _ tt
            (λ instance has_instance.
              the-Ends Anything A (lookup instance.chute_id noted.chutes) s server_error _ tt
                (λ chute is_chute.
                  require-Ends Anything A (may_activate now chutes_user chute noted) s
                    (locked at_capacity) _ tt
                    (λ may. record {
                      config = old;
                      row = row;
                      was_verified = rw (sym same_verified) verified;
                      instance = instance;
                      has_instance =
                          rw (sym same_id, sym (ap (λ (n : Store). n.instances) same)) has_instance;
                      only_change =
                          rw (sym (ap (λ (n : Store). n.instances) same))
                            (activate-IsOnlyChange now chutes_user chute config instance noted);
                      chute = chute;
                      is_chute = rw (sym (ap (λ (n : Store). n.chutes) same)) is_chute;
                      within =
                          rw
                            (
                              sym (ap (λ (n : Store). n.instances) same),
                              sym (ap (λ (n : Store). n.scale) same),
                            )
                            (activate-within now chutes_user chute config instance noted may);
                    })))))

-- An activation that is accepted is that of the verified launch config that was asked for, and of its
-- instance: no other instance is changed, and it is active afterwards. If its chute is private and
-- billed by time, the active instances of the chute are afterwards no more than they were, or than
-- the target, or than one, whichever is most.
pub activate_launch_config_instance-bound :
    (now : ℕ) (chutes_user : String) (decode : String → Option String) (config_id token : String)
    (s t : Store)
    → activate_launch_config_instance now chutes_user decode config_id token s ≡ go t
    → IsActivated chutes_user config_id s t
activate_launch_config_instance-bound now chutes_user decode config_id token s t =
    Ends-go Anything (IsActivated chutes_user config_id s)
      (activate_launch_config_instance now chutes_user decode config_id token s) t
      (activation-IsActivated now chutes_user decode config_id token s)
