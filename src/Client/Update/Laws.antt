-- ===== src/Client/Update/Laws.antt =====
-- The number of connections follows the settings.
use mathlib.Core.Path.{subst}
use da_bao.Base.{
  ℕ, ◌≡◌, refl, ◌∙◌, arith, Bool, Bool-cases, inl, inr, false, List, ◌==◌, ◌||◌, Option, some, none,
}
use da_bao.Base.Int.{ℤ, pos, negsuc, ◌+ℤ◌, ◌-ℤ◌}
use da_bao.Epoll.{Timeval}
use da_bao.Client.Events.{Client}
use da_bao.Client.Load.{Attempt}
use da_bao.Client.Load.Laws.{target, target-update_connections}
use da_bao.Client.Update.{
  Pass, exited, fault, updated, is_kill, of_client, with_configs, update_cfg,
}
use da_bao.ClientConfig.{
  Settings, EpollConfigs, Doubles, with_interval, update_connections_setting, update_epoch, incre,
  decre,
}

-- What is asked of a pass that goes on.
abbrev Follows : {D : Type 0} → ℤ → Client → Pass D → Type 0
Follows prior c (exited t) = Unit
Follows prior c fault = Unit
Follows prior c (updated conf' c') = target c' ≡ target c +ℤ (conf'.connections -ℤ prior)

of_client-Follows :
    {D : Type 0} (prior : ℤ) (c : Client) (conf' : EpollConfigs D) (o : Option Client)
    → ((c' : Client) → o ≡ some c' → target c' ≡ target c +ℤ (conf'.connections -ℤ prior))
    → Follows prior c (of_client conf' o)
of_client-Follows prior c conf' none h = tt
of_client-Follows prior c conf' (some c') h = h c' refl

same_target : (a b d : ℤ) → b ≡ d → a ≡ a +ℤ (b -ℤ d)
unfolding ◌+ℤ◌ ◌-ℤ◌
same_target a b d h = ground arith

module _ {D : Type 0} (doubles : Doubles D) where
  -- The connections of the settings change only with a flag that says so.
  unchanged :
      (cfg : Option (Settings D)) (conf : EpollConfigs D)
      → ((update_epoch doubles cfg conf).0 == incre || (update_epoch doubles cfg conf).0 == decre)
        ≡ false
      → (update_epoch doubles cfg conf).1.connections ≡ conf.connections
  unfolding update_epoch update_connections_setting with_interval
  unchanged none conf h = refl
  unchanged (some cfg) conf h = ground arith

  same_ports :
      (cfg : Option (Settings D)) (conf : EpollConfigs D)
      → (update_epoch doubles cfg conf).1.ports_count ≡ conf.ports_count
  unfolding update_epoch update_connections_setting with_interval
  same_ports none conf = refl
  same_ports (some cfg) conf = ground arith

  module _ (virtual_delay : ℤ → ℤ → ℤ) (no_value : Bool) (attempts : ℕ → List Attempt) (ips efd : ℕ)
      (now time : Timeval) where
    with_configs-Follows :
        (interval prior : ℤ) (ports : ℕ) (conf' : EpollConfigs D) (c : Client)
        → conf'.ports_count ≡ pos ports
        → Follows prior c (
            of_client conf' (
              with_configs doubles virtual_delay no_value attempts ips efd now time interval conf'
                prior c))
    unfolding with_configs
    with_configs-Follows (pos interval) prior ports conf' c counted =
        of_client-Follows prior c conf' _ (λ c' e.
          target-update_connections virtual_delay conf'.epoch interval ports no_value attempts ips
            efd now time prior conf'.connections c (rw counted at e))
    with_configs-Follows (negsuc n) prior ports conf' c counted = tt

    update_cfg-Follows :
        (cfg : Option (Settings D)) (ports : ℕ) (conf : EpollConfigs D) (c : Client)
        → conf.ports_count ≡ pos ports
        → Follows conf.connections c
            (update_cfg doubles virtual_delay no_value attempts ips efd now time cfg conf c)
    unfolding update_cfg
    update_cfg-Follows cfg ports conf c counted =
        let conf' = (update_epoch doubles cfg conf).1 in
        let flag = (update_epoch doubles cfg conf).0 in
        elim (Bool-cases (is_kill conf'.kill)) [
          | inl killed ↦ rw killed tt
          | inr on ↦ rw on (elim (Bool-cases (flag == incre || flag == decre)) [
            | inl changed ↦ rw changed (
                with_configs-Follows conf'.interval conf.connections ports conf' c
                  (same_ports cfg conf ∙ counted))
            | inr same ↦ rw same (
                same_target (target c) conf'.connections conf.connections (unchanged cfg conf same))
          ])
        ]

    -- After a pass of update_cfg that goes on, with a number of ports in the settings that is not
    -- negative, whatever the file holds and however much of it could be read, the number of
    -- connections less those still to close has changed as the number of connections in the
    -- settings has.
    pub update_cfg-target :
        (cfg : Option (Settings D)) (ports : ℕ) (conf conf' : EpollConfigs D) (c c' : Client)
        → conf.ports_count ≡ pos ports
        → update_cfg doubles virtual_delay no_value attempts ips efd now time cfg conf c
          ≡ updated conf' c'
        → target c' ≡ target c +ℤ (conf'.connections -ℤ conf.connections)
    update_cfg-target cfg ports conf conf' c c' counted e =
        subst (Follows conf.connections c) e (update_cfg-Follows cfg ports conf c counted)
