-- ===== src/Config/Tables/ProfileOrigin.antt =====
-- What a profile that was read says of its table.
use coolerocontrol.Base.{string_eq, ◌≡◌}
use coolerocontrol.Base.Float.{Float}
use coolerocontrol.Base.Outcome.{
  ok, Partial, Partial-bind, Partial-bind_any, Partial_self, Partial-ok, Safe-Partial,
}
use coolerocontrol.Config.Fields.{
  get_str, get_speed_fixed, get_profile_uids, get_mix_function_type, get_temp_source,
  get_speed_profile,
}
use coolerocontrol.Config.Tables.FunctionValid.{HasStr, Safe-get_str}
use coolerocontrol.Config.Tables.Source.{IsSourcePlace, place_of_read}
use coolerocontrol.Config.Tables.{get_p_type, get_function_uid, get_profile}
use coolerocontrol.Config.Toml.{Toml, IsToml}
use coolerocontrol.Setting.{Profile}

module _ {F : Type 0} ⦃fl : Float F⦄ (toml : Toml F) (laws : IsToml toml) where
  -- Its UID stands there, and a source has a place.
  abbrev pub Origin : toml.Table → Profile F → Type 0
  Origin t p = HasStr toml t "uid" p.uid × ((s : toml.Table) × IsSourcePlace toml t s)

  get_profile-Partial : (t : toml.Table) → Partial (get_profile toml t) (Origin t)
  unfolding get_profile
  get_profile-Partial t =
      Partial-bind P (HasStr toml t "uid") _
        (get_str toml t "uid" "Profile UID should be present" "UID should be a string")
        (Safe-Partial _ (get_str toml t "uid" _ _) (Safe-get_str toml t "uid" _ _))
        λ uid named.
          Partial-bind_any P _
            (get_str toml t "name" "Profile Name should be present" "Name should be a string")
            λ name. Partial-bind_any P _ (get_p_type toml t) λ p_type.
              Partial-bind_any P _ (get_speed_fixed toml t) λ fixed.
                Partial-bind_any P _ (get_speed_profile toml t) λ steps.
                  Partial-bind P (λ o. get_temp_source toml t ≡ ok o) _ (get_temp_source toml t)
                    (Partial_self (get_temp_source toml t))
                    λ source found. Partial-bind_any P _ (get_function_uid toml t) λ function_uid.
                      Partial-bind_any P _ (get_profile_uids toml t) λ members.
                        Partial-bind_any P _ (get_mix_function_type toml t)
                          λ mix. (named, place_of_read toml laws t source found)
    where
      P : Profile F → Type 0
      P = Origin t

  pub get_profile-Origin : (t : toml.Table) (p : Profile F) → get_profile toml t ≡ ok p → Origin t p
  get_profile-Origin t p e = Partial-ok (Origin t) (get_profile toml t) p e (get_profile-Partial t)
