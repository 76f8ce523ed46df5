-- ===== src/Config/Tables/ProfileTable.antt =====
-- The table that a profile is written into, and what is read back from it.
use mathlib.Core.List.{map-id}
use coolerocontrol.Base.{
  ℕ, ◌≤◌, String, false, Option, none, some, List, [], ◌∷◌, map, All, string_eq, ◌==◌, ◌≡◌, inl,
  inr, refl, ap, ◌∙◌, arith,
}
use coolerocontrol.Base.Float.{Float}
use coolerocontrol.Base.Int.{pos, clamp_self}
use coolerocontrol.Base.Outcome.{ok, ◌>>=◌, unwrap, with_context}
use coolerocontrol.Config.Fields.{
  optional, traverse, as_clamped, get_speed_fixed, get_profile_uids, get_mix_function_type,
  get_temp_source, get_temp, get_step, get_speed_profile, mix_function_type_str,
  mix_function_type_from_str, profile_type_str, profile_type_from_str,
}
use coolerocontrol.Config.Tables.Source.{
  with_source, IsSourcePlace, get-with_source, set_temp_source_lem, get_temp_source_entries,
}
use coolerocontrol.Config.Tables.Written.{
  AllSome, AllSome-imp, AllSome-all, option_map_id, get_str_written, present, optional_written,
  as_clamped_written, traverse-map, traverse-map_all,
}
use coolerocontrol.Config.Tables.{
  item_or_none, or_default, get_p_type, get_function_uid, get_profile, step_item,
  set_profile_source, member_item, add_profile_properties_to_profile_table,
}
use coolerocontrol.Config.Toml.{Toml, IsToml}
use coolerocontrol.Setting.{TempSource, Profile, ProfileType, ProfileMixFunctionType}

profile_type-roundtrip : (t : ProfileType) → profile_type_from_str (profile_type_str t) ≡ some t
unfolding profile_type_str profile_type_from_str
profile_type-roundtrip ProfileType.default = refl
profile_type-roundtrip ProfileType.fixed = refl
profile_type-roundtrip ProfileType.graph = refl
profile_type-roundtrip ProfileType.mix = refl

mix_function_type-roundtrip :
    (t : ProfileMixFunctionType) → mix_function_type_from_str (mix_function_type_str t) ≡ some t
unfolding mix_function_type_str mix_function_type_from_str
mix_function_type-roundtrip ProfileMixFunctionType.min = refl
mix_function_type-roundtrip ProfileMixFunctionType.max = refl
mix_function_type-roundtrip ProfileMixFunctionType.avg = refl

-- The duties of a profile are percentages.
pub record IsPercent {F : Type 0} (p : Profile F) : Type 0 where
  pub fixed_le : AllSome (λ n. n ≤ 100) p.speed_fixed
  pub profile_le : AllSome (λ steps. All (λ step. step.1 ≤ 100) steps) p.speed_profile

module _ {F : Type 0} ⦃fl : Float F⦄ (toml : Toml F) where
  -- The table with the source of the profile, where `s` stands under its key before.
  abbrev pub with_option : toml.Table → toml.Table → Option TempSource → toml.Table
  with_option table s none = toml.insert table "temp_source" toml.none_item
  with_option table s (some source) = with_source toml table s source

  -- The fields before the source, and all.
  abbrev pub head_of : Profile F → toml.Table → toml.Table
  head_of p t0 =
      let t1 = toml.insert t0 "uid" (toml.string p.uid) in
      let t2 = toml.insert t1 "name" (toml.string p.name) in
      let t3 = toml.insert t2 "p_type" (toml.string (profile_type_str p.p_type)) in
      let t4 =
        toml.insert t3 "speed_fixed"
          (item_or_none toml (λ n. toml.integer (pos n)) p.speed_fixed) in
      toml.insert t4 "speed_profile"
        (item_or_none toml (λ steps. toml.array (map (step_item toml) steps)) p.speed_profile)

  pub written : Profile F → toml.Table → toml.Table → toml.Table
  written p t0 s =
      let t6 = with_option (head_of p t0) s p.temp_source in
      let t7 = toml.insert t6 "function_uid" (toml.string p.function_uid) in
      let t8 = toml.insert t7 "member_profile_uids" (member_item toml p.member_profile_uids) in
      toml.insert t8 "mix_function_type"
        (item_or_none toml (λ m. toml.string (mix_function_type_str m)) p.mix_function_type)

pub percent_written :
    {F : Type 0} (toml : Toml F) (laws : IsToml toml) (wrong range : String) (n : ℕ)
    → n ≤ 100
    → as_clamped toml 0 100 wrong range (toml.integer (pos n)) ≡ ok n
percent_written toml laws wrong range n h =
    as_clamped_written toml laws 0 100 wrong range n (omega arith)
    ∙ ap ok (clamp_self 0 100 n (omega arith) h)

module _ {F : Type 0} ⦃fl : Float F⦄ (toml : Toml F) (laws : IsToml toml) where
  get-with_option :
      (table s : toml.Table) (o : Option TempSource) (j : String)
      → ("temp_source" == j) ≡ false
      → toml.get (with_option toml table s o) j ≡ toml.get table j
  get-with_option table s none j h = rw (laws.get-insert, h) refl
  get-with_option table s (some source) j h =
      rw (get-with_source toml laws table s source j, h) refl

  members_lem :
      (uids : List String) (table : toml.Table)
      → toml.get table "member_profile_uids" ≡ present toml (member_item toml uids)
      → get_profile_uids toml table ≡ ok uids
  unfolding get_profile_uids
  members_lem [] table h =
      let absent : toml.get table "member_profile_uids" ≡ none =
        h ∙ rw laws.is_none-none_item refl in
      rw (absent, get_profile_uids) refl
  members_lem (uid ∷ uids) table h =
      let items = map toml.string (uid ∷ uids) in
      let there : toml.get table "member_profile_uids" ≡ some (toml.array items) =
        h ∙ rw laws.is_none-array refl in
      rw (there, get_profile_uids, laws.as_array-array)
        (traverse-map (λ v. unwrap (toml.as_str v)) toml.string (λ u. u)
            (λ u. rw laws.as_str-string refl) (uid ∷ uids)
          ∙ ap ok (map-id (uid ∷ uids)))

  source_lem :
      (o : Option TempSource) (before s table : toml.Table)
      → toml.get table "temp_source" ≡ toml.get (with_option toml before s o) "temp_source"
      → get_temp_source toml table ≡ ok o
  unfolding get_temp_source
  source_lem none before s table h = rw (h, laws.get-insert, laws.is_none-none_item) refl
  source_lem (some source) before s table h =
      get_temp_source_entries toml laws table s source
        (h ∙ get-with_source toml laws before s source "temp_source")

  set_profile_source_lem :
      (o : Option TempSource) (table s : toml.Table)
      → IsSourcePlace toml table s
      → set_profile_source toml table o ≡ ok (with_option toml table s o)
  set_profile_source_lem none table s h = refl
  set_profile_source_lem (some source) table s h = set_temp_source_lem toml laws table s source h

  temp_written : (x : F) → get_temp toml (toml.float x) ≡ ok x
  unfolding get_temp
  temp_written x = rw (laws.as_float-float, get_temp) refl

  step_written : (step : F × ℕ) → step.1 ≤ 100 → get_step toml (step_item toml step) ≡ ok step
  unfolding get_step
  step_written (x, n) h =
      rw
        (
          laws.as_array-array,
          temp_written x,
          percent_written toml laws "Speed Profile Duties must be integers"
              "speed profiles must be values between 0-100" n h,
        )
        refl

  steps_read :
      (steps : List (F × ℕ))
      → All (λ step. step.1 ≤ 100) steps
      → All (λ step. get_step toml (step_item toml step) ≡ ok step) steps
  steps_read [] h = tt
  steps_read (step ∷ steps) h = (step_written step h.0, steps_read steps h.1)

  array_written :
      (steps : List (F × ℕ))
      → All (λ step. step.1 ≤ 100) steps
      → (with_context "profile should be an array"
            (toml.as_array (toml.array (map (step_item toml) steps)))
          >>= λ items. traverse (get_step toml) items)
        ≡ ok steps
  array_written steps h = rw laws.as_array-array (
      traverse-map_all (get_step toml) (step_item toml) (λ step. step) steps (steps_read steps h)
      ∙ ap ok (map-id steps))

  module _ (p : Profile F) (t s : toml.Table) where
    -- The writes after the head leave its keys alone.
    get-tail :
        (j : String)
        → ("temp_source" == j) ≡ false
        → ("function_uid" == j) ≡ false
        → ("member_profile_uids" == j) ≡ false
        → ("mix_function_type" == j) ≡ false
        → toml.get (written toml p t s) j ≡ toml.get (head_of toml p t) j
    unfolding written
    get-tail j a b c d =
        rw (laws.get-insert, d, laws.get-insert, c, laws.get-insert, b)
          (get-with_option (head_of toml p t) s p.temp_source j a)

    get_uid : toml.get (written toml p t s) "uid" ≡ some (toml.string p.uid)
    get_uid = get-tail "uid" refl refl refl refl ∙ simp (laws.get-insert, laws.is_none-string)

    get_name : toml.get (written toml p t s) "name" ≡ some (toml.string p.name)
    get_name = get-tail "name" refl refl refl refl ∙ simp (laws.get-insert, laws.is_none-string)

    get_type :
        toml.get (written toml p t s) "p_type" ≡ some (toml.string (profile_type_str p.p_type))
    get_type = get-tail "p_type" refl refl refl refl ∙ simp (laws.get-insert, laws.is_none-string)

    get_fixed :
        toml.get (written toml p t s) "speed_fixed"
        ≡ present toml (item_or_none toml (λ n. toml.integer (pos n)) p.speed_fixed)
    get_fixed = get-tail "speed_fixed" refl refl refl refl ∙ simp (laws.get-insert)

    get_steps :
        toml.get (written toml p t s) "speed_profile"
        ≡ present toml
            (item_or_none toml (λ steps. toml.array (map (step_item toml) steps)) p.speed_profile)
    get_steps = get-tail "speed_profile" refl refl refl refl ∙ simp (laws.get-insert)

    get_uid_of_function :
        toml.get (written toml p t s) "function_uid" ≡ some (toml.string p.function_uid)
    unfolding written
    get_uid_of_function = simp (laws.get-insert, laws.is_none-string)

    get_members :
        toml.get (written toml p t s) "member_profile_uids"
        ≡ present toml (member_item toml p.member_profile_uids)
    unfolding written
    get_members = simp (laws.get-insert)

    get_mix :
        toml.get (written toml p t s) "mix_function_type"
        ≡ present toml
            (item_or_none toml (λ m. toml.string (mix_function_type_str m)) p.mix_function_type)
    unfolding written
    get_mix = simp (laws.get-insert)

    p_type_written : get_p_type toml (written toml p t s) ≡ ok p.p_type
    unfolding get_p_type
    p_type_written =
        rw
          (
            get_str_written toml laws (written toml p t s) "p_type" _ _ (profile_type_str p.p_type)
                get_type,
            profile_type-roundtrip p.p_type,
          )
          refl

    function_uid_written : get_function_uid toml (written toml p t s) ≡ ok p.function_uid
    unfolding get_function_uid
    function_uid_written = rw (get_uid_of_function, or_default) (rw laws.as_str-string refl)

    members_written : get_profile_uids toml (written toml p t s) ≡ ok p.member_profile_uids
    members_written = members_lem p.member_profile_uids (written toml p t s) get_members

    source_written : get_temp_source toml (written toml p t s) ≡ ok p.temp_source
    unfolding written
    source_written =
        source_lem p.temp_source (head_of toml p t) s (written toml p t s) (simp (laws.get-insert))

    fixed_written : IsPercent p → get_speed_fixed toml (written toml p t s) ≡ ok p.speed_fixed
    unfolding get_speed_fixed
    fixed_written v =
        ap (optional _) get_fixed
        ∙ optional_written toml laws (λ n. toml.integer (pos n)) _ (λ n. n) p.speed_fixed
            (λ n. laws.is_none-integer (pos n))
            (AllSome-imp _ _ p.speed_fixed (percent_written toml laws _ _) v.fixed_le)
        ∙ ap ok (option_map_id p.speed_fixed)

    steps_written : IsPercent p → get_speed_profile toml (written toml p t s) ≡ ok p.speed_profile
    unfolding get_speed_profile
    steps_written v =
        ap (optional _) get_steps
        ∙ optional_written toml laws (λ steps. toml.array (map (step_item toml) steps)) _
            (λ steps. steps) p.speed_profile
            (λ steps. laws.is_none-array (map (step_item toml) steps))
            (AllSome-imp _ _ p.speed_profile array_written v.profile_le)
        ∙ ap ok (option_map_id p.speed_profile)

    mix_written : get_mix_function_type toml (written toml p t s) ≡ ok p.mix_function_type
    unfolding get_mix_function_type
    mix_written =
        ap (optional _) get_mix
        ∙ optional_written toml laws (λ m. toml.string (mix_function_type_str m)) _ (λ m. m)
            p.mix_function_type (λ m. laws.is_none-string (mix_function_type_str m))
            (AllSome-all _ p.mix_function_type
              (λ m. rw (laws.as_str-string, mix_function_type-roundtrip m) refl))
        ∙ ap ok (option_map_id p.mix_function_type)

    pub get_profile-written : IsPercent p → get_profile toml (written toml p t s) ≡ ok p
    unfolding get_profile
    get_profile-written v =
        rw
          (
            get_str_written toml laws (written toml p t s) "uid" _ _ p.uid get_uid,
            get_str_written toml laws (written toml p t s) "name" _ _ p.name get_name,
            p_type_written,
            fixed_written v,
            steps_written v,
            source_written,
            function_uid_written,
            members_written,
            mix_written,
          )
          refl

    head_place : IsSourcePlace toml t s → IsSourcePlace toml (head_of toml p t) s
    head_place (inl (absent, e)) = inl (simp (laws.get-insert) absent, e)
    head_place (inr found) = inr (simp (laws.get-insert) found)

    -- The writes succeed where the source has a place.
    pub add_profile_properties_lem :
        IsSourcePlace toml t s
        → add_profile_properties_to_profile_table toml p t ≡ ok (written toml p t s)
    unfolding add_profile_properties_to_profile_table written
    add_profile_properties_lem h =
        rw (set_profile_source_lem p.temp_source (head_of toml p t) s (head_place h)) refl
