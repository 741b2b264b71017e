-- ===== src/Db/Profiles.antt =====
-- src/tuntu/db/repository.py: the methods on profiles. The time of the last change, which no method
-- reads, is left out.
use tuntu.Prelude.{
  ℕ, Bool, true, false, not, ◌&&◌, Option, none, some, List, [], ◌∷◌, map, any, first, keep, sorted,
  take, length, is_some, leb, Text, ◌==◌, nat_eq, if◌then◌else◌, zero, suc,
}
use tuntu.Errors.{Result, ok, err, key_error}
use tuntu.Db.Items.{next_id}
use tuntu.Runs.Settings.{Profile, Settings}

-- What a user can set of a profile.
pub record ProfileForm : Type 0 where
  pub name : Text
  pub settings : Settings
  pub destination_subdir : Text
  pub top_n : ℕ
  pub daily_time : Option Text
  pub enabled : Bool

abbrev pub profile_id_of : Profile → ℕ
profile_id_of p = p.id

-- `create_profile`
unfoldable pub create_profile : ProfileForm → List Profile → ℕ × List Profile
create_profile form rows =
    let id = next_id (map profile_id_of rows) in
    let row : Profile = record {
      id = id;
      name = form.name;
      settings = form.settings;
      destination_subdir = form.destination_subdir;
      top_n = form.top_n;
      daily_time = form.daily_time;
      enabled = form.enabled;
      archived_at = none;
    } in
    (id, row ∷ rows)

-- `get_profile`
unfoldable pub get_profile : ℕ → List Profile → Option Profile
get_profile profile_id rows = first (λ (p : Profile). p.id == profile_id) rows

abbrev is_listed : Bool → Profile → Bool
is_listed true p = true
is_listed false p = not (is_some p.archived_at)

abbrev offset : {A : Type 0} → ℕ → List A → List A
offset zero rows = rows
offset (suc n) [] = []
offset (suc n) (r ∷ rows) = offset n rows

-- `list_profiles`, by falling ids: a page, and the number of all.
unfoldable pub list_profiles :
    (offset limit : ℕ) (include_archived : Bool) → List Profile → List Profile × ℕ
list_profiles skipped limit include_archived rows =
    let listed = keep (is_listed include_archived) rows in
    (
      take limit (offset skipped (sorted (λ (p : Profile) (q : Profile). leb q.id p.id) listed)),
      length listed,
    )

-- `row = session.get(…); if row is None: raise KeyError; …`
unfoldable pub change_profile :
    (profile_id : ℕ) → (Profile → Profile) → List Profile → Result (List Profile)
change_profile profile_id change rows =
    if any (λ (p : Profile). p.id == profile_id) rows
    then ok (map (λ (p : Profile). if p.id == profile_id then change p else p) rows)
    else err key_error

abbrev pub update_profile : ℕ → ProfileForm → List Profile → Result (List Profile)
update_profile profile_id form = change_profile profile_id λ (p : Profile). record p {
  name = form.name;
  settings = form.settings;
  destination_subdir = form.destination_subdir;
  top_n = form.top_n;
  daily_time = form.daily_time;
  enabled = form.enabled;
}

abbrev pub restore_profile : ℕ → List Profile → Result (List Profile)
restore_profile profile_id =
    change_profile profile_id λ (p : Profile). record p { archived_at = none }

abbrev pub set_profile_enabled : ℕ → Bool → List Profile → Result (List Profile)
set_profile_enabled profile_id enabled =
    change_profile profile_id λ (p : Profile). record p { enabled = enabled }

abbrev pub update_profile_settings : ℕ → Settings → List Profile → Result (List Profile)
update_profile_settings profile_id settings =
    change_profile profile_id λ (p : Profile). record p { settings = settings }

abbrev pub archive_profile : ℕ → ℕ → List Profile → Result (List Profile)
archive_profile profile_id now =
    change_profile profile_id λ (p : Profile). record p { archived_at = some now }

abbrev archived_or_missing : Option Profile → Result Bool
archived_or_missing none = err key_error
archived_or_missing (some p) = ok (is_some p.archived_at)

-- `is_profile_archived`
unfoldable pub is_profile_archived : ℕ → List Profile → Result Bool
unfolding get_profile
is_profile_archived profile_id rows = archived_or_missing (get_profile profile_id rows)

abbrev pub is_schedulable : Profile → Bool
is_schedulable p = p.enabled && (not (is_some p.archived_at) && is_some p.daily_time)

-- `list_schedulable_profiles`
unfoldable pub list_schedulable_profiles : List Profile → List Profile
list_schedulable_profiles rows =
    sorted (λ (p : Profile) (q : Profile). leb p.id q.id) (keep is_schedulable rows)
