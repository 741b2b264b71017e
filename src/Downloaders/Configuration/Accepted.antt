-- ===== src/Downloaders/Configuration/Accepted.antt =====
-- What an accepted configuration promises.
use tuntu.Prelude.{◌≡◌, true, false, is_empty, nat_eq, list_eq}
use tuntu.Downloaders.Client.{answers}
use tuntu.Downloaders.Paths.{normalize_absolute_path}
use tuntu.Downloaders.Paths.Normal.{IsPath}
use tuntu.Downloaders.Numbers.{pos, int_lt, whole, number_lt, number_le}
use tuntu.Downloaders.Configuration.{Configuration, has_credentials}

-- What the client relies on.
pub record IsUsable (c : Configuration) : Type 0 where
  pub root : IsPath c.root_path
  pub root_kept : normalize_absolute_path c.root_path ≡ answers c.root_path
  pub credentials : has_credentials c.mode c.api_token c.username c.password ≡ true
  pub rpc_timeout : number_lt (whole (pos 0)) c.rpc_timeout_seconds ≡ true
  -- It can still be NaN.
  pub list_timeout : number_le c.task_list_timeout_seconds (whole (pos 0)) ≡ false
  pub poll_interval : int_lt (pos 0) c.poll_interval_seconds ≡ true
  pub attention : int_lt (pos 0) c.attention_after_seconds ≡ true
  pub depth : int_lt (pos 0) c.max_tree_depth ≡ true
  pub entries : int_lt (pos 0) c.max_tree_entries ≡ true
  pub delay : int_lt c.check_folder_after_seconds (pos 0) ≡ false
  pub observations : int_lt c.required_stable_observations (pos 2) ≡ false
  pub host : is_empty c.hostname ≡ false
