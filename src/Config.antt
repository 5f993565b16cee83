-- ===== src/Config.antt =====
-- Config of pkg/oget/config.go, and its defaults.
use oget.Prelude.{Bool, true, false, List, [], ◌∷◌}
use oget.Prelude.Int.{ℤ, pos}
use oget.Prelude.Text.{Bytes, codes}

pub record Config : Type 0 where
  pub concurrency : ℤ
  pub max_concurrency : ℤ
  pub auto_tune : Bool
  pub storage_type : Bytes
  pub state_store_type : Bytes
  pub manifest_path : Bytes
  pub output_dir : Bytes
  pub proxy_url : Bytes
  pub timeout : ℤ
  pub verbose : Bool
  pub task_batch_size : ℤ
  pub seeding_duration : ℤ
  pub tracker_urls : List Bytes
  pub magnet_probe_timeout : ℤ
  pub checksum : Bool
  pub dns : Bytes
  pub ffmpeg_path : Bytes
  pub headers : List (Bytes × Bytes)
  pub hf_mirror : Bytes
  pub hf_token : Bytes

-- DefaultConfig
abbrev pub default_config : Config
default_config = record {
  concurrency = pos 8;
  max_concurrency = pos 128;
  auto_tune = true;
  storage_type = codes "file";
  state_store_type = codes "json";
  manifest_path = codes ".";
  output_dir = [];
  proxy_url = [];
  timeout = pos 30;
  verbose = false;
  task_batch_size = pos 100;
  seeding_duration = pos 30;
  tracker_urls =
      codes "https://raw.githubusercontent.com/ngosang/trackerslist/master/trackers_all.txt"
      ∷ codes "https://raw.githubusercontent.com/adysec/tracker/main/trackers_all.txt"
      ∷ [];
  magnet_probe_timeout = pos 60;
  checksum = false;
  dns = [];
  ffmpeg_path = [];
  headers = [];
  hf_mirror = [];
  hf_token = [];
}
