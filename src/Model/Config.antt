-- ===== src/Model/Config.antt =====
-- pkg/model/config.go: the configuration and its defaults.
use go_proxy.Base.{ℕ, ◌*◌, Bool, true, false, List, [], ◌∷◌}
use go_proxy.Base.Int.{ℤ, pos}
use go_proxy.Base.Text.{Text, codes}
use go_proxy.Model.Proxy.{Protocol, http, https, socks4, socks5}

-- Durations in nanoseconds.
abbrev pub milliseconds : ℕ → ℤ
milliseconds n = pos (n * 1_000_000)

pub record EngineConfig : Type 0 where
  pub workers : ℤ
  pub connect_timeout : ℤ
  pub read_write_timeout : ℤ
  pub max_queue_size : ℤ
  pub rate_limit : ℤ
  pub max_retries : ℤ
  pub auto_port : ℤ
  pub loop : Bool

pub record ProtocolConfig : Type 0 where
  pub protocols : List Protocol
  pub auto_detect : Bool
  pub fast_fail_tcp : Bool

pub record JudgeConfig : Type 0 where
  pub judges : List Text
  pub custom_judge_url : Text
  pub timeout : ℤ
  pub expect_body : Text

pub record TargetConfig : Type 0 where
  pub enabled : Bool
  pub url : Text
  pub timeout : ℤ
  pub expected_status : ℤ
  pub match_regex : Text

pub record StorageConfig : Type 0 where
  pub output_dir : Text
  pub save_sqlite : Bool
  pub db_path : Text
  pub split_by_country : Bool
  pub split_by_type : Bool
  pub save_json : Bool
  pub save_csv : Bool

pub record ServerConfig : Type 0 where
  pub enable_api : Bool
  pub api_addr : Text
  pub auth_token : Text

pub record GeoIpConfig : Type 0 where
  pub enabled : Bool
  pub mmdb_path : Text
  pub online_api : Bool

pub record Config : Type 0 where
  pub engine : EngineConfig
  pub protocol : ProtocolConfig
  pub judge : JudgeConfig
  pub target : TargetConfig
  pub storage : StorageConfig
  pub server : ServerConfig
  pub geoip : GeoIpConfig

-- `DefaultConfig`
unfoldable pub default_config : Config
default_config = record {
  engine = record {
    workers = pos 2000;
    connect_timeout = milliseconds 1500;
    read_write_timeout = milliseconds 3000;
    max_queue_size = pos 50000;
    rate_limit = pos 0;
    max_retries = pos 1;
    auto_port = pos 8080;
    loop = false;
  };
  protocol = record {
    protocols = http ∷ https ∷ socks5 ∷ socks4 ∷ [];
    auto_detect = true;
    fast_fail_tcp = true;
  };
  judge = record {
    judges =
        codes "https://api.ipify.org?format=json"
        ∷ codes "http://httpbin.org/ip"
        ∷ codes "https://ifconfig.me/ip"
        ∷ codes "https://api.myip.com"
        ∷ [];
    custom_judge_url = [];
    timeout = milliseconds 3000;
    expect_body = [];
  };
  target = record {
    enabled = false;
    url = codes "https://www.google.com";
    timeout = milliseconds 3000;
    expected_status = pos 200;
    match_regex = [];
  };
  storage = record {
    output_dir = codes "output";
    save_sqlite = true;
    db_path = codes "proxies.db";
    split_by_country = true;
    split_by_type = true;
    save_json = true;
    save_csv = false;
  };
  server = record { enable_api = true; api_addr = codes ":8080"; auth_token = [] };
  geoip = record { enabled = true; mmdb_path = []; online_api = true };
}
