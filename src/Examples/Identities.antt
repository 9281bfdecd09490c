-- ===== src/Examples/Identities.antt =====
-- A manager with nothing cached whose exchanges answer one origin (internal/identity/manager.go).
use copilotd.Prelude.{◌≡◌, refl, ℕ, [], none, some, pos, true, false, codes, equal, ok, err}
use copilotd.Identity.Manager.{
  Library, ExchangeError, Reply, responded, Manager, Credential, exchange, current, fresh_cached,
  mint, normalize_copilot_origin, credential_from,
}
use copilotd.Identity.Manager.Published.{
  IsValidated, IsServed, current-IsValidated, current-IsServed,
}
use copilotd.Identity.Manager.Classes.{IsClassified, exchange-IsClassified}

abbrev library : Library
library = record {
  trim_space = λ s. s;
  to_lower = λ s. s;
  parse_url = λ s. some (record {
    scheme = codes "https";
    host = codes "api.example.com";
    hostname = codes "api.example.com";
    has_user = false;
    escaped_path = [];
    raw_query = [];
    force_query = false;
    fragment = [];
    raw_fragment = [];
  });
  unmarshal = λ body. some (record {
    token = body;
    expires_at = pos 900;
    endpoints_api = codes "https://api.example.com";
  });
  unix = λ t. t;
}

abbrev fresh_manager : Manager
fresh_manager = record {
  cached = none;
  safety_margin = pos 120;
  startup_retries = 2;
  local_ready = true;
}

abbrev minted_reply : Reply
minted_reply = responded 200 (codes "token")

fresh-IsValidated : IsValidated library fresh_manager
fresh-IsValidated = record { origin = λ t h. cc h }

current-IsValidated_example :
    IsValidated library
      (current {H = ℕ} library 0 (pos 10) (pos 11) minted_reply false fresh_manager).1
current-IsValidated_example =
    current-IsValidated {H = ℕ} library 0 (pos 10) (pos 11) minted_reply false fresh_manager
      fresh-IsValidated

abbrev credential : Credential ℕ
credential = record {
  base_url = codes "https://api.example.com";
  token = codes "token";
  headers = 0;
}

served :
    (current {H = ℕ} library 0 (pos 10) (pos 11) minted_reply false fresh_manager).0 ≡ ok credential
unfolding current fresh_cached mint exchange equal normalize_copilot_origin credential_from
served = refl

current-IsServed_example :
    IsServed {H = ℕ} library 0
      (current {H = ℕ} library 0 (pos 10) (pos 11) minted_reply false fresh_manager).1
      credential
current-IsServed_example =
    current-IsServed {H = ℕ} library 0 (pos 10) (pos 11) minted_reply false fresh_manager credential
      fresh-IsValidated served

abbrev denied : ExchangeError
denied = record { transient = false; auth_class = true; status = 403 }

denied_exchange : exchange library (responded 403 []) ≡ err denied
unfolding exchange
denied_exchange = refl

exchange-IsClassified_example : IsClassified (responded 403 []) denied
exchange-IsClassified_example =
    exchange-IsClassified library (responded 403 []) denied denied_exchange
