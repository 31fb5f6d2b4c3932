-- ===== src/State/Tests.antt =====
-- A small configuration for internal/state/state.go, and the theorems on the store at it.
use simple_mining_proxy.Base.{
  ◌≡◌, refl, Bool, true, false, none, some, [], ◌∷◌, Text, txt, text_eq, lookup, delete, to_lower,
}
use simple_mining_proxy.State.{Pool, File, addr_string, digits_from}
use simple_mining_proxy.State.Fields.{
  valid_pool_id, rune_count, host_error, addresses_loop, addresses_error, pool_field_errors,
}
use simple_mining_proxy.State.Store.{
  Store, Result, ok, check, check_pools, pool_error, active_error, check_fallback, fallback_error,
  fallback_active, mutate, decoded, open_store, open_decoded, upgrade,
}
use simple_mining_proxy.State.Valid.{IsValid, check-IsValid_iff}
use simple_mining_proxy.State.Atomic.{IsCurrent, IsConsistent, open_store-IsConsistent}

-- No text of the samples is an IP address.
abbrev pub no_ip : Text → Bool
no_ip h = false

abbrev pub pool_a : Pool
pool_a = record {
  id = txt "a";
  name = txt "Alpha";
  coin = txt "BTC";
  addresses = record { host = txt "a.example"; port = 3333 } ∷ [];
  tls = false;
  tls_skip_verify = false;
  username = txt "acc.{worker}";
  password = txt "x";
  profit_switch = true;
  timed_target = false;
  solo = false;
  profit_home = false;
}

abbrev pub pool_b : Pool
pool_b = record pool_a {
  id = txt "b";
  name = txt "Beta";
  coin = txt "XEC";
  addresses =
      record { host = txt "b.example"; port = 3334 }
      ∷ record { host = txt "B.example"; port = 443 }
      ∷ [];
  profit_switch = false;
  timed_target = true;
  solo = true;
}

abbrev pub sample : File
sample = record {
  version = 2;
  active_pool = txt "a";
  fallback_pools = txt "b" ∷ [];
  pools = pool_a ∷ pool_b ∷ [];
  settings = [];
  telegram_token = [];
}

sample_passes : check no_ip sample ≡ none
unfolding check check_pools pool_error active_error check_fallback fallback_error text_eq
    valid_pool_id rune_count host_error addresses_loop addresses_error pool_field_errors addr_string
    to_lower digits_from
sample_passes = refl

check_active_fallback :
    check no_ip (record sample { fallback_pools = txt "a" ∷ [] }) ≡ some (fallback_active (txt "a"))
unfolding check check_pools pool_error active_error check_fallback fallback_error text_eq
    valid_pool_id rune_count host_error addresses_loop addresses_error pool_field_errors addr_string
    to_lower digits_from
check_active_fallback = refl

pub sample-IsValid : IsValid no_ip sample
sample-IsValid = (check-IsValid_iff no_ip sample).0 sample_passes

check-IsValid_iff_example :
    (check no_ip sample ≡ none → IsValid no_ip sample)
    × (IsValid no_ip sample → check no_ip sample ≡ none)
check-IsValid_iff_example = check-IsValid_iff no_ip sample

-- The order is turned round: nothing is refused, and the write succeeds or fails.
abbrev clear_fallback : File → Result Text File
clear_fallback f = ok (record f { fallback_pools = [] })

abbrev stored : Store
stored = record { disk = some sample; cur = sample }

abbrev cleared : Store
cleared = record {
  disk = some (record sample { fallback_pools = [] });
  cur = record sample { fallback_pools = [] };
}

clear_written : mutate no_ip true clear_fallback stored ≡ (cleared, none)
unfolding mutate check check_pools pool_error active_error check_fallback fallback_error text_eq
    valid_pool_id rune_count host_error addresses_loop addresses_error pool_field_errors addr_string
    to_lower digits_from
clear_written = refl

cleared-IsCurrent : IsCurrent cleared.cur
unfolding lookup
cleared-IsCurrent = record { version_current = refl; retired_absent = refl }

open_sample : open_store no_ip false (decoded sample) ≡ ok stored
unfolding open_store open_decoded upgrade delete lookup check check_pools pool_error active_error
    check_fallback fallback_error text_eq valid_pool_id rune_count host_error addresses_loop
    addresses_error pool_field_errors addr_string to_lower digits_from
open_sample = refl

open_store-IsConsistent_example : IsConsistent no_ip stored × IsCurrent stored.cur
open_store-IsConsistent_example = open_store-IsConsistent no_ip false (decoded sample) open_sample
