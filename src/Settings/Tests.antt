-- ===== src/Settings/Tests.antt =====
-- Tests of internal/settings: starts and saves with a simple codec.
use simple_mining_proxy.Base.{
  ◌*◌, ◌≡◌, ◌≢◌, ◌⊎◌, refl, Bool, true, false, none, some, [], ◌∷◌, Text, Map, txt, text_eq,
}
use simple_mining_proxy.State.{File, itoa, digits_from}
use simple_mining_proxy.Settings.{int, applies_immediately}
use simple_mining_proxy.Settings.Registry.{sec, int_def}
use simple_mining_proxy.Settings.Codec.{json_string, whole}
use simple_mining_proxy.Base.{insert, delete, lookup}
use simple_mining_proxy.State.Fields.{rune_count}
use simple_mining_proxy.State.Store.{
  ok, refused, decoded, empty_file, mutate, check, check_pools, check_fallback, active_error,
  missing, open_store,
}
use simple_mining_proxy.Stratum.{is_null, trim_space, trim_left, trim_right}
use simple_mining_proxy.Settings.{duration, amount, put, matches, chats_from, chats_step}
use simple_mining_proxy.Settings.Registry.{
  defs, find_def, defaults, cross_check, return_above_margin,
}
use simple_mining_proxy.Settings.Codec.{
  parse, parse_amount, parse_int, parse_enum, parse_string, check_string, float_of, string_of,
  duration_of, encode, format_duration,
}
use simple_mining_proxy.Settings.Build.{
  Built, is_default, take_value, read_entry, build_entry, build_loop, build, set_entry,
  change_entry, change_loop,
}
use simple_mining_proxy.Settings.Store.{
  Stores, Settings, Pending, new_store, format, list_changes, pending_of, prepare, settings_kept,
  commit, committed, saved, save,
}
use simple_mining_proxy.Settings.Agreed.{IsAgreed}
use simple_mining_proxy.Settings.Prepared.{Takes}
use simple_mining_proxy.Settings.Saves.{
  saves, saved_stores, save_atomic, saves-IsAgreed, save-Takes,
}
use simple_mining_proxy.Settings.Reopened.{save_restarts}
use simple_mining_proxy.Settings.Sample.{
  read_number, duration_of_read, read_json, print_json, test_codec, test_codec-IsFaithful,
}

-- An empty state.json that has just been opened.
abbrev fresh_stores : Stores
fresh_stores = record {
  file = record { disk = none; cur = empty_file };
  settings = record { cur = defaults; overrides = [] };
}

fresh_start : new_store test_codec empty_file.settings ≡ ok (fresh_stores.settings, [])
unfolding new_store build build_loop cross_check amount defaults find_def defs text_eq
fresh_start = refl

-- A request of a higher margin, with a return margin that only it allows, and of a duration.
abbrev margins : Map Text
margins =
    (txt "profit_margin", print_json (whole 10))
    ∷ (txt "profit_return_margin", print_json (whole 8))
    ∷ (txt "switch_drain", print_json (json_string (txt " 90s ")))
    ∷ []

abbrev back_to_default : Map Text
back_to_default =
    (txt "profit_return_margin", txt "null") ∷ (txt "profit_margin", print_json (whole 3)) ∷ []

abbrev accept_ip : Text → Bool
accept_ip t = true

abbrev served : Stores
served = saves accept_ip test_codec ((true, margins) ∷ []) fresh_stores

-- The return margin may not stand above the margin.
refused_alone :
    (save accept_ip test_codec true ((txt "profit_margin", print_json (whole 3)) ∷ []) served).1
    ≡ some (refused ((txt "profit_return_margin", return_above_margin) ∷ []))
unfolding save saved prepare pending_of change_loop change_entry set_entry build build_loop
    build_entry read_entry take_value is_default put cross_check amount defaults find_def defs
    text_eq parse parse_amount parse_int parse_enum parse_string check_string float_of string_of
    duration_of encode format_duration read_json print_json duration_of_read read_number itoa
    digits_from is_null trim_space trim_left trim_right list_changes format settings_kept committed
    commit mutate check check_pools check_fallback active_error insert delete lookup rune_count
    matches chats_from chats_step
refused_alone = refl

accepted_together : (save accept_ip test_codec true back_to_default served).1 ≡ none
unfolding save saved prepare pending_of change_loop change_entry set_entry build build_loop
    build_entry read_entry take_value is_default put cross_check amount defaults find_def defs
    text_eq parse parse_amount parse_int parse_enum parse_string check_string float_of string_of
    duration_of encode format_duration read_json print_json duration_of_read read_number itoa
    digits_from is_null trim_space trim_left trim_right list_changes format settings_kept committed
    commit mutate check check_pools check_fallback active_error insert delete lookup rune_count
    matches chats_from chats_step
accepted_together = refl

drain_saved : served.settings.cur (txt "switch_drain") ≡ duration (90 * sec)
unfolding save saved prepare pending_of change_loop change_entry set_entry build build_loop
    build_entry read_entry take_value is_default put cross_check amount defaults find_def defs
    text_eq parse parse_amount parse_int parse_enum parse_string check_string float_of string_of
    duration_of encode format_duration read_json print_json duration_of_read read_number itoa
    digits_from is_null trim_space trim_left trim_right list_changes format settings_kept committed
    commit mutate check check_pools check_fallback active_error insert delete lookup rune_count
    matches chats_from chats_step
drain_saved = refl

-- A null in state.json is no error where 0 is allowed: the return margin is 0 then, not 1.
abbrev null_saved : Built
null_saved = build test_codec ((txt "profit_return_margin", txt "null") ∷ [])

null_accepted : null_saved.errs ≡ []
unfolding save saved prepare pending_of change_loop change_entry set_entry build build_loop
    build_entry read_entry take_value is_default put cross_check amount defaults find_def defs
    text_eq parse parse_amount parse_int parse_enum parse_string check_string float_of string_of
    duration_of encode format_duration read_json print_json duration_of_read read_number itoa
    digits_from is_null trim_space trim_left trim_right list_changes format settings_kept committed
    commit mutate check check_pools check_fallback active_error insert delete lookup rune_count
    matches chats_from chats_step
null_accepted = refl

null_is_zero : null_saved.values (txt "profit_return_margin") ≡ int 0
unfolding save saved prepare pending_of change_loop change_entry set_entry build build_loop
    build_entry read_entry take_value is_default put cross_check amount defaults find_def defs
    text_eq parse parse_amount parse_int parse_enum parse_string check_string float_of string_of
    duration_of encode format_duration read_json print_json duration_of_read read_number itoa
    digits_from is_null trim_space trim_left trim_right list_changes format settings_kept committed
    commit mutate check check_pools check_fallback active_error insert delete lookup rune_count
    matches chats_from chats_step
null_is_zero = refl

pub defaults-IsAgreed : IsAgreed defaults
defaults-IsAgreed =
    saves-IsAgreed accept_ip test_codec test_codec-IsFaithful fresh_stores [] tt fresh_start []

saves-IsAgreed_example : IsAgreed served.settings.cur
saves-IsAgreed_example =
    saves-IsAgreed accept_ip test_codec test_codec-IsFaithful fresh_stores [] tt fresh_start
      ((true, margins) ∷ [])

save-Takes_example :
    Takes test_codec
      (int_def (txt "profit_margin") (txt "profit") (txt "%") 5 0 50 applies_immediately)
      (served.settings.cur (txt "profit_margin"))
      (lookup (txt "profit_margin") back_to_default)
      ((save accept_ip test_codec true back_to_default served).0.settings.cur (txt "profit_margin"))
unfolding find_def defs text_eq
save-Takes_example =
    save-Takes accept_ip test_codec test_codec-IsFaithful fresh_stores [] tt fresh_start
      ((true, margins) ∷ []) true back_to_default accepted_together (txt "profit_margin")
      (int_def (txt "profit_margin") (txt "profit") (txt "%") 5 0 50 applies_immediately) refl

save_restarts_example :
    let r = (save accept_ip test_codec true back_to_default served).0 in
    (g : File) × ((r.file.disk ≡ some g)
      × ((open_store accept_ip false (decoded g) ≡ ok r.file)
          × ((next : Settings) × ((new_store test_codec r.file.cur.settings ≡ ok (next, []))
                × (next.cur ≡ r.settings.cur)))))
unfolding open_store
save_restarts_example =
    save_restarts accept_ip test_codec test_codec-IsFaithful true missing fresh_stores [] refl tt
      fresh_start ((true, margins) ∷ []) true false back_to_default accepted_together

save_atomic_example :
    (((save accept_ip test_codec false margins fresh_stores).1 ≢ none)
      × ((save accept_ip test_codec false margins fresh_stores).0 ≡ fresh_stores))
    ⊎ ((p : Pending) × ((prepare test_codec fresh_stores.settings margins ≡ ok p)
          × ((◌≡◌ {A = Bool} false true)
              × (save accept_ip test_codec false margins fresh_stores
                  ≡ (saved_stores accept_ip test_codec fresh_stores p, none)))))
save_atomic_example = save_atomic accept_ip test_codec false margins fresh_stores
